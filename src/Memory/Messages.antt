-- ===== src/Memory/Messages.antt =====
-- swarmline/memory/inmemory.py: what remains of a conversation after a deletion.
use swarmline.Base.{
  ℕ, zero, suc, ◌+◌, ◌-◌, ◌≤◌, min, String, true, false, none, some, List, [], ◌∷◌, ◌≡◌, refl, sym,
  ap, ◌∙◌, arith, Bool-cases, inl, inr, eq_refl, leb, length,
}
use swarmline.Memory.{
  Scope, same_scope, look, store, Memory, MemoryMessage, drop, last, listed, messages_of,
  get_messages, delete_messages_before,
}

same_scope_self : (k : Scope) → same_scope k k ≡ true
same_scope_self (user, none) = rw (eq_refl user) refl
same_scope_self (user, some topic) = rw (eq_refl user, eq_refl topic) refl

pub look-store_self {ℓ} :
    {V : Type ℓ} (k : Scope) (v : V) (t : List (Scope × V)) → look k (store k v t) ≡ some v
unfolding look store
look-store_self k v [] = rw (look, same_scope_self k) refl
look-store_self k v ((j, w) ∷ t) = elim (Bool-cases (same_scope j k)) [
  | inl same ↦ rw (store, same, look, same_scope_self k) refl
  | inr other ↦ rw (store, other, look, other) (look-store_self k v t)
]

zero_plus : (m : ℕ) → m ≡ 0 + m
zero_plus m = omega arith

leb-suc : (n : ℕ) → leb (suc n) 0 ≡ false
leb-suc n = ground arith

leb-zero : (n : ℕ) → leb n 0 ≡ true → n ≡ 0
leb-zero n h = ground arith

module _ {A : Type 0} where
  length-drop : (n : ℕ) (xs : List A) → length (drop n xs) ≡ length xs - n
  length-drop zero xs = omega arith
  length-drop (suc n) [] = omega arith
  length-drop (suc n) (x ∷ xs) = length-drop n xs ∙ omega arith

  drop-nil : (m : ℕ) → drop {A = A} m [] ≡ []
  drop-nil zero = refl
  drop-nil (suc m) = refl

  drop-drop : (m n : ℕ) (xs : List A) → drop m (drop n xs) ≡ drop (n + m) xs
  drop-drop m zero xs = ap (λ (k : ℕ). drop k xs) (zero_plus m)
  drop-drop m (suc n) [] = drop-nil m ∙ sym (drop-nil (suc n + m))
  drop-drop m (suc n) (x ∷ xs) =
      let both : suc n + m ≡ suc (n + m) = omega arith in
      drop-drop m n xs ∙ ap (λ (k : ℕ). drop k (x ∷ xs)) (sym both)

  last-last : (l k : ℕ) (xs : List A) → last l (last k xs) ≡ last (min l k) xs
  last-last l k xs =
      let count : length (last k xs) ≡ length xs - (length xs - k) =
        length-drop (length xs - k) xs in
      let total : (length xs - k) + (length (last k xs) - l) ≡ length xs - min l k =
        omega (arith, count) in
      drop-drop (length (last k xs) - l) (length xs - k) xs ∙ ap (λ (n : ℕ). drop n xs) total

  last-zero : (xs : List A) → last 0 xs ≡ []
  last-zero [] = refl
  last-zero (x ∷ xs) =
      let shorter : length (x ∷ xs) - 0 ≡ suc (length xs - 0) = omega arith in
      ap (λ (n : ℕ). drop n (x ∷ xs)) shorter ∙ last-zero xs

  last-all : (k : ℕ) (xs : List A) → length xs ≤ k → last k xs ≡ xs
  last-all k xs h =
      let nothing : length xs - k ≡ 0 = omega arith in ap (λ (n : ℕ). drop n xs) nothing

module _ {Any : Type 0} where
  -- `get_messages` in one case.
  get_messages-last :
      (user topic : String) (limit : ℕ) (m : Memory Any)
      → get_messages user topic limit m ≡ last limit (messages_of user topic m)
  unfolding get_messages
  get_messages-last user topic zero m = sym (last-zero (messages_of user topic m))
  get_messages-last user topic (suc limit) m = rw (get_messages, leb-suc limit) refl

  messages_of-store :
      (user topic : String) (msgs : List (MemoryMessage Any)) (m : Memory Any)
      → messages_of user topic (record m { messages = store (user, some topic) msgs m.messages })
        ≡ msgs
  unfolding messages_of
  messages_of-store user topic msgs m =
      ap (listed {A = MemoryMessage Any}) (look-store_self (user, some topic) msgs m.messages)

  messages_of-delete :
      (user topic : String) (keep : ℕ) (m : Memory Any)
      → messages_of user topic (delete_messages_before user topic keep m).1
        ≡ last keep (messages_of user topic m)
  unfolding delete_messages_before
  messages_of-delete user topic keep m = elim (Bool-cases (leb keep 0)) [
    | inl none_kept ↦
        rw (delete_messages_before, none_kept)
          (messages_of-store user topic [] m
            ∙ (sym (last-zero (messages_of user topic m))
                ∙ ap (λ (n : ℕ). last n (messages_of user topic m))
                    (sym (leb-zero keep none_kept))))
    | inr kept ↦ elim (Bool-cases (leb (length (messages_of user topic m) - keep) 0)) [
      | inl short ↦
          rw (delete_messages_before, kept, short)
            (sym (
              last-all keep (messages_of user topic m)
                (omega (arith, leb-zero (length (messages_of user topic m) - keep) short))))
      | inr long ↦
          rw (delete_messages_before, kept, long)
            (messages_of-store user topic (last keep (messages_of user topic m)) m)
    ]
  ]

  -- After the old messages of a conversation are deleted, a query for its last ones gives what a query
  -- for as many, but not more than are kept, gives before.
  pub get_messages-delete_messages_before :
      (user topic : String) (limit keep : ℕ) (m : Memory Any)
      → get_messages user topic limit (delete_messages_before user topic keep m).1
        ≡ get_messages user topic (min limit keep) m
  get_messages-delete_messages_before user topic limit keep m =
      get_messages-last user topic limit (delete_messages_before user topic keep m).1
      ∙ (ap (last limit) (messages_of-delete user topic keep m)
          ∙ (last-last limit keep (messages_of user topic m)
              ∙ sym (get_messages-last user topic (min limit keep) m)))
