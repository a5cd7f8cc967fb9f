-- ===== src/Hooks/Merging.antt =====
-- swarmline/hooks/registry.py: the hooks of a merged registry.
use mathlib.Core.Path.{subst}
use swarmline.Base.{
  String, Bool, false, none, List, [], ◌∷◌, ◌++◌, ◌||◌, ◌==◌, if◌then◌else◌, ◌≡◌, refl, sym, ap,
  ◌∙◌, arith, Bool-cases, inl, inr, Option-cases, eq_iff, eq_refl, select, select-append,
  append_assoc, append-nil, All, elem,
}
use swarmline.Base.Dict.{get, put, keys, get-put, has}
use swarmline.Hooks.{HookEntry, HookRegistry, get_hooks, add_hook, add_each, absorb, merge}

module _ {Callback : Type 0} where
  abbrev pub of_event : String → HookEntry Callback → Bool
  of_event event h = h.event == event

  -- Each list holds the entries of its event, and no event has two lists.
  abbrev pub IsFiled : HookRegistry Callback → Type 0
  IsFiled [] = Unit
  IsFiled ((event, entries) ∷ r) =
      All (λ h. h.event ≡ event) entries × (elem event (keys r) ≡ false) × IsFiled r

  abbrev pub all_entries : HookRegistry Callback → List (HookEntry Callback)
  all_entries [] = []
  all_entries ((event, entries) ∷ r) = entries ++ all_entries r

  get_hooks-put :
      (k e : String) (entries : List (HookEntry Callback)) (r : HookRegistry Callback)
      → get_hooks e (put k entries r) ≡ (if k == e then entries else get_hooks e r)
  unfolding get_hooks
  get_hooks-put k e entries r = elim (Bool-cases (k == e)) [
    | inl same ↦ rw (get_hooks, get-put k e entries r, same) refl
    | inr other ↦ rw (get_hooks, get-put k e entries r, other) refl
  ]

  get_hooks-missing : (e : String) (r : HookRegistry Callback) → get e r ≡ none → get_hooks e r ≡ []
  unfolding get_hooks
  get_hooks-missing e r h = rw (get_hooks, h) refl

  get_hooks-ensured :
      (k e : String) (r : HookRegistry Callback)
      → get_hooks e (if has k r then r else put k [] r) ≡ get_hooks e r
  get_hooks-ensured k e r = elim (Option-cases (get k r)) [
    | inr (v, held) ↦ rw held refl
    | inl missing ↦ elim (Bool-cases (k == e)) [
      | inl same ↦
          let e_missing : get_hooks e r ≡ [] =
            subst (λ (j : String). get_hooks j r ≡ []) ((eq_iff k e).0 same)
              (get_hooks-missing k r missing) in
          rw (missing, get_hooks-put k e [] r, same, e_missing) refl
      | inr other ↦ rw (missing, get_hooks-put k e [] r, other) refl
    ]
  ]

  get_hooks-add_hook :
      (e : String) (h : HookEntry Callback) (r : HookRegistry Callback)
      → get_hooks e (add_hook h.event h.callback h.matcher r)
        ≡ get_hooks e r ++ select (of_event e) (h ∷ [])
  unfolding add_hook
  get_hooks-add_hook e h r = elim (Bool-cases (h.event == e)) [
    | inl same ↦
        let at_e : get_hooks h.event r ≡ get_hooks e r =
          ap (λ (j : String). get_hooks j r) ((eq_iff h.event e).0 same) in
        rw (add_hook, get_hooks-put h.event e, same, get_hooks-ensured h.event h.event r, at_e) refl
    | inr other ↦
        rw (add_hook, get_hooks-put h.event e, other, get_hooks-ensured h.event e r)
          (sym (append-nil (get_hooks e r)))
  ]

  get_hooks-add_each :
      (e : String) (hs : List (HookEntry Callback)) (r : HookRegistry Callback)
      → get_hooks e (add_each hs r) ≡ get_hooks e r ++ select (of_event e) hs
  unfolding add_each
  get_hooks-add_each e [] r = sym (append-nil (get_hooks e r))
  get_hooks-add_each e (h ∷ hs) r =
      get_hooks-add_each e hs (add_hook h.event h.callback h.matcher r)
      ∙ (ap (λ (l : List (HookEntry Callback)). l ++ select (of_event e) hs)
            (get_hooks-add_hook e h r)
          ∙ (append_assoc (get_hooks e r) (select (of_event e) (h ∷ [])) (select (of_event e) hs)
              ∙ ap (λ (l : List (HookEntry Callback)). get_hooks e r ++ l)
                  (sym (select-append (of_event e) (h ∷ []) hs))))

  get_hooks-absorb :
      (e : String) (others r : HookRegistry Callback)
      → get_hooks e (absorb others r) ≡ get_hooks e r ++ select (of_event e) (all_entries others)
  unfolding absorb
  get_hooks-absorb e [] r = sym (append-nil (get_hooks e r))
  get_hooks-absorb e ((event, entries) ∷ others) r =
      get_hooks-absorb e others (add_each entries r)
      ∙ (ap (λ (l : List (HookEntry Callback)). l ++ select (of_event e) (all_entries others))
            (get_hooks-add_each e entries r)
          ∙ (append_assoc (get_hooks e r) (select (of_event e) entries)
                (select (of_event e) (all_entries others))
              ∙ ap (λ (l : List (HookEntry Callback)). get_hooks e r ++ l)
                  (sym (select-append (of_event e) entries (all_entries others)))))

  select-own :
      (e : String) (entries : List (HookEntry Callback))
      → All (λ h. h.event ≡ e) entries
      → select (of_event e) entries ≡ entries
  select-own e [] filed = refl
  select-own e (h ∷ hs) filed = rw (filed.0, eq_refl e, select-own e hs filed.1) refl

  select-others :
      (e event : String) (entries : List (HookEntry Callback))
      → (event == e) ≡ false
      → All (λ h. h.event ≡ event) entries
      → select (of_event e) entries ≡ []
  select-others e event [] other filed = refl
  select-others e event (h ∷ hs) other filed =
      rw (filed.0, other, select-others e event hs other filed.1) refl

  get_hooks-unknown :
      (e : String) (r : HookRegistry Callback) → elem e (keys r) ≡ false → get_hooks e r ≡ []
  unfolding get_hooks get keys
  get_hooks-unknown e [] h = refl
  get_hooks-unknown e ((event, entries) ∷ r) h = elim (Bool-cases (event == e)) [
    | inl same ↦ absurd (ground arith)
    | inr other ↦ rw (get_hooks, get, other) (get_hooks-unknown e r (ground arith))
  ]

  select-all_entries :
      (e : String) (r : HookRegistry Callback)
      → IsFiled r
      → select (of_event e) (all_entries r) ≡ get_hooks e r
  unfolding get_hooks get
  select-all_entries e [] filed = refl
  select-all_entries e ((event, entries) ∷ r) filed =
      select-append (of_event e) entries (all_entries r) ∙ elim (Bool-cases (event == e)) [
        | inl same ↦
            let own : All (λ h. h.event ≡ e) entries =
              subst (λ (j : String). All (λ (h : HookEntry Callback). h.event ≡ j) entries)
                ((eq_iff event e).0 same) filed.0 in
            let unknown : elem e (keys r) ≡ false =
              subst (λ (j : String). elem j (keys r) ≡ false) ((eq_iff event e).0 same) filed.1 in
            rw
              (
                select-own e entries own,
                select-all_entries e r filed.2,
                get_hooks-unknown e r unknown,
                get_hooks,
                get,
                same,
              )
              (append-nil entries)
        | inr other ↦
            rw
              (
                select-others e event entries other filed.0,
                select-all_entries e r filed.2,
                get_hooks,
                get,
                other,
              )
              refl
      ]

  elem-keys-put :
      (j k : String) (entries : List (HookEntry Callback)) (r : HookRegistry Callback)
      → elem j (keys (put k entries r)) ≡ (k == j) || elem j (keys r)
  unfolding put keys
  elem-keys-put j k entries [] = refl
  elem-keys-put j k entries ((event, old) ∷ r) =
      ground (arith, elem-keys-put j k entries r, eq_iff event k)

  put-IsFiled :
      (k : String) (entries : List (HookEntry Callback)) (r : HookRegistry Callback)
      → All (λ h. h.event ≡ k) entries
      → IsFiled r
      → IsFiled (put k entries r)
  unfolding put keys
  put-IsFiled k entries [] own filed = (own, refl, tt)
  put-IsFiled k entries ((event, old) ∷ r) own filed = elim (Bool-cases (event == k)) [
    | inl same ↦
        rw (put, same)
          (
            own,
            subst (λ (j : String). elem j (keys r) ≡ false) ((eq_iff event k).0 same) filed.1,
            filed.2,
          )
    | inr other ↦
        rw (put, other)
          (
            filed.0,
            rw (elem-keys-put event k entries r) (ground (arith, eq_iff k event, eq_iff event k)),
            put-IsFiled k entries r own filed.2,
          )
  ]

  get_hooks-own :
      (e : String) (r : HookRegistry Callback)
      → IsFiled r
      → All (λ (h : HookEntry Callback). h.event ≡ e) (get_hooks e r)
  unfolding get_hooks get
  get_hooks-own e [] filed = tt
  get_hooks-own e ((event, entries) ∷ r) filed = elim (Bool-cases (event == e)) [
    | inl same ↦
        rw (get_hooks, get, same)
          (subst (λ (j : String). All (λ (h : HookEntry Callback). h.event ≡ j) entries)
            ((eq_iff event e).0 same) filed.0)
    | inr other ↦ rw (get_hooks, get, other) (get_hooks-own e r filed.2)
  ]

  All-append_one :
      (e : String) (h : HookEntry Callback) (hs : List (HookEntry Callback))
      → h.event ≡ e
      → All (λ (h : HookEntry Callback). h.event ≡ e) hs
      → All (λ (h : HookEntry Callback). h.event ≡ e) (hs ++ h ∷ [])
  All-append_one e h [] own filed = (own, tt)
  All-append_one e h (g ∷ hs) own filed = (filed.0, All-append_one e h hs own filed.1)

  ensured-IsFiled :
      (k : String) (r : HookRegistry Callback)
      → IsFiled r
      → IsFiled (if has k r then r else put k [] r)
  ensured-IsFiled k r filed = elim (Bool-cases (has k r)) [
    | inl held ↦ rw held filed
    | inr missing ↦ rw missing (put-IsFiled k [] r tt filed)
  ]

  -- A registration keeps each list of hooks to the entries of its event, with one list for an event.
  pub add_hook-IsFiled :
      (event : String) (callback : Callback) (matcher : String) (r : HookRegistry Callback)
      → IsFiled r
      → IsFiled (add_hook event callback matcher r)
  unfolding add_hook
  add_hook-IsFiled event callback matcher r filed =
      let ensured = if has event r then r else put event [] r in
      let kept : IsFiled ensured = ensured-IsFiled event r filed in
      put-IsFiled event _ ensured (All-append_one event _ _ refl (get_hooks-own event ensured kept))
        kept

  -- In registries whose lists are those of their events, one for each, the hooks of an event in the
  -- merged registry are those of the first, then those of the second, in their orders.
  pub get_hooks-merge :
      (e : String) (r other : HookRegistry Callback)
      → IsFiled r
      → IsFiled other
      → get_hooks e (merge r other) ≡ get_hooks e r ++ get_hooks e other
  unfolding merge get_hooks get
  get_hooks-merge e r other filed filed' =
      get_hooks-absorb e other (absorb r [])
      ∙ rw
          (get_hooks-absorb e r [], select-all_entries e r filed, select-all_entries e other filed')
          refl
