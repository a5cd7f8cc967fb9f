-- ===== src/Base/Seq.antt =====
-- Lists as the program uses them: lengths over the native numbers, comprehensions by a Boolean
-- test, `any`, `all`, `in`.
use Prim.Native.Nat.{ℕ, zero, suc, ◌+◌, ◌≤◌}
use Prim.Native.String.{String}
use mathlib.Core.Path.{◌≡◌, refl, ap, ◌∙◌}
use mathlib.Core.Logic.{◌⊎◌, inl, inr}
use mathlib.Core.Bool.{Bool, true, false, ◌&&◌, ◌||◌}
use mathlib.Core.List.{List, [], ◌∷◌, ◌++◌, Memᴰ}
use native.Mathlib.Omega.{arith}
use text.Mathlib.Text.{◌==◌}
use text.Mathlib.TextEquality.{eq_iff}
use text.Mathlib.TextPositions.{eq_refl}
use swarmline.Base.Tests.{if◌then◌else◌}

module _ {ℓ} {A : Type ℓ} where
  abbrev pub length : List A → ℕ
  length [] = 0
  length (x ∷ xs) = suc (length xs)

  -- `[x for x in xs if test(x)]`
  abbrev pub select : (A → Bool) → List A → List A
  select test [] = []
  select test (x ∷ xs) = let rest = select test xs in if test x then x ∷ rest else rest

  abbrev pub any : (A → Bool) → List A → Bool
  any test [] = false
  any test (x ∷ xs) = test x || any test xs

  abbrev pub all : (A → Bool) → List A → Bool
  all test [] = true
  all test (x ∷ xs) = test x && all test xs

  -- A predicate by recursion, which computes to tuples.
  abbrev pub All {κ} : (A → Type κ) → List A → Type κ
  All P [] = Unit
  All P (x ∷ xs) = P x × All P xs

  pub List-cases : (xs : List A) → (xs ≡ []) ⊎ ((x : A) × (rest : List A) × (xs ≡ x ∷ rest))
  List-cases [] = inl refl
  List-cases (x ∷ rest) = inr (x, rest, refl)

  pub length-append : (xs ys : List A) → length (xs ++ ys) ≡ length xs + length ys
  length-append [] ys = omega arith
  length-append (x ∷ xs) ys = omega (arith, length-append xs ys)

  pub length-select : (test : A → Bool) (xs : List A) → length (select test xs) ≤ length xs
  length-select test [] = omega arith
  length-select test (x ∷ xs) = ground (arith, length-select test xs)

  pub select-append :
      (test : A → Bool) (xs ys : List A) → select test (xs ++ ys) ≡ select test xs ++ select test ys
  select-append test [] ys = refl
  select-append test (x ∷ xs) ys = ground (arith, select-append test xs ys)

module _ {ℓ} {A : Type ℓ} where
  -- What a comprehension keeps was in the list and passes the test.
  pub mem-select :
      (test : A → Bool) (a : A) (xs : List A)
      → Memᴰ a (select test xs)
      → Memᴰ a xs × (test a ≡ true)
  mem-select test a [] m = elim m [ ]
  mem-select test a (x ∷ xs) m = split (mem-select test a xs) (test x) refl m
    where
      split :
          (Memᴰ a (select test xs) → Memᴰ a xs × (test a ≡ true))
          → (b : Bool) → test x ≡ b
          → Memᴰ a (if b then x ∷ select test xs else select test xs)
          → Memᴰ a (x ∷ xs) × (test a ≡ true)
      split ih true e (Memᴰ.head h) = (Memᴰ.head h, ap test h ∙ e)
      split ih true e (Memᴰ.tail h) = let r = ih h in (Memᴰ.tail r.0, r.1)
      split ih false e h = let r = ih h in (Memᴰ.tail r.0, r.1)

-- `k in xs`
abbrev pub elem : String → List String → Bool
elem k [] = false
elem k (x ∷ xs) = (x == k) || elem k xs

abbrev pub take {ℓ} : {A : Type ℓ} → ℕ → List A → List A
take zero xs = []
take (suc n) [] = []
take (suc n) (x ∷ xs) = x ∷ take n xs

pub length-take {ℓ} : {A : Type ℓ} (n : ℕ) (xs : List A) → n ≤ length xs → length (take n xs) ≡ n
length-take zero xs h = refl
length-take (suc n) [] h = absurd (omega arith)
length-take (suc n) (x ∷ xs) h = omega (arith, length-take n xs)

-- No key stands twice.
abbrev pub Distinct : List String → Type 0
Distinct [] = Unit
Distinct (k ∷ ks) = (elem k ks ≡ false) × Distinct ks

pub elem-append_new :
    (k j : String) (ks : List String)
    → elem k ks ≡ false
    → (j == k) ≡ false
    → elem k (ks ++ j ∷ []) ≡ false
elem-append_new k j [] h differs = rw differs refl
elem-append_new k j (i ∷ ks) h differs = ground (arith, elem-append_new k j ks)

pub Distinct-append_new :
    (j : String) (ks : List String) → elem j ks ≡ false → Distinct ks → Distinct (ks ++ j ∷ [])
Distinct-append_new j [] new d = (refl, tt)
Distinct-append_new j (k ∷ ks) new d = (
  elem-append_new k j ks d.0 (ground (arith, eq_iff j k, eq_iff k j)),
  Distinct-append_new j ks (ground arith) d.1,
)

pub elem-append : (k : String) (xs ys : List String) → elem k (xs ++ ys) ≡ (elem k xs || elem k ys)
elem-append k [] ys = refl
elem-append k (x ∷ xs) ys = ground (arith, elem-append k xs ys)

-- Two lists with no key in common.
pub Distinct-append :
    (xs ys : List String)
    → Distinct xs
    → Distinct ys
    → ((k : String) → elem k ys ≡ true → elem k xs ≡ false)
    → Distinct (xs ++ ys)
Distinct-append [] ys d d' apart = d'
Distinct-append (x ∷ xs) ys d d' apart = (
  elem-append x xs ys ∙ ground (arith, d.0, apart x, eq_refl x),
  Distinct-append xs ys d.1 d' (λ k m. ground (arith, apart k m)),
)

pub Distinct-middle :
    (xs : List String) (y : String) (ys : List String) → Distinct (xs ++ y ∷ ys) → elem y xs ≡ false
Distinct-middle [] y ys d = refl
Distinct-middle (x ∷ xs) y ys d =
    let out : elem x (xs ++ y ∷ ys) ≡ false = d.0 in
    ground (
      arith,
      out,
      elem-append x xs (y ∷ ys),
      eq_iff x y,
      eq_iff y x,
      eq_refl x,
      Distinct-middle xs y ys d.1,
    )
