-- ===== src/Base/Dict.antt =====
-- Python's `dict` with text keys. A new key goes to the end, a key that is present keeps its place,
-- as in the iteration order of Python; `pop` and `del` take the entry out.
use Prim.Native.String.{String}
use mathlib.Core.Path.{◌≡◌, refl, subst}
use mathlib.Core.Bool.{Bool, false}
use mathlib.Core.Option.{Option, none, some}
use mathlib.Core.List.{List, [], ◌∷◌}
use native.Mathlib.Omega.{arith}
use text.Mathlib.Text.{◌==◌}
use text.Mathlib.TextEquality.{eq_iff}
use text.Mathlib.TextPositions.{eq_refl}
use swarmline.Base.Tests.{if◌then◌else◌, is_some, Bool-cases}
use mathlib.Core.Logic.{inl, inr}
use swarmline.Base.Seq.{All}

abbrev pub Dict {ℓ} : Type ℓ → Type ℓ
Dict V = List (String × V)

module _ {ℓ} {V : Type ℓ} where
  -- d.get(k)
  unfoldable pub get : String → Dict V → Option V
  get k [] = none
  get k ((j, v) ∷ d) = if j == k then some v else get k d

  -- d[k] = v
  unfoldable pub put : String → V → Dict V → Dict V
  put k v [] = (k, v) ∷ []
  put k v ((j, w) ∷ d) = if j == k then (k, v) ∷ d else (j, w) ∷ put k v d

  -- d.pop(k, None)
  unfoldable pub remove : String → Dict V → Dict V
  remove k [] = []
  remove k ((j, v) ∷ d) = let rest = remove k d in if j == k then rest else (j, v) ∷ rest

  -- list(d.values())
  unfoldable pub values : Dict V → List V
  values [] = []
  values ((j, v) ∷ d) = v ∷ values d

  -- list(d.keys())
  unfoldable pub keys : Dict V → List String
  keys [] = []
  keys ((j, v) ∷ d) = j ∷ keys d

  -- k in d
  abbrev pub has : String → Dict V → Bool
  has k d = is_some (get k d)

  pub get-put :
      (k j : String) (v : V) (d : Dict V) → get j (put k v d) ≡ (if k == j then some v else get j d)
  unfolding get put
  get-put k j v [] = refl
  get-put k j v ((i, w) ∷ d) = ground (arith, eq_iff k j, eq_iff i k, eq_iff i j, get-put k j v d)

  pub get-remove :
      (k j : String) (d : Dict V) → get j (remove k d) ≡ (if k == j then none else get j d)
  unfolding get remove
  get-remove k j [] = ground arith
  get-remove k j ((i, w) ∷ d) = ground (arith, eq_iff k j, eq_iff i k, eq_iff i j, get-remove k j d)

  pub get-put_self : (k : String) (v : V) (d : Dict V) → get k (put k v d) ≡ some v
  get-put_self k v d = simp (get-put, eq_refl)

  -- What holds of the new value and of all old values holds of all values after a write.
  pub put-All :
      (P : V → Type ℓ) (k : String) (v : V) (d : Dict V)
      → P v
      → All P (values d)
      → All P (values (put k v d))
  unfolding put values
  put-All P k v [] p h = (p, h)
  put-All P k v ((j, w) ∷ d) p h = elim (Bool-cases (j == k)) [
    | inl same ↦ rw same (p, h.1)
    | inr other ↦ rw other (h.0, put-All P k v d p h.1)
  ]

  pub get-All :
      (P : V → Type ℓ) (k : String) {v : V} (d : Dict V) → All P (values d) → get k d ≡ some v → P v
  unfolding get values
  get-All P k [] h e = absurd (cc)
  get-All P k {v} ((j, w) ∷ d) h e = elim (Bool-cases (j == k)) [
    | inl same ↦ let held : w ≡ v = ground arith in subst P held h.0
    | inr other ↦ get-All P k d h.1 (rw other at e)
  ]

pub ruleset dict_laws = (get-put, get-remove, get-put_self)

-- A predicate of all entries, which computes to tuples.
abbrev pub Every {ℓ κ} : {V : Type ℓ} → (String → V → Type κ) → Dict V → Type κ
Every P [] = Unit
Every P ((k, v) ∷ d) = P k v × Every P d

module _ {ℓ κ} {V : Type ℓ} where
  pub put-Every :
      (P : String → V → Type κ) (k : String) (v : V) (d : Dict V)
      → P k v
      → Every P d
      → Every P (put k v d)
  unfolding put
  put-Every P k v [] p h = (p, h)
  put-Every P k v ((j, w) ∷ d) p h = elim (Bool-cases (j == k)) [
    | inl same ↦ rw same (p, h.1)
    | inr other ↦ rw other (h.0, put-Every P k v d p h.1)
  ]

  pub remove-Every :
      (P : String → V → Type κ) (k : String) (d : Dict V)
      → Every P d
      → Every (λ (j : String) (v : V). ((j == k) ≡ false) × P j v) (remove k d)
  unfolding remove
  remove-Every P k [] h = tt
  remove-Every P k ((j, v) ∷ d) h = elim (Bool-cases (j == k)) [
    | inl same ↦ rw same (remove-Every P k d h.1)
    | inr other ↦ rw other ((other, h.0), remove-Every P k d h.1)
  ]

  pub get-Every :
      (P : String → V → Type κ) (k : String) {v : V} (d : Dict V)
      → Every P d
      → get k d ≡ some v
      → P k v
  unfolding get
  get-Every P k [] h e = absurd (cc)
  get-Every P k {v} ((j, w) ∷ d) h e = elim (Bool-cases (j == k)) [
    | inl same ↦
        let held : w ≡ v = ground arith in
        subst (λ (u : V). P k u) held (subst (λ (i : String). P i w) ((eq_iff j k).0 same) h.0)
    | inr other ↦ get-Every P k d h.1 (rw other at e)
  ]

module _ {ℓ κ κ'} {V : Type ℓ} where
  pub Every-weaken :
      {P : String → V → Type κ} {Q : String → V → Type κ'}
      → ((k : String) (v : V) → P k v → Q k v)
      → (d : Dict V) → Every P d
      → Every Q d
  Every-weaken f [] h = tt
  Every-weaken f ((k, v) ∷ d) h = (f k v h.0, Every-weaken f d h.1)
