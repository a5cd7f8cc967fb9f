-- ===== src/Base/Keyed.antt =====
-- Dictionaries whose values carry their own key in a field, as `tasks[task.id] = task` builds them.
use Prim.Native.String.{String}
use mathlib.Core.Path.{◌≡◌, refl, sym, ap, ◌∙◌}
use mathlib.Core.Logic.{inl, inr}
use mathlib.Core.Bool.{false}
use mathlib.Core.Option.{some}
use mathlib.Core.List.{[], ◌∷◌, Memᴰ}
use native.Mathlib.Omega.{arith}
use text.Mathlib.Text.{◌==◌}
use text.Mathlib.TextEquality.{eq_iff}
use swarmline.Base.Tests.{Bool-cases}
use swarmline.Base.Seq.{elem}
use swarmline.Base.Walk.{elem-keys}
use swarmline.Base.Dict.{Dict, get, put, keys, values}

module _ {V : Type 0} (id : V → String) where
  -- Each value stands under its own key, and no key stands twice.
  abbrev pub IsKeyed : Dict V → Type 0
  IsKeyed [] = Unit
  IsKeyed ((j, v) ∷ d) = (id v ≡ j) × (elem j (keys d) ≡ false) × IsKeyed d

  elem-keys-put :
      (j k : String) (v : V) (d : Dict V)
      → (k == j) ≡ false
      → elem j (keys d) ≡ false
      → elem j (keys (put k v d)) ≡ false
  unfolding keys put
  elem-keys-put j k v [] h new = rw h refl
  elem-keys-put j k v ((i, w) ∷ d) h new = elim (Bool-cases (i == k)) [
    | inl same ↦ rw same (ground (arith, eq_iff i k, eq_iff k j, eq_iff i j))
    | inr other ↦ rw other (ground (arith, elem-keys-put j k v d))
  ]

  pub put-IsKeyed : (v : V) (d : Dict V) → IsKeyed d → IsKeyed (put (id v) v d)
  unfolding keys put
  put-IsKeyed v [] h = (refl, refl, tt)
  put-IsKeyed v ((j, w) ∷ d) h = elim (Bool-cases (j == id v)) [
    | inl same ↦
        let here : j ≡ id v = (eq_iff j (id v)).0 same in
        rw same (refl, ap (λ (x : String). elem x (keys d)) (sym here) ∙ h.1, h.2)
    | inr other ↦ rw other (
      h.0,
      elem-keys-put j (id v) v d (ground (arith, eq_iff (id v) j, eq_iff j (id v))) h.1,
      put-IsKeyed v d h.2,
    )
  ]

  pub get-of_mem : (v : V) (d : Dict V) → IsKeyed d → Memᴰ v (values d) → get (id v) d ≡ some v
  unfolding get values keys
  get-of_mem v [] h m = elim m [ ]
  get-of_mem v ((j, w) ∷ d) h (Memᴰ.head e) =
      rw ((eq_iff j (id v)).1 (sym h.0 ∙ ap id (sym e))) (ap some (sym e))
  get-of_mem v ((j, w) ∷ d) h (Memᴰ.tail m) =
      let rest : get (id v) d ≡ some v = get-of_mem v d h.2 m in
      elim (Bool-cases (j == id v)) [
        | inl same ↦ absurd (
            cc (
              elem-keys (id v) d rest,
              ap (λ (x : String). elem x (keys d)) ((eq_iff j (id v)).0 same),
              h.1,
            ))
        | inr other ↦ rw other rest
      ]
