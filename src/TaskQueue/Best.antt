-- ===== src/TaskQueue/Best.antt =====
-- The choice of `get`: of the items that match, the first of the most urgent.
use mathlib.Core.List.{Memᴰ}
use mathlib.Core.Path.{subst}
use swarmline.Base.{
  ℕ, ◌≤◌, ◌≡◌, refl, sym, inl, inr, true, Option, some, List, [], ◌∷◌, arith, if◌then◌else◌, ltb,
  All, Bool-cases, List-cases, of_some, mem-select,
}
use swarmline.Base.Dict.{Dict, values}
use swarmline.TaskQueue.{
  TaskItem, TaskFilter, priority_order, matches_get, min_from, pick_best, candidates, get_item,
  claim,
}

module _ {Any : Type 0} where
  abbrev pub urgency : TaskItem Any → ℕ
  urgency t = priority_order t.priority

  min_from-mem :
      (best : TaskItem Any) (ts : List (TaskItem Any)) → Memᴰ (min_from best ts) (best ∷ ts)
  unfolding min_from
  min_from-mem best [] = Memᴰ.head refl
  min_from-mem best (t ∷ ts) = elim (Bool-cases (ltb (urgency t) (urgency best))) [
    | inl less ↦ rw less (Memᴰ.tail (min_from-mem t ts))
    | inr more ↦ rw more (kept (min_from-mem best ts))
  ]
    where
      kept : {x : TaskItem Any} → Memᴰ x (best ∷ ts) → Memᴰ x (best ∷ t ∷ ts)
      kept (Memᴰ.head e) = Memᴰ.head e
      kept (Memᴰ.tail m) = Memᴰ.tail (Memᴰ.tail m)

  min_from-le :
      (best : TaskItem Any) (ts : List (TaskItem Any))
      → (urgency (min_from best ts) ≤ urgency best)
        × All (λ t. urgency (min_from best ts) ≤ urgency t) ts
  unfolding min_from
  min_from-le best [] = (omega arith, tt)
  min_from-le best (t ∷ ts) =
      let c = if ltb (urgency t) (urgency best) then t else best in
      let r = min_from-le c ts in (ground (arith, r.0), (ground (arith, r.0), r.1))

  -- When `get` returns an item, the stored item that it claims is among the items that match the
  -- filters, and no matching item is more urgent.
  pub get_item-best :
      (filters : Option TaskFilter) (tasks : Dict (TaskItem Any)) (t : TaskItem Any)
      → (get_item filters tasks).0 ≡ some t
      → (stored : TaskItem Any) × (t ≡ claim stored)
        × Memᴰ stored (values tasks)
        × (matches_get stored filters ≡ true)
        × All (λ other. urgency stored ≤ urgency other) (candidates filters tasks)
  unfolding get_item candidates pick_best
  get_item-best filters tasks t h = elim (List-cases (candidates filters tasks)) [
    | inl empty ↦ absurd (cc (rw (empty, get_item) at h))
    | inr (c, cs, found) ↦
        let best = min_from c cs in
        let kept =
          mem-select (λ x. matches_get x filters) best (values tasks)
            (subst (λ (xs : List (TaskItem Any)). Memᴰ best xs) (sym found) (min_from-mem c cs)) in
        let least = min_from-le c cs in
        (best, sym (of_some (rw (found, get_item) at h)), kept.0, kept.1, rw found least)
  ]
