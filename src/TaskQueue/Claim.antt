-- ===== src/TaskQueue/Claim.antt =====
-- Claims and final statuses of the task queue.
use mathlib.Core.Path.{subst}
use swarmline.Base.{
  String, ◌≡◌, ◌≢◌, sym, ap, ◌∙◌, inl, inr, true, Option, none, some, ◌==◌, arith, eq_iff,
  Bool-cases, Option-cases, of_some,
}
use swarmline.Base.Dict.{Dict, get, put, get-put, get-put_self}
use swarmline.Base.Keyed.{IsKeyed, put-IsKeyed, get-of_mem}
use swarmline.TaskTypes.{TaskStatus, done, cancelled, is_todo}
use swarmline.TaskQueue.{
  TaskItem, TaskFilter, is_terminal, matches_get, pick_best, candidates, get_item, claim, close,
  complete, cancel_item,
}
use swarmline.TaskQueue.Best.{get_item-best}

module _ {Any : Type 0} where
  -- What the queue stores: each item under its own id.
  abbrev pub IsStored : Dict (TaskItem Any) → Type 0
  IsStored tasks = IsKeyed (λ t. t.id) tasks

  matches_get-todo :
      (t : TaskItem Any) (f : Option TaskFilter) → matches_get t f ≡ true → is_todo t.status ≡ true
  unfolding matches_get
  matches_get-todo t none h = ground arith
  matches_get-todo t (some f) h = ground arith

  -- What `get` leaves behind: the claimed item stands under its id, in progress.
  get_item-after :
      (f : Option TaskFilter) (tasks : Dict (TaskItem Any)) (t : TaskItem Any)
      → (get_item f tasks).0 ≡ some t
      → (get_item f tasks).1 ≡ put t.id t tasks
  unfolding get_item
  get_item-after f tasks t h = elim (Option-cases (pick_best (candidates f tasks))) [
    | inl empty ↦ absurd (cc (rw (empty, get_item) at h))
    | inr (c, best) ↦
        let e : claim c ≡ t = of_some (rw (best, get_item) at h) in
        rw (best, get_item) (ap (λ (x : TaskItem Any). put x.id x tasks) e)
  ]

  -- Two calls of `get`, one after the other and with any filters, never return the same item.
  pub get_item-once :
      (f g : Option TaskFilter) (tasks : Dict (TaskItem Any)) (t u : TaskItem Any)
      → IsStored tasks
      → (get_item f tasks).0 ≡ some t
      → (get_item g (get_item f tasks).1).0 ≡ some u
      → u.id ≢ t.id
  get_item-once f g tasks t u keyed first second same =
      let (c, taken, _, _, _) = get_item-best f tasks t first in
      let after = get_item-after f tasks t first in
      let (s, result, held, passes, _) =
        get_item-best g (put t.id t tasks) u
          (subst (λ (d : Dict (TaskItem Any)). (get_item g d).0 ≡ some u) after second) in
      let stored : get s.id (put t.id t tasks) ≡ some s =
        get-of_mem (λ x. x.id) s (put t.id t tasks) (put-IsKeyed (λ x. x.id) t tasks keyed) held in
      let here : s.id ≡ t.id = ap (λ (x : TaskItem Any). x.id) (sym result) ∙ same in
      let one : s ≡ t = of_some (
        sym stored
        ∙ ap (λ (k : String). get k (put t.id t tasks)) here
        ∙ get-put_self t.id t tasks) in
      absurd (
        cc (
          matches_get-todo s g passes,
          ap (λ (x : TaskItem Any). is_todo x.status) one,
          ap (λ (x : TaskItem Any). is_todo x.status) taken,
        ))

  get_item-none :
      (f : Option TaskFilter) (tasks : Dict (TaskItem Any))
      → (get_item f tasks).0 ≡ none
      → (get_item f tasks).1 ≡ tasks
  unfolding get_item
  get_item-none f tasks h = ground arith

  get_item-final :
      (f : Option TaskFilter) (k : String) (tasks : Dict (TaskItem Any)) (t : TaskItem Any)
      → IsStored tasks
      → get k tasks ≡ some t
      → is_terminal t.status ≡ true
      → get k (get_item f tasks).1 ≡ some t
  get_item-final f k tasks t keyed found final = elim (Option-cases (get_item f tasks).0) [
    | inl nothing ↦ rw (get_item-none f tasks nothing) found
    | inr (u, claimed) ↦
        let (c, result, held, passes, _) = get_item-best f tasks u claimed in
        let here : u.id ≡ c.id = ap (λ (x : TaskItem Any). x.id) result in
        rw (get_item-after f tasks u claimed) (
          rw get-put (elim (Bool-cases (u.id == k)) [
            | inr other ↦ rw other found
            | inl same ↦
                let at_k : c.id ≡ k = sym here ∙ (eq_iff u.id k).0 same in
                let one : c ≡ t = of_some (
                  sym (get-of_mem (λ x. x.id) c tasks keyed held)
                  ∙ ap (λ (j : String). get j tasks) at_k
                  ∙ found) in
                absurd (
                  ground
                    (arith, matches_get-todo c f passes, ap (λ (x : TaskItem Any). x.status) one))
          ]))
  ]

  close-final :
      (status : TaskStatus) (id k : String) (tasks : Dict (TaskItem Any)) (t : TaskItem Any)
      → get k tasks ≡ some t
      → is_terminal t.status ≡ true
      → get k (close status id tasks).1 ≡ some t
  close-final status id k tasks t found final = elim (Option-cases (get id tasks)) [
    | inl missing ↦ rw (missing, close) found
    | inr (x, held) ↦ elim (Bool-cases (is_terminal x.status)) [
      | inl refused ↦ rw (held, close, refused) found
      | inr open_item ↦
          rw (held, close, open_item)
            (rw get-put (elim (Bool-cases (id == k)) [
              | inl same ↦
                  let e : x ≡ t =
                    of_some (
                      sym held ∙ ap (λ (j : String). get j tasks) ((eq_iff id k).0 same) ∙ found) in
                  absurd (cc (ap (λ (y : TaskItem Any). is_terminal y.status) e))
              | inr other ↦ rw other found
            ]))
    ]
  ]

  -- A task that is done or cancelled is left as it is by `complete` and `cancel` of any id and by
  -- `get` with any filters, provided that each item is stored under its own id.
  pub final_stays :
      (id k : String) (f : Option TaskFilter) (tasks : Dict (TaskItem Any)) (t : TaskItem Any)
      → IsStored tasks
      → get k tasks ≡ some t
      → is_terminal t.status ≡ true
      → (get k (complete id tasks).1 ≡ some t)
        × (get k (cancel_item id tasks).1 ≡ some t)
        × (get k (get_item f tasks).1 ≡ some t)
  unfolding complete cancel_item
  final_stays id k f tasks t keyed found final = (
    close-final done id k tasks t found final,
    close-final cancelled id k tasks t found final,
    get_item-final f k tasks t keyed found final,
  )
