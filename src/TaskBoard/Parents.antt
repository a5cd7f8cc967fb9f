-- ===== src/TaskBoard/Parents.antt =====
-- No call but `create_task` changes a parent link.
use swarmline.Base.{
  String, ◌≡◌, refl, sym, ap, ◌∙◌, inl, inr, not, ◌||◌, some, ◌==◌, eq_iff, is_some, Bool-cases,
  Option-cases,
}
use swarmline.Base.Dict.{Dict, get, put, get-put}
use swarmline.TaskTypes.{is_open, is_blocked}
use swarmline.GraphTask.{GraphTaskItem}
use swarmline.TaskBoard.{
  Python, Board, checkout_task, block_task, unblock_task, cancel_task, claim, block, unblock,
  cancel,
}
use swarmline.TaskBoard.Links.{parent_in, link}

module _ {Float : Type 0} where
  pub parent_in-write :
      (id k : String) (t u : GraphTaskItem Float) (tasks : Dict (GraphTaskItem Float))
      → get id tasks ≡ some t
      → u.parent_task_id ≡ t.parent_task_id
      → parent_in (put id u tasks) k ≡ parent_in tasks k
  parent_in-write id k t u tasks found same = elim (Bool-cases (id == k)) [
    | inl here ↦
        rw (get-put, here)
          (same
            ∙ ap link (sym found)
            ∙ ap (λ (j : String). parent_in tasks j) ((eq_iff id k).0 here))
    | inr other ↦ rw (get-put, other) refl
  ]

  pub parent_in-checkout :
      (id agent k : String) (now : Float) (b : Board Float)
      → parent_in (checkout_task id agent now b).1.tasks k ≡ parent_in b.tasks k
  unfolding checkout_task
  parent_in-checkout id agent k now b = elim (Option-cases (get id b.tasks)) [
    | inl missing ↦ rw (missing, checkout_task) refl
    | inr (t, found) ↦ elim (Bool-cases (is_some t.checkout_agent_id || not (is_open t.status))) [
      | inl refused ↦ rw (checkout_task, found, refused) refl
      | inr free ↦
          rw (checkout_task, found, free)
            (parent_in-write id k t (claim agent now t) b.tasks found refl)
    ]
  ]

  pub parent_in-block :
      (py : Python Float) (id reason k : String) (b : Board Float)
      → parent_in (block_task py id reason b).1.tasks k ≡ parent_in b.tasks k
  unfolding block_task
  parent_in-block py id reason k b = elim (Option-cases (get id b.tasks)) [
    | inl missing ↦ rw (missing, block_task) refl
    | inr (t, found) ↦
        elim (Bool-cases ((reason == "" || py.strip reason == "") || not (is_open t.status))) [
          | inl refused ↦ rw (block_task, found, refused) refl
          | inr free ↦
              rw (block_task, found, free)
                (parent_in-write id k t (block (py.strip reason) t) b.tasks found refl)
        ]
  ]

  pub parent_in-unblock :
      (id k : String) (b : Board Float)
      → parent_in (unblock_task id b).1.tasks k ≡ parent_in b.tasks k
  unfolding unblock_task
  parent_in-unblock id k b = elim (Option-cases (get id b.tasks)) [
    | inl missing ↦ rw (missing, unblock_task) refl
    | inr (t, found) ↦ elim (Bool-cases (not (is_blocked t.status))) [
      | inl refused ↦ rw (unblock_task, found, refused) refl
      | inr free ↦
          rw (unblock_task, found, free) (parent_in-write id k t (unblock t) b.tasks found refl)
    ]
  ]

  pub parent_in-cancel :
      (id k : String) (now : Float) (b : Board Float)
      → parent_in (cancel_task id now b).1.tasks k ≡ parent_in b.tasks k
  unfolding cancel_task
  parent_in-cancel id k now b = elim (Option-cases (get id b.tasks)) [
    | inl missing ↦ rw (missing, cancel_task) refl
    | inr (t, found) ↦ elim (Bool-cases (not (is_open t.status))) [
      | inl refused ↦ rw (cancel_task, found, refused) refl
      | inr free ↦
          rw (cancel_task, found, free) (parent_in-write id k t (cancel now t) b.tasks found refl)
    ]
  ]
