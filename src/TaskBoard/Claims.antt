-- ===== src/TaskBoard/Claims.antt =====
-- Who holds a task: `checkout_task` claims a task for one agent, `block_task` and `cancel_task`
-- release it.
use swarmline.Base.{
  String, ◌≡◌, ◌≢◌, refl, ◌⊎◌, inl, inr, true, none, ◌==◌, ◌||◌, not, is_some, arith, All,
  Bool-cases, Option-cases,
}
use swarmline.Base.Dict.{get, put, values, get-put_self, put-All, get-All}
use swarmline.TaskTypes.{in_progress, done, is_open, is_blocked}
use swarmline.GraphTask.{GraphTaskItem}
use swarmline.TaskBoard.{
  Python, Board, checkout_task, block_task, unblock_task, cancel_task, claim, block, unblock,
  cancel,
}

module _ {Float : Type 0} where
  -- A task that an agent holds is in progress or done.
  abbrev pub IsClaimed : GraphTaskItem Float → Type 0
  IsClaimed t = is_some t.checkout_agent_id ≡ true → (t.status ≡ in_progress) ⊎ (t.status ≡ done)

  abbrev pub ClaimsHold : Board Float → Type 0
  ClaimsHold b = All IsClaimed (values b.tasks)

  -- After a checkout that succeeds, a checkout of the same task by any agent, at any time, is refused
  -- and changes nothing.
  pub checkout_task-exclusive :
      (id agent other : String) (now later : Float) (b : Board Float)
      → (checkout_task id agent now b).0 ≢ none
      → checkout_task id other later (checkout_task id agent now b).1
        ≡ (none, (checkout_task id agent now b).1)
  unfolding checkout_task
  checkout_task-exclusive id agent other now later b h = elim (Option-cases (get id b.tasks)) [
    | inl missing ↦ absurd (h (rw (missing, checkout_task) refl))
    | inr (t, found) ↦ ground (arith, found, get-put_self id (claim agent now t) b.tasks)
  ]

  write-Claims :
      (id : String) (t : GraphTaskItem Float) (b : Board Float)
      → IsClaimed t
      → ClaimsHold b
      → ClaimsHold (record b { tasks = put id t b.tasks })
  write-Claims id t b p h = put-All IsClaimed id t b.tasks p h

  pub checkout_task-Claims :
      (id agent : String) (now : Float) (b : Board Float)
      → ClaimsHold b
      → ClaimsHold (checkout_task id agent now b).1
  unfolding checkout_task values
  checkout_task-Claims id agent now b h = elim (Option-cases (get id b.tasks)) [
    | inl missing ↦ rw (missing, checkout_task) h
    | inr (t, found) ↦ elim (Bool-cases (is_some t.checkout_agent_id || not (is_open t.status))) [
      | inl refused ↦ rw (checkout_task, found, refused) h
      | inr free ↦
          rw (checkout_task, found, free) (write-Claims id (claim agent now t) b (λ _. inl refl) h)
    ]
  ]

  pub block_task-Claims :
      (py : Python Float) (id reason : String) (b : Board Float)
      → ClaimsHold b
      → ClaimsHold (block_task py id reason b).1
  unfolding block_task values
  block_task-Claims py id reason b h = elim (Option-cases (get id b.tasks)) [
    | inl missing ↦ rw (missing, block_task) h
    | inr (t, found) ↦
        elim (Bool-cases ((reason == "" || py.strip reason == "") || not (is_open t.status))) [
          | inl refused ↦ rw (block_task, found, refused) h
          | inr free ↦
              rw (block_task, found, free)
                (write-Claims id (block (py.strip reason) t) b (λ e. absurd (cc)) h)
        ]
  ]

  pub unblock_task-Claims :
      (id : String) (b : Board Float) → ClaimsHold b → ClaimsHold (unblock_task id b).1
  unfolding unblock_task values
  unblock_task-Claims id b h = elim (Option-cases (get id b.tasks)) [
    | inl missing ↦ rw (missing, unblock_task) h
    | inr (t, found) ↦ elim (Bool-cases (not (is_blocked t.status))) [
      | inl refused ↦ rw (unblock_task, found, refused) h
      | inr free ↦
          let held = get-All IsClaimed id b.tasks h found in
          rw (unblock_task, found, free)
            (write-Claims id (unblock t) b (λ e. ground (arith, held e)) h)
    ]
  ]

  pub cancel_task-Claims :
      (id : String) (now : Float) (b : Board Float)
      → ClaimsHold b
      → ClaimsHold (cancel_task id now b).1
  unfolding cancel_task values
  cancel_task-Claims id now b h = elim (Option-cases (get id b.tasks)) [
    | inl missing ↦ rw (missing, cancel_task) h
    | inr (t, found) ↦ elim (Bool-cases (not (is_open t.status))) [
      | inl refused ↦ rw (cancel_task, found, refused) h
      | inr free ↦
          rw (cancel_task, found, free) (write-Claims id (cancel now t) b (λ e. absurd (cc)) h)
    ]
  ]
