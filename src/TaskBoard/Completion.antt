-- ===== src/TaskBoard/Completion.antt =====
-- `complete_task` and the propagation that it starts.
use mathlib.Core.Path.{subst}
use swarmline.Base.{
  suc, String, ◌≡◌, ◌≢◌, refl, sym, ◌∙◌, ◌⊎◌, inl, inr, Bool, true, false, Option, none, some, [],
  ◌∷◌, ◌==◌, not, arith, eq_refl, Bool-cases, Option-cases, of_some, length,
}
use swarmline.Base.Dict.{Dict, get, put, values, keys, get-put, get-put_self, put-All}
use swarmline.Base.Walk.{unseen-le-length, elem-keys}
use swarmline.TaskTypes.{is_in_progress}
use swarmline.GraphTask.{GraphTaskItem}
use swarmline.TaskBoard.{
  Python, Board, propagate_parent, complete_task, children_of, finish, all_done,
}
use swarmline.TaskBoard.Claims.{IsClaimed, ClaimsHold}
use swarmline.TaskBoard.Propagation.{
  done_at, keys-put_held, propagate-total, put-done, propagate-done, propagate-Claims,
  propagate-parent_done,
}

module _ {Float : Type 0} (py : Python Float) (clock : String → Float) where
  -- The propagation as `complete_task` calls it, on the tasks in which the task is finished.
  abbrev pub climb :
      String → Float → GraphTaskItem Float → Board Float → Option (Dict (GraphTaskItem Float))
  climb id now t b =
      propagate_parent (suc (suc (length (keys b.tasks)))) py clock [] t.parent_task_id
        (put id (finish py now t) b.tasks)

  -- `complete_task` ends, whatever the parent links are: its fuel is enough.
  pub complete_task-total :
      (id : String) (now : Float) (b : Board Float) → complete_task py clock id now b ≢ none
  unfolding complete_task
  complete_task-total id now b = elim (Option-cases (get id b.tasks)) [
    | inl missing ↦ rw (missing, complete_task) (λ e. cc)
    | inr (t, found) ↦ elim (Bool-cases (not (is_in_progress t.status))) [
      | inl refused ↦ rw (found, complete_task, refused) (λ e. cc)
      | inr busy ↦ elim (Option-cases (climb id now t b)) [
        | inl stuck ↦ absurd (
            propagate-total py clock (suc (suc (length (keys b.tasks)))) [] t.parent_task_id
              (put id (finish py now t) b.tasks)
              (rw (keys-put_held id (finish py now t) b.tasks (elem-keys id b.tasks found))
                (omega (arith, unseen-le-length [] (keys b.tasks))))
              stuck)
        | inr (tasks, climbed) ↦ rw (found, complete_task, busy, climbed) (λ e. cc)
      ]
    ]
  ]

  -- The two ways in which `complete_task` ends.
  pub complete_task-cases :
      (id : String) (now : Float) (b : Board Float) (r : Bool) (b' : Board Float)
      → complete_task py clock id now b ≡ some (r, b')
      → ((r ≡ false) × (b ≡ b'))
        ⊎ ((t : GraphTaskItem Float) × (tasks : Dict (GraphTaskItem Float)) × (r ≡ true)
            × (get id b.tasks ≡ some t)
            × (is_in_progress t.status ≡ true)
            × (climb id now t b ≡ some tasks)
            × (record b { tasks = tasks } ≡ b'))
  unfolding complete_task
  complete_task-cases id now b r b' h = elim (Option-cases (get id b.tasks)) [
    | inl missing ↦ inl (ground (arith, missing), ground (arith, missing))
    | inr (t, found) ↦ elim (Bool-cases (is_in_progress t.status)) [
      | inr refused ↦ inl (ground (arith, found), ground (arith, found))
      | inl busy ↦ elim (Option-cases (climb id now t b)) [
        | inl stuck ↦ absurd (ground (arith, found))
        | inr (tasks, climbed) ↦
            inr (t, tasks, ground (arith, found), found, busy, climbed, ground (arith, found))
      ]
    ]
  ]

  -- When `complete_task` answers `True`, the task is done afterwards, whatever the propagation that
  -- follows writes.
  pub complete_task-done :
      (id : String) (now : Float) (b b' : Board Float)
      → complete_task py clock id now b ≡ some (true, b')
      → done_at id b'.tasks ≡ true
  complete_task-done id now b b' h = elim (complete_task-cases id now b true b' h) [
    | inl (no_change, same) ↦ absurd (cc)
    | inr (t, tasks, yes_change, found, busy, climbed, same) ↦
        subst (λ (x : Board Float). done_at id x.tasks ≡ true) same
          (propagate-done py clock id (suc (suc (length (keys b.tasks)))) [] t.parent_task_id
            (put id (finish py now t) b.tasks) tasks (rw get-put_self refl) climbed)
  ]

  -- A task that is done is still done after `complete_task` of any task, whatever it answers.
  pub complete_task-keeps_done :
      (id k : String) (now : Float) (b : Board Float) (r : Bool) (b' : Board Float)
      → complete_task py clock id now b ≡ some (r, b')
      → done_at k b.tasks ≡ true
      → done_at k b'.tasks ≡ true
  complete_task-keeps_done id k now b r b' h d = elim (complete_task-cases id now b r b' h) [
    | inl (no_change, same) ↦ subst (λ (x : Board Float). done_at k x.tasks ≡ true) same d
    | inr (t, tasks, yes_change, found, busy, climbed, same) ↦
        subst (λ (x : Board Float). done_at k x.tasks ≡ true) same
          (propagate-done py clock k (suc (suc (length (keys b.tasks)))) [] t.parent_task_id
            (put id (finish py now t) b.tasks) tasks
            (put-done k id (finish py now t) b.tasks (inr (λ _. refl)) d) climbed)
  ]

  pub complete_task-Claims :
      (id : String) (now : Float) (b : Board Float) (r : Bool) (b' : Board Float)
      → complete_task py clock id now b ≡ some (r, b')
      → ClaimsHold b
      → ClaimsHold b'
  complete_task-Claims id now b r b' h c = elim (complete_task-cases id now b r b' h) [
    | inl (no_change, same) ↦ subst ClaimsHold same c
    | inr (t, tasks, yes_change, found, busy, climbed, same) ↦ subst ClaimsHold same (
        propagate-Claims py clock (suc (suc (length (keys b.tasks)))) [] t.parent_task_id
          (put id (finish py now t) b.tasks) tasks
          (put-All IsClaimed id (finish py now t) b.tasks (λ _. inr refl) c) climbed)
  ]

  children_of-put :
      (id p : String) (t : GraphTaskItem Float) (tasks : Dict (GraphTaskItem Float))
      → t.parent_task_id ≡ some p
      → children_of p (put id t tasks) ≢ []
  unfolding children_of put values
  children_of-put id p t [] up = rw up (rw eq_refl (λ e. cc))
  children_of-put id p t ((j, w) ∷ tasks) up = elim (Bool-cases (j == id)) [
    | inl same ↦ rw (same, up) (rw eq_refl (λ e. cc))
    | inr other ↦ rw other (λ e. ground (arith, children_of-put id p t tasks up))
  ]

  -- When `complete_task` finishes a task whose parent is stored under another key, and after this
  -- every child of the parent is done, then the parent is done too.
  pub complete_task-parent_done :
      (id p : String) (now : Float) (b b' : Board Float) (t : GraphTaskItem Float)
      → get id b.tasks ≡ some t
      → t.parent_task_id ≡ some p
      → (id == p) ≡ false
      → get p b.tasks ≢ none
      → all_done (children_of p (put id (finish py now t) b.tasks)) ≡ true
      → complete_task py clock id now b ≡ some (true, b')
      → done_at p b'.tasks ≡ true
  complete_task-parent_done id p now b b' t found up other stored all h =
      elim (Option-cases (get p b.tasks)) [
        | inl missing ↦ absurd (stored missing)
        | inr (parent, held) ↦ elim (complete_task-cases id now b true b' h) [
          | inl (no_change, same) ↦ absurd (cc)
          | inr (t', tasks, yes_change, found', busy, climbed, same) ↦
              let one : t' ≡ t = of_some (sym found' ∙ found) in
              subst (λ (x : Board Float). done_at p x.tasks ≡ true) same
                (propagate-parent_done py clock (suc (length (keys b.tasks))) p parent
                  (put id (finish py now t) b.tasks) tasks (rw (get-put, other) held)
                  (children_of-put id p (finish py now t) b.tasks up) all
                  (subst
                    (λ (o : Option String).
                      propagate_parent (suc (suc (length (keys b.tasks)))) py clock [] o
                        (put id (finish py now t) b.tasks)
                      ≡ some tasks)
                    up
                    (subst (λ (x : GraphTaskItem Float). climb id now x b ≡ some tasks) one
                      climbed)))
        ]
      ]
