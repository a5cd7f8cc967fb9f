-- ===== src/TaskBoard/Links.antt =====
-- The parent links of the board: `create_task` decides whether a task may be stored, and no
-- operation makes a cycle of parents.
use swarmline.Base.{
  ℕ, zero, suc, ◌<◌, String, ◌≡◌, ◌≢◌, refl, ◌∙◌, ap, inl, inr, true, false, Option, none, some,
  List, [], ◌∷◌, ◌==◌, arith, eq_iff, eq_refl, elem, length, Bool-cases, Option-cases,
}
use mathlib.Core.Path.{subst}
use swarmline.Base.Dict.{Dict, get, put, keys, get-put, get-put_self}
use swarmline.Base.Walk.{unseen, unseen-cons-lt, unseen-le-length, elem-keys}
use swarmline.Base.Forest.{Rooted, top, step, IsForest}
use swarmline.GraphTask.{GraphTaskItem}
use swarmline.TaskBoard.{
  Board, accepted, out_of_fuel, walk_parents, validate_parent_link, create_task,
}

not-same :
    (k c : String) (visited : List String)
    → elem k visited ≡ true
    → elem c visited ≡ false
    → (k == c) ≡ false
not-same k c visited marked new = elim (Bool-cases (k == c)) [
  | inl same ↦ absurd (cc (ap (λ (x : String). elem x visited) ((eq_iff k c).0 same)))
  | inr other ↦ other
]

module _ {Float : Type 0} where
  abbrev pub link : Option (GraphTaskItem Float) → Option String
  link none = none
  link (some task) = task.parent_task_id

  -- The parent link of a key; none for a key that is not stored.
  abbrev pub parent_in : Dict (GraphTaskItem Float) → String → Option String
  parent_in tasks k = link (get k tasks)

  -- Every round visits a key that was not visited, so the loop ends within the fuel.
  walk_parents-total :
      (fuel : ℕ) (tasks : Dict (GraphTaskItem Float)) (visited : List String)
      (current : Option String)
      → unseen visited (keys tasks) < fuel
      → walk_parents fuel tasks visited current ≢ out_of_fuel
  unfolding walk_parents
  walk_parents-total zero tasks visited current h = absurd (omega arith)
  walk_parents-total (suc fuel) tasks visited none h = λ e. cc
  walk_parents-total (suc fuel) tasks visited (some c) h = elim (Bool-cases (elem c visited)) [
    | inl old ↦ rw old (λ e. cc)
    | inr new ↦ rw new (elim (Option-cases (get c tasks)) [
      | inl missing ↦ rw missing (λ e. cc)
      | inr (task, found) ↦ rw found (
          walk_parents-total fuel tasks (c ∷ visited) task.parent_task_id
            (omega (arith, unseen-cons-lt c visited (keys tasks) (elem-keys c tasks found) new)))
    ])
  ]

  parent_in-put_ne :
      (k c : String) (task : GraphTaskItem Float) (tasks : Dict (GraphTaskItem Float))
      → (k == c) ≡ false
      → parent_in (put k task tasks) c ≡ parent_in tasks c
  parent_in-put_ne k c task tasks h = rw (get-put, h) refl

  parent_in-put_self :
      (k : String) (task : GraphTaskItem Float) (tasks : Dict (GraphTaskItem Float))
      → parent_in (put k task tasks) k ≡ task.parent_task_id
  parent_in-put_self k task tasks = rw get-put_self refl

  -- A walk that is accepted never met the new task, so it ends in the new board as well.
  walk_parents-Rooted :
      (fuel : ℕ) (tasks : Dict (GraphTaskItem Float)) (visited : List String) (current : String)
      (task : GraphTaskItem Float)
      → elem task.id visited ≡ true
      → walk_parents fuel tasks visited (some current) ≡ accepted
      → Rooted (parent_in (put task.id task tasks)) current
  unfolding walk_parents
  walk_parents-Rooted zero tasks visited c task marked h = absurd (cc)
  walk_parents-Rooted (suc fuel) tasks visited c task marked h =
      elim (Bool-cases (elem c visited)) [
        | inl old ↦ absurd (cc (rw old at h))
        | inr new ↦
            let kept : parent_in (put task.id task tasks) c ≡ parent_in tasks c =
              parent_in-put_ne task.id c task tasks (not-same task.id c visited marked new) in
            elim (Option-cases (get c tasks)) [
              | inl missing ↦ top (kept ∙ ap link missing)
              | inr (t, found) ↦ elim (Option-cases t.parent_task_id) [
                | inl root ↦ top (kept ∙ ap link found ∙ root)
                | inr (p, up) ↦ step p (kept ∙ ap link found ∙ up) (
                    walk_parents-Rooted fuel tasks (c ∷ visited) p task (ground (arith, marked))
                      (rw (new, found, up) at h))
              ]
            ]
      ]

  -- A forest in which one key is given a rooted parent again is a forest.
  Rooted-put :
      (tasks : Dict (GraphTaskItem Float)) (task : GraphTaskItem Float)
      → Rooted (parent_in (put task.id task tasks)) task.id
      → {k : String} → Rooted (parent_in tasks) k
      → Rooted (parent_in (put task.id task tasks)) k
  Rooted-put tasks task own {k} r = elim (Bool-cases (task.id == k)) [
    | inl same ↦ subst (Rooted (parent_in (put task.id task tasks))) ((eq_iff task.id k).0 same) own
    | inr other ↦ Rooted-up r other
  ]
    where
      Rooted-up :
          {j : String}
          → Rooted (parent_in tasks) j
          → (task.id == j) ≡ false
          → Rooted (parent_in (put task.id task tasks)) j
      Rooted-up (top {k = j} h) other = top (parent_in-put_ne task.id j task tasks other ∙ h)
      Rooted-up (step {k = j} p h r) other =
          step p (parent_in-put_ne task.id j task tasks other ∙ h)
            (elim (Bool-cases (task.id == p)) [
              | inl same ↦
                  subst (Rooted (parent_in (put task.id task tasks))) ((eq_iff task.id p).0 same)
                    own
              | inr differs ↦ Rooted-up r differs
            ])

  validate-Rooted :
      (tasks : Dict (GraphTaskItem Float)) (task : GraphTaskItem Float)
      → validate_parent_link tasks task ≡ accepted
      → Rooted (parent_in (put task.id task tasks)) task.id
  unfolding validate_parent_link
  validate-Rooted tasks task h = elim (Option-cases task.parent_task_id) [
    | inl root ↦ top (parent_in-put_self task.id task tasks ∙ root)
    | inr (p, up) ↦ elim (Bool-cases (p == task.id)) [
      | inl own ↦ absurd (cc (rw (up, own) at h))
      | inr other ↦ step p (parent_in-put_self task.id task tasks ∙ up) (
          walk_parents-Rooted (suc (suc (length (keys tasks)))) tasks (task.id ∷ []) p task
            (rw eq_refl refl) (rw (up, other) at h))
    ]
  ]

  validate-total :
      (tasks : Dict (GraphTaskItem Float)) (task : GraphTaskItem Float)
      → validate_parent_link tasks task ≢ out_of_fuel
  unfolding validate_parent_link
  validate-total tasks task = elim (Option-cases task.parent_task_id) [
    | inl root ↦ rw root (λ e. cc)
    | inr (p, up) ↦ elim (Bool-cases (p == task.id)) [
      | inl own ↦ rw (up, own) (λ e. cc)
      | inr other ↦
          rw (up, other)
            (walk_parents-total (suc (suc (length (keys tasks)))) tasks (task.id ∷ []) (some p)
              (omega (arith, unseen-le-length (task.id ∷ []) (keys tasks))))
    ]
  ]

  -- Whatever is stored, the check of a new task's parent link ends with an answer.
  pub create_task-total :
      (task : GraphTaskItem Float) (b : Board Float) → (create_task task b).0 ≢ out_of_fuel
  unfolding create_task
  create_task-total task b e = ground (arith, validate-total b.tasks task)

  -- If the parent links of the board have no cycle and `create_task` accepts a task, new or a
  -- replacement, then the parent links of the resulting board have no cycle.
  pub create_task-IsForest :
      (task : GraphTaskItem Float) (b : Board Float)
      → IsForest (parent_in b.tasks)
      → (create_task task b).0 ≡ accepted
      → IsForest (parent_in (create_task task b).1.tasks)
  unfolding create_task
  create_task-IsForest task b forest h k =
      let passed : validate_parent_link b.tasks task ≡ accepted = ground arith in
      rw (passed, create_task)
        (Rooted-put b.tasks task (validate-Rooted b.tasks task passed) (forest k))
