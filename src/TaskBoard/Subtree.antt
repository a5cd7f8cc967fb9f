-- ===== src/TaskBoard/Subtree.antt =====
-- `get_thread` and `_collect_subtree_task_ids`: the breadth-first search of a subtree. The sets
-- `result` and `visited` are lists, whose order does not matter.
use swarmline.Base.{
  ℕ, zero, suc, ◌+◌, ◌≤◌, ◌<◌, String, ◌≡◌, refl, ap, inl, inr, Bool, true, false, not, ◌&&◌,
  Option, none, some, List, [], ◌∷◌, ◌++◌, arith, if◌then◌else◌, eq_refl, is_some, is_at, select,
  elem, length, length-append, All, Bool-cases, Option-cases,
}
use swarmline.Base.Dict.{values}
use swarmline.Base.Walk.{unseen, unseen-cons-lt, unseen-le-length}
use swarmline.GraphTask.{GraphTaskItem, TaskComment}
use swarmline.TaskBoard.{Board}

-- What is to be done: the queue, and the ids that may still be put into it.
abbrev to_do : List String → List String → List String → ℕ
to_do ids result queue = length queue + unseen result ids

module _ {Float : Type 0} where
  -- `t.parent_task_id == tid and t.id not in result`
  abbrev pub is_new : String → GraphTaskItem Float → List String → Bool
  is_new tid t result = is_at t.parent_task_id tid && not (elem t.id result)

  -- The inner `for` loop: the result and the queue after it.
  unfoldable pub absorb :
      String → List (GraphTaskItem Float) → List String → List String → List String × List String
  absorb tid [] result queue = (result, queue)
  absorb tid (t ∷ ts) result queue =
      absorb tid ts (if is_new tid t result then t.id ∷ result else result)
        (if is_new tid t result then queue ++ t.id ∷ [] else queue)

  -- The `while` loop; `none` would mean that the fuel ran out.
  unfoldable pub collect :
      ℕ
      → List (GraphTaskItem Float)
      → List String
      → List String
      → List String
      → Option (List String)
  collect zero tasks visited result queue = none
  collect (suc fuel) tasks visited result [] = some result
  collect (suc fuel) tasks visited result (tid ∷ queue) = elim (elem tid visited) [
    | true ↦ collect fuel tasks visited result queue
    | false ↦
        let (result', queue') = absorb tid tasks result queue in
        collect fuel tasks (tid ∷ visited) result' queue'
  ]

  -- `_collect_subtree_task_ids`
  unfoldable pub subtree_ids : String → Board Float → Option (List String)
  unfolding collect
  subtree_ids id b =
      collect (suc (suc (length (values b.tasks)))) (values b.tasks) [] (id ∷ []) (id ∷ [])

  abbrev commented :
      Option (List String) → List (TaskComment Float) → Option (List (TaskComment Float))
  commented none comments = none
  commented (some ids) comments = some (select (λ c. elem c.task_id ids) comments)

  unfoldable pub get_thread : String → Board Float → Option (List (TaskComment Float))
  unfolding subtree_ids
  get_thread id b = commented (subtree_ids id b) b.comments

  abbrev ids_of : List (GraphTaskItem Float) → List String
  ids_of [] = []
  ids_of (t ∷ ts) = t.id ∷ ids_of ts

  absorb-to_do :
      (tid : String) (ids : List String) (ts : List (GraphTaskItem Float))
      (result queue : List String)
      → All (λ t. elem t.id ids ≡ true) ts
      → to_do ids (absorb tid ts result queue).0 (absorb tid ts result queue).1
        ≤ to_do ids result queue
  unfolding absorb
  absorb-to_do tid ids [] result queue known = omega arith
  absorb-to_do tid ids (t ∷ ts) result queue known = elim (Bool-cases (is_new tid t result)) [
    | inl new ↦
        rw (new, absorb)
          (omega (
            arith,
            absorb-to_do tid ids ts (t.id ∷ result) (queue ++ t.id ∷ []) known.1,
            length-append queue (t.id ∷ []),
            unseen-cons-lt t.id result ids known.0 (ground arith),
          ))
    | inr old ↦ rw (old, absorb) (absorb-to_do tid ids ts result queue known.1)
  ]

  known_weaken :
      (k : String) (ids : List String) (ts : List (GraphTaskItem Float))
      → All (λ t. elem t.id ids ≡ true) ts
      → All (λ t. elem t.id (k ∷ ids) ≡ true) ts
  known_weaken k ids [] h = tt
  known_weaken k ids (t ∷ ts) h = (ground (arith, h.0), known_weaken k ids ts h.1)

  each_known : (ts : List (GraphTaskItem Float)) → All (λ t. elem t.id (ids_of ts) ≡ true) ts
  each_known [] = tt
  each_known (t ∷ ts) = (rw eq_refl refl, known_weaken t.id (ids_of ts) ts (each_known ts))

  collect-total :
      (fuel : ℕ) (tasks : List (GraphTaskItem Float)) (visited result queue : List String)
      → to_do (ids_of tasks) result queue < fuel
      → is_some (collect fuel tasks visited result queue) ≡ true
  unfolding collect
  collect-total zero tasks visited result queue h = absurd (omega arith)
  collect-total (suc fuel) tasks visited result [] h = refl
  collect-total (suc fuel) tasks visited result (tid ∷ queue) h =
      elim (Bool-cases (elem tid visited)) [
        | inl old ↦ rw (old, collect) (collect-total fuel tasks visited result queue (omega arith))
        | inr new ↦
            rw (new, collect)
              (collect-total fuel tasks (tid ∷ visited) (absorb tid tasks result queue).0
                (absorb tid tasks result queue).1
                (omega
                  (arith, absorb-to_do tid (ids_of tasks) tasks result queue (each_known tasks))))
      ]

  length-ids_of : (ts : List (GraphTaskItem Float)) → length (ids_of ts) ≡ length ts
  length-ids_of [] = refl
  length-ids_of (t ∷ ts) = ap suc (length-ids_of ts)

  subtree_ids-total : (id : String) (b : Board Float) → is_some (subtree_ids id b) ≡ true
  unfolding subtree_ids
  subtree_ids-total id b =
      collect-total (suc (suc (length (values b.tasks)))) (values b.tasks) [] (id ∷ []) (id ∷ []) (
        omega (
          arith,
          unseen-le-length (id ∷ []) (ids_of (values b.tasks)),
          length-ids_of (values b.tasks),
        ))

  -- `get_thread` ends on every board, also where the parent links have a cycle.
  pub get_thread-total : (id : String) (b : Board Float) → is_some (get_thread id b) ≡ true
  unfolding get_thread
  get_thread-total id b = elim (Option-cases (subtree_ids id b)) [
    | inl stuck ↦ absurd (cc (stuck, subtree_ids-total id b))
    | inr (ids, ended) ↦ rw (ended, get_thread) refl
  ]
