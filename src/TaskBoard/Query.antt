-- ===== src/TaskBoard/Query.antt =====
-- What the board answers: subtasks, filters, comments, ready and blocking tasks, the ancestry of a goal.
use mathlib.Core.Bool.{decide}
use mathlib.Core.List.{Memᴰ}
use swarmline.Base.{
  ℕ, zero, suc, ◌<◌, String, ◌≡◌, refl, inl, inr, Bool, true, false, not, ◌||◌, Option, none, some,
  List, [], ◌∷◌, ◌++◌, ◌==◌, arith, if◌then◌else◌, is_some, is_at, select, all, elem, length,
  Bool-cases, Option-cases, mem-select,
}
use swarmline.Base.Dict.{Dict, get, values, keys}
use swarmline.Base.Keyed.{IsKeyed, get-of_mem}
use swarmline.Base.Walk.{unseen, unseen-cons-lt, unseen-le-length, elem-keys}
use swarmline.TaskTypes.{
  TaskStatus, TaskPriority, TaskStatus-discrete, TaskPriority-discrete, is_todo, is_done,
}
use swarmline.GraphTask.{GraphTaskItem, TaskComment, GoalAncestry}
use swarmline.TaskBoard.{Board, children_of, checkout_task, claim}
use swarmline.TaskBoard.Propagation.{done_at}

-- The filters that `list_tasks` reads; a key that is absent is `none`.
pub record Filters : Type 0 where
  pub status : Option TaskStatus
  pub assignee_agent_id : Option (Option String)
  pub priority : Option TaskPriority

-- The variables of the loop of `get_goal_ancestry`: the chain, nearest to the root first, and the goal.
pub record Trail : Type 0 where
  pub chain : List String
  pub goal_id : Option String

abbrev same_text : Option String → Option String → Bool
same_text none a = not (is_some a)
same_text (some s) a = is_at a s

-- `if task.goal_id and goal_id is None: goal_id = task.goal_id`
abbrev first_goal : Option String → Option String → Option String
first_goal (some g) own = some g
first_goal none none = none
first_goal none (some own) = if own == "" then none else some own

abbrev ancestry_of : List String → Option String → Option GoalAncestry
ancestry_of chain none = none
ancestry_of chain (some g) = some (record { root_goal_id = g; chain = chain })

abbrev found_goal : Option Trail → Option (Option GoalAncestry)
found_goal none = none
found_goal (some trail) = some (ancestry_of trail.chain trail.goal_id)

module _ {Float : Type 0} where
  unfoldable pub get_subtasks : String → Board Float → List (GraphTaskItem Float)
  get_subtasks id b = children_of id b.tasks

  abbrev kept :
      {F : Type 0}
      → Option F
      → (F → GraphTaskItem Float → Bool)
      → List (GraphTaskItem Float)
      → List (GraphTaskItem Float)
  kept none test ts = ts
  kept (some f) test ts = select (test f) ts

  unfoldable pub filter_tasks : Filters → Board Float → List (GraphTaskItem Float)
  filter_tasks f b =
      kept f.priority (λ p t. decide (TaskPriority-discrete t.priority p))
        (kept f.assignee_agent_id (λ a t. same_text a t.assignee_agent_id)
          (kept f.status (λ s t. decide (TaskStatus-discrete t.status s)) (values b.tasks)))

  unfoldable pub add_comment : TaskComment Float → Board Float → Board Float
  add_comment comment b = record b { comments = b.comments ++ comment ∷ [] }

  unfoldable pub get_comments : String → Board Float → List (TaskComment Float)
  get_comments task_id b = select (λ c. c.task_id == task_id) b.comments

  -- `_all_deps_done`
  unfoldable pub all_deps_done : List String → Board Float → Bool
  all_deps_done ids b = all (λ id. done_at id b.tasks) ids

  unfoldable pub is_ready : Board Float → GraphTaskItem Float → Bool
  is_ready b t =
      if not (is_todo t.status)
      then false
      else if is_some t.checkout_agent_id
      then false
      else if not (all_deps_done t.dependencies b)
      then false
      else true

  unfoldable pub get_ready_tasks : Board Float → List (GraphTaskItem Float)
  get_ready_tasks b = select (is_ready b) (values b.tasks)

  -- The loop of `get_blocked_by`.
  unfoldable pub blockers : List String → Board Float → List (GraphTaskItem Float)
  blockers [] b = []
  blockers (id ∷ ids) b =
      let rest = blockers ids b in
      elim (get id b.tasks) [
        | none ↦ rest
        | some dep ↦ if is_done dep.status then rest else dep ∷ rest
      ]

  unfoldable pub get_blocked_by : String → Board Float → List (GraphTaskItem Float)
  unfolding blockers
  get_blocked_by id b = elim (get id b.tasks) [ none ↦ [] | some t ↦ blockers t.dependencies b ]

  -- The loop of `get_goal_ancestry`; `none` would mean that the fuel ran out.
  unfoldable pub climb_goals :
      ℕ → Dict (GraphTaskItem Float) → List String → Option String → Trail → Option Trail
  climb_goals zero tasks visited current trail = none
  climb_goals (suc fuel) tasks visited none trail = some trail
  climb_goals (suc fuel) tasks visited (some id) trail =
      if (id == "") || elem id visited then some trail else elim (get id tasks) [
        | none ↦ some trail
        | some t ↦
            climb_goals fuel tasks (id ∷ visited) t.parent_task_id
              (record { chain = id ∷ trail.chain; goal_id = first_goal trail.goal_id t.goal_id })
      ]

  unfoldable pub get_goal_ancestry : String → Board Float → Option (Option GoalAncestry)
  unfolding climb_goals
  get_goal_ancestry id b = found_goal (
      climb_goals (suc (suc (length (keys b.tasks)))) b.tasks [] (some id)
        (record { chain = []; goal_id = none }))

  climb_goals-total :
      (fuel : ℕ) (tasks : Dict (GraphTaskItem Float)) (visited : List String)
      (current : Option String) (trail : Trail)
      → unseen visited (keys tasks) < fuel
      → is_some (climb_goals fuel tasks visited current trail) ≡ true
  unfolding climb_goals
  climb_goals-total zero tasks visited current trail h = absurd (omega arith)
  climb_goals-total (suc fuel) tasks visited none trail h = refl
  climb_goals-total (suc fuel) tasks visited (some id) trail h =
      elim (Bool-cases ((id == "") || elem id visited)) [
        | inl over ↦ rw over refl
        | inr new ↦ elim (Option-cases (get id tasks)) [
          | inl missing ↦ rw (new, missing) refl
          | inr (t, found) ↦
              rw (new, found)
                (climb_goals-total fuel tasks (id ∷ visited) t.parent_task_id
                  (record {
                    chain = id ∷ trail.chain;
                    goal_id = first_goal trail.goal_id t.goal_id;
                  })
                  (omega (
                    arith,
                    unseen-cons-lt id visited (keys tasks) (elem-keys id tasks found)
                        (ground arith),
                  )))
        ]
      ]

  -- `get_goal_ancestry` ends, also on a board whose parent links have a cycle.
  pub get_goal_ancestry-total :
      (id : String) (b : Board Float) → is_some (get_goal_ancestry id b) ≡ true
  unfolding get_goal_ancestry
  get_goal_ancestry-total id b =
      elim (Option-cases (
        climb_goals (suc (suc (length (keys b.tasks)))) b.tasks [] (some id)
          (record { chain = []; goal_id = none }))) [
            | inl stuck ↦ absurd (
                cc (
                  stuck,
                  climb_goals-total (suc (suc (length (keys b.tasks)))) b.tasks [] (some id)
                      (record { chain = []; goal_id = none })
                      (omega (arith, unseen-le-length [] (keys b.tasks))),
                ))
            | inr (trail, found) ↦ rw found refl
          ]

  blockers-none :
      (ids : List String) (b : Board Float)
      → all (λ id. done_at id b.tasks) ids ≡ true
      → blockers ids b ≡ []
  unfolding blockers
  blockers-none [] b h = refl
  blockers-none (id ∷ ids) b h = ground (arith, blockers-none ids b)

  -- A task that `get_ready_tasks` lists, on a board that stores each task under its own id, is a task
  -- that `checkout_task` claims for any agent, and `get_blocked_by` names nothing that blocks it.
  pub ready_lem :
      (b : Board Float) (t : GraphTaskItem Float) (agent : String) (now : Float)
      → IsKeyed (λ (x : GraphTaskItem Float). x.id) b.tasks
      → Memᴰ t (get_ready_tasks b)
      → ((checkout_task t.id agent now b).0 ≡ some (claim agent now t))
        × (get_blocked_by t.id b ≡ [])
  unfolding get_ready_tasks is_ready checkout_task get_blocked_by all_deps_done
  ready_lem b t agent now keyed listed =
      let (held, ready) = mem-select (is_ready b) t (values b.tasks) listed in
      let found : get t.id b.tasks ≡ some t = get-of_mem (λ x. x.id) t b.tasks keyed held in
      (
        ground (arith, found, ready),
        rw (found, get_blocked_by) (blockers-none t.dependencies b (ground (arith, ready))),
      )
