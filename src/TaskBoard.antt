-- ===== src/TaskBoard.antt =====
-- swarmline/multi_agent/graph_task_board.py: `InMemoryGraphTaskBoard`. Each method holds the board's
-- lock from its first line to its last, so a method is one step from a board to the next.
-- `time.time()` enters as an argument: `now` is the reading for the task that is named, `clock id`
-- the reading that is taken when the ancestor `id` is written.
pub mod Links
pub mod Claims
pub mod Propagation
pub mod Completion
pub mod Query
pub mod Subtree
pub mod Descendants
pub mod Least
pub mod Parents
pub mod Reach
use swarmline.Base.{
  ℕ, zero, suc, String, Bool, true, false, not, ◌||◌, Option, none, some, List, [], ◌∷◌, ◌==◌, map,
  if◌then◌else◌, is_some, is_at, length, select, all, elem,
}
use swarmline.Base.Dict.{Dict, get, put, values, keys}
use swarmline.TaskTypes.{
  todo, in_progress, blocked, done, cancelled, is_in_progress, is_blocked, is_done, is_open,
}
use swarmline.GraphTask.{GraphTaskItem, TaskComment}

-- What the board uses of Python: float arithmetic and `str.strip`.
pub record Python (Float : Type 0) : Type 0 where
  pub one : Float
  pub sum : List Float → Float
  pub divide : Float → ℕ → Float
  pub strip : String → String

pub record Board (Float : Type 0) : Type 0 where
  pub namespace : String
  pub tasks : Dict (GraphTaskItem Float)
  pub comments : List (TaskComment Float)

pub data ParentError : Type 0 where
  own_parent cycle : ParentError

-- How a walk of the parent links ends; `out_of_fuel` is not an outcome of the program.
pub data Verdict : Type 0 where
  accepted : Verdict
  rejected : ParentError → Verdict
  out_of_fuel : Verdict

module _ {Float : Type 0} where
  unfoldable pub new_board : String → Board Float
  new_board namespace = record { namespace = namespace; tasks = []; comments = [] }

  -- The `while` loop of `_validate_parent_link`.
  unfoldable pub walk_parents :
      ℕ → Dict (GraphTaskItem Float) → List String → Option String → Verdict
  walk_parents zero tasks visited current = out_of_fuel
  walk_parents (suc fuel) tasks visited none = accepted
  walk_parents (suc fuel) tasks visited (some current) =
      if elem current visited then rejected cycle else elim (get current tasks) [
        | none ↦ accepted
        | some task ↦ walk_parents fuel tasks (current ∷ visited) task.parent_task_id
      ]

  unfoldable pub validate_parent_link : Dict (GraphTaskItem Float) → GraphTaskItem Float → Verdict
  validate_parent_link tasks task = elim task.parent_task_id [
    | none ↦ accepted
    | some parent ↦
        if parent == task.id
        then rejected own_parent
        else walk_parents (suc (suc (length (keys tasks)))) tasks (task.id ∷ []) (some parent)
  ]

  -- A `ValueError` leaves the board as it was.
  unfoldable pub create_task : GraphTaskItem Float → Board Float → Verdict × Board Float
  create_task task b = elim (validate_parent_link b.tasks task) [
    | accepted ↦ (accepted, record b { tasks = put task.id task b.tasks })
    | other ↦ (other, b)
  ]

  abbrev pub claim : String → Float → GraphTaskItem Float → GraphTaskItem Float
  claim agent_id now task = record task {
    checkout_agent_id = some agent_id;
    status = in_progress;
    started_at = some now;
  }

  unfoldable pub checkout_task :
      String → String → Float → Board Float → Option (GraphTaskItem Float) × Board Float
  checkout_task task_id agent_id now b = elim (get task_id b.tasks) [
    | none ↦ (none, b)
    | some task ↦
        if is_some task.checkout_agent_id || not (is_open task.status) then (none, b) else (
          some (claim agent_id now task),
          record b { tasks = put task_id (claim agent_id now task) b.tasks },
        )
  ]

  unfoldable pub children_of : String → Dict (GraphTaskItem Float) → List (GraphTaskItem Float)
  children_of id tasks = select (λ t. is_at t.parent_task_id id) (values tasks)

  abbrev pub all_done : List (GraphTaskItem Float) → Bool
  all_done ts = all (λ t. is_done t.status) ts

  -- The parent after its progress is taken from its children.
  unfoldable pub rolled_up :
      Python Float → Float → List (GraphTaskItem Float) → GraphTaskItem Float → GraphTaskItem Float
  rolled_up py now children parent =
      let progress = py.divide (py.sum (map (λ t. t.progress) children)) (length children) in
      if all_done children
      then record parent { status = done; completed_at = some now; progress = progress }
      else record parent { progress = progress }

  -- `_propagate_parent`. The recursion ends by itself where a key is missing or visited.
  unfoldable pub propagate_parent :
      ℕ
      → Python Float
      → (String → Float)
      → List String
      → Option String
      → Dict (GraphTaskItem Float)
      → Option (Dict (GraphTaskItem Float))
  unfolding children_of rolled_up
  propagate_parent zero py clock visited parent_id tasks = none
  propagate_parent (suc fuel) py clock visited none tasks = some tasks
  propagate_parent (suc fuel) py clock visited (some parent_id) tasks =
      if elem parent_id visited then some tasks else elim (get parent_id tasks) [
        | none ↦ some tasks
        | some parent ↦ elim (children_of parent_id tasks) [
          | [] ↦ some tasks
          | first ∷ others ↦
              propagate_parent fuel py clock (parent_id ∷ visited) parent.parent_task_id
                (put parent_id (rolled_up py (clock parent_id) (first ∷ others) parent) tasks)
        ]
      ]

  abbrev pub finish : Python Float → Float → GraphTaskItem Float → GraphTaskItem Float
  finish py now task = record task { status = done; completed_at = some now; progress = py.one }

  abbrev pub with_tasks :
      Board Float → Option (Dict (GraphTaskItem Float)) → Option (Bool × Board Float)
  with_tasks b none = none
  with_tasks b (some tasks) = some (true, record b { tasks = tasks })

  -- `none` would mean that the fuel of the propagation ran out.
  unfoldable pub complete_task :
      Python Float → (String → Float) → String → Float → Board Float → Option (Bool × Board Float)
  complete_task py clock task_id now b = elim (get task_id b.tasks) [
    | none ↦ some (false, b)
    | some task ↦
        if not (is_in_progress task.status)
        then some (false, b)
        else with_tasks b (
            propagate_parent (suc (suc (length (keys b.tasks)))) py clock [] task.parent_task_id
              (put task_id (finish py now task) b.tasks))
  ]

  abbrev pub block : String → GraphTaskItem Float → GraphTaskItem Float
  block reason task = record task {
    status = blocked;
    blocked_reason = reason;
    checkout_agent_id = none;
  }

  unfoldable pub block_task : Python Float → String → String → Board Float → Bool × Board Float
  block_task py task_id reason b = elim (get task_id b.tasks) [
    | none ↦ (false, b)
    | some task ↦
        if (reason == "" || py.strip reason == "") || not (is_open task.status)
        then (false, b)
        else (true, record b { tasks = put task_id (block (py.strip reason) task) b.tasks })
  ]

  abbrev pub unblock : GraphTaskItem Float → GraphTaskItem Float
  unblock task = record task { status = todo; blocked_reason = "" }

  unfoldable pub unblock_task : String → Board Float → Bool × Board Float
  unblock_task task_id b = elim (get task_id b.tasks) [
    | none ↦ (false, b)
    | some task ↦
        if not (is_blocked task.status)
        then (false, b)
        else (true, record b { tasks = put task_id (unblock task) b.tasks })
  ]

  abbrev pub cancel : Float → GraphTaskItem Float → GraphTaskItem Float
  cancel now task = record task {
    status = cancelled;
    checkout_agent_id = none;
    completed_at = some now;
  }

  unfoldable pub cancel_task : String → Float → Board Float → Bool × Board Float
  cancel_task task_id now b = elim (get task_id b.tasks) [
    | none ↦ (false, b)
    | some task ↦
        if not (is_open task.status)
        then (false, b)
        else (true, record b { tasks = put task_id (cancel now task) b.tasks })
  ]
