-- ===== src/TaskQueue.antt =====
-- swarmline/multi_agent/task_queue.py: `InMemoryTaskQueue`, with the filters and the choice by
-- priority, and the item and filter types of swarmline/multi_agent/task_types.py.
pub mod Best
pub mod Claim
use mathlib.Core.Bool.{decide}
use swarmline.Base.{
  ℕ, String, Bool, true, false, not, ◌||◌, Option, none, some, List, [], ◌∷◌, ◌==◌, if◌then◌else◌,
  ltb, select, is_at, is_some,
}
use swarmline.Base.Dict.{Dict, get, put, values}
use swarmline.TaskTypes.{
  TaskStatus, TaskPriority, todo, in_progress, done, cancelled, low, medium, high, critical,
  is_todo, TaskStatus-discrete, TaskPriority-discrete,
}

pub record TaskItem (Any : Type 0) : Type 0 where
  pub id : String
  pub title : String
  pub description : String
  pub status : TaskStatus
  pub priority : TaskPriority
  pub assignee_agent_id : Option String
  pub metadata : Dict Any
  pub created_at : ℕ

pub record TaskFilter : Type 0 where
  pub status : Option TaskStatus
  pub priority : Option TaskPriority
  pub assignee_agent_id : Option String

abbrev pub priority_order : TaskPriority → ℕ
priority_order critical = 0
priority_order high = 1
priority_order medium = 2
priority_order low = 3

abbrev pub is_terminal : TaskStatus → Bool
is_terminal done = true
is_terminal cancelled = true
is_terminal _ = false

-- `field is not None and field != value`, for each field of a filter.
abbrev pub status_differs : Option TaskStatus → TaskStatus → Bool
status_differs none s = false
status_differs (some f) s = not (decide (TaskStatus-discrete s f))

abbrev pub priority_differs : Option TaskPriority → TaskPriority → Bool
priority_differs none p = false
priority_differs (some f) p = not (decide (TaskPriority-discrete p f))

abbrev pub assignee_differs : Option String → Option String → Bool
assignee_differs none a = false
assignee_differs (some f) a = not (is_at a f)

-- The last test of `_matches_get`: without an assignee filter only unassigned items match.
abbrev pub assignee_fits : Option String → Option String → Bool
assignee_fits none a = not (is_some a)
assignee_fits (some f) a = is_at a f

module _ {Any : Type 0} where
  unfoldable pub matches : TaskItem Any → Option TaskFilter → Bool
  matches item none = true
  matches item (some f) =
      if status_differs f.status item.status
      then false
      else if priority_differs f.priority item.priority
      then false
      else if assignee_differs f.assignee_agent_id item.assignee_agent_id
      then false
      else true

  unfoldable pub matches_get : TaskItem Any → Option TaskFilter → Bool
  matches_get item none =
      if not (is_todo item.status) then false else assignee_fits none item.assignee_agent_id
  matches_get item (some f) =
      if not (is_todo item.status)
      then false
      else if status_differs f.status todo
      then false
      else if priority_differs f.priority item.priority
      then false
      else assignee_fits f.assignee_agent_id item.assignee_agent_id

  -- `min(items, key=...)`: the first item of the least key.
  unfoldable pub min_from : TaskItem Any → List (TaskItem Any) → TaskItem Any
  min_from best [] = best
  min_from best (t ∷ ts) =
      min_from (if ltb (priority_order t.priority) (priority_order best.priority) then t else best)
        ts

  unfoldable pub pick_best : List (TaskItem Any) → Option (TaskItem Any)
  unfolding min_from
  pick_best [] = none
  pick_best (t ∷ ts) = some (min_from t ts)

  unfoldable pub put_item : TaskItem Any → Dict (TaskItem Any) → Dict (TaskItem Any)
  put_item item tasks = put item.id item tasks

  abbrev pub claim : TaskItem Any → TaskItem Any
  claim t = record t { status = in_progress }

  unfoldable pub candidates : Option TaskFilter → Dict (TaskItem Any) → List (TaskItem Any)
  candidates filters tasks = select (λ t. matches_get t filters) (values tasks)

  -- `get`
  unfoldable pub get_item :
      Option TaskFilter → Dict (TaskItem Any) → Option (TaskItem Any) × Dict (TaskItem Any)
  get_item filters tasks = elim (pick_best (candidates filters tasks)) [
    | none ↦ (none, tasks)
    | some t ↦ (some (claim t), put t.id (claim t) tasks)
  ]

  abbrev pub close : TaskStatus → String → Dict (TaskItem Any) → Bool × Dict (TaskItem Any)
  close status task_id tasks = elim (get task_id tasks) [
    | none ↦ (false, tasks)
    | some t ↦
        if is_terminal t.status
        then (false, tasks)
        else (true, put task_id (record t { status = status }) tasks)
  ]

  unfoldable pub complete : String → Dict (TaskItem Any) → Bool × Dict (TaskItem Any)
  complete = close done

  -- `cancel`
  unfoldable pub cancel_item : String → Dict (TaskItem Any) → Bool × Dict (TaskItem Any)
  cancel_item = close cancelled

  unfoldable pub list_tasks : Option TaskFilter → Dict (TaskItem Any) → List (TaskItem Any)
  list_tasks filters tasks = select (λ t. matches t filters) (values tasks)
