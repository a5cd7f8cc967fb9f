-- ===== src/TaskTypes.antt =====
-- swarmline/multi_agent/task_types.py: the statuses and priorities that the task board and the
-- task queue share.
use swarmline.Base.{Bool, true, false}

pub data TaskStatus : Type 0 where
  todo in_progress blocked done cancelled : TaskStatus

pub data TaskPriority : Type 0 where
  low medium high critical : TaskPriority

pub TaskStatus-discrete : Discrete TaskStatus
TaskStatus-discrete = hlevel

pub TaskPriority-discrete : Discrete TaskPriority
TaskPriority-discrete = hlevel

-- `status == TaskStatus.TODO` and the like, one test for each status.
abbrev pub is_todo : TaskStatus → Bool
is_todo todo = true
is_todo _ = false

abbrev pub is_in_progress : TaskStatus → Bool
is_in_progress in_progress = true
is_in_progress _ = false

abbrev pub is_blocked : TaskStatus → Bool
is_blocked blocked = true
is_blocked _ = false

abbrev pub is_done : TaskStatus → Bool
is_done done = true
is_done _ = false

-- `status in (TaskStatus.TODO, TaskStatus.IN_PROGRESS)`
abbrev pub is_open : TaskStatus → Bool
is_open todo = true
is_open in_progress = true
is_open _ = false
