-- ===== src/GraphTask.antt =====
-- swarmline/multi_agent/graph_task_types.py: tasks of the hierarchical board, comments, ancestry and
-- custom workflow stages. `Float` is the type of time stamps and of progress.
pub mod Shared
use swarmline.Base.{
  String, Bool, Option, none, some, List, [], ◌∷◌, ◌==◌, if◌then◌else◌, ℕ, length, select,
}
use swarmline.Base.Json.{Fields}
use mathlib.Core.Bool.{decide}
use swarmline.TaskTypes.{TaskStatus, TaskPriority, TaskStatus-discrete}

pub record GraphTaskItem (Float : Type 0) : Type 0 where
  pub id : String
  pub title : String
  pub description : String
  pub status : TaskStatus
  pub priority : TaskPriority
  pub assignee_agent_id : Option String
  pub parent_task_id : Option String
  pub goal_id : Option String
  pub epic_id : Option String
  pub dod_criteria : List String
  pub dod_verified : Bool
  pub checkout_agent_id : Option String
  pub dependencies : List String
  pub delegated_by : Option String
  pub delegation_reason : Option String
  pub estimated_effort : Option String
  pub started_at : Option Float
  pub completed_at : Option Float
  pub progress : Float
  pub stage : String
  pub blocked_reason : String
  pub created_at : Float
  pub updated_at : Float
  pub metadata : Fields Float

pub record TaskComment (Float : Type 0) : Type 0 where
  pub id : String
  pub task_id : String
  pub author_agent_id : String
  pub content : String
  pub created_at : Float

pub record GoalAncestry : Type 0 where
  pub root_goal_id : String
  pub chain : List String

unfoldable pub depth : GoalAncestry → ℕ
depth a = length a.chain

pub record WorkflowStage : Type 0 where
  pub name : String
  pub maps_to : TaskStatus
  pub order : ℕ
  pub description : String

pub record WorkflowConfig : Type 0 where
  pub name : String
  pub stages : List WorkflowStage

-- `next((s for s in stages if s.name == name), None)`
first_named : String → List WorkflowStage → Option WorkflowStage
first_named name [] = none
first_named name (s ∷ stages) = if s.name == name then some s else first_named name stages

unfoldable pub stage_for : WorkflowConfig → String → Option WorkflowStage
unfolding first_named
stage_for c name = first_named name c.stages

unfoldable pub stages_for_status : WorkflowConfig → TaskStatus → List WorkflowStage
stages_for_status c status = select (λ s. decide (TaskStatus-discrete s.maps_to status)) c.stages
