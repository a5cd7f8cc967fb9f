-- ===== src/GraphTask/Shared.antt =====
-- swarmline/multi_agent/graph_task_board_shared.py: tasks and comments as JSON-like payloads. A value
-- of another JSON type than the field's, which Python would store as it is, reads as `none` here, as
-- a missing key and an unknown status do. The defaults of `get` are written out.
use swarmline.Base.{String, ◌≡◌, refl, false, Option, none, some, [], ◌==◌, if◌then◌else◌}
use swarmline.Base.Json.{
  bool, num, str, arr, obj, Fields, end, field, field_at, read_field, read_or, to_text, to_bool,
  to_num, to_fields, maybe_text, to_maybe_text, maybe_num, to_maybe_num, texts, to_texts, json_laws,
  ◌>>=◌,
}
use swarmline.TaskTypes.{
  TaskStatus, todo, in_progress, blocked, done, cancelled, TaskPriority, low, medium, high,
  critical,
}
use swarmline.GraphTask.{GraphTaskItem, TaskComment}

-- `status.value` and `TaskStatus(text)`, which raises on another text.
unfoldable pub status_value : TaskStatus → String
status_value todo = "todo"
status_value in_progress = "in_progress"
status_value blocked = "blocked"
status_value done = "done"
status_value cancelled = "cancelled"

unfoldable pub status_of : String → Option TaskStatus
status_of s =
    if s == "todo"
    then some todo
    else if s == "in_progress"
    then some in_progress
    else if s == "blocked"
    then some blocked
    else if s == "done"
    then some done
    else if s == "cancelled"
    then some cancelled
    else none

unfoldable pub priority_value : TaskPriority → String
priority_value low = "low"
priority_value medium = "medium"
priority_value high = "high"
priority_value critical = "critical"

unfoldable pub priority_of : String → Option TaskPriority
priority_of s =
    if s == "low"
    then some low
    else if s == "medium"
    then some medium
    else if s == "high"
    then some high
    else if s == "critical"
    then some critical
    else none

status_of-value : (s : TaskStatus) → status_of (status_value s) ≡ some s
unfolding status_of status_value
status_of-value todo = refl
status_of-value in_progress = refl
status_of-value blocked = refl
status_of-value done = refl
status_of-value cancelled = refl

priority_of-value : (p : TaskPriority) → priority_of (priority_value p) ≡ some p
unfolding priority_of priority_value
priority_of-value low = refl
priority_of-value medium = refl
priority_of-value high = refl
priority_of-value critical = refl

module _ {Float : Type 0} where
  unfoldable pub serialize_graph_task : GraphTaskItem Float → Fields Float
  serialize_graph_task task = field "id" (str task.id) (
      field "title" (str task.title) (
        field "description" (str task.description) (
          field "status" (str (status_value task.status)) (
            field "priority" (str (priority_value task.priority)) (
              field "assignee_agent_id" (maybe_text task.assignee_agent_id) (
                field "parent_task_id" (maybe_text task.parent_task_id) (
                  field "goal_id" (maybe_text task.goal_id) (
                    field "epic_id" (maybe_text task.epic_id) (
                      field "dod_criteria" (arr (texts task.dod_criteria)) (
                        field "dod_verified" (bool task.dod_verified) (
                          field "checkout_agent_id" (maybe_text task.checkout_agent_id) (
                            field "dependencies" (arr (texts task.dependencies)) (
                              field "delegated_by" (maybe_text task.delegated_by) (
                                field "delegation_reason" (maybe_text task.delegation_reason) (
                                  field "estimated_effort" (maybe_text task.estimated_effort) (
                                    field "started_at" (maybe_num task.started_at) (
                                      field "completed_at" (maybe_num task.completed_at) (
                                        field "progress" (num task.progress) (
                                          field "stage" (str task.stage) (
                                            field "blocked_reason" (str task.blocked_reason) (
                                              field "created_at" (num task.created_at) (
                                                field "updated_at" (num task.updated_at) (
                                                  field "metadata" (obj task.metadata)
                                                    end)))))))))))))))))))))))

  -- `zero` is the default `0.0`.
  unfoldable pub deserialize_graph_task : Float → Fields Float → Option (GraphTaskItem Float)
  deserialize_graph_task zero payload = do
    id ← read_field to_text (field_at "id" payload)
    title ← read_field to_text (field_at "title" payload)
    description ← read_or "" to_text (field_at "description" payload)
    status ← read_or "todo" to_text (field_at "status" payload) >>= status_of
    priority ← read_or "medium" to_text (field_at "priority" payload) >>= priority_of
    assignee ← read_or none to_maybe_text (field_at "assignee_agent_id" payload)
    parent ← read_or none to_maybe_text (field_at "parent_task_id" payload)
    goal ← read_or none to_maybe_text (field_at "goal_id" payload)
    epic ← read_or none to_maybe_text (field_at "epic_id" payload)
    criteria ← read_or [] to_texts (field_at "dod_criteria" payload)
    verified ← read_or false to_bool (field_at "dod_verified" payload)
    checkout ← read_or none to_maybe_text (field_at "checkout_agent_id" payload)
    dependencies ← read_or [] to_texts (field_at "dependencies" payload)
    delegated ← read_or none to_maybe_text (field_at "delegated_by" payload)
    reason ← read_or none to_maybe_text (field_at "delegation_reason" payload)
    effort ← read_or none to_maybe_text (field_at "estimated_effort" payload)
    started ← read_or none to_maybe_num (field_at "started_at" payload)
    completed ← read_or none to_maybe_num (field_at "completed_at" payload)
    progress ← read_or zero to_num (field_at "progress" payload)
    stage ← read_or "" to_text (field_at "stage" payload)
    blocked_reason ← read_or "" to_text (field_at "blocked_reason" payload)
    created ← read_or zero to_num (field_at "created_at" payload)
    updated ← read_or zero to_num (field_at "updated_at" payload)
    metadata ← read_or end to_fields (field_at "metadata" payload)
    some (record {
      id = id;
      title = title;
      description = description;
      status = status;
      priority = priority;
      assignee_agent_id = assignee;
      parent_task_id = parent;
      goal_id = goal;
      epic_id = epic;
      dod_criteria = criteria;
      dod_verified = verified;
      checkout_agent_id = checkout;
      dependencies = dependencies;
      delegated_by = delegated;
      delegation_reason = reason;
      estimated_effort = effort;
      started_at = started;
      completed_at = completed;
      progress = progress;
      stage = stage;
      blocked_reason = blocked_reason;
      created_at = created;
      updated_at = updated;
      metadata = metadata;
    })

  unfoldable pub serialize_task_comment : TaskComment Float → Fields Float
  serialize_task_comment comment = field "id" (str comment.id) (
      field "task_id" (str comment.task_id) (
        field "author_agent_id" (str comment.author_agent_id) (
          field "content" (str comment.content) (field "created_at" (num comment.created_at) end))))

  -- Every task is read back from its payload, whatever the default for numbers.
  pub deserialize-serialize_graph_task :
      (zero : Float) (task : GraphTaskItem Float)
      → deserialize_graph_task zero (serialize_graph_task task) ≡ some task
  unfolding deserialize_graph_task serialize_graph_task field_at to_text to_bool to_num to_fields
  deserialize-serialize_graph_task zero task = simp (json_laws, status_of-value, priority_of-value)
