-- ===== src/Examples/Plans.antt =====
-- Plans, their dictionaries and their store; task payloads; verification of criteria. Dates are ticks.
use swarmline.Base.{
  ℕ, String, ◌≡◌, refl, inl, inr, ==-ne, false, none, some, [], ◌∷◌, ◌==◌, if◌then◌else◌, eqb,
}
use swarmline.Base.Json.{field, end, str}
use swarmline.TaskTypes.{in_progress, high}
use swarmline.GraphTask.{GraphTaskItem}
use swarmline.GraphTask.Shared.{
  serialize_graph_task, deserialize_graph_task, deserialize-serialize_graph_task,
}
use swarmline.Plan.{StepFields, PlanStep, plan_step, no_steps, step_then, Plan}
use swarmline.Plan.Lifecycle.{approve_by, start, complete, acts, IsApproved, acts-IsApproved}
use swarmline.Plan.Codec.{step_to_dict, dict_to_step, dict_to_step-step_to_dict}
use swarmline.Plan.Store.{new_store, save, load, set_namespace}
use swarmline.Plan.StoreLaws.{Allows, load-save}
use swarmline.Dod.{Verifier, verify_dod, pass, fail}
use swarmline.Dod.Loops.{Decided, verify_dod-Decided}

abbrev fields : String → StepFields
fields id = record {
  id = id;
  description = "write it";
  status = "pending";
  result = none;
  dod_criteria = "tests" ∷ [];
  dod_verified = false;
  verification_log = none;
}

abbrev nested : PlanStep
nested = plan_step (fields "s1") (step_then (plan_step (fields "s1a") no_steps) no_steps)

dict_to_step-step_to_dict_example : dict_to_step (step_to_dict {Float = ℕ} nested) ≡ some nested
dict_to_step-step_to_dict_example = dict_to_step-step_to_dict ℕ nested

abbrev plan : Plan ℕ
plan = record {
  id = "p";
  goal = "ship";
  steps = step_then nested (step_then (plan_step (fields "s2") no_steps) no_steps);
  created_at = 1;
  status = "draft";
  approved_by = none;
}

acts-IsApproved_example : IsApproved (acts (start ∷ approve_by "ann" ∷ start ∷ complete ∷ []) plan)
acts-IsApproved_example =
    acts-IsApproved (start ∷ approve_by "ann" ∷ start ∷ complete ∷ []) plan
      (record { approval = λ h. absurd (cc) })

bob_foreign : ¬ (Allows "bob" "ann" × Allows "" "x")
bob_foreign (inl unnamed, _) = ==-ne "bob" "" refl unnamed
bob_foreign (inr same, _) = ==-ne "bob" "ann" refl same

load-save_example :
    load "p" (set_namespace "bob" "" (save plan (set_namespace "ann" "x" new_store))) ≡ none
load-save_example =
    (load-save plan "ann" "x" "bob" "" new_store (==-ne "ann" "" refl)).1 bob_foreign

abbrev task : GraphTaskItem ℕ
task = record {
  id = "a";
  title = "t";
  description = "d";
  status = in_progress;
  priority = high;
  assignee_agent_id = some "ann";
  parent_task_id = some "goal";
  goal_id = some "g";
  epic_id = none;
  dod_criteria = "tests" ∷ [];
  dod_verified = false;
  checkout_agent_id = some "ann";
  dependencies = "b" ∷ [];
  delegated_by = none;
  delegation_reason = none;
  estimated_effort = none;
  started_at = some 2;
  completed_at = none;
  progress = 50;
  stage = "dev";
  blocked_reason = "";
  created_at = 1;
  updated_at = 2;
  metadata = field "k" (str "v") end;
}

deserialize-serialize_graph_task_example :
    deserialize_graph_task 0 (serialize_graph_task task) ≡ some task
deserialize-serialize_graph_task_example = deserialize-serialize_graph_task 0 task

-- A verifier whose methods pass from the second loop on.
abbrev late : Verifier
late = record {
  run = λ loop method. if eqb loop 1 then fail else pass;
  lower = λ name. if name == "TESTS" then "tests" else name;
}

verify_dod-Decided_example :
    Decided late ("TESTS" ∷ "linters" ∷ []) 3 1 3 (verify_dod 3 ("TESTS" ∷ "linters" ∷ []) late)
verify_dod-Decided_example = verify_dod-Decided 3 "TESTS" ("linters" ∷ []) late
