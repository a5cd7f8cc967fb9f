-- ===== src/Plan.antt =====
-- swarmline/orchestration/types.py: plans and their steps. The `Literal` status types are texts, as
-- at run time. `replace` on a frozen dataclass is a record update. `datetime` is a parameter.
pub mod Lifecycle
pub mod Store
pub mod StoreLaws
pub mod Codec
use swarmline.Base.{
  String, Bool, true, false, ◌||◌, Option, none, some, List, [], ◌∷◌, ◌==◌, if◌then◌else◌,
}

-- The fields of a step other than its substeps.
pub record StepFields : Type 0 where
  pub id : String
  pub description : String
  pub status : String
  pub result : Option String
  pub dod_criteria : List String
  pub dod_verified : Bool
  pub verification_log : Option String

mutual
  pub data PlanStep : Type 0 where
    plan_step : StepFields → Steps → PlanStep

  pub data Steps : Type 0 where
    no_steps : Steps
    step_then : PlanStep → Steps → Steps

abbrev pub fields_of : PlanStep → StepFields
fields_of (plan_step f substeps) = f

abbrev pub substeps_of : PlanStep → Steps
substeps_of (plan_step f substeps) = substeps

unfoldable pub start_step : PlanStep → PlanStep
start_step (plan_step f substeps) = plan_step (record f { status = "in_progress" }) substeps

unfoldable pub complete_step : String → PlanStep → PlanStep
complete_step result (plan_step f substeps) =
    plan_step (record f { status = "completed"; result = some result }) substeps

unfoldable pub fail_step : String → PlanStep → PlanStep
fail_step reason (plan_step f substeps) =
    plan_step (record f { status = "failed"; result = some reason }) substeps

unfoldable pub skip_step : String → PlanStep → PlanStep
skip_step reason (plan_step f substeps) =
    plan_step (record f { status = "skipped"; result = some reason }) substeps

pub record PlanApproval (Datetime : Type 0) : Type 0 where
  pub plan_id : String
  pub approved_by : String
  pub approved_at : Datetime
  pub modifications : Option (List String)

pub record Plan (Datetime : Type 0) : Type 0 where
  pub id : String
  pub goal : String
  pub steps : Steps
  pub created_at : Datetime
  pub status : String
  pub approved_by : Option String

-- The loop of `update_step`: the new steps, and whether the id was found.
unfoldable pub replace_step : PlanStep → Steps → Steps × Bool
replace_step updated no_steps = (no_steps, false)
replace_step updated (step_then s rest) =
    let (others, found) = replace_step updated rest in
    if (fields_of s).id == (fields_of updated).id
    then (step_then updated others, true)
    else (step_then s others, found)

-- A transition that raises `ValueError` is `none`.
module _ {Datetime : Type 0} where
  unfoldable pub approve : String → Plan Datetime → Option (Plan Datetime)
  approve by p =
      if p.status == "draft"
      then some (record p { status = "approved"; approved_by = some by })
      else none

  unfoldable pub start_execution : Plan Datetime → Option (Plan Datetime)
  start_execution p =
      if p.status == "approved" then some (record p { status = "executing" }) else none

  unfoldable pub mark_completed : Plan Datetime → Option (Plan Datetime)
  mark_completed p =
      if p.status == "executing" then some (record p { status = "completed" }) else none

  unfoldable pub cancel : Plan Datetime → Plan Datetime
  cancel p = record p { status = "cancelled" }

  unfoldable pub update_step : PlanStep → Plan Datetime → Option (Plan Datetime)
  unfolding replace_step
  update_step updated p =
      let (steps, found) = replace_step updated p.steps in
      if found then some (record p { steps = steps }) else none
