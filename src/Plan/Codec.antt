-- ===== src/Plan/Codec.antt =====
-- swarmline/orchestration/plan_store.py: `_step_to_dict` and `_dict_to_step`, recursive over substeps.
-- As for tasks, a value of another JSON type than the field's reads as `none`.
use swarmline.Base.{◌≡◌, refl, false, Option, none, some, [], ◌==◌, if◌then◌else◌}
use swarmline.Base.Json.{
  Json, bool, str, arr, obj, Items, nil, cons, Fields, end, field, field_at, read_field, read_or,
  to_text, to_bool, maybe_text, to_maybe_text, texts, to_texts, json_laws, ◌>>=◌,
}
use mathlib.Core.Path.{ap₂}
use swarmline.Plan.{StepFields, PlanStep, plan_step, Steps, no_steps, step_then}

unfoldable mutual
  pub step_to_dict : {Float : Type 0} → PlanStep → Json Float
  step_to_dict (plan_step f substeps) = obj (
      field "id" (str f.id) (
        field "description" (str f.description) (
          field "status" (str f.status) (
            field "result" (maybe_text f.result) (
              field "substeps" (arr (steps_to_items substeps)) (
                field "dod_criteria" (arr (texts f.dod_criteria)) (
                  field "dod_verified" (bool f.dod_verified)
                    (field "verification_log" (maybe_text f.verification_log) end))))))))

  pub steps_to_items : {Float : Type 0} → Steps → Items Float
  steps_to_items no_steps = nil
  steps_to_items (step_then s rest) = cons (step_to_dict s) (steps_to_items rest)

-- All fields but the substeps.
unfoldable pub dict_to_fields : {Float : Type 0} → Fields Float → Option StepFields
dict_to_fields payload = do
  id ← read_field to_text (field_at "id" payload)
  description ← read_field to_text (field_at "description" payload)
  status ← read_or "pending" to_text (field_at "status" payload)
  result ← read_or none to_maybe_text (field_at "result" payload)
  criteria ← read_or [] to_texts (field_at "dod_criteria" payload)
  verified ← read_or false to_bool (field_at "dod_verified" payload)
  log ← read_or none to_maybe_text (field_at "verification_log" payload)
  some (record {
    id = id;
    description = description;
    status = status;
    result = result;
    dod_criteria = criteria;
    dod_verified = verified;
    verification_log = log;
  })

abbrev both : Option StepFields → Option Steps → Option PlanStep
both (some f) (some substeps) = some (plan_step f substeps)
both _ _ = none

abbrev joined : Option PlanStep → Option Steps → Option Steps
joined (some s) (some rest) = some (step_then s rest)
joined _ _ = none

unfoldable mutual
  unfolding dict_to_fields

  pub dict_to_step : {Float : Type 0} → Json Float → Option PlanStep
  dict_to_step (obj payload) = both (dict_to_fields payload) (substeps_in payload)
  dict_to_step _ = none

  -- `[_dict_to_step(s) for s in data.get("substeps", [])]`
  pub substeps_in : {Float : Type 0} → Fields Float → Option Steps
  substeps_in end = some no_steps
  substeps_in (field k v rest) =
      let here = steps_in v in
      let later = substeps_in rest in if k == "substeps" then here else later

  pub steps_in : {Float : Type 0} → Json Float → Option Steps
  steps_in (arr xs) = items_to_steps xs
  steps_in _ = none

  pub items_to_steps : {Float : Type 0} → Items Float → Option Steps
  items_to_steps nil = some no_steps
  items_to_steps (cons v xs) = joined (dict_to_step v) (items_to_steps xs)

dict_to_fields-written :
    {Float : Type 0} (f : StepFields) (xs : Items Float)
    → dict_to_fields (
        field "id" (str f.id) (
          field "description" (str f.description) (
            field "status" (str f.status) (
              field "result" (maybe_text f.result) (
                field "substeps" (arr xs) (
                  field "dod_criteria" (arr (texts f.dod_criteria)) (
                    field "dod_verified"
                      (bool f.dod_verified)
                      (field "verification_log" (maybe_text f.verification_log) end))))))))
      ≡ some f
unfolding dict_to_fields field_at to_text to_bool
dict_to_fields-written f xs = simp json_laws

mutual
  unfolding dict_to_step step_to_dict

  step_round_trip :
      (Float : Type 0) (s : PlanStep) → dict_to_step (step_to_dict {Float = Float} s) ≡ some s
  step_round_trip Float (plan_step f substeps) =
      ap₂ both (dict_to_fields-written f (steps_to_items substeps))
        (steps_round_trip Float substeps)

  steps_round_trip :
      (Float : Type 0) (ss : Steps) → items_to_steps (steps_to_items {Float = Float} ss) ≡ some ss
  steps_round_trip Float no_steps = refl
  steps_round_trip Float (step_then s rest) =
      ap₂ joined (step_round_trip Float s) (steps_round_trip Float rest)

-- Every step, with substeps to any depth, is read back from its dictionary.
pub dict_to_step-step_to_dict :
    (Float : Type 0) (s : PlanStep) → dict_to_step (step_to_dict {Float = Float} s) ≡ some s
dict_to_step-step_to_dict Float s = step_round_trip Float s
