-- ===== src/Dataflow/Stages/Guard.antt =====
-- swarmline/pipeline/stages/guard_stage.py and conditional_stage.py: early exit and routing.
use swarmline.Base.{
  String, Bool, true, false, Option, none, some, List, [], ◌∷◌, ◌==◌, if◌then◌else◌,
}
use swarmline.Base.Dict.{Dict, get}
use swarmline.Dataflow.{
  Event, Ending, outcome, fatal, raised, Stage, Registry, Report, result, config_error, failed,
  completed, fallback, PipelineResult, no_fallback, run_pipeline, ErrorText,
}
use swarmline.Dataflow.Stages.{
  Answer, answers, raises, Handler, Texts, ConfigError, empty_name, no_cases, call_with_arity,
}

-- `on_trip`: a literal payload, or a callable.
pub data Payload (Value Context Params : Type 0) : Type 0 where
  literal : Value → Payload Value Context Params
  computed : Handler Value Context Params Value → Payload Value Context Params

pub record GuardStage (Value Context Params : Type 0) : Type 0 where
  pub name : String
  pub predicate : Handler Value Context Params Bool
  pub on_trip : Payload Value Context Params
  pub params : Params

-- `selector`: a callable, whose answer is turned into a text, or a dotted path that is read off the
-- value and may be missing.
pub data Selector (Value Context Params : Type 0) : Type 0 where
  by_call : Handler Value Context Params String → Selector Value Context Params
  by_path : (Value → Answer String) → Selector Value Context Params

pub record ConditionalStage (Value Context Params : Type 0) : Type 0 where
  pub name : String
  pub selector : Selector Value Context Params
  pub cases : Dict (List Stage)
  pub default_case : Option (List Stage)
  pub params : Params

abbrev pub or_default : Option (List Stage) → Option (List Stage) → Option (List Stage)
or_default (some branch) fallback_branch = some branch
or_default none fallback_branch = fallback_branch

-- The message of a failed branch: its errors, or a text when there are none.
abbrev reason : Texts → String → String → List ErrorText → String
reason t name key errors =
    if t.joined errors == "" then t.branch_failed name key else t.joined errors

module _ {Value : Type 0} where
  abbrev pub passed_on : Bool → Value → Ending Value
  passed_on early v =
      outcome (record {
        value = v;
        attempts = 1;
        terminate_early = early;
        sub_attempts = [];
        errors = [];
      })

  abbrev pub tripped_with : Answer Value → Ending Value
  tripped_with (raises message) = raised message
  tripped_with (answers payload) = passed_on true payload

  -- What the sub-chain's result becomes. A run with no fallback and a result that has not failed has
  -- an output.
  abbrev pub of_result :
      Texts → String → String → PipelineResult Value → Option Value → Ending Value
  of_result t name key r none = fatal (record {
    message = reason t name key r.errors;
    attempts = 1;
    sub_attempts = r.attempts;
    errors = [];
  })
  of_result t name key r (some v) = elim r.status [
    | failed ↦ fatal (record {
      message = reason t name key r.errors;
      attempts = 1;
      sub_attempts = r.attempts;
      errors = [];
    })
    | completed ↦ outcome (record {
      value = v;
      attempts = 1;
      terminate_early = r.terminated_early;
      sub_attempts = r.attempts;
      errors = r.errors;
    })
    | fallback ↦ outcome (record {
      value = v;
      attempts = 1;
      terminate_early = r.terminated_early;
      sub_attempts = r.attempts;
      errors = r.errors;
    })
  ]

module _ {Value Context : Type 0} where
  unfoldable pub of_report :
      Texts → String → String → Report Value Context → Ending Value × Context × List Event
  of_report t name key (result r ctx events) = (of_result t name key r r.output, ctx, events)
  of_report t name key (config_error kind ctx events) = (raised (t.no_runner kind), ctx, events)

module _ {Value Context Params : Type 0} where
  unfoldable pub check_guard_stage : GuardStage Value Context Params → Option ConfigError
  check_guard_stage s = if s.name == "" then some empty_name else none

  abbrev trip :
      GuardStage Value Context Params
      → Payload Value Context Params
      → Value
      → Context
      → Ending Value × Context × List Event
  trip s (literal v) value ctx = (passed_on true v, ctx, [])
  trip s (computed f) value ctx =
      let (payload, ctx') = call_with_arity f value ctx s.params in (tripped_with payload, ctx', [])

  -- An exception of the predicate leaves the runner as it is.
  unfoldable pub run_guard_stage :
      GuardStage Value Context Params → Value → Context → Ending Value × Context × List Event
  run_guard_stage s value ctx =
      let (tripped, ctx') = call_with_arity s.predicate value ctx s.params in
      elim tripped [
        | raises message ↦ (raised message, ctx', [])
        | answers false ↦ (passed_on false value, ctx', [])
        | answers true ↦ trip s s.on_trip value ctx'
      ]

  unfoldable pub check_conditional_stage :
      ConditionalStage Value Context Params → Option ConfigError
  check_conditional_stage s =
      if s.name == "" then some empty_name else elim s.cases [ [] ↦ some no_cases | _ ∷ _ ↦ none ]

  unfoldable pub select_key :
      ConditionalStage Value Context Params
      → Selector Value Context Params
      → Value
      → Context
      → Answer String × Context
  select_key s (by_call f) value ctx = call_with_arity f value ctx s.params
  select_key s (by_path read) value ctx = (read value, ctx)

  unfoldable pub run_conditional_stage :
      Texts
      → Registry Value Context
      → ConditionalStage Value Context Params
      → Value
      → Context
      → Ending Value × Context × List Event
  run_conditional_stage t registry s value ctx =
      let (selected, ctx') = select_key s s.selector value ctx in
      elim selected [
        | raises message ↦ (raised message, ctx', [])
        | answers key ↦ elim (or_default (get key s.cases) s.default_case) [
          | none ↦ (raised (t.no_case s.name key), ctx', [])
          | some branch ↦
              of_report t s.name key (run_pipeline registry no_fallback branch value ctx')
        ]
      ]
