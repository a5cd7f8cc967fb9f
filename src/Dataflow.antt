-- ===== src/Dataflow.antt =====
-- swarmline/pipeline/dataflow_core.py and dataflow_engine.py: the sequential executor. `Value` is what
-- flows between stages, `Context` the side channel that a runner may change. A runner is a function
-- from the registry; what it emits itself is listed in its result. The sink does not raise.
pub mod Flow
pub mod Stages
use swarmline.Base.{
  ℕ, String, Bool, true, false, ◌&&◌, Option, none, some, List, [], ◌∷◌, ◌++◌, ◌==◌, if◌then◌else◌,
}
use swarmline.Base.Dict.{Dict, get, put}

-- The text of an error in the result: verbatim, or behind the name of the stage.
pub data ErrorText : Type 0 where
  verbatim : String → ErrorText
  of_stage : String → String → ErrorText

pub data Event : Type 0 where
  status_event : String → String → Event
  stage_start : String → Event
  stage_end : String → Event
  stage_failed : String → String → Event
  fallback_selected : String → Event
  inner : String → Event
  loop_iteration_start : String → ℕ → Event
  loop_iteration_end : String → ℕ → Bool → Event
  parallel_start : String → List String → Event
  parallel_join : String → List String → Bool → Event

pub record StageOutcome (Value : Type 0) : Type 0 where
  pub value : Value
  pub attempts : ℕ
  pub terminate_early : Bool
  pub sub_attempts : Dict ℕ
  pub errors : List ErrorText

-- `StageExecutionError`
pub record StageExecutionError : Type 0 where
  pub message : String
  pub attempts : ℕ
  pub sub_attempts : Dict ℕ
  pub errors : List ErrorText

-- How a runner ends.
pub data Ending (Value : Type 0) : Type 0 where
  outcome : StageOutcome Value → Ending Value
  fatal : StageExecutionError → Ending Value
  raised : String → Ending Value

pub data PipelineStatus : Type 0 where
  completed failed fallback : PipelineStatus

pub data FallbackMode : Type 0 where
  no_fallback last_valid : FallbackMode

pub record PipelineResult (Value : Type 0) : Type 0 where
  pub status : PipelineStatus
  pub output : Option Value
  pub failed_stage : Option String
  pub attempts : Dict ℕ
  pub errors : List ErrorText
  pub terminated_early : Bool

-- A stage, with what the engine reads of it.
pub record Stage : Type 0 where
  pub kind : String
  pub name : String
  pub status_label : String
  pub max_attempts : ℕ

abbrev pub Runner : Type 0 → Type 0 → Type 0
Runner Value Context = Stage → Value → Context → Ending Value × Context × List Event

-- `_STAGE_RUNNERS`
abbrev pub Registry : Type 0 → Type 0 → Type 0
Registry Value Context = Dict (Runner Value Context)

module _ {Value Context : Type 0} where
  unfoldable pub register_stage_runner :
      String → Runner Value Context → Registry Value Context → Registry Value Context
  register_stage_runner kind runner registry = put kind runner registry

  -- `none` is the `StageConfigError`.
  unfoldable pub resolve_runner : Registry Value Context → Stage → Option (Runner Value Context)
  resolve_runner registry stage = get stage.kind registry

-- `attempts.update(sub_attempts)`
abbrev pub update : Dict ℕ → Dict ℕ → Dict ℕ
update attempts [] = attempts
update attempts ((k, n) ∷ sub) = update (put k n attempts) sub

-- `if status_label: await emit_event(...)`
abbrev pub status_events : Stage → List Event
status_events stage =
    if stage.status_label == "" then [] else status_event stage.status_label stage.name ∷ []

-- The variables of the loop, and the events that were emitted.
pub record State (Value Context : Type 0) : Type 0 where
  pub context : Context
  pub value : Value
  pub last_good : Value
  pub has_valid : Bool
  pub attempts : Dict ℕ
  pub errors : List ErrorText
  pub events : List Event

-- What `run_pipeline` leaves: the result, or the error of a stage type with no runner, with the
-- context and the events.
pub data Report (Value Context : Type 0) : Type 0 where
  result : PipelineResult Value → Context → List Event → Report Value Context
  config_error : String → Context → List Event → Report Value Context

module _ {Value Context : Type 0} where
  abbrev pub completed_with :
      Bool → Value → Dict ℕ → List ErrorText → Context → List Event → Report Value Context
  completed_with early value attempts errors context events =
      result
        (record {
          status = completed;
          output = some value;
          failed_stage = none;
          attempts = attempts;
          errors = errors;
          terminated_early = early;
        })
        context events

  -- `_fail`
  unfoldable pub fail_run :
      FallbackMode
      → String
      → Dict ℕ
      → List ErrorText
      → Context
      → List Event
      → State Value Context
      → Report Value Context
  fail_run last_valid stage attempts errors context events s =
      if s.has_valid
      then result
          (record {
            status = fallback;
            output = some s.last_good;
            failed_stage = some stage;
            attempts = attempts;
            errors = errors;
            terminated_early = false;
          })
          context (events ++ fallback_selected stage ∷ [])
      else result
          (record {
            status = failed;
            output = none;
            failed_stage = some stage;
            attempts = attempts;
            errors = errors;
            terminated_early = false;
          })
          context events
  fail_run no_fallback stage attempts errors context events s =
      result
        (record {
          status = failed;
          output = none;
          failed_stage = some stage;
          attempts = attempts;
          errors = errors;
          terminated_early = false;
        })
        context events

  -- The loop variables after a stage that ended with an outcome.
  abbrev pub advance :
      Stage → StageOutcome Value → Context → List Event → State Value Context → State Value Context
  advance stage o context emitted s = record {
    context = context;
    value = o.value;
    last_good = o.value;
    has_valid = true;
    attempts = update (put stage.name o.attempts s.attempts) o.sub_attempts;
    errors = s.errors ++ o.errors;
    events =
        ((s.events ++ status_events stage) ++ stage_start stage.name ∷ [])
        ++ emitted
        ++ stage_end stage.name ∷ [];
  }

  abbrev pub before_failure : Stage → List Event → State Value Context → List Event
  before_failure stage emitted s =
      ((s.events ++ status_events stage) ++ stage_start stage.name ∷ []) ++ emitted

  -- The `for` loop.
  unfoldable pub run_from :
      Registry Value Context
      → FallbackMode
      → List Stage
      → State Value Context
      → Report Value Context
  run_from registry mode [] s = completed_with false s.value s.attempts s.errors s.context s.events
  run_from registry mode (stage ∷ stages) s = elim (resolve_runner registry stage) [
    | none ↦ config_error stage.name s.context s.events
    | some runner ↦
        let (ending, context, emitted) = runner stage s.value s.context in
        elim ending [
          | outcome o ↦
              let next = advance stage o context emitted s in
              elim o.terminate_early [
                | true ↦ completed_with true o.value next.attempts next.errors context next.events
                | false ↦ run_from registry mode stages next
              ]
          | fatal e ↦
              fail_run mode stage.name
                (update (put stage.name e.attempts s.attempts) e.sub_attempts)
                ((s.errors ++ e.errors) ++ verbatim e.message ∷ []) context
                (before_failure stage emitted s ++ stage_failed stage.name e.message ∷ []) s
          | raised message ↦
              fail_run mode stage.name (put stage.name stage.max_attempts s.attempts)
                (s.errors ++ of_stage stage.name message ∷ []) context
                (before_failure stage emitted s ++ stage_failed stage.name message ∷ []) s
        ]
  ]

  abbrev pub start : Value → Context → State Value Context
  start initial context = record {
    context = context;
    value = initial;
    last_good = initial;
    has_valid = false;
    attempts = [];
    errors = [];
    events = [];
  }

  unfoldable pub run_pipeline :
      Registry Value Context → FallbackMode → List Stage → Value → Context → Report Value Context
  run_pipeline registry mode stages initial context =
      run_from registry mode stages (start initial context)
