-- ===== src/Dataflow/Flow.antt =====
-- What a run of the sequential executor returns, against the stages' runners taken one after another.
use swarmline.Base.{
  ℕ, String, Bool, true, false, ◌≡◌, refl, ap, ◌∙◌, Option, none, some, List, [], ◌∷◌, ◌++◌, ◌||◌,
  Bool-cases, inl, inr,
}
use swarmline.Base.Dict.{Dict}
use swarmline.Dataflow.{
  completed_with, Event, StageOutcome, StageExecutionError, Ending, outcome, fatal, raised,
  PipelineStatus, completed, failed, fallback, FallbackMode, no_fallback, last_valid, Stage, Runner,
  Registry, State, Report, result, config_error, ErrorText, resolve_runner, fail_run, advance,
  run_from, run_pipeline, start,
}

-- The status, the output, the failed stage and the flag of a report; `none` for a configuration error.
pub record Brief (Value : Type 0) : Type 0 where
  pub status : PipelineStatus
  pub output : Option Value
  pub failed_stage : Option String
  pub terminated_early : Bool

abbrev pub brief : {Value Context : Type 0} → Report Value Context → Option (Brief Value)
brief (result r context events) = some (record {
  status = r.status;
  output = r.output;
  failed_stage = r.failed_stage;
  terminated_early = r.terminated_early;
})
brief (config_error name context events) = none

-- The stages turn the value and the context into others: each has a runner that ends with an
-- outcome, which the next one takes, and none asks to stop.
pub data Flows {Value Context : Type 0} (registry : Registry Value Context)
    : List Stage → Value → Context → Value → Context → Type 0 where
  flow_end : {v : Value} {c : Context} → Flows registry [] v c v c
  flow_next :
      {stage : Stage} {stages : List Stage} {v v' : Value} {c c₁ c' : Context}
      {runner : Runner Value Context} {o : StageOutcome Value} {emitted : List Event}
      → resolve_runner registry stage ≡ some runner
      → runner stage v c ≡ (outcome o, c₁, emitted)
      → o.terminate_early ≡ false
      → Flows registry stages o.value c₁ v' c'
      → Flows registry (stage ∷ stages) v c v' c'

-- The stage's runner ends with an exception.
pub data Breaks {Value Context : Type 0} (registry : Registry Value Context) (stage : Stage)
    (v : Value) (c : Context) : Type 0 where
  breaks_fatal :
      {c' : Context} {runner : Runner Value Context} {e : StageExecutionError}
      {emitted : List Event}
      → resolve_runner registry stage ≡ some runner
      → runner stage v c ≡ (fatal e, c', emitted)
      → Breaks registry stage v c
  breaks_raised :
      {c' : Context} {runner : Runner Value Context} {message : String} {emitted : List Event}
      → resolve_runner registry stage ≡ some runner
      → runner stage v c ≡ (raised message, c', emitted)
      → Breaks registry stage v c

abbrev pub broken_at : {Value : Type 0} → FallbackMode → Bool → Value → Stage → Brief Value
broken_at last_valid true v stage = record {
  status = fallback;
  output = some v;
  failed_stage = some stage.name;
  terminated_early = false;
}
broken_at last_valid false v stage = record {
  status = failed;
  output = none;
  failed_stage = some stage.name;
  terminated_early = false;
}
broken_at no_fallback valid v stage = record {
  status = failed;
  output = none;
  failed_stage = some stage.name;
  terminated_early = false;
}

abbrev pub any_before : List Stage → Bool
any_before [] = false
any_before (_ ∷ _) = true

abbrev pub Run : Type 0 → Type 0 → Type 0
Run Value Context = Ending Value × Context × List Event

brief-fail_run :
    {Value Context : Type 0} (mode : FallbackMode) (stage : Stage) (attempts : Dict ℕ)
    (errors : List ErrorText) (context : Context) (events : List Event) (s : State Value Context)
    → s.last_good ≡ s.value
    → brief (fail_run mode stage.name attempts errors context events s)
      ≡ some (broken_at mode s.has_valid s.value stage)
unfolding fail_run
brief-fail_run no_fallback stage attempts errors context events s good = refl
brief-fail_run last_valid stage attempts errors context events s good =
    elim (Bool-cases s.has_valid) [
      | inl valid ↦ rw (valid, good) refl
      | inr none_yet ↦ rw none_yet refl
    ]

||-true : (b : Bool) → (b || true) ≡ true
||-true true = refl
||-true false = refl

||-false : (b : Bool) → (b || false) ≡ b
||-false true = refl
||-false false = refl

module _ {Value Context : Type 0} (registry : Registry Value Context) (mode : FallbackMode) where
  run_from-next :
      {stage : Stage} (stages : List Stage) (s : State Value Context) {c : Context}
      {runner : Runner Value Context} {o : StageOutcome Value} {emitted : List Event}
      → resolve_runner registry stage ≡ some runner
      → runner stage s.value s.context ≡ (outcome o, c, emitted)
      → o.terminate_early ≡ false
      → run_from registry mode (stage ∷ stages) s
        ≡ run_from registry mode stages (advance stage o c emitted s)
  unfolding run_from
  run_from-next stages s found ran on =
      rw
        (
          run_from,
          found,
          ran,
          on,
          ap (λ (r : Run Value Context). r.1) ran,
          ap (λ (r : Run Value Context). r.2) ran,
        )
        refl

  -- The whole report of a run that nothing stops, with the context that the last stage leaves.
  pub run_from-ends :
      {stages : List Stage} (s : State Value Context) {v' : Value} {c' : Context}
      → Flows registry stages s.value s.context v' c'
      → (attempts : Dict ℕ) × (errors : List ErrorText) × (events : List Event) × (run_from registry
            mode stages s
          ≡ completed_with false v' attempts errors c' events)
  unfolding run_from
  run_from-ends s flow_end = (s.attempts, s.errors, s.events, refl)
  run_from-ends s (flow_next {stage} {stages} {c₁} {o} {emitted} found ran on rest) =
      let (attempts, errors, events, e) = run_from-ends (advance stage o c₁ emitted s) rest in
      (attempts, errors, events, run_from-next stages s found ran on ∙ e)

  run_from-broken :
      {stage : Stage} (stages : List Stage) (s : State Value Context)
      → s.last_good ≡ s.value
      → Breaks registry stage s.value s.context
      → brief (run_from registry mode (stage ∷ stages) s)
        ≡ some (broken_at mode s.has_valid s.value stage)
  unfolding run_from
  run_from-broken stages s good (breaks_fatal found ran) =
      rw (found, run_from, ran) (brief-fail_run mode _ _ _ _ _ s good)
  run_from-broken stages s good (breaks_raised found ran) =
      rw (found, run_from, ran) (brief-fail_run mode _ _ _ _ _ s good)

  run_from-Breaks :
      {pre : List Stage} {stage : Stage} (rest : List Stage) (s : State Value Context) {v' : Value}
      {c' : Context}
      → s.last_good ≡ s.value
      → Flows registry pre s.value s.context v' c'
      → Breaks registry stage v' c'
      → brief (run_from registry mode (pre ++ stage ∷ rest) s)
        ≡ some (broken_at mode (any_before pre || s.has_valid) v' stage)
  run_from-Breaks rest s good flow_end b = run_from-broken rest s good b
  run_from-Breaks {stage = last} rest s good
        (flow_next {stage} {stages} {c₁} {o} {emitted} found ran on more) b =
      ap brief (run_from-next (stages ++ last ∷ rest) s found ran on)
      ∙ (run_from-Breaks rest (advance stage o c₁ emitted s) refl more b
          ∙ rw (||-true (any_before stages)) refl)

  -- When the stages before one whose runner ends with an exception have turned the initial value
  -- into `v'`, the status, the output and the failed stage of the result do not depend on the
  -- later stages: under `last_valid`, with at least one stage before it, the run falls back to
  -- `v'`; otherwise it has failed and has no output. In each case the stage is named as the failed
  -- one, and the run has not terminated early.
  pub run_pipeline-Breaks :
      (pre rest : List Stage) (stage : Stage) (initial : Value) (context : Context) {v' : Value}
      {c' : Context}
      → Flows registry pre initial context v' c'
      → Breaks registry stage v' c'
      → brief (run_pipeline registry mode (pre ++ stage ∷ rest) initial context)
        ≡ some (broken_at mode (any_before pre) v' stage)
  unfolding run_pipeline
  run_pipeline-Breaks pre rest stage initial context flows breaks =
      run_from-Breaks rest (start initial context) refl flows breaks
      ∙ rw (||-false (any_before pre)) refl

  -- When every stage has a runner that ends with an outcome and none of them asks to stop, the run is
  -- completed and its output is what the stages, one after another, make of the initial value.
  pub run_pipeline-completes :
      (stages : List Stage) (initial : Value) (context : Context) {v' : Value} {c' : Context}
      → Flows registry stages initial context v' c'
      → brief (run_pipeline registry mode stages initial context)
        ≡ some (record {
          status = completed;
          output = some v';
          failed_stage = none;
          terminated_early = false;
        })
  unfolding run_pipeline
  run_pipeline-completes stages initial context flows =
      let (attempts, errors, events, e) = run_from-ends (start initial context) flows in ap brief e
