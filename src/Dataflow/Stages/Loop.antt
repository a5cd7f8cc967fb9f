-- ===== src/Dataflow/Stages/Loop.antt =====
-- swarmline/pipeline/stages/loop.py: a body that is repeated until a reviewer approves.
use swarmline.Base.{
  ℕ, zero, suc, ◌+◌, String, Bool, true, false, Option, none, some, List, [], ◌∷◌, ◌++◌, ◌==◌, ltb,
  if◌then◌else◌,
}
use swarmline.Dataflow.{
  Event, loop_iteration_start, loop_iteration_end, Ending, outcome, fatal, raised, Stage, Runner,
  Registry, resolve_runner,
}
use swarmline.Dataflow.Stages.{
  answers, raises, Handler, Texts, ConfigError, empty_name, few_iterations, call_with_arity,
}

pub record LoopStage (Value Context Params : Type 0) : Type 0 where
  pub name : String
  pub body : Stage
  pub reviewer : Handler Value Context Params Bool
  pub max_iterations : ℕ
  pub params : Params

module _ {Value Context Params : Type 0} where
  unfoldable pub check_loop_stage : LoopStage Value Context Params → Option ConfigError
  check_loop_stage s =
      if s.name == ""
      then some empty_name
      else if ltb s.max_iterations 1
      then some few_iterations
      else none

  abbrev body_failure : Texts → LoopStage Value Context Params → ℕ → String → Ending Value
  body_failure t s n message = fatal (record {
    message = t.body_failed s.name message;
    attempts = n;
    sub_attempts = [];
    errors = [];
  })

  -- The `for` loop, with `left` iterations to go from number `n` on.
  unfoldable pub iterations_from :
      Texts
      → LoopStage Value Context Params
      → Runner Value Context
      → Value
      → ℕ
      → ℕ
      → Context
      → List Event
      → Ending Value × Context × List Event
  iterations_from t s runner value zero n ctx events = (
    fatal (record {
      message = t.not_approved s.name s.max_iterations;
      attempts = s.max_iterations;
      sub_attempts = [];
      errors = [];
    }),
    ctx,
    events,
  )
  iterations_from t s runner value (suc left) n ctx events =
      let (ending, ctx', emitted) = runner s.body value ctx in
      let begun = (events ++ loop_iteration_start s.name n ∷ []) ++ emitted in
      elim ending [
        | raised message ↦ (body_failure t s n message, ctx', begun)
        | fatal e ↦ (body_failure t s n e.message, ctx', begun)
        | outcome o ↦
            let (approved, reviewed) = call_with_arity s.reviewer o.value ctx' s.params in
            elim approved [
              | raises message ↦ (raised message, reviewed, begun)
              | answers true ↦ (
                outcome (record o { attempts = n; terminate_early = false }),
                reviewed,
                begun ++ loop_iteration_end s.name n true ∷ [],
              )
              | answers false ↦
                  iterations_from t s runner value left (n + 1) reviewed
                    (begun ++ loop_iteration_end s.name n false ∷ [])
            ]
      ]

  -- A body with no runner is found out before the loop; the error is raised.
  unfoldable pub run_loop_stage :
      Texts
      → Registry Value Context
      → LoopStage Value Context Params
      → Value
      → Context
      → Ending Value × Context × List Event
  unfolding iterations_from
  run_loop_stage t registry s value ctx = elim (resolve_runner registry s.body) [
    | none ↦ (raised (t.no_runner s.body.kind), ctx, [])
    | some runner ↦ iterations_from t s runner value s.max_iterations 1 ctx []
  ]
