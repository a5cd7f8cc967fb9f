-- ===== src/Dataflow/Stages/Typed.antt =====
-- swarmline/pipeline/stages/typed_stage.py: a handler with a validator and bounded retries.
use swarmline.Base.{
  ℕ, zero, suc, ◌+◌, String, true, false, not, ◌&&◌, Option, none, some, List, [], ◌==◌, ltb, leb,
  if◌then◌else◌,
}
use swarmline.Dataflow.{Event, Ending, outcome, fatal, raised}
use swarmline.Dataflow.Stages.{
  Answer, answers, raises, Handler, Texts, StageDependency, is_pure, ConfigError, empty_name,
  few_attempts, retry_impure, call_with_arity,
}

-- What a validator answers: only `False` itself rejects.
pub data Verdict : Type 0 where
  is_false other_verdict : Verdict

pub record TypedStage (Value Context Params : Type 0) : Type 0 where
  pub name : String
  pub handler : Handler Value Context Params Value
  pub dependency : StageDependency
  pub validator : Option (Handler Value Context Params Verdict)
  pub max_attempts : ℕ
  pub params : Params

module _ {Value : Type 0} where
  judged : Texts → String → Value → Answer Verdict → Answer Value
  judged t name output (raises message) = raises message
  judged t name output (answers is_false) = raises (t.validator_failed name)
  judged t name output (answers other_verdict) = answers output

module _ {Value Context Params : Type 0} where
  -- `__post_init__`
  unfoldable pub check_typed_stage : TypedStage Value Context Params → Option ConfigError
  check_typed_stage s =
      if s.name == ""
      then some empty_name
      else if ltb s.max_attempts 1
      then some few_attempts
      else if ltb 1 s.max_attempts && not (is_pure s.dependency)
      then some retry_impure
      else none

  validated :
      Texts
      → TypedStage Value Context Params
      → Option (Handler Value Context Params Verdict)
      → Value
      → Context
      → Answer Value × Context
  unfolding judged
  validated t s none output ctx = (answers output, ctx)
  validated t s (some v) output ctx =
      let (verdict, ctx') = call_with_arity v output ctx s.params in
      (judged t s.name output verdict, ctx')

  -- The body of the `try`: the handler, then the validator.
  unfoldable pub attempt :
      Texts → TypedStage Value Context Params → Value → Context → Answer Value × Context
  unfolding validated
  attempt t s value ctx =
      let (answer, ctx') = call_with_arity s.handler value ctx s.params in
      elim answer [
        | raises message ↦ (raises message, ctx')
        | answers output ↦ validated t s s.validator output ctx'
      ]

  -- The `for` loop, with `left` attempts to go from number `n` on.
  unfoldable pub attempts_from :
      Texts
      → TypedStage Value Context Params
      → Value
      → ℕ
      → ℕ
      → Context
      → Ending Value × Context × List Event
  attempts_from t s value zero n ctx = (raised (t.no_outcome s.name), ctx, [])
  attempts_from t s value (suc left) n ctx =
      let (answer, ctx') = attempt t s value ctx in
      elim answer [
        | answers output ↦ (
          outcome (record {
            value = output;
            attempts = n;
            terminate_early = false;
            sub_attempts = [];
            errors = [];
          }),
          ctx',
          [],
        )
        | raises message ↦ elim (leb s.max_attempts n) [
          | true ↦ (
            fatal (record { message = message; attempts = n; sub_attempts = []; errors = [] }),
            ctx',
            [],
          )
          | false ↦ attempts_from t s value left (n + 1) ctx'
        ]
      ]

  unfoldable pub run_typed_stage :
      Texts
      → TypedStage Value Context Params
      → Value
      → Context
      → Ending Value × Context × List Event
  unfolding attempts_from
  run_typed_stage t s value ctx = attempts_from t s value s.max_attempts 1 ctx
