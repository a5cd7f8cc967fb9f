-- ===== src/Dataflow/Stages/Parallel.antt =====
-- swarmline/pipeline/stages/parallel.py: a static fork and join. `gather` runs the branches in an
-- order that the program does not determine, on a context that they share; so the ending of each
-- branch, the context after all of them and the events between are arguments.
use swarmline.Base.{
  ℕ, String, Bool, true, false, not, ◌&&◌, Option, none, some, List, [], ◌∷◌, ◌++◌, ◌==◌,
  if◌then◌else◌, is_some,
}
use swarmline.Base.Dict.{Dict, put, keys}
use swarmline.Dataflow.{
  Event, parallel_start, parallel_join, ErrorText, of_stage, Ending, outcome, fatal, raised, Stage,
  Registry, resolve_runner,
}
use swarmline.Dataflow.Stages.{
  Answer, answers, raises, Handler, Texts, ConfigError, empty_name, no_branches, call_with_arity,
}

pub data FailurePolicy : Type 0 where
  require_all allow_partial : FailurePolicy

pub record ParallelStage (Value Context Params : Type 0) : Type 0 where
  pub name : String
  pub branches : Dict Stage
  pub joiner : Option (Handler (Dict Value) Context Params Value)
  pub failure_policy : FailurePolicy
  pub params : Params

-- The three collections of `_run_parallel_stage`.
pub record Gathered (Value : Type 0) : Type 0 where
  pub outputs : Dict Value
  pub sub_attempts : Dict ℕ
  pub errors : List ErrorText

-- `_run_one_branch` after its `try`: the output or the error, and the attempts.
pub record BranchResult (Value : Type 0) : Type 0 where
  pub output : Answer Value
  pub attempts : ℕ

abbrev pub no_errors : List ErrorText → Bool
no_errors [] = true
no_errors (_ ∷ _) = false

abbrev pub no_outputs : {Value : Type 0} → Dict Value → Bool
no_outputs [] = true
no_outputs (_ ∷ _) = false

abbrev pub requires_all : FailurePolicy → Bool
requires_all require_all = true
requires_all allow_partial = false

module _ {Value : Type 0} where
  abbrev pub all_broken : String → Gathered Value → Ending Value
  all_broken message g =
      fatal (record {
        message = message;
        attempts = 1;
        sub_attempts = g.sub_attempts;
        errors = g.errors;
      })

  abbrev pub joined_with : Gathered Value → Answer Value → Ending Value
  joined_with g (raises message) = raised message
  joined_with g (answers v) = outcome (record {
    value = v;
    attempts = 1;
    terminate_early = false;
    sub_attempts = g.sub_attempts;
    errors = g.errors;
  })

module _ {Value : Type 0} where
  unfoldable pub branch_result : Stage → Ending Value → BranchResult Value
  branch_result branch (outcome o) = record { output = answers o.value; attempts = o.attempts }
  branch_result branch (fatal e) = record {
    output = raises e.message;
    attempts = branch.max_attempts;
  }
  branch_result branch (raised message) = record {
    output = raises message;
    attempts = branch.max_attempts;
  }

  abbrev pub add_branch :
      Texts → String → String → BranchResult Value → Gathered Value → Gathered Value
  add_branch t name branch r g =
      let sub = put (t.dotted name branch) r.attempts g.sub_attempts in
      elim r.output [
        | answers v ↦ record g { outputs = put branch v g.outputs; sub_attempts = sub }
        | raises message ↦ record g {
          sub_attempts = sub;
          errors = g.errors ++ of_stage (t.dotted name branch) message ∷ [];
        }
      ]

  -- The `for` loop over the results.
  unfoldable pub gathered :
      Texts → String → Dict Stage → (String → Ending Value) → Gathered Value → Gathered Value
  unfolding branch_result
  gathered t name [] ran g = g
  gathered t name ((branch, stage) ∷ branches) ran g =
      gathered t name branches ran (add_branch t name branch (branch_result stage (ran branch)) g)

module _ {Value Context : Type 0} where
  -- The kind of the first branch that has no runner.
  unfoldable pub first_unregistered : Registry Value Context → Dict Stage → Option String
  first_unregistered registry [] = none
  first_unregistered registry ((branch, stage) ∷ branches) =
      if is_some (resolve_runner registry stage)
      then first_unregistered registry branches
      else some stage.kind

module _ {Value Context Params : Type 0} where
  unfoldable pub check_parallel_stage : ParallelStage Value Context Params → Option ConfigError
  check_parallel_stage s =
      if s.name == ""
      then some empty_name
      else elim s.branches [ [] ↦ some no_branches | _ ∷ _ ↦ none ]

  abbrev join_event :
      ParallelStage Value Context Params → Gathered Value → Answer Value → List Event
  join_event s g (raises message) = []
  join_event s g (answers v) = parallel_join s.name (keys g.outputs) (not (no_errors g.errors)) ∷ []

  -- With no joiner the value is the dictionary of outputs.
  abbrev pub join :
      (Dict Value → Value)
      → ParallelStage Value Context Params
      → Option (Handler (Dict Value) Context Params Value)
      → Dict Value
      → Context
      → Answer Value × Context
  join of_dict s none outputs ctx = (answers (of_dict outputs), ctx)
  join of_dict s (some f) outputs ctx = call_with_arity f outputs ctx s.params

  -- What follows the `gather`.
  unfoldable pub settle :
      Texts
      → (Dict Value → Value)
      → ParallelStage Value Context Params
      → Gathered Value
      → Context
      → List Event
      → Ending Value × Context × List Event
  settle t of_dict s g ctx events =
      if not (no_errors g.errors) && requires_all s.failure_policy
      then (all_broken (t.joined g.errors) g, ctx, events)
      else if no_outputs g.outputs
      then (all_broken t.all_failed g, ctx, events)
      else (let (answer, ctx') = join of_dict s s.joiner g.outputs ctx in
          (joined_with g answer, ctx', events ++ join_event s g answer))

  unfoldable pub run_parallel_stage :
      Texts
      → (Dict Value → Value)
      → Registry Value Context
      → ParallelStage Value Context Params
      → (String → Ending Value)
      → Context
      → List Event
      → Ending Value × Context × List Event
  unfolding settle gathered first_unregistered
  run_parallel_stage t of_dict registry s ran ctx between =
      let begun = parallel_start s.name (keys s.branches) ∷ between in
      elim (first_unregistered registry s.branches) [
        | some kind ↦ (raised (t.no_runner kind), ctx, begun)
        | none ↦
            settle t of_dict s
              (gathered t s.name s.branches ran
                (record { outputs = []; sub_attempts = []; errors = [] }))
              ctx begun
      ]
