-- ===== src/Dataflow/Stages/Joins.antt =====
-- swarmline/pipeline/stages/parallel.py: what an outcome of the stage says of its branches.
use swarmline.Base.{
  String, Bool, true, false, not, ◌&&◌, ◌||◌, none, List, [], ◌∷◌, ◌++◌, ◌≡◌, refl, arith, ap, sym,
  ◌∙◌, Bool-cases, Option-cases, inl, inr, append_assoc, append-nil,
}
use swarmline.Base.Dict.{Dict, put}
use swarmline.Dataflow.{
  Event, ErrorText, of_stage, StageOutcome, Ending, outcome, fatal, raised, Stage, Registry,
}
use swarmline.Dataflow.Stages.{Answer, answers, raises, Texts}
use swarmline.Dataflow.Stages.Parallel.{
  ParallelStage, Gathered, add_branch, no_errors, no_outputs, requires_all, join, joined_with,
  branch_result, gathered, settle, first_unregistered, run_parallel_stage,
}

&&-false : (b : Bool) → (b && false) ≡ false
&&-false true = refl
&&-false false = refl

&&-true : (b : Bool) → (b && true) ≡ b
&&-true true = refl
&&-true false = refl

true_of_not : (b : Bool) → not b ≡ false → b ≡ true
true_of_not true h = refl
true_of_not false h = absurd cc

module _ {Value : Type 0} (t : Texts) (name : String) where
  -- The text of the exception that a branch ends with, behind its dotted name.
  abbrev pub failure_of : String → Ending Value → List ErrorText
  failure_of branch (outcome o) = []
  failure_of branch (fatal e) = of_stage (t.dotted name branch) e.message ∷ []
  failure_of branch (raised message) = of_stage (t.dotted name branch) message ∷ []

  -- One text for each branch that ends with an exception, in the order of the branches.
  abbrev pub failures : Dict Stage → (String → Ending Value) → List ErrorText
  failures [] ran = []
  failures ((branch, stage) ∷ branches) ran =
      failure_of branch (ran branch) ++ failures branches ran

  abbrev pub is_outcome : Ending Value → Bool
  is_outcome (outcome o) = true
  is_outcome (fatal e) = false
  is_outcome (raised message) = false

  abbrev pub some_outcome : Dict Stage → (String → Ending Value) → Bool
  some_outcome [] ran = false
  some_outcome ((branch, stage) ∷ branches) ran =
      is_outcome (ran branch) || some_outcome branches ran

  add_branch-errors :
      (branch : String) (stage : Stage) (r : Ending Value) (g : Gathered Value)
      → (add_branch t name branch (branch_result stage r) g).errors
        ≡ g.errors ++ failure_of branch r
  unfolding branch_result
  add_branch-errors branch stage (outcome o) g = sym (append-nil g.errors)
  add_branch-errors branch stage (fatal e) g = refl
  add_branch-errors branch stage (raised message) g = refl

  no_outputs-put : (k : String) (v : Value) (d : Dict Value) → no_outputs (put k v d) ≡ false
  unfolding put
  no_outputs-put k v [] = refl
  no_outputs-put k v ((j, w) ∷ d) = ground arith

  add_branch-outputs :
      (branch : String) (stage : Stage) (r : Ending Value) (g : Gathered Value)
      → no_outputs (add_branch t name branch (branch_result stage r) g).outputs
        ≡ (no_outputs g.outputs && not (is_outcome r))
  unfolding branch_result
  add_branch-outputs branch stage (outcome o) g =
      no_outputs-put branch o.value g.outputs ∙ sym (&&-false (no_outputs g.outputs))
  add_branch-outputs branch stage (fatal e) g = sym (&&-true (no_outputs g.outputs))
  add_branch-outputs branch stage (raised message) g = sym (&&-true (no_outputs g.outputs))

  gathered-errors :
      (branches : Dict Stage) (ran : String → Ending Value) (g : Gathered Value)
      → (gathered t name branches ran g).errors ≡ g.errors ++ failures branches ran
  unfolding gathered
  gathered-errors [] ran g = sym (append-nil g.errors)
  gathered-errors ((branch, stage) ∷ branches) ran g =
      gathered-errors branches ran (add_branch t name branch (branch_result stage (ran branch)) g)
      ∙ (ap (λ (e : List ErrorText). e ++ failures branches ran)
            (add_branch-errors branch stage (ran branch) g)
          ∙ append_assoc g.errors (failure_of branch (ran branch)) (failures branches ran))

  gathered-outputs :
      (branches : Dict Stage) (ran : String → Ending Value) (g : Gathered Value)
      → no_outputs (gathered t name branches ran g).outputs
        ≡ (no_outputs g.outputs && not (some_outcome branches ran))
  unfolding gathered
  gathered-outputs [] ran g = sym (&&-true (no_outputs g.outputs))
  gathered-outputs ((branch, stage) ∷ branches) ran g =
      gathered-outputs branches ran (add_branch t name branch (branch_result stage (ran branch)) g)
      ∙ (ap (λ (b : Bool). b && not (some_outcome branches ran))
            (add_branch-outputs branch stage (ran branch) g)
          ∙ ground arith)

module _ {Value Context Params : Type 0} (t : Texts) (of_dict : Dict Value → Value)
    (s : ParallelStage Value Context Params) where
  joined_with-errors :
      (g : Gathered Value) (answer : Answer Value) {o : StageOutcome Value}
      → joined_with g answer ≡ outcome o
      → o.errors ≡ g.errors
  joined_with-errors g (raises message) e = absurd cc
  joined_with-errors g (answers v) e = cc

  settle-outcome :
      (g : Gathered Value) (ctx : Context) (events : List Event) {o : StageOutcome Value}
      → (settle t of_dict s g ctx events).0 ≡ outcome o
      → (o.errors ≡ g.errors)
        × (not (no_errors g.errors) && requires_all s.failure_policy ≡ false)
        × (no_outputs g.outputs ≡ false)
  unfolding settle
  settle-outcome g ctx events e =
      elim (Bool-cases (not (no_errors g.errors) && requires_all s.failure_policy)) [
        | inl broken ↦ absurd cc
        | inr fine ↦ elim (Bool-cases (no_outputs g.outputs)) [
          | inl empty ↦ absurd cc
          | inr some_output ↦ (
            joined_with-errors g (join of_dict s s.joiner g.outputs ctx).0
                (rw (settle, fine, some_output) at e),
            fine,
            some_output,
          )
        ]
      ]

  abbrev pub nothing : Gathered Value
  nothing = record { outputs = []; sub_attempts = []; errors = [] }

  -- When the stage ends with an outcome, each branch has a runner, at least one branch ends with an
  -- outcome, and the errors of the outcome are the texts of the branches that end with an
  -- exception, in the order of the branches; under `require_all` there is none.
  pub run_parallel_stage-outcome :
      (registry : Registry Value Context) (ran : String → Ending Value) (ctx : Context)
      (between : List Event) {o : StageOutcome Value}
      → (run_parallel_stage t of_dict registry s ran ctx between).0 ≡ outcome o
      → (first_unregistered registry s.branches ≡ none)
        × (some_outcome t s.name s.branches ran ≡ true)
        × (o.errors ≡ failures t s.name s.branches ran)
        × ((not (no_errors (failures t s.name s.branches ran)) && requires_all s.failure_policy)
            ≡ false)
  unfolding run_parallel_stage
  run_parallel_stage-outcome registry ran ctx between e =
      elim (Option-cases (first_unregistered registry s.branches)) [
        | inr (kind, missing) ↦ absurd (cc)
        | inl complete ↦
            let (errs, ok, out) =
              settle-outcome (gathered t s.name s.branches ran nothing) ctx _
                (rw (run_parallel_stage, complete) at e) in
            (
              complete,
              true_of_not (some_outcome t s.name s.branches ran)
                  (sym (gathered-outputs t s.name s.branches ran nothing) ∙ out),
              errs ∙ gathered-errors t s.name s.branches ran nothing,
              ap (λ (es : List ErrorText). not (no_errors es) && requires_all s.failure_policy)
                    (sym (gathered-errors t s.name s.branches ran nothing))
                  ∙ ok,
            )
      ]
