-- ===== src/Dataflow/Stages/Reviews.antt =====
-- swarmline/pipeline/stages/loop.py: what the loop returns, against the body and the reviewer taken
-- one iteration after another.
use swarmline.Base.{
  ℕ, zero, suc, ◌+◌, ◌<◌, Bool, true, false, some, List, [], ◌∷◌, ◌++◌, ◌≡◌, refl, arith, ap, ◌∙◌,
}
use swarmline.Dataflow.{
  Event, loop_iteration_start, loop_iteration_end, Ending, outcome, fatal, StageOutcome,
  StageExecutionError, Runner, Registry, resolve_runner,
}
use swarmline.Dataflow.Stages.{Answer, answers, Texts, call_with_arity}
use swarmline.Dataflow.Stages.Loop.{LoopStage, iterations_from, run_loop_stage}

abbrev pub approved_at : {Value : Type 0} → ℕ → StageOutcome Value → StageOutcome Value
approved_at n o = record o { attempts = n; terminate_early = false }

abbrev pub unapproved :
    {Value Context Params : Type 0} → Texts → LoopStage Value Context Params → StageExecutionError
unapproved t s = record {
  message = t.not_approved s.name s.max_iterations;
  attempts = s.max_iterations;
  sub_attempts = [];
  errors = [];
}

zero_plus : (n : ℕ) → 0 + n ≡ n
zero_plus n = omega arith

later_by_one : (j n : ℕ) → j + (n + 1) ≡ suc j + n
later_by_one j n = omega arith

module _ {Value Context Params : Type 0} (t : Texts) (s : LoopStage Value Context Params)
    (runner : Runner Value Context) (value : Value) where
  -- One iteration: the body ends with an outcome, which the reviewer then judges.
  pub data Iterated (approved : Bool) (o : StageOutcome Value) (c c' : Context) : Type 0 where
    reviewed :
        {c₁ : Context} {emitted : List Event}
        → runner s.body value c ≡ (outcome o, c₁, emitted)
        → call_with_arity s.reviewer o.value c₁ s.params ≡ (answers approved, c')
        → Iterated approved o c c'

  -- The given number of iterations are not approved, one after another.
  pub data Refused : ℕ → Context → Context → Type 0 where
    no_iteration : {c : Context} → Refused 0 c c
    one_more :
        {n : ℕ} {o : StageOutcome Value} {c c₁ c' : Context}
        → Iterated false o c c₁
        → Refused n c₁ c'
        → Refused (suc n) c c'

  abbrev pub Result : Type 0
  Result = Ending Value × Context × List Event

  abbrev pub Review : Type 0
  Review = Answer Bool × Context

  iterations_from-refused_once :
      (left n : ℕ) {o : StageOutcome Value} {c c₁ : Context} (events : List Event)
      → Iterated false o c c₁
      → (later : List Event) × (iterations_from t s runner value (suc left) n c events
          ≡ iterations_from t s runner value left (n + 1) c₁ later)
  unfolding iterations_from
  iterations_from-refused_once left n events (reviewed {emitted} ran judged) = (
    ((events ++ loop_iteration_start s.name n ∷ []) ++ emitted)
        ++ loop_iteration_end s.name n false ∷ [],
    rw
        (
          iterations_from,
          ap (λ (r : Result). r.0) ran,
          ap (λ (r : Result). r.1) ran,
          ap (λ (r : Review). r.0) judged,
          ap (λ (r : Result). r.1) ran,
          ap (λ (r : Result). r.2) ran,
          ap (λ (r : Review). r.1) judged,
        )
        refl,
  )

  iterations_from-approved :
      {k : ℕ} (left n : ℕ) {o : StageOutcome Value} {c c₁ c₂ : Context} (events : List Event)
      → Refused k c c₁
      → Iterated true o c₁ c₂
      → k < left
      → (later : List Event) × (iterations_from t s runner value left n c events
          ≡ (outcome (approved_at (k + n) o), c₂, later))
  unfolding iterations_from
  iterations_from-approved zero n events refused ok h = absurd (omega arith)
  iterations_from-approved (suc left) n events no_iteration (reviewed {emitted} ran judged) h = (
    ((events ++ loop_iteration_start s.name n ∷ []) ++ emitted)
        ++ loop_iteration_end s.name n true ∷ [],
    rw
        (
          iterations_from,
          ap (λ (r : Result). r.0) ran,
          ap (λ (r : Result). r.1) ran,
          ap (λ (r : Review). r.0) judged,
          ap (λ (r : Result). r.1) ran,
          ap (λ (r : Result). r.2) ran,
          ap (λ (r : Review). r.1) judged,
          zero_plus n,
        )
        refl,
  )
  iterations_from-approved {k = suc j} (suc left) n events (one_more refused_once refused) ok h =
      let (events', e) = iterations_from-refused_once left n events refused_once in
      let (later, e') =
        iterations_from-approved {k = j} left (n + 1) events' refused ok (omega arith) in
      (later, e ∙ (e' ∙ rw (later_by_one j n) refl))

  iterations_from-unapproved :
      (left n : ℕ) {c c' : Context} (events : List Event)
      → Refused left c c'
      → (later : List Event) × (iterations_from t s runner value left n c events
          ≡ (fatal (unapproved t s), c', later))
  unfolding iterations_from
  iterations_from-unapproved zero n events no_iteration = (events, refl)
  iterations_from-unapproved (suc left) n events (one_more refused_once refused) =
      let (events', e) = iterations_from-refused_once left n events refused_once in
      let (later, e') = iterations_from-unapproved left (n + 1) events' refused in (later, e ∙ e')

  module _ (registry : Registry Value Context) where
    -- When the body has a runner, some iterations are not approved and the next one, which is still
    -- within the maximum, is, then the stage's outcome is the one of the body in that iteration,
    -- with the number of the iteration, and the context is the one that its review leaves.
    pub run_loop_stage-approved :
        {k : ℕ} {o : StageOutcome Value} {c c₁ c₂ : Context}
        → resolve_runner registry s.body ≡ some runner
        → Refused k c c₁
        → Iterated true o c₁ c₂
        → k < s.max_iterations
        → (events : List Event) × (run_loop_stage t registry s value c
            ≡ (outcome (approved_at (k + 1) o), c₂, events))
    unfolding run_loop_stage
    run_loop_stage-approved found refused ok h =
        let (events, e) = iterations_from-approved s.max_iterations 1 [] refused ok h in
        (events, rw (run_loop_stage, found) e)

    -- When the body has a runner and the maximum number of iterations pass without an approval, the
    -- stage fails with the maximum as its number of attempts, after exactly these iterations.
    pub run_loop_stage-Refused :
        {c c' : Context}
        → resolve_runner registry s.body ≡ some runner
        → Refused s.max_iterations c c'
        → (events : List Event) × (run_loop_stage t registry s value c
            ≡ (fatal (unapproved t s), c', events))
    unfolding run_loop_stage
    run_loop_stage-Refused found refused =
        let (events, e) = iterations_from-unapproved s.max_iterations 1 [] refused in
        (events, rw (run_loop_stage, found) e)
