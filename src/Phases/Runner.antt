-- ===== src/Phases/Runner.antt =====
-- swarmline/pipeline/pipeline.py and gate.py: the run of a phase, its gates, and the run of all phases.
-- Equality of phases, which `list.index` asks for, is a parameter: a phase holds values of any kind.
use swarmline.Base.{
  ℕ, ◌-◌, String, Bool, true, false, Option, none, some, List, [], ◌∷◌, ◌++◌, ◌==◌, if◌then◌else◌,
  map, length, any,
}
use swarmline.Base.Dict.{Dict, get}
use swarmline.Budget.{total_cost}
use swarmline.Phases.{
  PhaseStatus, failed, PipelinePhase, GateResult, PhaseError, budget_exceeded,
  phase_budget_exceeded, cancelled, timed_out, exception, gate_failed, not_found, PhaseResult,
  RunStatus, stopped_run, failed_run, completed_run, PipelineResult, pipeline_started,
  phase_started, phase_failed, phase_completed, pipeline_completed, Ended, run_ended, by_timeout,
  by_cancel, by_exception, Environment, exceeded, phase_exceeded, effective, gates_of, goal_of,
  skip, failure, success,
}

abbrev pub is_failed : PhaseStatus → Bool
is_failed failed = true
is_failed _ = false

unfoldable pub run_status : Bool → List PhaseResult → RunStatus
run_status stopped results =
    if stopped
    then stopped_run
    else if any (λ r. is_failed r.status) results
    then failed_run
    else completed_run

module _ {Gate World : Type 0} (env : Environment Gate World) where
  abbrev cost_of : World → ℕ
  cost_of w = elim (env.tracker w) [ none ↦ 0 | some t ↦ total_cost t ]

module _ {Any Gate World : Type 0} (env : Environment Gate World) where
  -- The `for` loop over the gates: the results, and the one that failed, if any.
  unfoldable pub check_gates :
      List Gate
      → PipelinePhase Any
      → String
      → List GateResult
      → World
      → List GateResult × Option GateResult × World
  check_gates [] phase run_id results w = (results, none, w)
  check_gates (gate ∷ gates) phase run_id results w =
      let (r, w') = env.check gate phase.id phase.goal run_id w in
      elim r.passed [
        | true ↦ check_gates gates phase run_id (results ++ r ∷ []) w'
        | false ↦ (results ++ r ∷ [], some r, w')
      ]

  abbrev failing :
      PipelinePhase Any → PhaseError → List GateResult → ℕ → World → PhaseResult × World
  failing phase e gates duration w =
      (failure phase e gates duration, env.emit (phase_failed phase.id e) w)

  unfoldable pub after_gates :
      PipelinePhase Any → ℕ → List GateResult × Option GateResult × World → PhaseResult × World
  after_gates phase began (results, none, w) =
      (success phase results (env.clock w - began), env.emit (phase_completed phase.id) w)
  after_gates phase began (results, some r, w) =
      failing phase (gate_failed r.gate_name r.details) results (env.clock w - began) w

  -- What follows the orchestration.
  unfoldable pub finish_phase :
      List Gate → PipelinePhase Any → ℕ → Ended → World → PhaseResult × World
  unfolding check_gates after_gates
  finish_phase gates phase began (run_ended run_id) w =
      after_gates phase began (check_gates gates phase run_id [] w)
  finish_phase gates phase began by_timeout w =
      failing phase (timed_out phase.timeout_seconds) [] (env.clock w - began) w
  finish_phase gates phase began by_cancel w = failing phase cancelled [] (env.clock w - began) w
  finish_phase gates phase began (by_exception message) w =
      failing phase (exception message) [] (env.clock w - began) w

  -- `_run_single_phase`
  unfoldable pub run_single_phase :
      Dict (List Gate) → PipelinePhase Any → String → World → PhaseResult × World
  unfolding finish_phase
  run_single_phase gates phase goal w =
      let begun = env.emit (phase_started phase.id phase.name) w in
      elim (exceeded (env.tracker begun)) [
        | true ↦ failing phase budget_exceeded [] 0 begun
        | false ↦ elim (phase_exceeded phase.id (env.tracker begun)) [
          | true ↦ failing phase phase_budget_exceeded [] 0 begun
          | false ↦
              let (ended, w') =
                env.orchestrate (goal_of phase goal) (effective phase.timeout_seconds) begun in
              finish_phase (gates_of (get phase.id gates)) phase (env.clock w) ended w'
        ]
      ]

  abbrev find_phase : String → List (PipelinePhase Any) → Option (PipelinePhase Any)
  find_phase id [] = none
  find_phase id (p ∷ ps) = if p.id == id then some p else find_phase id ps

  -- `run_phase`
  unfoldable pub run_phase :
      Dict (List Gate) → List (PipelinePhase Any) → String → World → PhaseResult × World
  unfolding run_single_phase
  run_phase gates phases id w = elim (find_phase id phases) [
    | none ↦ (
      record {
        phase_id = id;
        status = failed;
        gate_results = [];
        duration_seconds = 0;
        error = some (not_found id);
      },
      w,
    )
    | some phase ↦ run_single_phase gates phase phase.goal w
  ]

module _ {Any Gate World : Type 0} (env : Environment Gate World)
    (same : PipelinePhase Any → PipelinePhase Any → Bool) where
  -- `phases[phases.index(phase) + 1 :]`: what follows the first phase that equals this one.
  abbrev pub behind : PipelinePhase Any → List (PipelinePhase Any) → List (PipelinePhase Any)
  behind phase [] = []
  behind phase (p ∷ ps) = let rest = behind phase ps in if same p phase then ps else rest

  -- The `for` loop of `run`, over the phases that are left of `whole`.
  unfoldable pub run_phases :
      Dict (List Gate)
      → List (PipelinePhase Any)
      → List (PipelinePhase Any)
      → String
      → World
      → List PhaseResult × World
  unfolding run_single_phase
  run_phases gates whole [] goal w = ([], w)
  run_phases gates whole (phase ∷ phases) goal w = elim (env.stop_requested w) [
    | true ↦ let (rest, w') = run_phases gates whole phases goal w in (skip phase ∷ rest, w')
    | false ↦
        let (r, w') = run_single_phase env gates phase goal w in
        elim (is_failed r.status) [
          | true ↦ (r ∷ map skip (behind phase whole), w')
          | false ↦ let (rest, w'') = run_phases gates whole phases goal w' in (r ∷ rest, w'')
        ]
  ]

  -- `run`, with the phases in their order.
  unfoldable pub run_goal :
      Dict (List Gate) → List (PipelinePhase Any) → String → World → PipelineResult × World
  unfolding run_phases run_status
  run_goal gates phases goal w =
      let (results, w') =
        run_phases gates phases phases goal (env.emit (pipeline_started goal (length phases)) w) in
      let status = run_status (env.stop_requested w') results in
      (
        record {
          phases = results;
          total_duration_seconds = env.clock w' - env.clock w;
          total_cost_usd = cost_of env w';
          status = status;
        },
        env.emit (pipeline_completed status) w',
      )
