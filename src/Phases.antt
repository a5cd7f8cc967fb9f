-- ===== src/Phases.antt =====
-- swarmline/pipeline/pipeline.py and gate.py, with the phases and results of types.py: a pipeline of
-- phases with quality gates and a budget. `World` is what the orchestrator, the gates, the event bus
-- and other tasks change: the budget tracker and whether `stop` was called since the run began are
-- read from it. A gate is taken not to raise, as the two of gate.py do not; times and orders are
-- natural numbers; no two phases are equal.
pub mod Runner
pub mod Settled
pub mod Trails
use swarmline.Base.{
  ℕ, zero, suc, ◌+◌, ◌-◌, String, Bool, true, false, not, ◌&&◌, Option, none, some, List, [], ◌∷◌,
  ◌++◌, ◌==◌, if◌then◌else◌, leb, ltb, map,
}
use swarmline.Base.Dict.{Dict, get}
use swarmline.Budget.{BudgetTracker, is_exceeded, is_phase_exceeded, total_cost}

pub data PhaseStatus : Type 0 where
  pending running gate_check completed failed skipped : PhaseStatus

pub record PipelinePhase (Any : Type 0) : Type 0 where
  pub id : String
  pub name : String
  pub goal : String
  pub agent_filter : Option String
  pub order : ℕ
  pub timeout_seconds : Option ℕ
  pub metadata : Dict Any

pub record GateResult : Type 0 where
  pub passed : Bool
  pub gate_name : String
  pub details : String

-- The text of `error`, with the values that it shows.
pub data PhaseError : Type 0 where
  budget_exceeded phase_budget_exceeded cancelled : PhaseError
  timed_out : Option ℕ → PhaseError
  exception : String → PhaseError
  gate_failed : String → String → PhaseError
  not_found : String → PhaseError

pub record PhaseResult : Type 0 where
  pub phase_id : String
  pub status : PhaseStatus
  pub gate_results : List GateResult
  pub duration_seconds : ℕ
  pub error : Option PhaseError

pub data RunStatus : Type 0 where
  stopped_run failed_run completed_run : RunStatus

pub record PipelineResult : Type 0 where
  pub phases : List PhaseResult
  pub total_duration_seconds : ℕ
  pub total_cost_usd : ℕ
  pub status : RunStatus

pub data PipelineEvent : Type 0 where
  pipeline_started : String → ℕ → PipelineEvent
  phase_started : String → String → PipelineEvent
  phase_failed : String → PhaseError → PipelineEvent
  phase_completed : String → PipelineEvent
  pipeline_completed : RunStatus → PipelineEvent

-- `f"[{phase.name}] {goal}"`, or the goal of the phase.
pub data PhaseGoal : Type 0 where
  named : String → String → PhaseGoal
  own : String → PhaseGoal

-- How the orchestration of a phase ends: the run's identifier, or an exception.
pub data Ended : Type 0 where
  run_ended : String → Ended
  by_timeout by_cancel : Ended
  by_exception : String → Ended

pub record Environment (Gate World : Type 0) : Type 0 where
  pub orchestrate : PhaseGoal → Option ℕ → World → Ended × World
  pub check : Gate → String → String → String → World → GateResult × World
  pub stop_requested : World → Bool
  pub tracker : World → Option BudgetTracker
  pub clock : World → ℕ
  pub emit : PipelineEvent → World → World

-- A callback, and how it ends.
pub data Verdict : Type 0 where
  answer : Bool → Verdict
  callback_error : String → Verdict

-- `CallbackGate.check`
unfoldable pub callback_gate : String → (String → String) → Verdict → GateResult
callback_gate name error_text (answer passed) = record {
  passed = passed;
  gate_name = name;
  details = if passed then "passed" else "failed";
}
callback_gate name error_text (callback_error message) = record {
  passed = false;
  gate_name = name;
  details = error_text message;
}

-- `sorted` by order, which keeps the order of equal ones.
unfoldable pub insert_phase {ℓ} : {Phase : Type ℓ} → (Phase → ℕ) → Phase → List Phase → List Phase
insert_phase order p [] = p ∷ []
insert_phase order p (q ∷ qs) =
    let rest = insert_phase order p qs in if leb (order p) (order q) then p ∷ q ∷ qs else q ∷ rest

unfoldable pub sorted_phases {ℓ} : {Phase : Type ℓ} → (Phase → ℕ) → List Phase → List Phase
unfolding insert_phase
sorted_phases order [] = []
sorted_phases order (p ∷ ps) = insert_phase order p (sorted_phases order ps)

abbrev pub exceeded : Option BudgetTracker → Bool
exceeded none = false
exceeded (some t) = is_exceeded t

abbrev pub phase_exceeded : String → Option BudgetTracker → Bool
phase_exceeded id none = false
phase_exceeded id (some t) = is_phase_exceeded id t

-- `timeout_seconds and timeout_seconds > 0`
abbrev pub effective : Option ℕ → Option ℕ
effective none = none
effective (some t) = if ltb 0 t then some t else none

abbrev pub gates_of {ℓ} : {Gate : Type ℓ} → Option (List Gate) → List Gate
gates_of none = []
gates_of (some gates) = gates

module _ {Any : Type 0} where
  abbrev pub goal_of : PipelinePhase Any → String → PhaseGoal
  goal_of phase goal = if phase.goal == goal then named phase.name goal else own phase.goal

  abbrev pub skip : PipelinePhase Any → PhaseResult
  skip phase = record {
    phase_id = phase.id;
    status = skipped;
    gate_results = [];
    duration_seconds = 0;
    error = none;
  }

  abbrev pub failure : PipelinePhase Any → PhaseError → List GateResult → ℕ → PhaseResult
  failure phase e gates duration = record {
    phase_id = phase.id;
    status = failed;
    gate_results = gates;
    duration_seconds = duration;
    error = some e;
  }

  abbrev pub success : PipelinePhase Any → List GateResult → ℕ → PhaseResult
  success phase gates duration = record {
    phase_id = phase.id;
    status = completed;
    gate_results = gates;
    duration_seconds = duration;
    error = none;
  }
