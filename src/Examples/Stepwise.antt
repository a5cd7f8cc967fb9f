-- ===== src/Examples/Stepwise.antt =====
-- A pipeline of three phases, of which the second fails its gate.
use swarmline.Base.{
  ℕ, ◌+◌, String, Bool, true, false, none, List, [], ◌∷◌, all, length, ◌≡◌, refl, ◌==◌,
}
use swarmline.Base.Dict.{Dict, get}
use swarmline.Phases.{PipelinePhase, GateResult, Environment, run_ended, completed, gates_of}
use swarmline.Phases.Runner.{run_single_phase}
use swarmline.Phases.Trails.{run_single_phase-gates}

abbrev phase : String → PipelinePhase ℕ
phase id = record {
  id = id;
  name = id;
  goal = "build";
  agent_filter = none;
  order = 0;
  timeout_seconds = none;
  metadata = [];
}

-- A gate is its verdict.
abbrev environment : Environment Bool ℕ
environment = record {
  orchestrate = λ goal timeout w. (run_ended "run", w + 1);
  check = λ gate id goal run w. (record { passed = gate; gate_name = "gate"; details = "" }, w);
  stop_requested = λ w. false;
  tracker = λ w. none;
  clock = λ w. w;
  emit = λ event w. w;
}

abbrev gates : Dict (List Bool)
gates = ("plan", true ∷ true ∷ []) ∷ ("code", true ∷ false ∷ []) ∷ []

abbrev phases : List (PipelinePhase ℕ)
phases = phase "plan" ∷ phase "code" ∷ phase "test" ∷ []

-- Phases are compared by what tells these apart.
abbrev same : PipelinePhase ℕ → PipelinePhase ℕ → Bool
same p q = p.id == q.id

planned : (run_single_phase environment gates (phase "plan") "build" 0).0.status ≡ completed
unfolding run_single_phase get
planned = refl

run_single_phase-gates_example :
    (all
        (λ (g : GateResult). g.passed)
        (run_single_phase environment gates (phase "plan") "build" 0).0.gate_results
      ≡ true)
    × (length (run_single_phase environment gates (phase "plan") "build" 0).0.gate_results
        ≡ length (gates_of (get "plan" gates)))
run_single_phase-gates_example =
    run_single_phase-gates environment gates (phase "plan") "build" 0 planned
