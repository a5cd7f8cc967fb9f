-- ===== src/Phases/Settled.antt =====
-- swarmline/pipeline/pipeline.py: the result of one phase and of its gates.
use swarmline.Base.{
  ℕ, ◌+◌, String, Bool, true, List, [], ◌∷◌, ◌++◌, length, length-append, all, ◌≡◌, refl, ◌⊎◌,
  arith, Bool-cases, inl, inr,
}
use swarmline.Base.Dict.{Dict, get}
use swarmline.Phases.{
  completed, failed, PipelinePhase, GateResult, PhaseResult, Ended, run_ended, by_timeout,
  by_cancel, by_exception, Environment, exceeded, phase_exceeded, phase_started, gates_of,
}
use swarmline.Phases.Runner.{check_gates, after_gates, finish_phase, run_single_phase}

-- The result of a phase: completed with all gates passed, or failed.
abbrev pub Passed : {Gate : Type 0} → List Gate → PhaseResult → Type 0
Passed gates r =
    (r.status ≡ completed)
    × (all (λ (g : GateResult). g.passed) r.gate_results ≡ true)
    × (length r.gate_results ≡ length gates)

all-append :
    (test : GateResult → Bool) (xs : List GateResult) (x : GateResult)
    → all test xs ≡ true
    → test x ≡ true
    → all test (xs ++ x ∷ []) ≡ true
all-append test [] x h e = rw e refl
all-append test (y ∷ xs) x h e = ground (arith, all-append test xs x)

module _ {Any Gate World : Type 0} (env : Environment Gate World) where
  -- A result of the phase: failed, or completed with all its gates passed.
  abbrev pub Settled : List Gate → PipelinePhase Any → PhaseResult → Type 0
  Settled gates phase r = (r.phase_id ≡ phase.id) × ((r.status ≡ failed) ⊎ Passed gates r)

  after_gates-Settled :
      (gates left : List Gate) (phase : PipelinePhase Any) (began : ℕ) (run_id : String)
      (results : List GateResult) (w : World)
      → all (λ (g : GateResult). g.passed) results ≡ true
      → length results + length left ≡ length gates
      → Settled gates phase
          (after_gates env phase began (check_gates env left phase run_id results w)).0
  unfolding check_gates after_gates
  after_gates-Settled gates [] phase began run_id results w passed count =
      (refl, inr (refl, passed, omega (arith, count)))
  after_gates-Settled gates (gate ∷ left) phase began run_id results w passed count =
      elim (Bool-cases (env.check gate phase.id phase.goal run_id w).0.passed) [
        | inl ok ↦
            rw (check_gates, ok)
              (after_gates-Settled gates left phase began run_id _ _
                (all-append (λ (g : GateResult). g.passed) results _ passed ok)
                (omega (
                  arith,
                  count,
                  length-append results ((env.check gate phase.id phase.goal run_id w).0 ∷ []),
                )))
        | inr bad ↦ rw (check_gates, bad) (refl, inl refl)
      ]

  finish_phase-Settled :
      (gates : List Gate) (phase : PipelinePhase Any) (began : ℕ) (ended : Ended) (w : World)
      → Settled gates phase (finish_phase env gates phase began ended w).0
  unfolding finish_phase
  finish_phase-Settled gates phase began (run_ended run_id) w =
      after_gates-Settled gates gates phase began run_id [] w refl (omega arith)
  finish_phase-Settled gates phase began by_timeout w = (refl, inl refl)
  finish_phase-Settled gates phase began by_cancel w = (refl, inl refl)
  finish_phase-Settled gates phase began (by_exception message) w = (refl, inl refl)

  pub run_single_phase-Settled :
      (gates : Dict (List Gate)) (phase : PipelinePhase Any) (goal : String) (w : World)
      → Settled (gates_of (get phase.id gates)) phase (run_single_phase env gates phase goal w).0
  unfolding run_single_phase
  run_single_phase-Settled gates phase goal w =
      elim (Bool-cases (exceeded (env.tracker (env.emit (phase_started phase.id phase.name) w)))) [
        | inl spent ↦ rw (run_single_phase, spent) (refl, inl refl)
        | inr left ↦
            elim (Bool-cases (
              phase_exceeded phase.id
                (env.tracker (env.emit (phase_started phase.id phase.name) w)))) [
                  | inl spent ↦ rw (run_single_phase, left, spent) (refl, inl refl)
                  | inr more ↦
                      rw (run_single_phase, left, more)
                        (finish_phase-Settled (gates_of (get phase.id gates)) phase _ _ _)
                ]
      ]
