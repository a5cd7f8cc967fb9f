-- ===== src/Phases/Trails.antt =====
-- swarmline/pipeline/pipeline.py: the results of a run, one for each phase, and the gates of a phase.
use swarmline.Base.{String, Bool, true, List, [], ◌∷◌, length, all, ◌≡◌, inl, inr}
use swarmline.Base.Dict.{Dict, get}
use swarmline.Phases.{
  completed, failed, skipped, PipelinePhase, GateResult, PhaseResult, Environment, gates_of,
}
use swarmline.Phases.Settled.{run_single_phase-Settled}
use swarmline.Phases.Runner.{run_single_phase}

abbrev pub AllSkipped : List PhaseResult → Type 0
AllSkipped [] = Unit
AllSkipped (r ∷ rs) = (r.status ≡ skipped) × AllSkipped rs

-- Completed phases, then at most one that failed, then skipped ones.
pub data Trail : List PhaseResult → Type 0 where
  over : Trail []
  one_more :
      {r : PhaseResult} {rs : List PhaseResult} → r.status ≡ completed → Trail rs → Trail (r ∷ rs)
  broken :
      {r : PhaseResult} {rs : List PhaseResult} → r.status ≡ failed → AllSkipped rs → Trail (r ∷ rs)
  given_up : {rs : List PhaseResult} → AllSkipped rs → Trail rs

abbrev pub phase_ids : List PhaseResult → List String
phase_ids [] = []
phase_ids (r ∷ rs) = r.phase_id ∷ phase_ids rs

abbrev pub ids : {Any : Type 0} → List (PipelinePhase Any) → List String
ids [] = []
ids (p ∷ ps) = p.id ∷ ids ps

module _ {Any Gate World : Type 0} (env : Environment Gate World) where
  -- A phase whose result is completed has the results of all its gates, and all of them have passed.
  pub run_single_phase-gates :
      (gates : Dict (List Gate)) (phase : PipelinePhase Any) (goal : String) (w : World)
      → (run_single_phase env gates phase goal w).0.status ≡ completed
      → (all (λ (g : GateResult). g.passed) (run_single_phase env gates phase goal w).0.gate_results
          ≡ true)
        × (length (run_single_phase env gates phase goal w).0.gate_results
            ≡ length (gates_of (get phase.id gates)))
  run_single_phase-gates gates phase goal w done =
      elim (run_single_phase-Settled env gates phase goal w).1 [
        | inl broke ↦ absurd cc
        | inr (same, passed, count) ↦ (passed, count)
      ]

module _ {Any Gate World : Type 0} (env : Environment Gate World)
    (same : PipelinePhase Any → PipelinePhase Any → Bool) where
  -- Equality of phases holds of a phase and itself, and of no two with different ids.
  pub record IsEquality : Type 0 where
    pub reflexive : (p : PipelinePhase Any) → same p p ≡ true
    pub by_id : (p q : PipelinePhase Any) → same p q ≡ true → p.id ≡ q.id
