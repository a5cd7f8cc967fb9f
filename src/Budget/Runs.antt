-- ===== src/Budget/Runs.antt =====
-- swarmline/pipeline/budget.py: the functions that `wrap_runner` returns, called concurrently. Between
-- the check and the record of a call stands the await of its runner, where other calls may go on: a
-- call is two steps, and steps of different calls follow one another in any order.
use swarmline.Base.{ℕ, zero, suc, Bool, Option, none, some, List, [], ◌∷◌}
use swarmline.Budget.{BudgetTracker, Run, Outcome, check_run, after_run}

-- The tracker, and the calls whose runner has not ended, the newest first.
pub record Runs : Type 0 where
  pub tracker : BudgetTracker
  pub running : List Run

-- A call begins; the runner of a running call ends, which is given by its place.
pub data Event : Type 0 where
  launch : Run → Event
  land : ℕ → Event

abbrev pub idle : BudgetTracker → Runs
idle t = record { tracker = t; running = [] }

abbrev pub admitted : Option Outcome → Run → Runs → Runs
admitted (some refused) r s = s
admitted none r s = record s { running = r ∷ s.running }

abbrev pub later_one : Run → Option (Run × List Run) → Option (Run × List Run)
later_one r none = none
later_one r (some (q, rest)) = some (q, r ∷ rest)

-- The call at a place and the others.
abbrev pub take_out : ℕ → List Run → Option (Run × List Run)
take_out i [] = none
take_out zero (r ∷ rs) = some (r, rs)
take_out (suc i) (r ∷ rs) = later_one r (take_out i rs)

abbrev pub landed : Bool → Option (Run × List Run) → Runs → Runs
landed has_loop none s = s
landed has_loop (some (r, rest)) s = record {
  tracker = (after_run has_loop r s.tracker).1;
  running = rest;
}

unfoldable pub step : Bool → Event → Runs → Runs
step has_loop (launch r) s = admitted (check_run r.agent_id s.tracker) r s
step has_loop (land i) s = landed has_loop (take_out i s.running) s

abbrev pub steps : Bool → List Event → Runs → Runs
steps has_loop [] s = s
steps has_loop (e ∷ es) s = steps has_loop es (step has_loop e s)
