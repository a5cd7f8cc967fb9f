-- ===== src/Budget/Limits.antt =====
-- What the limits of a tracker guarantee when calls of wrapped runners overlap.
use swarmline.Base.{
  ℕ, zero, suc, ◌+◌, ◌*◌, ◌≤◌, ◌<◌, String, ◌≡◌, refl, ap, ◌∙◌, Bool, true, Option, none, some,
  List, [], ◌∷◌, arith, length, All,
}
use native.Mathlib.Nat.{mul-le-mul_right}
use swarmline.Budget.{
  BudgetPolicy, BudgetTracker, Run, Outcome, total_cost, is_exceeded, is_agent_exceeded, check_run,
  after_run, after_result, cost_record,
}
use swarmline.Budget.Records.{record_cost_lem, policy-record_cost, record_cost-agent_exceeded}
use swarmline.Budget.Runs.{
  Runs, Event, launch, land, idle, admitted, later_one, take_out, landed, step, steps,
}

-- What a call costs, whatever its runner answers.
abbrev pub CostsAtMost : ℕ → Run → Type 0
CostsAtMost most r = (text : String) → r.cost_of text ≤ most

-- The calls that an event begins.
abbrev pub Launches : (Run → Type 0) → Event → Type 0
Launches P (launch r) = P r
Launches P (land i) = Unit

-- Never more than `n` calls are running.
abbrev pub Overlap : ℕ → Bool → List Event → Runs → Type 0
Overlap n has_loop [] s = Unit
Overlap n has_loop (e ∷ es) s =
    (length (step has_loop e s).running ≤ n) × Overlap n has_loop es (step has_loop e s)

-- The total, with `most` for each running call, is below the limit plus `most` for each of `n` calls.
pub record WithinRuns (limit most n : ℕ) (s : Runs) : Type 0 where
  pub limited : s.tracker.policy.max_total_usd ≡ some limit
  pub below : total_cost s.tracker + length s.running * most < limit + n * most
  pub cheap : All (CostsAtMost most) s.running

below_limit :
    (limit : ℕ) (agent : String) (t : BudgetTracker)
    → t.policy.max_total_usd ≡ some limit
    → check_run agent t ≡ none
    → total_cost t < limit
unfolding check_run is_exceeded
below_limit limit agent t limited h = ground arith

launch-WithinRuns :
    (limit most n : ℕ) (r : Run) (s : Runs) (o : Option Outcome)
    → check_run r.agent_id s.tracker ≡ o
    → CostsAtMost most r
    → length (admitted o r s).running ≤ n
    → WithinRuns limit most n s
    → WithinRuns limit most n (admitted o r s)
launch-WithinRuns limit most n r s (some refused) e small room h = h
launch-WithinRuns limit most n r s none e small room h = record {
  limited = h.limited;
  below =
      omega (arith, below_limit limit r.agent_id s.tracker h.limited e, mul-le-mul_right most room);
  cheap = (small, h.cheap);
}

-- A call of a list, and the others in their order.
data Taken : List Run → Run → List Run → Type 0 where
  here : {r : Run} {rs : List Run} → Taken (r ∷ rs) r rs
  there : {q r : Run} {rs rest : List Run} → Taken rs r rest → Taken (q ∷ rs) r (q ∷ rest)

abbrev Took : List Run → Option (Run × List Run) → Type 0
Took rs none = Unit
Took rs (some (r, rest)) = Taken rs r rest

Took-later_one :
    (q : Run) (rs : List Run) (o : Option (Run × List Run))
    → Took rs o
    → Took (q ∷ rs) (later_one q o)
Took-later_one q rs none h = tt
Took-later_one q rs (some (r, rest)) h = there h

take_out-Took : (i : ℕ) (rs : List Run) → Took rs (take_out i rs)
take_out-Took i [] = tt
take_out-Took zero (r ∷ rs) = here
take_out-Took (suc i) (r ∷ rs) = Took-later_one r rs (take_out i rs) (take_out-Took i rs)

Taken-length : {rs rest : List Run} {r : Run} → Taken rs r rest → length rs ≡ suc (length rest)
Taken-length here = refl
Taken-length (there h) = ap suc (Taken-length h)

Taken-All :
    (P : Run → Type 0) {rs rest : List Run} {r : Run}
    → Taken rs r rest
    → All P rs
    → P r × All P rest
Taken-All P here (own, others) = (own, others)
Taken-All P (there h) (own, others) =
    let (taken, left) = Taken-All P h others in (taken, (own, left))

after_result-total :
    (most : ℕ) (has_loop : Bool) (r : Run) (result : Option String) (t : BudgetTracker)
    → CostsAtMost most r
    → (total_cost (after_result has_loop r result t).1 ≤ total_cost t + most)
      × ((after_result has_loop r result t).1.policy ≡ t.policy)
after_result-total most has_loop r none t small = (omega arith, refl)
after_result-total most has_loop r (some text) t small = (
  omega (arith, small text, (record_cost_lem has_loop (cost_record r text) "" t).0),
  policy-record_cost has_loop (cost_record r text) t,
)

after_run-total :
    (most : ℕ) (has_loop : Bool) (r : Run) (t : BudgetTracker)
    → CostsAtMost most r
    → (total_cost (after_run has_loop r t).1 ≤ total_cost t + most)
      × ((after_run has_loop r t).1.policy ≡ t.policy)
unfolding after_run
after_run-total most has_loop r t small = after_result-total most has_loop r r.result t small

land-WithinRuns :
    (limit most n : ℕ) (has_loop : Bool) (s : Runs) (o : Option (Run × List Run))
    → Took s.running o
    → WithinRuns limit most n s
    → WithinRuns limit most n (landed has_loop o s)
land-WithinRuns limit most n has_loop s none taken h = h
land-WithinRuns limit most n has_loop s (some (r, rest)) taken h =
    let (small, cheap) = Taken-All (CostsAtMost most) taken h.cheap in
    let (cost, policy) = after_run-total most has_loop r s.tracker small in
    record {
      limited = ap (λ (p : BudgetPolicy). p.max_total_usd) policy ∙ h.limited;
      below = omega (arith, cost, h.below, ap (λ (k : ℕ). k * most) (Taken-length taken));
      cheap = cheap;
    }

step-WithinRuns :
    (limit most n : ℕ) (has_loop : Bool) (e : Event) (s : Runs)
    → Launches (CostsAtMost most) e
    → length (step has_loop e s).running ≤ n
    → WithinRuns limit most n s
    → WithinRuns limit most n (step has_loop e s)
unfolding step
step-WithinRuns limit most n has_loop (launch r) s small room h =
    launch-WithinRuns limit most n r s (check_run r.agent_id s.tracker) refl small room h
step-WithinRuns limit most n has_loop (land i) s small room h =
    land-WithinRuns limit most n has_loop s (take_out i s.running) (take_out-Took i s.running) h

steps-Within :
    (limit most n : ℕ) (has_loop : Bool) (es : List Event) (s : Runs)
    → All (Launches (CostsAtMost most)) es
    → Overlap n has_loop es s
    → WithinRuns limit most n s
    → WithinRuns limit most n (steps has_loop es s)
steps-Within limit most n has_loop [] s small room h = h
steps-Within limit most n has_loop (e ∷ es) s small room h =
    steps-Within limit most n has_loop es (step has_loop e s) small.1 room.1
      (step-WithinRuns limit most n has_loop e s small.0 room.0 h)

-- When a tracker has a total limit that its total is below, no call of a wrapped runner costs more
-- than `most`, and never more than `n` calls are running, then, in whatever order calls begin and
-- end, and if nothing else is recorded, the total stays below the limit plus `n` times `most`.
pub steps-WithinRuns :
    (limit most n : ℕ) (has_loop : Bool) (es : List Event) (t : BudgetTracker)
    → t.policy.max_total_usd ≡ some limit
    → total_cost t < limit
    → All (Launches (CostsAtMost most)) es
    → Overlap n has_loop es (idle t)
    → total_cost (steps has_loop es (idle t)).tracker < limit + n * most
steps-WithinRuns limit most n has_loop es t limited low small room =
    let h =
      steps-Within limit most n has_loop es (idle t) small room
        (record { limited = limited; below = omega arith; cheap = tt }) in
    omega (arith, h.below)

after_result-agent_exceeded :
    (agent : String) (has_loop : Bool) (r : Run) (result : Option String) (t : BudgetTracker)
    → is_agent_exceeded agent t ≡ true
    → is_agent_exceeded agent (after_result has_loop r result t).1 ≡ true
after_result-agent_exceeded agent has_loop r none t h = h
after_result-agent_exceeded agent has_loop r (some text) t h =
    record_cost-agent_exceeded agent has_loop (cost_record r text) t h

step-agent_exceeded :
    (agent : String) (has_loop : Bool) (e : Event) (s : Runs)
    → is_agent_exceeded agent s.tracker ≡ true
    → is_agent_exceeded agent (step has_loop e s).tracker ≡ true
unfolding step after_run
step-agent_exceeded agent has_loop (launch r) s h = kept (check_run r.agent_id s.tracker)
  where
    kept : (o : Option Outcome) → is_agent_exceeded agent (admitted o r s).tracker ≡ true
    kept none = h
    kept (some refused) = h
step-agent_exceeded agent has_loop (land i) s h = kept (take_out i s.running)
  where
    kept :
        (o : Option (Run × List Run)) → is_agent_exceeded agent (landed has_loop o s).tracker ≡ true
    kept none = h
    kept (some (r, rest)) = after_result-agent_exceeded agent has_loop r r.result s.tracker h

-- Once an agent has reached its limit it stays at its limit, whatever calls begin and end.
pub agent_stays_exceeded :
    (agent : String) (has_loop : Bool) (es : List Event) (s : Runs)
    → is_agent_exceeded agent s.tracker ≡ true
    → is_agent_exceeded agent (steps has_loop es s).tracker ≡ true
agent_stays_exceeded agent has_loop [] s h = h
agent_stays_exceeded agent has_loop (e ∷ es) s h =
    agent_stays_exceeded agent has_loop es (step has_loop e s)
      (step-agent_exceeded agent has_loop e s h)
