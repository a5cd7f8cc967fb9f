-- ===== src/Budget.antt =====
-- swarmline/pipeline/budget.py: `BudgetTracker`, with `CostRecord` and `BudgetPolicy` of
-- pipeline/types.py. Money is counted in a smallest unit, so sums are exact; percentages are whole
-- numbers and compared without the division. Times are ticks.
pub mod Limits
pub mod Partition
pub mod Records
pub mod Rollup
pub mod Runs
use swarmline.Base.{
  ℕ, ◌+◌, ◌-◌, ◌*◌, String, Bool, true, false, not, ◌&&◌, ◌||◌, Option, none, some, List, [], ◌∷◌,
  ◌++◌, ◌==◌, if◌then◌else◌, leb, eqb, any, is_at,
}

pub record CostRecord : Type 0 where
  pub agent_id : String
  pub task_id : String
  pub phase_id : Option String
  pub cost_usd : ℕ
  pub tokens_in : ℕ
  pub tokens_out : ℕ
  pub duration : ℕ
  pub timestamp : ℕ

pub record BudgetPolicy : Type 0 where
  pub max_total_usd : Option ℕ
  pub max_per_phase_usd : Option ℕ
  pub max_per_agent_usd : Option ℕ
  pub warn_at_percent : ℕ

-- What is emitted on the event bus: the cost and the limit of the warning.
pub record Warning : Type 0 where
  pub current_usd : ℕ
  pub limit_usd : ℕ

-- `bus` holds what was emitted; none means that there is no bus. `has_loop` says whether an event
-- loop runs, without which the event is skipped.
pub record BudgetTracker : Type 0 where
  pub policy : BudgetPolicy
  pub has_bus : Bool
  pub emitted : List Warning
  pub records : List CostRecord
  pub warned : Bool

unfoldable pub new_tracker : BudgetPolicy → Bool → BudgetTracker
new_tracker policy has_bus = record {
  policy = policy;
  has_bus = has_bus;
  emitted = [];
  records = [];
  warned = false;
}

-- `sum(r.cost_usd for r in records if test(r))`
abbrev pub sum_of : (CostRecord → Bool) → List CostRecord → ℕ
sum_of test [] = 0
sum_of test (r ∷ rs) = let rest = sum_of test rs in if test r then r.cost_usd + rest else rest

unfoldable pub total_cost : BudgetTracker → ℕ
total_cost t = sum_of (λ _. true) t.records

unfoldable pub phase_cost : String → BudgetTracker → ℕ
phase_cost phase_id t = sum_of (λ r. is_at r.phase_id phase_id) t.records

unfoldable pub agent_cost : String → BudgetTracker → ℕ
agent_cost agent_id t = sum_of (λ r. r.agent_id == agent_id) t.records

-- `limit is not None and cost >= limit`
abbrev pub reached : Option ℕ → ℕ → Bool
reached none cost = false
reached (some limit) cost = leb limit cost

abbrev phase_reached : Option ℕ → Option String → BudgetTracker → Bool
phase_reached limit none t = false
phase_reached limit (some phase_id) t =
    if phase_id == "" then false else reached limit (phase_cost phase_id t)

-- The sets of agents and of phases are those of the records; the order does not matter.
unfoldable pub is_exceeded : BudgetTracker → Bool
is_exceeded t =
    reached t.policy.max_total_usd (total_cost t)
    || (any
          (λ r.
            if r.agent_id == ""
            then false
            else reached t.policy.max_per_agent_usd (agent_cost r.agent_id t))
          t.records
        || any (λ r. phase_reached t.policy.max_per_phase_usd r.phase_id t) t.records)

unfoldable pub check_budget : BudgetTracker → Bool
check_budget t = not (is_exceeded t)

unfoldable pub is_agent_exceeded : String → BudgetTracker → Bool
is_agent_exceeded agent_id t = reached t.policy.max_per_agent_usd (agent_cost agent_id t)

unfoldable pub is_phase_exceeded : String → BudgetTracker → Bool
is_phase_exceeded phase_id t = reached t.policy.max_per_phase_usd (phase_cost phase_id t)

-- `_check_warning`, where `limit` is the total limit.
abbrev warn_under : Option ℕ → Bool → BudgetTracker → BudgetTracker
warn_under none has_loop t = t
warn_under (some limit) has_loop t =
    if eqb limit 0
    then t
    else if leb (t.policy.warn_at_percent * limit) (total_cost t * 100)
    then record t {
      warned = true;
      emitted =
          (if has_loop
            then t.emitted ++ (record { current_usd = total_cost t; limit_usd = limit }) ∷ []
            else t.emitted);
    }
    else t

unfoldable pub check_warning : Bool → BudgetTracker → BudgetTracker
check_warning has_loop t =
    if t.warned || not t.has_bus then t else warn_under t.policy.max_total_usd has_loop t

-- `record`
unfoldable pub record_cost : Bool → CostRecord → BudgetTracker → BudgetTracker
record_cost has_loop cost t = check_warning has_loop (record t { records = t.records ++ cost ∷ [] })

unfoldable pub get_all_records : BudgetTracker → List CostRecord
get_all_records t = t.records

-- What a call of a wrapped runner ends with. `exceeded current limit` is the `BudgetExceededError`.
pub data Outcome : Type 0 where
  exceeded : ℕ → ℕ → Outcome
  runner_raised : Outcome
  returned : String → Outcome

abbrev or_zero : Option ℕ → ℕ
or_zero none = 0
or_zero (some n) = n

-- A call of a wrapped runner: the phase and the cost extractor of its wrapper, its arguments, the
-- runner's answer (`none` is an exception) and the times before and after it.
pub record Run : Type 0 where
  pub phase_id : Option String
  pub agent_id : String
  pub task_id : String
  pub result : Option String
  pub start : ℕ
  pub finish : ℕ
  pub cost_of : String → ℕ

-- `wrapped` before its await: the exception that it raises in place of calling the runner.
unfoldable pub check_run : String → BudgetTracker → Option Outcome
check_run agent_id t =
    if is_exceeded t
    then some (exceeded (total_cost t) (or_zero t.policy.max_total_usd))
    else if is_agent_exceeded agent_id t
    then some (exceeded (agent_cost agent_id t) (or_zero t.policy.max_per_agent_usd))
    else none

abbrev pub cost_record : Run → String → CostRecord
cost_record r text = record {
  agent_id = r.agent_id;
  task_id = r.task_id;
  phase_id = r.phase_id;
  cost_usd = r.cost_of text;
  tokens_in = 0;
  tokens_out = 0;
  duration = r.finish - r.start;
  timestamp = r.finish;
}

abbrev pub after_result : Bool → Run → Option String → BudgetTracker → Outcome × BudgetTracker
after_result has_loop r none t = (runner_raised, t)
after_result has_loop r (some text) t = (returned text, record_cost has_loop (cost_record r text) t)

-- `wrapped` after its await; a runner that raises leaves no record.
unfoldable pub after_run : Bool → Run → BudgetTracker → Outcome × BudgetTracker
after_run has_loop r t = after_result has_loop r r.result t
