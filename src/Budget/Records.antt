-- ===== src/Budget/Records.antt =====
-- swarmline/pipeline/budget.py: what `record` does to the totals.
use swarmline.Base.{
  ℕ, ◌+◌, ◌≤◌, String, ◌≡◌, sym, ap, ◌∙◌, Bool, true, Option, none, some, List, [], ◌∷◌, ◌++◌, ◌==◌,
  if◌then◌else◌, arith,
}
use mathlib.Core.Path.{subst}
use swarmline.Budget.{
  CostRecord, BudgetPolicy, BudgetTracker, sum_of, total_cost, agent_cost, is_agent_exceeded,
  check_warning, record_cost, reached,
}

pub sum_of-append :
    (test : CostRecord → Bool) (rs qs : List CostRecord)
    → sum_of test (rs ++ qs) ≡ sum_of test rs + sum_of test qs
sum_of-append test [] qs = omega arith
sum_of-append test (r ∷ rs) qs = ground (arith, sum_of-append test rs qs)

records-check_warning :
    (has_loop : Bool) (t : BudgetTracker) → (check_warning has_loop t).records ≡ t.records
unfolding check_warning
records-check_warning has_loop t = ground arith

policy-check_warning :
    (has_loop : Bool) (t : BudgetTracker) → (check_warning has_loop t).policy ≡ t.policy
unfolding check_warning
policy-check_warning has_loop t = ground arith

-- Recording a cost adds it to the total, to the cost of its agent and to that of no other agent.
pub record_cost_lem :
    (has_loop : Bool) (cost : CostRecord) (agent : String) (t : BudgetTracker)
    → (total_cost (record_cost has_loop cost t) ≡ total_cost t + cost.cost_usd)
      × (agent_cost agent (record_cost has_loop cost t)
          ≡ agent_cost agent t + (if cost.agent_id == agent then cost.cost_usd else 0))
unfolding record_cost total_cost agent_cost
record_cost_lem has_loop cost agent t = (
  rw records-check_warning (sum_of-append (λ _. true) t.records (cost ∷ []) ∙ omega arith),
  rw records-check_warning (
      sum_of-append (λ r. r.agent_id == agent) t.records (cost ∷ [])
      ∙ ap (λ (n : ℕ). agent_cost agent t + n) (ground arith)),
)

pub policy-record_cost :
    (has_loop : Bool) (cost : CostRecord) (t : BudgetTracker)
    → (record_cost has_loop cost t).policy ≡ t.policy
unfolding record_cost
policy-record_cost has_loop cost t =
    policy-check_warning has_loop (record t { records = t.records ++ cost ∷ [] })

reached_mono :
    (limit : Option ℕ) (a b : ℕ) → a ≤ b → reached limit a ≡ true → reached limit b ≡ true
reached_mono none a b le h = cc
reached_mono (some limit) a b le h = ground arith

pub record_cost-agent_exceeded :
    (agent : String) (has_loop : Bool) (cost : CostRecord) (t : BudgetTracker)
    → is_agent_exceeded agent t ≡ true
    → is_agent_exceeded agent (record_cost has_loop cost t) ≡ true
unfolding is_agent_exceeded
record_cost-agent_exceeded agent has_loop cost t h =
    subst
      (λ (p : BudgetPolicy).
        reached p.max_per_agent_usd (agent_cost agent (record_cost has_loop cost t)) ≡ true)
      (sym (policy-record_cost has_loop cost t))
      (reached_mono t.policy.max_per_agent_usd (agent_cost agent t)
        (agent_cost agent (record_cost has_loop cost t))
        (ground (arith, (record_cost_lem has_loop cost agent t).1)) h)
