-- ===== src/Examples/Money.antt =====
-- Budgets: a tracker with a limit of 10 and calls that cost 6 each, then a partition.
use swarmline.Base.{◌+◌, ◌<◌, ◌≤◌, ◌≡◌, String, refl, true, none, some, List, [], ◌∷◌, arith}
use swarmline.Base.Dict.{get, put}
use swarmline.Budget.{
  CostRecord, BudgetPolicy, Run, new_tracker, total_cost, agent_cost, check_run, is_exceeded,
  is_agent_exceeded, after_run, record_cost, check_warning,
}
use swarmline.Budget.Runs.{Event, launch, land, idle, step, steps}
use swarmline.Budget.Limits.{Overlap, steps-WithinRuns}
use swarmline.Budget.Partition.{
  PartitionedTracker, new_partitioned, create_partition, record_direct, global_cost, partition_cost,
}
use swarmline.Budget.Rollup.{
  IsRolledUp, Command, create, spend, spend_direct, perform_all, perform_all-IsRolledUp,
}

abbrev policy : BudgetPolicy
policy = record {
  max_total_usd = some 10;
  max_per_phase_usd = none;
  max_per_agent_usd = some 8;
  warn_at_percent = 80;
}

abbrev run : String → Run
run agent = record {
  phase_id = none;
  agent_id = agent;
  task_id = "t";
  result = some "done";
  start = 1;
  finish = 2;
  cost_of = λ text. 6;
}

-- Two calls overlap, so that both pass the check; a third is refused after they have ended.
abbrev overlapping : List Event
overlapping = launch (run "a") ∷ launch (run "b") ∷ land 1 ∷ land 0 ∷ launch (run "c") ∷ land 0 ∷ []

overlaps : Overlap 2 true overlapping (idle (new_tracker policy true))
unfolding step check_run is_exceeded is_agent_exceeded after_run record_cost check_warning
    new_tracker total_cost agent_cost
overlaps =
    (omega arith, (omega arith, (omega arith, (omega arith, (omega arith, (omega arith, tt))))))

below_ten : total_cost (new_tracker policy true) < 10
unfolding new_tracker total_cost
below_ten = omega arith

limited : (new_tracker policy true).policy.max_total_usd ≡ some 10
unfolding new_tracker
limited = refl

steps-WithinRuns_example :
    total_cost (steps true overlapping (idle (new_tracker policy true))).tracker < 22
steps-WithinRuns_example =
    steps-WithinRuns 10 6 2 true overlapping (new_tracker policy true) limited below_ten
      (
        (λ text. omega arith),
        ((λ text. omega arith), (tt, (tt, ((λ text. omega arith), (tt, tt))))),
      )
      overlaps

abbrev cost : CostRecord
cost = record {
  agent_id = "a";
  task_id = "t";
  phase_id = none;
  cost_usd = 9;
  tokens_in = 0;
  tokens_out = 0;
  duration = 1;
  timestamp = 2;
}

abbrev empty : PartitionedTracker
empty = new_partitioned policy true

empty-IsRolledUp : IsRolledUp 0 empty
unfolding new_partitioned global_cost
empty-IsRolledUp = record { within = λ r. omega arith }

abbrev commands : List Command
commands =
    create "g" policy
    ∷ spend true "g" cost
    ∷ spend_direct true 0 cost
    ∷ spend true "h" cost
    ∷ create "g" policy
    ∷ []

perform_all-IsRolledUp_example :
    (global_cost (perform_all commands empty) ≡ global_cost empty + 18)
    × ((j : String)
        → partition_cost j (perform_all commands empty)
          ≤ global_cost (perform_all commands empty) + (0 + 9))
perform_all-IsRolledUp_example = perform_all-IsRolledUp commands 0 empty empty-IsRolledUp

-- What is recorded on a partition's tracker alone does not count in the global total.
past_global :
    (partition_cost "g" (perform_all (create "g" policy ∷ spend_direct true 0 cost ∷ []) empty) ≡ 9)
    × (global_cost (perform_all (create "g" policy ∷ spend_direct true 0 cost ∷ []) empty) ≡ 0)
unfolding partition_cost global_cost create_partition record_direct new_partitioned new_tracker
    record_cost total_cost check_warning get put
past_global = (refl, refl)
