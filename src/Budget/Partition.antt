-- ===== src/Budget/Partition.antt =====
-- swarmline/pipeline/partitioned_budget.py: `PartitionedBudgetTracker`. The events of the global
-- tracker are listed in `emitted`; those of a partition go through the namespaced bus of its tracker.
-- `create_partition` and `get_partition` hand out the tracker that is stored, which their caller may
-- record on as well: `trackers` holds the objects in the order they were made, and a number in it is
-- a reference to one.
use swarmline.Base.{
  ℕ, zero, suc, length, ◌*◌, String, Bool, true, false, not, ◌||◌, Option, none, some, List, [],
  ◌∷◌, ◌++◌, if◌then◌else◌, leb, eqb,
}
use swarmline.Base.Dict.{Dict, get, put, keys}
use swarmline.Budget.{
  CostRecord, BudgetPolicy, BudgetTracker, new_tracker, record_cost, total_cost, sum_of,
  is_exceeded, reached,
}

-- `{namespace}:budget_exceeded` and `global:budget_warning`, with their payload.
pub data Event : Type 0 where
  budget_exceeded : String → ℕ → Option ℕ → Event
  budget_warning : ℕ → ℕ → Event

pub record PartitionedTracker : Type 0 where
  pub global_policy : BudgetPolicy
  pub has_bus : Bool
  pub emitted : List Event
  pub trackers : List BudgetTracker
  pub partitions : Dict ℕ
  pub partition_policies : Dict BudgetPolicy
  pub global_records : List CostRecord
  pub global_warned : Bool

-- The object that a reference names.
abbrev pub tracker_at : ℕ → List BudgetTracker → Option BudgetTracker
tracker_at r [] = none
tracker_at zero (t ∷ ts) = some t
tracker_at (suc r) (t ∷ ts) = tracker_at r ts

-- What a call does to the object that a reference names.
abbrev pub update_at : ℕ → (BudgetTracker → BudgetTracker) → List BudgetTracker → List BudgetTracker
update_at r change [] = []
update_at zero change (t ∷ ts) = change t ∷ ts
update_at (suc r) change (t ∷ ts) = t ∷ update_at r change ts

unfoldable pub new_partitioned : BudgetPolicy → Bool → PartitionedTracker
new_partitioned policy has_bus = record {
  global_policy = policy;
  has_bus = has_bus;
  emitted = [];
  trackers = [];
  partitions = [];
  partition_policies = [];
  global_records = [];
  global_warned = false;
}

-- The tracker of a partition always has a bus, the wrapper.
unfoldable pub create_partition :
    String → BudgetPolicy → PartitionedTracker → ℕ × PartitionedTracker
create_partition namespace policy p =
    let partition = length p.trackers in
    (
      partition,
      record p {
        trackers = p.trackers ++ new_tracker policy true ∷ [];
        partitions = put namespace partition p.partitions;
        partition_policies = put namespace policy p.partition_policies;
      },
    )

unfoldable pub get_partition : String → PartitionedTracker → Option ℕ
get_partition namespace p = get namespace p.partitions

-- The object that is stored for a namespace.
abbrev pub partition_of : Option ℕ → List BudgetTracker → Option BudgetTracker
partition_of none trackers = none
partition_of (some r) trackers = tracker_at r trackers

-- `BudgetTracker.record` on a tracker that was handed out.
unfoldable pub record_direct : Bool → ℕ → CostRecord → PartitionedTracker → PartitionedTracker
record_direct has_loop r cost p = record p {
  trackers = update_at r (record_cost has_loop cost) p.trackers;
}

unfoldable pub list_partitions : PartitionedTracker → List String
list_partitions p = keys p.partitions

unfoldable pub global_cost : PartitionedTracker → ℕ
global_cost p = sum_of (λ _. true) p.global_records

abbrev pub cost_in : Option BudgetTracker → ℕ
cost_in none = 0
cost_in (some t) = total_cost t

unfoldable pub partition_cost : String → PartitionedTracker → ℕ
partition_cost namespace p = cost_in (partition_of (get namespace p.partitions) p.trackers)

unfoldable pub is_globally_exceeded : PartitionedTracker → Bool
is_globally_exceeded p = reached p.global_policy.max_total_usd (global_cost p)

abbrev exceeded_in : Option BudgetTracker → Bool
exceeded_in none = false
exceeded_in (some t) = is_exceeded t

unfoldable pub is_partition_exceeded : String → PartitionedTracker → Bool
is_partition_exceeded namespace p =
    exceeded_in (partition_of (get namespace p.partitions) p.trackers)

abbrev limit_of : Option BudgetPolicy → Option ℕ
limit_of none = none
limit_of (some policy) = policy.max_total_usd

unfoldable pub check_partition_exceeded :
    Bool → String → BudgetTracker → PartitionedTracker → PartitionedTracker
check_partition_exceeded has_loop namespace t p =
    if not p.has_bus || (not (is_exceeded t) || not has_loop) then p else record p {
      emitted =
          p.emitted
          ++ budget_exceeded namespace (total_cost t)
              (limit_of (get namespace p.partition_policies))
            ∷ [];
    }

abbrev warn_under : Option ℕ → Bool → PartitionedTracker → PartitionedTracker
warn_under none has_loop p = p
warn_under (some limit) has_loop p =
    if eqb limit 0
    then p
    else if leb (p.global_policy.warn_at_percent * limit) (global_cost p * 100)
    then record p {
      global_warned = true;
      emitted =
          (if has_loop then p.emitted ++ budget_warning (global_cost p) limit ∷ [] else p.emitted);
    }
    else p

unfoldable pub check_global_warning : Bool → PartitionedTracker → PartitionedTracker
check_global_warning has_loop p =
    if p.global_warned || not p.has_bus
    then p
    else warn_under p.global_policy.max_total_usd has_loop p

abbrev pub checked : Option BudgetTracker → Bool → String → PartitionedTracker → PartitionedTracker
checked none has_loop namespace p = p
checked (some t) has_loop namespace p = check_partition_exceeded has_loop namespace t p

unfoldable pub record_in :
    Option ℕ → Bool → String → CostRecord → PartitionedTracker → PartitionedTracker
unfolding record_direct
record_in none has_loop namespace cost p = p
record_in (some r) has_loop namespace cost p =
    let p' = record_direct has_loop r cost p in
    checked (tracker_at r p'.trackers) has_loop namespace p'

abbrev pub append_global : CostRecord → PartitionedTracker → PartitionedTracker
append_global cost p = record p { global_records = p.global_records ++ cost ∷ [] }

-- `record`
unfoldable pub record_partitioned :
    Bool → String → CostRecord → PartitionedTracker → PartitionedTracker
record_partitioned has_loop namespace cost p =
    check_global_warning has_loop
      (append_global cost (record_in (get namespace p.partitions) has_loop namespace cost p))
