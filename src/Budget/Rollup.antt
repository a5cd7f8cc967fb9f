-- ===== src/Budget/Rollup.antt =====
-- The global total takes in what is recorded under a namespace, and not what is recorded on the
-- tracker of a partition itself.
use swarmline.Base.{
  ℕ, zero, suc, ◌+◌, ◌≤◌, is_some, String, ◌≡◌, refl, ap, ◌∙◌, Bool, true, Option, none, some, List,
  [], ◌∷◌, ◌++◌, if◌then◌else◌, arith,
}
use swarmline.Base.Dict.{get}
use swarmline.Budget.{CostRecord, BudgetPolicy, BudgetTracker, new_tracker, record_cost, total_cost}
use swarmline.Budget.Records.{record_cost_lem, sum_of-append}
use swarmline.Budget.Partition.{
  PartitionedTracker, create_partition, global_cost, partition_cost, check_partition_exceeded,
  check_global_warning, record_partitioned, record_in, record_direct, cost_in, checked, tracker_at,
  update_at, partition_of,
}

-- The effect of `record` on the objects and on the global records.
kept-check_warning :
    (l : Bool) (p : PartitionedTracker)
    → ((check_global_warning l p).global_records ≡ p.global_records)
      × ((check_global_warning l p).trackers ≡ p.trackers)
      × ((check_global_warning l p).partitions ≡ p.partitions)
unfolding check_global_warning
kept-check_warning l p = (ground arith, ground arith, ground arith)

kept-checked :
    (o : Option BudgetTracker) (l : Bool) (n : String) (p : PartitionedTracker)
    → ((checked o l n p).global_records ≡ p.global_records)
      × ((checked o l n p).trackers ≡ p.trackers)
      × ((checked o l n p).partitions ≡ p.partitions)
unfolding check_partition_exceeded
kept-checked none l n p = (refl, refl, refl)
kept-checked (some t) l n p = (ground arith, ground arith, ground arith)

abbrev updated : Option ℕ → Bool → CostRecord → List BudgetTracker → List BudgetTracker
updated none l cost ts = ts
updated (some r) l cost ts = update_at r (record_cost l cost) ts

kept-record_in :
    (o : Option ℕ) (l : Bool) (n : String) (cost : CostRecord) (p : PartitionedTracker)
    → ((record_in o l n cost p).global_records ≡ p.global_records)
      × ((record_in o l n cost p).trackers ≡ updated o l cost p.trackers)
      × ((record_in o l n cost p).partitions ≡ p.partitions)
unfolding record_in record_direct
kept-record_in none l n cost p = (refl, refl, refl)
kept-record_in (some r) l n cost p =
    let p' = record_direct l r cost p in kept-checked (tracker_at r p'.trackers) l n p'

global-record_partitioned :
    (l : Bool) (n : String) (cost : CostRecord) (p : PartitionedTracker)
    → global_cost (record_partitioned l n cost p) ≡ global_cost p + cost.cost_usd
unfolding record_partitioned global_cost
global-record_partitioned l n cost p =
    rw ((kept-check_warning l _).0, (kept-record_in (get n p.partitions) l n cost p).0)
      (sum_of-append (λ _. true) p.global_records (cost ∷ []) ∙ omega arith)

trackers-record_partitioned :
    (l : Bool) (n : String) (cost : CostRecord) (p : PartitionedTracker)
    → (record_partitioned l n cost p).trackers ≡ updated (get n p.partitions) l cost p.trackers
unfolding record_partitioned
trackers-record_partitioned l n cost p =
    (kept-check_warning l _).1 ∙ (kept-record_in (get n p.partitions) l n cost p).1

partitions-record_partitioned :
    (l : Bool) (n : String) (cost : CostRecord) (p : PartitionedTracker)
    → (record_partitioned l n cost p).partitions ≡ p.partitions
unfolding record_partitioned
partitions-record_partitioned l n cost p =
    (kept-check_warning l _).2 ∙ (kept-record_in (get n p.partitions) l n cost p).2

-- The effect of a change on the cost of one object.
cost-update_at :
    (q r : ℕ) (l : Bool) (cost : CostRecord) (ts : List BudgetTracker)
    → cost_in (tracker_at q (update_at r (record_cost l cost) ts))
      ≤ cost_in (tracker_at q ts) + cost.cost_usd
cost-update_at q r l cost [] = omega arith
cost-update_at zero zero l cost (t ∷ ts) = omega (arith, (record_cost_lem l cost "" t).0)
cost-update_at (suc q) zero l cost (t ∷ ts) = omega arith
cost-update_at zero (suc r) l cost (t ∷ ts) = omega arith
cost-update_at (suc q) (suc r) l cost (t ∷ ts) = cost-update_at q r l cost ts

cost-update_own :
    (r : ℕ) (l : Bool) (cost : CostRecord) (ts : List BudgetTracker)
    → cost_in (tracker_at r (update_at r (record_cost l cost) ts))
      ≡ cost_in (tracker_at r ts) + (if is_some (tracker_at r ts) then cost.cost_usd else 0)
cost-update_own r l cost [] = refl
cost-update_own zero l cost (t ∷ ts) = (record_cost_lem l cost "" t).0
cost-update_own (suc r) l cost (t ∷ ts) = cost-update_own r l cost ts

cost-updated :
    (q : ℕ) (o : Option ℕ) (l : Bool) (cost : CostRecord) (ts : List BudgetTracker)
    → cost_in (tracker_at q (updated o l cost ts)) ≤ cost_in (tracker_at q ts) + cost.cost_usd
cost-updated q none l cost ts = omega arith
cost-updated q (some r) l cost ts = cost-update_at q r l cost ts

cost-append_new :
    (q : ℕ) (policy : BudgetPolicy) (ts : List BudgetTracker)
    → cost_in (tracker_at q (ts ++ new_tracker policy true ∷ [])) ≡ cost_in (tracker_at q ts)
unfolding new_tracker total_cost
cost-append_new zero policy [] = refl
cost-append_new (suc q) policy [] = refl
cost-append_new zero policy (t ∷ ts) = refl
cost-append_new (suc q) policy (t ∷ ts) = cost-append_new q policy ts

-- Recording a cost under a namespace adds it to the global total and, if the namespace has a
-- partition, to the cost of this partition.
pub record_partitioned_lem :
    (l : Bool) (n : String) (cost : CostRecord) (p : PartitionedTracker)
    → (global_cost (record_partitioned l n cost p) ≡ global_cost p + cost.cost_usd)
      × (partition_cost n (record_partitioned l n cost p)
          ≡ partition_cost n p
            + (if is_some (partition_of (get n p.partitions) p.trackers) then cost.cost_usd else 0))
unfolding partition_cost
record_partitioned_lem l n cost p = (
  global-record_partitioned l n cost p,
  rw partitions-record_partitioned
      (own (get n p.partitions) (trackers-record_partitioned l n cost p)),
)
  where
    own :
        (o : Option ℕ)
        → (record_partitioned l n cost p).trackers ≡ updated o l cost p.trackers
        → cost_in (partition_of o (record_partitioned l n cost p).trackers)
          ≡ cost_in (partition_of o p.trackers)
            + (if is_some (partition_of o p.trackers) then cost.cost_usd else 0)
    own none e = refl
    own (some r) e = rw e (cost-update_own r l cost p.trackers)

-- The calls: a partition is created, a cost is recorded under a namespace, or on a tracker that was
-- handed out, as a wrapped runner of a partition does.
pub data Command : Type 0 where
  create : String → BudgetPolicy → Command
  spend : Bool → String → CostRecord → Command
  spend_direct : Bool → ℕ → CostRecord → Command

abbrev pub perform : Command → PartitionedTracker → PartitionedTracker
perform (create n policy) p = (create_partition n policy p).1
perform (spend l n cost) p = record_partitioned l n cost p
perform (spend_direct l r cost) p = record_direct l r cost p

abbrev pub perform_all : List Command → PartitionedTracker → PartitionedTracker
perform_all [] p = p
perform_all (c ∷ cs) p = perform_all cs (perform c p)

-- What is recorded under namespaces, and what is recorded on trackers.
abbrev pub spent : Command → ℕ
spent (spend l n cost) = cost.cost_usd
spent _ = 0

abbrev pub spent_direct : Command → ℕ
spent_direct (spend_direct l r cost) = cost.cost_usd
spent_direct _ = 0

abbrev pub sum_by : (Command → ℕ) → List Command → ℕ
sum_by amount [] = 0
sum_by amount (c ∷ cs) = amount c + sum_by amount cs

-- Each tracker that was made has cost at most `extra` more than the global total.
pub record IsRolledUp (extra : ℕ) (p : PartitionedTracker) : Type 0 where
  pub within : (r : ℕ) → cost_in (tracker_at r p.trackers) ≤ global_cost p + extra

perform-global :
    (c : Command) (p : PartitionedTracker) → global_cost (perform c p) ≡ global_cost p + spent c
unfolding create_partition record_direct global_cost
perform-global (create n policy) p = omega arith
perform-global (spend l n cost) p = global-record_partitioned l n cost p
perform-global (spend_direct l r cost) p = omega arith

perform-IsRolledUp :
    (c : Command) (extra : ℕ) (p : PartitionedTracker)
    → IsRolledUp extra p
    → IsRolledUp (extra + spent_direct c) (perform c p)
unfolding create_partition record_direct
perform-IsRolledUp (create n policy) extra p h = record {
  within = λ r.
      omega (
        arith,
        h.within r,
        cost-append_new r policy p.trackers,
        perform-global (create n policy) p,
      );
}
perform-IsRolledUp (spend l n cost) extra p h = record {
  within = λ r.
      let grown : cost_in (tracker_at r (record_partitioned l n cost p).trackers)
          ≡ cost_in (tracker_at r (updated (get n p.partitions) l cost p.trackers)) =
        ap (λ (ts : List BudgetTracker). cost_in (tracker_at r ts))
          (trackers-record_partitioned l n cost p) in
      omega (
        arith,
        grown,
        h.within r,
        cost-updated r (get n p.partitions) l cost p.trackers,
        global-record_partitioned l n cost p,
      );
}
perform-IsRolledUp (spend_direct l q cost) extra p h = record {
  within = λ r. omega (
    arith,
    h.within r,
    cost-update_at r q l cost p.trackers,
    perform-global (spend_direct l q cost) p,
  );
}

partition_cost-IsRolledUp :
    (extra : ℕ) (p : PartitionedTracker)
    → IsRolledUp extra p
    → (j : String) → partition_cost j p ≤ global_cost p + extra
unfolding partition_cost
partition_cost-IsRolledUp extra p h j = at (get j p.partitions)
  where
    at : (o : Option ℕ) → cost_in (partition_of o p.trackers) ≤ global_cost p + extra
    at none = omega arith
    at (some r) = h.within r

-- If no tracker of a partition has cost more than the global total and `extra`, then after any
-- calls, also of `create_partition` under a name that is taken, the global total has grown by what
-- was recorded under namespaces, and no partition has cost more than this total, `extra` and what
-- was recorded directly on trackers that were handed out.
pub perform_all-IsRolledUp :
    (cs : List Command) (extra : ℕ) (p : PartitionedTracker)
    → IsRolledUp extra p
    → (global_cost (perform_all cs p) ≡ global_cost p + sum_by spent cs)
      × ((j : String)
          → partition_cost j (perform_all cs p)
            ≤ global_cost (perform_all cs p) + (extra + sum_by spent_direct cs))
perform_all-IsRolledUp [] extra p h =
    (omega arith, λ j. omega (arith, partition_cost-IsRolledUp extra p h j))
perform_all-IsRolledUp (c ∷ cs) extra p h =
    let (total, within) =
      perform_all-IsRolledUp cs (extra + spent_direct c) (perform c p)
        (perform-IsRolledUp c extra p h) in
    (omega (arith, total, perform-global c p), λ j. omega (arith, within j))
