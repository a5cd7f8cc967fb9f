-- ===== src/Workflow/Halts.antt =====
-- swarmline/orchestration/workflow_graph.py: the execution of a graph with loop limits ends.
use mathlib.Core.Path.{subst}
use swarmline.Base.{
  ℕ, zero, suc, ◌+◌, ◌-◌, ◌*◌, ◌≤◌, ◌<◌, String, Bool, true, false, not, ◌&&◌, Option, none, some,
  List, [], ◌∷◌, ◌==◌, ◌≡◌, refl, sym, ap, ◌⊎◌, inl, inr, arith, Bool-cases, Option-cases, eq_iff,
  elem, if◌then◌else◌,
}
use swarmline.Base.Dict.{Dict, get, put, has, keys, get-put, get-put_self}
use swarmline.Base.Walk.{elem-keys}
use swarmline.Workflow.{
  WorkflowGraph, ParallelGroup, NodeEnding, returns, raises, nested_interrupt, Route, to, broken,
  Outcome, out_of_fuel, Calls, Frame, Round, goes_on, ends, or_zero, running, get_next,
}
use swarmline.Workflow.Execute.{
  execute_node, execute_group, count_of, exhausted, after_node, run_node, run_group, round, rounds,
  first_frame, execute,
}

abbrev pub total : (String → ℕ) → List String → ℕ
total f [] = 0
total f (k ∷ ks) = f k + total f ks

total-le :
    {f g : String → ℕ} → ((k : String) → f k ≤ g k) → (ks : List String) → total f ks ≤ total g ks
total-le h [] = omega arith
total-le h (k ∷ ks) = omega (arith, h k, total-le h ks)

total-lt :
    {f g : String → ℕ} (k : String)
    → ((k : String) → f k ≤ g k)
    → f k < g k
    → (ks : List String) → elem k ks ≡ true
    → total f ks < total g ks
total-lt k h h' [] e = absurd cc
total-lt {f} {g} k h h' (j ∷ ks) e = elim (Bool-cases (j == k)) [
  | inl same ↦
      let here : f j < g j = subst (λ (i : String). f i < g i) (sym ((eq_iff j k).0 same)) h' in
      omega (arith, here, total-le h ks)
  | inr other ↦ omega (arith, h j, total-lt k h h' ks (rw other at e))
]

abbrev pub halted : {Any : Type 0} → Outcome Any → Bool
halted out_of_fuel = false
halted _ = true

pub Route-cases :
    (r : Route)
    → ((message : String) × (r ≡ broken message)) ⊎ ((next : Option String) × (r ≡ to next))
Route-cases (broken message) = inl (message, refl)
Route-cases (to next) = inr (next, refl)

pub NodeEnding-cases :
    {Any : Type 0} (e : NodeEnding Any)
    → ((message : String) × (e ≡ raises message))
      ⊎ (((node : String) × (inner : Dict Any) × (e ≡ nested_interrupt node inner))
          ⊎ ((state : Dict Any) × (e ≡ returns state)))
NodeEnding-cases (raises message) = inl (message, refl)
NodeEnding-cases (nested_interrupt node inner) = inr (inl (node, inner, refl))
NodeEnding-cases (returns state) = inr (inr (state, refl))

pub Round-cases :
    {Any : Type 0} (r : Round Any)
    → ((outcome : Outcome Any) × (saved : Option (String × Dict Any)) × (r ≡ ends outcome saved))
      ⊎ ((f : Frame Any) × (r ≡ goes_on f))
Round-cases (ends outcome saved) = inl (outcome, saved, refl)
Round-cases (goes_on f) = inr (f, refl)

module _ {Any Node : Type 0} (g : WorkflowGraph Any Node) where
  abbrev pub limit : String → ℕ
  limit k = or_zero (get k g.max_loops)

  -- Each node has a positive limit on the number of its executions.
  abbrev pub IsLimited : Type 0
  IsLimited = (k : String) → has k g.nodes ≡ true → 1 ≤ limit k

  -- No parallel group leads to another one.
  abbrev pub IsUnchained : Type 0
  IsUnchained =
      (k : String) (group : ParallelGroup)
      → get k g.parallel_groups ≡ some group
      → has group.then_node g.parallel_groups ≡ false

  -- Twice the number of executions that the limits allow, and two rounds more.
  abbrev pub enough : ℕ
  enough = 2 + 2 * total limit (keys g.nodes)

  abbrev left_of : Dict ℕ → String → ℕ
  left_of counts k = limit k - or_zero (get k counts)

  abbrev left : Dict ℕ → ℕ
  left counts = total (left_of counts) (keys g.nodes)

  abbrev group_at : Option String → ℕ
  group_at none = 0
  group_at (some id) = if has id g.parallel_groups then 1 else 0

  abbrev weight : Frame Any → ℕ
  weight f = 2 * left f.loop_counts + group_at (running f.current)

  group_at-le : (current : Option String) → group_at current ≤ 1
  group_at-le none = omega arith
  group_at-le (some id) = ground arith

  group_at-out : (id : String) → has id g.parallel_groups ≡ false → group_at (running (some id)) ≡ 0
  group_at-out id h = ground arith

  group_at-in :
      (current : Option String) (id : String) {group : ParallelGroup}
      → running current ≡ some id
      → get id g.parallel_groups ≡ some group
      → group_at (running current) ≡ 1
  group_at-in current id at is_group = rw (at, is_group) refl

  -- A round that goes on makes the weight less.
  abbrev Fine : Frame Any → Round Any → Type 0
  Fine f (goes_on f') = weight f' < weight f
  Fine f (ends outcome saved) = halted outcome ≡ true

  left_of-put :
      (id : String) (counts : Dict ℕ) (k : String)
      → left_of (put id (or_zero (get id counts) + 1) counts) k ≤ left_of counts k
  left_of-put id counts k = elim (Bool-cases (id == k)) [
    | inl same ↦
        let it : get id counts ≡ get k counts =
          ap (λ (j : String). get j counts) ((eq_iff id k).0 same) in
        rw (get-put id k (or_zero (get id counts) + 1) counts, same, it) (omega arith)
    | inr other ↦ rw (get-put id k (or_zero (get id counts) + 1) counts, other) (omega arith)
  ]

  left_of-put_self :
      (id : String) (counts : Dict ℕ)
      → or_zero (get id counts) + 1 < limit id
      → left_of (put id (or_zero (get id counts) + 1) counts) id < left_of counts id
  left_of-put_self id counts h =
      rw (get-put_self id (or_zero (get id counts) + 1) counts) (omega (arith, h))

  exhausted-false : (id : String) (n : ℕ) → exhausted g id n ≡ false → 1 ≤ limit id → n < limit id
  unfolding exhausted
  exhausted-false id n h h' = ground arith

  after_node-Fine :
      (id : String) (state : Dict Any) (f : Frame Any) (saved : Option (String × Dict Any))
      {node : Node}
      → IsLimited
      → get id g.nodes ≡ some node
      → Fine f (after_node g id state f saved)
  unfolding after_node
  after_node-Fine id state f saved limited is_node =
      elim (Bool-cases (exhausted g id (count_of f id + 1))) [
        | inl stop ↦ rw (after_node, stop) refl
        | inr on ↦ elim (Route-cases (get_next g id state)) [
          | inl (message, route) ↦ rw (after_node, on, route) refl
          | inr (next, route) ↦
              let allowed : count_of f id + 1 < limit id =
                exhausted-false id (count_of f id + 1) on (limited id (rw is_node refl)) in
              let less : left (put id (count_of f id + 1) f.loop_counts) < left f.loop_counts =
                total-lt id (left_of-put id f.loop_counts)
                  (left_of-put_self id f.loop_counts allowed) (keys g.nodes)
                  (elem-keys id g.nodes is_node) in
              rw (after_node, on, route) (omega (arith, less, group_at-le (running next)))
        ]
      ]

  run_node-Fine :
      (calls : Calls Any Node) (skip : List String) (checkpoint : Bool) (id : String)
      (f : Frame Any) {node : Node}
      → IsLimited
      → get id g.nodes ≡ some node
      → Fine f (run_node calls g skip checkpoint id f)
  unfolding run_node
  run_node-Fine calls skip checkpoint id f limited is_node =
      elim (Bool-cases (elem id g.interrupts && not (elem id skip))) [
        | inl stop ↦ rw (run_node, stop) refl
        | inr on ↦ elim (NodeEnding-cases (execute_node calls g id f.state)) [
          | inl (message, e) ↦ rw (run_node, on, e) refl
          | inr (inl (node, inner, e)) ↦ rw (run_node, on, e) refl
          | inr (inr (state, e)) ↦
              rw (run_node, on, e) (after_node-Fine id state f _ limited is_node)
        ]
      ]

  run_group-Fine :
      (calls : Calls Any Node) (id : String) (group : ParallelGroup) (f : Frame Any)
      → IsUnchained
      → running f.current ≡ some id
      → get id g.parallel_groups ≡ some group
      → Fine f (run_group calls g group f)
  unfolding run_group
  run_group-Fine calls id group f unchained at is_group =
      elim (NodeEnding-cases (execute_group calls g group.node_ids f.state f.state)) [
        | inl (message, e) ↦ rw (run_group, e) refl
        | inr (inl (node, inner, e)) ↦ rw (run_group, e) refl
        | inr (inr (state, e)) ↦
            rw (run_group, e)
              (omega (
                arith,
                group_at-out group.then_node (unchained id group is_group),
                group_at-in f.current id at is_group,
              ))
      ]

  round-Fine :
      (calls : Calls Any Node) (skip : List String) (checkpoint : Bool) (f : Frame Any)
      → IsLimited
      → IsUnchained
      → Fine f (round calls g skip checkpoint f)
  unfolding round
  round-Fine calls skip checkpoint f limited unchained = elim (Option-cases (running f.current)) [
    | inl done ↦ rw (round, done) refl
    | inr (id, at) ↦ elim (Option-cases (get id g.parallel_groups)) [
      | inr (group, is_group) ↦
          rw (round, at, is_group) (run_group-Fine calls id group f unchained at is_group)
      | inl no_group ↦ elim (Option-cases (get id g.nodes)) [
        | inl no_node ↦ rw (round, at, no_group, no_node) refl
        | inr (node, is_node) ↦
            rw (round, at, no_group, is_node)
              (run_node-Fine calls skip checkpoint id f limited is_node)
      ]
    ]
  ]

  rounds-halts :
      (calls : Calls Any Node) (skip : List String) (checkpoint : Bool) (fuel : ℕ) (f : Frame Any)
      → IsLimited
      → IsUnchained
      → weight f < fuel
      → halted (rounds calls g skip checkpoint fuel f).0 ≡ true
  unfolding rounds
  rounds-halts calls skip checkpoint zero f limited unchained h = absurd (omega arith)
  rounds-halts calls skip checkpoint (suc fuel) f limited unchained h =
      elim (Round-cases (round calls g skip checkpoint f)) [
        | inl (outcome, saved, e) ↦
            rw (rounds, e) (subst (Fine f) e (round-Fine calls skip checkpoint f limited unchained))
        | inr (f', e) ↦
            let less : weight f' < weight f =
              subst (Fine f) e (round-Fine calls skip checkpoint f limited unchained) in
            rw (rounds, e)
              (rounds-halts calls skip checkpoint fuel f' limited unchained (omega arith))
      ]

  left-le : (counts : Dict ℕ) → left counts ≤ total limit (keys g.nodes)
  left-le counts = total-le (λ k. omega arith) (keys g.nodes)

  -- When each node has a positive loop limit and no parallel group leads to another one, an execution
  -- comes to an end within two rounds more than twice the sum of the limits, whatever the nodes and
  -- the conditions do and from wherever it starts.
  pub execute-halts :
      (calls : Calls Any Node) (fuel : ℕ) (initial : Dict Any) (checkpoint resuming : Bool)
      (skip : List String) (start : Option String) (saved : Option (String × Dict Any))
      → IsLimited
      → IsUnchained
      → enough ≤ fuel
      → halted (execute calls g fuel initial checkpoint resuming skip start saved).0 ≡ true
  unfolding execute
  execute-halts calls fuel initial checkpoint resuming skip start saved limited unchained h =
      let f = first_frame g initial (resuming && checkpoint) start saved in
      rounds-halts calls skip checkpoint fuel f limited unchained
        (omega (arith, left-le f.loop_counts, group_at-le (running f.current)))
