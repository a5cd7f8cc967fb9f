-- ===== src/Workflow/Steps.antt =====
-- swarmline/orchestration/workflow_graph.py: what an interrupt and a failure of an execution say.
use mathlib.Core.Path.{subst}
use swarmline.Base.{
  ℕ, zero, suc, ◌+◌, String, Bool, true, false, not, ◌&&◌, Option, none, some, List, [], ◌≡◌, ap,
  ◌⊎◌, inl, inr, arith, Bool-cases, Option-cases, elem,
}
use swarmline.Base.Dict.{Dict, get, has}
use swarmline.Workflow.{
  WorkflowGraph, ParallelGroup, returns, raises, nested_interrupt, broken, Outcome, finished,
  interrupted, failed, out_of_fuel, Calls, Frame, Round, goes_on, ends, running, get_next,
}
use swarmline.Workflow.Execute.{
  execute_node, count_of, exhausted, after_node, saving, run_node, round, rounds, first_frame,
  execute,
}
use swarmline.Workflow.Halts.{Route-cases, NodeEnding-cases, Round-cases}

module _ {Any Node : Type 0} (calls : Calls Any Node) (g : WorkflowGraph Any Node)
    (skip : List String) (checkpoint : Bool) where
  -- The node raises the message on the state, or the condition on the edge out of it does.
  abbrev pub BreaksAt : String → Dict Any → String → Type 0
  BreaksAt id state message =
      (execute_node calls g id state ≡ raises message)
      ⊎ ((after : Dict Any) × (execute_node calls g id state ≡ returns after)
          × (get_next g id after ≡ broken message))

  -- The node is an interrupt that is not skipped, or it is one of a nested graph.
  abbrev pub StopsAt : String → Dict Any → Type 0
  StopsAt id state =
      ((elem id g.interrupts ≡ true) × (elem id skip ≡ false))
      ⊎ ((outer : String) × (before : Dict Any) × (execute_node calls g outer before
            ≡ nested_interrupt id state))

  -- Why an execution ends as it does, with what the checkpoint then holds.
  abbrev pub Explained : Outcome Any → Option (String × Dict Any) → Type 0
  Explained (finished state) saved = Unit
  Explained out_of_fuel saved = Unit
  Explained (interrupted id state) saved = StopsAt id state
  Explained (failed message) saved =
      checkpoint ≡ true
      → (id : String) × (state : Dict Any) × (saved ≡ some (id, state)) × BreaksAt id state message

  abbrev RoundExplained : Round Any → Type 0
  RoundExplained (goes_on f) = Unit
  RoundExplained (ends outcome saved) = Explained outcome saved

  saving-id :
      (id : String) (f : Frame Any)
      → checkpoint ≡ true
      → saving checkpoint id f ≡ some (id, f.state)
  saving-id id f on = ap (λ (b : Bool). saving b id f) on

  not_skipped : (a b : Bool) → (a && not b) ≡ true → (a ≡ true) × (b ≡ false)
  not_skipped a b h = (ground arith, ground arith)

  after_node-Explained :
      (id : String) (state : Dict Any) (f : Frame Any)
      → execute_node calls g id f.state ≡ returns state
      → RoundExplained (after_node g id state f (saving checkpoint id f))
  unfolding after_node
  after_node-Explained id state f ran = elim (Bool-cases (exhausted g id (count_of f id + 1))) [
    | inl stop ↦ rw (after_node, stop) tt
    | inr on ↦ elim (Route-cases (get_next g id state)) [
      | inl (message, route) ↦
          rw (after_node, on, route)
            (λ saves. (id, f.state, saving-id id f saves, inr (state, ran, route)))
      | inr (next, route) ↦ rw (after_node, on, route) tt
    ]
  ]

  run_node-Explained :
      (id : String) (f : Frame Any) → RoundExplained (run_node calls g skip checkpoint id f)
  unfolding run_node
  run_node-Explained id f = elim (Bool-cases (elem id g.interrupts && not (elem id skip))) [
    | inl stop ↦ rw (run_node, stop) (inl (not_skipped (elem id g.interrupts) (elem id skip) stop))
    | inr on ↦ elim (NodeEnding-cases (execute_node calls g id f.state)) [
      | inl (message, e) ↦
          rw (run_node, on, e) (λ saves. (id, f.state, saving-id id f saves, inl e))
      | inr (inl (node, inner, e)) ↦ rw (run_node, on, e) (inr (id, f.state, e))
      | inr (inr (state, e)) ↦ rw (run_node, on, e) (after_node-Explained id state f e)
    ]
  ]

  round-Explained :
      (f : Frame Any) → g.parallel_groups ≡ [] → RoundExplained (round calls g skip checkpoint f)
  unfolding round get
  round-Explained f no_groups = elim (Option-cases (running f.current)) [
    | inl done ↦ rw (round, done) tt
    | inr (id, at) ↦
        let no_group : get id g.parallel_groups ≡ none =
          ap (λ (d : Dict ParallelGroup). get id d) no_groups in
        elim (Bool-cases (has id g.nodes)) [
          | inl is_node ↦ rw (round, at, no_group, is_node) (run_node-Explained id f)
          | inr no_node ↦ rw (round, at, no_group, no_node) tt
        ]
  ]

  rounds-Explained :
      (fuel : ℕ) (f : Frame Any)
      → g.parallel_groups ≡ []
      → Explained
          (rounds calls g skip checkpoint fuel f).0
          (rounds calls g skip checkpoint fuel f).1
  unfolding rounds
  rounds-Explained zero f no_groups = tt
  rounds-Explained (suc fuel) f no_groups = elim (Round-cases (round calls g skip checkpoint f)) [
    | inl (outcome, saved, e) ↦
        rw (rounds, e) (subst RoundExplained e (round-Explained f no_groups))
    | inr (f', e) ↦ rw (rounds, e) (rounds-Explained fuel f' no_groups)
  ]

  execute-Explained :
      (fuel : ℕ) (initial : Dict Any) (resuming : Bool) (start : Option String)
      (saved : Option (String × Dict Any))
      → g.parallel_groups ≡ []
      → Explained
          (execute calls g fuel initial checkpoint resuming skip start saved).0
          (execute calls g fuel initial checkpoint resuming skip start saved).1
  unfolding execute
  execute-Explained fuel initial resuming start saved no_groups =
      rounds-Explained fuel (first_frame g initial (resuming && checkpoint) start saved) no_groups

  -- In a graph with no parallel groups, an execution that is interrupted has come to an interrupt
  -- node that it does not skip, or a node has passed on the interrupt of a nested graph.
  pub execute-interrupted :
      (fuel : ℕ) (initial : Dict Any) (resuming : Bool) (start : Option String)
      (saved : Option (String × Dict Any)) {id : String} {state : Dict Any}
      {saved' : Option (String × Dict Any)}
      → g.parallel_groups ≡ []
      → execute calls g fuel initial checkpoint resuming skip start saved
        ≡ (interrupted id state, saved')
      → StopsAt id state
  execute-interrupted fuel initial resuming start saved no_groups e =
      subst (λ (r : Outcome Any × Option (String × Dict Any)). Explained r.0 r.1) e
        (execute-Explained fuel initial resuming start saved no_groups)

  -- In a graph with no parallel groups, an execution that fails while it saves checkpoints leaves a
  -- node and a state in the checkpoint, such that the node, or the condition on the edge out of it,
  -- raises the message on this state.
  pub execute-failed :
      (fuel : ℕ) (initial : Dict Any) (resuming : Bool) (start : Option String)
      (saved : Option (String × Dict Any)) {message : String} {saved' : Option (String × Dict Any)}
      → g.parallel_groups ≡ []
      → checkpoint ≡ true
      → execute calls g fuel initial checkpoint resuming skip start saved ≡ (failed message, saved')
      → (id : String) × (state : Dict Any) × (saved' ≡ some (id, state)) × BreaksAt id state message
  execute-failed fuel initial resuming start saved no_groups on e =
      subst (λ (r : Outcome Any × Option (String × Dict Any)). Explained r.0 r.1) e
        (execute-Explained fuel initial resuming start saved no_groups) on
