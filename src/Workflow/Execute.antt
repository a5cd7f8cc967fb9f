-- ===== src/Workflow/Execute.antt =====
-- swarmline/orchestration/workflow_graph.py: the execution of a graph.
use swarmline.Base.{
  ℕ, zero, suc, ◌+◌, String, Bool, true, false, not, ◌&&◌, Option, none, some, List, [], ◌∷◌, ◌==◌,
  if◌then◌else◌, ltb, leb, elem,
}
use swarmline.Base.Dict.{Dict, get, put, has}
use swarmline.Workflow.{
  WorkflowGraph, ParallelGroup, NodeEnding, returns, raises, nested_interrupt, to, broken, Outcome,
  finished, interrupted, failed, out_of_fuel, Calls, Frame, Round, goes_on, ends, or_zero, running,
  update, get_next,
}

abbrev or_else : Option String → Option String → Option String
or_else (some k) later = some k
or_else none later = later

module _ {Any : Type 0} where
  abbrev pub count_of : Frame Any → String → ℕ
  count_of f id = or_zero (get id f.loop_counts)

  -- `checkpoint and run_id`
  abbrev pub saving : Bool → String → Frame Any → Option (String × Dict Any)
  saving true id f = some (id, f.state)
  saving false id f = f.saved

module _ {Any Node : Type 0} where
  abbrev missing_or : Calls Any Node → Option Node → String → Dict Any → NodeEnding Any
  missing_or calls none id state = raises id
  missing_or calls (some node) id state = calls.run node state

  -- `_execute_node`; a key that is no node is a `KeyError`.
  unfoldable pub execute_node :
      Calls Any Node → WorkflowGraph Any Node → String → Dict Any → NodeEnding Any
  execute_node calls g id state = elim calls.interceptor [
    | some intercept ↦ intercept id state
    | none ↦ missing_or calls (get id g.nodes) id state
  ]

  -- The `gather` on copies of the state, then the updates in the order of the group.
  unfoldable pub execute_group :
      Calls Any Node → WorkflowGraph Any Node → List String → Dict Any → Dict Any → NodeEnding Any
  unfolding execute_node
  execute_group calls g [] before state = returns state
  execute_group calls g (id ∷ ids) before state = elim (execute_node calls g id before) [
    | returns r ↦ execute_group calls g ids before (update state r)
    | raises message ↦ raises message
    | nested_interrupt node inner ↦ nested_interrupt node inner
  ]

  -- `max_loops and loop_counts[current] >= max_loops`
  unfoldable pub exhausted : WorkflowGraph Any Node → String → ℕ → Bool
  exhausted g id count =
      ltb 0 (or_zero (get id g.max_loops)) && leb (or_zero (get id g.max_loops)) count

  -- What follows the execution of a node.
  unfoldable pub after_node :
      WorkflowGraph Any Node
      → String
      → Dict Any
      → Frame Any
      → Option (String × Dict Any)
      → Round Any
  unfolding exhausted get_next
  after_node g id state f saved =
      let count = count_of f id + 1 in
      elim (exhausted g id count) [
        | true ↦ ends (finished state) saved
        | false ↦ elim (get_next g id state) [
          | broken message ↦ ends (failed message) saved
          | to next ↦ goes_on (record {
            current = next;
            state = state;
            loop_counts = put id count f.loop_counts;
            saved = saved;
          })
        ]
      ]

  unfoldable pub run_node :
      Calls Any Node → WorkflowGraph Any Node → List String → Bool → String → Frame Any → Round Any
  unfolding execute_node after_node
  run_node calls g skip checkpoint id f = elim (elem id g.interrupts && not (elem id skip)) [
    | true ↦ ends (interrupted id f.state) f.saved
    | false ↦ elim (execute_node calls g id f.state) [
      | raises message ↦ ends (failed message) (saving checkpoint id f)
      | nested_interrupt node inner ↦ ends (interrupted node inner) (saving checkpoint id f)
      | returns state ↦ after_node g id state f (saving checkpoint id f)
    ]
  ]

  unfoldable pub run_group :
      Calls Any Node → WorkflowGraph Any Node → ParallelGroup → Frame Any → Round Any
  unfolding execute_group
  run_group calls g group f = elim (execute_group calls g group.node_ids f.state f.state) [
    | raises message ↦ ends (failed message) f.saved
    | nested_interrupt node inner ↦ ends (interrupted node inner) f.saved
    | returns state ↦ goes_on (record f { current = some group.then_node; state = state })
  ]

  -- The body of the `while` loop.
  unfoldable pub round :
      Calls Any Node → WorkflowGraph Any Node → List String → Bool → Frame Any → Round Any
  unfolding run_node run_group
  round calls g skip checkpoint f = elim (running f.current) [
    | none ↦ ends (finished f.state) f.saved
    | some id ↦ elim (get id g.parallel_groups) [
      | some group ↦ run_group calls g group f
      | none ↦ elim (has id g.nodes) [
        | false ↦ ends (finished f.state) f.saved
        | true ↦ run_node calls g skip checkpoint id f
      ]
    ]
  ]

  -- The `while` loop, on fuel.
  unfoldable pub rounds :
      Calls Any Node
      → WorkflowGraph Any Node
      → List String
      → Bool
      → ℕ
      → Frame Any
      → Outcome Any × Option (String × Dict Any)
  unfolding round
  rounds calls g skip checkpoint zero f = (out_of_fuel, f.saved)
  rounds calls g skip checkpoint (suc fuel) f = elim (round calls g skip checkpoint f) [
    | ends outcome saved ↦ (outcome, saved)
    | goes_on f' ↦ rounds calls g skip checkpoint fuel f'
  ]

  -- The first frame: from a saved checkpoint if the run resumes, whose state the initial one updates.
  unfoldable pub first_frame :
      WorkflowGraph Any Node
      → Dict Any
      → Bool
      → Option String
      → Option (String × Dict Any)
      → Frame Any
  first_frame g initial resuming start none = record {
    current = or_else start g.entry;
    state = initial;
    loop_counts = [];
    saved = none;
  }
  first_frame g initial resuming start (some (last, state)) =
      if resuming
      then record {
        current = some last;
        state = update state initial;
        loop_counts = [];
        saved = some (last, state);
      }
      else record {
        current = or_else start g.entry;
        state = initial;
        loop_counts = [];
        saved = some (last, state);
      }

  unfoldable pub execute :
      Calls Any Node
      → WorkflowGraph Any Node
      → ℕ
      → Dict Any
      → Bool
      → Bool
      → List String
      → Option String
      → Option (String × Dict Any)
      → Outcome Any × Option (String × Dict Any)
  unfolding rounds first_frame
  execute calls g fuel initial checkpoint resuming skip start saved =
      rounds calls g skip checkpoint fuel
        (first_frame g initial (resuming && checkpoint) start saved)

  -- `resume`, with the node and the state of the interrupt; no checkpoint is used.
  unfoldable pub resume :
      Calls Any Node → WorkflowGraph Any Node → ℕ → String → Dict Any → Dict Any → Outcome Any
  unfolding execute get_next
  resume calls g fuel node_id interrupt_state human_input =
      let state = update interrupt_state human_input in
      elim (get_next g node_id state) [
        | broken message ↦ failed message
        | to none ↦ finished state
        | to (some next) ↦ elim (next == "__end__") [
          | true ↦ finished state
          | false ↦ (execute calls g fuel state false false (node_id ∷ []) (some next) none).0
        ]
      ]
