-- ===== src/Workflow.antt =====
-- swarmline/orchestration/workflow_graph.py: a graph of nodes over a state, which is a dictionary.
-- `Node` is the type of nodes; how a node runs, and what an interceptor does in its place, are
-- parameters, and so are the conditions of edges. A nested graph is a node that runs by `execute`;
-- its interrupt is an exception of the node. `gather` is taken to report the first exception in the
-- order of the group. The checkpoint of one run identifier is a value: other runs do not touch it.
pub mod Execute
pub mod Halts
pub mod Steps
use swarmline.Base.{
  ℕ, zero, suc, ◌+◌, String, Bool, true, false, not, ◌&&◌, ◌||◌, Option, none, some, List, [], ◌∷◌,
  ◌++◌, ◌==◌, if◌then◌else◌, ltb, leb, elem, is_some,
}
use swarmline.Base.Dict.{Dict, get, put, has}

-- How a node ends: its state, its exception, or the interrupt of a nested graph.
pub data NodeEnding (Any : Type 0) : Type 0 where
  returns : Dict Any → NodeEnding Any
  raises : String → NodeEnding Any
  nested_interrupt : String → Dict Any → NodeEnding Any

-- How the condition of an edge ends.
pub data Route : Type 0 where
  to : Option String → Route
  broken : String → Route

pub record Edge : Type 0 where
  pub source : String
  pub target : String

pub record ParallelGroup : Type 0 where
  pub node_ids : List String
  pub then_node : String
  pub entry_id : String

pub record WorkflowGraph (Any Node : Type 0) : Type 0 where
  pub nodes : Dict Node
  pub edges : List Edge
  pub conditional_edges : Dict (Dict Any → Route)
  pub parallel_groups : Dict ParallelGroup
  pub interrupts : List String
  pub max_loops : Dict ℕ
  pub entry : Option String

-- How `execute` ends.
pub data Outcome (Any : Type 0) : Type 0 where
  finished : Dict Any → Outcome Any
  interrupted : String → Dict Any → Outcome Any
  failed : String → Outcome Any
  out_of_fuel : Outcome Any

-- The calls of nodes, and the interceptor if there is one.
pub record Calls (Any Node : Type 0) : Type 0 where
  pub run : Node → Dict Any → NodeEnding Any
  pub interceptor : Option (String → Dict Any → NodeEnding Any)

-- The variables of the loop, and what the checkpoint holds for the run.
pub record Frame (Any : Type 0) : Type 0 where
  pub current : Option String
  pub state : Dict Any
  pub loop_counts : Dict ℕ
  pub saved : Option (String × Dict Any)

-- A round of the loop: the next one, or the end.
pub data Round (Any : Type 0) : Type 0 where
  goes_on : Frame Any → Round Any
  ends : Outcome Any → Option (String × Dict Any) → Round Any

abbrev pub or_zero : Option ℕ → ℕ
or_zero none = 0
or_zero (some n) = n

-- `while current and current != END_NODE`
abbrev pub running : Option String → Option String
running none = none
running (some k) = if (k == "") || (k == "__end__") then none else some k

-- `state.update(r)`
abbrev pub update : {Any : Type 0} → Dict Any → Dict Any → Dict Any
update state [] = state
update state ((k, v) ∷ r) = update (put k v state) r

abbrev first_target : String → List Edge → Option String
first_target id [] = none
first_target id (e ∷ es) = if e.source == id then some e.target else first_target id es

module _ {Any Node : Type 0} where
  unfoldable pub add_node : String → Node → WorkflowGraph Any Node → WorkflowGraph Any Node
  add_node id node g = record g { nodes = put id node g.nodes }

  unfoldable pub add_edge : String → String → WorkflowGraph Any Node → WorkflowGraph Any Node
  add_edge source target g = record g {
    edges = g.edges ++ record { source = source; target = target } ∷ [];
  }

  unfoldable pub add_conditional_edge :
      String → (Dict Any → Route) → WorkflowGraph Any Node → WorkflowGraph Any Node
  add_conditional_edge source condition g = record g {
    conditional_edges = put source condition g.conditional_edges;
  }

  -- The text of the entry's identifier is an argument.
  unfoldable pub add_parallel :
      String → List String → String → WorkflowGraph Any Node → WorkflowGraph Any Node
  add_parallel entry_id ids next g = record g {
    parallel_groups =
        put entry_id (record { node_ids = ids; then_node = next; entry_id = entry_id })
          g.parallel_groups;
  }

  unfoldable pub set_entry : String → WorkflowGraph Any Node → WorkflowGraph Any Node
  set_entry id g = record g { entry = some id }

  unfoldable pub set_max_loops : String → ℕ → WorkflowGraph Any Node → WorkflowGraph Any Node
  set_max_loops id n g = record g { max_loops = put id n g.max_loops }

  unfoldable pub add_interrupt : String → WorkflowGraph Any Node → WorkflowGraph Any Node
  add_interrupt id g = record g {
    interrupts = if elem id g.interrupts then g.interrupts else id ∷ g.interrupts;
  }

  -- `_get_next`
  unfoldable pub get_next : WorkflowGraph Any Node → String → Dict Any → Route
  get_next g id state = elim (get id g.conditional_edges) [
    | some condition ↦ condition state
    | none ↦ to (first_target id g.edges)
  ]
