-- ===== src/Examples/Graphs.antt =====
-- A tree of two agents, and a workflow that loops.
use swarmline.Base.{
  ℕ, String, ◌≡◌, refl, Bool, true, false, Option, none, some, List, [], ◌∷◌, elem, arith,
}
use swarmline.Base.Dict.{Dict, get, put, keys}
use swarmline.Base.Keyed.{IsKeyed}
use swarmline.Registry.{idle}
use swarmline.Governance.{AgentNode, AgentCapabilities, supervised}
use swarmline.AgentGraph.{add_node, done, update_node, set_parent_id, collect_subtree_ids}
use swarmline.AgentGraph.Levels.{key}
use swarmline.AgentGraph.Search.{Found, collect_subtree_ids-total}
use swarmline.AgentGraph.Removal.{IsTree}
use swarmline.AgentGraph.Changes.{Changes, empty, after, by_add, by_update, Changes-IsTree}
use swarmline.Workflow.Execute.{execute}
use swarmline.Workflow.Halts.{halted, IsLimited, IsUnchained, execute-halts}
use swarmline.Workflow.Steps.{BreaksAt, execute-failed}
use swarmline.Workflow.{WorkflowGraph, Calls, returns, raises, failed}

abbrev caps : AgentCapabilities
caps = record {
  can_hire = false;
  can_delegate = true;
  max_children = none;
  max_depth = none;
  can_delegate_authority = false;
  can_use_subagents = false;
  allowed_subagent_ids = [];
  can_use_team_mode = false;
}

abbrev agent : String → Option String → AgentNode ℕ
agent id parent = record {
  id = id;
  name = id;
  role = "dev";
  system_prompt = "";
  parent_id = parent;
  allowed_tools = [];
  skills = [];
  mcp_servers = [];
  capabilities = caps;
  runtime_config = none;
  model = "";
  runtime = "";
  api_key_env = none;
  budget_limit_usd = none;
  lifecycle = supervised;
  hooks = [];
  status = idle;
  metadata = [];
}

abbrev one : Dict (AgentNode ℕ)
one = ("lead", agent "lead" none) ∷ []

abbrev two : Dict (AgentNode ℕ)
two = ("lead", agent "lead" none) ∷ ("dev", agent "dev" (some "lead")) ∷ []

abbrev three : Dict (AgentNode ℕ)
three = ("lead", agent "lead" none) ∷ ("dev", agent "dev" none) ∷ []

added_lead : add_node (agent "lead" none) [] ≡ done one
unfolding add_node get put
added_lead = refl

added_dev : add_node (agent "dev" (some "lead")) one ≡ done two
unfolding add_node get put
added_dev = refl

released_dev :
    update_node "dev" (set_parent_id none ∷ []) two ≡ done (some (agent "dev" none), three)
unfolding update_node get put
released_dev = refl

abbrev history : Changes three
history =
    after
      (after (after empty (by_add (agent "lead" none) added_lead))
        (by_add (agent "dev" (some "lead")) added_dev))
      (by_update "dev" (set_parent_id none ∷ []) refl released_dev)

Changes-IsTree_example : IsTree three
Changes-IsTree_example = Changes-IsTree history

two-IsKeyed : IsKeyed key two
unfolding keys
two-IsKeyed = (refl, refl, (refl, refl, tt))

two_stored : elem "lead" (keys two) ≡ true
unfolding keys
two_stored = refl

collect_subtree_ids-total_example :
    (found : List String) × (collect_subtree_ids two "lead" ≡ some found)
    × (elem "lead" found ≡ true)
    × Found two found
collect_subtree_ids-total_example = collect_subtree_ids-total two "lead" two-IsKeyed two_stored

-- A node that counts, and one that raises; the counting node loops back to itself.
abbrev calls : Calls ℕ Bool
calls = record {
  run = λ node state. elim node [ true ↦ returns state | false ↦ raises "boom" ];
  interceptor = none;
}

abbrev looping : WorkflowGraph ℕ Bool
looping = record {
  nodes = ("count", true) ∷ [];
  edges = record { source = "count"; target = "count" } ∷ [];
  conditional_edges = [];
  parallel_groups = [];
  interrupts = [];
  max_loops = ("count", 3) ∷ [];
  entry = some "count";
}

counting_is_limited : IsLimited looping
unfolding get
counting_is_limited k is_node = ground arith

no_groups : IsUnchained looping
unfolding get
no_groups k group is_group = absurd cc

execute-halts_example : halted (execute calls looping 8 [] true false [] none none).0 ≡ true
unfolding get keys
execute-halts_example =
    execute-halts looping calls 8 [] true false [] none none counting_is_limited no_groups
      (omega arith)

-- The second node raises; the checkpoint then holds it with the state before it.
abbrev breaking : WorkflowGraph ℕ Bool
breaking = record looping {
  nodes = ("count", true) ∷ ("broken", false) ∷ [];
  edges = record { source = "count"; target = "broken" } ∷ [];
}

abbrev left_behind : Option (String × Dict ℕ)
left_behind = some ("broken", ("x", 1) ∷ [])

broke :
    execute calls breaking 8 (("x", 1) ∷ []) true false [] none none ≡ (failed "boom", left_behind)
unfolding execute get put
broke = refl

execute-failed_example :
    (id : String) × (state : Dict ℕ) × (left_behind ≡ some (id, state))
    × BreaksAt calls breaking [] true id state "boom"
execute-failed_example =
    execute-failed calls breaking [] true 8 (("x", 1) ∷ []) false none none refl refl broke
