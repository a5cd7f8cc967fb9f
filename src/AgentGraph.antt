-- ===== src/AgentGraph.antt =====
-- swarmline/multi_agent/graph_store.py: the tree of agents, with the nodes of graph_types.py. `Any` is
-- the type of metadata and of configuration values. The lock makes each method one step.
pub mod Levels
pub mod Search
pub mod Removal
pub mod Trees
pub mod Updates
pub mod Changes
pub mod Query
use swarmline.Base.{
  ℕ, zero, suc, String, Bool, true, false, not, ◌&&◌, ◌||◌, Option, none, some, List, [], ◌∷◌, ◌++◌,
  ◌==◌, if◌then◌else◌, length, elem, is_some, select,
}
use swarmline.Base.Dict.{Dict, get, put, remove, values, has}
use swarmline.Governance.{AgentNode, AgentCapabilities, LifecycleMode}
use swarmline.Registry.{AgentStatus}

-- One keyword argument of `update_node`.
pub data NodeUpdate (Any : Type 0) : Type 0 where
  set_id set_name set_role set_system_prompt set_model set_runtime : String → NodeUpdate Any
  set_parent_id set_api_key_env : Option String → NodeUpdate Any
  set_allowed_tools set_skills set_mcp_servers set_hooks : List String → NodeUpdate Any
  set_capabilities : AgentCapabilities → NodeUpdate Any
  set_runtime_config : Option (Dict Any) → NodeUpdate Any
  set_budget_limit_usd : Option ℕ → NodeUpdate Any
  set_lifecycle : LifecycleMode → NodeUpdate Any
  set_status : AgentStatus → NodeUpdate Any
  set_metadata : Dict Any → NodeUpdate Any

-- `ValueError`, a `KeyError` of `del`, and a search with no fuel left.
pub data GraphError : Type 0 where
  already_exists no_parent cycle : String → GraphError
  key_error : String → GraphError
  no_fuel : GraphError

pub data Attempt (A : Type 0) : Type 0 where
  done : A → Attempt A
  error : GraphError → Attempt A

pub record GraphEdge : Type 0 where
  pub source_id : String
  pub target_id : String

pub record GraphSnapshot (Any : Type 0) : Type 0 where
  pub nodes : List (AgentNode Any)
  pub edges : List GraphEdge
  pub root_id : Option String

-- `child.parent_id == nid`
abbrev pub is_at : Option String → String → Bool
is_at none nid = false
is_at (some p) nid = p == nid

-- `parent_id is not None and parent_id not in nodes`
abbrev pub is_dangling : {V : Type 0} → Option String → Dict V → Bool
is_dangling none nodes = false
is_dangling (some p) nodes = not (has p nodes)

abbrev pub is_moved : Option String → Option String → Bool
is_moved none none = false
is_moved none (some p) = true
is_moved (some p) none = true
is_moved (some p) (some q) = not (p == q)

module _ {Any : Type 0} where
  unfoldable pub add_node : AgentNode Any → Dict (AgentNode Any) → Attempt (Dict (AgentNode Any))
  add_node node nodes =
      if has node.id nodes
      then error (already_exists node.id)
      else if is_dangling node.parent_id nodes
      then error (no_parent node.id)
      else done (put node.id node nodes)

  unfoldable pub get_node : String → Dict (AgentNode Any) → Option (AgentNode Any)
  get_node id nodes = get id nodes

  unfoldable pub get_children : String → Dict (AgentNode Any) → List (AgentNode Any)
  get_children id nodes = select (λ n. is_at n.parent_id id) (values nodes)

  -- The children of a node that are not in the result, in the order of the dictionary.
  unfoldable pub new_children : Dict (AgentNode Any) → String → List String → List String
  new_children [] nid result = []
  new_children ((k, n) ∷ nodes) nid result =
      let rest = new_children nodes nid result in
      if is_at n.parent_id nid && not (elem n.id result) then n.id ∷ rest else rest

  -- `_collect_subtree_ids`, on fuel.
  unfoldable pub collect :
      ℕ → Dict (AgentNode Any) → List String → List String → Option (List String)
  unfolding new_children
  collect fuel nodes [] result = some result
  collect zero nodes (nid ∷ queue) result = none
  collect (suc fuel) nodes (nid ∷ queue) result =
      let visited = result ++ nid ∷ [] in
      collect fuel nodes (queue ++ new_children nodes nid visited) visited

  unfoldable pub collect_subtree_ids : Dict (AgentNode Any) → String → Option (List String)
  unfolding collect
  collect_subtree_ids nodes id = collect (length nodes) nodes (id ∷ []) []

  unfoldable pub delete_each : List String → Dict (AgentNode Any) → Attempt (Dict (AgentNode Any))
  delete_each [] nodes = done nodes
  delete_each (id ∷ ids) nodes =
      let rest = delete_each ids (remove id nodes) in
      if has id nodes then rest else error (key_error id)

  abbrev pub deleted :
      Option (List String) → Dict (AgentNode Any) → Attempt (Bool × Dict (AgentNode Any))
  deleted none nodes = error no_fuel
  deleted (some ids) nodes = elim (delete_each ids nodes) [
    | error e ↦ error e
    | done rest ↦ done (true, rest)
  ]

  unfoldable pub remove_node : String → Dict (AgentNode Any) → Attempt (Bool × Dict (AgentNode Any))
  unfolding collect_subtree_ids delete_each
  remove_node id nodes =
      if not (has id nodes)
      then done (false, nodes)
      else deleted (collect_subtree_ids nodes id) nodes

  unfoldable pub apply : NodeUpdate Any → AgentNode Any → AgentNode Any
  apply (set_id x) n = record n { id = x }
  apply (set_name x) n = record n { name = x }
  apply (set_role x) n = record n { role = x }
  apply (set_system_prompt x) n = record n { system_prompt = x }
  apply (set_model x) n = record n { model = x }
  apply (set_runtime x) n = record n { runtime = x }
  apply (set_parent_id x) n = record n { parent_id = x }
  apply (set_api_key_env x) n = record n { api_key_env = x }
  apply (set_allowed_tools x) n = record n { allowed_tools = x }
  apply (set_skills x) n = record n { skills = x }
  apply (set_mcp_servers x) n = record n { mcp_servers = x }
  apply (set_hooks x) n = record n { hooks = x }
  apply (set_capabilities x) n = record n { capabilities = x }
  apply (set_runtime_config x) n = record n { runtime_config = x }
  apply (set_budget_limit_usd x) n = record n { budget_limit_usd = x }
  apply (set_lifecycle x) n = record n { lifecycle = x }
  apply (set_status x) n = record n { status = x }
  apply (set_metadata x) n = record n { metadata = x }

  -- `replace(node, **updates)`
  unfoldable pub apply_all : List (NodeUpdate Any) → AgentNode Any → AgentNode Any
  unfolding apply
  apply_all [] n = n
  apply_all (u ∷ us) n = apply_all us (apply u n)

  abbrev checked_move :
      String → Option String → Dict (AgentNode Any) → Option (List String) → Option GraphError
  checked_move id none nodes ids = none
  checked_move id (some p) nodes none = some no_fuel
  checked_move id (some p) nodes (some ids) = if elem p ids then some (cycle p) else none

  -- The checks on a new parent.
  unfoldable pub check_parent :
      String → Option String → Option String → Dict (AgentNode Any) → Option GraphError
  unfolding collect_subtree_ids
  check_parent id old new nodes =
      if not (is_moved new old)
      then none
      else if is_dangling new nodes
      then some (no_parent id)
      else checked_move id new nodes (collect_subtree_ids nodes id)

  -- The new parent is the one of the updated node, which is the old one if no update names it.
  unfoldable pub update_node :
      String
      → List (NodeUpdate Any)
      → Dict (AgentNode Any)
      → Attempt (Option (AgentNode Any) × Dict (AgentNode Any))
  unfolding apply_all check_parent
  update_node id updates nodes = elim (get id nodes) [
    | none ↦ done (none, nodes)
    | some node ↦
        let updated = apply_all updates node in
        elim (check_parent id node.parent_id updated.parent_id nodes) [
          | some e ↦ error e
          | none ↦ done (some updated, put id updated nodes)
        ]
  ]
