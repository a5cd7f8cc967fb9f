-- ===== src/Governance.antt =====
-- swarmline/multi_agent/graph_governance.py, with the nodes and capabilities of graph_types.py. The
-- queries of the graph, which are asynchronous and only read it, are a parameter. `Any` is the type
-- of metadata and of configuration values. `none` is the answer that allows.
pub mod Chains
use swarmline.Base.{
  ℕ, String, Bool, true, false, not, ◌&&◌, Option, none, some, List, [], ◌∷◌, ◌==◌, if◌then◌else◌,
  leb, length, select, all, elem,
}
use swarmline.Base.Dict.{Dict}
use swarmline.Registry.{AgentStatus}

pub data LifecycleMode : Type 0 where
  ephemeral supervised persistent : LifecycleMode

pub record AgentCapabilities : Type 0 where
  pub can_hire : Bool
  pub can_delegate : Bool
  pub max_children : Option ℕ
  pub max_depth : Option ℕ
  pub can_delegate_authority : Bool
  pub can_use_subagents : Bool
  pub allowed_subagent_ids : List String
  pub can_use_team_mode : Bool

pub record AgentNode (Any : Type 0) : Type 0 where
  pub id : String
  pub name : String
  pub role : String
  pub system_prompt : String
  pub parent_id : Option String
  pub allowed_tools : List String
  pub skills : List String
  pub mcp_servers : List String
  pub capabilities : AgentCapabilities
  pub runtime_config : Option (Dict Any)
  pub model : String
  pub runtime : String
  pub api_key_env : Option String
  pub budget_limit_usd : Option ℕ
  pub lifecycle : LifecycleMode
  pub hooks : List String
  pub status : AgentStatus
  pub metadata : Dict Any

pub record GovernanceConfig : Type 0 where
  pub max_agents : ℕ
  pub max_depth : ℕ
  pub default_capabilities : AgentCapabilities
  pub allow_dynamic_hiring : Bool
  pub allow_dynamic_delegation : Bool

-- `AgentGraphQuery`
pub record GraphQuery (Any : Type 0) : Type 0 where
  pub get_children : String → List (AgentNode Any)
  pub get_chain_of_command : String → List (AgentNode Any)
  pub get_root : Option (AgentNode Any)
  pub get_subtree : String → List (AgentNode Any)

-- Why an action is denied, with the values that the message shows.
pub data Denial : Type 0 where
  hiring_disabled delegation_disabled : Denial
  cannot_hire cannot_delegate : String → Denial
  children_limit : String → ℕ → Denial
  graph_depth : ℕ → Denial
  agent_depth : String → ℕ → Denial
  agents_limit : ℕ → Denial
  grants_hire authority_missing : Denial
  extra_tools extra_skills extra_hooks : List String → Denial

-- `limit is not None and count >= limit`
abbrev pub at_limit : Option ℕ → ℕ → Bool
at_limit none count = false
at_limit (some limit) count = leb limit count

abbrev or_zero : Option ℕ → ℕ
or_zero none = 0
or_zero (some n) = n

-- `set(child).issubset(set(parent))`
abbrev pub subset : List String → List String → Bool
subset child parent = all (λ x. elem x parent) child

abbrev pub is_empty : List String → Bool
is_empty [] = true
is_empty (x ∷ xs) = false

abbrev extra : List String → List String → List String
extra child parent = select (λ x. not (elem x parent)) child

unfoldable pub check_authority_delegation : AgentCapabilities → AgentCapabilities → Option Denial
check_authority_delegation parent child =
    if child.can_hire && not parent.can_hire
    then some grants_hire
    else if child.can_hire && not parent.can_delegate_authority
    then some authority_missing
    else none

module _ {Any : Type 0} where
  -- `root is not None and len(subtree) >= max_agents`
  abbrev is_full : GovernanceConfig → GraphQuery Any → Option (AgentNode Any) → Bool
  is_full c q none = false
  is_full c q (some root) = leb c.max_agents (length (q.get_subtree root.id))

  unfoldable pub check_hire_allowed :
      GovernanceConfig → AgentNode Any → GraphQuery Any → Option Denial
  check_hire_allowed c parent q =
      let caps = parent.capabilities in
      let depth = length (q.get_chain_of_command parent.id) in
      if not c.allow_dynamic_hiring
      then some hiring_disabled
      else if not caps.can_hire
      then some (cannot_hire parent.name)
      else if at_limit caps.max_children (length (q.get_children parent.id))
      then some (children_limit parent.name (or_zero caps.max_children))
      else if leb c.max_depth depth
      then some (graph_depth c.max_depth)
      else if at_limit caps.max_depth depth
      then some (agent_depth parent.name (or_zero caps.max_depth))
      else if is_full c q q.get_root
      then some (agents_limit c.max_agents)
      else none

  unfoldable pub check_delegate_allowed : GovernanceConfig → AgentNode Any → Option Denial
  check_delegate_allowed c agent =
      if not c.allow_dynamic_delegation
      then some delegation_disabled
      else if not agent.capabilities.can_delegate
      then some (cannot_delegate agent.name)
      else none

  unfoldable pub validate_capability_delegation :
      AgentNode Any → List String → List String → List String → Option Denial
  validate_capability_delegation parent tools skills hooks =
      if not (is_empty parent.allowed_tools) && not (subset tools parent.allowed_tools)
      then some (extra_tools (extra tools parent.allowed_tools))
      else if not (is_empty parent.skills) && not (subset skills parent.skills)
      then some (extra_skills (extra skills parent.skills))
      else if not (is_empty parent.hooks) && not (subset hooks parent.hooks)
      then some (extra_hooks (extra hooks parent.hooks))
      else none
