-- ===== src/Examples/Hiring.antt =====
-- A lead that hires an engineer, who hires a tester, and the checks on the way.
use swarmline.Base.{ℕ, String, ◌≡◌, refl, true, false, none, some, List, [], ◌∷◌, elem}
use swarmline.Registry.{idle}
use swarmline.Governance.{
  AgentNode, AgentCapabilities, GovernanceConfig, GraphQuery, supervised, check_hire_allowed,
  check_authority_delegation, validate_capability_delegation, graph_depth,
}
use swarmline.Governance.Chains.{Hires, itself, through, tools_chain}

abbrev caps : AgentCapabilities
caps = record {
  can_hire = true;
  can_delegate = true;
  max_children = some 2;
  max_depth = none;
  can_delegate_authority = true;
  can_use_subagents = false;
  allowed_subagent_ids = [];
  can_use_team_mode = false;
}

abbrev node : String → List String → AgentNode ℕ
node id tools = record {
  id = id;
  name = id;
  role = "dev";
  system_prompt = "";
  parent_id = none;
  allowed_tools = tools;
  skills = [];
  mcp_servers = [];
  capabilities = caps;
  runtime_config = none;
  model = "";
  runtime = "";
  api_key_env = none;
  budget_limit_usd = none;
  lifecycle = supervised;
  hooks = [];
  status = idle;
  metadata = [];
}

abbrev lead : AgentNode ℕ
lead = node "lead" ("read" ∷ "write" ∷ [])

abbrev engineer : AgentNode ℕ
engineer = node "engineer" ("write" ∷ "read" ∷ [])

abbrev tester : AgentNode ℕ
tester = node "tester" ("read" ∷ [])

team : Hires lead tester
unfolding check_authority_delegation validate_capability_delegation
team = through {next = engineer} refl refl refl (through refl refl refl itself)

tools_chain_example : elem "read" ("read" ∷ "write" ∷ []) ≡ true
tools_chain_example = tools_chain lead tester "read" team refl

abbrev open_node : AgentNode ℕ
open_node = node "open" []

abbrev config : GovernanceConfig
config = record {
  max_agents = 50;
  max_depth = 2;
  default_capabilities = caps;
  allow_dynamic_hiring = true;
  allow_dynamic_delegation = true;
}

abbrev query : GraphQuery ℕ
query = record {
  get_children = λ id. [];
  get_chain_of_command = λ id. engineer ∷ lead ∷ [];
  get_root = some lead;
  get_subtree = λ id. lead ∷ engineer ∷ [];
}

too_deep : check_hire_allowed config engineer query ≡ some (graph_depth 2)
unfolding check_hire_allowed
too_deep = refl
