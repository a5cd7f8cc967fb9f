-- ===== src/Examples/Access.antt =====
-- The tool policy, the tool selector and the agent registry.
use swarmline.Base.{
  ℕ, String, ◌≡◌, refl, inl, false, Option, none, some, [], ◌∷◌, ◌==◌, if◌then◌else◌,
}
use swarmline.Base.Dict.{Dict}
use swarmline.Policy.{ToolPolicyInput, new_policy, can_use_tool}
use swarmline.Policy.Access.{is_allow, denied_tools}
use swarmline.Policy.Selector.{ToolSelector, always, mcp, default_config}
use swarmline.Registry.{AgentRecord, AgentFilter, idle}

abbrev server_of : String → Option String
server_of tool = if tool == "mcp__web__get" then some "web" else none

abbrev state : ToolPolicyInput ℕ
state = record {
  tool_name = "Bash";
  input_data = [];
  active_skill_ids = "web" ∷ [];
  allowed_local_tools = "Bash" ∷ [];
}

denied_tools_example :
    is_allow (can_use_tool (new_policy [] server_of []) "Bash" [] state).0 ≡ false
denied_tools_example = denied_tools [] server_of [] "Bash" [] state (inl (refl, refl))

abbrev selector : ToolSelector ℕ
selector = record {
  config = default_config 4;
  groups = (always, 1 ∷ 2 ∷ 3 ∷ []) ∷ (mcp, 4 ∷ 5 ∷ []) ∷ [];
}

abbrev agent : String → AgentRecord ℕ
agent id = record {
  id = id;
  name = id;
  role = "dev";
  parent_id = none;
  runtime_name = "thin";
  runtime_config = [];
  status = idle;
  budget_limit_usd = none;
  metadata = [];
}

abbrev agents : Dict (AgentRecord ℕ)
agents = ("a", agent "a") ∷ ("b", agent "b") ∷ []

abbrev devs : AgentFilter
devs = record { role = some "dev"; status = none; parent_id = none }
