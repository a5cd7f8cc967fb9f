-- ===== src/Policy.antt =====
-- swarmline/policy/tool_policy.py: `DefaultToolPolicy`. The codec is any function that extracts a
-- server from a tool name, as the constructor takes any `ToolIdCodec`. The log is a list of entries.
pub mod Access
pub mod Selector
pub mod Budgeted
use package.text.Mathlib.Text.{starts_with}
use swarmline.Base.{
  String, Bool, true, false, not, ◌&&◌, Option, none, some, List, [], ◌∷◌, ◌++◌, ◌==◌,
  if◌then◌else◌, select, elem,
}
use swarmline.Base.Dict.{Dict}

abbrev pub always_denied_tools : List String
always_denied_tools =
    "Bash" ∷ "Read" ∷ "Write" ∷ "Edit" ∷ "MultiEdit" ∷ "Glob" ∷ "Grep" ∷ "LS" ∷ "TodoRead"
    ∷ "TodoWrite" ∷ "WebFetch" ∷ "WebSearch" ∷ "bash" ∷ "read" ∷ "write" ∷ "edit" ∷ "multi_edit"
    ∷ "glob" ∷ "grep" ∷ "ls" ∷ "todo_read" ∷ "todo_write" ∷ "web_fetch" ∷ "web_search" ∷ []

-- `Any` is the type of input values.
pub record ToolPolicyInput (Any : Type 0) : Type 0 where
  pub tool_name : String
  pub input_data : Dict Any
  pub active_skill_ids : List String
  pub allowed_local_tools : List String

-- Why a call is denied stands for the message.
pub data Permission (Any : Type 0) : Type 0 where
  allow : Dict Any → Permission Any
  deny_forbidden : String → Permission Any
  deny_inactive : Option String → Permission Any
  deny_unlisted : String → Permission Any

pub record LogEntry : Type 0 where
  pub tool_name : String
  pub allowed : Bool
  pub reason : String
  pub server_id : String

pub record ToolPolicy : Type 0 where
  pub allowed_system_tools : List String
  pub denied : List String
  pub extract_server : String → Option String

-- `base_denied = ALWAYS_DENIED_TOOLS - allowed`, and `base_denied | extra_denied`.
unfoldable pub new_policy : List String → (String → Option String) → List String → ToolPolicy
new_policy extra_denied extract allowed_system = record {
  allowed_system_tools = allowed_system;
  denied = select (λ tool. not (elem tool allowed_system)) always_denied_tools ++ extra_denied;
  extract_server = extract;
}

abbrev log_policy : String → Bool → String → String → LogEntry
log_policy tool allowed reason server = record {
  tool_name = tool;
  allowed = allowed;
  reason = reason;
  server_id = server;
}

abbrev server_or_empty : Option String → String
server_or_empty none = ""
server_or_empty (some server) = server

abbrev is_active : Option String → List String → Bool
is_active none active = false
is_active (some server) active = not (server == "") && elem server active

module _ {Any : Type 0} where
  unfoldable pub can_use_tool :
      ToolPolicy → String → Dict Any → ToolPolicyInput Any → Permission Any × LogEntry
  can_use_tool p tool input state =
      if elem tool p.denied
      then (deny_forbidden tool, log_policy tool false "always_denied" "")
      else if elem tool state.allowed_local_tools
      then (allow input, log_policy tool true "local_tool" "")
      else if elem tool p.allowed_system_tools
      then (allow input, log_policy tool true "allowed_system_tool" "")
      else if starts_with tool "mcp__"
      then (if is_active (p.extract_server tool) state.active_skill_ids
          then (
            allow input,
            log_policy tool true "mcp_active_skill" (server_or_empty (p.extract_server tool)),
          )
          else (
            deny_inactive (p.extract_server tool),
            log_policy tool false "mcp_inactive_skill" (server_or_empty (p.extract_server tool)),
          ))
      else (deny_unlisted tool, log_policy tool false "not_in_allowlist" "")
