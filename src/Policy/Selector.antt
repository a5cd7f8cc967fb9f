-- ===== src/Policy/Selector.antt =====
-- swarmline/policy/tool_selector.py: `ToolSelector`. `Tool` is the type of tool specifications, which
-- the selector only passes on.
use swarmline.Base.{take, ℕ, ◌-◌, ◌||◌, List, [], ◌∷◌, ◌++◌, if◌then◌else◌, length, eqb, min}

pub data ToolGroup : Type 0 where
  always mcp memory planning sandbox web : ToolGroup

-- `IntEnum`: groups are compared by their number.
abbrev pub group_number : ToolGroup → ℕ
group_number always = 0
group_number mcp = 1
group_number memory = 2
group_number planning = 3
group_number sandbox = 4
group_number web = 5

pub record ToolBudgetConfig : Type 0 where
  pub max_tools : ℕ
  pub group_priority : List ToolGroup
  pub group_limits : List (ToolGroup × ℕ)

abbrev pub default_config : ℕ → ToolBudgetConfig
default_config max_tools = record {
  max_tools = max_tools;
  group_priority = always ∷ mcp ∷ memory ∷ planning ∷ sandbox ∷ web ∷ [];
  group_limits = [];
}

abbrev pub find_group {ℓ} : {A : Type ℓ} → ToolGroup → List (ToolGroup × A) → A → A
find_group g [] default = default
find_group g ((h, a) ∷ rest) default =
    if eqb (group_number h) (group_number g) then a else find_group g rest default

pub record ToolSelector (Tool : Type 0) : Type 0 where
  pub config : ToolBudgetConfig
  pub groups : List (ToolGroup × List Tool)

module _ {Tool : Type 0} where
  -- `self._groups[group] = tools`
  abbrev set_group :
      ToolGroup → List Tool → List (ToolGroup × List Tool) → List (ToolGroup × List Tool)
  set_group g tools [] = (g, tools) ∷ []
  set_group g tools ((h, old) ∷ rest) =
      let later = set_group g tools rest in
      if eqb (group_number h) (group_number g) then (g, tools) ∷ rest else (h, old) ∷ later

  unfoldable pub add_group : ToolGroup → List Tool → ToolSelector Tool → ToolSelector Tool
  add_group g tools s = record s { groups = set_group g tools s.groups }

  -- `min(len(tools), remaining, group_limit)`
  abbrev pub room : ToolSelector Tool → ℕ → ToolGroup → ℕ
  room s remaining g =
      min (min (length (find_group g s.groups [])) remaining)
        (find_group g s.config.group_limits remaining)

  -- The loop of `select`. A turn with no room left or no tools takes nothing.
  unfoldable pub select_from : ToolSelector Tool → ℕ → List ToolGroup → List Tool
  select_from s remaining [] = []
  select_from s remaining (g ∷ gs) =
      let skipped = eqb remaining 0 || eqb (length (find_group g s.groups [])) 0 in
      let rest = select_from s (if skipped then remaining else remaining - room s remaining g) gs in
      if skipped then rest else take (room s remaining g) (find_group g s.groups []) ++ rest

  unfoldable pub select_tools : ToolSelector Tool → List Tool
  select_tools s = select_from s s.config.max_tools s.config.group_priority
