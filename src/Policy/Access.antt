-- ===== src/Policy/Access.antt =====
-- Which tools a policy lets through.
use package.text.Mathlib.Text.{starts_with}
use swarmline.Base.{
  String, ◌≡◌, refl, ap, ◌∙◌, Bool, true, false, not, ◌&&◌, ◌||◌, Option, List, [], ◌∷◌, ◌++◌,
  arith, eq_iff, select, elem, Bool-cases, inl, inr, ◌⊎◌,
}
use swarmline.Base.Dict.{Dict}
use swarmline.Policy.{
  always_denied_tools, ToolPolicyInput, Permission, allow, ToolPolicy, new_policy, can_use_tool,
  is_active,
}

module _ {Any : Type 0} where
  abbrev pub is_allow : Permission Any → Bool
  is_allow (allow input) = true
  is_allow _ = false

  -- The decision as one formula, and the log entry that goes with it.
  pub can_use_tool_lem :
      (p : ToolPolicy) (tool : String) (input : Dict Any) (state : ToolPolicyInput Any)
      → (is_allow (can_use_tool p tool input state).0 ≡ (
          not (elem tool p.denied)
          && (elem tool state.allowed_local_tools
              || (elem tool p.allowed_system_tools
                  || (starts_with tool "mcp__"
                      && is_active (p.extract_server tool) state.active_skill_ids)))))
        × ((can_use_tool p tool input state).1.allowed
            ≡ is_allow (can_use_tool p tool input state).0)
  unfolding can_use_tool
  can_use_tool_lem p tool input state = (ground arith, ground arith)

elem-append : (k : String) (xs ys : List String) → elem k (xs ++ ys) ≡ (elem k xs || elem k ys)
elem-append k [] ys = refl
elem-append k (x ∷ xs) ys = ground (arith, elem-append k xs ys)

elem-select :
    (k : String) (ex xs : List String)
    → elem k (select (λ tool. not (elem tool ex)) xs) ≡ (elem k xs && not (elem k ex))
elem-select k ex [] = refl
elem-select k ex (x ∷ xs) = elim (Bool-cases (elem x ex)) [
  | inl out ↦ rw out (
      ground
        (arith, elem-select k ex xs, eq_iff x k, λ (e : x ≡ k). ap (λ (j : String). elem j ex) e))
  | inr kept ↦ rw kept (
      ground
        (arith, elem-select k ex xs, eq_iff x k, λ (e : x ≡ k). ap (λ (j : String). elem j ex) e))
]

denied_by :
    (tool : String) (system extra xs : List String)
    → ((elem tool xs ≡ true) × (elem tool system ≡ false)) ⊎ (elem tool extra ≡ true)
    → elem tool (select (λ t. not (elem t system)) xs ++ extra) ≡ true
denied_by tool system extra xs h =
    elem-append tool (select (λ t. not (elem t system)) xs) extra
    ∙ ground (arith, elem-select tool system xs)

denied_is_final :
    {Any : Type 0} (p : ToolPolicy) (tool : String) (input : Dict Any) (state : ToolPolicyInput Any)
    → elem tool p.denied ≡ true
    → is_allow (can_use_tool p tool input state).0 ≡ false
unfolding can_use_tool
denied_is_final p tool input state h = ground arith

-- A tool on the list of tools that are always denied is denied, whatever the state, unless the policy
-- was built with that tool among the allowed system tools; and a tool that is denied in addition is
-- denied in any case.
pub denied_tools :
    {Any : Type 0} (extra : List String) (extract : String → Option String) (system : List String)
    (tool : String) (input : Dict Any) (state : ToolPolicyInput Any)
    → ((elem tool always_denied_tools ≡ true) × (elem tool system ≡ false))
      ⊎ (elem tool extra ≡ true)
    → is_allow (can_use_tool (new_policy extra extract system) tool input state).0 ≡ false
unfolding new_policy
denied_tools extra extract system tool input state h =
    denied_is_final (new_policy extra extract system) tool input state
      (denied_by tool system extra always_denied_tools h)
