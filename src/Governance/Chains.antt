-- ===== src/Governance/Chains.antt =====
-- What the checks guarantee along a chain of hires.
use swarmline.Base.{String, ◌≡◌, ap, true, false, none, List, [], ◌∷◌, arith, elem, eq_iff}
use swarmline.Governance.{
  AgentNode, subset, is_empty, check_authority_delegation, validate_capability_delegation,
}

-- `last` was hired from `first` through nodes of which each could hire the next: the authority check
-- and the check of tools, skills and hooks allowed it, and no node on the way has an empty tool list.
pub data Hires {Any : Type 0} : AgentNode Any → AgentNode Any → Type 0 where
  itself : {node : AgentNode Any} → Hires node node
  through :
      {first next last : AgentNode Any}
      → check_authority_delegation first.capabilities next.capabilities ≡ none
      → validate_capability_delegation first next.allowed_tools next.skills next.hooks ≡ none
      → is_empty first.allowed_tools ≡ false
      → Hires next last
      → Hires first last

subset-elem :
    (k : String) (xs ys : List String) → subset xs ys ≡ true → elem k xs ≡ true → elem k ys ≡ true
subset-elem k [] ys h m = absurd (cc)
subset-elem k (x ∷ xs) ys h m =
    ground (
      arith,
      subset-elem k xs ys,
      eq_iff x k,
      λ (same : x ≡ k). ap (λ (j : String). elem j ys) same,
    )

module _ {Any : Type 0} where
  -- Tools are not gained along a chain of hires in which no node on the way has an empty tool list:
  -- every tool of the last node is a tool of the first.
  pub tools_chain :
      (first last : AgentNode Any) (tool : String)
      → Hires first last
      → elem tool last.allowed_tools ≡ true
      → elem tool first.allowed_tools ≡ true
  unfolding validate_capability_delegation
  tools_chain first last tool itself h = h
  tools_chain first last tool (through {next} authority valid some_tools more) h =
      subset-elem tool next.allowed_tools first.allowed_tools (ground (arith, valid, some_tools))
        (tools_chain next last tool more h)

  -- Along such a chain the right to hire is not gained either: if the last node may hire, so may
  -- the first.
  pub hire_chain :
      (first last : AgentNode Any)
      → Hires first last
      → last.capabilities.can_hire ≡ true
      → first.capabilities.can_hire ≡ true
  unfolding check_authority_delegation
  hire_chain first last itself h = h
  hire_chain first last (through {next} authority valid some_tools more) h =
      ground (arith, authority, hire_chain next last more h)

  -- A node with an empty tool list may be hired by every node, as far as tools are concerned, and may
  -- itself pass on any tools: the check lets a chain of two hires go past every list of tools.
  pub empty_list_lifts :
      (first middle : AgentNode Any) (tools : List String)
      → middle.allowed_tools ≡ []
      → (validate_capability_delegation first middle.allowed_tools [] [] ≡ none)
        × (validate_capability_delegation middle tools [] [] ≡ none)
  unfolding validate_capability_delegation
  empty_list_lifts first middle tools none_listed =
      (rw none_listed (ground arith), ground (arith, none_listed))
