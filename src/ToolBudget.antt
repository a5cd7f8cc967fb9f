-- ===== src/ToolBudget.antt =====
-- swarmline/policy/tool_budget.py: the counters of tool calls within one turn.
use swarmline.Base.{
  ℕ, ◌+◌, ◌≤◌, ◌<◌, Bool, true, false, not, ◌&&◌, ◌≡◌, arith, if◌then◌else◌, leb, Bool-cases, inl,
  inr, List, [], ◌∷◌,
}

pub record ToolBudget : Type 0 where
  pub max_total : ℕ
  pub max_mcp : ℕ
  pub timeout_ms : ℕ
  pub total : ℕ
  pub mcp : ℕ

unfoldable pub record_call : Bool → ToolBudget → ToolBudget
record_call is_mcp b = record b { total = b.total + 1; mcp = if is_mcp then b.mcp + 1 else b.mcp }

unfoldable pub can_call : Bool → ToolBudget → Bool
can_call is_mcp b = if leb b.max_total b.total then false else not (is_mcp && leb b.max_mcp b.mcp)

unfoldable pub is_exhausted : ToolBudget → Bool
is_exhausted b = leb b.max_total b.total

unfoldable pub reset : ToolBudget → ToolBudget
reset b = record b { total = 0; mcp = 0 }

-- What a caller does: a call, recorded if it is allowed, or a new turn.
pub data Use : Type 0 where
  call : Bool → Use
  new_turn : Use

unfoldable pub use_budget : Use → ToolBudget → ToolBudget
unfolding record_call can_call reset
use_budget (call is_mcp) b = if can_call is_mcp b then record_call is_mcp b else b
use_budget new_turn b = reset b

abbrev pub use_all : List Use → ToolBudget → ToolBudget
use_all [] b = b
use_all (u ∷ us) b = use_all us (use_budget u b)

-- The counters are within their limits, and no MCP call is missing from the total.
abbrev pub IsWithin : ToolBudget → Type 0
IsWithin b = (b.total ≤ b.max_total) × (b.mcp ≤ b.max_mcp) × (b.mcp ≤ b.total)

can_call-free : (is_mcp : Bool) (b : ToolBudget) → can_call is_mcp b ≡ true → b.total < b.max_total
unfolding can_call
can_call-free is_mcp b h = ground arith

can_call-mcp : (b : ToolBudget) → can_call true b ≡ true → b.mcp < b.max_mcp
unfolding can_call
can_call-mcp b h = ground arith

record_call-IsWithin :
    (is_mcp : Bool) (b : ToolBudget)
    → can_call is_mcp b ≡ true
    → IsWithin b
    → IsWithin (record_call is_mcp b)
unfolding record_call
record_call-IsWithin true b h within =
    (omega (arith, can_call-free true b h), omega (arith, can_call-mcp b h), omega (arith, within))
record_call-IsWithin false b h within =
    (omega (arith, can_call-free false b h), within.1, omega (arith, within))

use_budget-IsWithin : (u : Use) (b : ToolBudget) → IsWithin b → IsWithin (use_budget u b)
unfolding use_budget reset
use_budget-IsWithin (call is_mcp) b h = elim (Bool-cases (can_call is_mcp b)) [
  | inl allowed ↦ rw (use_budget, allowed) (record_call-IsWithin is_mcp b allowed h)
  | inr refused ↦ rw (use_budget, refused) h
]
use_budget-IsWithin new_turn b h = (omega arith, omega arith, omega arith)

-- Whatever calls are tried and whenever a turn begins, as long as only allowed calls are recorded:
-- the counters stay within their limits, and the MCP calls within the calls.
pub use_all-IsWithin : (us : List Use) (b : ToolBudget) → IsWithin b → IsWithin (use_all us b)
use_all-IsWithin [] b h = h
use_all-IsWithin (u ∷ us) b h = use_all-IsWithin us (use_budget u b) (use_budget-IsWithin u b h)
