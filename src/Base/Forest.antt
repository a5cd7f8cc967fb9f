-- ===== src/Base/Forest.antt =====
-- Parent links. A key is rooted if its chain of parents comes to an end, so a cycle has no rooted key.
use Prim.Native.String.{String}
use mathlib.Core.Path.{◌≡◌, ◌∙◌}
use mathlib.Core.Option.{Option, none, some}

pub data Rooted (parent : String → Option String) : String → Type 0 where
  top : {k : String} → parent k ≡ none → Rooted parent k
  step : {k : String} (p : String) → parent k ≡ some p → Rooted parent p → Rooted parent k

-- Every key of the store is rooted.
abbrev pub IsForest : (String → Option String) → Type 0
IsForest parent = (k : String) → Rooted parent k

-- Operations that keep all parent links keep the forest.
pub Rooted-cong :
    {up down : String → Option String} {k : String}
    → ((j : String) → down j ≡ up j)
    → Rooted up k
    → Rooted down k
Rooted-cong same (top {k = k} h) = top (same k ∙ h)
Rooted-cong same (step {k = k} p h r) = step p (same k ∙ h) (Rooted-cong same r)

-- A step up the chain of a rooted key is not a way back to it.
pub not-self_parent :
    {parent : String → Option String} {k : String} → Rooted parent k → ¬ (parent k ≡ some k)
not-self_parent (top h) e = cc
not-self_parent (step p h r) e = not-self_parent r (cc)
