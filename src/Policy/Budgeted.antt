-- ===== src/Policy/Budgeted.antt =====
-- The budget of the selector.
use swarmline.Base.{
  length-take, take, ℕ, ◌+◌, ◌-◌, ◌≤◌, ◌≡◌, ap, ◌∙◌, Bool, ◌||◌, List, [], ◌∷◌, length,
  length-append, eqb, min, arith, Bool-cases, inl, inr,
}
use swarmline.Policy.Selector.{ToolSelector, ToolGroup, room, find_group, select_from, select_tools}

module _ {Tool : Type 0} (s : ToolSelector Tool) where
  abbrev skips : ℕ → ToolGroup → Bool
  skips remaining g = eqb remaining 0 || eqb (length (find_group g s.groups [])) 0

  length-chosen :
      (remaining : ℕ) (g : ToolGroup)
      → length (take (room s remaining g) (find_group g s.groups [])) ≡ room s remaining g
  length-chosen remaining g =
      length-take (room s remaining g) (find_group g s.groups []) (omega arith)

  select_from-le :
      (remaining : ℕ) (gs : List ToolGroup) → length (select_from s remaining gs) ≤ remaining
  unfolding select_from
  select_from-le remaining [] = omega arith
  select_from-le remaining (g ∷ gs) = elim (Bool-cases (skips remaining g)) [
    | inl skipped ↦ rw (skipped, select_from) (select_from-le remaining gs)
    | inr chosen ↦
        let rest = select_from s (remaining - room s remaining g) gs in
        rw (chosen, select_from)
          (rw (length-append (take (room s remaining g) (find_group g s.groups [])) rest) (
            omega (
              arith,
              length-chosen remaining g,
              select_from-le (remaining - room s remaining g) gs,
            )))
  ]

  -- Never more tools than `max_tools` are selected, whatever the limits of the groups are.
  pub select_tools-le : length (select_tools s) ≤ s.config.max_tools
  unfolding select_tools
  select_tools-le = select_from-le s.config.max_tools s.config.group_priority

  -- The number of tools of some groups.
  abbrev pub available : List ToolGroup → ℕ
  available [] = 0
  available (g ∷ gs) = length (find_group g s.groups []) + available gs

  unlimited :
      (remaining : ℕ) (g : ToolGroup)
      → s.config.group_limits ≡ []
      → room s remaining g ≡ min (length (find_group g s.groups [])) remaining
  unlimited remaining g free =
      ap
        (λ (limits : List (ToolGroup × ℕ)).
          min (min (length (find_group g s.groups [])) remaining) (find_group g limits remaining))
        free
      ∙ omega arith

  select_from-fills :
      (remaining : ℕ) (gs : List ToolGroup)
      → s.config.group_limits ≡ []
      → length (select_from s remaining gs) ≡ min remaining (available gs)
  unfolding select_from
  select_from-fills remaining [] free = omega arith
  select_from-fills remaining (g ∷ gs) free = elim (Bool-cases (skips remaining g)) [
    | inl skipped ↦ rw (skipped, select_from) (ground (arith, select_from-fills remaining gs free))
    | inr chosen ↦
        let rest = select_from s (remaining - room s remaining g) gs in
        rw (chosen, select_from)
          (rw (length-append (take (room s remaining g) (find_group g s.groups [])) rest) (
            omega (
              arith,
              length-chosen remaining g,
              unlimited remaining g free,
              select_from-fills (remaining - room s remaining g) gs free,
            )))
  ]

  -- Without limits for groups the budget is filled as far as there are tools: the number selected is
  -- the smaller of `max_tools` and the number of tools of the groups in the priority list.
  pub select_tools-fills :
      s.config.group_limits ≡ []
      → length (select_tools s) ≡ min s.config.max_tools (available s.config.group_priority)
  unfolding select_tools
  select_tools-fills free = select_from-fills s.config.max_tools s.config.group_priority free
