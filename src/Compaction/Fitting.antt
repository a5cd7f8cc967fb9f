-- ===== src/Compaction/Fitting.antt =====
-- swarmline/compaction.py: what comes out fits the budget, or nothing of it could be dropped.
use swarmline.Base.{
  ℕ, ◌+◌, ◌-◌, ◌≤◌, String, true, not, Option, none, some, List, [], ◌∷◌, ◌≡◌, ap, ◌⊎◌, inl, inr,
  arith, Bool-cases, if-keeps, if-elim, leb, leb→le, if◌then◌else◌,
}
use swarmline.Compaction.{
  Message, CompactionConfig, Texts, estimate_tokens, sum_tokens, estimate_total, only_kept,
  drop_oldest, emergency_truncate, fits, third_tier, summarized, summarized_by, second_tier,
  first_tier, filter, collapse_tool_results, summarize_oldest,
}

-- All messages but the last are non-compactable.
abbrev pub Undroppable : List Message → Type 0
Undroppable [] = Unit
Undroppable (m ∷ []) = Unit
Undroppable (m ∷ n ∷ ms) = (m.non_compactable ≡ true) × Undroppable (n ∷ ms)

module _ (t : Texts) where
  abbrev pub Fitted : CompactionConfig → String → List Message → Type 0
  Fitted c system_prompt ms =
      (estimate_total t ms system_prompt ≤ c.threshold_tokens) ⊎ Undroppable ms

  cons-Undroppable :
      (m : Message) (ms : List Message)
      → m.non_compactable ≡ true
      → Undroppable ms
      → Undroppable (m ∷ ms)
  cons-Undroppable m [] h u = tt
  cons-Undroppable m (n ∷ ms) h u = (h, u)

  only_kept-Undroppable : (ms : List Message) → Undroppable (only_kept t ms)
  unfolding only_kept
  only_kept-Undroppable [] = tt
  only_kept-Undroppable (m ∷ []) = tt
  only_kept-Undroppable (m ∷ n ∷ ms) =
      if-elim Undroppable m.non_compactable
        (λ kept. cons-Undroppable m (only_kept t (n ∷ ms)) kept (only_kept-Undroppable (n ∷ ms)))
        (λ dropped. only_kept-Undroppable (n ∷ ms))

  -- With `extra` tokens in the messages that were kept before.
  drop_oldest-fits :
      (budget total extra : ℕ) (ms : List Message)
      → total ≡ extra + sum_tokens t ms
      → (extra + sum_tokens t (drop_oldest t budget total ms) ≤ budget)
        ⊎ Undroppable (drop_oldest t budget total ms)
  unfolding drop_oldest sum_tokens
  drop_oldest-fits budget total extra [] e = inr tt
  drop_oldest-fits budget total extra (m ∷ []) e = inr tt
  drop_oldest-fits budget total extra (m ∷ n ∷ ms) e = elim (Bool-cases (leb total budget)) [
    | inl fine ↦ rw (drop_oldest, fine) (inl (omega (arith, e, leb→le total budget fine)))
    | inr over ↦
        rw (drop_oldest, over)
          (if-elim
            (λ (kept : List Message). (extra + sum_tokens t kept ≤ budget) ⊎ Undroppable kept)
            m.non_compactable
            (λ kept.
              elim (drop_oldest-fits budget total (extra + estimate_tokens t m.content) (n ∷ ms)
                (omega (arith, e))) [
                  | inl small ↦ inl (omega (arith, small))
                  | inr all_kept ↦
                      inr (cons-Undroppable m (drop_oldest t budget total (n ∷ ms)) kept all_kept)
                ])
            (λ dropped.
              drop_oldest-fits budget (total - estimate_tokens t m.content) extra (n ∷ ms)
                (omega (arith, e))))
  ]

  emergency_truncate-Fitted :
      (c : CompactionConfig) (system_prompt : String) (ms : List Message)
      → Fitted c system_prompt (emergency_truncate t c system_prompt ms)
  unfolding emergency_truncate estimate_total
  emergency_truncate-Fitted c system_prompt ms =
      elim (Bool-cases (leb c.threshold_tokens (estimate_tokens t system_prompt))) [
        | inl spent ↦ rw (emergency_truncate, spent) (inr (only_kept-Undroppable ms))
        | inr left ↦
            rw (emergency_truncate, left)
              (elim (drop_oldest-fits (c.threshold_tokens - estimate_tokens t system_prompt)
                (sum_tokens t ms) 0 ms (omega arith)) [
                  | inl small ↦ inl (ground (arith, small, left))
                  | inr all_kept ↦ inr all_kept
                ])
      ]

  third_tier-Fitted :
      (c : CompactionConfig) (system_prompt : String) (ms : List Message)
      → c.tier_3_enabled ≡ true
      → Fitted c system_prompt (third_tier t c system_prompt ms)
  unfolding third_tier
  third_tier-Fitted c system_prompt ms on =
      rw (third_tier, on) (emergency_truncate-Fitted c system_prompt ms)

  if-Fitted :
      (c : CompactionConfig) (system_prompt : String) (ms rest : List Message)
      → Fitted c system_prompt rest
      → Fitted c system_prompt (if fits t c system_prompt ms then ms else rest)
  if-Fitted c system_prompt ms rest h = elim (Bool-cases (fits t c system_prompt ms)) [
    | inl small ↦
        rw small (inl (leb→le (estimate_total t ms system_prompt) c.threshold_tokens small))
    | inr large ↦ rw large h
  ]

  summarized-Fitted :
      (c : CompactionConfig) (system_prompt : String) (ms : List Message)
      (after : Option (List Message))
      → c.tier_3_enabled ≡ true
      → Fitted c system_prompt (summarized t c system_prompt ms after)
  summarized-Fitted c system_prompt ms none on = third_tier-Fitted c system_prompt ms on
  summarized-Fitted c system_prompt ms (some after) on =
      if-Fitted c system_prompt after (third_tier t c system_prompt after)
        (third_tier-Fitted c system_prompt after on)

  summarized_by-Fitted :
      (llm_call : Option (List Message → Option String)) (c : CompactionConfig)
      (system_prompt : String) (ms : List Message)
      → c.tier_3_enabled ≡ true
      → Fitted c system_prompt (summarized_by t llm_call c system_prompt ms)
  unfolding summarized_by
  summarized_by-Fitted none c system_prompt ms on = third_tier-Fitted c system_prompt ms on
  summarized_by-Fitted (some llm) c system_prompt ms on =
      if-keeps (Fitted c system_prompt) c.tier_2_enabled
        (summarized-Fitted c system_prompt ms (summarize_oldest t llm c ms) on)
        (third_tier-Fitted c system_prompt ms on)

  second_tier-Fitted :
      (c : CompactionConfig) (system_prompt : String) (ms : List Message)
      → c.tier_3_enabled ≡ true
      → Fitted c system_prompt (second_tier t c system_prompt ms)
  unfolding second_tier
  second_tier-Fitted c system_prompt ms on = summarized_by-Fitted t.llm_call c system_prompt ms on

  first_tier-Fitted :
      (c : CompactionConfig) (system_prompt : String) (ms : List Message)
      → c.tier_3_enabled ≡ true
      → Fitted c system_prompt (first_tier t c system_prompt ms)
  unfolding first_tier
  first_tier-Fitted c system_prompt ms on =
      if-keeps (Fitted c system_prompt) c.tier_1_enabled
        (if-Fitted c system_prompt (collapse_tool_results t c ms)
          (second_tier t c system_prompt (collapse_tool_results t c ms))
          (second_tier-Fitted c system_prompt (collapse_tool_results t c ms) on))
        (second_tier-Fitted c system_prompt ms on)

  -- When the filter and its third tier are enabled, whatever the other settings, the call of the
  -- language model and the messages are, what comes out is within the token budget or consists of
  -- non-compactable messages and the last one.
  pub filter-Fitted :
      (c : CompactionConfig) (system_prompt : String) (ms : List Message)
      → c.enabled ≡ true
      → c.tier_3_enabled ≡ true
      → Fitted c system_prompt (filter t c system_prompt ms)
  unfolding filter
  filter-Fitted c system_prompt ms enabled on =
      if-elim (Fitted c system_prompt) (not c.enabled) (λ off. absurd (cc (ap not enabled, off)))
        (λ running.
          if-Fitted c system_prompt ms (first_tier t c system_prompt ms)
            (first_tier-Fitted c system_prompt ms on))
