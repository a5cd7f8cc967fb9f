-- ===== src/Compaction.antt =====
-- swarmline/compaction.py, with the estimate of context/budget.py: the three tiers that make a
-- conversation fit a token budget. `len`, the texts that are formatted and the call of the language
-- model are parameters. Of a message's metadata the filter reads two keys, which are
-- fields here; the fields that it only passes on are left out.
pub mod Fitting
use swarmline.Base.{
  ℕ, zero, suc, ◌+◌, ◌-◌, ◌*◌, ◌/◌, String, Bool, true, false, not, ◌&&◌, ◌||◌, Option, none, some,
  List, [], ◌∷◌, ◌++◌, ◌==◌, if◌then◌else◌, leb, length, select, take, is_some,
}

pub record Message : Type 0 where
  pub role : String
  pub content : String
  pub tool_call : Option String
  pub non_compactable : Bool

pub record CompactionConfig : Type 0 where
  pub enabled : Bool
  pub threshold_tokens : ℕ
  pub preserve_recent_pairs : ℕ
  pub tier_1_enabled : Bool
  pub tier_2_enabled : Bool
  pub tier_3_enabled : Bool

-- `llm_call` is what it makes of the messages to summarize; `none` is an exception.
pub record Texts : Type 0 where
  pub text_length : String → ℕ
  pub collapsed : String → String → String
  pub summary : String → String
  pub llm_call : Option (List Message → Option String)

abbrev pub drop : ℕ → List Message → List Message
drop zero ms = ms
drop (suc n) [] = []
drop (suc n) (m ∷ ms) = drop n ms

module _ (t : Texts) where
  unfoldable pub estimate_tokens : String → ℕ
  estimate_tokens text = t.text_length text / 4 + 1

  -- The sum of the messages alone.
  unfoldable pub sum_tokens : List Message → ℕ
  sum_tokens [] = 0
  sum_tokens (m ∷ ms) = estimate_tokens m.content + sum_tokens ms

  unfoldable pub estimate_total : List Message → String → ℕ
  estimate_total ms system_prompt = estimate_tokens system_prompt + sum_tokens ms

  abbrev pub is_pair : Message → Message → Bool
  is_pair a b = (a.role == "assistant" && is_some a.tool_call) && b.role == "tool"

  abbrev collapsed_pair : Message → Message → Message
  collapsed_pair a b = record {
    role = "system";
    content = t.collapsed (elim a.tool_call [ none ↦ "unknown" | some name ↦ name ]) b.content;
    tool_call = none;
    non_compactable = false;
  }

  -- How many pairs `_find_tool_pairs` finds, from left to right.
  unfoldable pub count_pairs : List Message → ℕ
  count_pairs [] = 0
  count_pairs (a ∷ []) = 0
  count_pairs (a ∷ b ∷ ms) =
      let with_pair = suc (count_pairs ms) in
      let without = count_pairs (b ∷ ms) in if is_pair a b then with_pair else without

  -- The loop that collapses the first `n` of these pairs.
  unfoldable pub collapse_first : ℕ → List Message → List Message
  collapse_first n [] = []
  collapse_first n (a ∷ []) = a ∷ []
  collapse_first zero (a ∷ b ∷ ms) = a ∷ b ∷ ms
  collapse_first (suc n) (a ∷ b ∷ ms) =
      let with_pair = collapsed_pair a b ∷ collapse_first n ms in
      let without = a ∷ collapse_first (suc n) (b ∷ ms) in
      if is_pair a b then with_pair else without

  -- `_collapse_tool_results`
  unfoldable pub collapse_tool_results : CompactionConfig → List Message → List Message
  unfolding count_pairs collapse_first
  collapse_tool_results c ms = collapse_first (count_pairs ms - c.preserve_recent_pairs) ms

  abbrev summary_message : String → Message
  summary_message text = record {
    role = "system";
    content = t.summary text;
    tool_call = none;
    non_compactable = false;
  }

  abbrev with_summary :
      List Message → List Message → List Message → Option String → Option (List Message)
  with_summary ms kept preserved none = none
  with_summary ms kept preserved (some text) = some (summary_message text ∷ kept ++ preserved)

  -- `_summarize_oldest`; `none` is the exception of the call.
  unfoldable pub summarize_oldest :
      (List Message → Option String) → CompactionConfig → List Message → Option (List Message)
  summarize_oldest llm c ms =
      let preserve_count = c.preserve_recent_pairs * 2 + 1 in
      let region = take (length ms - preserve_count) ms in
      let preserved = drop (length ms - preserve_count) ms in
      let compactable = select (λ (m : Message). not m.non_compactable) region in
      if leb (length ms) preserve_count then some ms else elim compactable [
        | [] ↦ some ms
        | o ∷ os ↦
            with_summary ms (select (λ (m : Message). m.non_compactable) region) preserved
              (llm (o ∷ os))
      ]

  -- The non-compactable messages before the last one, and the last one.
  unfoldable pub only_kept : List Message → List Message
  only_kept [] = []
  only_kept (m ∷ []) = m ∷ []
  only_kept (m ∷ n ∷ ms) =
      let rest = only_kept (n ∷ ms) in if m.non_compactable then m ∷ rest else rest

  -- The loop over all messages but the last.
  unfoldable pub drop_oldest : ℕ → ℕ → List Message → List Message
  drop_oldest budget total [] = []
  drop_oldest budget total (m ∷ []) = m ∷ []
  drop_oldest budget total (m ∷ n ∷ ms) =
      let kept = m ∷ drop_oldest budget total (n ∷ ms) in
      let dropped = drop_oldest budget (total - estimate_tokens m.content) (n ∷ ms) in
      if leb total budget then m ∷ n ∷ ms else if m.non_compactable then kept else dropped

  -- `_emergency_truncate`
  unfoldable pub emergency_truncate : CompactionConfig → String → List Message → List Message
  unfolding only_kept drop_oldest
  emergency_truncate c system_prompt ms =
      if leb c.threshold_tokens (estimate_tokens system_prompt)
      then only_kept ms
      else drop_oldest (c.threshold_tokens - estimate_tokens system_prompt) (sum_tokens ms) ms

  abbrev fits : CompactionConfig → String → List Message → Bool
  fits c system_prompt ms = leb (estimate_total ms system_prompt) c.threshold_tokens

  unfoldable pub third_tier : CompactionConfig → String → List Message → List Message
  unfolding emergency_truncate
  third_tier c system_prompt ms =
      if c.tier_3_enabled then emergency_truncate c system_prompt ms else ms

  abbrev summarized :
      CompactionConfig → String → List Message → Option (List Message) → List Message
  summarized c system_prompt before none = third_tier c system_prompt before
  summarized c system_prompt before (some after) =
      if fits c system_prompt after then after else third_tier c system_prompt after

  unfoldable pub summarized_by :
      Option (List Message → Option String)
      → CompactionConfig
      → String
      → List Message
      → List Message
  unfolding summarize_oldest third_tier
  summarized_by none c system_prompt ms = third_tier c system_prompt ms
  summarized_by (some llm) c system_prompt ms =
      if c.tier_2_enabled
      then summarized c system_prompt ms (summarize_oldest llm c ms)
      else third_tier c system_prompt ms

  unfoldable pub second_tier : CompactionConfig → String → List Message → List Message
  unfolding summarized_by
  second_tier c system_prompt ms = summarized_by t.llm_call c system_prompt ms

  unfoldable pub first_tier : CompactionConfig → String → List Message → List Message
  unfolding collapse_tool_results second_tier
  first_tier c system_prompt ms =
      let collapsed_messages = collapse_tool_results c ms in
      if c.tier_1_enabled
      then (if fits c system_prompt collapsed_messages
          then collapsed_messages
          else second_tier c system_prompt collapsed_messages)
      else second_tier c system_prompt ms

  -- `filter`, whose system prompt is returned as it is.
  unfoldable pub filter : CompactionConfig → String → List Message → List Message
  unfolding first_tier
  filter c system_prompt ms =
      if not c.enabled
      then ms
      else if fits c system_prompt ms
      then ms
      else first_tier c system_prompt ms
