-- ===== src/Examples/Compacted.antt =====
-- A conversation that is cut down to its last message.
use swarmline.Base.{String, ◌≡◌, refl, true, false, none, [], ◌∷◌}
use swarmline.Compaction.{
  Message, CompactionConfig, Texts, filter, estimate_total, estimate_tokens, sum_tokens,
}
use swarmline.Compaction.Fitting.{Fitted, filter-Fitted}

abbrev texts : Texts
texts = record {
  text_length = λ text. 40;
  collapsed = λ name content. name;
  summary = λ text. text;
  llm_call = none;
}

abbrev config : CompactionConfig
config = record {
  enabled = true;
  threshold_tokens = 30;
  preserve_recent_pairs = 1;
  tier_1_enabled = true;
  tier_2_enabled = false;
  tier_3_enabled = true;
}

abbrev said : String → Message
said text = record { role = "user"; content = text; tool_call = none; non_compactable = false }

filter_run :
    filter texts config "be brief" (said "one" ∷ said "two" ∷ said "three" ∷ []) ≡ said "three" ∷ []
unfolding filter estimate_total estimate_tokens sum_tokens
filter_run = refl

filter-Fitted_example :
    Fitted texts config "be brief"
      (filter texts config "be brief" (said "one" ∷ said "two" ∷ said "three" ∷ []))
filter-Fitted_example =
    filter-Fitted texts config "be brief" (said "one" ∷ said "two" ∷ said "three" ∷ []) refl refl
