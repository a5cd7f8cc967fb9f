-- ===== src/Dataflow/Stages/FanOut.antt =====
-- swarmline/pipeline/stages/fanout_stage.py: one handler over a list that is computed at run time.
-- How the call for each item ends, and the context after all of them, are arguments, as the calls
-- run concurrently; where several fail, which one is raised is the first in the order of the items.
use swarmline.Base.{
  ℕ, String, Bool, true, false, Option, none, some, List, [], ◌∷◌, ◌++◌, ◌==◌, if◌then◌else◌, ltb,
  elem, take,
}
use swarmline.Dataflow.{Event, Ending, outcome, raised}
use swarmline.Dataflow.Stages.{
  Answer, answers, raises, ConfigError, empty_name, few_items, few_attempts,
}

pub data OnItemError : Type 0 where
  skip_item fail_stage : OnItemError

-- With a key the outputs are flattened into elements and deduplicated; otherwise they are kept. The
-- elements of an output are what its iteration yields, up to its end or to an exception, which for
-- an output that cannot be iterated is the first; a key may raise, also as it cannot be hashed. Keys are
-- texts.
pub data Combine (Output Element Value : Type 0) : Type 0 where
  deduplicated :
      (Output → List (Answer Element))
      → (Element → Answer String)
      → (List Element → Value)
      → Combine Output Element Value
  collected : (List Output → Value) → Combine Output Element Value

pub record FanOutStage (Value Output Element : Type 0) : Type 0 where
  pub name : String
  pub concurrency : ℕ
  pub max_n : ℕ
  pub on_item_error : OnItemError
  pub combine : Combine Output Element Value
  pub joiner : Option (Value → Answer Value)

abbrev pub fails_stage : OnItemError → Bool
fails_stage fail_stage = true
fails_stage skip_item = false

abbrev pub put_first : {Element : Type 0} → Element → Answer (List Element) → Answer (List Element)
put_first e (raises message) = raises message
put_first e (answers es) = answers (e ∷ es)

-- `_dedup_flatten`, on the flattened list.
unfoldable pub dedup :
    {Element : Type 0}
    → (Element → Answer String)
    → List String
    → List (Answer Element)
    → Answer (List Element)
dedup key seen [] = answers []
dedup key seen (raises message ∷ xs) = raises message
dedup key seen (answers e ∷ xs) = elim (key e) [
  | raises message ↦ raises message
  | answers k ↦
      let taken = put_first e (dedup key (k ∷ seen) xs) in
      let skipped = dedup key seen xs in if elem k seen then skipped else taken
]

unfoldable pub flatten_with {ℓ κ} :
    {Output : Type ℓ} {Element : Type κ} → (Output → List Element) → List Output → List Element
flatten_with f [] = []
flatten_with f (o ∷ os) = f o ++ flatten_with f os

abbrev pub of_elements :
    {Element Value : Type 0} → (List Element → Value) → Answer (List Element) → Answer Value
of_elements of_list (raises message) = raises message
of_elements of_list (answers es) = answers (of_list es)

module _ {Value : Type 0} where
  abbrev pub finished : Answer Value → Ending Value
  finished (raises message) = raised message
  finished (answers v) =
      outcome (record {
        value = v;
        attempts = 1;
        terminate_early = false;
        sub_attempts = [];
        errors = [];
      })

  abbrev pub joined : Option (Value → Answer Value) → Answer Value → Answer Value
  joined f (raises message) = raises message
  joined none (answers v) = answers v
  joined (some f) (answers v) = f v

module _ {Item Output : Type 0} where
  -- The outputs of the calls that succeed.
  unfoldable pub successes : (Item → Answer Output) → List Item → List Output
  successes ran [] = []
  successes ran (i ∷ items) =
      let rest = successes ran items in elim (ran i) [ answers o ↦ o ∷ rest | raises _ ↦ rest ]

  unfoldable pub first_failure : (Item → Answer Output) → List Item → Option String
  first_failure ran [] = none
  first_failure ran (i ∷ items) =
      let rest = first_failure ran items in
      elim (ran i) [ answers _ ↦ rest | raises message ↦ some message ]

module _ {Value Output Element : Type 0} where
  unfoldable pub check_fanout_stage : FanOutStage Value Output Element → Option ConfigError
  check_fanout_stage s =
      if s.name == ""
      then some empty_name
      else if ltb s.concurrency 1
      then some few_attempts
      else if ltb s.max_n 1
      then some few_items
      else none

  unfoldable pub combined : Combine Output Element Value → List Output → Answer Value
  unfolding dedup flatten_with
  combined (deduplicated elements key of_list) outputs =
      of_elements of_list (dedup key [] (flatten_with elements outputs))
  combined (collected of_list) outputs = answers (of_list outputs)

module _ {Item Value Context Output Element : Type 0} where
  -- `items` is what `over` yields.
  unfoldable pub run_fanout_stage :
      FanOutStage Value Output Element
      → Answer (List Item)
      → (Item → Answer Output)
      → Context
      → Ending Value × Context × List Event
  run_fanout_stage s (raises message) ran ctx = (raised message, ctx, [])
  run_fanout_stage s (answers items) ran ctx =
      let issued = take s.max_n items in
      elim (if fails_stage s.on_item_error then first_failure ran issued else none) [
        | some message ↦ (raised message, ctx, [])
        | none ↦ (finished (joined s.joiner (combined s.combine (successes ran issued))), ctx, [])
      ]
