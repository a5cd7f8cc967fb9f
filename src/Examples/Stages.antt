-- ===== src/Examples/Stages.antt =====
-- Stages over numbers; the context counts calls.
use swarmline.Base.{
  ℕ, zero, suc, ◌+◌, String, ◌≡◌, ◌⊎◌, refl, true, false, not, ◌&&◌, none, List, [], ◌∷◌, elem,
  arith, Distinct, take, ◌==◌, if◌then◌else◌,
}
use swarmline.Dataflow.{
  of_stage, Event, Ending, outcome, raised, Registry, Stage, StageOutcome, resolve_runner,
}
use swarmline.Base.Dict.{get, put}
use swarmline.Dataflow.Stages.{
  Answer, answers, raises, takes_context, Texts, io, pure, call_with_arity,
}
use swarmline.Dataflow.Stages.Typed.{TypedStage, attempt, run_typed_stage, check_typed_stage}
use swarmline.Dataflow.Stages.Retries.{
  Failed, no_attempt, one_more, first_time, run_typed_stage-answers, run_typed_stage-once,
}
use swarmline.Dataflow.Stages.Parallel.{
  ParallelStage, allow_partial, requires_all, no_errors, first_unregistered, run_parallel_stage,
}
use swarmline.Dataflow.Stages.Joins.{failures, some_outcome, run_parallel_stage-outcome}
use swarmline.Dataflow.Stages.FanOut.{
  FanOutStage, skip_item, deduplicated, finished, run_fanout_stage, flatten_with, successes,
  combined, dedup,
}
use swarmline.Dataflow.Stages.Keys.{
  Breaks, Reads, Subsequence, keys_of, elements_of, run_fanout_stage-dedup,
}

abbrev texts : Texts
texts = record {
  validator_failed = λ s. s;
  body_failed = λ s m. m;
  not_approved = λ s n. s;
  no_case = λ s k. k;
  branch_failed = λ s m. m;
  joined = λ es. "some branches failed";
  no_runner = λ s. s;
  no_outcome = λ s. s;
  all_failed = "all branches failed";
  dotted = λ s b. b;
}

-- The first call raises, the next one answers.
abbrev third_time : ℕ → ℕ → Answer ℕ × ℕ
third_time v zero = (raises "busy", 1)
third_time v (suc n) = (answers (v + n), suc (suc n))

abbrev retried : TypedStage ℕ ℕ ℕ
retried = record {
  name = "retried";
  handler = takes_context third_time;
  dependency = pure;
  validator = none;
  max_attempts = 3;
  params = 0;
}

busy_once : Failed texts retried 5 1 0 1
unfolding attempt call_with_arity
busy_once = one_more {message = "busy"} refl no_attempt

answered : attempt texts retried 5 1 ≡ (answers 5, 2)
unfolding attempt call_with_arity
answered = refl

run_typed_stage-answers_example :
    run_typed_stage texts retried 5 0 ≡ (outcome (first_time 5 2), 2, [])
run_typed_stage-answers_example =
    run_typed_stage-answers texts retried 5 5 busy_once answered (omega arith)

abbrev fetch : TypedStage ℕ ℕ ℕ
fetch = record retried { dependency = io; max_attempts = 1 }

fetch_checked : check_typed_stage fetch ≡ none
unfolding check_typed_stage
fetch_checked = refl

run_typed_stage-once_example : (run_typed_stage texts fetch 5 0).1 ≡ (attempt texts fetch 5 0).1
run_typed_stage-once_example = run_typed_stage-once texts fetch 5 0 fetch_checked refl

-- Two branches, of which the second raises.
abbrev branch : String → Stage
branch name = record { kind = "add"; name = name; status_label = ""; max_attempts = 1 }

abbrev add : Stage → ℕ → ℕ → Ending ℕ × ℕ × List Event
add s v c = (raised "unused", c, [])

abbrev registry : Registry ℕ ℕ
registry = ("add", add) ∷ []

abbrev ending : String → Ending ℕ
ending name = if name == "left" then outcome (first_time 7 1) else raised "boom"

abbrev fork : ParallelStage ℕ ℕ ℕ
fork = record {
  name = "fork";
  branches = ("left", branch "left") ∷ ("right", branch "right") ∷ [];
  joiner = none;
  failure_policy = allow_partial;
  params = 0;
}

abbrev joined_outcome : StageOutcome ℕ
joined_outcome = record {
  value = 1;
  attempts = 1;
  terminate_early = false;
  sub_attempts = ("left", 1) ∷ ("right", 1) ∷ [];
  errors = of_stage "right" "boom" ∷ [];
}

abbrev entries : {A : Type 0} → List A → ℕ
entries [] = 0
entries (x ∷ xs) = suc (entries xs)

forked :
    (run_parallel_stage texts (entries {A = String × ℕ}) registry fork ending 0 []).0
    ≡ outcome joined_outcome
unfolding run_parallel_stage resolve_runner get put
forked = refl

run_parallel_stage-outcome_example :
    (first_unregistered registry fork.branches ≡ none)
    × (some_outcome texts "fork" fork.branches ending ≡ true)
    × (joined_outcome.errors ≡ failures texts "fork" fork.branches ending)
    × ((not (no_errors (failures texts "fork" fork.branches ending)) && requires_all allow_partial)
        ≡ false)
run_parallel_stage-outcome_example =
    run_parallel_stage-outcome texts (entries {A = String × ℕ}) fork registry ending 0 [] forked

-- Each item gives its name twice; the third item is beyond the limit.
abbrev twice : List String → List (Answer String)
twice [] = []
twice (name ∷ names) = answers name ∷ twice names

abbrev fan : FanOutStage (List String) (List String) String
fan = record {
  name = "fan";
  concurrency = 2;
  max_n = 2;
  on_item_error = skip_item;
  combine = deduplicated twice answers (λ es. es);
  joiner = none;
}

abbrev search : String → Answer (List String)
search item = if item == "b" then raises "no route" else answers (item ∷ item ∷ [])

abbrev fan_items : List String
fan_items = "a" ∷ "b" ∷ "c" ∷ []

run_fanout_stage-dedup_example :
    ((m : String) × Breaks answers (flatten_with twice (successes search (take 2 fan_items))) m
      × (run_fanout_stage {Context = ℕ} fan (answers fan_items) search 0 ≡ (raised m, 0, [])))
    ⊎ ((pairs : List (String × String)) × (chosen : List (String × String)) × Reads answers
          (flatten_with twice (successes search (take 2 fan_items)))
          pairs
        × Subsequence (String × String) chosen pairs
        × Distinct (keys_of chosen)
        × ((k : String) → elem k (keys_of chosen) ≡ elem k (keys_of pairs))
        × (run_fanout_stage {Context = ℕ} fan (answers fan_items) search 0
            ≡ (finished (answers (elements_of chosen)), 0, [])))
run_fanout_stage-dedup_example =
    run_fanout_stage-dedup fan twice answers (λ es. es) fan_items search 0 refl refl refl

-- The outcome of the run, and the exception when an output cannot be iterated.
fan_run :
    (run_fanout_stage {Context = ℕ} fan (answers fan_items) search 0).0
    ≡ finished (answers ("a" ∷ []))
unfolding run_fanout_stage combined successes flatten_with dedup
fan_run = refl

fan_broken :
    (run_fanout_stage {Context = ℕ}
      (record fan {
        combine = deduplicated (λ o. raises "not iterable" ∷ []) answers (λ (es : List String). es);
      })
      (answers fan_items)
      search
      0).0
    ≡ raised "not iterable"
unfolding run_fanout_stage combined successes flatten_with dedup
fan_broken = refl
