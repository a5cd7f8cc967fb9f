-- ===== src/Examples/Flows.antt =====
-- Pipelines of stages that add to a number; a stage of the kind "boom" raises.
use swarmline.Base.{ℕ, ◌+◌, String, ◌≡◌, refl, false, none, some, List, [], ◌∷◌, ◌++◌}
use swarmline.Base.Dict.{get}
use swarmline.Dataflow.{
  Stage, Runner, Registry, StageOutcome, outcome, raised, last_valid, fallback, completed,
  run_pipeline, resolve_runner,
}
use swarmline.Dataflow.Flow.{
  brief, Flows, flow_end, flow_next, Breaks, breaks_raised, run_pipeline-Breaks,
  run_pipeline-completes,
}

abbrev stage : String → String → Stage
stage kind name = record { kind = kind; name = name; status_label = ""; max_attempts = 1 }

abbrev added : ℕ → StageOutcome ℕ
added v = record {
  value = v + 1;
  attempts = 1;
  terminate_early = false;
  sub_attempts = [];
  errors = [];
}

-- The context counts the stages that ran.
abbrev add : Runner ℕ ℕ
add s v c = (outcome (added v), c + 1, [])

abbrev boom : Runner ℕ ℕ
boom s v c = (raised "boom", c + 1, [])

abbrev registry : Registry ℕ ℕ
registry = ("add", add) ∷ ("boom", boom) ∷ []

abbrev good : List Stage
good = stage "add" "one" ∷ stage "add" "two" ∷ []

good-Flows : Flows registry good 5 0 7 2
unfolding resolve_runner get
good-Flows = flow_next refl refl refl (flow_next refl refl refl flow_end)

run_pipeline-completes_example :
    brief (run_pipeline registry last_valid good 5 0)
    ≡ some (record {
      status = completed;
      output = some 7;
      failed_stage = none;
      terminated_early = false;
    })
run_pipeline-completes_example = run_pipeline-completes registry last_valid good 5 0 good-Flows

bad-Breaks : Breaks registry (stage "boom" "bad") 7 2
unfolding resolve_runner get
bad-Breaks = breaks_raised refl refl

run_pipeline-Breaks_example :
    brief (
      run_pipeline registry last_valid (good ++ stage "boom" "bad" ∷ stage "none" "later" ∷ []) 5 0)
    ≡ some (record {
      status = fallback;
      output = some 7;
      failed_stage = some "bad";
      terminated_early = false;
    })
run_pipeline-Breaks_example =
    run_pipeline-Breaks registry last_valid good (stage "none" "later" ∷ []) (stage "boom" "bad") 5
      0 good-Flows bad-Breaks
