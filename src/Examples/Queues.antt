-- ===== src/Examples/Queues.antt =====
-- The task queue, the goal queue and the breaker at small inputs; metadata is empty.
use swarmline.Base.{◌≤◌, String, ◌≡◌, ◌≢◌, refl, true, none, some, [], ◌∷◌, All, arith}
use swarmline.Base.Dict.{Dict, get, put, values, keys}
use mathlib.Core.List.{Memᴰ}
use swarmline.TaskTypes.{TaskPriority, low, critical, todo, done}
use swarmline.TaskQueue.{
  TaskItem, get_item, complete, cancel_item, claim, candidates, matches_get, pick_best, min_from,
}
use swarmline.TaskQueue.Best.{urgency, get_item-best}
use swarmline.TaskQueue.Claim.{get_item-once, final_stays}
use swarmline.GoalQueue.{GoalQueue, GoalEntry, new_queue, submit, dequeue, start}
use swarmline.GoalQueue.Fifo.{waiting, IsValid, submit-IsValid, dequeue-empty, dequeue-first}
use swarmline.Circuit.{CircuitBreaker, CircuitBreakerRegistry, new_breaker, half_open, get_breaker}
use swarmline.Circuit.Laws.{success, failure, run, IsSound, run-IsSound, get_breaker_lem}

abbrev task : String → TaskPriority → TaskItem Unit
task id priority = record {
  id = id;
  title = "t";
  description = "";
  status = todo;
  priority = priority;
  assignee_agent_id = none;
  metadata = [];
  created_at = 1;
}

abbrev two_tasks : Dict (TaskItem Unit)
two_tasks = ("slow", task "slow" low) ∷ ("now", task "now" critical) ∷ []

abbrev slow : TaskItem Unit
slow = claim (task "slow" low)

abbrev now : TaskItem Unit
now = claim (task "now" critical)

abbrev one_left : Dict (TaskItem Unit)
one_left = ("slow", task "slow" low) ∷ ("now", now) ∷ []

takes_now : get_item none two_tasks ≡ (some now, one_left)
unfolding get_item candidates matches_get pick_best min_from values put
takes_now = refl

get_item-best_example :
    (stored : TaskItem Unit) × (now ≡ claim stored)
    × Memᴰ stored (values two_tasks)
    × (matches_get stored none ≡ true)
    × All (λ other. urgency stored ≤ urgency other) (candidates none two_tasks)
unfolding get_item candidates matches_get pick_best min_from values put
get_item-best_example = get_item-best none two_tasks now refl

get_item-once_example : slow.id ≢ now.id
unfolding get_item candidates matches_get pick_best min_from values put keys
get_item-once_example =
    get_item-once none none two_tasks now slow (refl, refl, (refl, refl, tt)) refl refl

abbrev one_done : Dict (TaskItem Unit)
one_done = (complete "now" one_left).1

final_stays_example :
    (get "now" (complete "slow" one_done).1 ≡ get "now" one_done)
    × (get "now" (cancel_item "slow" one_done).1 ≡ get "now" one_done)
    × (get "now" (get_item none one_done).1 ≡ get "now" one_done)
unfolding complete get put values keys
final_stays_example =
    final_stays "slow" "now" none one_done (record now { status = done })
      (refl, refl, (refl, refl, tt)) refl refl

abbrev one_goal : GoalQueue Unit
one_goal = (submit "g1" 1 "first" [] new_queue).1

abbrev two_goals : GoalQueue Unit
two_goals = (submit "g2" 2 "second" [] one_goal).1

new_queue-IsValid : IsValid {Any = Unit} new_queue
unfolding new_queue get
new_queue-IsValid = record { distinct = tt; keyed = λ k entry h. absurd (cc) }

one_goal-IsValid : IsValid one_goal
unfolding new_queue
one_goal-IsValid = submit-IsValid "g1" "first" 1 [] new_queue new_queue-IsValid refl

two_goals-IsValid : IsValid two_goals
unfolding new_queue submit
two_goals-IsValid = submit-IsValid "g2" "second" 2 [] one_goal one_goal-IsValid refl

dequeue-empty_example :
    ((dequeue {Any = Unit} new_queue).0 ≡ none) × (waiting {Any = Unit} (dequeue new_queue).1 ≡ [])
unfolding new_queue
dequeue-empty_example = dequeue-empty new_queue refl

dequeue-first_example :
    (entry : GoalEntry Unit) × (get "g1" two_goals.goals ≡ some entry)
    × ((dequeue two_goals).0 ≡ some (start entry))
    × (waiting (dequeue two_goals).1 ≡ "g2" ∷ [])
unfolding submit new_queue get put
dequeue-first_example = dequeue-first two_goals "g1" ("g2" ∷ []) two_goals-IsValid refl

fresh_breaker-IsSound : IsSound (new_breaker 3 10)
unfolding new_breaker
fresh_breaker-IsSound = record { below = λ h. omega arith }

run-IsSound_example : IsSound (run (new_breaker 3 10) (failure 1 ∷ success ∷ failure 2 ∷ []))
unfolding new_breaker
run-IsSound_example =
    run-IsSound (new_breaker 3 10) (failure 1 ∷ success ∷ failure 2 ∷ []) (omega arith)
      fresh_breaker-IsSound

abbrev probing : CircuitBreaker
probing = record (new_breaker 3 10) { state = half_open }

abbrev servers : CircuitBreakerRegistry
servers = record { threshold = 3; cooldown = 10; breakers = [] }

get_breaker_lem_example :
    (get_breaker "a" (get_breaker "a" servers).1
      ≡ ((get_breaker "a" servers).0, (get_breaker "a" servers).1))
    × (get "b" (get_breaker "a" servers).1.breakers ≡ none)
unfolding get
get_breaker_lem_example = get_breaker_lem "a" "b" servers
