-- ===== src/Examples/Board.antt =====
-- The task board on a goal with two subtasks. Time and progress are counted in ℕ, progress in hundredths.
use swarmline.Base.{
  elem, All, ℕ, ◌+◌, ◌/◌, String, ◌≡◌, ◌≢◌, refl, sym, ◌∙◌, Bool, true, false, Option, none, some,
  List, [], ◌∷◌,
}
use swarmline.Base.Dict.{get, put, values, keys}
use swarmline.Base.Forest.{IsForest, top}
use swarmline.Base.Json.{end, field, str}
use swarmline.TaskTypes.{todo, medium}
use swarmline.GraphTask.{GraphTaskItem}
use swarmline.TaskBoard.{
  Python, Board, rejected, cycle, new_board, create_task, checkout_task, complete_task, claim,
  children_of, walk_parents, validate_parent_link, propagate_parent, rolled_up,
}
use swarmline.TaskBoard.Links.{parent_in}
use swarmline.TaskBoard.Query.{get_blocked_by, get_ready_tasks, is_ready, all_deps_done, ready_lem}
use swarmline.TaskBoard.Subtree.{absorb, collect, subtree_ids}
use swarmline.TaskBoard.Descendants.{covers, subtree_ids-covers}
use swarmline.TaskBoard.Reach.{
  Call, create, checkout, complete, cancel_call, calls, calls-IsForest, calls-Claims,
}
use mathlib.Core.List.{Memᴰ}
use swarmline.TaskBoard.Claims.{ClaimsHold, checkout_task-exclusive}
use swarmline.TaskBoard.Propagation.{done_at}
use swarmline.TaskBoard.Completion.{complete_task-total, complete_task-parent_done}

abbrev total : List ℕ → ℕ
total [] = 0
total (n ∷ ns) = n + total ns

abbrev py : Python ℕ
py = record { one = 100; sum = total; divide = λ a b. a / b; strip = λ s. s }

abbrev clock : String → ℕ
clock id = 9

abbrev item : String → Option String → GraphTaskItem ℕ
item id parent = record {
  id = id;
  title = "t";
  description = "";
  status = todo;
  priority = medium;
  assignee_agent_id = none;
  parent_task_id = parent;
  goal_id = some "g";
  epic_id = none;
  dod_criteria = "tests" ∷ [];
  dod_verified = false;
  checkout_agent_id = none;
  dependencies = [];
  delegated_by = none;
  delegation_reason = none;
  estimated_effort = none;
  started_at = none;
  completed_at = none;
  progress = 0;
  stage = "";
  blocked_reason = "";
  created_at = 1;
  updated_at = 1;
  metadata = field "k" (str "v") end;
}

abbrev goal : Board ℕ
goal = (create_task (item "goal" none) (new_board "")).1

abbrev family : Board ℕ
family = (create_task (item "a" (some "goal")) goal).1

-- A goal under its own subtask is refused.
refuses_cycle : (create_task (item "goal" (some "a")) family).0 ≡ rejected cycle
unfolding create_task new_board validate_parent_link walk_parents get put keys
refuses_cycle = refl

some_not_none {ℓ} : {A : Type ℓ} {a : A} → ¬ (some a ≡ none)
some_not_none e = cc

abbrev busy : Board ℕ
busy = (checkout_task "a" "ann" 2 family).1

checks_out : (checkout_task "a" "ann" 2 family).0 ≡ some (claim "ann" 2 (item "a" (some "goal")))
unfolding checkout_task create_task new_board validate_parent_link walk_parents get put keys
checks_out = refl

checkout_task-exclusive_example : checkout_task "a" "bob" 3 busy ≡ (none, busy)
checkout_task-exclusive_example =
    checkout_task-exclusive "a" "ann" "bob" 2 3 family (λ e. some_not_none (sym checks_out ∙ e))

complete_task-total_example : complete_task py clock "a" 4 busy ≢ none
complete_task-total_example = complete_task-total py clock "a" 4 busy

abbrev finished : Option (Bool × Board ℕ)
finished = complete_task py clock "a" 4 busy

abbrev board_of : Option (Bool × Board ℕ) → Board ℕ
board_of none = goal
board_of (some (r, b)) = b

abbrev after : Board ℕ
after = board_of finished

completes : finished ≡ some (true, after)
unfolding complete_task propagate_parent rolled_up children_of checkout_task create_task new_board
    validate_parent_link walk_parents get put keys values
completes = refl

complete_task-parent_done_example : done_at "goal" after.tasks ≡ true
unfolding complete_task propagate_parent rolled_up children_of checkout_task create_task new_board
    validate_parent_link walk_parents get put keys values
complete_task-parent_done_example =
    complete_task-parent_done py clock "a" "goal" 4 busy after
      (claim "ann" 2 (item "a" (some "goal"))) refl refl refl (λ e. some_not_none e) refl completes

abbrev life : List (Call ℕ)
life =
    create (item "goal" none)
    ∷ create (item "a" (some "goal"))
    ∷ create (item "goal" (some "a"))
    ∷ checkout "a" "ann" 2
    ∷ complete "a" 4
    ∷ cancel_call "goal" 5
    ∷ []

calls-IsForest_example : IsForest (parent_in (calls py clock life (new_board "")).tasks)
unfolding new_board get
calls-IsForest_example = calls-IsForest py clock life (new_board "") (λ k. top {k = k} refl)

calls-Claims_example : ClaimsHold (calls py clock life (new_board ""))
unfolding new_board values
calls-Claims_example =
    calls-Claims py clock life (new_board "")
      ((λ e. absurd (cc)), ((λ e. absurd (cc)), ((λ e. absurd (cc)), tt))) tt

ready_lem_example :
    ((checkout_task "a" "ann" 2 family).0 ≡ some (claim "ann" 2 (item "a" (some "goal"))))
    × (get_blocked_by "a" family ≡ [])
unfolding create_task new_board validate_parent_link walk_parents get put keys values
    get_ready_tasks is_ready all_deps_done
ready_lem_example =
    ready_lem family (item "a" (some "goal")) "ann" 2 (refl, refl, (refl, refl, tt))
      (Memᴰ.tail (Memᴰ.head refl))

subtree_ids-covers_example :
    (elem "goal" ("a" ∷ "goal" ∷ []) ≡ true)
    × All (λ t. covers ("a" ∷ "goal" ∷ []) ("a" ∷ "goal" ∷ []) t ≡ true) (values family.tasks)
unfolding create_task new_board validate_parent_link walk_parents get put keys values subtree_ids
    collect absorb
subtree_ids-covers_example = subtree_ids-covers "goal" family ("a" ∷ "goal" ∷ []) refl
