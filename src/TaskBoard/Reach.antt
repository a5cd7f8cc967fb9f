-- ===== src/TaskBoard/Reach.antt =====
-- Boards that calls reach, whatever the calls and their order: the links stay a forest and claims
-- stay consistent.
use swarmline.Base.{
  String, ◌≡◌, refl, sym, ap, ◌∙◌, inl, inr, Bool, Option, none, some, List, [], ◌∷◌, arith, length,
  suc,
}
use swarmline.Base.Dict.{put, values, keys, put-All}
use swarmline.Base.Forest.{IsForest, Rooted, Rooted-cong}
use swarmline.GraphTask.{GraphTaskItem}
use swarmline.TaskBoard.{
  Verdict, Python, Board, accepted, rejected, out_of_fuel, create_task, checkout_task,
  complete_task, block_task, unblock_task, cancel_task, finish, validate_parent_link, rolled_up,
}
use swarmline.TaskBoard.Claims.{
  IsClaimed, ClaimsHold, checkout_task-Claims, block_task-Claims, unblock_task-Claims,
  cancel_task-Claims,
}
use swarmline.TaskBoard.Propagation.{propagate_induction}
use swarmline.TaskBoard.Completion.{complete_task-cases, complete_task-Claims}
use swarmline.TaskBoard.Parents.{
  parent_in-write, parent_in-checkout, parent_in-block, parent_in-unblock, parent_in-cancel,
}
use swarmline.TaskBoard.Links.{parent_in, create_task-IsForest}

-- The calls that change a board. `none` of `complete_task` does not occur.
pub data Call (Float : Type 0) : Type 0 where
  create : GraphTaskItem Float → Call Float
  checkout : String → String → Float → Call Float
  complete : String → Float → Call Float
  block_call : String → String → Call Float
  unblock_call : String → Call Float
  cancel_call : String → Float → Call Float

abbrev pub board_after : {Float : Type 0} → Board Float → Option (Bool × Board Float) → Board Float
board_after b none = b
board_after b (some (answer, b')) = b'

module _ {Float : Type 0} (py : Python Float) (clock : String → Float) where
  abbrev pub call : Call Float → Board Float → Board Float
  call (create task) b = (create_task task b).1
  call (checkout id agent now) b = (checkout_task id agent now b).1
  call (complete id now) b = board_after b (complete_task py clock id now b)
  call (block_call id reason) b = (block_task py id reason b).1
  call (unblock_call id) b = (unblock_task id b).1
  call (cancel_call id now) b = (cancel_task id now b).1

  abbrev pub calls : List (Call Float) → Board Float → Board Float
  calls [] b = b
  calls (c ∷ cs) b = calls cs (call c b)

  rolled_up-parent :
      (now : Float) (cs : List (GraphTaskItem Float)) (parent : GraphTaskItem Float)
      → (rolled_up py now cs parent).parent_task_id ≡ parent.parent_task_id
  unfolding rolled_up
  rolled_up-parent now cs parent = ground arith

  parent_in_complete :
      (id k : String) (now : Float) (b b' : Board Float) (answer : Bool)
      → complete_task py clock id now b ≡ some (answer, b')
      → parent_in b'.tasks k ≡ parent_in b.tasks k
  parent_in_complete id k now b b' answer h =
      elim (complete_task-cases py clock id now b answer b' h) [
        | inl (no_change, same) ↦ ap (λ (x : Board Float). parent_in x.tasks k) (sym same)
        | inr (t, tasks, yes_change, found, busy, climbed, same) ↦
            ap (λ (x : Board Float). parent_in x.tasks k) (sym same)
            ∙ propagate_induction py clock (λ d. parent_in d k ≡ parent_in b.tasks k)
                (λ p cs parent d held kept.
                  parent_in-write p k parent (rolled_up py (clock p) cs parent) d held
                    (rolled_up-parent (clock p) cs parent)
                  ∙ kept)
                (suc (suc (length (keys b.tasks)))) [] t.parent_task_id
                (put id (finish py now t) b.tasks) tasks
                (parent_in-write id k t (finish py now t) b.tasks found refl) climbed
      ]

  create-IsForest :
      (task : GraphTaskItem Float) (b : Board Float)
      → IsForest (parent_in b.tasks)
      → IsForest (parent_in (create_task task b).1.tasks)
  unfolding create_task
  create-IsForest task b forest = split (validate_parent_link b.tasks task) refl
    where
      split :
          (v : Verdict)
          → validate_parent_link b.tasks task ≡ v
          → IsForest (parent_in (create_task task b).1.tasks)
      split accepted e = create_task-IsForest task b forest (rw (e, create_task) refl)
      split (rejected error) e = rw (e, create_task) forest
      split out_of_fuel e = rw (e, create_task) forest

  call-IsForest :
      (c : Call Float) (b : Board Float)
      → IsForest (parent_in b.tasks)
      → IsForest (parent_in (call c b).tasks)
  call-IsForest (create task) b forest k = create-IsForest task b forest k
  call-IsForest (checkout id agent now) b forest k =
      Rooted-cong (λ j. parent_in-checkout id agent j now b) (forest k)
  call-IsForest (complete id now) b forest k = split (complete_task py clock id now b) refl
    where
      split :
          (o : Option (Bool × Board Float))
          → complete_task py clock id now b ≡ o
          → Rooted (parent_in (board_after b o).tasks) k
      split none e = forest k
      split (some (answer, b')) e =
          Rooted-cong (λ j. parent_in_complete id j now b b' answer e) (forest k)
  call-IsForest (block_call id reason) b forest k =
      Rooted-cong (λ j. parent_in-block py id reason j b) (forest k)
  call-IsForest (unblock_call id) b forest k =
      Rooted-cong (λ j. parent_in-unblock id j b) (forest k)
  call-IsForest (cancel_call id now) b forest k =
      Rooted-cong (λ j. parent_in-cancel id j now b) (forest k)

  -- If the parent links of a board have no cycle, then after whatever calls on it, in whatever
  -- order, they have none.
  pub calls-IsForest :
      (cs : List (Call Float)) (b : Board Float)
      → IsForest (parent_in b.tasks)
      → IsForest (parent_in (calls cs b).tasks)
  calls-IsForest [] b forest = forest
  calls-IsForest (c ∷ cs) b forest = calls-IsForest cs (call c b) (call-IsForest c b forest)

  -- A created task whose claim is consistent.
  abbrev pub Given : List (Call Float) → Type 0
  Given [] = Unit
  Given (create task ∷ cs) = IsClaimed task × Given cs
  Given (_ ∷ cs) = Given cs

  create_task-Claims :
      (task : GraphTaskItem Float) (b : Board Float)
      → IsClaimed task
      → ClaimsHold b
      → ClaimsHold (create_task task b).1
  unfolding create_task values
  create_task-Claims task b own h = split (validate_parent_link b.tasks task) refl
    where
      split :
          (v : Verdict) → validate_parent_link b.tasks task ≡ v → ClaimsHold (create_task task b).1
      split accepted e = rw (e, create_task) (put-All IsClaimed task.id task b.tasks own h)
      split (rejected error) e = rw (e, create_task) h
      split out_of_fuel e = rw (e, create_task) h

  complete-Claims :
      (id : String) (now : Float) (b : Board Float) (o : Option (Bool × Board Float))
      → complete_task py clock id now b ≡ o
      → ClaimsHold b
      → ClaimsHold (board_after b o)
  complete-Claims id now b none e h = h
  complete-Claims id now b (some (answer, b')) e h =
      complete_task-Claims py clock id now b answer b' e h

  -- If every task of a board that an agent holds is in progress or done, and the same goes for
  -- every task that is given to `create_task`, then after any calls, in any order, every task of
  -- the board that an agent holds is in progress or done.
  pub calls-Claims :
      (cs : List (Call Float)) (b : Board Float) → Given cs → ClaimsHold b → ClaimsHold (calls cs b)
  calls-Claims [] b given h = h
  calls-Claims (create task ∷ cs) b given h =
      calls-Claims cs (create_task task b).1 given.1 (create_task-Claims task b given.0 h)
  calls-Claims (checkout id agent now ∷ cs) b given h =
      calls-Claims cs (checkout_task id agent now b).1 given (checkout_task-Claims id agent now b h)
  calls-Claims (complete id now ∷ cs) b given h =
      calls-Claims cs (board_after b (complete_task py clock id now b)) given
        (complete-Claims id now b (complete_task py clock id now b) refl h)
  calls-Claims (block_call id reason ∷ cs) b given h =
      calls-Claims cs (block_task py id reason b).1 given (block_task-Claims py id reason b h)
  calls-Claims (unblock_call id ∷ cs) b given h =
      calls-Claims cs (unblock_task id b).1 given (unblock_task-Claims id b h)
  calls-Claims (cancel_call id now ∷ cs) b given h =
      calls-Claims cs (cancel_task id now b).1 given (cancel_task-Claims id now b h)
