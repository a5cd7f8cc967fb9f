-- ===== src/GoalQueue.antt =====
-- swarmline/multi_agent/goal_queue.py. The fresh id that `uuid4` gives and the readings of
-- `time.time()` are arguments; `Any` is the type of metadata values.
pub mod Fifo
use swarmline.Base.{
  ℕ, String, Bool, true, false, Option, none, some, List, [], ◌∷◌, ◌++◌, if◌then◌else◌, select,
  length,
}
use swarmline.Base.Dict.{Dict, get, put, values}

pub data GoalStatus : Type 0 where
  queued running completed failed : GoalStatus

pub record GoalEntry (Any : Type 0) : Type 0 where
  pub id : String
  pub goal : String
  pub status : GoalStatus
  pub submitted_at : ℕ
  pub completed_at : Option ℕ
  pub run_id : Option String
  pub metadata : Dict Any

pub record GoalQueue (Any : Type 0) : Type 0 where
  pub queue : List String
  pub goals : Dict (GoalEntry Any)

abbrev pub is_queued : GoalStatus → Bool
is_queued queued = true
is_queued _ = false

abbrev pub popleft : List String → List String
popleft [] = []
popleft (gid ∷ rest) = rest

module _ {Any : Type 0} where
  unfoldable pub new_queue : GoalQueue Any
  new_queue = record { queue = []; goals = [] }

  abbrev pub entry_of : String → String → ℕ → Dict Any → GoalEntry Any
  entry_of fresh goal now metadata = record {
    id = fresh;
    goal = goal;
    status = queued;
    submitted_at = now;
    completed_at = none;
    run_id = none;
    metadata = metadata;
  }

  unfoldable pub submit :
      String → ℕ → String → Dict Any → GoalQueue Any → GoalEntry Any × GoalQueue Any
  submit fresh now goal metadata q =
      let entry = entry_of fresh goal now metadata in
      (entry, record { queue = q.queue ++ fresh ∷ []; goals = put fresh entry q.goals })

  abbrev pub is_pending : Option (GoalEntry Any) → Bool
  is_pending none = false
  is_pending (some entry) = is_queued entry.status

  -- The `while` loop of `peek`: what it returns, and the deque that it leaves.
  unfoldable pub skip : Dict (GoalEntry Any) → List String → Option (GoalEntry Any) × List String
  skip goals [] = (none, [])
  skip goals (gid ∷ rest) =
      let later = skip goals rest in
      if is_pending (get gid goals) then (get gid goals, gid ∷ rest) else later

  unfoldable pub peek : GoalQueue Any → Option (GoalEntry Any) × GoalQueue Any
  unfolding skip
  peek q = let (entry, queue) = skip q.goals q.queue in (entry, record q { queue = queue })

  abbrev pub start : GoalEntry Any → GoalEntry Any
  start entry = record entry { status = running }

  abbrev pub take_first :
      Option (GoalEntry Any) → GoalQueue Any → Option (GoalEntry Any) × GoalQueue Any
  take_first none q = (none, q)
  take_first (some entry) q = (
    some (start entry),
    record { queue = popleft q.queue; goals = put entry.id (start entry) q.goals },
  )

  unfoldable pub dequeue : GoalQueue Any → Option (GoalEntry Any) × GoalQueue Any
  unfolding peek
  dequeue q = let (entry, q') = peek q in take_first entry q'

  -- `mark_complete` and `mark_failed`; a key that is missing raises `KeyError`, here `none`.
  abbrev pub mark : GoalStatus → String → Option String → ℕ → GoalQueue Any → Option (GoalQueue Any)
  mark status goal_id run now q = elim (get goal_id q.goals) [
    | none ↦ none
    | some entry ↦ some (record q {
      goals =
          put goal_id (record entry { status = status; completed_at = some now; run_id = run })
            q.goals;
    })
  ]

  unfoldable pub mark_complete : String → Option String → ℕ → GoalQueue Any → Option (GoalQueue Any)
  mark_complete = mark completed

  unfoldable pub mark_failed : String → Option String → ℕ → GoalQueue Any → Option (GoalQueue Any)
  mark_failed = mark failed

  unfoldable pub list_all : GoalQueue Any → List (GoalEntry Any)
  list_all q = values q.goals

  unfoldable pub list_pending : GoalQueue Any → List (GoalEntry Any)
  list_pending q = select (λ g. is_queued g.status) (values q.goals)

  unfoldable pub size : GoalQueue Any → ℕ
  size q = length (select (λ g. is_queued g.status) (values q.goals))
