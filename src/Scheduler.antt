-- ===== src/Scheduler.antt =====
-- swarmline/daemon/scheduler.py: periodic and one-shot tasks. Times and intervals are whole units of a
-- clock; the monotonic time and the wall-clock time of a call, and the name that is generated for an
-- unnamed task, are arguments. A coroutine factory is user code: launching it adds it to the pending
-- set, and that it has ended is a command of its own.
pub mod Firing
pub mod Bounds
pub mod Launches
use swarmline.Base.{
  ℕ, zero, suc, ◌+◌, ◌-◌, String, Bool, true, false, not, ◌&&◌, Option, none, some, List, [], ◌∷◌,
  ◌++◌, ◌==◌, if◌then◌else◌, ltb, leb, length, is_some, map,
}
use swarmline.Base.Dict.{Dict, get, put, remove, values}

-- `_Task`
pub record ScheduledTask (Coro : Type 0) : Type 0 where
  pub name : String
  pub coro_factory : Coro
  pub interval : Option ℕ
  pub next_run : ℕ
  pub last_run : Option ℕ
  pub last_run_wall : Option ℕ
  pub run_count : ℕ
  pub active : Bool

pub record Scheduler (Coro : Type 0) : Type 0 where
  pub tasks : Dict (ScheduledTask Coro)
  pub paused : Bool
  pub max_concurrent : ℕ
  pub pending : List Coro

pub record ScheduledTaskInfo : Type 0 where
  pub name : String
  pub interval_seconds : Option ℕ
  pub next_run_at : ℕ
  pub last_run_at : Option ℕ
  pub run_count : ℕ
  pub is_active : Bool

abbrev or_generated : String → String → String
or_generated name generated = if name == "" then generated else name

module _ {Coro : Type 0} where
  abbrev new_task : String → Coro → Option ℕ → ℕ → ScheduledTask Coro
  new_task name coro interval next_run = record {
    name = name;
    coro_factory = coro;
    interval = interval;
    next_run = next_run;
    last_run = none;
    last_run_wall = none;
    run_count = 0;
    active = true;
  }

  -- `none` is the `ValueError`.
  unfoldable pub every :
      ℕ → Coro → String → String → ℕ → Scheduler Coro → Option (String × Scheduler Coro)
  every seconds coro name generated now s =
      let task_name = or_generated name generated in
      if leb seconds 0
      then none
      else some (
        task_name,
        record s {
          tasks = put task_name (new_task task_name coro (some seconds) (now + seconds)) s.tasks;
        },
      )

  -- `timestamp` is a wall-clock time; `max(offset, 0)` is the subtraction that stops at zero.
  unfoldable pub once_at :
      ℕ → Coro → String → String → ℕ → ℕ → Scheduler Coro → String × Scheduler Coro
  once_at timestamp coro name generated now wall s =
      let task_name = or_generated name generated in
      (
        task_name,
        record s {
          tasks = put task_name (new_task task_name coro none (now + (timestamp - wall))) s.tasks;
        },
      )

  unfoldable pub cancel : String → Scheduler Coro → Bool × Scheduler Coro
  cancel name s = (is_some (get name s.tasks), record s { tasks = remove name s.tasks })

  unfoldable pub pause : Scheduler Coro → Scheduler Coro
  pause s = record s { paused = true }

  unfoldable pub resume : Scheduler Coro → Scheduler Coro
  resume s = record s { paused = false }

  -- `len(pending) >= max_concurrent > 0`
  unfoldable pub is_full : Scheduler Coro → Bool
  is_full s = ltb 0 s.max_concurrent && leb s.max_concurrent (length s.pending)

  abbrev launched : ℕ → ℕ → ScheduledTask Coro → ScheduledTask Coro
  launched now wall t = record t {
    last_run = some now;
    last_run_wall = some wall;
    run_count = t.run_count + 1;
  }

  -- A task is changed in place, so its entry in the dictionary is.
  unfoldable pub fire :
      ℕ
      → ℕ
      → String
      → ScheduledTask Coro
      → Scheduler Coro
      → List String
      → Scheduler Coro × List String
  fire now wall name t s to_remove = elim t.interval [
    | some interval ↦ (
      record s {
        tasks = put name (record (launched now wall t) { next_run = now + interval }) s.tasks;
        pending = s.pending ++ t.coro_factory ∷ [];
      },
      to_remove,
    )
    | none ↦ (
      record s {
        tasks = put name (record (launched now wall t) { active = false }) s.tasks;
        pending = s.pending ++ t.coro_factory ∷ [];
      },
      to_remove ++ name ∷ [],
    )
  ]

  -- The `for` loop over the copy of the tasks.
  unfoldable pub fire_ready :
      ℕ
      → ℕ
      → Dict (ScheduledTask Coro)
      → Scheduler Coro
      → List String
      → Scheduler Coro × List String
  unfolding fire is_full
  fire_ready now wall [] s to_remove = (s, to_remove)
  fire_ready now wall ((name, t) ∷ ts) s to_remove = elim (not t.active) [
    | true ↦ fire_ready now wall ts s to_remove
    | false ↦ elim (is_full s) [
      | true ↦ (s, to_remove)
      | false ↦ elim (leb t.next_run now) [
        | true ↦
            let (fired, removals) = fire now wall name t s to_remove in
            fire_ready now wall ts fired removals
        | false ↦ fire_ready now wall ts s to_remove
      ]
    ]
  ]

  abbrev pub remove_each : List String → Dict (ScheduledTask Coro) → Dict (ScheduledTask Coro)
  remove_each [] tasks = tasks
  remove_each (name ∷ names) tasks = remove_each names (remove name tasks)

  -- `_tick`
  unfoldable pub tick : ℕ → ℕ → Scheduler Coro → Scheduler Coro
  unfolding fire_ready
  tick now wall s =
      let (fired, to_remove) = fire_ready now wall s.tasks s [] in
      record fired { tasks = remove_each to_remove fired.tasks }

  -- A round of `run_until` before the wait.
  unfoldable pub poll : ℕ → ℕ → Scheduler Coro → Scheduler Coro
  unfolding tick
  poll now wall s = if s.paused then s else tick now wall s

  abbrev info : ℕ → ℕ → ScheduledTask Coro → ScheduledTaskInfo
  info now wall t = record {
    name = t.name;
    interval_seconds = t.interval;
    next_run_at = (wall + t.next_run) - now;
    last_run_at = t.last_run_wall;
    run_count = t.run_count;
    is_active = t.active;
  }

  unfoldable pub list_tasks : ℕ → ℕ → Scheduler Coro → List ScheduledTaskInfo
  list_tasks now wall s = map (info now wall) (values s.tasks)
