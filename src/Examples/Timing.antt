-- ===== src/Examples/Timing.antt =====
-- A scheduler of two tasks, hooks on a tool call, and two users of a memory.
use swarmline.Base.{
  ℕ, ◌+◌, if◌then◌else◌, ◌≤◌, ◌<◌, String, ◌≡◌, refl, true, none, some, [], ◌∷◌, ◌++◌, ◌==◌, length,
  arith,
}
use swarmline.Base.Dict.{get, put}
use swarmline.Scheduler.{Scheduler, ScheduledTask, every, poll, tick}
use swarmline.Scheduler.Bounds.{
  new, Reachable, at_start, after_step, by_every, by_poll, pending-Bounded,
}
use swarmline.Scheduler.Launches.{due, fitting, tick-pending, tick-none_due}
use swarmline.Hooks.{HookEntry, HookRegistry, get_hooks}
use swarmline.Hooks.Dispatch.{
  Calls, Returned, hook_result, other, blocked, modified, coerce_pre_tool_result, dispatch_pre_tool,
}
use swarmline.Hooks.Decisions.{Decides, decides, modifying, no_hook, dispatch_pre_tool-blocks}
use swarmline.Memory.{Memory, MemoryMessage, get_messages, delete_messages_before}
use swarmline.Memory.Messages.{get_messages-delete_messages_before}
use swarmline.Memory.Isolation.{write, view, message, view-write}

abbrev health : ScheduledTask String
health = record {
  name = "health";
  coro_factory = "check";
  interval = some 5;
  next_run = 5;
  last_run = none;
  last_run_wall = none;
  run_count = 0;
  active = true;
}

abbrev filled : ℕ → Scheduler String
filled limit = record (new limit) { tasks = ("health", health) ∷ [] }

registered : (limit : ℕ) → every 5 "check" "health" "" 0 (new limit) ≡ some ("health", filled limit)
unfolding every put
registered limit = refl

history : (limit : ℕ) → Reachable limit (filled limit)
history limit = after_step at_start (by_every 5 "check" "health" "" 0 (registered limit))

pending-Bounded_example : length (poll 9 0 (filled 1)).pending ≤ 1
pending-Bounded_example = pending-Bounded 1 (after_step (history 1) (by_poll 9 0)) (omega arith)

tick-pending_example :
    (tick 9 0 (filled 1)).pending ≡ [] ++ fitting 1 0 (due 9 (("health", health) ∷ []))
tick-pending_example = tick-pending 9 0 (filled 1)

rescheduled :
    get "health" (tick 9 0 (filled 0)).tasks
    ≡ some
        (record health { next_run = 14; last_run = some 9; last_run_wall = some 0; run_count = 1 })
unfolding tick get put
rescheduled = refl

tick-none_due_example : (true ≡ true) × (9 < 14)
tick-none_due_example = tick-none_due 9 0 "health" (history 0) rescheduled

-- The first hook changes the input, the second one blocks large inputs, the third is not called.
abbrev answer : String → ℕ → Returned ℕ
answer name input =
    if name == "double"
    then hook_result (modified (input + input))
    else hook_result (blocked "too large")

abbrev calls : Calls String ℕ ℕ
calls = record {
  pre_tool = λ callback tool input w. (answer callback input, w + 1);
  post_tool = λ callback tool input output w. (other, w);
  stop = λ callback text w. (other, w);
  user_prompt = λ callback prompt w. (other, w);
  fnmatch = λ tool pattern. true;
}

abbrev entry : String → HookEntry String
entry name = record { event = "PreToolUse"; callback = name; matcher = "" }

abbrev hooks : HookRegistry String
hooks = ("PreToolUse", entry "double" ∷ entry "limit" ∷ entry "never" ∷ []) ∷ []

hooks_listed :
    get_hooks "PreToolUse" hooks ≡ (entry "double" ∷ []) ++ entry "limit" ∷ entry "never" ∷ []
unfolding get_hooks get
hooks_listed = refl

doubled : Decides calls "shell" (entry "double") 7 0 1 (modified 14)
unfolding coerce_pre_tool_result
doubled = decides refl refl refl refl

limited : Decides calls "shell" (entry "limit") 14 1 2 (blocked "too large")
unfolding coerce_pre_tool_result
limited = decides refl refl refl refl

dispatch_pre_tool-blocks_example :
    dispatch_pre_tool calls hooks "shell" 7 0 ≡ (blocked "too large", 2)
dispatch_pre_tool-blocks_example =
    dispatch_pre_tool-blocks calls "shell" hooks (entry "double" ∷ []) (entry "never" ∷ [])
      (entry "limit") 7 0 hooks_listed (modifying doubled refl refl no_hook) limited refl

abbrev said : String → MemoryMessage ℕ
said text = record {
  role = "user";
  content = text;
  name = none;
  tool_calls = none;
  metadata = none;
  content_blocks = none;
}

abbrev memory : Memory ℕ
memory = record {
  messages = (("ann", some "t"), said "one" ∷ said "two" ∷ said "three" ∷ []) ∷ [];
  facts = [];
  summaries = [];
  goals = [];
  session_states = [];
  users = [];
  phase_states = [];
  tool_events = [];
}

get_messages-delete_messages_before_example :
    get_messages "ann" "t" 5 (delete_messages_before "ann" "t" 2 memory).1
    ≡ get_messages "ann" "t" 2 memory
get_messages-delete_messages_before_example =
    get_messages-delete_messages_before "ann" "t" 5 2 memory

view-write_example :
    view "ann" "t" (write "bob" (message "t" (said "four")) memory) ≡ view "ann" "t" memory
view-write_example = view-write "bob" "ann" "t" (message "t" (said "four")) memory refl
