-- ===== src/Hooks/Dispatch.antt =====
-- swarmline/hooks/dispatcher.py: the hooks of an event, called in the order of their registration.
-- `World` is what callbacks can change; what a callback does, `fnmatch` and `str` are parameters.
use swarmline.Base.{
  String, Bool, true, false, not, ◌&&◌, Option, none, some, List, [], ◌∷◌, ◌==◌, if◌then◌else◌,
}
use swarmline.Hooks.{HookEntry, HookRegistry, get_hooks}

pub data HookAction : Type 0 where
  allow block modify : HookAction

pub record HookResult (Input : Type 0) : Type 0 where
  pub action : HookAction
  pub modified_input : Option Input
  pub message : Option String

-- What a callback returns, as the coercions tell it apart: the legacy dictionaries by the keys
-- that are read, `continue_` by its truth.
pub record LegacyDict : Type 0 where
  pub decision : Option String
  pub reason : Option String
  pub continue_ : Bool
  pub tool_result : Option String

pub data Returned (Input : Type 0) : Type 0 where
  hook_result : HookResult Input → Returned Input
  text : String → Returned Input
  legacy_dict : LegacyDict → Returned Input
  other : Returned Input
  exception : Returned Input

-- The calls of user code, and of `fnmatch`.
pub record Calls (Callback Input World : Type 0) : Type 0 where
  pub pre_tool : Callback → String → Input → World → Returned Input × World
  pub post_tool : Callback → String → Input → String → World → Returned Input × World
  pub stop : Callback → String → World → Returned Input × World
  pub user_prompt : Callback → String → World → Returned Input × World
  pub fnmatch : String → String → Bool

abbrev pub is_block : Option String → Bool
is_block none = false
is_block (some decision) = decision == "block"

abbrev reason_or_default : Option String → String
reason_or_default none = "Blocked by hook"
reason_or_default (some reason) = reason

module _ {Input : Type 0} where
  abbrev pub allowed : HookResult Input
  allowed = record { action = allow; modified_input = none; message = none }

  abbrev pub blocked : String → HookResult Input
  blocked message = record { action = block; modified_input = none; message = some message }

  abbrev pub modified : Input → HookResult Input
  modified input = record { action = modify; modified_input = some input; message = none }

  -- `_coerce_pre_tool_result`; an exception does not reach it.
  unfoldable pub coerce_pre_tool_result : Returned Input → HookResult Input
  coerce_pre_tool_result (hook_result r) = r
  coerce_pre_tool_result (legacy_dict d) =
      if is_block d.decision then blocked (reason_or_default d.reason) else allowed
  coerce_pre_tool_result (text _) = allowed
  coerce_pre_tool_result other = allowed
  coerce_pre_tool_result exception = allowed

  -- `_coerce_post_tool_result`
  unfoldable pub coerce_post_tool_result : Returned Input → Option String
  coerce_post_tool_result (text output) = some output
  coerce_post_tool_result (legacy_dict d) = if d.continue_ then none else d.tool_result
  coerce_post_tool_result (hook_result _) = none
  coerce_post_tool_result other = none
  coerce_post_tool_result exception = none

abbrev pub is_exception : {Input : Type 0} → Returned Input → Bool
is_exception exception = true
is_exception _ = false

module _ {Callback Input World : Type 0} (calls : Calls Callback Input World) where
  -- `entry.matcher and not fnmatch(tool_name, entry.matcher)`
  abbrev pub skips : String → HookEntry Callback → Bool
  skips tool_name h = not (h.matcher == "") && not (calls.fnmatch tool_name h.matcher)

  abbrev pub settled : Input → Bool → World → HookResult Input × World
  settled input was_modified w = (if was_modified then modified input else allowed, w)

  -- The `for` loop, with `current_input` and `was_modified`.
  unfoldable pub pre_tool_from :
      String → List (HookEntry Callback) → Input → Bool → World → HookResult Input × World
  unfolding coerce_pre_tool_result
  pre_tool_from tool_name [] input was_modified w = settled input was_modified w
  pre_tool_from tool_name (h ∷ hs) input was_modified w = elim (skips tool_name h) [
    | true ↦ pre_tool_from tool_name hs input was_modified w
    | false ↦
        let (returned, w') = calls.pre_tool h.callback tool_name input w in
        elim (is_exception returned) [
          | true ↦ pre_tool_from tool_name hs input was_modified w'
          | false ↦
              let r = coerce_pre_tool_result returned in
              elim r.action [
                | block ↦ (r, w')
                | modify ↦ elim r.modified_input [
                  | some input' ↦ pre_tool_from tool_name hs input' true w'
                  | none ↦ pre_tool_from tool_name hs input was_modified w'
                ]
                | allow ↦ pre_tool_from tool_name hs input was_modified w'
              ]
        ]
  ]

  unfoldable pub dispatch_pre_tool :
      HookRegistry Callback → String → Input → World → HookResult Input × World
  unfolding pre_tool_from
  dispatch_pre_tool r tool_name input w =
      pre_tool_from tool_name (get_hooks "PreToolUse" r) input false w

  abbrev or_else : Option String → Option String → Option String
  or_else none earlier = earlier
  or_else (some output) earlier = some output

  unfoldable pub post_tool_from :
      String
      → List (HookEntry Callback)
      → Input
      → String
      → Option String
      → World
      → Option String × World
  unfolding coerce_post_tool_result
  post_tool_from tool_name [] input output changed w = (changed, w)
  post_tool_from tool_name (h ∷ hs) input output changed w = elim (skips tool_name h) [
    | true ↦ post_tool_from tool_name hs input output changed w
    | false ↦
        let (returned, w') = calls.post_tool h.callback tool_name input output w in
        elim (is_exception returned) [
          | true ↦ post_tool_from tool_name hs input output changed w'
          | false ↦
              post_tool_from tool_name hs input output
                (or_else (coerce_post_tool_result returned) changed) w'
        ]
  ]

  unfoldable pub dispatch_post_tool :
      HookRegistry Callback → String → Input → String → World → Option String × World
  unfolding post_tool_from
  dispatch_post_tool r tool_name input output w =
      post_tool_from tool_name (get_hooks "PostToolUse" r) input output none w

  -- An exception is logged; what is returned is not read.
  unfoldable pub stop_each : List (HookEntry Callback) → String → World → World
  stop_each [] result_text w = w
  stop_each (h ∷ hs) result_text w =
      stop_each hs result_text (calls.stop h.callback result_text w).1

  unfoldable pub dispatch_stop : HookRegistry Callback → String → World → World
  unfolding stop_each
  dispatch_stop r result_text w = stop_each (get_hooks "Stop" r) result_text w

  abbrev pub text_or : Returned Input → String → String
  text_or (text prompt) current = prompt
  text_or _ current = current

  unfoldable pub user_prompt_from : List (HookEntry Callback) → String → World → String × World
  user_prompt_from [] current w = (current, w)
  user_prompt_from (h ∷ hs) current w =
      let (returned, w') = calls.user_prompt h.callback current w in
      user_prompt_from hs (text_or returned current) w'

  unfoldable pub dispatch_user_prompt : HookRegistry Callback → String → World → String × World
  unfolding user_prompt_from
  dispatch_user_prompt r prompt w = user_prompt_from (get_hooks "UserPromptSubmit" r) prompt w
