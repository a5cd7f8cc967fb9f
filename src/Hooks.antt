-- ===== src/Hooks.antt =====
-- swarmline/hooks/registry.py: the hooks of an agent, by the event that they listen to. A callback is
-- user code; its type is a parameter.
pub mod Dispatch
pub mod Decisions
pub mod Merging
use swarmline.Base.{
  String, Bool, true, false, Option, none, some, List, [], ◌∷◌, ◌++◌, ◌==◌, if◌then◌else◌,
}
use swarmline.Base.Dict.{Dict, get, put, keys, has}

pub record HookEntry (Callback : Type 0) : Type 0 where
  pub event : String
  pub callback : Callback
  pub matcher : String

-- `_hooks`
abbrev pub HookRegistry : Type 0 → Type 0
HookRegistry Callback = Dict (List (HookEntry Callback))

module _ {Callback : Type 0} where
  abbrev pub or_empty : Option (List (HookEntry Callback)) → List (HookEntry Callback)
  or_empty none = []
  or_empty (some entries) = entries

  unfoldable pub get_hooks : String → HookRegistry Callback → List (HookEntry Callback)
  get_hooks event r = or_empty (get event r)

  unfoldable pub list_events : HookRegistry Callback → List String
  list_events r = keys r

  -- `_add`
  unfoldable pub add_hook :
      String → Callback → String → HookRegistry Callback → HookRegistry Callback
  unfolding get_hooks
  add_hook event callback matcher r =
      let ensured = if has event r then r else put event [] r in
      put event
        (get_hooks event ensured
          ++ record { event = event; callback = callback; matcher = matcher } ∷ [])
        ensured

  unfoldable pub on_pre_tool_use : Callback → String → HookRegistry Callback → HookRegistry Callback
  unfolding add_hook
  on_pre_tool_use callback matcher r = add_hook "PreToolUse" callback matcher r

  unfoldable pub on_post_tool_use :
      Callback → String → HookRegistry Callback → HookRegistry Callback
  unfolding add_hook
  on_post_tool_use callback matcher r = add_hook "PostToolUse" callback matcher r

  unfoldable pub on_stop : Callback → HookRegistry Callback → HookRegistry Callback
  unfolding add_hook
  on_stop callback r = add_hook "Stop" callback "" r

  unfoldable pub on_user_prompt : Callback → HookRegistry Callback → HookRegistry Callback
  unfolding add_hook
  on_user_prompt callback r = add_hook "UserPromptSubmit" callback "" r

  unfoldable pub add_each :
      List (HookEntry Callback) → HookRegistry Callback → HookRegistry Callback
  unfolding add_hook
  add_each [] r = r
  add_each (h ∷ hs) r = add_each hs (add_hook h.event h.callback h.matcher r)

  -- The two loops over `items()`.
  unfoldable pub absorb : HookRegistry Callback → HookRegistry Callback → HookRegistry Callback
  unfolding add_each
  absorb [] r = r
  absorb ((event, entries) ∷ others) r = absorb others (add_each entries r)

  unfoldable pub merge : HookRegistry Callback → HookRegistry Callback → HookRegistry Callback
  unfolding absorb
  merge r other = absorb other (absorb r [])
