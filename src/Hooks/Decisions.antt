-- ===== src/Hooks/Decisions.antt =====
-- swarmline/hooks/dispatcher.py: the decision on a tool call, against the hooks taken one by one.
use swarmline.Base.{
  String, Bool, true, false, some, List, [], ◌∷◌, ◌++◌, ◌≡◌, refl, sym, ap, append-nil, ◌∙◌,
}
use swarmline.Hooks.{HookEntry, HookRegistry, get_hooks}
use swarmline.Hooks.Dispatch.{
  Calls, HookResult, block, modify, allow, is_exception, skips, settled, coerce_pre_tool_result,
  pre_tool_from, dispatch_pre_tool,
}

module _ {Callback Input World : Type 0} (calls : Calls Callback Input World)
    (tool_name : String) where
  -- The hook is called with the input and returns what is coerced to the result.
  pub data Decides (h : HookEntry Callback) (input : Input) (w w' : World) (r : HookResult Input)
      : Type 0 where
    decides :
        skips calls tool_name h ≡ false
        → is_exception (calls.pre_tool h.callback tool_name input w).0 ≡ false
        → coerce_pre_tool_result (calls.pre_tool h.callback tool_name input w).0 ≡ r
        → (calls.pre_tool h.callback tool_name input w).1 ≡ w'
        → Decides h input w w' r

  -- Hooks that let the call pass: one that does not match the tool is not called, one that raises
  -- changes nothing, one that allows changes nothing, one that modifies gives the next its input.
  pub data Passes
      : List (HookEntry Callback) → Input → Bool → World → Input → Bool → World → Type 0 where
    no_hook : {i : Input} {m : Bool} {w : World} → Passes [] i m w i m w
    unmatched :
        {h : HookEntry Callback} {hs : List (HookEntry Callback)} {i i' : Input} {m m' : Bool}
        {w w' : World}
        → skips calls tool_name h ≡ true
        → Passes hs i m w i' m' w'
        → Passes (h ∷ hs) i m w i' m' w'
    raising :
        {h : HookEntry Callback} {hs : List (HookEntry Callback)} {i i' : Input} {m m' : Bool}
        {w w₁ w' : World}
        → skips calls tool_name h ≡ false
        → is_exception (calls.pre_tool h.callback tool_name i w).0 ≡ true
        → (calls.pre_tool h.callback tool_name i w).1 ≡ w₁
        → Passes hs i m w₁ i' m' w'
        → Passes (h ∷ hs) i m w i' m' w'
    allowing :
        {h : HookEntry Callback} {hs : List (HookEntry Callback)} {r : HookResult Input}
        {i i' : Input} {m m' : Bool} {w w₁ w' : World}
        → Decides h i w w₁ r
        → r.action ≡ allow
        → Passes hs i m w₁ i' m' w'
        → Passes (h ∷ hs) i m w i' m' w'
    modifying :
        {h : HookEntry Callback} {hs : List (HookEntry Callback)} {r : HookResult Input}
        {i i₁ i' : Input} {m m' : Bool} {w w₁ w' : World}
        → Decides h i w w₁ r
        → r.action ≡ modify
        → r.modified_input ≡ some i₁
        → Passes hs i₁ true w₁ i' m' w'
        → Passes (h ∷ hs) i m w i' m' w'

  pre_tool_from-Passes :
      {pre : List (HookEntry Callback)} (rest : List (HookEntry Callback)) {i i' : Input}
      {m m' : Bool} {w w' : World}
      → Passes pre i m w i' m' w'
      → pre_tool_from calls tool_name (pre ++ rest) i m w
        ≡ pre_tool_from calls tool_name rest i' m' w'
  unfolding pre_tool_from
  pre_tool_from-Passes rest no_hook = refl
  pre_tool_from-Passes rest (unmatched skip more) =
      rw (pre_tool_from, skip) (pre_tool_from-Passes rest more)
  pre_tool_from-Passes rest (raising on raised left more) =
      rw (pre_tool_from, on, raised, left) (pre_tool_from-Passes rest more)
  pre_tool_from-Passes rest (allowing (decides on fine coerced left) allows more) =
      rw (pre_tool_from, on, fine, ap (λ (r : HookResult Input). r.action) coerced ∙ allows, left)
        (pre_tool_from-Passes rest more)
  pre_tool_from-Passes rest (modifying (decides on fine coerced left) modifies new more) =
      rw
        (
          pre_tool_from,
          on,
          fine,
          ap (λ (r : HookResult Input). r.action) coerced ∙ modifies,
          ap (λ (r : HookResult Input). r.modified_input) coerced ∙ new,
          left,
        )
        (pre_tool_from-Passes rest more)

  pre_tool_from-Decides :
      (h : HookEntry Callback) (hs : List (HookEntry Callback)) (m : Bool) {i : Input}
      {w w' : World} {r : HookResult Input}
      → Decides h i w w' r
      → r.action ≡ block
      → pre_tool_from calls tool_name (h ∷ hs) i m w ≡ (r, w')
  unfolding pre_tool_from
  pre_tool_from-Decides h hs m {w'} (decides on fine coerced left) blocks =
      rw (pre_tool_from, on, fine, ap (λ (r : HookResult Input). r.action) coerced ∙ blocks, left)
        (ap (λ (r : HookResult Input). (r, w')) coerced)

  -- When the first hooks for tool calls let the call pass and the next one blocks it, the result is
  -- this block, and no later hook is called.
  pub dispatch_pre_tool-blocks :
      (registry : HookRegistry Callback) (pre rest : List (HookEntry Callback))
      (h : HookEntry Callback) (input : Input) (w : World) {i' : Input} {m' : Bool} {w₁ w₂ : World}
      {r : HookResult Input}
      → get_hooks "PreToolUse" registry ≡ pre ++ h ∷ rest
      → Passes pre input false w i' m' w₁
      → Decides h i' w₁ w₂ r
      → r.action ≡ block
      → dispatch_pre_tool calls registry tool_name input w ≡ (r, w₂)
  unfolding dispatch_pre_tool pre_tool_from
  dispatch_pre_tool-blocks registry pre rest h input w listed passes decision blocks =
      rw (dispatch_pre_tool, listed)
        (pre_tool_from-Passes (h ∷ rest) passes ∙ pre_tool_from-Decides h rest _ decision blocks)

  -- When all hooks for tool calls let the call pass, the result modifies the input to what they make
  -- of it one after another if one of them has modified it, and otherwise it allows the call.
  pub dispatch_pre_tool-Passes :
      (registry : HookRegistry Callback) (input : Input) (w : World) {i' : Input} {m' : Bool}
      {w' : World}
      → Passes (get_hooks "PreToolUse" registry) input false w i' m' w'
      → dispatch_pre_tool calls registry tool_name input w ≡ settled calls i' m' w'
  unfolding dispatch_pre_tool pre_tool_from
  dispatch_pre_tool-Passes registry input w passes =
      ap (λ (l : List (HookEntry Callback)). pre_tool_from calls tool_name l input false w)
        (sym (append-nil (get_hooks "PreToolUse" registry)))
      ∙ pre_tool_from-Passes [] passes
