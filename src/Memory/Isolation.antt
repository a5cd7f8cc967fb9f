-- ===== src/Memory/Isolation.antt =====
-- swarmline/memory/inmemory.py: what one user's calls leave of another user's data.
use swarmline.Base.{
  if-keeps, ℕ, String, Bool, true, false, ◌&&◌, Option, none, some, List, [], ◌∷◌, ◌++◌, ◌==◌, ◌≡◌,
  refl, arith, Bool-cases, inl, inr, eq_iff, leb, length, ◌-◌,
}
use swarmline.Base.Dict.{Dict, put, get-put}
use swarmline.Memory.{
  Scope, same_scope, look, store, Memory, MemoryMessage, SessionState, PhaseState, last, listed,
  messages_of, save_message, get_messages, delete_messages_before, upsert_fact, get_facts,
  save_summary, get_summary, save_goal, get_active_goal, save_session_state, get_session_state,
  save_phase_state, get_phase_state, ensure_user, save_tool_event,
}

left_true : (a b : Bool) → (a && b) ≡ true → a ≡ true
left_true a b h = ground arith

look-store_other {ℓ} :
    {V : Type ℓ} (j k : Scope) (v : V) (t : List (Scope × V))
    → (j.0 == k.0) ≡ false
    → look k (store j v t) ≡ look k t
unfolding look store
look-store_other j k v [] other = rw (look, other) refl
look-store_other j k v ((i, w) ∷ t) other = elim (Bool-cases (same_scope i j)) [
  | inl same ↦
      let user : i.0 ≡ j.0 = (eq_iff i.0 j.0).0 (left_true (i.0 == j.0) _ same) in
      let apart : same_scope i k ≡ false = rw (user, other) refl in
      rw (store, same, look, other, apart) refl
  | inr differs ↦ elim (Bool-cases (same_scope i k)) [
    | inl found ↦ rw (store, differs, look, found) refl
    | inr missed ↦ rw (store, differs, look, missed) (look-store_other j k v t other)
  ]
]

-- A call that writes.
pub data Write (Any : Type 0) : Type 0 where
  message : String → MemoryMessage Any → Write Any
  deletion : String → ℕ → Write Any
  fact : String → Any → Option String → Write Any
  summary : String → String → ℕ → Write Any
  goal : String → Any → Write Any
  session : String → SessionState → Write Any
  phase : String → String → Write Any
  user_added : Write Any
  tool_event : Any → Write Any

-- Everything that queries for a user and a topic answer.
pub record View (Any : Type 0) : Type 0 where
  pub messages : ℕ → List (MemoryMessage Any)
  pub facts : Dict Any
  pub summary : Option String
  pub goal : Option Any
  pub session : Option SessionState
  pub phase : Option PhaseState

module _ {Any : Type 0} where
  unfoldable pub write : String → Write Any → Memory Any → Memory Any
  write user (message topic x) m = save_message user topic x m
  write user (deletion topic keep) m = (delete_messages_before user topic keep m).1
  write user (fact key value topic) m = upsert_fact user key value topic m
  write user (summary topic text covered) m = save_summary user topic text covered m
  write user (goal id x) m = save_goal user id x m
  write user (session topic state) m = save_session_state user topic state m
  write user (phase name notes) m = save_phase_state user name notes m
  write user user_added m = (ensure_user user m).1
  write user (tool_event event) m = save_tool_event user event m

  unfoldable pub view : String → String → Memory Any → View Any
  view user topic m = record {
    messages = λ limit. get_messages user topic limit m;
    facts = get_facts user (some topic) m;
    summary = get_summary user topic m;
    goal = get_active_goal user topic m;
    session = get_session_state user topic m;
    phase = get_phase_state user m;
  }

  view-messages :
      (user t other topic : String) (msgs : List (MemoryMessage Any)) (m : Memory Any)
      → (user == other) ≡ false
      → view other topic (record m { messages = store (user, some t) msgs m.messages })
        ≡ view other topic m
  unfolding view get_messages get_facts get_summary get_active_goal get_session_state
      get_phase_state messages_of
  view-messages user t other topic msgs m h =
      rw (look-store_other (user, some t) (other, some topic) msgs m.messages h) refl

  view-delete :
      (user t other topic : String) (keep : ℕ) (m : Memory Any)
      → (user == other) ≡ false
      → view other topic (delete_messages_before user t keep m).1 ≡ view other topic m
  unfolding delete_messages_before
  view-delete user t other topic keep m h =
      if-keeps (λ (r : ℕ × Memory Any). view other topic r.1 ≡ view other topic m) (leb keep 0)
        (view-messages user t other topic [] m h)
        (if-keeps (λ (r : ℕ × Memory Any). view other topic r.1 ≡ view other topic m)
          (leb (length (messages_of user t m) - keep) 0) refl
          (view-messages user t other topic (last keep (messages_of user t m)) m h))

  -- The calls that write for one user change no answer to the queries of another one.
  pub view-write :
      (user other topic : String) (w : Write Any) (m : Memory Any)
      → (user == other) ≡ false
      → view other topic (write user w m) ≡ view other topic m
  unfolding view write save_message upsert_fact save_summary save_goal save_session_state
      save_phase_state ensure_user save_tool_event get_messages get_facts get_summary
      get_active_goal get_session_state get_phase_state messages_of
  view-write user other topic (message t x) m h =
      view-messages user t other topic (messages_of user t m ++ x ∷ []) m h
  view-write user other topic (deletion t keep) m h = view-delete user t other topic keep m h
  view-write user other topic (fact key value t) m h =
      rw
        (
          look-store_other (user, t) (other, none) (put key value (listed (look (user, t) m.facts)))
              m.facts h,
          look-store_other (user, t) (other, some topic)
              (put key value (listed (look (user, t) m.facts))) m.facts h,
        )
        refl
  view-write user other topic (summary t text covered) m h =
      rw (look-store_other (user, some t) (other, some topic) text m.summaries h) refl
  view-write user other topic (goal id x) m h =
      rw (look-store_other (user, some id) (other, some topic) x m.goals h) refl
  view-write user other topic (session t state) m h =
      rw (look-store_other (user, some t) (other, some topic) state m.session_states h) refl
  view-write user other topic (phase name notes) m h =
      rw
        (
          get-put user other (record { user_id = user; phase = name; notes = notes })
              m.phase_states,
          h,
        )
        refl
  view-write user other topic user_added m h = refl
  view-write user other topic (tool_event event) m h = refl
