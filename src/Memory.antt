-- ===== src/Memory.antt =====
-- swarmline/memory/inmemory.py: the memory provider that keeps everything in the process. `Any` is the
-- type of values whose fields the provider does not read: facts, tool calls, metadata, goals. A
-- negative `limit` or `keep_last` acts as zero. Each method is one step.
pub mod Messages
pub mod Isolation
use swarmline.Base.{
  ℕ, zero, suc, ◌+◌, ◌-◌, String, Bool, true, false, not, ◌&&◌, Option, none, some, List, [], ◌∷◌,
  ◌++◌, ◌==◌, if◌then◌else◌, leb, length, elem,
}
use swarmline.Base.Dict.{Dict, get, put}

-- `(user_id, topic_id)`; `none` stands for no topic.
abbrev pub Scope : Type 0
Scope = String × Option String

-- A dictionary over such pairs.
abbrev pub Table : Type 0 → Type 0
Table V = List (Scope × V)

abbrev pub same_topic : Option String → Option String → Bool
same_topic none none = true
same_topic none (some t) = false
same_topic (some t) none = false
same_topic (some t) (some u) = t == u

abbrev pub same_scope : Scope → Scope → Bool
same_scope a b = a.0 == b.0 && same_topic a.1 b.1

unfoldable pub look {ℓ} : {V : Type ℓ} → Scope → List (Scope × V) → Option V
look k [] = none
look k ((j, v) ∷ t) = if same_scope j k then some v else look k t

unfoldable pub store {ℓ} : {V : Type ℓ} → Scope → V → List (Scope × V) → List (Scope × V)
store k v [] = (k, v) ∷ []
store k v ((j, w) ∷ t) = if same_scope j k then (k, v) ∷ t else (j, w) ∷ store k v t

pub record MemoryMessage (Any : Type 0) : Type 0 where
  pub role : String
  pub content : String
  pub name : Option String
  pub tool_calls : Option (List Any)
  pub metadata : Option (Dict Any)
  pub content_blocks : Option (List Any)

pub record SessionState : Type 0 where
  pub role_id : String
  pub active_skill_ids : List String
  pub prompt_hash : String
  pub delegated_from : Option String
  pub delegation_turn_count : ℕ
  pub pending_delegation : Option String
  pub delegation_summary : Option String

pub record PhaseState : Type 0 where
  pub user_id : String
  pub phase : String
  pub notes : String

pub record ToolEvent (Any : Type 0) : Type 0 where
  pub user_id : String
  pub event : Any

pub record Memory (Any : Type 0) : Type 0 where
  pub messages : Table (List (MemoryMessage Any))
  pub facts : Table (Dict Any)
  pub summaries : Table String
  pub goals : Table Any
  pub session_states : Table SessionState
  pub users : List String
  pub phase_states : Dict PhaseState
  pub tool_events : List (ToolEvent Any)

-- `msgs[-n:]` for a positive `n`
abbrev pub drop {ℓ} : {A : Type ℓ} → ℕ → List A → List A
drop zero xs = xs
drop (suc n) [] = []
drop (suc n) (x ∷ xs) = drop n xs

abbrev pub last {ℓ} : {A : Type ℓ} → ℕ → List A → List A
last n xs = drop (length xs - n) xs

abbrev pub listed {ℓ} : {A : Type ℓ} → Option (List A) → List A
listed none = []
listed (some xs) = xs

-- `result.update(facts)`
abbrev pub update : {Any : Type 0} → Dict Any → Dict Any → Dict Any
update d [] = d
update d ((k, v) ∷ more) = update (put k v d) more

module _ {Any : Type 0} where
  -- The list of a scope; looking at one that is missing adds an empty list, which no method tells
  -- from a missing one.
  unfoldable pub messages_of : String → String → Memory Any → List (MemoryMessage Any)
  messages_of user topic m = listed (look (user, some topic) m.messages)

  unfoldable pub save_message : String → String → MemoryMessage Any → Memory Any → Memory Any
  unfolding messages_of
  save_message user topic message m = record m {
    messages = store (user, some topic) (messages_of user topic m ++ message ∷ []) m.messages;
  }

  unfoldable pub get_messages : String → String → ℕ → Memory Any → List (MemoryMessage Any)
  unfolding messages_of
  get_messages user topic limit m =
      if leb limit 0 then [] else last limit (messages_of user topic m)

  unfoldable pub count_messages : String → String → Memory Any → ℕ
  unfolding messages_of
  count_messages user topic m = length (messages_of user topic m)

  unfoldable pub delete_messages_before : String → String → ℕ → Memory Any → ℕ × Memory Any
  unfolding messages_of
  delete_messages_before user topic keep_last m =
      let msgs = messages_of user topic m in
      let to_delete = length msgs - keep_last in
      if leb keep_last 0
      then (length msgs, record m { messages = store (user, some topic) [] m.messages })
      else if leb to_delete 0
      then (to_delete, m)
      else (
        to_delete,
        record m { messages = store (user, some topic) (last keep_last msgs) m.messages },
      )

  unfoldable pub upsert_fact : String → String → Any → Option String → Memory Any → Memory Any
  upsert_fact user key value topic m = record m {
    facts = store (user, topic) (put key value (listed (look (user, topic) m.facts))) m.facts;
  }

  -- `if topic_id`
  abbrev with_topic : String → Option String → Memory Any → Dict Any → Dict Any
  with_topic user none m result = result
  with_topic user (some topic) m result =
      if topic == "" then result else update result (listed (look (user, some topic) m.facts))

  unfoldable pub get_facts : String → Option String → Memory Any → Dict Any
  get_facts user topic m = with_topic user topic m (update [] (listed (look (user, none) m.facts)))

  unfoldable pub save_summary : String → String → String → ℕ → Memory Any → Memory Any
  save_summary user topic summary messages_covered m = record m {
    summaries = store (user, some topic) summary m.summaries;
  }

  unfoldable pub get_summary : String → String → Memory Any → Option String
  get_summary user topic m = look (user, some topic) m.summaries

  unfoldable pub ensure_user : String → Memory Any → String × Memory Any
  ensure_user id m = (id, record m { users = if elem id m.users then m.users else id ∷ m.users })

  -- The goal is stored under its `goal_id`.
  unfoldable pub save_goal : String → String → Any → Memory Any → Memory Any
  save_goal user goal_id goal m = record m { goals = store (user, some goal_id) goal m.goals }

  unfoldable pub get_active_goal : String → String → Memory Any → Option Any
  get_active_goal user topic m = look (user, some topic) m.goals

  unfoldable pub save_session_state : String → String → SessionState → Memory Any → Memory Any
  save_session_state user topic state m = record m {
    session_states = store (user, some topic) state m.session_states;
  }

  unfoldable pub get_session_state : String → String → Memory Any → Option SessionState
  get_session_state user topic m = look (user, some topic) m.session_states

  unfoldable pub save_phase_state : String → String → String → Memory Any → Memory Any
  save_phase_state user phase notes m = record m {
    phase_states =
        put user (record { user_id = user; phase = phase; notes = notes }) m.phase_states;
  }

  unfoldable pub get_phase_state : String → Memory Any → Option PhaseState
  get_phase_state user m = get user m.phase_states

  -- The deque keeps the last 10000.
  unfoldable pub save_tool_event : String → Any → Memory Any → Memory Any
  save_tool_event user event m = record m {
    tool_events = last 10000 (m.tool_events ++ record { user_id = user; event = event } ∷ []);
  }
