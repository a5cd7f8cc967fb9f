-- ===== src/Registry.antt =====
-- swarmline/multi_agent/agent_registry.py and registry_types.py: `InMemoryAgentRegistry`. Each method
-- holds the lock throughout, so it is one step of the dictionary.
pub mod Laws
use mathlib.Core.Bool.{decide}
use swarmline.Base.{
  ℕ, String, Bool, true, false, ◌&&◌, Option, none, some, List, [], ◌∷◌, ◌==◌, if◌then◌else◌,
  select, is_at, is_some,
}
use swarmline.Base.Dict.{Dict, get, put, remove, values}

pub data AgentStatus : Type 0 where
  idle running stopped : AgentStatus

pub AgentStatus-discrete : Discrete AgentStatus
AgentStatus-discrete = hlevel

pub record AgentRecord (Any : Type 0) : Type 0 where
  pub id : String
  pub name : String
  pub role : String
  pub parent_id : Option String
  pub runtime_name : String
  pub runtime_config : Dict Any
  pub status : AgentStatus
  pub budget_limit_usd : Option ℕ
  pub metadata : Dict Any

pub record AgentFilter : Type 0 where
  pub role : Option String
  pub status : Option AgentStatus
  pub parent_id : Option String

-- `if field is not None: result = [r for r in result if test(field, r)]`
abbrev pub narrow {ℓ κ} : {F : Type ℓ} {R : Type κ} → Option F → (F → R → Bool) → List R → List R
narrow none test rs = rs
narrow (some f) test rs = select (test f) rs

module _ {Any : Type 0} where
  -- `none` stands for the `ValueError` of an id that is registered.
  unfoldable pub register :
      AgentRecord Any → Dict (AgentRecord Any) → Option (Dict (AgentRecord Any))
  register r agents = if is_some (get r.id agents) then none else some (put r.id r agents)

  unfoldable pub get_agent : String → Dict (AgentRecord Any) → Option (AgentRecord Any)
  get_agent id agents = get id agents

  unfoldable pub list_agents : Option AgentFilter → Dict (AgentRecord Any) → List (AgentRecord Any)
  list_agents none agents = values agents
  list_agents (some f) agents =
      narrow f.parent_id (λ p r. is_at r.parent_id p)
        (narrow f.status (λ s r. decide (AgentStatus-discrete r.status s))
          (narrow f.role (λ role r. r.role == role) (values agents)))

  unfoldable pub update_status :
      String → AgentStatus → Dict (AgentRecord Any) → Bool × Dict (AgentRecord Any)
  update_status id status agents = elim (get id agents) [
    | none ↦ (false, agents)
    | some r ↦ (true, put id (record r { status = status }) agents)
  ]

  unfoldable pub remove_agent : String → Dict (AgentRecord Any) → Bool × Dict (AgentRecord Any)
  remove_agent id agents =
      if is_some (get id agents) then (true, remove id agents) else (false, agents)
