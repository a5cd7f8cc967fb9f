-- ===== src/Plan/Store.antt =====
-- swarmline/orchestration/plan_store.py: `InMemoryPlanStore`, with plans scoped by user and topic.
use swarmline.Base.{
  String, Bool, true, false, not, ◌&&◌, ◌||◌, Option, none, some, List, [], ◌∷◌, ◌==◌,
  if◌then◌else◌,
}
use swarmline.Base.Dict.{Dict, get, put, values}
use swarmline.Plan
use swarmline.Plan.{Plan, PlanStep}

pub record PlanStore (Datetime : Type 0) : Type 0 where
  pub plans : Dict (Plan Datetime)
  pub ownership : Dict (String × String)
  pub ns_user : String
  pub ns_topic : String

-- `(not user or owner[0] == user) and (not topic or owner[1] == topic)`
abbrev pub owner_fits : String → String → String × String → Bool
owner_fits user topic owner =
    ((user == "") || (owner.0 == user)) && ((topic == "") || (owner.1 == topic))

abbrev pub owner_or : Option (String × String) → String × String
owner_or none = ("", "")
owner_or (some owner) = owner

module _ {Datetime : Type 0} where
  unfoldable pub new_store : PlanStore Datetime
  new_store = record { plans = []; ownership = []; ns_user = ""; ns_topic = "" }

  unfoldable pub set_namespace : String → String → PlanStore Datetime → PlanStore Datetime
  set_namespace user topic s = record s { ns_user = user; ns_topic = topic }

  abbrev pub has_namespace : PlanStore Datetime → Bool
  has_namespace s = not (s.ns_user == "") || not (s.ns_topic == "")

  unfoldable pub save : Plan Datetime → PlanStore Datetime → PlanStore Datetime
  save plan s = record s {
    plans = put plan.id plan s.plans;
    ownership =
        (if has_namespace s then put plan.id (s.ns_user, s.ns_topic) s.ownership else s.ownership);
  }

  unfoldable pub namespace_matches : String → PlanStore Datetime → Bool
  namespace_matches plan_id s =
      if not (has_namespace s) then true else elim (get plan_id s.ownership) [
        | none ↦ false
        | some owner ↦ owner_fits s.ns_user s.ns_topic owner
      ]

  unfoldable pub load : String → PlanStore Datetime → Option (Plan Datetime)
  unfolding namespace_matches
  load plan_id s = elim (get plan_id s.plans) [
    | none ↦ none
    | some plan ↦ if namespace_matches plan_id s then some plan else none
  ]

  abbrev pub owned :
      String → String → Dict (String × String) → Dict (Plan Datetime) → List (Plan Datetime)
  owned user topic ownership [] = []
  owned user topic ownership ((plan_id, plan) ∷ plans) =
      let rest = owned user topic ownership plans in
      if owner_fits user topic (owner_or (get plan_id ownership)) then plan ∷ rest else rest

  unfoldable pub list_plans : String → String → PlanStore Datetime → List (Plan Datetime)
  list_plans user topic s =
      if (user == "") && (topic == "") then values s.plans else owned user topic s.ownership s.plans

  -- A step that the plan lacks is logged and changes nothing.
  unfoldable pub update_stored : String → PlanStep → PlanStore Datetime → PlanStore Datetime
  update_stored plan_id step s = elim (get plan_id s.plans) [
    | none ↦ s
    | some plan ↦ elim (Plan.update_step step plan) [
      | none ↦ s
      | some updated ↦ record s { plans = put plan_id updated s.plans }
    ]
  ]
