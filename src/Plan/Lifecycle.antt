-- ===== src/Plan/Lifecycle.antt =====
-- The life of a plan: a plan that is executing or completed was approved.
use swarmline.Base.{
  String, ◌≡◌, refl, Bool, true, Option, none, some, List, [], ◌∷◌, ◌==◌, arith, eq_iff, is_some,
  sym, ap, ◌∙◌, ◌||◌, elem, if◌then◌else◌, Bool-cases, Option-cases, inl, inr,
}
use mathlib.Core.Path.{ap₂}
use swarmline.Plan.{
  Plan, PlanStep, Steps, no_steps, step_then, fields_of, approve, start_execution, mark_completed,
  cancel, update_step, replace_step,
}

pub data Action : Type 0 where
  approve_by : String → Action
  start complete cancel_plan : Action
  update : PlanStep → Action

-- The statuses that come after an approval.
abbrev pub past_approval : String → Bool
past_approval s = (s == "approved") || ((s == "executing") || (s == "completed"))

module _ {Datetime : Type 0} where
  pub act : Action → Plan Datetime → Option (Plan Datetime)
  act (approve_by by) p = approve by p
  act start p = start_execution p
  act complete p = mark_completed p
  act cancel_plan p = some (cancel p)
  act (update s) p = update_step s p

  -- Actions one after the other; one that raises leaves the plan as it is.
  pub acts : List Action → Plan Datetime → Plan Datetime
  acts [] p = p
  acts (a ∷ later) p = elim (act a p) [ none ↦ acts later p | some q ↦ acts later q ]

  -- A plan whose status comes after an approval names who approved it.
  pub record IsApproved (p : Plan Datetime) : Type 0 where
    pub approval : past_approval p.status ≡ true → is_some p.approved_by ≡ true

  act-IsApproved :
      (a : Action) (p q : Plan Datetime) → IsApproved p → act a p ≡ some q → IsApproved q
  unfolding act approve start_execution mark_completed cancel update_step
  act-IsApproved (approve_by by) p q h e = record { approval = λ _. ground arith }
  act-IsApproved start p q h e = record {
    approval = λ _. ground (arith, h.approval (ground (arith, eq_iff p.status "approved")));
  }
  act-IsApproved complete p q h e = record {
    approval = λ _. ground (arith, h.approval (ground (arith, eq_iff p.status "executing")));
  }
  act-IsApproved cancel_plan p q h e = record {
    approval = λ later.
        let now : "cancelled" ≡ q.status = ground arith in
        absurd (cc (ap past_approval now, later));
  }
  act-IsApproved (update s) p q h e = record {
    approval = λ later.
        let same : p.status ≡ q.status = ground arith in
        let by : p.approved_by ≡ q.approved_by = ground arith in
        ap is_some (sym by) ∙ h.approval (ap past_approval same ∙ later);
  }

  -- Whatever actions follow, a plan that starts as a draft (or satisfies the same condition) never
  -- has the status approved, executing or completed without naming who approved it.
  pub acts-IsApproved :
      (as_given : List Action) (p : Plan Datetime) → IsApproved p → IsApproved (acts as_given p)
  unfolding acts
  acts-IsApproved [] p h = h
  acts-IsApproved (a ∷ later) p h = elim (Option-cases (act a p)) [
    | inl raised ↦ rw (acts, raised) (acts-IsApproved later p h)
    | inr (q, done) ↦ rw (acts, done) (acts-IsApproved later q (act-IsApproved a p q h done))
  ]

-- The ids of the top-level steps.
abbrev pub ids : Steps → List String
ids no_steps = []
ids (step_then s rest) = (fields_of s).id ∷ ids rest

replace_step-ids :
    (updated : PlanStep) (steps : Steps) → ids (replace_step updated steps).0 ≡ ids steps
unfolding replace_step
replace_step-ids updated no_steps = refl
replace_step-ids updated (step_then s rest) =
    elim (Bool-cases ((fields_of s).id == (fields_of updated).id)) [
      | inl same ↦
          rw (same, replace_step)
            (ap₂ (λ (x : String) (xs : List String). x ∷ xs)
              (sym ((eq_iff (fields_of s).id (fields_of updated).id).0 same))
              (replace_step-ids updated rest))
      | inr other ↦
          rw (other, replace_step)
            (ap (λ (xs : List String). (fields_of s).id ∷ xs) (replace_step-ids updated rest))
    ]

replace_step-found :
    (updated : PlanStep) (steps : Steps)
    → (replace_step updated steps).1 ≡ elem (fields_of updated).id (ids steps)
unfolding replace_step
replace_step-found updated no_steps = refl
replace_step-found updated (step_then s rest) = ground (arith, replace_step-found updated rest)

abbrev pub ids_after : {Datetime : Type 0} → Option (Plan Datetime) → Option (List String)
ids_after none = none
ids_after (some q) = some (ids q.steps)

-- `update_step` succeeds exactly if a top-level step has the id, and the plan that it returns has the
-- ids of the given plan, in their order.
pub update_step_lem :
    {Datetime : Type 0} (updated : PlanStep) (p : Plan Datetime)
    → ids_after (update_step updated p)
      ≡ (if elem (fields_of updated).id (ids p.steps) then some (ids p.steps) else none)
unfolding update_step
update_step_lem updated p =
    rw (sym (replace_step-found updated p.steps))
      (elim (Bool-cases (replace_step updated p.steps).1) [
        | inl found ↦ rw found (ap some (replace_step-ids updated p.steps))
        | inr missing ↦ rw missing refl
      ])
