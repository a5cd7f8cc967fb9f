-- ===== src/Plan/StoreLaws.antt =====
-- Which tenant sees and changes which plan.
use swarmline.Base.{
  String, ◌≡◌, refl, ◌≢◌, ◌⊎◌, inl, inr, sym, ◌∙◌, true, false, none, some, ◌==◌, ◌||◌,
  if◌then◌else◌, arith, eq_iff, Bool-cases,
}
use swarmline.Base.Dict.{get-put_self}
use swarmline.Plan.{Plan, PlanStep}
use swarmline.Plan.Store.{PlanStore, save, load, set_namespace, update_stored, owner_fits}

-- A name that is asked for and left open, or that is the owner's.
abbrev pub Allows : String → String → Type 0
Allows asked owned = (asked ≡ "") ⊎ (asked ≡ owned)

test-Allows :
    (asked owned : String) → ((asked == "") || (owned == asked)) ≡ true → Allows asked owned
test-Allows asked owned h = elim (Bool-cases (asked == "")) [
  | inl blank ↦ inl ((eq_iff asked "").0 blank)
  | inr named ↦ inr (sym ((eq_iff owned asked).0 (ground arith)))
]

Allows-test :
    (asked owned : String) → Allows asked owned → ((asked == "") || (owned == asked)) ≡ true
Allows-test asked owned (inl blank) = ground (arith, (eq_iff asked "").1 blank)
Allows-test asked owned (inr same) = ground (arith, (eq_iff owned asked).1 (sym same))

module _ {Datetime : Type 0} where
  load-save_fits :
      (plan : Plan Datetime) (user topic reader reader_topic : String) (s : PlanStore Datetime)
      → (user == "") ≡ false
      → load plan.id (set_namespace reader reader_topic (save plan (set_namespace user topic s)))
        ≡ (if owner_fits reader reader_topic (user, topic) then some plan else none)
  unfolding load save set_namespace
  load-save_fits plan user topic reader reader_topic s named =
      ground
        (arith, get-put_self plan.id plan s.plans, get-put_self plan.id (user, topic) s.ownership)

  -- A plan that was saved in the namespace of a user is found by `load` from any namespace if
  -- the user that this namespace names is that user, or it names no user, and likewise for the
  -- topic; otherwise `load` finds nothing.
  pub load-save :
      (plan : Plan Datetime) (user topic reader reader_topic : String) (s : PlanStore Datetime)
      → user ≢ ""
      → (Allows reader user
          → Allows reader_topic topic
          → load plan.id
              (set_namespace reader reader_topic (save plan (set_namespace user topic s)))
            ≡ some plan)
        × (¬ (Allows reader user × Allows reader_topic topic)
            → load plan.id
                (set_namespace reader reader_topic (save plan (set_namespace user topic s)))
              ≡ none)
  load-save plan user topic reader reader_topic s named =
      let unnamed : (user == "") ≡ false = ground (arith, eq_iff user "") in
      let found = load-save_fits plan user topic reader reader_topic s unnamed in
      (
        λ of_user of_topic.
            found
            ∙ ground
                (arith, Allows-test reader user of_user, Allows-test reader_topic topic of_topic),
        λ foreign. elim (Bool-cases (owner_fits reader reader_topic (user, topic))) [
          | inl fits ↦ absurd (
              foreign (
                test-Allows reader user (ground arith),
                test-Allows reader_topic topic (ground arith),
              ))
          | inr not_fits ↦ found ∙ rw not_fits refl
        ],
      )

  -- `update_step` of the store never asks for the namespace: from any namespace it has the effect on
  -- the stored plans that it has from any other.
  pub update_stored_any_namespace :
      (id : String) (step : PlanStep) (user topic : String) (s : PlanStore Datetime)
      → update_stored id step (set_namespace user topic s)
        ≡ set_namespace user topic (update_stored id step s)
  unfolding update_stored set_namespace
  update_stored_any_namespace id step user topic s = ground arith
