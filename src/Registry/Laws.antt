-- ===== src/Registry/Laws.antt =====
-- The registry as a finite map: what every operation does to every key.
use swarmline.Base.{
  String, ◌≡◌, refl, ◌⊎◌, inl, inr, Bool-cases, Bool, true, false, ◌&&◌, Option, none, some, List,
  [], ◌∷◌, ◌==◌, if◌then◌else◌, arith, eq_iff, select, is_at, is_some, Option-cases, ap, sym, ◌∙◌,
}
use mathlib.Core.Bool.{decide}
use mathlib.Core.Path.{fun_ext}
use swarmline.Base.Dict.{Dict, get, put, values, get-put, get-remove}
use swarmline.Registry.{
  AgentStatus, AgentStatus-discrete, AgentRecord, AgentFilter, register, get_agent, list_agents,
  update_status, remove_agent, narrow,
}

-- `field is None or test(field)`
abbrev pub fits : {F : Type 0} → Option F → (F → Bool) → Bool
fits none test = true
fits (some f) test = test f

select-all : {R : Type 0} (xs : List R) → select (λ x. true) xs ≡ xs
select-all [] = refl
select-all (x ∷ xs) = ap (λ (ys : List _). x ∷ ys) (select-all xs)

narrow-select :
    {F R : Type 0} (o : Option F) (test : F → R → Bool) (xs : List R)
    → narrow o test xs ≡ select (λ r. fits o (λ f. test f r)) xs
narrow-select none test xs = sym (select-all xs)
narrow-select (some f) test xs = refl

regroup : (a b c : Bool) → ((a && b) && c) ≡ (a && (b && c))
regroup true b c = refl
regroup false b c = refl

module _ {Any : Type 0} where
  -- `register` fails exactly for an id that is taken; when it succeeds, the record is found under its
  -- id and every other id has what it had.
  pub register_lem :
      (r : AgentRecord Any) (agents : Dict (AgentRecord Any)) (j : String)
      → ((register r agents ≡ none) × (is_some (get_agent r.id agents) ≡ true))
        ⊎ ((agents' : Dict (AgentRecord Any)) × (register r agents ≡ some agents')
            × (get_agent r.id agents ≡ none)
            × (get_agent j agents' ≡ (if r.id == j then some r else get_agent j agents)))
  unfolding register get_agent
  register_lem r agents j = elim (Option-cases (get r.id agents)) [
    | inl free ↦ inr (put r.id r agents, rw free refl, free, get-put r.id j r agents)
    | inr (old, taken) ↦ inl (rw taken refl, rw taken refl)
  ]

  abbrev pub with_status : AgentStatus → Option (AgentRecord Any) → Option (AgentRecord Any)
  with_status status none = none
  with_status status (some r) = some (record r { status = status })

  -- `update_status` answers whether the id is registered, changes the status of that record and
  -- nothing else of it, and no other record; `remove` answers the same and takes only that id out.
  pub update_remove_lem :
      (id j : String) (status : AgentStatus) (agents : Dict (AgentRecord Any))
      → ((update_status id status agents).0 ≡ is_some (get_agent id agents))
        × (get_agent j (update_status id status agents).1
            ≡ (if id == j then with_status status (get_agent j agents) else get_agent j agents))
        × ((remove_agent id agents).0 ≡ is_some (get_agent id agents))
        × (get_agent j (remove_agent id agents).1 ≡ (if id == j then none else get_agent j agents))
  unfolding update_status remove_agent get_agent
  update_remove_lem id j status agents = elim (Option-cases (get id agents)) [
    | inl missing ↦ (
      rw (missing, update_status) refl,
      rw (missing, update_status) (at_missing j missing),
      rw (missing, remove_agent) refl,
      rw (missing, remove_agent) (ground (arith, eq_iff id j, missing, ap_get j)),
    )
    | inr (r, found) ↦ (
      rw (found, update_status) refl,
      rw (found, update_status)
          (ground (
            arith,
            get-put id j (record r { status = status }) agents,
            eq_iff id j,
            found,
            ap_get j,
          )),
      rw (found, remove_agent) refl,
      rw (found, remove_agent) (get-remove id j agents),
    )
  ]
    where
      ap_get : (k : String) → id ≡ k → get id agents ≡ get k agents
      ap_get k e = ap (λ (x : String). get x agents) e

      at_missing :
          (k : String)
          → get id agents ≡ none
          → get k agents ≡ (if id == k then with_status status (get k agents) else get k agents)
      at_missing k missing = ground (arith, eq_iff id k, missing, ap_get k)

  select-select :
      (p q : AgentRecord Any → Bool) (xs : List (AgentRecord Any))
      → select p (select q xs) ≡ select (λ x. q x && p x) xs
  select-select p q [] = refl
  select-select p q (x ∷ xs) = elim (Bool-cases (q x)) [
    | inl yes_q ↦ rw (yes_q, select-select p q xs) refl
    | inr no_q ↦ rw (no_q, select-select p q xs) refl
  ]

  abbrev pub passes : AgentFilter → AgentRecord Any → Bool
  passes f r =
      fits f.role (λ role. r.role == role)
      && (fits f.status (λ s. decide (AgentStatus-discrete r.status s))
          && fits f.parent_id (λ p. is_at r.parent_id p))

  -- A record is listed under a filter exactly if it passes each field that the filter sets.
  pub list_agents_lem :
      (f : AgentFilter) (agents : Dict (AgentRecord Any))
      → list_agents (some f) agents ≡ select (λ r. passes f r) (values agents)
  unfolding list_agents
  list_agents_lem f agents =
      let by_role = λ (r : AgentRecord Any). fits f.role (λ role. r.role == role) in
      let by_status =
        λ (r : AgentRecord Any). fits f.status (λ s. decide (AgentStatus-discrete r.status s)) in
      let by_parent = λ (r : AgentRecord Any). fits f.parent_id (λ p. is_at r.parent_id p) in
      rw (narrow-select f.role, narrow-select f.status, narrow-select f.parent_id)
        (ap (select by_parent) (select-select by_status by_role (values agents))
          ∙ select-select by_parent (λ r. by_role r && by_status r) (values agents)
          ∙ ap (λ (test : AgentRecord Any → Bool). select test (values agents))
              (fun_ext (λ r. regroup (by_role r) (by_status r) (by_parent r))))
