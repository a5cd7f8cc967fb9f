-- ===== src/TaskBoard/Propagation.antt =====
-- `_propagate_parent`: the walk up the parent links.
use swarmline.Base.{
  ℕ, zero, suc, ◌<◌, String, ◌≡◌, ◌≢◌, refl, ap, ◌⊎◌, inl, inr, Bool, true, false, Option, none,
  some, List, [], ◌∷◌, ◌==◌, arith, eq_iff, eq_refl, All, Bool-cases, Option-cases, List-cases,
  of_some, elem,
}
use mathlib.Core.Path.{subst}
use swarmline.Base.Dict.{Dict, get, put, values, keys, get-put, get-put_self, put-All, get-All}
use swarmline.Base.Walk.{unseen, unseen-cons-lt, elem-keys}
use swarmline.TaskTypes.{is_done}
use swarmline.GraphTask.{GraphTaskItem}
use swarmline.TaskBoard.{Python, propagate_parent, children_of, rolled_up, all_done}
use swarmline.TaskBoard.Claims.{IsClaimed}

pub keys-put_held {ℓ} :
    {V : Type ℓ} (k : String) (v : V) (d : Dict V)
    → elem k (keys d) ≡ true
    → keys (put k v d) ≡ keys d
unfolding keys put
keys-put_held k v [] h = absurd (cc)
keys-put_held k v ((j, w) ∷ d) h = elim (Bool-cases (j == k)) [
  | inl same ↦
      rw same
        (ap (λ (x : String). x ∷ keys d) ((eq_iff k j).0 (rw ((eq_iff j k).0 same) (eq_refl k))))
  | inr other ↦ rw other (ap (λ (x : List String). j ∷ x) (keys-put_held k v d (rw other at h)))
]

visit {ℓ} :
    {V : Type ℓ} (fuel : ℕ) (p : String) (visited : List String) (v w : V) (d : Dict V)
    → get p d ≡ some v
    → elem p visited ≡ false
    → unseen visited (keys d) < suc fuel
    → unseen (p ∷ visited) (keys (put p w d)) < fuel
visit fuel p visited v w d found new h =
    rw (keys-put_held p w d (elem-keys p d found))
      (omega (arith, unseen-cons-lt p visited (keys d) (elem-keys p d found) new))

module _ {Float : Type 0} (py : Python Float) (clock : String → Float) where
  -- Each step up visits a new key.
  pub propagate-total :
      (fuel : ℕ) (visited : List String) (parent : Option String)
      (tasks : Dict (GraphTaskItem Float))
      → unseen visited (keys tasks) < fuel
      → propagate_parent fuel py clock visited parent tasks ≢ none
  unfolding propagate_parent
  propagate-total zero visited parent tasks h = absurd (omega arith)
  propagate-total (suc fuel) visited none tasks h = λ e. cc
  propagate-total (suc fuel) visited (some p) tasks h = elim (Bool-cases (elem p visited)) [
    | inl old ↦ rw old (λ e. cc)
    | inr new ↦ elim (Option-cases (get p tasks)) [
      | inl missing ↦ rw (new, missing) (λ e. cc)
      | inr (parent, found) ↦ elim (List-cases (children_of p tasks)) [
        | inl alone ↦ rw (new, found, alone) (λ e. cc)
        | inr (c, others, family) ↦
            rw (new, found, family)
              (propagate-total fuel (p ∷ visited) parent.parent_task_id
                (put p (rolled_up py (clock p) (c ∷ others) parent) tasks)
                (visit fuel p visited parent (rolled_up py (clock p) (c ∷ others) parent) tasks
                  found new h))
      ]
    ]
  ]

  -- What each single write of the propagation keeps, the whole propagation keeps.
  pub propagate_induction :
      (P : Dict (GraphTaskItem Float) → Type 0)
      → ((p : String) (cs : List (GraphTaskItem Float)) (parent : GraphTaskItem Float)
            (tasks : Dict (GraphTaskItem Float))
          → get p tasks ≡ some parent
          → P tasks
          → P (put p (rolled_up py (clock p) cs parent) tasks))
      → (fuel : ℕ) (visited : List String) (parent : Option String)
        (tasks tasks' : Dict (GraphTaskItem Float))
      → P tasks
      → propagate_parent fuel py clock visited parent tasks ≡ some tasks'
      → P tasks'
  unfolding propagate_parent
  propagate_induction P write zero visited parent tasks tasks' h e = absurd (cc)
  propagate_induction P write (suc fuel) visited none tasks tasks' h e =
      let same : tasks ≡ tasks' = cc in subst P same h
  propagate_induction P write (suc fuel) visited (some p) tasks tasks' h e =
      elim (Bool-cases (elem p visited)) [
        | inl old ↦ subst P (of_some (rw old at e)) h
        | inr new ↦ elim (Option-cases (get p tasks)) [
          | inl missing ↦ subst P (of_some (rw (new, missing) at e)) h
          | inr (parent, found) ↦ elim (List-cases (children_of p tasks)) [
            | inl alone ↦ subst P (of_some (rw (new, found, alone) at e)) h
            | inr (c, others, family) ↦
                propagate_induction P write fuel (p ∷ visited) parent.parent_task_id
                  (put p (rolled_up py (clock p) (c ∷ others) parent) tasks) tasks'
                  (write p (c ∷ others) parent tasks found h) (rw (new, found, family) at e)
          ]
        ]
      ]

module _ {Float : Type 0} where
  abbrev pub is_done_entry : Option (GraphTaskItem Float) → Bool
  is_done_entry none = false
  is_done_entry (some t) = is_done t.status

  -- The board holds a task under this key, and it is done.
  abbrev pub done_at : String → Dict (GraphTaskItem Float) → Bool
  done_at k tasks = is_done_entry (get k tasks)

  pub put-done :
      (k p : String) (t : GraphTaskItem Float) (tasks : Dict (GraphTaskItem Float))
      → (get p tasks ≡ none) ⊎ ((is_done_entry (get p tasks) ≡ true) → (is_done t.status ≡ true))
      → done_at k tasks ≡ true
      → done_at k (put p t tasks) ≡ true
  put-done k p t tasks keeps h = elim (Bool-cases (p == k)) [
    | inl same ↦
        let here : p ≡ k = (eq_iff p k).0 same in
        rw (get-put, same)
          (ground (
            arith,
            keeps,
            ap (λ (x : String). done_at x tasks) here,
            ap (λ (x : String). get x tasks) here,
          ))
    | inr other ↦ rw (get-put, other) h
  ]

module _ {Float : Type 0} (py : Python Float) (clock : String → Float) where
  rolled_up-done :
      (now : Float) (cs : List (GraphTaskItem Float)) (parent : GraphTaskItem Float)
      → is_done parent.status ≡ true
      → is_done (rolled_up py now cs parent).status ≡ true
  unfolding rolled_up
  rolled_up-done now cs parent h = ground arith

  rolled_up-all :
      (now : Float) (cs : List (GraphTaskItem Float)) (parent : GraphTaskItem Float)
      → all_done cs ≡ true
      → is_done (rolled_up py now cs parent).status ≡ true
  unfolding rolled_up
  rolled_up-all now cs parent h = rw h refl

  pub propagate-done :
      (k : String) (fuel : ℕ) (visited : List String) (parent : Option String)
      (tasks tasks' : Dict (GraphTaskItem Float))
      → done_at k tasks ≡ true
      → propagate_parent fuel py clock visited parent tasks ≡ some tasks'
      → done_at k tasks' ≡ true
  propagate-done k =
      propagate_induction py clock (λ tasks. done_at k tasks ≡ true)
        λ p cs parent tasks found.
          put-done k p (rolled_up py (clock p) cs parent) tasks
            (inr (λ d. rolled_up-done (clock p) cs parent (rw found at d)))

  rolled_up-Claims :
      (now : Float) (cs : List (GraphTaskItem Float)) (parent : GraphTaskItem Float)
      → IsClaimed parent
      → IsClaimed (rolled_up py now cs parent)
  unfolding rolled_up
  rolled_up-Claims now cs parent h e = ground (arith, h)

  pub propagate-Claims :
      (fuel : ℕ) (visited : List String) (parent : Option String)
      (tasks tasks' : Dict (GraphTaskItem Float))
      → All IsClaimed (values tasks)
      → propagate_parent fuel py clock visited parent tasks ≡ some tasks'
      → All IsClaimed (values tasks')
  propagate-Claims =
      propagate_induction py clock (λ tasks. All IsClaimed (values tasks))
        λ p cs parent tasks found h.
          put-All IsClaimed p (rolled_up py (clock p) cs parent) tasks
            (rolled_up-Claims (clock p) cs parent (get-All IsClaimed p tasks h found)) h

  -- A first step at a stored parent all of whose children are done leaves the parent done.
  pub propagate-parent_done :
      (fuel : ℕ) (p : String) (parent : GraphTaskItem Float)
      (tasks tasks' : Dict (GraphTaskItem Float))
      → get p tasks ≡ some parent
      → children_of p tasks ≢ []
      → all_done (children_of p tasks) ≡ true
      → propagate_parent (suc fuel) py clock [] (some p) tasks ≡ some tasks'
      → done_at p tasks' ≡ true
  unfolding propagate_parent
  propagate-parent_done fuel p parent tasks tasks' found some_child all e =
      elim (List-cases (children_of p tasks)) [
        | inl alone ↦ absurd (some_child alone)
        | inr (c, others, family) ↦
            propagate-done p fuel (p ∷ []) parent.parent_task_id
              (put p (rolled_up py (clock p) (c ∷ others) parent) tasks) tasks'
              (rw get-put_self (rolled_up-all (clock p) (c ∷ others) parent (rw family at all)))
              (rw (found, family) at e)
      ]
