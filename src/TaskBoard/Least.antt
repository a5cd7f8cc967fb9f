-- ===== src/TaskBoard/Least.antt =====
-- The breadth-first search of a subtree finds descendants only.
use mathlib.Core.Path.{subst}
use swarmline.Base.{
  of_some, ℕ, zero, suc, String, ◌≡◌, refl, ap, inl, inr, true, Option, none, some, List, [], ◌∷◌,
  ◌++◌, arith, eq_iff, eq_refl, is_at, elem, length, All, Bool-cases,
}
use swarmline.Base.Dict.{values}
use swarmline.GraphTask.{GraphTaskItem}
use swarmline.TaskBoard.{Board}
use swarmline.TaskBoard.Subtree.{is_new, absorb, collect, subtree_ids}
use swarmline.TaskBoard.Descendants.{covered, covers, elem-append}

module _ (s : List String) where
  -- Both lists lie in the set `s`.
  abbrev Within : List String → List String → Type 0
  Within result queue =
      ((k : String) → elem k result ≡ true → elem k s ≡ true)
      × ((k : String) → elem k queue ≡ true → elem k s ≡ true)

  child_within :
      (tid id : String) (parent : Option String)
      → elem tid s ≡ true
      → is_at parent tid ≡ true
      → covered s s id parent ≡ true
      → elem id s ≡ true
  child_within tid id none held h c = absurd (cc)
  child_within tid id (some p) held h c =
      ground (arith, eq_iff p tid, λ (same : p ≡ tid). ap (λ (j : String). elem j s) same)

  cons_within :
      (id : String) (result : List String)
      → elem id s ≡ true
      → ((k : String) → elem k result ≡ true → elem k s ≡ true)
      → (k : String) → elem k (id ∷ result) ≡ true
      → elem k s ≡ true
  cons_within id result own h k m =
      ground (arith, h k, eq_iff id k, λ (same : id ≡ k). ap (λ (j : String). elem j s) same)

  snoc_within :
      (id : String) (queue : List String)
      → elem id s ≡ true
      → ((k : String) → elem k queue ≡ true → elem k s ≡ true)
      → (k : String) → elem k (queue ++ id ∷ []) ≡ true
      → elem k s ≡ true
  snoc_within id queue own h k m = ground (
    arith,
    h k,
    elem-append k queue (id ∷ []),
    eq_iff id k,
    λ (same : id ≡ k). ap (λ (j : String). elem j s) same,
  )

module _ {Float : Type 0} (s : List String) where
  absorb-Within :
      (tid : String) (ts : List (GraphTaskItem Float)) (result queue : List String)
      → elem tid s ≡ true
      → All (λ t. covers s s t ≡ true) ts
      → Within s result queue
      → Within s (absorb tid ts result queue).0 (absorb tid ts result queue).1
  unfolding absorb
  absorb-Within tid [] result queue held closed w = w
  absorb-Within tid (t ∷ ts) result queue held closed w = elim (Bool-cases (is_new tid t result)) [
    | inl new ↦
        let own = child_within s tid t.id t.parent_task_id held (ground arith) closed.0 in
        rw (new, absorb)
          (absorb-Within tid ts (t.id ∷ result) (queue ++ t.id ∷ []) held closed.1
            (cons_within s t.id result own w.0, snoc_within s t.id queue own w.1))
    | inr old ↦ rw (old, absorb) (absorb-Within tid ts result queue held closed.1 w)
  ]

  collect-Within :
      (fuel : ℕ) (tasks : List (GraphTaskItem Float)) (visited result queue ids : List String)
      → All (λ t. covers s s t ≡ true) tasks
      → Within s result queue
      → collect fuel tasks visited result queue ≡ some ids
      → (k : String) → elem k ids ≡ true
      → elem k s ≡ true
  unfolding collect
  collect-Within zero tasks visited result queue ids closed w e = absurd (cc)
  collect-Within (suc fuel) tasks visited result [] ids closed w e =
      subst (λ (r : List String). (k : String) → elem k r ≡ true → elem k s ≡ true) (of_some e) w.0
  collect-Within (suc fuel) tasks visited result (tid ∷ queue) ids closed w e =
      elim (Bool-cases (elem tid visited)) [
        | inl old ↦
            collect-Within fuel tasks visited result queue ids closed
              (w.0, (λ k m. w.1 k (ground arith))) (rw (old, collect) at e)
        | inr new ↦
            collect-Within fuel tasks (tid ∷ visited) (absorb tid tasks result queue).0
              (absorb tid tasks result queue).1 ids closed
              (absorb-Within tid tasks result queue (w.1 tid (rw eq_refl refl)) closed
                (w.0, (λ k m. w.1 k (ground arith))))
              (rw (new, collect) at e)
      ]

  -- Every set of ids that has the root and, with each task, all the tasks whose parent it is, contains
  -- the ids of the subtree.
  pub subtree_ids-least :
      (id k : String) (b : Board Float) (ids : List String)
      → subtree_ids id b ≡ some ids
      → elem id s ≡ true
      → All (λ t. covers s s t ≡ true) (values b.tasks)
      → elem k ids ≡ true
      → elem k s ≡ true
  unfolding subtree_ids
  subtree_ids-least id k b ids e root closed found =
      let only_root = cons_within s id [] root (λ j m. absurd (cc)) in
      collect-Within (suc (suc (length (values b.tasks)))) (values b.tasks) [] (id ∷ []) (id ∷ [])
        ids closed (only_root, only_root) e k found
