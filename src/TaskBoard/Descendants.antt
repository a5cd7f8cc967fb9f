-- ===== src/TaskBoard/Descendants.antt =====
-- What the breadth-first search finds is closed under children.
use mathlib.Core.Path.{subst}
use swarmline.Base.{
  of_some, ℕ, zero, suc, String, ◌≡◌, refl, ap, inl, inr, Bool, true, not, ◌||◌, Option, none, some,
  List, [], ◌∷◌, ◌++◌, arith, eq_iff, eq_refl, is_at, elem, length, All, Bool-cases,
}
use swarmline.Base.Dict.{values}
use swarmline.GraphTask.{GraphTaskItem}
use swarmline.TaskBoard.{Board}
use swarmline.TaskBoard.Subtree.{is_new, absorb, collect, subtree_ids}

pub elem-append : (k : String) (xs ys : List String) → elem k (xs ++ ys) ≡ (elem k xs || elem k ys)
elem-append k [] ys = refl
elem-append k (x ∷ xs) ys = ground (arith, elem-append k xs ys)

abbrev pub covered : List String → List String → String → Option String → Bool
covered parents ids id none = true
covered parents ids id (some p) = not (elem p parents) || elem id ids

module _ {Float : Type 0} where
  absorb-result_mono :
      (k tid : String) (ts : List (GraphTaskItem Float)) (result queue : List String)
      → elem k result ≡ true
      → elem k (absorb tid ts result queue).0 ≡ true
  unfolding absorb
  absorb-result_mono k tid [] result queue h = h
  absorb-result_mono k tid (t ∷ ts) result queue h = elim (Bool-cases (is_new tid t result)) [
    | inl new ↦
        rw (new, absorb)
          (absorb-result_mono k tid ts (t.id ∷ result) (queue ++ t.id ∷ []) (ground arith))
    | inr old ↦ rw (old, absorb) (absorb-result_mono k tid ts result queue h)
  ]

  absorb-queue_mono :
      (k tid : String) (ts : List (GraphTaskItem Float)) (result queue : List String)
      → elem k queue ≡ true
      → elem k (absorb tid ts result queue).1 ≡ true
  unfolding absorb
  absorb-queue_mono k tid [] result queue h = h
  absorb-queue_mono k tid (t ∷ ts) result queue h = elim (Bool-cases (is_new tid t result)) [
    | inl new ↦
        rw (new, absorb)
          (absorb-queue_mono k tid ts (t.id ∷ result) (queue ++ t.id ∷ [])
            (ground (arith, elem-append k queue (t.id ∷ []))))
    | inr old ↦ rw (old, absorb) (absorb-queue_mono k tid ts result queue h)
  ]

  -- What the loop adds to the result it also puts into the queue.
  absorb-queued :
      (k tid : String) (ts : List (GraphTaskItem Float)) (result queue : List String)
      → elem k (absorb tid ts result queue).0 ≡ true
      → (elem k result || elem k (absorb tid ts result queue).1) ≡ true
  unfolding absorb
  absorb-queued k tid [] result queue h = ground (arith, h)
  absorb-queued k tid (t ∷ ts) result queue h = elim (Bool-cases (is_new tid t result)) [
    | inl new ↦
        rw (new, absorb)
          (ground (
            arith,
            absorb-queued k tid ts (t.id ∷ result) (queue ++ t.id ∷ []) (rw (new, absorb) at h),
            absorb-queue_mono k tid ts (t.id ∷ result) (queue ++ t.id ∷ []),
            elem-append k queue (t.id ∷ []),
          ))
    | inr old ↦ rw (old, absorb) (absorb-queued k tid ts result queue (rw (old, absorb) at h))
  ]

  -- Each child of `tid` is in the result after the loop.
  absorb-children :
      (tid : String) (ts : List (GraphTaskItem Float)) (result queue after : List String)
      → (absorb tid ts result queue).0 ≡ after
      → All (λ t. (not (is_at t.parent_task_id tid) || elem t.id after) ≡ true) ts
  unfolding absorb
  absorb-children tid [] result queue after e = tt
  absorb-children tid (t ∷ ts) result queue after e = elim (Bool-cases (is_new tid t result)) [
    | inl new ↦
        let e' : (absorb tid ts (t.id ∷ result) (queue ++ t.id ∷ [])).0 ≡ after =
          rw (new, absorb) at e in
        (
          ground (
            arith,
            ap (λ (ids : List String). elem t.id ids) e',
            absorb-result_mono t.id tid ts (t.id ∷ result) (queue ++ t.id ∷ []) (rw eq_refl refl),
          ),
          absorb-children tid ts (t.id ∷ result) (queue ++ t.id ∷ []) after e',
        )
    | inr old ↦
        let e' : (absorb tid ts result queue).0 ≡ after = rw (old, absorb) at e in
        (
          ground (
            arith,
            ap (λ (ids : List String). elem t.id ids) e',
            absorb-result_mono t.id tid ts result queue,
          ),
          absorb-children tid ts result queue after e',
        )
  ]

  -- The parent of the task, if it is among the first ids, has the task among the second.
  abbrev pub covers : List String → List String → GraphTaskItem Float → Bool
  covers parents ids t = covered parents ids t.id t.parent_task_id

  covers-step :
      (tid : String) (visited result after : List String) (ts : List (GraphTaskItem Float))
      → ((k : String) → elem k result ≡ true → elem k after ≡ true)
      → All (λ t. covers visited result t ≡ true) ts
      → All (λ t. (not (is_at t.parent_task_id tid) || elem t.id after) ≡ true) ts
      → All (λ t. covers (tid ∷ visited) after t ≡ true) ts
  covers-step tid visited result after [] mono h g = tt
  covers-step tid visited result after (t ∷ ts) mono h g =
      (one t.parent_task_id h.0 g.0, covers-step tid visited result after ts mono h.1 g.1)
    where
      one :
          (parent : Option String)
          → covered visited result t.id parent ≡ true
          → (not (is_at parent tid) || elem t.id after) ≡ true
          → covered (tid ∷ visited) after t.id parent ≡ true
      one none a b = refl
      one (some p) a b = ground (arith, eq_iff p tid, eq_iff tid p, mono t.id)

  covers-end :
      (visited result : List String) (ts : List (GraphTaskItem Float))
      → ((k : String) → elem k result ≡ true → elem k visited ≡ true)
      → All (λ t. covers visited result t ≡ true) ts
      → All (λ t. covers result result t ≡ true) ts
  covers-end visited result [] seen h = tt
  covers-end visited result (t ∷ ts) seen h =
      (one t.parent_task_id h.0, covers-end visited result ts seen h.1)
    where
      one :
          (parent : Option String)
          → covered visited result t.id parent ≡ true
          → covered result result t.id parent ≡ true
      one none a = refl
      one (some p) a = ground (arith, seen p)

  collect-covers :
      (fuel : ℕ) (tasks : List (GraphTaskItem Float)) (visited result queue ids : List String)
      → ((k : String) → elem k result ≡ true → (elem k visited || elem k queue) ≡ true)
      → All (λ t. covers visited result t ≡ true) tasks
      → collect fuel tasks visited result queue ≡ some ids
      → All (λ t. covers ids ids t ≡ true) tasks
  unfolding collect
  collect-covers zero tasks visited result queue ids seen h e = absurd (cc)
  collect-covers (suc fuel) tasks visited result [] ids seen h e =
      subst (λ (r : List String). All (λ t. covers r r t ≡ true) tasks) (of_some e)
        (covers-end visited result tasks (λ k m. ground (arith, seen k m)) h)
  collect-covers (suc fuel) tasks visited result (tid ∷ queue) ids seen h e =
      elim (Bool-cases (elem tid visited)) [
        | inl old ↦
            collect-covers fuel tasks visited result queue ids
              (λ k m. ground (
                arith,
                seen k m,
                eq_iff tid k,
                λ (same : tid ≡ k). ap (λ (j : String). elem j visited) same,
              ))
              h (rw (old, collect) at e)
        | inr new ↦
            collect-covers fuel tasks (tid ∷ visited) (absorb tid tasks result queue).0
              (absorb tid tasks result queue).1 ids
              (λ k m. ground (
                arith,
                absorb-queued k tid tasks result queue m,
                seen k,
                absorb-queue_mono k tid tasks result queue,
              ))
              (covers-step tid visited result (absorb tid tasks result queue).0 tasks
                (λ k. absorb-result_mono k tid tasks result queue) h
                (absorb-children tid tasks result queue (absorb tid tasks result queue).0 refl))
              (rw (new, collect) at e)
      ]

  covers-start :
      (id : String) (ts : List (GraphTaskItem Float)) → All (λ t. covers [] (id ∷ []) t ≡ true) ts
  covers-start id [] = tt
  covers-start id (t ∷ ts) = (one t.parent_task_id, covers-start id ts)
    where
      one : (parent : Option String) → covered [] (id ∷ []) t.id parent ≡ true
      one none = refl
      one (some p) = refl

  collect_mono :
      (k : String) (fuel : ℕ) (tasks : List (GraphTaskItem Float))
      (visited result queue ids : List String)
      → elem k result ≡ true
      → collect fuel tasks visited result queue ≡ some ids
      → elem k ids ≡ true
  unfolding collect
  collect_mono k zero tasks visited result queue ids h e = absurd (cc)
  collect_mono k (suc fuel) tasks visited result [] ids h e =
      subst (λ (r : List String). elem k r ≡ true) (of_some e) h
  collect_mono k (suc fuel) tasks visited result (tid ∷ queue) ids h e =
      elim (Bool-cases (elem tid visited)) [
        | inl old ↦ collect_mono k fuel tasks visited result queue ids h (rw (old, collect) at e)
        | inr new ↦
            collect_mono k fuel tasks (tid ∷ visited) (absorb tid tasks result queue).0
              (absorb tid tasks result queue).1 ids (absorb-result_mono k tid tasks result queue h)
              (rw (new, collect) at e)
      ]

  -- The ids of a subtree have its root and, with each task, all the tasks whose parent it is.
  pub subtree_ids-covers :
      (id : String) (b : Board Float) (ids : List String)
      → subtree_ids id b ≡ some ids
      → (elem id ids ≡ true) × All (λ t. covers ids ids t ≡ true) (values b.tasks)
  unfolding subtree_ids
  subtree_ids-covers id b ids e = (
    collect_mono id (suc (suc (length (values b.tasks)))) (values b.tasks) [] (id ∷ []) (id ∷ [])
        ids (rw eq_refl refl) e,
    collect-covers (suc (suc (length (values b.tasks)))) (values b.tasks) [] (id ∷ []) (id ∷ []) ids
        (λ k m. m) (covers-start id (values b.tasks)) e,
  )
