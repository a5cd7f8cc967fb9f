-- ===== src/GoalQueue/Fifo.antt =====
-- The queue as a client sees it: the goals that wait, first in first out.
use swarmline.Base.{
  Distinct, Distinct-append_new, ℕ, String, ◌≡◌, refl, sym, ap, ◌∙◌, inl, inr, false, Option, none,
  some, List, [], ◌∷◌, ◌++◌, ◌==◌, arith, eq_iff, select, select-append, elem, Bool-cases,
  Option-cases, of_some,
}
use mathlib.Core.Path.{subst, ap₂}
use swarmline.Base.Dict.{Dict, get, put, get-put, get-put_self}
use swarmline.GoalQueue.{
  GoalEntry, GoalQueue, submit, is_pending, skip, dequeue, start, take_first, entry_of,
}

module _ {Any : Type 0} where
  -- The abstract queue: the ids that wait, oldest first.
  abbrev pub waiting : GoalQueue Any → List String
  waiting q = select (λ k. is_pending (get k q.goals)) q.queue

  -- Ids are not queued twice, and an entry carries the id under which it is stored.
  pub record IsValid (q : GoalQueue Any) : Type 0 where
    pub distinct : Distinct q.queue
    pub keyed : (k : String) (entry : GoalEntry Any) → get k q.goals ≡ some entry → entry.id ≡ k

  select-put :
      (k : String) (v : GoalEntry Any) (goals : Dict (GoalEntry Any)) (ks : List String)
      → elem k ks ≡ false
      → select (λ j. is_pending (get j (put k v goals))) ks
        ≡ select (λ j. is_pending (get j goals)) ks
  select-put k v goals [] h = refl
  select-put k v goals (j ∷ ks) h =
      let differs : (k == j) ≡ false = ground (arith, eq_iff j k, eq_iff k j) in
      let kept : get j (put k v goals) ≡ get j goals = rw (get-put, differs) refl in
      rw (kept, select-put k v goals ks (ground arith)) refl

  -- What `skip` finds when goals wait: the first of them, at the head of what is left.
  record Found (goals : Dict (GoalEntry Any)) (ks : List String) (k : String) (rest : List String)
      : Type 0 where
    entry : GoalEntry Any
    left : List String
    stored : get k goals ≡ some entry
    skipped : skip goals ks ≡ (some entry, k ∷ left)
    others : select (λ j. is_pending (get j goals)) left ≡ rest
    distinct : Distinct ks → (elem k left ≡ false) × Distinct left

  skip-none :
      (goals : Dict (GoalEntry Any)) (ks : List String)
      → select (λ j. is_pending (get j goals)) ks ≡ []
      → skip goals ks ≡ (none, [])
  unfolding skip
  skip-none goals [] h = refl
  skip-none goals (j ∷ ks) h = elim (Bool-cases (is_pending (get j goals))) [
    | inl waits ↦ absurd (cc (rw waits at h))
    | inr past ↦ rw past (skip-none goals ks (rw past at h))
  ]

  skip-Found :
      (goals : Dict (GoalEntry Any)) (ks : List String) (k : String) (rest : List String)
      → select (λ j. is_pending (get j goals)) ks ≡ k ∷ rest
      → Found goals ks k rest
  unfolding skip
  skip-Found goals [] k rest h = absurd (cc)
  skip-Found goals (j ∷ ks) k rest h = elim (Bool-cases (is_pending (get j goals))) [
    | inl waits ↦ elim (Option-cases (get j goals)) [
      | inl missing ↦ absurd (ground (arith, missing))
      | inr (entry, stored) ↦
          let first = rw waits at h in
          let same : j ≡ k = cc first in
          subst (λ (x : String). Found goals (j ∷ ks) x rest) same
            (record {
              entry = entry;
              left = ks;
              stored = stored;
              skipped = rw (waits, stored) refl;
              others = cc first;
              distinct = λ d. d;
            })
    ]
    | inr past ↦
        let f = skip-Found goals ks k rest (rw past at h) in
        record {
          entry = f.entry;
          left = f.left;
          stored = f.stored;
          skipped = rw past f.skipped;
          others = f.others;
          distinct = λ d. f.distinct d.1;
        }
  ]

  put-keyed :
      (k : String) (v : GoalEntry Any) (q : GoalQueue Any)
      → IsValid q
      → v.id ≡ k
      → (j : String) (entry : GoalEntry Any) → get j (put k v q.goals) ≡ some entry
      → entry.id ≡ j
  put-keyed k v q valid own j entry h = elim (Bool-cases (k == j)) [
    | inl same ↦
        let e : v ≡ entry = of_some (rw (get-put, same) at h) in
        ap (λ (x : GoalEntry Any). x.id) (sym e) ∙ own ∙ (eq_iff k j).0 same
    | inr other ↦ valid.keyed j entry (rw (get-put, other) at h)
  ]

  -- `submit` with an id that is not queued keeps the queue valid.
  pub submit-IsValid :
      (fresh goal : String) (now : ℕ) (metadata : Dict Any) (q : GoalQueue Any)
      → IsValid q
      → elem fresh q.queue ≡ false
      → IsValid (submit fresh now goal metadata q).1
  unfolding submit
  submit-IsValid fresh goal now metadata q valid new = record {
    distinct = Distinct-append_new fresh q.queue new valid.distinct;
    keyed = put-keyed fresh (entry_of fresh goal now metadata) q valid refl;
  }

  skip-Distinct :
      (goals : Dict (GoalEntry Any)) (ks : List String) → Distinct ks → Distinct (skip goals ks).1
  unfolding skip
  skip-Distinct goals [] d = tt
  skip-Distinct goals (k ∷ ks) d = elim (Bool-cases (is_pending (get k goals))) [
    | inl waits ↦ rw waits d
    | inr past ↦ rw past (skip-Distinct goals ks d.1)
  ]

  -- `dequeue` keeps a queue valid.
  pub dequeue-IsValid : (q : GoalQueue Any) → IsValid q → IsValid (dequeue q).1
  unfolding dequeue
  dequeue-IsValid q valid =
      taken (skip q.goals q.queue).0 (skip q.goals q.queue).1
        (skip-Distinct q.goals q.queue valid.distinct)
    where
      taken :
          (o : Option (GoalEntry Any)) (ks : List String)
          → Distinct ks
          → IsValid (take_first o (record q { queue = ks })).1
      taken none ks d = record { distinct = d; keyed = valid.keyed }
      taken (some entry) [] d = record {
        distinct = tt;
        keyed = put-keyed entry.id (start entry) q valid refl;
      }
      taken (some entry) (k ∷ ks) d = record {
        distinct = d.1;
        keyed = put-keyed entry.id (start entry) q valid refl;
      }

  -- On a valid queue `submit` with an id that is not queued puts the goal last.
  pub submit-waiting :
      (fresh goal : String) (now : ℕ) (metadata : Dict Any) (q : GoalQueue Any)
      → IsValid q
      → elem fresh q.queue ≡ false
      → waiting (submit fresh now goal metadata q).1 ≡ waiting q ++ fresh ∷ []
  unfolding submit
  submit-waiting fresh goal now metadata q valid new =
      let entry = entry_of fresh goal now metadata in
      select-append (λ k. is_pending (get k (put fresh entry q.goals))) q.queue (fresh ∷ [])
      ∙ ap₂ ◌++◌ (select-put fresh entry q.goals q.queue new) (rw get-put_self refl)

  -- If no goal waits, `dequeue` returns `None` and no goal waits afterwards.
  pub dequeue-empty :
      (q : GoalQueue Any) → waiting q ≡ [] → ((dequeue q).0 ≡ none) × (waiting (dequeue q).1 ≡ [])
  unfolding dequeue
  dequeue-empty q h = (rw (skip-none q.goals q.queue h) refl, rw (skip-none q.goals q.queue h) refl)

  -- If goals wait in a valid queue, `dequeue` returns the oldest of them, marked as running, and the
  -- goals that wait afterwards are the others in their order.
  pub dequeue-first :
      (q : GoalQueue Any) (k : String) (rest : List String)
      → IsValid q
      → waiting q ≡ k ∷ rest
      → (entry : GoalEntry Any) × (get k q.goals ≡ some entry)
        × ((dequeue q).0 ≡ some (start entry))
        × (waiting (dequeue q).1 ≡ rest)
  unfolding dequeue
  dequeue-first q k rest valid h =
      let f = skip-Found q.goals q.queue k rest h in
      let id : f.entry.id ≡ k = valid.keyed k f.entry f.stored in
      (
        f.entry,
        f.stored,
        rw f.skipped refl,
        rw f.skipped (
            select-put f.entry.id (start f.entry) q.goals f.left
              (rw id (f.distinct valid.distinct).0)
            ∙ f.others),
      )
