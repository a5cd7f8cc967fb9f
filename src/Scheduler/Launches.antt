-- ===== src/Scheduler/Launches.antt =====
-- swarmline/daemon/scheduler.py: the launches of a tick, in their order, and what is left after it.
use mathlib.Core.Path.{subst}
use swarmline.Base.{
  of_some, ℕ, zero, suc, ◌-◌, ◌≤◌, ◌<◌, String, true, false, ◌&&◌, some, List, [], ◌∷◌, ◌++◌, ◌==◌,
  ◌≡◌, refl, sym, ap, ◌∙◌, ◌⊎◌, inl, inr, arith, Bool-cases, Option-cases, leb, length,
  length-append, if◌then◌else◌, take, append_assoc, append-nil,
}
use swarmline.Base.Dict.{Dict, get, put, remove, get-put, get-remove, Every, get-Every}
use swarmline.Scheduler.{Scheduler, ScheduledTask, is_full, fire, fire_ready, remove_each, tick}
use swarmline.Scheduler.Bounds.{Reachable, Reachable-Within}
use swarmline.Scheduler.Firing.{IsSound, Positive, Reachable-IsSound, tick-IsSound}

module _ {Coro : Type 0} where
  -- The coroutines of the active tasks whose time has come, in the order of the dictionary.
  abbrev pub due : ℕ → Dict (ScheduledTask Coro) → List Coro
  due now [] = []
  due now ((name, t) ∷ ts) =
      let rest = due now ts in
      if t.active && leb t.next_run now then t.coro_factory ∷ rest else rest

  -- As many as the limit has room for beside `n` pending ones.
  abbrev pub fitting : ℕ → ℕ → List Coro → List Coro
  fitting zero n coros = coros
  fitting (suc limit) n coros = take (suc limit - n) coros

  fitting-full :
      (limit n : ℕ) (coros : List Coro) → 1 ≤ limit → limit ≤ n → fitting limit n coros ≡ []
  fitting-full zero n coros h h' = absurd (omega arith)
  fitting-full (suc limit) n coros h h' =
      let none_left : suc limit - n ≡ 0 = omega arith in ap (λ (k : ℕ). take k coros) none_left

  fitting-next :
      (limit n : ℕ) (c : Coro) (coros : List Coro)
      → (1 ≤ limit → n < limit)
      → fitting limit n (c ∷ coros) ≡ c ∷ fitting limit (suc n) coros
  fitting-next zero n c coros h = refl
  fitting-next (suc limit) n c coros h =
      let one_taken : suc limit - n ≡ suc (suc limit - suc n) = omega (arith, h (omega arith)) in
      ap (λ (k : ℕ). take k (c ∷ coros)) one_taken

  take-nil : (n : ℕ) → take {A = Coro} n [] ≡ []
  take-nil zero = refl
  take-nil (suc n) = refl

  fitting-nil : (limit n : ℕ) → fitting limit n [] ≡ []
  fitting-nil zero n = refl
  fitting-nil (suc limit) n = take-nil (suc limit - n)

  is_full-true :
      (s : Scheduler Coro)
      → is_full s ≡ true
      → (1 ≤ s.max_concurrent) × (s.max_concurrent ≤ length s.pending)
  unfolding is_full
  is_full-true s h = (ground arith, ground arith)

  is_full-false :
      (s : Scheduler Coro)
      → is_full s ≡ false
      → 1 ≤ s.max_concurrent
      → length s.pending < s.max_concurrent
  unfolding is_full
  is_full-false s h h' = ground arith

  fire-pending :
      (now wall : ℕ) (name : String) (t : ScheduledTask Coro) (s : Scheduler Coro)
      (rm : List String)
      → ((fire now wall name t s rm).0.pending ≡ s.pending ++ t.coro_factory ∷ [])
        × ((fire now wall name t s rm).0.max_concurrent ≡ s.max_concurrent)
  unfolding fire
  fire-pending now wall name t s rm = elim (Option-cases t.interval) [
    | inl once ↦ rw (fire, once) (refl, refl)
    | inr (interval, periodic) ↦ rw (fire, periodic) (refl, refl)
  ]

  length-append_one : (c : Coro) (cs : List Coro) → length (cs ++ c ∷ []) ≡ suc (length cs)
  length-append_one c cs = omega (arith, length-append cs (c ∷ []))

  abbrev after : Scheduler Coro → List Coro → List Coro
  after s coros = s.pending ++ fitting s.max_concurrent (length s.pending) coros

  after-fire :
      (now wall : ℕ) (name : String) (t : ScheduledTask Coro) (s : Scheduler Coro)
      (rm : List String) (coros : List Coro)
      → is_full s ≡ false
      → after (fire now wall name t s rm).0 coros ≡ after s (t.coro_factory ∷ coros)
  after-fire now wall name t s rm coros free =
      let (pending, limit) = fire-pending now wall name t s rm in
      rw
        (
          pending,
          limit,
          length-append_one t.coro_factory s.pending,
          fitting-next s.max_concurrent (length s.pending) t.coro_factory coros
              (is_full-false s free),
        )
        (append_assoc s.pending (t.coro_factory ∷ [])
          (fitting s.max_concurrent (suc (length s.pending)) coros))

  fire_ready-pending :
      (now wall : ℕ) (ts : Dict (ScheduledTask Coro)) (s : Scheduler Coro) (rm : List String)
      → (fire_ready now wall ts s rm).0.pending ≡ after s (due now ts)
  unfolding fire_ready
  fire_ready-pending now wall [] s rm = sym (
      ap (λ (l : List Coro). s.pending ++ l) (fitting-nil s.max_concurrent (length s.pending))
      ∙ append-nil s.pending)
  fire_ready-pending now wall ((name, t) ∷ ts) s rm = elim (Bool-cases t.active) [
    | inr inactive ↦ rw (fire_ready, inactive) (fire_ready-pending now wall ts s rm)
    | inl active ↦ elim (Bool-cases (is_full s)) [
      | inl full ↦
          rw (fire_ready, active, full)
            (sym (
              ap (λ (l : List Coro). s.pending ++ l)
                (fitting-full s.max_concurrent (length s.pending) _ (is_full-true s full).0
                  (is_full-true s full).1)
              ∙ append-nil s.pending))
      | inr free ↦ elim (Bool-cases (leb t.next_run now)) [
        | inl time ↦
            rw (fire_ready, active, free, time)
              (fire_ready-pending now wall ts (fire now wall name t s rm).0
                  (fire now wall name t s rm).1
                ∙ after-fire now wall name t s rm (due now ts) free)
        | inr later ↦ rw (fire_ready, active, free, later) (fire_ready-pending now wall ts s rm)
      ]
    ]
  ]

  -- A tick adds to the pending tasks, behind those that were there, the active tasks whose time has
  -- come, in the order of the dictionary: all of them when there is no limit, and otherwise the first
  -- ones, as many as the limit leaves room for.
  pub tick-pending :
      (now wall : ℕ) (s : Scheduler Coro)
      → (tick now wall s).pending
        ≡ s.pending ++ fitting s.max_concurrent (length s.pending) (due now s.tasks)
  unfolding tick
  tick-pending now wall s = fire_ready-pending now wall s.tasks s []

  -- What a tick does to the task of a key: it is inactive, its time is to come, or it is still ahead.
  abbrev Passed : ℕ → Dict (ScheduledTask Coro) → String → ScheduledTask Coro → Type 0
  Passed now ts k t = (t.active ≡ false) ⊎ ((now < t.next_run) ⊎ (get k ts ≡ some t))

  abbrev AllPassed : ℕ → Dict (ScheduledTask Coro) → Dict (ScheduledTask Coro) → Type 0
  AllPassed now ts tasks =
      (k : String) (t : ScheduledTask Coro) → get k tasks ≡ some t → Passed now ts k t

  skip-one :
      (now : ℕ) (name : String) (t₀ : ScheduledTask Coro) (ts tasks : Dict (ScheduledTask Coro))
      → (t₀.active ≡ false) ⊎ (now < t₀.next_run)
      → AllPassed now ((name, t₀) ∷ ts) tasks
      → AllPassed now ts tasks
  unfolding get
  skip-one now name t₀ ts tasks fine h k t e = elim (h k t e) [
    | inl inactive ↦ inl inactive
    | inr (inl later) ↦ inr (inl later)
    | inr (inr ahead) ↦ elim (Bool-cases (name == k)) [
      | inr other ↦ inr (inr (rw (get, other) at ahead))
      | inl same ↦
          let it : t₀ ≡ t = of_some (rw (get, same) at ahead) in
          elim fine [
            | inl inactive ↦ inl (ap (λ (u : ScheduledTask Coro). u.active) (sym it) ∙ inactive)
            | inr later ↦ inr (inl (subst (λ (u : ScheduledTask Coro). now < u.next_run) it later))
          ]
    ]
  ]

  put-AllPassed :
      (now : ℕ) (name : String) (t₀ u : ScheduledTask Coro) (ts tasks : Dict (ScheduledTask Coro))
      → (u.active ≡ false) ⊎ (now < u.next_run)
      → AllPassed now ((name, t₀) ∷ ts) tasks
      → AllPassed now ts (put name u tasks)
  unfolding get
  put-AllPassed now name t₀ u ts tasks fine h k t e = elim (Bool-cases (name == k)) [
    | inl same ↦
        let it : u ≡ t = of_some (rw (get-put name k u tasks, same) at e) in
        elim fine [
          | inl inactive ↦ inl (ap (λ (v : ScheduledTask Coro). v.active) (sym it) ∙ inactive)
          | inr later ↦ inr (inl (subst (λ (v : ScheduledTask Coro). now < v.next_run) it later))
        ]
    | inr other ↦ elim (h k t (rw (get-put name k u tasks, other) at e)) [
      | inl inactive ↦ inl inactive
      | inr (inl later) ↦ inr (inl later)
      | inr (inr ahead) ↦ inr (inr (rw (get, other) at ahead))
    ]
  ]

  fire-AllPassed :
      (now wall : ℕ) (name : String) (t₀ : ScheduledTask Coro) (ts : Dict (ScheduledTask Coro))
      (s : Scheduler Coro) (rm : List String)
      → Positive t₀.interval
      → AllPassed now ((name, t₀) ∷ ts) s.tasks
      → AllPassed now ts (fire now wall name t₀ s rm).0.tasks
  unfolding fire
  fire-AllPassed now wall name t₀ ts s rm p h = elim (Option-cases t₀.interval) [
    | inl once ↦ rw (fire, once) (put-AllPassed now name t₀ _ ts s.tasks (inl refl) h)
    | inr (interval, periodic) ↦
        let some_time : 1 ≤ interval = subst Positive periodic p in
        rw (fire, periodic) (put-AllPassed now name t₀ _ ts s.tasks (inr (omega arith)) h)
  ]

  fire_ready-AllPassed :
      (now wall : ℕ) (ts : Dict (ScheduledTask Coro)) (s : Scheduler Coro) (rm : List String)
      → s.max_concurrent ≡ 0
      → Every IsSound ts
      → AllPassed now ts s.tasks
      → AllPassed now [] (fire_ready now wall ts s rm).0.tasks
  unfolding fire_ready
  fire_ready-AllPassed now wall [] s rm unlimited sound h = h
  fire_ready-AllPassed now wall ((name, t) ∷ ts) s rm unlimited sound h =
      elim (Bool-cases (is_full s)) [
        | inl full ↦ absurd (omega (arith, is_full-true s full))
        | inr free ↦ elim (Bool-cases (leb t.next_run now)) [
          | inl time ↦
              rw (fire_ready, sound.0.0, free, time)
                (fire_ready-AllPassed now wall ts (fire now wall name t s rm).0
                  (fire now wall name t s rm).1 ((fire-pending now wall name t s rm).1 ∙ unlimited)
                  sound.1 (fire-AllPassed now wall name t ts s rm sound.0.1 h))
          | inr later ↦
              rw (fire_ready, sound.0.0, free, later)
                (fire_ready-AllPassed now wall ts s rm unlimited sound.1
                  (skip-one now name t ts s.tasks (inr (ground arith)) h))
        ]
      ]

  get-remove_each :
      (rm : List String) (tasks : Dict (ScheduledTask Coro)) (k : String) {t : ScheduledTask Coro}
      → get k (remove_each rm tasks) ≡ some t
      → get k tasks ≡ some t
  get-remove_each [] tasks k e = e
  get-remove_each (name ∷ rm) tasks k e = elim (Bool-cases (name == k)) [
    | inl same ↦
        absurd (cc (get-remove_each rm (remove name tasks) k e, get-remove name k tasks, same))
    | inr other ↦
        rw (get-remove name k tasks, other) at (get-remove_each rm (remove name tasks) k e)
  ]

  -- In a scheduler with no limit that calls of its methods lead to, each task that a tick leaves is
  -- active and its time is to come: no task whose time has come waits for another tick.
  pub tick-none_due :
      (now wall : ℕ) {s : Scheduler Coro} (k : String) {t : ScheduledTask Coro}
      → Reachable 0 s
      → get k (tick now wall s).tasks ≡ some t
      → (t.active ≡ true) × (now < t.next_run)
  unfolding tick get
  tick-none_due now wall {s} k {t} reached e =
      let sound : Every IsSound s.tasks = Reachable-IsSound reached in
      let (active, positive) =
        get-Every IsSound k (tick now wall s).tasks (tick-IsSound now wall s sound) e in
      let unlimited : s.max_concurrent ≡ 0 = (Reachable-Within 0 reached).0 in
      let passed : AllPassed now [] (fire_ready now wall s.tasks s []).0.tasks =
        fire_ready-AllPassed now wall s.tasks s [] unlimited sound (λ k t held. inr (inr held)) in
      elim (passed k t (
        get-remove_each (fire_ready now wall s.tasks s []).1
          (fire_ready now wall s.tasks s []).0.tasks k e)) [
            | inl inactive ↦ absurd cc
            | inr (inl later) ↦ (active, later)
            | inr (inr ahead) ↦ absurd (cc ahead)
          ]
