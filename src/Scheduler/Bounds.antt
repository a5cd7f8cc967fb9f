-- ===== src/Scheduler/Bounds.antt =====
-- swarmline/daemon/scheduler.py: what holds of every scheduler that calls of its methods lead to.
use mathlib.Core.Path.{subst}
use swarmline.Base.{
  if-keeps, ℕ, suc, ◌≤◌, ◌<◌, String, Bool, true, false, not, none, some, List, [], ◌∷◌, ◌++◌, ◌≡◌,
  refl, ap, inl, inr, arith, Bool-cases, Option-cases, leb, length, length-append, if◌then◌else◌,
}
use swarmline.Base.Dict.{Dict}
use swarmline.Scheduler.{
  Scheduler, ScheduledTask, every, once_at, cancel, pause, resume, is_full, fire, fire_ready, tick,
  poll,
}

pub of_guard :
    {A : Type 0} (b : Bool) {x y : A}
    → (if b then none else some x) ≡ some y
    → (b ≡ false) × (x ≡ y)
of_guard true e = absurd cc
of_guard false e = (refl, cc)

module _ {Coro : Type 0} where
  abbrev pub new : ℕ → Scheduler Coro
  new max_concurrent = record {
    tasks = [];
    paused = false;
    max_concurrent = max_concurrent;
    pending = [];
  }

  -- A call of a method, a round of `run_until`, or the end of a pending task.
  pub data Step (s : Scheduler Coro) : Scheduler Coro → Type 0 where
    by_every :
        (seconds : ℕ) (coro : Coro) (name generated : String) (now : ℕ) {result : String}
        {s' : Scheduler Coro}
        → every seconds coro name generated now s ≡ some (result, s')
        → Step s s'
    by_once_at :
        (timestamp : ℕ) (coro : Coro) (name generated : String) (now wall : ℕ)
        → Step s (once_at timestamp coro name generated now wall s).1
    by_cancel : (name : String) → Step s (cancel name s).1
    by_pause : Step s (pause s)
    by_resume : Step s (resume s)
    by_poll : (now wall : ℕ) → Step s (poll now wall s)
    by_end :
        (before after : List Coro) (coro : Coro)
        → s.pending ≡ before ++ coro ∷ after
        → Step s (record s { pending = before ++ after })

  pub data Reachable (max_concurrent : ℕ) : Scheduler Coro → Type 0 where
    at_start : Reachable max_concurrent (new max_concurrent)
    after_step :
        {s s' : Scheduler Coro}
        → Reachable max_concurrent s
        → Step s s'
        → Reachable max_concurrent s'

  -- No more tasks are pending than the limit, where zero stands for no limit.
  abbrev pub Within : ℕ → Scheduler Coro → Type 0
  Within limit s = (s.max_concurrent ≡ limit) × (1 ≤ limit → length s.pending ≤ limit)

  room :
      (s : Scheduler Coro)
      → is_full s ≡ false
      → 1 ≤ s.max_concurrent
      → length s.pending < s.max_concurrent
  unfolding is_full
  room s h h' = ground arith

  length-append_one : (c : Coro) (cs : List Coro) → length (cs ++ c ∷ []) ≡ suc (length cs)
  length-append_one c cs = omega (arith, length-append cs (c ∷ []))

  fire-Within :
      (limit now wall : ℕ) (name : String) (t : ScheduledTask Coro) (s : Scheduler Coro)
      (rm : List String)
      → is_full s ≡ false
      → Within limit s
      → Within limit (fire now wall name t s rm).0
  unfolding fire
  fire-Within limit now wall name t s rm free (same, h) = elim (Option-cases t.interval) [
    | inl once ↦
        rw (fire, once)
          (
            same,
            λ one.
                omega
                  (arith, length-append_one t.coro_factory s.pending, room s free (omega arith)),
          )
    | inr (interval, periodic) ↦
        rw (fire, periodic)
          (
            same,
            λ one.
                omega
                  (arith, length-append_one t.coro_factory s.pending, room s free (omega arith)),
          )
  ]

  fire_ready-Within :
      (limit now wall : ℕ) (ts : Dict (ScheduledTask Coro)) (s : Scheduler Coro) (rm : List String)
      → Within limit s
      → Within limit (fire_ready now wall ts s rm).0
  unfolding fire_ready
  fire_ready-Within limit now wall [] s rm h = h
  fire_ready-Within limit now wall ((name, t) ∷ ts) s rm h = elim (Bool-cases (not t.active)) [
    | inl inactive ↦ rw (fire_ready, inactive) (fire_ready-Within limit now wall ts s rm h)
    | inr active ↦ elim (Bool-cases (is_full s)) [
      | inl full ↦ rw (fire_ready, active, full) h
      | inr free ↦ elim (Bool-cases (leb t.next_run now)) [
        | inl due ↦
            rw (fire_ready, active, free, due)
              (fire_ready-Within limit now wall ts (fire now wall name t s rm).0
                (fire now wall name t s rm).1 (fire-Within limit now wall name t s rm free h))
        | inr later ↦
            rw (fire_ready, active, free, later) (fire_ready-Within limit now wall ts s rm h)
      ]
    ]
  ]

  Step-Within : (limit : ℕ) {s s' : Scheduler Coro} → Step s s' → Within limit s → Within limit s'
  unfolding every once_at cancel pause resume poll tick
  Step-Within limit (by_every seconds coro name generated now e) h =
      subst (Within limit)
        (ap (λ (r : String × Scheduler Coro). r.1) (of_guard (leb seconds 0) e).1) h
  Step-Within limit (by_once_at timestamp coro name generated now wall) h = h
  Step-Within limit (by_cancel name) h = h
  Step-Within limit by_pause h = h
  Step-Within limit by_resume h = h
  Step-Within limit {s} (by_poll now wall) h =
      if-keeps (Within limit) s.paused h (fire_ready-Within limit now wall s.tasks s [] h)
  Step-Within limit {s} (by_end before after coro e) (same, h) = (
    same,
    λ one. omega (
      arith,
      h one,
      ap (length {A = Coro}) e,
      length-append before (coro ∷ after),
      length-append before after,
    ),
  )

  pub Reachable-Within : (limit : ℕ) {s : Scheduler Coro} → Reachable limit s → Within limit s
  Reachable-Within limit at_start = (refl, λ one. omega arith)
  Reachable-Within limit (after_step before step) =
      Step-Within limit step (Reachable-Within limit before)

  -- Whatever methods are called and whichever tasks end, a scheduler with a positive limit never has
  -- more pending tasks than the limit.
  pub pending-Bounded :
      (limit : ℕ) {s : Scheduler Coro} → Reachable limit s → 1 ≤ limit → length s.pending ≤ limit
  pending-Bounded limit reached one = (Reachable-Within limit reached).1 one
