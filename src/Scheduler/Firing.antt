-- ===== src/Scheduler/Firing.antt =====
-- swarmline/daemon/scheduler.py: which tasks a tick launches, and which it leaves.
use mathlib.Core.Path.{subst}
use swarmline.Base.{
  if-keeps, ℕ, ◌≤◌, String, true, false, not, Option, none, some, List, [], ◌∷◌, ◌++◌, ◌==◌, ◌≡◌,
  refl, ap, ◌⊎◌, inl, inr, arith, Bool-cases, Option-cases, eq_iff, eq_refl, elem, leb,
}
use swarmline.Base.Dict.{Dict, remove, Every, put-Every, remove-Every, Every-weaken}
use swarmline.Scheduler.{
  Scheduler, ScheduledTask, every, once_at, cancel, pause, resume, is_full, fire, fire_ready,
  remove_each, tick, poll,
}
use swarmline.Scheduler.Bounds.{
  Step, by_every, by_once_at, by_cancel, by_pause, by_resume, by_poll, by_end, Reachable, at_start,
  after_step, of_guard,
}

abbrev pub Positive : Option ℕ → Type 0
Positive none = Unit
Positive (some n) = 1 ≤ n

elem-append_left :
    (k j : String) (ks : List String) → elem k ks ≡ true → elem k (ks ++ j ∷ []) ≡ true
elem-append_left k j [] h = absurd cc
elem-append_left k j (i ∷ ks) h = ground (arith, elem-append_left k j ks)

elem-append_last : (k : String) (ks : List String) → elem k (ks ++ k ∷ []) ≡ true
elem-append_last k [] = rw (eq_refl k) refl
elem-append_last k (i ∷ ks) = ground (arith, elem-append_last k ks)

module _ {Coro : Type 0} where
  -- A stored task is active, and a periodic one has a positive interval.
  abbrev pub IsSound : String → ScheduledTask Coro → Type 0
  IsSound name t = (t.active ≡ true) × Positive t.interval

  -- While a tick runs, the one-shot tasks that it has launched are still stored.
  abbrev IsMarked : List String → String → ScheduledTask Coro → Type 0
  IsMarked rm name t = ((elem name rm ≡ true) ⊎ (t.active ≡ true)) × Positive t.interval

  mark :
      (k : String) (rm : List String) (j : String) (t : ScheduledTask Coro)
      → IsMarked rm j t
      → IsMarked (rm ++ k ∷ []) j t
  mark k rm j t (inl marked, p) = (inl (elem-append_left j k rm marked), p)
  mark k rm j t (inr active, p) = (inr active, p)

  fire-marks :
      (now wall : ℕ) (name : String) (t : ScheduledTask Coro) (s : Scheduler Coro)
      (rm : List String)
      → IsSound name t
      → Every (IsMarked rm) s.tasks
      → Every (IsMarked (fire now wall name t s rm).1) (fire now wall name t s rm).0.tasks
  unfolding fire
  fire-marks now wall name t s rm (active, p) h = elim (Option-cases t.interval) [
    | inl once ↦
        rw (fire, once)
          (put-Every (IsMarked (rm ++ name ∷ [])) name _ s.tasks (inl (elem-append_last name rm), p)
            (Every-weaken (mark name rm) s.tasks h))
    | inr (interval, periodic) ↦
        rw (fire, periodic) (put-Every (IsMarked rm) name _ s.tasks (inr active, p) h)
  ]

  fire_ready-marks :
      (now wall : ℕ) (ts : Dict (ScheduledTask Coro)) (s : Scheduler Coro) (rm : List String)
      → Every IsSound ts
      → Every (IsMarked rm) s.tasks
      → Every (IsMarked (fire_ready now wall ts s rm).1) (fire_ready now wall ts s rm).0.tasks
  unfolding fire_ready
  fire_ready-marks now wall [] s rm sound h = h
  fire_ready-marks now wall ((name, t) ∷ ts) s rm sound h = elim (Bool-cases (not t.active)) [
    | inl inactive ↦ rw (fire_ready, inactive) (fire_ready-marks now wall ts s rm sound.1 h)
    | inr active ↦ elim (Bool-cases (is_full s)) [
      | inl full ↦ rw (fire_ready, active, full) h
      | inr free ↦ elim (Bool-cases (leb t.next_run now)) [
        | inl due ↦
            rw (fire_ready, active, free, due)
              (fire_ready-marks now wall ts (fire now wall name t s rm).0
                (fire now wall name t s rm).1 sound.1 (fire-marks now wall name t s rm sound.0 h))
        | inr later ↦
            rw (fire_ready, active, free, later) (fire_ready-marks now wall ts s rm sound.1 h)
      ]
    ]
  ]

  unmark :
      (name : String) (rm : List String) (j : String) (t : ScheduledTask Coro)
      → ((j == name) ≡ false) × IsMarked (name ∷ rm) j t
      → IsMarked rm j t
  unmark name rm j t (other, (inl marked, p)) =
      (inl (ground (arith, eq_iff j name, eq_iff name j)), p)
  unmark name rm j t (other, (inr active, p)) = (inr active, p)

  unmarked : (j : String) (t : ScheduledTask Coro) → IsMarked [] j t → IsSound j t
  unmarked j t (inl marked, p) = absurd cc
  unmarked j t (inr active, p) = (active, p)

  remove_each-IsSound :
      (rm : List String) (tasks : Dict (ScheduledTask Coro))
      → Every (IsMarked rm) tasks
      → Every IsSound (remove_each rm tasks)
  remove_each-IsSound [] tasks h = Every-weaken unmarked tasks h
  remove_each-IsSound (name ∷ rm) tasks h = remove_each-IsSound rm (remove name tasks) (
      Every-weaken (unmark name rm) (remove name tasks)
        (remove-Every (IsMarked (name ∷ rm)) name tasks h))

  pub tick-IsSound :
      (now wall : ℕ) (s : Scheduler Coro)
      → Every IsSound s.tasks
      → Every IsSound (tick now wall s).tasks
  unfolding tick
  tick-IsSound now wall s h =
      remove_each-IsSound (fire_ready now wall s.tasks s []).1
        (fire_ready now wall s.tasks s []).0.tasks
        (fire_ready-marks now wall s.tasks s [] h
          (Every-weaken (λ k t h. (inr h.0, h.1)) s.tasks h))

  abbrev Sound : Scheduler Coro → Type 0
  Sound s = Every IsSound s.tasks

  Step-IsSound : {s s' : Scheduler Coro} → Step s s' → Sound s → Sound s'
  unfolding every once_at cancel pause resume poll
  Step-IsSound {s} (by_every seconds coro name generated now e) h =
      let (positive, same) = of_guard (leb seconds 0) e in
      subst Sound (ap (λ (r : String × Scheduler Coro). r.1) same)
        (put-Every IsSound _ _ s.tasks (refl, ground arith) h)
  Step-IsSound {s} (by_once_at timestamp coro name generated now wall) h =
      put-Every IsSound _ _ s.tasks (refl, tt) h
  Step-IsSound {s} (by_cancel name) h =
      Every-weaken (λ k t h. h.1) (remove name s.tasks) (remove-Every IsSound name s.tasks h)
  Step-IsSound by_pause h = h
  Step-IsSound by_resume h = h
  Step-IsSound {s} (by_poll now wall) h = if-keeps Sound s.paused h (tick-IsSound now wall s h)
  Step-IsSound (by_end before after coro e) h = h

  pub Reachable-IsSound : {limit : ℕ} {s : Scheduler Coro} → Reachable limit s → Sound s
  Reachable-IsSound at_start = tt
  Reachable-IsSound (after_step before step) = Step-IsSound step (Reachable-IsSound before)
