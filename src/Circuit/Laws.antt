-- ===== src/Circuit/Laws.antt =====
-- The breaker as a state machine over its three calls.
use swarmline.Base.{
  some, eq_iff, ap, ℕ, ◌+◌, ◌<◌, String, ◌≡◌, refl, inl, inr, Bool, true, false, List, [], ◌∷◌,
  ◌==◌, if◌then◌else◌, leb, ltb, arith, length, Option-cases, Bool-cases, All,
}
use swarmline.Base.Dict.{get, get-put, get-put_self}
use swarmline.Circuit.{
  closed, open_circuit, half_open, CircuitBreaker, CircuitBreakerRegistry, new_breaker,
  allow_request, record_success, record_failure, get_breaker,
}

-- One call of a client, at the time that it happens.
pub data Call : Type 0 where
  request : ℕ → Call
  success : Call
  failure : ℕ → Call

pub apply : CircuitBreaker → Call → CircuitBreaker
unfolding allow_request record_success record_failure
apply b (request now) = (allow_request now b).1
apply b success = record_success b
apply b (failure now) = record_failure now b

pub run : CircuitBreaker → List Call → CircuitBreaker
run b [] = b
run b (c ∷ cs) = run (apply b c) cs

-- While the breaker is closed it has seen fewer consecutive failures than its threshold.
pub record IsSound (b : CircuitBreaker) : Type 0 where
  pub below : b.state ≡ closed → b.consecutive_failures < b.threshold

apply-IsSound : (b : CircuitBreaker) (c : Call) → 0 < b.threshold → IsSound b → IsSound (apply b c)
unfolding apply
apply-IsSound b (request now) pos h = ground (arith, h.below)
apply-IsSound b success pos h = ground (arith, h.below)
apply-IsSound b (failure now) pos h = ground (arith, h.below)

threshold-apply : (b : CircuitBreaker) (c : Call) → (apply b c).threshold ≡ b.threshold
unfolding apply
threshold-apply b (request now) = ground arith
threshold-apply b success = refl
threshold-apply b (failure now) = refl

-- If a breaker has a positive threshold and, should it be closed, fewer failures in a row than its
-- threshold, then the latter holds after any calls.
pub run-IsSound :
    (b : CircuitBreaker) (cs : List Call) → 0 < b.threshold → IsSound b → IsSound (run b cs)
unfolding run
run-IsSound b [] pos h = h
run-IsSound b (c ∷ cs) pos h =
    run-IsSound (apply b c) cs (omega (arith, threshold-apply b c)) (apply-IsSound b c pos h)

abbrev pub failures : List ℕ → List Call
failures [] = []
failures (t ∷ ts) = failure t ∷ failures ts

-- Failures do not close an open breaker.
run-failures_open :
    (b : CircuitBreaker) (times : List ℕ)
    → b.state ≡ open_circuit
    → (run b (failures times)).state ≡ open_circuit
unfolding run apply
run-failures_open b [] o = o
run-failures_open b (t ∷ ts) o = run-failures_open (record_failure t b) ts (ground arith)

-- A breaker that is closed and sound opens exactly when the failures that follow without a success
-- bring the count up to the threshold.
pub run-failures :
    (b : CircuitBreaker) (times : List ℕ)
    → b.state ≡ closed
    → IsSound b
    → (run b (failures times)).state
      ≡ (if leb b.threshold (b.consecutive_failures + length times) then open_circuit else closed)
unfolding run apply
run-failures b [] c h = ground (arith, h.below c)
run-failures b (t ∷ ts) c h = elim (Bool-cases (leb b.threshold (b.consecutive_failures + 1))) [
  | inl reached ↦ ground (arith, run-failures_open (record_failure t b) ts)
  | inr short ↦ ground (
    arith,
    run-failures (record_failure t b) ts (ground arith) (record { below = λ _. ground arith }),
  )
]

-- An open breaker refuses every request before the end of the cooldown and stays as it is; from then
-- on it admits the request and is half open.
pub allow_request-open :
    (b : CircuitBreaker) (now : ℕ)
    → b.state ≡ open_circuit
    → allow_request now b ≡ (
        if ltb now (b.last_failure_time + b.cooldown)
        then (false, b)
        else (true, record b { state = half_open }))
unfolding allow_request
allow_request-open b now o = ground arith

abbrev pub admissions : CircuitBreaker → List ℕ → List Bool
admissions b [] = []
admissions b (t ∷ ts) = (allow_request t b).0 ∷ admissions (allow_request t b).1 ts

-- A half open breaker admits any number of requests until a result is reported.
pub half_open_admits-All :
    (b : CircuitBreaker) (times : List ℕ)
    → b.state ≡ half_open
    → All (λ answer. answer ≡ true) (admissions b times)
unfolding allow_request
half_open_admits-All b [] h = tt
half_open_admits-All b (t ∷ ts) h =
    (ground arith, half_open_admits-All (allow_request t b).1 ts (ground arith))

-- Asking the registry again gives the same breaker and changes nothing, and the breakers of other
-- servers are not touched.
pub get_breaker_lem :
    (s j : String) (r : CircuitBreakerRegistry)
    → (get_breaker s (get_breaker s r).1 ≡ ((get_breaker s r).0, (get_breaker s r).1))
      × (get j (get_breaker s r).1.breakers
          ≡ (if s == j then some (get_breaker s r).0 else get j r.breakers))
unfolding get_breaker
get_breaker_lem s j r = elim (Option-cases (get s r.breakers)) [
  | inl missing ↦ ground (
    arith,
    missing,
    get-put_self s (new_breaker r.threshold r.cooldown) r.breakers,
    get-put s j (new_breaker r.threshold r.cooldown) r.breakers,
  )
  | inr (b, found) ↦
      ground (arith, found, eq_iff s j, λ (e : s ≡ j). ap (λ (k : String). get k r.breakers) e)
]
