-- ===== src/Circuit.antt =====
-- swarmline/resilience/circuit_breaker.py. Times are readings of `time.monotonic()` in ticks, given
-- as arguments; `elapsed >= cooldown` is written without the subtraction.
pub mod Laws
use swarmline.Base.{
  ℕ, ◌+◌, String, Bool, true, false, Option, none, some, List, [], ◌∷◌, if◌then◌else◌, leb,
}
use swarmline.Base.Dict.{Dict, get, put}

pub data CircuitState : Type 0 where
  closed open_circuit half_open : CircuitState

pub record CircuitBreaker : Type 0 where
  pub threshold : ℕ
  pub cooldown : ℕ
  pub state : CircuitState
  pub consecutive_failures : ℕ
  pub last_failure_time : ℕ

unfoldable pub new_breaker : ℕ → ℕ → CircuitBreaker
new_breaker failure_threshold cooldown_ticks = record {
  threshold = failure_threshold;
  cooldown = cooldown_ticks;
  state = closed;
  consecutive_failures = 0;
  last_failure_time = 0;
}

allow_in : CircuitState → ℕ → CircuitBreaker → Bool × CircuitBreaker
allow_in closed now b = (true, b)
allow_in open_circuit now b =
    if leb (b.last_failure_time + b.cooldown) now
    then (true, record b { state = half_open })
    else (false, b)
allow_in half_open now b = (true, b)

unfoldable pub allow_request : ℕ → CircuitBreaker → Bool × CircuitBreaker
unfolding allow_in
allow_request now b = allow_in b.state now b

abbrev after_success : CircuitState → CircuitState
after_success closed = closed
after_success half_open = closed
after_success open_circuit = open_circuit

unfoldable pub record_success : CircuitBreaker → CircuitBreaker
record_success b = record b { consecutive_failures = 0; state = after_success b.state }

abbrev after_failure : CircuitState → ℕ → ℕ → CircuitState
after_failure half_open failures threshold = open_circuit
after_failure closed failures threshold = if leb threshold failures then open_circuit else closed
after_failure open_circuit failures threshold = open_circuit

unfoldable pub record_failure : ℕ → CircuitBreaker → CircuitBreaker
record_failure now b = record b {
  consecutive_failures = b.consecutive_failures + 1;
  last_failure_time = now;
  state = after_failure b.state (b.consecutive_failures + 1) b.threshold;
}

pub record CircuitBreakerRegistry : Type 0 where
  pub threshold : ℕ
  pub cooldown : ℕ
  pub breakers : Dict CircuitBreaker

-- `get` creates the breaker that is missing.
unfoldable pub get_breaker :
    String → CircuitBreakerRegistry → CircuitBreaker × CircuitBreakerRegistry
unfolding new_breaker
get_breaker server_id r = elim (get server_id r.breakers) [
  | some b ↦ (b, r)
  | none ↦
      let b = new_breaker r.threshold r.cooldown in
      (b, record r { breakers = put server_id b r.breakers })
]
