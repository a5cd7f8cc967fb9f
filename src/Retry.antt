-- ===== src/Retry.antt =====
-- swarmline/retry.py: when a failed call is tried again, and with which model. Delays are whole units of
-- time; the factor of the jitter is drawn at random, so what it makes of a delay is a parameter.
use mathlib.Core.Path.{subst}
use swarmline.Base.{
  ℕ, zero, suc, ◌*◌, ◌^◌, ◌<◌, min, String, Bool, true, false, Option, none, some, List, [], ◌∷◌,
  ◌++◌, ◌==◌, ◌≡◌, refl, sym, ap, ◌∙◌, arith, elem, length, leb, if◌then◌else◌, Distinct,
  Distinct-middle, eq_refl, append_assoc,
}

pub record ExponentialBackoff : Type 0 where
  pub max_retries : ℕ
  pub base_delay : ℕ
  pub max_delay : ℕ
  pub jitter : Bool

-- Whether to retry, and after which delay.
unfoldable pub should_retry : (ℕ → ℕ) → ExponentialBackoff → ℕ → Bool × ℕ
should_retry jittered p attempt =
    let delay = min (p.base_delay * 2 ^ attempt) p.max_delay in
    if leb p.max_retries attempt
    then (false, 0)
    else (true, if p.jitter then jittered delay else delay)

abbrev pub head : List String → Option String
head [] = none
head (m ∷ ms) = some m

-- `ModelFallbackChain.next_model`: what follows the first occurrence.
unfoldable pub next_model : List String → String → Option String
next_model [] current = none
next_model (m ∷ ms) current = if m == current then head ms else next_model ms current

-- A caller that falls back on each failure: the models that it comes to, on fuel.
unfoldable pub fallbacks : ℕ → List String → Option String → List String
unfolding next_model
fallbacks zero models current = []
fallbacks (suc fuel) models none = []
fallbacks (suc fuel) models (some m) = m ∷ fallbacks fuel models (next_model models m)

next_model-head :
    (pre : List String) (m : String) (ms : List String)
    → elem m pre ≡ false
    → next_model (pre ++ m ∷ ms) m ≡ head ms
unfolding next_model
next_model-head [] m ms h = rw (next_model, eq_refl m) refl
next_model-head (p ∷ pre) m ms h = ground (arith, next_model-head pre m ms)

fallbacks-from :
    (pre : List String) (ms : List String) (fuel : ℕ)
    → Distinct (pre ++ ms)
    → length ms < fuel
    → fallbacks fuel (pre ++ ms) (head ms) ≡ ms
unfolding fallbacks
fallbacks-from pre ms zero d h = absurd (omega arith)
fallbacks-from pre [] (suc fuel) d h = refl
fallbacks-from pre (m ∷ ms) (suc fuel) d h =
    let shift : (pre ++ m ∷ []) ++ ms ≡ pre ++ m ∷ ms = append_assoc pre (m ∷ []) ms in
    let rest : fallbacks fuel (pre ++ m ∷ ms) (head ms) ≡ ms =
      subst (λ (l : List String). fallbacks fuel l (head ms) ≡ ms) shift
        (fallbacks-from (pre ++ m ∷ []) ms fuel (subst Distinct (sym shift) d) (omega arith)) in
    ap (λ (l : List String). m ∷ l)
      (ap (fallbacks fuel (pre ++ m ∷ ms)) (next_model-head pre m ms (Distinct-middle pre m ms d))
        ∙ rest)

-- In a chain with no model twice, falling back again and again from the first model comes to each model
-- once, in their order, and ends after the last one.
pub fallbacks-all :
    (models : List String) (fuel : ℕ)
    → Distinct models
    → length models < fuel
    → fallbacks fuel models (head models) ≡ models
fallbacks-all models fuel d h = fallbacks-from [] models fuel d h
