-- ===== src/Dataflow/Stages/Retries.antt =====
-- swarmline/pipeline/stages/typed_stage.py: what the retries of a typed stage return, against its
-- attempts taken one after another.
use swarmline.Base.{
  ℕ, zero, suc, ◌+◌, ◌≤◌, ◌<◌, String, true, false, none, [], leb, ◌≡◌, refl, arith, ap, ◌⊎◌,
  Bool-cases, inl, inr,
}
use swarmline.Dataflow.{StageOutcome, StageExecutionError, Ending, outcome, fatal, raised}
use swarmline.Dataflow.Stages.{Answer, answers, raises, Texts, is_pure}
use swarmline.Dataflow.Stages.Typed.{
  TypedStage, check_typed_stage, attempt, attempts_from, run_typed_stage,
}

abbrev pub first_time : {Value : Type 0} → Value → ℕ → StageOutcome Value
first_time v n = record {
  value = v;
  attempts = n;
  terminate_early = false;
  sub_attempts = [];
  errors = [];
}

abbrev pub given_up : String → ℕ → StageExecutionError
given_up message n = record { message = message; attempts = n; sub_attempts = []; errors = [] }

leb-true : (m n : ℕ) → n ≤ m → leb n m ≡ true
leb-true m n h = ground arith

leb-false : (m n : ℕ) → m < n → leb n m ≡ false
leb-false m n h = ground arith

zero_plus : (n : ℕ) → 0 + n ≡ n
zero_plus n = omega arith

later_by_one : (j n : ℕ) → j + (n + 1) ≡ suc j + n
later_by_one j n = omega arith

last_number : (n left m : ℕ) → left ≡ 0 → suc left + n ≡ suc m → n ≡ m
last_number n left m h e = omega arith

Answer-cases :
    {A : Type 0} (a : Answer A)
    → ((v : A) × (a ≡ answers v)) ⊎ ((message : String) × (a ≡ raises message))
Answer-cases (answers v) = inl (v, refl)
Answer-cases (raises message) = inr (message, refl)

at_most_last : (left n m : ℕ) → leb m n ≡ true → suc left + n ≡ suc m → n ≡ m
at_most_last left n m h e = ground arith

attempts_left : (left n m : ℕ) → leb m n ≡ false → suc left + n ≡ suc m → 1 ≤ left
attempts_left left n m h e = ground arith

module _ {Value Context Params : Type 0} (t : Texts) (s : TypedStage Value Context Params)
    (value : Value) where
  -- The given number of attempts end with an exception, one after another.
  pub data Failed : ℕ → Context → Context → Type 0 where
    no_attempt : {c : Context} → Failed 0 c c
    one_more :
        {n : ℕ} {message : String} {c c₁ c' : Context}
        → attempt t s value c ≡ (raises message, c₁)
        → Failed n c₁ c'
        → Failed (suc n) c c'

  attempts_from-answers :
      (v : Value) {k : ℕ} (left n : ℕ) {c c₁ c₂ : Context}
      → Failed k c c₁
      → attempt t s value c₁ ≡ (answers v, c₂)
      → k < left
      → left + n ≡ suc s.max_attempts
      → attempts_from t s value left n c ≡ (outcome (first_time v (k + n)), c₂, [])
  unfolding attempts_from
  attempts_from-answers v zero n failed ran h e = absurd (omega arith)
  attempts_from-answers v (suc left) n no_attempt ran h e =
      rw
        (
          attempts_from,
          ap (λ (r : Answer Value × Context). r.0) ran,
          ap (λ (r : Answer Value × Context). r.1) ran,
          zero_plus n,
        )
        refl
  attempts_from-answers v {k = suc j} (suc left) n (one_more failing failed) ran h e =
      rw
        (
          attempts_from,
          ap (λ (r : Answer Value × Context). r.0) failing,
          leb-false n s.max_attempts (omega arith),
          ap (λ (r : Answer Value × Context). r.1) failing,
          attempts_from-answers v {k = j} left (n + 1) failed ran (omega arith) (omega arith),
          later_by_one j n,
        )
        refl

  attempts_from-raises :
      {k : ℕ} (message : String) (left n : ℕ) {c c₁ c₂ : Context}
      → Failed k c c₁
      → attempt t s value c₁ ≡ (raises message, c₂)
      → suc k ≡ left
      → left + n ≡ suc s.max_attempts
      → attempts_from t s value left n c ≡ (fatal (given_up message s.max_attempts), c₂, [])
  unfolding attempts_from
  attempts_from-raises message zero n failed ran h e = absurd (omega arith)
  attempts_from-raises message (suc left) n no_attempt ran h e =
      rw
        (
          attempts_from,
          ap (λ (r : Answer Value × Context). r.0) ran,
          leb-true n s.max_attempts (omega arith),
          ap (λ (r : Answer Value × Context). r.1) ran,
          last_number n left s.max_attempts (omega arith) (omega arith),
        )
        refl
  attempts_from-raises {k = suc j} message (suc left) n (one_more failing failed) ran h e =
      rw
        (
          attempts_from,
          ap (λ (r : Answer Value × Context). r.0) failing,
          leb-false n s.max_attempts (omega arith),
          ap (λ (r : Answer Value × Context). r.1) failing,
          attempts_from-raises {k = j} message left (n + 1) failed ran (omega arith) (omega arith),
        )
        refl

  -- When some attempts end with an exception and the next one, which is still within the maximum,
  -- answers a value, the stage's outcome is that value, with the number of that attempt, and the
  -- context is the one that this attempt leaves.
  pub run_typed_stage-answers :
      (v : Value) {k : ℕ} {c c₁ c₂ : Context}
      → Failed k c c₁
      → attempt t s value c₁ ≡ (answers v, c₂)
      → k < s.max_attempts
      → run_typed_stage t s value c ≡ (outcome (first_time v (k + 1)), c₂, [])
  unfolding run_typed_stage
  run_typed_stage-answers v failed ran h =
      attempts_from-answers v s.max_attempts 1 failed ran h (omega arith)

  -- When as many attempts as the maximum end with an exception, one after another, the stage fails
  -- with the message of the last one and the maximum as its number of attempts.
  pub run_typed_stage-raises :
      (message : String) {k : ℕ} {c c₁ c₂ : Context}
      → Failed k c c₁
      → attempt t s value c₁ ≡ (raises message, c₂)
      → k + 1 ≡ s.max_attempts
      → run_typed_stage t s value c ≡ (fatal (given_up message s.max_attempts), c₂, [])
  unfolding run_typed_stage
  run_typed_stage-raises message failed ran h =
      attempts_from-raises message s.max_attempts 1 failed ran (omega arith) (omega arith)

  -- An ending whose number of attempts is within the maximum.
  abbrev pub Bounded : Ending Value → Type 0
  Bounded (outcome o) = (1 ≤ o.attempts) × (o.attempts ≤ s.max_attempts)
  Bounded (fatal e) = e.attempts ≡ s.max_attempts
  Bounded (raised message) = 1 ≤ 0

  attempts_from-Bounded :
      (left n : ℕ) (c : Context)
      → 1 ≤ left
      → 1 ≤ n
      → left + n ≡ suc s.max_attempts
      → Bounded (attempts_from t s value left n c).0
  unfolding attempts_from
  attempts_from-Bounded zero n c h h' e = absurd (omega arith)
  attempts_from-Bounded (suc left) n c h h' e = elim (Answer-cases (attempt t s value c).0) [
    | inl (v, ran) ↦ rw (attempts_from, ran) (h', omega arith)
    | inr (message, ran) ↦ elim (Bool-cases (leb s.max_attempts n)) [
      | inl last ↦ rw (attempts_from, ran, last) (at_most_last left n s.max_attempts last e)
      | inr more ↦
          rw (attempts_from, ran, more)
            (attempts_from-Bounded left (n + 1) (attempt t s value c).1
              (attempts_left left n s.max_attempts more e) (omega arith) (omega arith))
    ]
  ]

  -- When the maximum is at least one, the runner does not raise: its outcome has a number of
  -- attempts between one and the maximum, or it fails with the maximum as the number.
  pub run_typed_stage-Bounded :
      (c : Context) → 1 ≤ s.max_attempts → Bounded (run_typed_stage t s value c).0
  unfolding run_typed_stage
  run_typed_stage-Bounded c h =
      attempts_from-Bounded s.max_attempts 1 c h (omega arith) (omega arith)

  one_attempt : check_typed_stage s ≡ none → is_pure s.dependency ≡ false → s.max_attempts ≡ 1
  unfolding check_typed_stage
  one_attempt ok impure = ground arith

  attempts_from-once :
      (left : ℕ) (c : Context)
      → left ≡ 1
      → s.max_attempts ≡ 1
      → (attempts_from t s value left 1 c).1 ≡ (attempt t s value c).1
  unfolding attempts_from
  attempts_from-once zero c one e = absurd (omega arith)
  attempts_from-once (suc left) c one e = elim (Answer-cases (attempt t s value c).0) [
    | inl (v, ran) ↦ rw (attempts_from, ran) refl
    | inr (message, ran) ↦ rw (attempts_from, ran, leb-true 1 s.max_attempts (omega arith)) refl
  ]

  -- A stage that passes its own checks and that depends on a language model or on I/O is tried once:
  -- the context is the one that a single attempt leaves.
  pub run_typed_stage-once :
      (c : Context)
      → check_typed_stage s ≡ none
      → is_pure s.dependency ≡ false
      → (run_typed_stage t s value c).1 ≡ (attempt t s value c).1
  unfolding run_typed_stage
  run_typed_stage-once c ok impure =
      attempts_from-once s.max_attempts c (one_attempt ok impure) (one_attempt ok impure)
