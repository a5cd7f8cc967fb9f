-- ===== src/Dataflow/Stages.antt =====
-- swarmline/pipeline/stages/: the runners of the stage kinds. What user code does is a parameter: a
-- handler is a function that may change the context and may raise, and its number of positional
-- parameters is its constructor. The texts of messages are a parameter too.
pub mod Typed
pub mod Guard
pub mod Loop
pub mod Parallel
pub mod FanOut
pub mod Retries
pub mod Reviews
pub mod Joins
pub mod Keys
use swarmline.Base.{ℕ, String, Bool, Option, none, some, List, ◌≡◌, refl, ◌⊎◌, inl, inr}
use swarmline.Dataflow.{ErrorText}

-- How a call of user code ends.
pub data Answer (A : Type 0) : Type 0 where
  answers : A → Answer A
  raises : String → Answer A

pub Answer-cases :
    {A : Type 0} (a : Answer A) → ((m : String) × (a ≡ raises m)) ⊎ ((v : A) × (a ≡ answers v))
Answer-cases (answers v) = inr (v, refl)
Answer-cases (raises m) = inl (m, refl)

-- A callable by its positional parameters: `(value)`, `(value, ctx)` or `(value, ctx, params)`.
pub data Handler (Value Context Params A : Type 0) : Type 0 where
  takes_value : (Value → Answer A) → Handler Value Context Params A
  takes_context : (Value → Context → Answer A × Context) → Handler Value Context Params A
  takes_params : (Value → Context → Params → Answer A × Context) → Handler Value Context Params A

-- The messages that the runners format.
pub record Texts : Type 0 where
  pub validator_failed : String → String
  pub body_failed : String → String → String
  pub not_approved : String → ℕ → String
  pub no_case : String → String → String
  pub branch_failed : String → String → String
  pub joined : List ErrorText → String
  pub no_runner : String → String
  pub no_outcome : String → String
  pub all_failed : String
  pub dotted : String → String → String

-- `StageDependency`
pub data StageDependency : Type 0 where
  llm io pure : StageDependency

-- `StageConfigError` of a constructor.
pub data ConfigError : Type 0 where
  empty_name few_attempts retry_impure few_iterations no_cases no_branches few_items : ConfigError

abbrev pub is_pure : StageDependency → Bool
is_pure pure = Bool.true
is_pure _ = Bool.false

module _ {Value Context Params A : Type 0} where
  unfoldable pub call_with_arity :
      Handler Value Context Params A → Value → Context → Params → Answer A × Context
  call_with_arity (takes_value f) value ctx params = (f value, ctx)
  call_with_arity (takes_context f) value ctx params = f value ctx
  call_with_arity (takes_params f) value ctx params = f value ctx params
