-- ===== src/Dod.antt =====
-- swarmline/orchestration/dod_state_machine.py. A run of a verifier method is a function of the loop
-- and the method, since a method may answer differently each time; `lower` is Python's. The log is
-- the list of its lines.
pub mod Loops
use swarmline.Base.{
  ℕ, zero, suc, ◌+◌, ◌<◌, String, Bool, true, false, ◌&&◌, Option, none, some, List, [], ◌∷◌, ◌++◌,
  ◌==◌, if◌then◌else◌, ltb,
}

pub data DodStatus : Type 0 where
  pending verifying passed failed max_loops_exceeded : DodStatus

pub data VerificationStatus : Type 0 where
  pass fail skip : VerificationStatus

-- `VerificationResult.passed`
abbrev pub is_pass : VerificationStatus → Bool
is_pass pass = true
is_pass _ = false

pub data Method : Type 0 where
  verify_contracts verify_tests_substantive verify_tests_before_code : Method
  verify_linters verify_coverage : Method

pub data LogLine : Type 0 where
  no_criteria : LogLine
  loop_header : ℕ → ℕ → LogLine
  criterion_line : String → VerificationStatus → LogLine

pub record DodResult : Type 0 where
  pub status : DodStatus
  pub loop_count : ℕ
  pub verification_log : List LogLine

-- What the machine uses from outside: the verifier and `str.lower`.
pub record Verifier : Type 0 where
  pub run : ℕ → Method → VerificationStatus
  pub lower : String → String

-- `method_map.get(...)`
unfoldable pub method_of : String → Option Method
method_of name =
    if name == "contracts"
    then some verify_contracts
    else if name == "tests"
    then some verify_tests_substantive
    else if name == "tdd"
    then some verify_tests_before_code
    else if name == "linters"
    then some verify_linters
    else if name == "coverage"
    then some verify_coverage
    else none

abbrev pub CriterionResult : Type 0
CriterionResult = VerificationStatus × Bool

unfoldable pub run_criterion : Verifier → ℕ → String → CriterionResult
run_criterion v loop criterion = elim (method_of (v.lower criterion)) [
  | none ↦ (skip, false)
  | some method ↦ (v.run loop method, is_pass (v.run loop method))
]

-- The inner `for`: whether all passed, and the lines of the log.
unfoldable pub run_criteria : Verifier → ℕ → List String → Bool × List LogLine
run_criteria v loop [] = (true, [])
run_criteria v loop (c ∷ cs) =
    let (status, ok) = run_criterion v loop c in
    let (all_passed, lines) = run_criteria v loop cs in
    (ok && all_passed, criterion_line c status ∷ lines)

-- The outer `for`, with `left` loops to go from `loop` on.
unfoldable pub loops : Verifier → ℕ → List String → ℕ → ℕ → List LogLine → DodResult
loops v max_loops criteria zero loop log = record {
  status = max_loops_exceeded;
  loop_count = max_loops;
  verification_log = log;
}
loops v max_loops criteria (suc left) loop log =
    let (all_passed, lines) = run_criteria v loop criteria in
    let log' = log ++ loop_header loop max_loops ∷ lines in
    let rest = loops v max_loops criteria left (suc loop) log' in
    if all_passed
    then record { status = passed; loop_count = loop; verification_log = log' }
    else rest

unfoldable pub verify_dod : ℕ → List String → Verifier → DodResult
verify_dod max_loops [] v = record {
  status = passed;
  loop_count = 0;
  verification_log = no_criteria ∷ [];
}
verify_dod max_loops (c ∷ cs) v = loops v max_loops (c ∷ cs) max_loops 1 []

-- The constructor raises `ValueError` for less than one loop.
unfoldable pub new_machine : ℕ → Option ℕ
new_machine max_loops = if ltb max_loops 1 then none else some max_loops
