-- ===== src/Dod/Loops.antt =====
-- Which loop decides a verification.
use swarmline.Base.{
  ℕ, zero, suc, ◌+◌, ◌≤◌, ◌<◌, String, ◌≡◌, refl, sym, inl, inr, true, Option, none, some, List, [],
  ◌∷◌, ◌++◌, ◌==◌, arith, Bool-cases, Option-cases, of_some, if-elim, &&-both, elem, eq_iff, ap,
}
use native.Mathlib.Decide.{dec_lt}
use mathlib.Core.Path.{subst}
use swarmline.Dod.{
  passed, max_loops_exceeded, VerificationStatus, pass, fail, skip, is_pass, Method,
  verify_contracts, verify_tests_substantive, verify_tests_before_code, verify_linters,
  verify_coverage, LogLine, loop_header, DodResult, Verifier, method_of, run_criterion,
  run_criteria, loops, verify_dod,
}

-- The method that verifies what a criterion in lower case names.
pub data Names : String → Method → Type 0 where
  contracts : Names "contracts" verify_contracts
  tests : Names "tests" verify_tests_substantive
  tdd : Names "tdd" verify_tests_before_code
  linters : Names "linters" verify_linters
  coverage : Names "coverage" verify_coverage

-- In this loop the criterion names a method, and the method answers PASS.
abbrev pub Passes : Verifier → ℕ → String → Type 0
Passes v loop c = (m : Method) × Names (v.lower c) m × (v.run loop m ≡ pass)

abbrev pub AllPass : Verifier → List String → ℕ → Type 0
AllPass v [] loop = Unit
AllPass v (c ∷ cs) loop = Passes v loop c × AllPass v cs loop

-- Of the loops from `loop` on, the first in which all pass is `k`.
pub record FirstPass (v : Verifier) (criteria : List String) (loop k : ℕ) : Type 0 where
  pub passes : AllPass v criteria k
  pub not_before : (j : ℕ) → loop ≤ j → j < k → ¬ (AllPass v criteria j)

pub data Decided (v : Verifier) (criteria : List String) (max_loops loop left : ℕ) (r : DodResult)
    : Type 0 where
  in_loop :
      (k : ℕ)
      → FirstPass v criteria loop k
      → loop ≤ k
      → k < loop + left
      → r.status ≡ passed
      → r.loop_count ≡ k
      → Decided v criteria max_loops loop left r
  in_none :
      ((j : ℕ) → loop ≤ j → j < loop + left → ¬ (AllPass v criteria j))
      → r.status ≡ max_loops_exceeded
      → r.loop_count ≡ max_loops
      → Decided v criteria max_loops loop left r

Names-method_of : {name : String} {m : Method} → Names name m → method_of name ≡ some m
unfolding method_of
Names-method_of contracts = refl
Names-method_of tests = refl
Names-method_of tdd = refl
Names-method_of linters = refl
Names-method_of coverage = refl

at_name : {name k : String} {m : Method} → Names k m → (name == k) ≡ true → Names name m
at_name {name} {k} {m} n e = subst (λ (s : String). Names s m) (sym ((eq_iff name k).0 e)) n

method_of-Names : (name : String) (m : Method) → method_of name ≡ some m → Names name m
unfolding method_of
method_of-Names name m =
    if-elim (Finds m) (name == "contracts") (λ e h. found (at_name contracts e) h)
      (λ _.
        if-elim (Finds m) (name == "tests") (λ e h. found (at_name tests e) h)
          (λ _.
            if-elim (Finds m) (name == "tdd") (λ e h. found (at_name tdd e) h)
              (λ _.
                if-elim (Finds m) (name == "linters") (λ e h. found (at_name linters e) h)
                  (λ _.
                    if-elim (Finds m) (name == "coverage") (λ e h. found (at_name coverage e) h)
                      (λ _ h. absurd cc)))))
  where
    Finds : Method → Option Method → Type 0
    Finds m o = o ≡ some m → Names name m

    found : {m n : Method} → Names name n → some n ≡ some m → Names name m
    found n h = subst (λ (k : Method). Names name k) (of_some h) n

is_pass-pass : (s : VerificationStatus) → is_pass s ≡ true → s ≡ pass
is_pass-pass pass h = refl
is_pass-pass fail h = absurd cc
is_pass-pass skip h = absurd cc

run_criterion-Passes :
    (v : Verifier) (loop : ℕ) (c : String) → (run_criterion v loop c).1 ≡ true → Passes v loop c
unfolding run_criterion
run_criterion-Passes v loop c ok = elim (Option-cases (method_of (v.lower c))) [
  | inl unknown ↦ absurd (cc (unknown, ok))
  | inr (m, known) ↦ (
    m,
    method_of-Names (v.lower c) m known,
    is_pass-pass (v.run loop m) (ground (arith, known, ok)),
  )
]

Passes-run_criterion :
    (v : Verifier) (loop : ℕ) (c : String) → Passes v loop c → (run_criterion v loop c).1 ≡ true
unfolding run_criterion
Passes-run_criterion v loop c (m, named, passes) =
    rw (run_criterion, Names-method_of named) (ap is_pass passes)

run_criteria-AllPass :
    (v : Verifier) (loop : ℕ) (cs : List String)
    → (run_criteria v loop cs).0 ≡ true
    → AllPass v cs loop
unfolding run_criteria
run_criteria-AllPass v loop [] h = tt
run_criteria-AllPass v loop (c ∷ cs) h =
    let (here, rest) = &&-both (run_criterion v loop c).1 (run_criteria v loop cs).0 h in
    (run_criterion-Passes v loop c here, run_criteria-AllPass v loop cs rest)

AllPass-run_criteria :
    (v : Verifier) (loop : ℕ) (cs : List String)
    → AllPass v cs loop
    → (run_criteria v loop cs).0 ≡ true
unfolding run_criteria
AllPass-run_criteria v loop [] h = refl
AllPass-run_criteria v loop (c ∷ cs) (here, rest) =
    rw (Passes-run_criterion v loop c here) (AllPass-run_criteria v loop cs rest)

-- A loop in which not all pass, put before the others.
earlier :
    (v : Verifier) (cs : List String) (loop bound : ℕ)
    → ¬ (AllPass v cs loop)
    → ((j : ℕ) → suc loop ≤ j → j < bound → ¬ (AllPass v cs j))
    → (j : ℕ) → loop ≤ j
    → j < bound
    → ¬ (AllPass v cs j)
earlier v cs loop bound short others j lo hi = elim (dec_lt loop j) [
  | yes past ↦ others j past hi
  | no here ↦ let same : loop ≡ j = omega arith in subst (λ (i : ℕ). ¬ (AllPass v cs i)) same short
]

later :
    {v : Verifier} {cs : List String} {m loop left : ℕ} {r : DodResult}
    → ¬ (AllPass v cs loop)
    → Decided v cs m (suc loop) left r
    → Decided v cs m loop (suc left) r
later {v} {cs} {m} {loop} {left} short (in_loop k first lo hi s c) =
    in_loop k
      (record { passes = first.passes; not_before = earlier v cs loop k short first.not_before })
      (omega arith) (omega arith) s c
later {v} {cs} {m} {loop} {left} short (in_none others s c) =
    in_none
      (λ j lo hi.
        earlier v cs loop (loop + suc left) short (λ i l h. others i l (omega arith)) j lo hi)
      s c

loops-Decided :
    (v : Verifier) (max_loops : ℕ) (criteria : List String) (left loop : ℕ) (log : List LogLine)
    → Decided v criteria max_loops loop left (loops v max_loops criteria left loop log)
unfolding loops
loops-Decided v m cs zero loop log = in_none (λ j lo hi. absurd (omega arith)) refl refl
loops-Decided v m cs (suc left) loop log = elim (Bool-cases (run_criteria v loop cs).0) [
  | inl ok ↦
      rw (ok, loops)
        (in_loop loop
          (record {
            passes = run_criteria-AllPass v loop cs ok;
            not_before = λ j lo hi. absurd (omega arith);
          })
          (omega arith) (omega arith) refl refl)
  | inr short ↦
      rw (short, loops)
        (later (λ all. absurd (cc (AllPass-run_criteria v loop cs all, short)))
          (loops-Decided v m cs left (suc loop)
            (log ++ loop_header loop m ∷ (run_criteria v loop cs).1)))
]

-- With at least one criterion a verification ends in one of two ways: PASSED with the number of the
-- first loop, of loops 1 to `max_loops`, in which every criterion, in lower case, names a method of
-- the verifier that answers PASS; or MAX_LOOPS_EXCEEDED with the count `max_loops`, when there is no
-- such loop.
pub verify_dod-Decided :
    (max_loops : ℕ) (c : String) (cs : List String) (v : Verifier)
    → Decided v (c ∷ cs) max_loops 1 max_loops (verify_dod max_loops (c ∷ cs) v)
unfolding verify_dod
verify_dod-Decided max_loops c cs v = loops-Decided v max_loops (c ∷ cs) max_loops 1 []

unknown_fails :
    (v : Verifier) (name : String) (cs : List String) (loop : ℕ)
    → elem name cs ≡ true
    → method_of (v.lower name) ≡ none
    → ¬ (AllPass v cs loop)
unknown_fails v name [] loop h unknown all = absurd cc
unknown_fails v name (x ∷ cs) loop h unknown ((m, named, passes), rest) =
    elim (Bool-cases (x == name)) [
      | inl same ↦ absurd (
          cc (
            unknown,
            ap (λ (s : String). method_of (v.lower s)) ((eq_iff x name).0 same),
            Names-method_of named,
          ))
      | inr other ↦ unknown_fails v name cs loop (ground arith) unknown rest
    ]

-- A criterion that no verifier method is known for makes every verification fail: it is not skipped.
pub unknown_criterion_fails :
    (max_loops : ℕ) (name c : String) (cs : List String) (v : Verifier)
    → elem name (c ∷ cs) ≡ true
    → method_of (v.lower name) ≡ none
    → (verify_dod max_loops (c ∷ cs) v).status ≡ max_loops_exceeded
unknown_criterion_fails max_loops name c cs v among unknown =
    decide_none (verify_dod-Decided max_loops c cs v)
  where
    decide_none :
        {r : DodResult} → Decided v (c ∷ cs) max_loops 1 max_loops r → r.status ≡ max_loops_exceeded
    decide_none (in_loop k first lo hi s n) =
        absurd (unknown_fails v name (c ∷ cs) k among unknown first.passes)
    decide_none (in_none others s n) = s
