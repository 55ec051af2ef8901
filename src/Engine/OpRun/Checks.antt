-- ===== src/Engine/OpRun/Checks.antt =====
-- What `runChecks` leaves behind.
use scampi.Base.{
  ℕ, ◌≡◌, ◌≢◌, refl, inl, inr, true, Option, none, some, List, [], ◌∷◌, arith, ◌==◌, update,
  contains, IsDistinct, Bool-cases, Option-cases,
}
use scampi.Spec.Resource.{Resource}
use scampi.Spec.Execution.{CheckResult, check_satisfied, check_unsatisfied, check_unknown}
use scampi.Engine.OpRun.{
  op_succeeded, op_failed, op_aborted, op_skipped, op_would_change, Err, OpState, CheckError,
  CheckAnswer, Checked, new_op, is_deferred, take_result, take_error, check_op, first_error,
  run_checks, unchecked,
}
use scampi.Engine.OpRun.Report.{is_some}

-- An op that no goroutine has executed: what its outcome says of the other fields, and of the error
-- of the whole phase.
pub record IsChecked (first_err : Option Err) (n : OpState) : Type 0 where
  pub no_result : n.result ≡ none
  pub skipped : n.satisfied ≡ true → n.outcome ≡ op_skipped
  pub satisfied : n.outcome ≡ op_skipped → n.satisfied ≡ true
  pub aborted : n.outcome ≡ op_aborted → (is_some n.err ≡ true) × (is_some first_err ≡ true)
  pub clean : n.outcome ≢ op_aborted → n.err ≡ none
  pub not_run : (n.outcome ≢ op_succeeded) × (n.outcome ≢ op_failed)

new_op-IsChecked : (e : Option Err) → IsChecked e new_op
new_op-IsChecked e = record {
  no_result = refl;
  skipped = λ h. cc;
  satisfied = λ h. cc;
  aborted = λ h. cc;
  clean = λ h. refl;
  not_run = (λ h. cc, λ h. cc);
}

-- A later error changes nothing for an op that has been checked.
later_error : (e f : Option Err) (n : OpState) → IsChecked e n → IsChecked (first_error e f) n
later_error none f n v = record {
  no_result = v.no_result;
  skipped = v.skipped;
  satisfied = v.satisfied;
  aborted = λ h. absurd (ground (arith, v.aborted h));
  clean = v.clean;
  not_run = v.not_run;
}
later_error (some e) f n v = v

take_result-IsChecked :
    (r : CheckResult) (e : Option Err)
    → IsChecked (first_error e (take_result r new_op).1) (take_result r new_op).0
take_result-IsChecked check_satisfied e = record {
  no_result = refl;
  skipped = λ h. refl;
  satisfied = λ h. refl;
  aborted = λ h. cc;
  clean = λ h. refl;
  not_run = (λ h. cc, λ h. cc);
}
take_result-IsChecked check_unsatisfied e = new_op-IsChecked _
take_result-IsChecked check_unknown e = new_op-IsChecked _

abbrev IsGood : Option Err → OpState × Option Err → Type 0
IsGood e p = IsChecked (first_error e p.1) p.0

take_error-IsChecked :
    (provided : List Resource) (c : CheckError) (r : CheckResult) (e : Option Err)
    → IsGood e (take_error provided c r new_op)
take_error-IsChecked provided c r e = elim (Bool-cases (is_deferred provided c)) [
  | inl d ↦ rw d (record {
    no_result = refl;
    skipped = λ h. cc;
    satisfied = λ h. cc;
    aborted = λ h. cc;
    clean = λ h. refl;
    not_run = (λ h. cc, λ h. cc);
  })
  | inr d ↦ elim (Bool-cases c.aborts) [
    | inl a ↦
        rw (d, a)
          (record {
            no_result = refl;
            skipped = λ h. cc;
            satisfied = λ h. cc;
            aborted = λ h. ground arith;
            clean = λ h. absurd (h refl);
            not_run = (λ h. cc, λ h. cc);
          })
    | inr a ↦ elim (Bool-cases c.consumed) [
      | inl k ↦ rw (d, a, k) (take_result-IsChecked r e)
      | inr k ↦ rw (d, a, k) (new_op-IsChecked _)
    ]
  ]
]

check_op-IsChecked :
    (provided : List Resource) (a : CheckAnswer) (e : Option Err)
    → IsGood e (check_op provided a new_op)
unfolding check_op
check_op-IsChecked provided a e = elim (Option-cases a.err) [
  | inl n ↦ rw (n, check_op) (take_result-IsChecked a.res e)
  | inr (c, s) ↦ rw (s, check_op) (take_error-IsChecked provided c a.res e)
]

-- Ops that are still to be checked are new.
run_checks-IsChecked :
    (provided : List Resource) (answers : ℕ → CheckAnswer) (is : List ℕ) (c : Checked)
    → ((j : ℕ) → IsChecked c.first_err (c.ops j))
    → ((j : ℕ) → contains is j ≡ true → c.ops j ≡ new_op)
    → IsDistinct is
    → (j : ℕ)
    → IsChecked
        (run_checks provided answers is c).first_err
        ((run_checks provided answers is c).ops j)
unfolding run_checks
run_checks-IsChecked provided answers [] c v new d j = v j
run_checks-IsChecked provided answers (i ∷ is) c v new d j =
    run_checks-IsChecked provided answers is _ all (λ k h. ground (arith, new k, d.0)) d.1 j
  where
    all :
        (k : ℕ)
        → IsChecked
            (first_error c.first_err (check_op provided (answers i) (c.ops i)).1)
            (update c.ops i (check_op provided (answers i) (c.ops i)).0 k)
    all k = elim (Bool-cases (k == i)) [
      | inl same ↦
          rw (same, new i (ground arith)) (check_op-IsChecked provided (answers i) c.first_err)
      | inr other ↦ rw other (later_error c.first_err _ (c.ops k) (v k))
    ]

-- After `runChecks`, whatever the order of arrival.
pub run_checks_unchecked-IsChecked :
    (provided : List Resource) (answers : ℕ → CheckAnswer) (is : List ℕ)
    → IsDistinct is
    → (j : ℕ)
    → IsChecked
        (run_checks provided answers is unchecked).first_err
        ((run_checks provided answers is unchecked).ops j)
run_checks_unchecked-IsChecked provided answers is d j =
    run_checks-IsChecked provided answers is unchecked (λ k. new_op-IsChecked none) (λ k h. refl) d
      j

-- Without upstream resources, as in `runStep`, no op's check is deferred.
abbrev pub IsSettled : OpState → Type 0
IsSettled n = n.outcome ≢ op_would_change

check_op-IsSettled : (a : CheckAnswer) (n : OpState) → IsSettled n → IsSettled (check_op [] a n).0
unfolding check_op is_deferred
check_op-IsSettled a n h = ground arith

pub run_checks-IsSettled :
    (answers : ℕ → CheckAnswer) (is : List ℕ) (c : Checked)
    → ((j : ℕ) → IsSettled (c.ops j))
    → (j : ℕ) → IsSettled ((run_checks [] answers is c).ops j)
unfolding run_checks
run_checks-IsSettled answers [] c h j = h j
run_checks-IsSettled answers (i ∷ is) c h j =
    run_checks-IsSettled answers is _
      (λ k. ground (arith, h k, check_op-IsSettled (answers i) (c.ops i) (h i))) j
