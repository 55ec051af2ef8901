-- ===== src/Engine/OpRun/Outcome.antt =====
-- A step's ops: none runs before what it depends on, and each ends with one outcome.
use scampi.Base.{
  ℕ, zero, suc, ◌+◌, ◌≤◌, ◌<◌, ◌≡◌, ◌≢◌, refl, ap, true, Option, none, some, List, [], ◌∷◌, arith,
  length, range, range_from, All, IsDistinct,
}
use scampi.Spec.Resource.{Resource}
use scampi.Engine.OpRun.{op_succeeded, Err, OpState, CheckAnswer, run_checks, unchecked}
use scampi.Engine.OpRun.Report.{
  StepSummary, no_ops, mark_unknown, validate_op_report, build_step_report, count_outcome,
}
use scampi.Engine.OpRun.Checks.{IsChecked, run_checks_unchecked-IsChecked}

-- The outcomes that were counted.
abbrev pub counted : StepSummary → ℕ
counted s = s.succeeded + s.failed + s.aborted + s.skipped + s.would_change

-- The report of valid ops adds up.
pub record AddsUp (ns : List OpState) (s : StepSummary) (report : Option StepSummary) : Type 0 where
  pub summary : StepSummary
  pub returned : report ≡ some summary
  pub all_ops : summary.total ≡ s.total + length ns
  pub one_each : summary.total + counted s ≡ s.total + counted summary
  pub changed_le : summary.changed + s.succeeded ≤ s.changed + summary.succeeded

build_step_report-AddsUp :
    (ns : List OpState) (s : StepSummary)
    → All (λ n. validate_op_report n ≡ true) ns
    → AddsUp ns s (build_step_report ns s)
unfolding build_step_report
build_step_report-AddsUp [] s h = record {
  summary = s;
  returned = refl;
  all_ops = omega arith;
  one_each = refl;
  changed_le = omega arith;
}
build_step_report-AddsUp (n ∷ ns) s h =
    let rest =
      build_step_report-AddsUp ns (count_outcome n (record s { total = suc s.total })) h.1 in
    record {
      summary = rest.summary;
      returned = ground (arith, rest.returned, h.0);
      all_ops = ground (arith, rest.all_ops, total_kept n s);
      one_each = ground (arith, rest.one_each, total_kept n s, one_more n s h.0);
      changed_le = ground (arith, rest.changed_le, one_changed n s);
    }
  where
    total_kept :
        (n : OpState) (s : StepSummary)
        → (count_outcome n (record s { total = suc s.total })).total ≡ suc s.total
    total_kept n s = ground arith

    one_more :
        (n : OpState) (s : StepSummary)
        → validate_op_report n ≡ true
        → counted (count_outcome n (record s { total = suc s.total })) ≡ suc (counted s)
    one_more n s e = unfold validate_op_report in ground arith

    one_changed :
        (n : OpState) (s : StepSummary)
        → (count_outcome n (record s { total = suc s.total })).changed + s.succeeded
          ≤ s.changed + (count_outcome n (record s { total = suc s.total })).succeeded
    one_changed n s = ground arith

-- The states of the ops 0, …, n - 1, in plan order.
abbrev pub states : (ℕ → OpState) → List ℕ → List OpState
states ops [] = []
states ops (i ∷ is) = ops i ∷ states ops is

states-All :
    (P : OpState → Type 0) (ops : ℕ → OpState) (i n : ℕ)
    → ((j : ℕ) → j < i + n → P (ops j))
    → All P (states ops (range_from i n))
states-All P ops i zero h = tt
states-All P ops i (suc n) h =
    (h i (omega arith), states-All P ops (suc i) n (λ j b. h j (omega arith)))

length-states : (ops : ℕ → OpState) (i n : ℕ) → length (states ops (range_from i n)) ≡ n
length-states ops i zero = refl
length-states ops i (suc n) = ap suc (length-states ops (suc i) n)

-- A full account: no panic, and every op counted under one outcome.
pub record IsAccount (n : ℕ) (report : Option StepSummary) : Type 0 where
  pub summary : StepSummary
  pub returned : report ≡ some summary
  pub all_ops : summary.total ≡ n
  pub one_each : counted summary ≡ n
  pub changed_le : summary.changed ≤ summary.succeeded

pub account :
    (n : ℕ) (ops : ℕ → OpState)
    → ((j : ℕ) → j < n → validate_op_report (ops j) ≡ true)
    → IsAccount n (build_step_report (states ops (range n)) no_ops)
account n ops h =
    let sum =
      build_step_report-AddsUp (states ops (range n)) no_ops
        (states-All (λ s. validate_op_report s ≡ true) ops 0 n (λ j b. h j (omega arith))) in
    let size = length-states ops 0 n in
    record {
      summary = sum.summary;
      returned = sum.returned;
      all_ops = omega (arith, sum.all_ops);
      one_each = omega (arith, sum.all_ops, sum.one_each);
      changed_le = omega (arith, sum.changed_le);
    }

-- In check mode, if no op is checked twice: whatever the checks answer and in whatever order they
-- return, no op's report is invalid, every op is counted under one outcome, and none has
-- succeeded.
pub mark_unknown-IsAccount :
    (provided : List Resource) (answers : ℕ → CheckAnswer) (arrival : List ℕ) (n : ℕ)
    → IsDistinct arrival
    → let c = run_checks provided answers arrival unchecked in
      IsAccount n
        (build_step_report (states (λ j. mark_unknown c.first_err (c.ops j)) (range n)) no_ops)
      × ((j : ℕ) → (mark_unknown c.first_err (c.ops j)).outcome ≢ op_succeeded)
mark_unknown-IsAccount provided answers arrival n d =
    (account n _ (λ j b. valid _ _ (checked j)), λ j. unrun _ _ (checked j))
  where
    checked :
        (j : ℕ)
        → IsChecked
            (run_checks provided answers arrival unchecked).first_err
            ((run_checks provided answers arrival unchecked).ops j)
    checked = run_checks_unchecked-IsChecked provided answers arrival d

    valid :
        (e : Option Err) (s : OpState)
        → IsChecked e s
        → validate_op_report (mark_unknown e s) ≡ true
    valid none s v = unfold validate_op_report mark_unknown in ground (arith, v)
    valid (some e) s v = unfold validate_op_report mark_unknown in ground (arith, v)

    unrun :
        (e : Option Err) (s : OpState) → IsChecked e s → (mark_unknown e s).outcome ≢ op_succeeded
    unrun none s v = unfold mark_unknown in ground (arith, v)
    unrun (some e) s v = unfold mark_unknown in ground (arith, v)
