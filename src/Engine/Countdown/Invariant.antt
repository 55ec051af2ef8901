-- ===== src/Engine/Countdown/Invariant.antt =====
-- The invariant of the counters, and that every move of a scheduler keeps it.
use scampi.Base.{
  ℕ, ◌+◌, ◌-◌, ◌<◌, ◌≡◌, ◌≢◌, fun_ext, ◌⊎◌, inl, inr, Bool, true, false, List, arith, update, count,
  count_where, count_where-zero, contains, Bool-cases,
}
use scampi.Engine.Countdown.{Sched, Phase, idle, running, succeeded, release, is_open}
use scampi.Engine.Countdown.Counts.{
  count_where-close, pending-release, phase_after, phase-release, phase-release_skip,
}

-- `needs j` lists what `j` waits for, `waiters i` what waits for `i`, each entry as often.
abbrev pub IsMirror : (ℕ → List ℕ) → (ℕ → List ℕ) → Type 0
IsMirror needs waiters = (i j : ℕ) → count j (waiters i) ≡ count i (needs j)

-- Every counter holds the number of requirements that are still open; the nodes 0, …, n - 1 are
-- idle exactly while that is not 0.
pub record Inv (needs : ℕ → List ℕ) (skip : ℕ → Bool) (n : ℕ) (s : Sched) : Type 0 where
  pub counted : (j : ℕ) → skip j ≡ false → s.pending j ≡ count_where (is_open skip s) (needs j)
  pub ready : (j : ℕ) → skip j ≡ false → s.phase j ≢ idle → s.pending j ≡ 0
  pub waits : (j : ℕ) → j < n → skip j ≡ false → s.phase j ≡ idle → 0 < s.pending j
  pub passed : (j : ℕ) → skip j ≡ true → s.phase j ≡ idle

-- A phase between `idle` and `succeeded`, or a failure.
abbrev pub is_between : Phase → Bool
is_between idle = false
is_between succeeded = false
is_between _ = true

module _ (needs : ℕ → List ℕ) (skip : ℕ → Bool) (n : ℕ) where
  -- A move that neither finishes nor wakes a node.
  pub relabel-Inv :
      (s : Sched) (i : ℕ) (ph : Phase) (c : Bool)
      → is_between (s.phase i) ≡ true
      → is_between ph ≡ true
      → Inv needs skip n s
      → Inv needs skip n (record s { phase = update s.phase i ph; cancel = c })
  relabel-Inv s i ph c old new v = record {
    counted = λ j live. rw (← same) (v.counted j live);
    ready = λ j live e. ground (arith, v.ready j live);
    waits = λ j b live e. ground (arith, v.waits j b live);
    passed = λ j e. ground (arith, v.passed j e);
  }
    where
      same : is_open skip s ≡ is_open skip (record s { phase = update s.phase i ph; cancel = c })
      same = fun_ext (λ k. ground arith)

  module _ (waiters : ℕ → List ℕ) (mirror : IsMirror needs waiters) where
    -- The node `i` is done, and those that wait for it are told.
    abbrev pub finish : Sched → ℕ → Sched
    finish s i = release skip (waiters i) (record s { phase = update s.phase i succeeded })

    -- A finished node is counted nowhere any more.
    pub count-le-pending :
        (s : Sched) (i j : ℕ)
        → Inv needs skip n s
        → s.phase i ≡ running
        → skip j ≡ false
        → s.pending j
          ≡ count_where (update (is_open skip s) i false) (needs j) + count j (waiters i)
    count-le-pending s i j v r live = ground (
      arith,
      v.counted j live,
      v.passed i,
      mirror i j,
      count_where-close (is_open skip s) i (needs j),
    )

    pub phase-finish :
        (s : Sched) (i j : ℕ)
        → Inv needs skip n s
        → s.phase i ≡ running
        → skip j ≡ false
        → (finish s i).phase j
          ≡ phase_after (count j (waiters i)) (s.pending j) (update s.phase i succeeded j)
    phase-finish s i j v r live =
        phase-release skip j live (waiters i) (record s { phase = update s.phase i succeeded })
          (omega (arith, count-le-pending s i j v r live))

    open-finish :
        (s : Sched) (i : ℕ)
        → Inv needs skip n s
        → s.phase i ≡ running
        → (k : ℕ) → is_open skip (finish s i) k ≡ update (is_open skip s) i false k
    open-finish s i v r k = elim (Bool-cases (skip k)) [
      | inl e ↦ ground (arith)
      | inr e ↦ ground (arith, phase-finish s i k v r e, count-le-pending s i k v r e, v.ready k e)
    ]

    pub finish-Inv :
        (s : Sched) (i : ℕ)
        → Inv needs skip n s
        → s.phase i ≡ running
        → Inv needs skip n (finish s i)
    finish-Inv s i v r = record {
      counted = λ j live.
          rw (fun_ext (open-finish s i v r))
            (ground (arith, pending j live, count-le-pending s i j v r live));
      ready = λ j live e. ground (
        arith,
        pending j live,
        phase-finish s i j v r live,
        v.ready j live,
        count-le-pending s i j v r live,
      );
      waits = λ j b live e. ground (
        arith,
        pending j live,
        phase-finish s i j v r live,
        v.waits j b live,
        count-le-pending s i j v r live,
      );
      passed = λ j e. ground (
        arith,
        v.passed j e,
        phase-release_skip skip j (waiters i) (record s { phase = update s.phase i succeeded }) e,
      );
    }
      where
        pending :
            (j : ℕ) → skip j ≡ false → (finish s i).pending j ≡ s.pending j - count j (waiters i)
        pending j live =
            pending-release skip j live (waiters i)
              (record s { phase = update s.phase i succeeded })

  -- A node that was woken has all its requirements behind it.
  pub started-closed :
      (s : Sched) (i j : ℕ)
      → Inv needs skip n s
      → skip j ≡ false
      → s.phase j ≢ idle
      → contains (needs j) i ≡ true
      → (skip i ≡ true) ⊎ (s.phase i ≡ succeeded)
  started-closed s i j v live started e =
      ground
        (arith, v.counted j live, v.ready j live, count_where-zero (is_open skip s) (needs j) i e)
