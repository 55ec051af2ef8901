-- ===== src/Engine/Countdown/Counts.antt =====
-- What one pass of `release` does to the counter and the phase of every node.
use scampi.Base.{
  ℕ, ◌+◌, ◌-◌, ◌≤◌, ◌≡◌, Bool, true, false, List, [], ◌∷◌, arith, ◌==◌, if◌then◌else◌, update,
  count, count_where,
}
use scampi.Engine.Countdown.{Sched, Phase, scheduled, decrement, release}

-- A node that turns from open to closed is gone from every count, as often as it stood there.
pub count_where-close :
    (p : ℕ → Bool) (i : ℕ) (xs : List ℕ)
    → p i ≡ true
    → count_where p xs ≡ count_where (update p i false) xs + count i xs
count_where-close p i [] h = omega arith
count_where-close p i (x ∷ xs) h = ground (arith, count_where-close p i xs)

-- The phase that a node has after its counter fell by `n`.
abbrev pub phase_after : ℕ → ℕ → Phase → Phase
phase_after n pending phase = if n == 0 then phase else if pending == n then scheduled else phase

module _ (skip : ℕ → Bool) (j : ℕ) (live : skip j ≡ false) where
  pub pending-release :
      (ws : List ℕ) (s : Sched) → (release skip ws s).pending j ≡ s.pending j - count j ws
  unfolding release decrement
  pending-release [] s = omega arith
  pending-release (w ∷ ws) s =
      ground (arith, pending-release ws (if skip w then s else decrement w s))

  pub phase-release :
      (ws : List ℕ) (s : Sched)
      → count j ws ≤ s.pending j
      → (release skip ws s).phase j ≡ phase_after (count j ws) (s.pending j) (s.phase j)
  unfolding release decrement
  phase-release [] s h = ground arith
  phase-release (w ∷ ws) s h =
      ground (arith, phase-release ws (if skip w then s else decrement w s))

-- A node that is skipped keeps its phase and its counter.
pub phase-release_skip :
    (skip : ℕ → Bool) (j : ℕ) (ws : List ℕ) (s : Sched)
    → skip j ≡ true
    → (release skip ws s).phase j ≡ s.phase j
unfolding release decrement
phase-release_skip skip j [] s h = ground arith
phase-release_skip skip j (w ∷ ws) s h =
    ground (arith, phase-release_skip skip j ws (if skip w then s else decrement w s))

pub cancel-release :
    (skip : ℕ → Bool) (ws : List ℕ) (s : Sched) → (release skip ws s).cancel ≡ s.cancel
unfolding release decrement
cancel-release skip [] s = ground arith
cancel-release skip (w ∷ ws) s =
    ground (arith, cancel-release skip ws (if skip w then s else decrement w s))
