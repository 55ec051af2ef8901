-- ===== src/Engine/Countdown.antt =====
-- The counters that both schedulers of internal/engine/exec.go run on: every node counts the
-- requirements that it still waits for, and is scheduled when its counter reaches 0.
pub mod Counts
pub mod Invariant
pub mod Progress
use scampi.Base.{ℕ, ◌-◌, Bool, true, false, not, ◌&&◌, List, [], ◌∷◌, ◌==◌, if◌then◌else◌, update}

-- `idle`: waits for its requirements; `scheduled`: handed to `errgroup.Go`; `running`: between
-- its start and the moment it takes the lock; the last three are final.
pub data Phase : Type 0 where
  idle scheduled running succeeded failed cancelled : Phase

abbrev pub has_succeeded : Phase → Bool
has_succeeded succeeded = true
has_succeeded _ = false

-- `cancel`: the group's context is cancelled, by the first error.
pub record Sched : Type 0 where
  pub pending : ℕ → ℕ
  pub phase : ℕ → Phase
  pub cancel : Bool

-- `w.pending--; if w.pending == 0 { schedule(w) }`
unfoldable pub decrement : ℕ → Sched → Sched
decrement w s = record s {
  pending = update s.pending w (s.pending w - 1);
  phase = if s.pending w == 1 then update s.phase w scheduled else s.phase;
}

-- The loop over the nodes that wait for a finished one. A node that `skip` names is passed over.
unfoldable pub release : (ℕ → Bool) → List ℕ → Sched → Sched
release skip [] s = s
release skip (w ∷ ws) s = release skip ws (if skip w then s else decrement w s)

-- A node that others still have to wait for.
abbrev pub is_open : (ℕ → Bool) → Sched → ℕ → Bool
is_open skip s i = not (skip i) && not (has_succeeded (s.phase i))
