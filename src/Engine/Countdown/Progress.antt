-- ===== src/Engine/Countdown/Progress.antt =====
-- The schedulers get through: no node is left behind, and every move uses up work.
use scampi.Base.{
  ℕ, zero, suc, ◌≤◌, ◌<◌, ◌≡◌, refl, ◌⊎◌, inl, inr, Bool, true, false, List, arith, update,
  count_where, count_where-pos, contains, contains-get_elem?, Bool-cases, sum_below,
  sum_below-strict,
}
use scampi.Engine.Countdown.{Sched, Phase, idle, scheduled, running, succeeded, is_open}
use scampi.Engine.Countdown.Invariant.{
  Inv, IsMirror, finish, phase-finish, count-le-pending, is_between,
}
use scampi.Engine.Countdown.Counts.{phase-release_skip}

-- A rank of the nodes under which everything waits for lower nodes, all of them below `n`.
abbrev pub IsRanked : (ℕ → List ℕ) → ℕ → (ℕ → ℕ) → Type 0
IsRanked needs n rank = (i j : ℕ) → contains (needs j) i ≡ true → (i < n) × (rank i < rank j)

-- Nothing is on its way, and nothing went wrong.
abbrev pub IsQuiet : (ℕ → Bool) → ℕ → Sched → Type 0
IsQuiet skip n s = (j : ℕ) → j < n → skip j ≡ false → is_between (s.phase j) ≡ false

module _ (needs : ℕ → List ℕ) (skip : ℕ → Bool) (n : ℕ) (rank : ℕ → ℕ)
    (ranked : IsRanked needs n rank) (s : Sched) (v : Inv needs skip n s)
    (quiet : IsQuiet skip n s) where
  below-succeeded : (r j : ℕ) → rank j < r → j < n → skip j ≡ false → s.phase j ≡ succeeded
  below-succeeded zero j h b live = absurd (omega arith)
  below-succeeded (suc r) j h b live = elim (Phase-cases (s.phase j) (quiet j b live)) [
    | inr done ↦ done
    | inl waiting ↦
        let open_count : 0 < count_where (is_open skip s) (needs j) =
          ground (arith, v.waits j b live, v.counted j live) in
        let (k, i, at, is_waiting) = count_where-pos (is_open skip s) (needs j) open_count in
        let (i_lt, lower) = ranked i j (contains-get_elem? (needs j) k i at) in
        absurd (ground (arith, below-succeeded r i))
  ]
    where
      Phase-cases : (p : Phase) → is_between p ≡ false → (p ≡ idle) ⊎ (p ≡ succeeded)
      Phase-cases idle h = inl refl
      Phase-cases succeeded h = inr refl
      Phase-cases _ h = ground arith

  pub quiet-succeeded : (j : ℕ) → j < n → skip j ≡ false → s.phase j ≡ succeeded
  quiet-succeeded j b live = below-succeeded (suc (rank j)) j (omega arith) b live

-- The moves that a node still has before it.
abbrev pub moves_left : Phase → ℕ
moves_left idle = 3
moves_left scheduled = 2
moves_left running = 1
moves_left _ = 0

-- The moves that 0, …, n - 1 still have before them.
abbrev pub work : ℕ → Sched → ℕ
work n s = sum_below (λ j. moves_left (s.phase j)) n

pub relabel-work :
    (n : ℕ) (s : Sched) (i : ℕ) (ph : Phase) (c : Bool)
    → i < n
    → moves_left ph < moves_left (s.phase i)
    → work n (record s { phase = update s.phase i ph; cancel = c }) < work n s
relabel-work n s i ph c b less =
    sum_below-strict (λ j. moves_left (update s.phase i ph j)) (λ j. moves_left (s.phase j)) n i b
      (ground arith) (λ k. ground arith)

module _ (needs : ℕ → List ℕ) (skip : ℕ → Bool) (n : ℕ) (waiters : ℕ → List ℕ)
    (mirror : IsMirror needs waiters) where
  moves-finish :
      (s : Sched) (i k : ℕ)
      → Inv needs skip n s
      → s.phase i ≡ running
      → moves_left ((finish needs skip n waiters mirror s i).phase k) ≤ moves_left (s.phase k)
  moves-finish s i k v r = elim (Bool-cases (skip k)) [
    | inl e ↦ ground (
      arith,
      v.passed k e,
      phase-release_skip skip k (waiters i) (record s { phase = update s.phase i succeeded }) e,
    )
    | inr e ↦ ground (
      arith,
      phase-finish needs skip n waiters mirror s i k v r e,
      count-le-pending needs skip n waiters mirror s i k v r e,
      v.ready k e,
    )
  ]

  moves-finish_self :
      (s : Sched) (i : ℕ)
      → Inv needs skip n s
      → s.phase i ≡ running
      → moves_left ((finish needs skip n waiters mirror s i).phase i) < moves_left (s.phase i)
  moves-finish_self s i v r = elim (Bool-cases (skip i)) [
    | inl e ↦ ground (arith, v.passed i e)
    | inr e ↦ ground (
      arith,
      phase-finish needs skip n waiters mirror s i i v r e,
      count-le-pending needs skip n waiters mirror s i i v r e,
      v.ready i e,
    )
  ]

  pub finish-work :
      (s : Sched) (i : ℕ)
      → Inv needs skip n s
      → i < n
      → s.phase i ≡ running
      → work n (finish needs skip n waiters mirror s i) < work n s
  finish-work s i v b r =
      sum_below-strict (λ j. moves_left ((finish needs skip n waiters mirror s i).phase j))
        (λ j. moves_left (s.phase j)) n i b (moves-finish_self s i v r)
        (λ k. moves-finish s i k v r)
