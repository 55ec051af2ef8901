-- ===== src/Engine/Cycles/Simple.antt =====
-- A list that the search reports has no node twice but the one at both ends.
use scampi.Base.{
  ℕ, zero, suc, ◌≡◌, refl, sym, ap, subst, ◌∙◌, inl, inr, true, false, ◌&&◌, Option, some, List, [],
  ◌∷◌, ◌++◌, arith, ◌==◌, ==_iff, contains, Bool-cases, Option-cases, All, All-append, IsDistinct,
}
use scampi.Engine.Cycles.{
  Search, no_search, pop, note_cycle, enter, leave, slice_from, each, dfs, from_roots,
  detect_cycles,
}

-- The cycle of a list of nodes repeats the first one at the end.
abbrev pub close : List ℕ → List ℕ
close [] = []
close (x ∷ xs) = x ∷ xs ++ x ∷ []

abbrev pub IsSimple : List ℕ → Type 0
IsSimple c = (x : ℕ) × (xs : List ℕ) × (c ≡ close (x ∷ xs)) × IsDistinct (x ∷ xs)

-- `acc` is what stands between `n` and the end already.
slice_from-IsSimple :
    (n : ℕ) (stack acc : List ℕ)
    → IsDistinct stack
    → IsDistinct acc
    → ((j : ℕ) → contains stack j ≡ true → contains acc j ≡ false)
    → contains stack n ≡ true
    → IsSimple (slice_from n stack (acc ++ n ∷ []))
slice_from-IsSimple n [] acc d a apart h = cc
slice_from-IsSimple n (t ∷ ts) acc d a apart h = elim (Bool-cases (t == n)) [
  | inl e ↦
      let same : t ≡ n = ground (arith, e) in
      rw (e) (n, acc, ap (λ k. k ∷ acc ++ n ∷ []) same, (apart n h, a))
  | inr e ↦ rw (e) (
      slice_from-IsSimple n ts (t ∷ acc) d.1 (apart t (ground arith), a)
        (λ j c. ground (arith, apart j, c, d.0, ==_iff t j)) (ground (arith, h, e)))
]

-- The stack holds visited nodes, each once.
record Good (s : Search) : Type 0 where
  distinct : IsDistinct s.stack
  old : (j : ℕ) → contains s.stack j ≡ true → s.visited j ≡ true
  simple : All IsSimple s.cycles

abbrev Keeps : Search → Search → Type 0
Keeps s t = Good t × (t.stack ≡ s.stack)

each-Keeps :
    (visit : ℕ → Search → Option Search)
    → ((n : ℕ) (s t : Search) → Good s → visit n s ≡ some t → Keeps s t)
    → (xs : List ℕ) (s t : Search) → Good s
    → each visit xs s ≡ some t
    → Keeps s t
unfolding each
each-Keeps visit good [] s t v e = let same : s ≡ t = ground arith in rw (← same) (v, refl)
each-Keeps visit good (x ∷ xs) s t v e = elim (Option-cases (visit x s)) [
  | inl stuck ↦ absurd (ground arith)
  | inr (u, at) ↦
      let (gu, su) = good x s u v at in
      let (gt, st) = each-Keeps visit good xs u t gu (ground arith) in (gt, st ∙ su)
]

note_cycle-Good : (n : ℕ) (s : Search) → Good s → contains s.stack n ≡ true → Good (note_cycle n s)
note_cycle-Good n s v on = record {
  distinct = v.distinct;
  old = v.old;
  simple =
      All-append IsSimple s.cycles _ v.simple
        (slice_from-IsSimple n s.stack [] v.distinct tt (λ j h. refl) on, tt);
}

enter-Good : (n : ℕ) (s : Search) → Good s → s.visited n ≡ false → Good (enter n s)
enter-Good n s v new = record {
  distinct = (ground (arith, v.old n, new, Bool-cases (contains s.stack n)), v.distinct);
  old = λ j h. ground (arith, v.old j, h);
  simple = v.simple;
}

leave-Good : (n : ℕ) (s u : Search) → Good s → Keeps (enter n s) u → Keeps s (leave n u)
leave-Good n s u v (g, same) =
    let popped : pop u.stack ≡ s.stack = ap pop same in
    (
      record {
        distinct = subst IsDistinct (sym popped) v.distinct;
        old = λ j h.
            g.old j (
              ap (λ l. contains l j) same
              ∙ ground (arith, sym (ap (λ l. contains l j) popped) ∙ h));
        simple = g.simple;
      },
      popped,
    )

module _ (neighbors : ℕ → List ℕ) where
  dfs-Keeps : (fuel n : ℕ) (s t : Search) → Good s → dfs neighbors fuel n s ≡ some t → Keeps s t
  unfolding dfs
  dfs-Keeps zero n s t v e = cc
  dfs-Keeps (suc fuel) n s t v e = elim (Bool-cases (s.on_stack n && contains s.stack n)) [
    | inl on ↦
        let same : note_cycle n s ≡ t = ground arith in
        rw (← same) (note_cycle-Good n s v (ground arith), refl)
    | inr off ↦ elim (Bool-cases (s.visited n)) [
      | inl seen ↦ let same : s ≡ t = ground arith in rw (← same) (v, refl)
      | inr new ↦ elim (Option-cases (each (dfs neighbors fuel) (neighbors n) (enter n s))) [
        | inl stuck ↦ absurd (ground arith)
        | inr (u, at) ↦
            let same : leave n u ≡ t = ground arith in
            rw (← same) (
              leave-Good n s u v (
                each-Keeps (dfs neighbors fuel) (dfs-Keeps fuel) (neighbors n) (enter n s) u
                  (enter-Good n s v new) at))
      ]
    ]
  ]

  from_roots-Good :
      (fuel : ℕ) (rs : List ℕ) (s t : Search)
      → Good s
      → from_roots neighbors fuel rs s ≡ some t
      → Good t
  unfolding from_roots
  from_roots-Good fuel [] s t v e = let same : s ≡ t = ground arith in rw (← same) v
  from_roots-Good fuel (r ∷ rs) s t v e = elim (Bool-cases (s.visited r)) [
    | inl seen ↦ from_roots-Good fuel rs s t v (ground arith)
    | inr new ↦ elim (Option-cases (dfs neighbors fuel r s)) [
      | inl stuck ↦ absurd (ground arith)
      | inr (u, at) ↦ from_roots-Good fuel rs u t (dfs-Keeps fuel r s u v at).0 (ground arith)
    ]
  ]

pub detect_cycles-IsSimple :
    (bound : ℕ) (roots : List ℕ) (neighbors : ℕ → List ℕ) (cycles : List (List ℕ))
    → detect_cycles bound roots neighbors ≡ some cycles
    → All IsSimple cycles
unfolding detect_cycles
detect_cycles-IsSimple bound roots neighbors cycles e =
    elim (Option-cases (from_roots neighbors (suc bound) roots no_search)) [
      | inl stuck ↦ absurd (ground arith)
      | inr (t, at) ↦
          let g =
            from_roots-Good neighbors (suc bound) roots no_search t
              (record { distinct = tt; old = λ j h. cc; simple = tt }) at in
          let same : t.cycles ≡ cycles = ground arith in rw (← same) g.simple
    ]
