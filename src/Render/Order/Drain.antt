-- ===== src/Render/Order/Drain.antt =====
-- `Flush` leaves nothing behind.
use scampi.Base.{ℕ, ◌≡◌, refl, Bool, true, false, ◌&&◌, List, [], ◌∷◌, ◌++◌, arith, all}
use scampi.Render.Order.{
  Event, Lane, Sequencer, put, by_key, drain_blocks, drain_lanes, emptied, drain,
}

abbrev is_drained : ℕ × Lane → Bool
is_drained x = elim x.1.pending [ [] ↦ true | ◌∷◌ b bs ↦ false ]

put-is_drained :
    (k : ℕ) (l : Lane) (m : List (ℕ × Lane))
    → all is_drained (put k l m) ≡ (is_drained (k, l) && all is_drained m)
unfolding put
put-is_drained k l [] = refl
put-is_drained k l (x ∷ m) = ground (arith, put-is_drained k l m)

by_key-is_drained : (m : List (ℕ × Lane)) → all is_drained (by_key m) ≡ all is_drained m
unfolding by_key
by_key-is_drained [] = refl
by_key-is_drained (x ∷ m) = ground (arith, put-is_drained x.0 x.1 (by_key m), by_key-is_drained m)

drain_lanes-nil : (m : List (ℕ × Lane)) → all is_drained m ≡ true → drain_lanes m ≡ []
unfolding drain_lanes drain_blocks by_key
drain_lanes-nil [] h = refl
drain_lanes-nil (x ∷ m) h = ground (arith, drain_lanes-nil m, h)

emptied-is_drained : (m : List (ℕ × Lane)) → all is_drained (emptied m) ≡ true
emptied-is_drained [] = refl
emptied-is_drained (x ∷ m) = emptied-is_drained m

emptied-twice : (m : List (ℕ × Lane)) → emptied (emptied m) ≡ emptied m
emptied-twice [] = refl
emptied-twice (x ∷ m) = ground (arith, emptied-twice m)

append_nil : (es : List Event) → es ++ [] ≡ es
append_nil [] = refl
append_nil (e ∷ es) = ground (arith, append_nil es)

-- A second `Flush` writes nothing and changes nothing.
pub drain_twice : (s : Sequencer) → drain (drain s) ≡ drain s
unfolding drain
drain_twice s =
    let silent =
      drain_lanes-nil (by_key (emptied s.lanes))
        (ground (arith, by_key-is_drained (emptied s.lanes), emptied-is_drained s.lanes)) in
    ground
      (arith, silent, emptied-twice s.lanes, append_nil (s.out ++ drain_lanes (by_key s.lanes)))
