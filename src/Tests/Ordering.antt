-- ===== src/Tests/Ordering.antt =====
-- internal/render/order: the second step of a lane finishes before the first.
use scampi.Base.{
  ℕ, ◌≡◌, refl, Option, none, some, List, [], ◌∷◌, ◌++◌, ◌==◌, if◌then◌else◌, length, lookup,
  nat_eq,
}
use scampi.Render.Order.{
  Event, change, result, out_of_band, Lane, Sequencer, new_sequencer, advance, render_event, put,
  by_key, drain_blocks, drain_lanes, drain,
}
use scampi.Render.Order.Advance.{Releases, with_result, render_event-Releases}

abbrev and_then : (Sequencer → Option Sequencer) → Option Sequencer → Option Sequencer
and_then f none = none
and_then f (some s) = f s

abbrev run : List Event → Option Sequencer → Option Sequencer
run [] s = s
run (e ∷ es) s = run es (and_then (render_event e) s)

abbrev out_of : Option Sequencer → List Event
out_of none = []
out_of (some s) = s.out

abbrev early : List Event
early = change 0 1 5 ∷ result 0 1 6 ∷ out_of_band 7 ∷ []

in_order :
    out_of (run (early ++ change 0 0 8 ∷ result 0 0 9 ∷ []) (some new_sequencer))
    ≡ out_of_band 7 ∷ change 0 0 8 ∷ result 0 0 9 ∷ change 0 1 5 ∷ result 0 1 6 ∷ []
unfolding render_event advance
in_order = refl

abbrev or_start : Option Sequencer → Sequencer
or_start none = new_sequencer
or_start (some s) = s

abbrev waiting : Sequencer
waiting = or_start (run early (some new_sequencer))

at_the_end : (drain waiting).out ≡ out_of_band 7 ∷ change 0 1 5 ∷ result 0 1 6 ∷ []
unfolding render_event advance drain drain_lanes drain_blocks by_key put
at_the_end = refl

abbrev stored : Lane
stored = with_result 0 0 9 waiting

render_event-Releases_example :
    (r : Releases stored (advance (length stored.pending) stored)) × (s' : Sequencer)
    × (render_event (result 0 0 9) waiting ≡ some s')
    × (s'.out ≡ waiting.out ++ r.after.released)
    × ((j : ℕ) → lookup j s'.lanes ≡ (if 0 == j then some r.after.lane else lookup j waiting.lanes))
render_event-Releases_example = render_event-Releases 0 0 9 waiting
