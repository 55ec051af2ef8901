-- ===== src/Render/Order.antt =====
-- internal/render/order/order.go: the `Sequencer`. An event is known by a tag; the wrapped output is
-- the list of the events that it is given.
pub mod Advance
pub mod Drain
use scampi.Base.{
  ℕ, zero, suc, ◌+◌, Bool, true, false, Option, none, some, List, [], ◌∷◌, ◌++◌, if◌then◌else◌, leb,
  length, lookup, insert, delete, nat_eq,
}

-- `change` and `result` carry their lane's ordinal and their step's index.
pub data Event : Type 0 where
  change result : ℕ → ℕ → ℕ → Event
  out_of_band : ℕ → Event

pub record StepBlock : Type 0 where
  pub changes : List Event
  pub verdict : Option Event

abbrev pub empty_block : StepBlock
empty_block = record { changes = []; verdict = none }

pub record Lane : Type 0 where
  pub cursor : ℕ
  pub pending : List (ℕ × StepBlock)

abbrev pub new_lane : Lane
new_lane = record { cursor = 0; pending = [] }

pub record Sequencer : Type 0 where
  pub out : List Event
  pub lanes : List (ℕ × Lane)

abbrev pub new_sequencer : Sequencer
new_sequencer = record { out = []; lanes = [] }

abbrev pub or_new : Option Lane → Lane
or_new none = new_lane
or_new (some l) = l

abbrev pub or_empty : Option StepBlock → StepBlock
or_empty none = empty_block
or_empty (some b) = b

-- `collect`, with the function that it applies to the block.
abbrev pub collect : ℕ → (StepBlock → StepBlock) → Lane → Lane
collect idx mut l = record l {
  pending = insert idx (mut (or_empty (lookup idx l.pending))) l.pending;
}

abbrev pub flush_verdict : Option Event → List Event
flush_verdict none = []
flush_verdict (some e) = e ∷ []

-- `flush`: what the output is given.
abbrev pub flush : StepBlock → List Event
flush b = b.changes ++ flush_verdict b.verdict

-- A block that the loop of `advance` may release: one with a result.
abbrev pub settled : Option StepBlock → Option StepBlock
settled none = none
settled (some b) = elim b.verdict [ none ↦ none | some e ↦ some b ]

pub record Advanced : Type 0 where
  pub lane : Lane
  pub released : List Event

-- The loop of `advance`, on fuel: a block is deleted in each turn. Without fuel it stops.
unfoldable pub advance : ℕ → Lane → Option Advanced
advance zero l = elim (settled (lookup l.cursor l.pending)) [
  | none ↦ some (record { lane = l; released = [] })
  | some b ↦ none
]
advance (suc fuel) l = elim (settled (lookup l.cursor l.pending)) [
  | none ↦ some (record { lane = l; released = [] })
  | some b ↦
      elim (advance fuel (record { cursor = suc l.cursor; pending = delete l.cursor l.pending })) [
        | none ↦ none
        | some a ↦ some (record { lane = a.lane; released = flush b ++ a.released })
      ]
]

abbrev pub store : ℕ → Option Advanced → Sequencer → Option Sequencer
store ord none s = none
store ord (some a) s =
    some (record { out = s.out ++ a.released; lanes = insert ord a.lane s.lanes })

-- `RenderEvent`.
unfoldable pub render_event : Event → Sequencer → Option Sequencer
render_event (change ord idx tag) s =
    let l =
      collect idx (λ b. record b { changes = b.changes ++ change ord idx tag ∷ [] })
        (or_new (lookup ord s.lanes)) in
    some (record s { lanes = insert ord l s.lanes })
render_event (result ord idx tag) s =
    let l =
      collect idx (λ b. record b { verdict = some (result ord idx tag) })
        (or_new (lookup ord s.lanes)) in
    store ord (advance (length l.pending) l) s
render_event (out_of_band tag) s = some (record s { out = s.out ++ out_of_band tag ∷ [] })

-- `sort.Ints` and `range` over a map: the entries by ascending key.
unfoldable pub put {ℓ} : {A : Type ℓ} → ℕ → A → List (ℕ × A) → List (ℕ × A)
put k v [] = (k, v) ∷ []
put k v (x ∷ m) = let rest = put k v m in if leb k x.0 then (k, v) ∷ x ∷ m else x ∷ rest

unfoldable pub by_key {ℓ} : {A : Type ℓ} → List (ℕ × A) → List (ℕ × A)
by_key [] = []
by_key (x ∷ m) = put x.0 x.1 (by_key m)

-- What `drain` releases of a block: nothing without a result.
abbrev pub drain_block : Option StepBlock → List Event
drain_block none = []
drain_block (some b) = flush b

unfoldable pub drain_blocks : List (ℕ × StepBlock) → List Event
drain_blocks [] = []
drain_blocks (x ∷ m) = drain_block (settled (some x.1)) ++ drain_blocks m

unfoldable pub drain_lanes : List (ℕ × Lane) → List Event
drain_lanes [] = []
drain_lanes (x ∷ m) = drain_blocks (by_key x.1.pending) ++ drain_lanes m

abbrev pub emptied : List (ℕ × Lane) → List (ℕ × Lane)
emptied [] = []
emptied (x ∷ m) = (x.0, record x.1 { pending = [] }) ∷ emptied m

-- `drain` and `Flush`.
unfoldable pub drain : Sequencer → Sequencer
drain s = record { out = s.out ++ drain_lanes (by_key s.lanes); lanes = emptied s.lanes }
