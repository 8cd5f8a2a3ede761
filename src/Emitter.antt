-- ===== src/Emitter.antt =====
-- protocol_io.go: internalEmitter. An observer is outside the decoder, so what it is called with is
-- a log, in the order of the calls; whether one is attached is a field.
use coresight.Prelude.{ℕ, ltb, Bool, ◌&&◌, List, [], ◌∷◌, ◌++◌, length, if◌then◌else◌}
use coresight.Element.{Element}

pub data Event {ℓ} (P : Type ℓ) : Type ℓ where
  element : Element → Event P
  packet : ℕ → P → List ℕ → Event P
  trace_end : Event P

-- The packets are of the decoder's own type `P`.
pub record Emitter {ℓ} (P : Type ℓ) : Type ℓ where
  pub element_sink : Bool
  pub packet_observer : Bool
  pub trace_end_observer : Bool
  pub log : List (Event P)

module _ {ℓ} {P : Type ℓ} where
  emit : Event P → Emitter P → Emitter P
  emit ev o = record o { log = o.log ++ ev ∷ [] }

  unfoldable pub emit_element : ℕ → ℕ → Element → Emitter P → Emitter P
  unfolding emit
  emit_element i id elem' o =
      if o.element_sink
      then emit (Event.element (record elem' { index = i; trace_id = id })) o
      else o

  unfoldable pub emit_packet : ℕ → P → List ℕ → Emitter P → Emitter P
  unfolding emit
  emit_packet i pkt raw o =
      if o.packet_observer && ltb 0 (length raw) then emit (Event.packet i pkt raw) o else o

  unfoldable pub emit_trace_end : Emitter P → Emitter P
  unfolding emit
  emit_trace_end o = if o.trace_end_observer then emit Event.trace_end o else o
