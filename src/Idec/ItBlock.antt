-- ===== src/Idec/ItBlock.antt =====
-- idec_decoder.go: the instructions that an IT instruction makes conditional.
use coresight.Idec.Decode.{Decoding, decode_instruction}
use coresight.Idec.Info.{InstrInfo}
use coresight.Prelude.{List, ℕ, ◌≡◌, Bool, ◌∷◌, []}

-- The follower decodes one instruction after the other with the same description.
unfoldable pub decode_all : List ℕ → InstrInfo → List Bool × InstrInfo
decode_all [] d = ([], d)
decode_all (op ∷ ops) d =
    let here : InstrInfo = record d { opcode = op } in
    let next = (decode_instruction here).0 in
    let (flags, last) = decode_all ops next in (next.is_conditional ∷ flags, last)

-- What the decoding of branches and barriers leaves alone
abbrev SameIt : InstrInfo → Decoding → Type 0
SameIt d (r, info) =
    (r.isa ≡ d.isa)
    × (r.track_it_block ≡ d.track_it_block)
    × (r.thumb_it_conditions ≡ d.thumb_it_conditions)
