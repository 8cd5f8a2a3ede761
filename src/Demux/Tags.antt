-- ===== src/Demux/Tags.antt =====
-- What a frame of 16 bytes means: the bytes of data, each with its trace id. Byte 15 holds a flag
-- for each byte at an even place. At an even place an odd byte is a new id, which holds from the
-- byte behind it on, or one byte later when the flag is set; any other byte is data, with the flag
-- as its lowest bit. A byte at an odd place is data.
use coresight.Prelude.{ℕ, ◌+◌, ◌/◌, ◌%◌, Bool, List, [], ◌∷◌, ◌++◌, ◌==◌, if◌then◌else◌}
use coresight.Demux.State.{Call}
use coresight.Demux.Output.{output_stream}
use mathlib.Core.List.{map}

-- A byte and the trace id that it belongs to
abbrev pub Tag : Type 0
Tag = ℕ × ℕ

abbrev pub is_odd : ℕ → Bool
is_odd n = n % 2 == 1

-- The two bytes at an even place and behind it: their tags, and the id from there on
abbrev pub pair_tags : (flag : Bool) (cur b next : ℕ) → List Tag × ℕ
pair_tags flag cur b next =
    let id = b / 2 % 128 in
    if is_odd b
    then ((if flag then cur else id, next) ∷ [], id)
    else ((cur, if flag then b + 1 else b) ∷ (cur, next) ∷ [], cur)

-- The tags of the first 15 bytes of a frame, from an even place on, and the id at the end
abbrev pub frame_tags : (flags cur : ℕ) → List ℕ → List Tag × ℕ
frame_tags flags cur [] = ([], cur)
frame_tags flags cur (b ∷ []) =
    if is_odd b then ([], b / 2 % 128) else ((cur, if is_odd flags then b + 1 else b) ∷ [], cur)
frame_tags flags cur (b ∷ next ∷ rest) =
    let (ts, id) = pair_tags (is_odd flags) cur b next in
    let (us, last) = frame_tags (flags / 2) id rest in (ts ++ us, last)

-- The tags of the ids that have a sink
abbrev pub delivered : List Bool → List Tag → List Tag
delivered streams [] = []
delivered streams (t ∷ ts) =
    if output_stream t.0 streams then t ∷ delivered streams ts else delivered streams ts

-- The bytes that the sinks were given
abbrev pub tags_of_call : Call → List Tag
tags_of_call (Call.sink_write id index bytes) = map (λ b. (id, b)) bytes
tags_of_call c = []

abbrev pub written : List Call → List Tag
written [] = []
written (c ∷ cs) = tags_of_call c ++ written cs
