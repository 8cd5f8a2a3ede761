-- ===== src/Demux/Sent.antt =====
-- What the demultiplexer's steps add to the log when no sink fails.
use coresight.Prelude.{
  ℕ, ◌≡◌, refl, sym, ap, ◌∙◌, arith, List, [], ◌∷◌, ◌++◌, append-nil, append_assoc, Option, none,
  Bool-cases, inl, inr, take, if◌then◌else◌, Bool, ◌&&◌, ◌==◌, true, false,
}
use coresight.Errors.{Error}
use coresight.Demux.State.{Demuxer, Call, RawframeElem}
use coresight.Demux.Output.{
  output_raw_mon_bytes, call, should_output_raw_entry, output_stream, Outcome, and_then,
}
use coresight.Demux.Unpack.{emit_unpack_buf, emit_raw, emit_to_sink}
use coresight.Demux.Tags.{Tag, tags_of_call, written, delivered}
use mathlib.Core.List.{map}

-- Sinks and a handler that take everything
abbrev pub Accepts : (List Call → Option Error) → Type 0
Accepts answer = (log : List Call) → answer log ≡ none

pub written-append : (xs ys : List Call) → written (xs ++ ys) ≡ written xs ++ written ys
written-append [] ys = refl
written-append (x ∷ xs) ys =
    ap (λ (l : List Tag). tags_of_call x ++ l) (written-append xs ys)
    ∙ sym (append_assoc (tags_of_call x) (written xs) (written ys))

pub delivered-append :
    (streams : List Bool) (ts us : List Tag)
    → delivered streams (ts ++ us) ≡ delivered streams ts ++ delivered streams us
delivered-append streams [] us = refl
delivered-append streams (t ∷ ts) us = elim (Bool-cases (output_stream t.0 streams)) [
  | inl e ↦ rw e (ap (λ (l : List Tag). t ∷ l) (delivered-append streams ts us))
  | inr e ↦ rw e (delivered-append streams ts us)
]

pub delivered-of :
    (streams : List Bool) (id : ℕ) (bytes : List ℕ)
    → delivered streams (map (λ b. (id, b)) bytes)
      ≡ (if output_stream id streams then map (λ b. (id, b)) bytes else [])
delivered-of streams id [] = elim (Bool-cases (output_stream id streams)) [
  | inl e ↦ rw e refl
  | inr e ↦ rw e refl
]
delivered-of streams id (b ∷ bytes) = elim (Bool-cases (output_stream id streams)) [
  | inl e ↦
      let ih : delivered streams (map (λ b. (id, b)) bytes) ≡ map (λ b. (id, b)) bytes =
        delivered-of streams id bytes
        ∙ ap (λ (t : Bool). if t then map (λ b. (id, b)) bytes else []) e in
      rw e (ap (λ (l : List Tag). (id, b) ∷ l) ih)
  | inr e ↦
      let ih : delivered streams (map (λ b. (id, b)) bytes) ≡ [] =
        delivered-of streams id bytes
        ∙ ap (λ (t : Bool). if t then map (λ b. (id, b)) bytes else []) e in
      rw e ih
]

abbrev pub logged : Demuxer → List Call → Demuxer
logged d cs = record d { log = d.log ++ cs }

unfoldable pub raw_calls : ℕ → List ℕ → Demuxer → List Call
raw_calls start bytes d =
    if should_output_raw_entry d.curr_src_id d && d.raw_frame_handler
    then Call.raw_frame start RawframeElem.frm_id_data bytes d.curr_src_id ∷ []
    else []

unfoldable pub sink_calls : ℕ → List ℕ → Demuxer → List Call
sink_calls start bytes d =
    if output_stream d.curr_src_id d.streams
    then Call.sink_write d.curr_src_id start bytes ∷ []
    else []

-- The calls of emitUnpackBuf
unfoldable pub buf_calls : ℕ → ℕ → Demuxer → List Call
unfolding raw_calls sink_calls
buf_calls start count d =
    let bytes = take count d.unpack_buf in
    if count == 0 then [] else raw_calls start bytes d ++ sink_calls start bytes d

logged-nil : (d : Demuxer) → d ≡ logged d []
logged-nil d = λ i. record d { log = sym (append-nil d.log) i }

emit_raw-accepted :
    (answer : List Call → Option Error) (start : ℕ) (bytes : List ℕ) (d : Demuxer)
    → Accepts answer
    → emit_raw answer start bytes d ≡ (logged d (raw_calls start bytes d), none)
unfolding emit_raw output_raw_mon_bytes call raw_calls
emit_raw-accepted answer start bytes d h =
    let c = Call.raw_frame start RawframeElem.frm_id_data bytes d.curr_src_id in
    ground (arith, h (d.log ++ c ∷ []), logged-nil d)

emit_to_sink-accepted :
    (answer : List Call → Option Error) (start : ℕ) (bytes : List ℕ) (d : Demuxer)
    → Accepts answer
    → emit_to_sink answer start bytes d ≡ (logged d (sink_calls start bytes d), none)
unfolding emit_to_sink call sink_calls
emit_to_sink-accepted answer start bytes d h =
    let c = Call.sink_write d.curr_src_id start bytes in
    ground (arith, h (d.log ++ c ∷ []), logged-nil d)

sink_calls-logged :
    (start : ℕ) (bytes : List ℕ) (d : Demuxer) (cs : List Call)
    → sink_calls start bytes (logged d cs) ≡ sink_calls start bytes d
unfolding sink_calls
sink_calls-logged start bytes d cs = refl

buf_calls_none :
    (start count : ℕ) (d : Demuxer) → (count == 0) ≡ true → buf_calls start count d ≡ []
unfolding buf_calls
buf_calls_none start count d e = rw e refl

buf_calls_some :
    (start count : ℕ) (d : Demuxer)
    → (count == 0) ≡ false
    → buf_calls start count d
      ≡ raw_calls start (take count d.unpack_buf) d ++ sink_calls start (take count d.unpack_buf) d
unfolding buf_calls
buf_calls_some start count d e = rw e refl

pub emit_unpack_buf-accepted :
    (answer : List Call → Option Error) (start count : ℕ) (d : Demuxer)
    → Accepts answer
    → emit_unpack_buf answer start count d ≡ (logged d (buf_calls start count d), none)
unfolding emit_unpack_buf
emit_unpack_buf-accepted answer start count d h = elim (Bool-cases (count == 0)) [
  | inl e ↦
      let calls : buf_calls start count d ≡ [] = buf_calls_none start count d e in
      rw (e, calls) (λ i. (logged-nil d i, none))
  | inr e ↦
      let bytes = take count d.unpack_buf in
      let cs = raw_calls start bytes d in
      let ss = sink_calls start bytes d in
      let assoc : (d.log ++ cs) ++ ss ≡ d.log ++ (cs ++ ss) = append_assoc d.log cs ss in
      let two : emit_to_sink answer start bytes (logged d cs) ≡ (logged (logged d cs) ss, none) =
        emit_to_sink-accepted answer start bytes (logged d cs) h
        ∙ (λ i. (logged (logged d cs) (sink_calls-logged start bytes d cs i), none)) in
      let calls : buf_calls start count d ≡ cs ++ ss = buf_calls_some start count d e in
      rw (e, calls)
        (ap (λ (o : Outcome). and_then o (emit_to_sink answer start bytes))
            (emit_raw-accepted answer start bytes d h)
          ∙ two
          ∙ (λ i. (record d { log = assoc i }, none)))
]

raw_calls-written :
    (start : ℕ) (bytes : List ℕ) (d : Demuxer) → written (raw_calls start bytes d) ≡ []
unfolding raw_calls
raw_calls-written start bytes d = ground arith

sink_calls-written :
    (start : ℕ) (bytes : List ℕ) (d : Demuxer)
    → written (sink_calls start bytes d) ≡ delivered d.streams (map (λ b. (d.curr_src_id, b)) bytes)
unfolding sink_calls
sink_calls-written start bytes d =
    let ts : List Tag = map (λ b. (d.curr_src_id, b)) bytes in
    let nil : ts ++ [] ≡ ts = append-nil ts in
    ground (arith, delivered-of d.streams d.curr_src_id bytes, nil)

pub buf_calls-written :
    (start count : ℕ) (d : Demuxer)
    → written (buf_calls start count d)
      ≡ delivered d.streams (map (λ b. (d.curr_src_id, b)) (take count d.unpack_buf))
unfolding buf_calls
buf_calls-written start count d =
    let bytes = take count d.unpack_buf in
    let w = written-append (raw_calls start bytes d) (sink_calls start bytes d) in
    ground (arith, w, raw_calls-written start bytes d, sink_calls-written start bytes d)
