-- ===== src/ByteReader/Examples.antt =====
-- Byte readers run on small inputs, and the properties at these inputs.
use coresight.Prelude.{ℕ, ◌≡◌, refl, List, [], ◌/◌, ◌∷◌, inl, replicate, drop, arith, ◌++◌, get_or}
use coresight.ByteReader.{
  ByteReader, new_byte_reader, write_scratch, discard_scratch_prefix, scratch_bytes, feed,
  read_bytes, take_in, append_scratch, append, base_ext, copy, fresh_backing,
}
use coresight.ByteReader.Content.{IsWf, Extended}
use coresight.ByteReader.Steps.{
  Op, op_feed, op_read, op_raw, op_peek, op_retry, op_read_bytes, op_write, op_discard, view,
}
use coresight.ByteReader.Runs.{run, view_run, run-view_run, new_byte_reader-IsWf}
use coresight.ByteReader.Discard.{write_scratch-discard_scratch_prefix}

-- A growth of the extension by a half
abbrev half : ℕ → ℕ
half n = n / 2

abbrev calls : List Op
calls =
    op_feed (1 ∷ 2 ∷ 3 ∷ 4 ∷ [])
    ∷ op_read
    ∷ op_retry
    ∷ op_read_bytes 2
    ∷ op_discard 1
    ∷ op_raw
    ∷ op_read
    ∷ op_write 9
    ∷ op_peek
    ∷ []

run-view_run_example :
    IsWf (run half calls new_byte_reader).0
    × ((view (run half calls new_byte_reader).0, (run half calls new_byte_reader).1)
        ≡ view_run calls (view new_byte_reader))
unfolding scratch_bytes
run-view_run_example =
    run-view_run half calls new_byte_reader new_byte_reader-IsWf
      (tt, (tt, (tt, (tt, (inl (omega arith), (tt, (tt, (tt, (tt, tt)))))))))

abbrev filling : List Op
filling = op_feed (replicate 65 7) ∷ op_read_bytes 65 ∷ []

abbrev full_reader : ByteReader
full_reader = (run half filling new_byte_reader).0

full_reader-IsWf : IsWf full_reader
full_reader-IsWf = (run-view_run half filling new_byte_reader new_byte_reader-IsWf (tt, (tt, tt))).0

full_reader-Extended : Extended full_reader
unfolding feed read_bytes take_in append_scratch append base_ext copy fresh_backing
full_reader-Extended = record { same = refl; fits = omega arith; long = omega arith; held = refl }

full_reader-len : full_reader.scratch_len ≡ 65
unfolding feed read_bytes take_in append_scratch append base_ext copy fresh_backing
full_reader-len = refl

write_scratch-discard_scratch_prefix_example :
    scratch_bytes (write_scratch half 9 (discard_scratch_prefix 2 full_reader))
    ≡ drop 2 (scratch_bytes full_reader) ++ get_or (scratch_bytes full_reader) 63 0 ∷ []
unfolding read_bytes feed append_scratch
write_scratch-discard_scratch_prefix_example =
    write_scratch-discard_scratch_prefix half 9 2 full_reader full_reader-IsWf full_reader-Extended
      (omega arith) (omega (arith, full_reader-len)) (omega (arith, full_reader-len))
