-- ===== src/ByteStream.antt =====
-- protocol_io.go: internalByteStream, a byte reader that knows the place of its block in the trace.
use coresight.Prelude.{ℕ, ◌+◌, ◌-◌, List, [], Option, length, u64}
use coresight.ByteReader.{
  ByteReader, new_byte_reader, feed as feed_reader, read_byte as read_reader, remaining,
}

-- internalByteStream. The reader is never nil, so `EnsureReader` does nothing.
pub record ByteStream : Type 0 where
  pub reader : ByteReader
  pub data_block : List ℕ
  pub block_base_idx : ℕ  -- Index, a uint64
  pub block_len : ℕ

abbrev pub new_byte_stream : ByteStream
new_byte_stream = record {
  reader = new_byte_reader;
  data_block = [];
  block_base_idx = 0;
  block_len = 0;
}

unfoldable pub feed : ℕ → List ℕ → ByteStream → ByteStream
feed index block s = record {
  reader = feed_reader block s.reader;
  data_block = block;
  block_base_idx = index;
  block_len = length block;
}

unfoldable pub bytes_consumed : ByteStream → ℕ
bytes_consumed s = s.block_len - remaining s.reader

unfoldable pub current_index : ByteStream → ℕ
unfolding bytes_consumed
current_index s = u64 (s.block_base_idx + bytes_consumed s)

module _ (growth : ℕ → ℕ) where
  unfoldable pub read_byte : ByteStream → ByteStream × Option ℕ
  read_byte s = let (r, b) = read_reader growth s.reader in (record s { reader = r }, b)
