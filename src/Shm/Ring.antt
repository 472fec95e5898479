-- ===== src/Shm/Ring.antt =====
-- crates/jeed-shm/src/ring.rs: slot arithmetic and the sequence lock's sentinel.
-- A record is 80 words of 64 bits; `producer_seq` is the second, at byte 8.
use jeed.Base.{ℕ, ◌+◌, ◌-◌, ◌*◌, ◌^◌}
use Prim.Native.Nat.{bit_and}

-- `SEQ_IN_PROGRESS`
abbrev pub seq_in_progress : ℕ
seq_in_progress = 2 ^ 64 - 1

-- `SEQ_OFFSET` in words.
abbrev pub seq_word : ℕ
seq_word = 1

-- `WIRE_RECORD_LEN` in words.
abbrev pub record_words : ℕ
record_words = 80

-- `WIRE_RECORD_LEN` and `SEGMENT_HEADER_LEN` in bytes.
abbrev pub wire_record_len : ℕ
wire_record_len = 640

abbrev pub segment_header_len : ℕ
segment_header_len = 128

-- The slot of `seq` in a ring of `mask + 1` slots.
unfoldable pub slot_index : ℕ → ℕ → ℕ
slot_index seq mask = bit_and seq mask

unfoldable pub slot_offset : ℕ → ℕ → ℕ
unfolding slot_index
slot_offset seq mask = segment_header_len + slot_index seq mask * wire_record_len
