-- ===== src/Tests/Consumer.antt =====
-- A ring of four slots: what attaching to it gives, and four reads.
use jeed.Base.{ℕ, List, [], ◌∷◌, ok, arith, refl, ◌≡◌, ◌≤◌, ◌+◌, ◌-◌, ◌^◌}
use jeed.Wire.Segment.{SegmentHeader, new_segment, check, segment_len}
use jeed.Shm.Ring.{slot_offset}
use jeed.Shm.Consumer.{RingConsumer, attach, attach_sized, is_power_of_two, Loads, try_recv_all}
use jeed.Shm.Consumer.{received, empty, lagged, try_recv, reseat}
use jeed.Shm.Consumer.Bounds.{slot_offset-in_bounds}
use jeed.Shm.Consumer.Wraps.{attach-wraps}
use jeed.Shm.Consumer.Accounts.{total, try_recv_all-total}

abbrev four_slots : SegmentHeader
four_slots = new_segment 4 9

abbrev reader : RingConsumer
reader = record { capacity = 4; mask = 3; boot_id = 9; next_seq = 0 }

reader_attached : attach 2_688 four_slots ≡ ok reader
unfolding attach attach_sized check segment_len is_power_of_two
reader_attached = refl

slot_offset-in_bounds_example :
    (128 ≤ slot_offset 6 reader.mask) × (slot_offset 6 reader.mask + 640 ≤ 2_688)
slot_offset-in_bounds_example =
    slot_offset-in_bounds 2_688 four_slots reader 6 reader_attached (omega arith)

attach-wraps_example :
    (attach 128 (new_segment (2 ^ 57) 9)
      ≡ ok (record { capacity = 2 ^ 57; mask = 2 ^ 57 - 1; boot_id = 9; next_seq = 0 }))
    × (128 ≤ slot_offset 0 (2 ^ 57 - 1))
attach-wraps_example = attach-wraps 57 9 (omega arith) (omega arith)

abbrev load : ℕ → ℕ → ℕ → Loads
load published seq_before again = record {
  boot_id = 9;
  published = published;
  seq_before = seq_before;
  seq_after = seq_before;
  again = again;
}

-- Nothing yet; record 0; lapped by five; the slot rewritten at 6.
abbrev four_reads : List Loads
four_reads = load 0 0 0 ∷ load 1 0 1 ∷ load 10 0 10 ∷ load 10 10 11 ∷ []

four_answers : (try_recv_all reader four_reads).0 ≡ empty ∷ received ∷ lagged 5 ∷ lagged 1 ∷ []
unfolding try_recv_all try_recv reseat
four_answers = refl

try_recv_all-total_example :
    let (rs, c') = try_recv_all reader four_reads in c'.next_seq ≡ 0 + total rs
try_recv_all-total_example =
    try_recv_all-total 9 reader four_reads refl (refl, (refl, (refl, (refl, tt))))
