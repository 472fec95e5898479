-- ===== src/Shm/Consumer/Bounds.antt =====
-- What a mapping that `attach` accepts holds.
use jeed.Base.{ℕ, zero, suc, ◌+◌, ◌-◌, ◌*◌, ◌^◌, ◌≤◌, ◌<◌, ◌≡◌, ◌∙◌, refl, ap, sym, arith, true}
use jeed.Base.{ok, Bool-cases, inl, inr, ◌==◌, ==→eq}
use Prim.Native.Nat.{bit_and}
use jeed.Base.Bits.{bit_and_mask}
use native.Mathlib.Nat.{mod-lt, one-le-pow}
use jeed.Wire.Segment.{SegmentHeader, segment_len}
use jeed.Shm.Ring.{slot_offset, slot_index}
use jeed.Shm.Consumer.{RingConsumer, attach, attach_sized, power_below, is_power_of_two}

power_below→pow : (k n : ℕ) → power_below k n ≡ true → (j : ℕ) × (j < k) × (n ≡ 2 ^ j)
power_below→pow zero n h = absurd (ground (arith, h))
power_below→pow (suc k) n h = elim (Bool-cases (n == 2 ^ k)) [
  | inl e ↦ (k, omega arith, ==→eq n (2 ^ k) e)
  | inr e ↦
      let (j, small, same) = power_below→pow k n (sym (rw e refl) ∙ h) in
      (j, omega (arith, small), same)
]

attach_sized-ok :
    (mapped : ℕ) (hdr : SegmentHeader) (c : RingConsumer)
    → attach_sized mapped hdr ≡ ok c
    → (is_power_of_two hdr.capacity ≡ true)
      × (segment_len hdr ≤ mapped)
      × (c.mask ≡ hdr.capacity - 1)
unfolding attach_sized
attach_sized-ok mapped hdr c h = ground (arith, h)

attach-ok :
    (mapped : ℕ) (hdr : SegmentHeader) (c : RingConsumer)
    → attach mapped hdr ≡ ok c
    → attach_sized mapped hdr ≡ ok c
unfolding attach
attach-ok mapped hdr c h = ground (arith, h)

slot_below :
    (k seq mask capacity : ℕ) → capacity ≡ 2 ^ k → mask ≡ capacity - 1 → bit_and seq mask < capacity
slot_below k seq mask capacity power same = omega (
  arith,
  ap (bit_and seq) (same ∙ ap (λ (n : ℕ). n - 1) power),
  bit_and_mask k seq,
  power,
  mod-lt seq {m = 2 ^ k} (one-le-pow k 2 (omega arith)),
)

-- Every slot of a mapping that `attach` accepts lies inside it, behind the header, whatever sequence
-- number is asked for, provided that the length that the header claims does not wrap 64 bits.
pub slot_offset-in_bounds :
    (mapped : ℕ) (hdr : SegmentHeader) (c : RingConsumer) (seq : ℕ)
    → attach mapped hdr ≡ ok c
    → 128 + hdr.capacity * 640 < 2 ^ 64
    → (128 ≤ slot_offset seq c.mask) × (slot_offset seq c.mask + 640 ≤ mapped)
unfolding slot_offset slot_index segment_len is_power_of_two
slot_offset-in_bounds mapped hdr c seq h fits =
    let (sized, long, mask) = attach_sized-ok mapped hdr c (attach-ok mapped hdr c h) in
    let (k, small, power) = power_below→pow 64 hdr.capacity sized in
    let below = slot_below k seq c.mask hdr.capacity power mask in
    (omega arith, omega (arith, long, fits, below))
