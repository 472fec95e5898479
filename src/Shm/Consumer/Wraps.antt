-- ===== src/Shm/Consumer/Wraps.antt =====
-- Where the length that a segment's header claims wraps.
use jeed.Base.{ℕ, zero, suc, ◌-◌, ◌*◌, ◌^◌, ◌%◌, ◌≤◌, ◌<◌, ◌≡◌, ◌∙◌, refl, ap, arith, true, false}
use jeed.Base.{ok, Bool-cases, inl, inr, ◌==◌, ==→eq}
use native.Mathlib.Nat.{pow-succ', one-le-pow}
use jeed.Wire.Segment.{check, segment_len, new_segment}
use jeed.Shm.Ring.{slot_offset}
use jeed.Shm.Consumer.{attach, attach_sized, power_below, is_power_of_two}

wrap_step : (n : ℕ) → n * 640 % 2 ^ 64 ≡ 0 → 2 * n * 640 % 2 ^ 64 ≡ 0
wrap_step n h = omega (arith, h)

wraps : (k : ℕ) → 57 ≤ k → 2 ^ k * 640 % 2 ^ 64 ≡ 0
wraps zero h = absurd (omega arith)
wraps (suc k) h = elim (Bool-cases (k == 56)) [
  | inl e ↦ rw (==→eq k 56 e) refl
  | inr e ↦
      ap (λ (n : ℕ). n * 640 % 2 ^ 64) (pow-succ' 2 k)
      ∙ wrap_step (2 ^ k) (wraps k (ground (arith, e, h)))
]

power_below-pow : (n k : ℕ) → k < n → power_below n (2 ^ k) ≡ true
power_below-pow zero k h = absurd (omega arith)
power_below-pow (suc n) k h = elim (Bool-cases (2 ^ k == 2 ^ n)) [
  | inl e ↦ rw e refl
  | inr e ↦ rw (e, power_below-pow n k (short n k h e)) refl
]
  where
    short : (n k : ℕ) → k < suc n → (2 ^ k == 2 ^ n) ≡ false → k < n
    short n k h e = elim (Bool-cases (k == n)) [
      | inl same ↦ absurd (ground (arith, e, ap (λ (i : ℕ). 2 ^ i) (==→eq k n same)))
      | inr other ↦ ground (arith, other, h)
    ]

pow_some : (k : ℕ) → (2 ^ k == 0) ≡ false
pow_some k = ground (arith, one-le-pow k 2 (omega arith))

-- `segment_len` wraps on a header whose capacity is a power of two from 2 ^ 57 on: `attach` accepts it on
-- a mapping of the header's 128 bytes alone, though the first slot already lies behind the mapping's end.
pub attach-wraps :
    (k boot : ℕ)
    → 57 ≤ k
    → k < 64
    → (attach 128 (new_segment (2 ^ k) boot)
        ≡ ok (record { capacity = 2 ^ k; mask = 2 ^ k - 1; boot_id = boot; next_seq = 0 }))
      × (128 ≤ slot_offset 0 (2 ^ k - 1))
unfolding attach attach_sized check segment_len is_power_of_two slot_offset
attach-wraps k boot low high =
    (rw (pow_some k, power_below-pow 64 k high, wraps k low) refl, omega arith)
