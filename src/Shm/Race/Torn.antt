-- ===== src/Shm/Race/Torn.antt =====
-- Sequence 0 and a body whose own `producer_seq` is 0.
use jeed.Base.{ℕ, zero, suc, ◌+◌, ◌-◌, ◌%◌, ◌^◌, ◌≤◌, ◌<◌, ◌≡◌, ◌≢◌, refl, ap, ◌∙◌, arith}
use mathlib.Core.Path.{subst}
use native.Mathlib.Nat.{one-le-pow, pow-le-pow_right, mod_self, zero-mod}
use jeed.Base.Bits.{bit_and_mask}
use jeed.Shm.Ring.{seq_in_progress, seq_word, record_words, slot_index}
use jeed.Shm.Race.{
  Memory, store, between, claimed, wanting, copying, returned, World, set_word, record_history,
  claim, write, stamp, publish, load_cursor, first_check, copy, second_check, Start, Reach, here,
  next,
}

-- What `RecordHeader::new` leaves in the field.
abbrev pub Fresh : ℕ → Type 0
Fresh v = v ≡ 0

module _ (mask : ℕ) (start : World) where
  abbrev pub Reached : World → Type 0
  Reached = Reach mask Fresh start

  abbrev pub slot : World → ℕ
  slot w = slot_index w.next_seq mask

  -- The whole of `slot`, one word of the body, and `commit`.
  abbrev pub opened : World → World
  opened w = record w { cells = store w.cells (slot w) seq_word seq_in_progress; phase = claimed }

  abbrev pub filled : World → ℕ → ℕ → World
  filled w i v = record w { cells = store w.cells (slot w) i v }

  abbrev pub committed : World → World
  committed w = record w {
    cells = store w.cells (slot w) seq_word w.next_seq;
    history = record_history w.history w.next_seq (w.cells (slot w));
    next_seq = w.next_seq + 1;
    cursor = w.next_seq + 1;
    phase = between;
  }

  pub reach_opened :
      {w : World}
      → Reached w
      → w.phase ≡ between
      → w.next_seq < seq_in_progress
      → Reached (opened w)
  reach_opened r e room = next r (claim e room)

  pub reach_committed :
      {w : World}
      → Reached w
      → w.phase ≡ claimed
      → w.next_seq < seq_in_progress
      → Reached (committed w)
  reach_committed r e room = next (next r (stamp e room)) (publish refl)

  -- The consumer waits below the cursor; record 0 was committed with 1 at word 2.
  record Waiting (n : ℕ) (w : World) : Type 0 where
    reached : Reached w
    quiet : w.phase ≡ between
    at : w.next_seq ≡ n
    reader : w.reader ≡ wanting 0
    first : w.history 0 2 ≡ 1

  -- The producer commits `n` records more.
  abbrev commits : ℕ → World → World
  commits zero w = w
  commits (suc n) w = commits n (committed (opened w))

  commit-Waiting :
      (n : ℕ) (w : World)
      → n < seq_in_progress
      → 1 ≤ n
      → Waiting n w
      → Waiting (suc n) (committed (opened w))
  commit-Waiting n w room pos v = record {
    reached =
        reach_committed (reach_opened v.reached v.quiet (omega (arith, v.at))) refl
          (omega (arith, v.at));
    quiet = refl;
    at = omega (arith, v.at);
    reader = v.reader;
    first = ground (arith, v.at, v.first);
  }

  commits-Waiting :
      (k n : ℕ) (w : World)
      → n + k ≤ seq_in_progress
      → 1 ≤ n
      → Waiting n w
      → Waiting (n + k) (commits k w)
  commits-Waiting zero n w room pos v = subst (λ m. Waiting m w) (omega arith) v
  commits-Waiting (suc k) n w room pos v =
      subst (λ m. Waiting m (commits (suc k) w)) (omega arith)
        (commits-Waiting k (suc n) (committed (opened w)) (omega arith) (omega arith)
          (commit-Waiting n w (omega arith) pos v))

  -- What a consumer has copied of a slot that does not change meanwhile.
  abbrev pub copied : (ℕ → ℕ) → ℕ → ℕ → ℕ
  copied m zero = λ _. 0
  copied m (suc n) = set_word (copied m n) n (m n)

  copied_lem : (m : ℕ → ℕ) (n i : ℕ) → i < n → copied m n i ≡ m i
  copied_lem m zero i h = absurd (omega arith)
  copied_lem m (suc n) i h = ground (arith, copied_lem m n i)

  abbrev pub reading : ℕ → World → ℕ → World
  reading want w n = record w {
    reader = copying want n (copied (w.cells (slot_index want mask)) n);
  }

  pub reach_reading :
      (want : ℕ) (w : World) (n : ℕ)
      → n ≤ record_words
      → Reached (reading want w 0)
      → Reached (reading want w n)
  reach_reading want w zero h r = r
  reach_reading want w (suc n) h r =
      next (reach_reading want w n (omega arith) r) (copy want n _ refl (omega arith))

  -- Record 0, with 1 at word 2, and the consumer that has loaded the cursor behind it.
  abbrev waiting : World
  waiting = record (committed (filled (opened start) 2 1)) { reader = wanting 0 }

  waiting-Waiting : Start mask Fresh start → Waiting 1 waiting
  waiting-Waiting s = record {
    reached =
        next
          (reach_committed
            (next (reach_opened here s.quiet (omega (arith, s.at_zero)))
              (write 2 1 refl (λ e. absurd (omega (arith, e)))))
            refl (omega (arith, s.at_zero)))
          (load_cursor 0 (omega arith) (omega (arith, s.at_zero)));
    quiet = refl;
    at = omega (arith, s.at_zero);
    reader = refl;
    first = ground (arith, s.at_zero);
  }

  -- A lap later the producer has claimed slot 0 again, and the body that it writes begins to land.
  abbrev lapped : World
  lapped = commits mask waiting

  abbrev landing : World
  landing = filled (filled (opened lapped) seq_word 0) 2 2

  abbrev torn : World
  torn = record landing {
    reader = returned 0 (copied (landing.cells (slot_index 0 mask)) record_words);
  }

  module _ (small : mask + 1 < seq_in_progress)
      (lap : slot_index (mask + 1) mask ≡ slot_index 0 mask) (s : Start mask Fresh start) where
    lapped-Waiting : Waiting (1 + mask) lapped
    lapped-Waiting = commits-Waiting mask 1 waiting (omega arith) (omega arith) (waiting-Waiting s)

    same_slot : slot lapped ≡ slot_index 0 mask
    same_slot =
        ap (λ n. slot_index n mask) (Waiting.at lapped-Waiting)
        ∙ ap (λ n. slot_index n mask) (let e : 1 + mask ≡ mask + 1 = omega arith in e)
        ∙ lap

    -- Two stores at slot 0, read back.
    landed :
        (m : Memory) (j : ℕ)
        → (store (store m j seq_word 0) j 2 2 j seq_word ≡ 0)
          × (store (store m j seq_word 0) j 2 2 j 2 ≡ 2)
    landed m j = ground arith

    landing_slot :
        (landing.cells (slot_index 0 mask) seq_word ≡ 0) × (landing.cells (slot_index 0 mask) 2 ≡ 2)
    landing_slot =
        subst (λ j. (landing.cells j seq_word ≡ 0) × (landing.cells j 2 ≡ 2)) same_slot
          (landed (opened lapped).cells (slot lapped))

    reach_landing : Reached landing
    reach_landing =
        next
          (next
            (reach_opened (Waiting.reached lapped-Waiting) (Waiting.quiet lapped-Waiting)
              (omega (arith, Waiting.at lapped-Waiting)))
            (write seq_word 0 refl (λ _. refl)))
          (write 2 2 refl (λ e. absurd (omega (arith, e))))

    reach_torn : Reached torn
    reach_torn =
        next
          (reach_reading 0 landing record_words (omega arith)
            (next reach_landing (first_check 0 (Waiting.reader lapped-Waiting) landing_slot.0)))
          (second_check 0 _ refl landing_slot.0)

    torn_word : copied (landing.cells (slot_index 0 mask)) record_words 2 ≢ torn.history 0 2
    torn_word e = omega (
      arith,
      e,
      Waiting.first lapped-Waiting,
      landing_slot.1,
      copied_lem (landing.cells (slot_index 0 mask)) record_words 2 (omega arith),
    )

slot_goes_round : (k : ℕ) → slot_index (2 ^ k - 1 + 1) (2 ^ k - 1) ≡ slot_index 0 (2 ^ k - 1)
unfolding slot_index
slot_goes_round k = omega (
  arith,
  bit_and_mask k (2 ^ k - 1 + 1),
  bit_and_mask k 0,
  one-le-pow k 2,
  mod_self (2 ^ k),
  ap (λ m. m % 2 ^ k) (let e : 2 ^ k - 1 + 1 ≡ 2 ^ k = omega (arith, one-le-pow k 2) in e),
  zero-mod (2 ^ k),
)

-- The sequence lock fails at sequence 0, in a ring of any power of two of slots below 2 ^ 64: a body
-- that is assigned as a whole record carries a `producer_seq` of 0 into the slot, over the sentinel,
-- and a consumer that is still to read record 0 takes the half-written slot for it. `try_recv`
-- returns with a word that is not record 0's.
pub torn_at_zero :
    (k : ℕ) (start : World)
    → k < 64
    → Start (2 ^ k - 1) Fresh start
    → (w : World) × (out : ℕ → ℕ) × Reach (2 ^ k - 1) Fresh start w
      × (w.reader ≡ returned 0 out)
      × (out 2 ≢ w.history 0 2)
torn_at_zero k start h s = (
  torn (2 ^ k - 1) start,
  _,
  reach_torn (2 ^ k - 1) start small (slot_goes_round k) s,
  refl,
  torn_word (2 ^ k - 1) start small (slot_goes_round k) s,
)
  where
    small : 2 ^ k - 1 + 1 < seq_in_progress
    small = omega (
      arith,
      one-le-pow k 2,
      pow-le-pow_right {n = 2} (omega arith) {i = k} {j = 63} (omega arith),
    )
