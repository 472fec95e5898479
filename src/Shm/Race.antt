-- ===== src/Shm/Race.antt =====
-- crates/jeed-shm/src/producer.rs and consumer.rs, one memory access at a time: a producer that
-- fills slots and a consumer in the middle of `try_recv`, interleaved in any order. Each access is
-- one step, in program order, which is what the fences keep. One run of the producer: no restart.
pub mod Invariant
pub mod Torn
use jeed.Base.{ℕ, zero, suc, ◌+◌, ◌-◌, ◌≤◌, ◌<◌, ◌≡◌, ◌≢◌, ◌&&◌, ◌==◌, if◌then◌else◌}
use jeed.Shm.Ring.{seq_in_progress, seq_word, record_words, slot_index}

-- Slots by index, words of a slot by offset.
abbrev pub Memory : Type 0
Memory = ℕ → ℕ → ℕ

abbrev pub store : Memory → ℕ → ℕ → ℕ → Memory
store m j i v a b = if a == j && b == i then v else m a b

-- Where the producer stands: between records; a `Slot` claimed; its sequence stored, and the cursor
-- not yet moved.
pub data Phase : Type 0 where
  between claimed stamped : Phase

-- Where the consumer stands in `try_recv`: outside; below the cursor it has loaded; copying, with
-- the words before `n` in `out`; returned with `Recv::Record`.
pub data Reader : Type 0 where
  outside : Reader
  wanting : ℕ → Reader
  copying : ℕ → ℕ → (ℕ → ℕ) → Reader
  returned : ℕ → (ℕ → ℕ) → Reader

pub record World : Type 0 where
  pub cells : Memory
  pub cursor : ℕ
  pub next_seq : ℕ
  pub phase : Phase
  pub reader : Reader
  -- No part of the program: the words of each slot when its sequence was stored.
  pub history : Memory

abbrev pub set_word : (ℕ → ℕ) → ℕ → ℕ → ℕ → ℕ
set_word out n v i = if i == n then v else out i

abbrev pub record_history : Memory → ℕ → (ℕ → ℕ) → Memory
record_history h s words a b = if a == s then words b else h a b

-- `Foreign v`: a body that a decoder writes may hold `v` at the place of `producer_seq`.
module _ (mask : ℕ) (Foreign : ℕ → Type 0) where
  pub data Step (w : World) : World → Type 0 where
    -- `RingProducer::slot`: the sentinel.
    claim :
        w.phase ≡ between
        → w.next_seq < seq_in_progress
        → Step w (record w {
          cells = store w.cells (slot_index w.next_seq mask) seq_word seq_in_progress;
          phase = claimed;
        })
    -- A word of the body, through `DerefMut`. An assignment of a whole record writes
    -- `producer_seq` too.
    write :
        (i v : ℕ)
        → w.phase ≡ claimed
        → (i ≡ seq_word → Foreign v)
        → Step w (record w { cells = store w.cells (slot_index w.next_seq mask) i v })
    -- The `Slot` is dropped without `commit`.
    abandon : w.phase ≡ claimed → Step w (record w { phase = between })
    -- `Slot::commit`: the sequence, then the cursor.
    stamp :
        w.phase ≡ claimed
        → w.next_seq < seq_in_progress
        → Step w (record w {
          cells = store w.cells (slot_index w.next_seq mask) seq_word w.next_seq;
          phase = stamped;
          history = record_history w.history w.next_seq (w.cells (slot_index w.next_seq mask));
        })
    publish :
        w.phase ≡ stamped
        → Step w (record w { next_seq = w.next_seq + 1; cursor = w.next_seq + 1; phase = between })
    -- `try_recv`: `want` lies below the cursor, and not a lap behind.
    load_cursor :
        (want : ℕ)
        → want < w.cursor
        → w.cursor - want ≤ mask + 1
        → Step w (record w { reader = wanting want })
    first_check :
        (want : ℕ)
        → w.reader ≡ wanting want
        → w.cells (slot_index want mask) seq_word ≡ want
        → Step w (record w { reader = copying want 0 (λ _. 0) })
    copy :
        (want n : ℕ) (out : ℕ → ℕ)
        → w.reader ≡ copying want n out
        → n < record_words
        → Step w (record w {
          reader = copying want (suc n) (set_word out n (w.cells (slot_index want mask) n));
        })
    second_check :
        (want : ℕ) (out : ℕ → ℕ)
        → w.reader ≡ copying want record_words out
        → w.cells (slot_index want mask) seq_word ≡ want
        → Step w (record w { reader = returned want out })
    -- Any other way out: `Empty`, `Lagged`, or the caller going on after a record.
    leave : Step w (record w { reader = outside })

  -- What a fresh `create` leaves, whatever the section held before.
  pub record Start (w : World) : Type 0 where
    pub at_zero : w.next_seq ≡ 0
    pub cursor_zero : w.cursor ≡ 0
    pub quiet : w.phase ≡ between
    pub away : w.reader ≡ outside

  pub data Reach (s : World) : World → Type 0 where
    here : Reach s s
    next : {t u : World} → Reach s t → Step t u → Reach s u
