-- ===== src/Tests/Shm.antt =====
-- A ring of two slots over a section that was all zeros.
use jeed.Base.{ℕ, ◌-◌, ◌^◌, ◌≡◌, ◌≢◌, refl, arith}
use jeed.Shm.Ring.{record_words, slot_index}
use jeed.Shm.Race.{
  World, between, outside, returned, Start, Reach, here, next, write, load_cursor, first_check,
  second_check,
}
use jeed.Shm.Race.Invariant.{returned-untorn}
use jeed.Shm.Race.Torn.{
  Fresh, torn_at_zero, Reached, opened, filled, committed, copied, reach_opened, reach_committed,
  reach_reading,
}

abbrev blank : World
blank = record {
  cells = λ _ _. 0;
  cursor = 0;
  next_seq = 0;
  phase = between;
  reader = outside;
  history = λ _ _. 0;
}

blank-Start : Start 1 Fresh blank
blank-Start = record { at_zero = refl; cursor_zero = refl; quiet = refl; away = refl }

-- Two records, the second with 7 at word 2.
abbrev two_records : World
two_records =
    committed 1 blank
      (filled 1 blank (opened 1 blank (committed 1 blank (opened 1 blank blank))) 2 7)

abbrev after_read : World
after_read = record two_records {
  reader = returned 1 (copied 1 blank (two_records.cells (slot_index 1 1)) record_words);
}

reach_two_records : Reached 1 blank two_records
reach_two_records =
    reach_committed 1 blank
      (next
        (reach_opened 1 blank
          (reach_committed 1 blank (reach_opened 1 blank here refl (omega arith)) refl
            (omega arith))
          refl (omega arith))
        (write 2 7 refl (λ e. absurd (omega (arith, e)))))
      refl (omega arith)

reach_after_read : Reach 1 Fresh blank after_read
unfolding slot_index
reach_after_read =
    next
      (reach_reading 1 blank 1 two_records record_words (omega arith) (
        next (next reach_two_records (load_cursor 1 (omega arith) (omega arith)))
          (first_check 1 refl refl)))
      (second_check 1 _ refl refl)

returned-untorn_example :
    copied 1 blank (two_records.cells (slot_index 1 1)) record_words 2 ≡ two_records.history 1 2
returned-untorn_example =
    returned-untorn 1 Fresh 1 _ blank-Start reach_after_read refl (λ e. absurd (omega (arith, e))) 2
      (omega arith) (λ e. absurd (omega (arith, e)))

blank-Start_four : Start (2 ^ 2 - 1) Fresh blank
blank-Start_four = record { at_zero = refl; cursor_zero = refl; quiet = refl; away = refl }

torn_at_zero_example :
    (w : World) × (out : ℕ → ℕ) × Reach (2 ^ 2 - 1) Fresh blank w
    × (w.reader ≡ returned 0 out)
    × (out 2 ≢ w.history 0 2)
torn_at_zero_example = torn_at_zero 2 blank (omega arith) blank-Start_four
