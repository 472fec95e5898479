-- ===== src/Crypto/Recv/Link/Buffer.antt =====
-- The receive buffer is a byte queue: reads append to what is unread, frames are dropped from its front.
use jeed.Base.{
  ℕ, ◌+◌, ◌-◌, ◌≤◌, min, ◌≡◌, refl, sym, ap, ◌∙◌, arith, inl, inr, Bool-cases, ◌==◌, ==→eq,
}
use jeed.Base.{List, ◌++◌, append_assoc, length, take, drop}
use jeed.Base.{length-append, length-take, length-drop, take_append_len, drop-drop, drop-take}
use jeed.Base.{drop_append_le, drop_of_length_le, ◌<◌, false}
use jeed.Crypto.Recv.Link.{RecvBuffer, filled, capacity, compact, commit, consume}

pub record IsValid (b : RecvBuffer) : Type 0 where
  pub ordered : b.head ≤ b.len
  pub within : b.len ≤ capacity b

module _ {b : RecvBuffer} (v : IsValid b) where
  pub length-filled : length (filled b) ≡ b.len - b.head
  length-filled = omega (
    arith,
    length-take (b.len - b.head) (drop b.head b.buf),
    length-drop b.head b.buf,
    v.ordered,
    v.within,
  )

  -- Moving the unread bytes to the front loses none.
  pub compact_lem :
      (filled (compact b) ≡ filled b)
      × IsValid (compact b)
      × (capacity (compact b) ≡ capacity b)
      × ((compact b).head ≡ 0)
  unfolding compact
  compact_lem = elim (Bool-cases (b.head == 0)) [
    | inl front ↦ rw front (refl, v, refl, ==→eq _ _ front)
    | inr behind ↦ rw behind (
      take_append_len (filled b) back (b.len - b.head - 0) (omega (arith, length-filled)),
      record { ordered = omega arith; within = omega (arith, same, v.within) },
      same,
      refl,
    )
  ]
    where
      back : List ℕ
      back = drop (b.len - b.head) b.buf

      same : length (filled b ++ back) ≡ capacity b
      same = omega (
        arith,
        length-append (filled b) back,
        length-filled,
        length-drop (b.len - b.head) b.buf,
        v.within,
      )

  -- Dropping `n` bytes, all of them at most.
  pub consume_lem :
      (n : ℕ)
      → (filled (consume n b) ≡ drop n (filled b))
        × IsValid (consume n b)
        × (capacity (consume n b) ≡ capacity b)
  unfolding consume
  consume_lem n = elim (Bool-cases (min (b.head + n) b.len == b.len)) [
    | inl all ↦ rw all (
      sym (drop_of_length_le n (filled b) (omega (arith, length-filled, ==→eq _ _ all))),
      record { ordered = omega arith; within = omega arith },
      refl,
    )
    | inr some_left ↦ rw some_left (
      ap (λ k. take (b.len - k) (drop k b.buf)) (omega (arith, short some_left))
          ∙ ap (take (b.len - (b.head + n))) (drop-drop b.head n b.buf)
          ∙ ap (λ k. take k (drop n (drop b.head b.buf))) (omega (arith, short some_left))
          ∙ sym (drop-take n (b.len - b.head) (drop b.head b.buf)),
      record { ordered = omega arith; within = v.within },
      refl,
    )
  ]
    where
      short : (min (b.head + n) b.len == b.len) ≡ false → b.head + n < b.len
      short h = ground (arith, h)

  -- What a read brings goes behind what is unread.
  pub commit_lem :
      (bytes : List ℕ)
      → b.len + length bytes ≤ capacity b
      → (filled (commit bytes b) ≡ filled b ++ bytes)
        × IsValid (commit bytes b)
        × (capacity (commit bytes b) ≡ capacity b)
  unfolding commit
  commit_lem bytes fits = (
    ap (λ l. take (min (b.len + length bytes) (capacity b) - b.head) l)
          (drop_append_le (take b.len b.buf) (bytes ++ back) b.head
              (omega (arith, length-take b.len b.buf, v.ordered, v.within))
            ∙ ap (λ l. l ++ (bytes ++ back)) (drop-take b.head b.len b.buf)
            ∙ sym (append_assoc (filled b) bytes back))
        ∙ take_append_len (filled b ++ bytes) back _
            (omega (arith, fits, v.ordered, length-filled, length-append (filled b) bytes)),
    record { ordered = omega (arith, fits, v.ordered); within = omega (arith, same, fits) },
    same,
  )
    where
      back : List ℕ
      back = drop (b.len + length bytes) b.buf

      same : length (take b.len b.buf ++ (bytes ++ back)) ≡ capacity b
      same = omega (
        arith,
        length-append (take b.len b.buf) (bytes ++ back),
        length-append bytes back,
        length-take b.len b.buf,
        length-drop (b.len + length bytes) b.buf,
        v.within,
        fits,
      )
