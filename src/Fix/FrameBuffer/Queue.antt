-- ===== src/Fix/FrameBuffer/Queue.antt =====
-- The buffer is a bounded byte queue: `push` appends what fits, `consume` drops from the front.
use jeed.Base.{ℕ, ◌+◌, ◌-◌, ◌≤◌, min, ◌≡◌, refl, sym, ap, ◌∙◌, arith}
use jeed.Base.{List, ◌++◌, append_assoc, length, take, drop}
use jeed.Base.{length-append, length-take, length-drop, take_append_len}
use jeed.Fix.FrameBuffer.{FrameBuffer, filled, push, consume}

pub record IsValid (n : ℕ) (b : FrameBuffer) : Type 0 where
  pub storage : length b.buf ≡ n
  pub within : b.len ≤ n

module _ {n : ℕ} {b : FrameBuffer} (v : IsValid n b) where
  pub length-filled : length (filled b) ≡ b.len
  length-filled = omega (arith, length-take b.len b.buf, v.storage, v.within)

  -- On a valid buffer, `push` appends exactly the bytes that fit, answers their number, and keeps the
  -- buffer valid.
  pub push_lem :
      (bytes : List ℕ)
      → let (k, b') = push n bytes b in
        (k ≡ min (length bytes) (n - b.len)) × (filled b' ≡ filled b ++ take k bytes) × IsValid n b'
  unfolding push
  push_lem bytes = (
    refl,
    ap (take (b.len + k)) (sym (append_assoc (filled b) (take k bytes) back))
        ∙ take_append_len (filled b ++ take k bytes) back (b.len + k) (
            omega
              (arith, length-append (filled b) (take k bytes), length-filled, length-take k bytes)),
    record {
      storage = omega (
        arith,
        length-append (filled b) (take k bytes ++ back),
        length-append (take k bytes) back,
        length-filled,
        length-take k bytes,
        length-drop (b.len + k) b.buf,
        v.storage,
        v.within,
      );
      within = omega (arith, v.within);
    },
  )
    where
      k : ℕ
      k = min (length bytes) (n - b.len)

      back : List ℕ
      back = drop (b.len + k) b.buf

  -- On a valid buffer, `consume` drops that many bytes from the front, all of them at most, and keeps
  -- the buffer valid.
  pub consume_lem :
      (k : ℕ) → (filled (consume k b) ≡ drop (min k b.len) (filled b)) × IsValid n (consume k b)
  unfolding consume
  consume_lem k =
      let left = length-drop (min k b.len) (filled b) in
      (
        take_append_len (drop (min k b.len) (filled b)) (drop (b.len - min k b.len) b.buf)
            (b.len - min k b.len) (omega (arith, left, length-filled)),
        record {
          storage = omega (
            arith,
            length-append (drop (min k b.len) (filled b)) (drop (b.len - min k b.len) b.buf),
            left,
            length-filled,
            length-drop (b.len - min k b.len) b.buf,
            v.storage,
            v.within,
          );
          within = omega (arith, v.within);
        },
      )
