-- ===== src/Fix/FrameBuffer.antt =====
-- `FrameBuffer<N>` of crates/jeed-fix/src/frame.rs: a receive buffer of fixed capacity `n`.
pub mod Queue
pub mod Drain
use jeed.Base.{ℕ, zero, suc, ◌+◌, ◌-◌, ◌%◌, ◌^◌, min, List, [], ◌∷◌, ◌++◌, Option, none, some}
use jeed.Base.{Result, ok, err, ◌==◌, if◌then◌else◌, length, take, drop}
use jeed.Fix.Error.{FixError, incomplete, body_length}
use jeed.Fix.Frame.{Frame, frame}

pub record FrameBuffer : Type 0 where
  pub buf : List ℕ
  pub len : ℕ

abbrev pub filled : FrameBuffer → List ℕ
filled b = take b.len b.buf

module _ (n : ℕ) where
  -- The caller has written into the spare part.
  unfoldable pub commit : ℕ → FrameBuffer → FrameBuffer
  commit k b = record b { len = min (b.len + k) n }

  -- Returns how many bytes fit. `copy_from_slice` overwrites that many from `len` on.
  unfoldable pub push : List ℕ → FrameBuffer → ℕ × FrameBuffer
  push bytes b =
      let k = min (length bytes) (n - b.len) in
      (
        k,
        record {
          buf = take b.len b.buf ++ (take k bytes ++ drop (b.len + k) b.buf);
          len = b.len + k;
        },
      )

  -- A full buffer that does not frame is an oversize body.
  unfoldable pub peek_error : ℕ → FixError → Result FixError (Option Frame)
  peek_error len incomplete = if len == n then err (body_length (n % 2 ^ 32)) else ok none
  peek_error len e = err e

  unfoldable pub peek : FrameBuffer → Result FixError (Option Frame)
  unfolding peek_error
  peek b = elim (frame (filled b)) [ ok f ↦ ok (some f) | err e ↦ peek_error b.len e ]

-- `copy_within(k..len, 0)`: the bytes from `len - k` on stay as they were.
unfoldable pub consume : ℕ → FrameBuffer → FrameBuffer
consume n b =
    let k = min n b.len in
    record { buf = drop k (take b.len b.buf) ++ drop (b.len - k) b.buf; len = b.len - k }

unfoldable pub clear : FrameBuffer → FrameBuffer
clear b = record b { len = 0 }
