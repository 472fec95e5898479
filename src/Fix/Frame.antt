-- ===== src/Fix/Frame.antt =====
-- crates/jeed-fix/src/frame.rs: `8=…<SOH>9=len<SOH>` body `10=ddd<SOH>`, and the receive buffer.
pub mod Message
pub mod Prefix
use jeed.Base.{ℕ, zero, suc, ◌+◌, ◌-◌, ◌%◌, ◌^◌, min, List, [], ◌∷◌, ◌++◌, Option, none, some}
use jeed.Base.{Bool, not, ◌||◌, Result, ok, err, ltb, ◌==◌, if◌then◌else◌}
use jeed.Base.{length, take, drop, slice, get_or, position, same_bytes}
use jeed.Fix.Error.{FixError, incomplete, begin_string, body_length, trailer, check_sum}
use jeed.Fix.TagValue.{soh, is_soh, parse_u64}

-- `FIX_MAX_BODY_LENGTH`
abbrev pub max_body_length : ℕ
max_body_length = 2 ^ 16

-- `FIX_TRAILER_LEN`
abbrev pub trailer_len : ℕ
trailer_len = 7

-- `u32::MAX`
abbrev pub u32_max : ℕ
u32_max = 2 ^ 32 - 1

pub record Frame : Type 0 where
  pub bytes : List ℕ
  pub begin : List ℕ
  pub body : List ℕ

unfoldable pub checksum_from : ℕ → List ℕ → ℕ
checksum_from acc [] = acc
checksum_from acc (b ∷ bs) = checksum_from ((acc + b) % 256) bs

-- The fold from `0u8`, by `wrapping_add`.
abbrev pub checksum : List ℕ → ℕ
checksum bytes = checksum_from 0 bytes

-- `10=ddd<SOH>` is in place; `found` is what `ddd` reads as.
unfoldable pub frame_checksum : List ℕ → List ℕ → ℕ → ℕ → Option ℕ → Result FixError Frame
frame_checksum buf begin body_start trailer_start none = err trailer
frame_checksum buf begin body_start trailer_start (some found) =
    let expected = checksum (take trailer_start buf) in
    if ltb 255 found || not (found % 256 == expected)
    then err (check_sum expected (min found 255))
    else ok (record {
      bytes = take (trailer_start + trailer_len) buf;
      begin = begin;
      body = slice body_start trailer_start buf;
    })

-- The message's extent is known: `body_start`, and the end of the body.
unfoldable pub frame_trailer : List ℕ → List ℕ → ℕ → ℕ → Result FixError Frame
frame_trailer buf begin body_start body_len =
    let trailer_start = body_start + body_len in
    let total = trailer_start + trailer_len in
    let tail = slice trailer_start total buf in
    if ltb (length buf) total
    then err incomplete
    else (if not (get_or buf (trailer_start - 1) 0 == soh)
        then err (body_length body_len)
        else (if not (same_bytes (take 3 tail) (b'1' ∷ b'0' ∷ b'=' ∷ []))
              || not (get_or tail 6 0 == soh)
            then err trailer
            else frame_checksum buf begin body_start trailer_start (parse_u64 (slice 3 6 tail))))

-- `9=` has been read as a number, or could not be.
unfoldable pub frame_body : List ℕ → List ℕ → ℕ → Option ℕ → Result FixError Frame
frame_body buf begin body_start none = err (body_length u32_max)
frame_body buf begin body_start (some body_len) =
    if body_len == 0 || ltb max_body_length body_len
    then err (body_length (min body_len u32_max))
    else frame_trailer buf begin body_start body_len

-- From `9=` on.
unfoldable pub frame_length : List ℕ → List ℕ → ℕ → Result FixError Frame
frame_length buf begin len_start =
    let rest = drop len_start buf in
    if length begin == 0
    then err begin_string
    else (if ltb (length rest) 2
        then err incomplete
        else (if not (same_bytes (take 2 rest) (b'9' ∷ b'=' ∷ []))
            then err (body_length u32_max)
            else elim (position is_soh (drop 2 rest)) [
              | none ↦ err (if ltb (2 + 6) (length rest) then body_length u32_max else incomplete)
              | some digits_end ↦
                  frame_body buf begin (len_start + 2 + digits_end + 1)
                    (parse_u64 (take digits_end (drop 2 rest)))
            ]))

unfoldable pub frame : List ℕ → Result FixError Frame
frame buf =
    if length buf == 0
    then err incomplete
    else (if ltb (length buf) 2
        then err (if get_or buf 0 0 == b'8' then incomplete else begin_string)
        else (if not (same_bytes (take 2 buf) (b'8' ∷ b'=' ∷ []))
            then err begin_string
            else elim (position is_soh (drop 2 buf)) [
              | none ↦ err (if ltb (2 + 16) (length buf) then begin_string else incomplete)
              | some bs_end ↦ frame_length buf (take bs_end (drop 2 buf)) (2 + bs_end + 1)
            ]))
