-- ===== src/Crypto/Ws/Frame/Sound.antt =====
-- What holds of every header that `parse_header` reads.
use jeed.Base.{ℕ, ◌+◌, ◌≤◌, List, [], ◌∷◌, Bool, true, Option, none, some}
use jeed.Base.{◌≡◌, arith, ok, ok_or, not, length}
use jeed.Crypto.Ws.Frame.{
  Opcode, FrameHeader, is_control, parse_header, parse_length, finish_header,
}
use jeed.Crypto.Ws.Error.{WsError}
use jeed.Crypto.Ws.Frame.{from_u8}
use jeed.Base.{◌==◌, bind_ok, guard_ok, ap, ◌∙◌}
use Prim.Native.Nat.{bit_and}

pub record IsSound (buf : List ℕ) (h : FrameHeader) : Type 0 where
  pub longer : 2 ≤ h.header_len
  pub within : h.header_len ≤ length buf
  pub control : is_control h.opcode ≡ true → (h.fin ≡ true) × (h.payload_len ≤ 125)

parse_length_sound :
    (n : ℕ) (rest : List ℕ) (k m : ℕ)
    → parse_length n rest ≡ ok (some (k, m))
    → (2 ≤ k) × (k ≤ 2 + length rest)
unfolding parse_length
parse_length_sound n rest k m e = ground arith

finish_header_sound :
    (fin : Bool) (op : Opcode) (o : Option (ℕ × ℕ)) (h : FrameHeader)
    → finish_header fin op o ≡ ok (some h)
    → (o ≡ some (h.header_len, h.payload_len))
      × (is_control h.opcode ≡ true → (h.fin ≡ true) × (h.payload_len ≤ 125))
unfolding finish_header
finish_header_sound fin op none h e = cc
finish_header_sound fin op (some (k, n)) h e = (ground arith, λ ctl. (ground arith, ground arith))

-- A header that is read lies within the bytes given, and one of a control frame is final and announces
-- no more than 125 bytes.
pub parse_header-IsSound :
    (buf : List ℕ) (h : FrameHeader) → parse_header buf ≡ ok (some h) → IsSound buf h
unfolding parse_header
parse_header-IsSound [] h e = cc
parse_header-IsSound (b0 ∷ []) h e = cc
parse_header-IsSound (b0 ∷ b1 ∷ rest) h e =
    let coded = guard_ok (not (bit_and b0 0x70 == 0)) _ _ (some h) e in
    let (op, _, opened) =
      bind_ok (ok_or (from_u8 (bit_and b0 0x0f)) (WsError.opcode (bit_and b0 0x0f))) _ (some h)
        coded.1 in
    let bare = guard_ok (not (bit_and b1 0x80 == 0)) _ _ (some h) opened in
    let (o, sized, finished) = bind_ok (parse_length (bit_and b1 0x7f) rest) _ (some h) bare.1 in
    let last = finish_header_sound (not (bit_and b0 0x80 == 0)) op o h finished in
    let room =
      parse_length_sound (bit_and b1 0x7f) rest h.header_len h.payload_len (sized ∙ ap ok last.0) in
    record { longer = room.0; within = omega (arith, room.1); control = last.1 }
