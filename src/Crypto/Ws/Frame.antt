-- ===== src/Crypto/Ws/Frame.antt =====
-- crates/jeed-crypto/src/recv/ws/frame.rs: frame headers in, masked frames out.
pub mod Server
pub mod Client
pub mod Sound
use Prim.Native.Nat.{bit_and, bit_or, bit_xor}
use jeed.Base.{ℕ, zero, suc, ◌+◌, ◌-◌, ◌*◌, ◌/◌, ◌%◌, ◌^◌, List, [], ◌∷◌, ◌++◌, Bool, true, false}
use jeed.Base.{
  Option, none, some, not, ◌&&◌, ◌==◌, ltb, leb, if◌then◌else◌, length, take, drop, get_or,
}
use jeed.Base.{Result, ok, err, ◌>>=◌, ok_or}
use jeed.Base.Bytes.{be_from, be_bytes}
use jeed.Crypto.Ws.Error.{WsError, reserved_bits, masked_by_server, length_bit, fragmented_control}
use jeed.Crypto.Ws.Error.{control_too_long, no_room}

abbrev pub max_control_payload : ℕ
max_control_payload = 125

pub data Opcode : Type 0 where
  continuation text binary close ping pong : Opcode

-- `Opcode::from_u8`
unfoldable pub from_u8 : ℕ → Option Opcode
from_u8 b =
    if b == 0
    then some continuation
    else (if b == 1
        then some text
        else (if b == 2
            then some binary
            else (if b == 8
                then some close
                else (if b == 9 then some ping else (if b == 10 then some pong else none)))))

unfoldable pub as_u8 : Opcode → ℕ
as_u8 continuation = 0
as_u8 text = 1
as_u8 binary = 2
as_u8 close = 8
as_u8 ping = 9
as_u8 pong = 10

unfoldable pub is_control : Opcode → Bool
unfolding as_u8
is_control op = not (bit_and (as_u8 op) 8 == 0)

pub record FrameHeader : Type 0 where
  pub fin : Bool
  pub opcode : Opcode
  pub header_len : ℕ
  pub payload_len : ℕ

-- `FrameHeader::len`
abbrev pub frame_len : FrameHeader → ℕ
frame_len h = h.header_len + h.payload_len

-- The length's `match`: how long the header is, and the payload. A `usize` holds every u64.
unfoldable pub parse_length : ℕ → List ℕ → Result WsError (Option (ℕ × ℕ))
parse_length n rest =
    if n == 126
    then (if ltb (length rest) 2 then ok none else ok (some (4, be_from 0 (take 2 rest))))
    else (if n == 127
        then (if ltb (length rest) 8
            then ok none
            else (if not (be_from 0 (take 8 rest) / 2 ^ 63 == 0)
                then err length_bit
                else ok (some (10, be_from 0 (take 8 rest)))))
        else ok (some (2, n)))

-- From the control checks on.
unfoldable pub finish_header : Bool → Opcode → Option (ℕ × ℕ) → Result WsError (Option FrameHeader)
finish_header fin op none = ok none
finish_header fin op (some (header_len, payload_len)) =
    if is_control op && not fin
    then err fragmented_control
    else (if is_control op && ltb max_control_payload payload_len
        then err (control_too_long payload_len)
        else ok (
            some (record {
              fin = fin;
              opcode = op;
              header_len = header_len;
              payload_len = payload_len;
            })))

unfoldable pub parse_header : List ℕ → Result WsError (Option FrameHeader)
parse_header [] = ok none
parse_header (b0 ∷ []) = ok none
parse_header (b0 ∷ b1 ∷ rest) =
    if not (bit_and b0 0x70 == 0)
    then err reserved_bits
    else (ok_or (from_u8 (bit_and b0 0x0f)) (WsError.opcode (bit_and b0 0x0f)) >>= (λ op.
        if not (bit_and b1 0x80 == 0)
        then err masked_by_server
        else (parse_length (bit_and b1 0x7f) rest
            >>= finish_header (not (bit_and b0 0x80 == 0)) op)))

unfoldable pub framed_len : ℕ → ℕ
framed_len payload_len =
    let ext = if ltb payload_len 126 then 0 else (if leb payload_len 0xffff then 2 else 8) in
    2 + ext + 4 + payload_len

-- The loop of `write_frame`: byte `i` of the payload under byte `i & 3` of the mask.
unfoldable pub masked : List ℕ → ℕ → List ℕ → List ℕ
masked mask i [] = []
masked mask i (b ∷ bs) = bit_xor b (get_or mask (i % 4) 0) ∷ masked mask (suc i) bs

-- The second byte, and the length's own bytes behind it.
unfoldable pub length_field : ℕ → List ℕ
length_field n =
    if ltb n 126
    then bit_or 0x80 n ∷ []
    else (if leb n 0xffff then bit_or 0x80 126 ∷ be_bytes 2 n else bit_or 0x80 127 ∷ be_bytes 8 n)

-- `write_frame`: the frame's length, and `out` with the frame at its front.
unfoldable pub write_frame : List ℕ → Opcode → List ℕ → List ℕ → Result WsError (ℕ × List ℕ)
write_frame out op payload mask =
    let total = framed_len (length payload) in
    if is_control op && ltb max_control_payload (length payload)
    then err (control_too_long (length payload))
    else (if ltb (length out) total
        then err no_room
        else ok (
          total,
          (bit_or 0x80 (as_u8 op) ∷ length_field (length payload))
              ++ (mask ++ (masked mask 0 payload ++ drop total out)),
        ))

unfoldable pub write_close : List ℕ → ℕ → List ℕ → Result WsError (ℕ × List ℕ)
write_close out code mask = write_frame out close (be_bytes 2 code) mask

-- Of less than two bytes there is no code.
unfoldable pub close_code : List ℕ → Option ℕ
close_code [] = none
close_code (b ∷ []) = none
close_code (hi ∷ lo ∷ rest) = some (be_from 0 (hi ∷ lo ∷ []))
