-- ===== src/Crypto/Recv/Link.antt =====
-- crates/jeed-crypto/src/recv/link.rs: the bytes not yet framed, and frames out of them. What the socket
-- answers is an argument; `I` is the type of the operating system's errors.
pub mod Buffer
pub mod Frames
use Prim.Native.Nat.{bit_xor}
use jeed.Base.{
  ℕ, ◌+◌, ◌-◌, ◌*◌, ◌/◌, ◌%◌, ◌^◌, min, List, [], ◌∷◌, ◌++◌, Bool, true, false, Option, none, some,
}
use jeed.Base.{
  Result, ok, err, ◌>>=◌, ◌==◌, ltb, if◌then◌else◌, length, take, drop, slice, replicate,
}
use jeed.Crypto.Ws.Error.{WsError}
use jeed.Crypto.Ws.Frame.{Opcode, FrameHeader, parse_header, frame_len, write_frame, write_close}

-- The calls that an error names.
pub data Call : Type 0 where
  read write flush set_nonblocking set_read_timeout : Call

pub data LinkError (I : Type 0) : Type 0 where
  io : Call → I → LinkError I
  closed : (code : Option ℕ) → LinkError I
  protocol : WsError → LinkError I
  oversize : (limit : ℕ) → LinkError I
  timeout : (step : List ℕ) → LinkError I
  silent name : LinkError I
  tls : I → LinkError I
  random : LinkError I

-- `From<WsError>`, as `?` applies it.
abbrev pub from_ws : {I A : Type 0} → Result WsError A → Result (LinkError I) A
from_ws (ok a) = ok a
from_ws (err e) = err (protocol e)

-- A frame borrowed from the buffer.
pub record Frame : Type 0 where
  pub fin : Bool
  pub opcode : Opcode
  pub payload : List ℕ
  pub len : ℕ

-- `buf[head..len]` is unread.
pub record RecvBuffer : Type 0 where
  pub buf : List ℕ
  pub head : ℕ
  pub len : ℕ

abbrev pub new_buffer : ℕ → RecvBuffer
new_buffer capacity = record { buf = replicate capacity 0; head = 0; len = 0 }

abbrev pub filled : RecvBuffer → List ℕ
filled b = slice b.head b.len b.buf

abbrev pub capacity : RecvBuffer → ℕ
capacity b = length b.buf

-- `copy_within(head..len, 0)` leaves the bytes behind the copy as they were.
unfoldable pub compact : RecvBuffer → RecvBuffer
compact b =
    if b.head == 0
    then b
    else record { buf = filled b ++ drop (b.len - b.head) b.buf; head = 0; len = b.len - b.head }

-- The bytes that a read put into the spare region, and `commit` of their number.
unfoldable pub commit : List ℕ → RecvBuffer → RecvBuffer
commit bytes b = record b {
  buf = take b.len b.buf ++ (bytes ++ drop (b.len + length bytes) b.buf);
  len = min (b.len + length bytes) (capacity b);
}

unfoldable pub consume : ℕ → RecvBuffer → RecvBuffer
consume n b =
    let head = min (b.head + n) b.len in
    if head == b.len then record b { head = 0; len = 0 } else record b { head = head }

-- What a read of the stream gives: some bytes, no more than there is room for; the end; nothing now.
pub data Read (I : Type 0) : Type 0 where
  bytes : List ℕ → Read I
  would_block unexpected_eof : Read I
  failed : I → Read I

pub record Link : Type 0 where
  pub buf : RecvBuffer
  pub out : List ℕ
  pub mask : ℕ

abbrev ws_recv_buffer : ℕ
ws_recv_buffer = 1048576

abbrev ws_send_buffer : ℕ
ws_send_buffer = 16384

module _ {I : Type 0} where
  abbrev committed : List ℕ → RecvBuffer → Result (LinkError I) ℕ × RecvBuffer
  committed [] b = (err (closed none), b)
  committed (c ∷ cs) b = (ok (length (c ∷ cs)), commit (c ∷ cs) b)

  abbrev filled_by : Read I → RecvBuffer → Result (LinkError I) ℕ × RecvBuffer
  filled_by (bytes cs) b = committed cs b
  filled_by would_block b = (ok 0, b)
  filled_by unexpected_eof b = (err (closed none), b)
  filled_by (failed e) b = (err (io read e), b)

  -- A full buffer has no room to read into.
  unfoldable pub fill : Read I → Link → Result (LinkError I) ℕ × Link
  fill r link =
      let b = compact link.buf in
      if length (drop b.len b.buf) == 0
      then (err (oversize (capacity b)), record link { buf = b })
      else (let (answer, b') = filled_by r b in (answer, record link { buf = b' }))

  -- What `peek` makes of the header.
  unfoldable pub peek_at : RecvBuffer → Option FrameHeader → Result (LinkError I) (Option Frame)
  peek_at b none = ok none
  peek_at b (some h) =
      if ltb (capacity b) (frame_len h)
      then err (oversize (capacity b))
      else (if ltb (length (filled b)) (frame_len h)
          then ok none
          else ok (
              some (record {
                fin = h.fin;
                opcode = h.opcode;
                payload = slice h.header_len (frame_len h) (filled b);
                len = frame_len h;
              })))

  unfoldable pub peek : Link → Result (LinkError I) (Option Frame)
  peek link = from_ws (parse_header (filled link.buf)) >>= peek_at link.buf

-- `Link::consume`
unfoldable pub consume_frame : ℕ → Link → Link
consume_frame n link = record link { buf = consume n link.buf }

abbrev pub pending : Link → ℕ
pending link = length (filled link.buf)

-- `to_le_bytes` of the low 32 bits.
abbrev mask_bytes : ℕ → List ℕ
mask_bytes x = x % 256 ∷ x / 256 % 256 ∷ x / 65536 % 256 ∷ x / 16777216 % 256 ∷ []

-- xorshift64: what is shifted out of a u64 is lost.
unfoldable pub next_mask : Link → List ℕ × Link
next_mask link =
    let x1 = bit_xor link.mask (link.mask * 2 ^ 13 % 2 ^ 64) in
    let x2 = bit_xor x1 (x1 / 2 ^ 7) in
    let x3 = bit_xor x2 (x2 * 2 ^ 17 % 2 ^ 64) in (mask_bytes x3, record link { mask = x3 })

-- What the stream answers to the bytes written to it, then to the flush.
pub record Writes (I : Type 0) : Type 0 where
  pub written : Option I
  pub flushed : Option (Bool × I)

module _ {I : Type 0} where
  -- A flush that would block is no failure.
  unfoldable pub write_out : Writes I → Result {0, 0} (LinkError I) Unit
  write_out w = elim w.written [
    | some e ↦ err (io write e)
    | none ↦ elim w.flushed [
      | none ↦ ok tt
      | some (true, e) ↦ ok tt
      | some (false, e) ↦ err (io flush e)
    ]
  ]

  -- The frame's bytes are those at the front of `out`.
  abbrev sent :
      Writes I
      → Link
      → Result WsError (ℕ × List ℕ)
      → Result {0, 0} (LinkError I) Unit × (List ℕ × Link)
  sent w link (ok (n, out)) = (write_out w, (take n out, record link { out = out }))
  sent w link (err e) = (err (protocol e), ([], link))

  -- `Link::send`: the answer, and the bytes given to the stream.
  unfoldable pub send :
      Writes I → Opcode → List ℕ → Link → Result {0, 0} (LinkError I) Unit × (List ℕ × Link)
  send w op payload link =
      let (mask, link') = next_mask link in sent w link' (write_frame link'.out op payload mask)

  unfoldable pub send_close :
      Writes I → ℕ → Link → Result {0, 0} (LinkError I) Unit × (List ℕ × Link)
  send_close w code link =
      let (mask, link') = next_mask link in sent w link' (write_close link'.out code mask)
