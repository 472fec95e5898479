-- ===== src/Crypto/Recv/Link/Frames.antt =====
-- What `peek` makes of a buffer whose unread bytes begin with a frame, or with a part of one.
use jeed.Base.{
  ℕ, ◌+◌, ◌-◌, ◌≤◌, ◌<◌, ◌≡◌, refl, ap, ◌∙◌, arith, inl, inr, Bool-cases, ltb, leb, le→ltb,
}
use jeed.Base.{◌||◌, if◌then◌else◌, err}
use jeed.Base.{List, ◌++◌, append_assoc, length, take, drop, ok, Bool, none, some}
use jeed.Base.{length-append, length-take, take_append_len, take_append_le, drop_append_at, ltb→lt}
use jeed.Base.{take_append_at, drop_append}
use jeed.Crypto.Ws.Frame.{Opcode, FrameHeader, parse_header, frame_len}
use jeed.Crypto.Ws.Frame.Server.{
  server_header, IsSendable, parse_header-server_header, parse_header-take,
}
use jeed.Crypto.Recv.Link.{Frame, Link, RecvBuffer, oversize, filled, capacity, peek, peek_at}
use jeed.Crypto.Recv.Link.{consume_frame}
use jeed.Crypto.Recv.Link.Buffer.{IsValid, consume_lem}

-- A server's frame: the header, then the payload as it is.
abbrev pub encode : Bool → Opcode → List ℕ → List ℕ
encode fin op payload = server_header fin op (length payload) ++ payload

-- The frame that it is read as.
abbrev pub frame_of : Bool → Opcode → List ℕ → Frame
frame_of fin op payload = record {
  fin = fin;
  opcode = op;
  payload = payload;
  len = length (server_header fin op (length payload)) + length payload;
}

abbrev head_of : Bool → Opcode → List ℕ → List ℕ
head_of fin op payload = server_header fin op (length payload)

abbrev header_of : Bool → Opcode → List ℕ → FrameHeader
header_of fin op payload = record {
  fin = fin;
  opcode = op;
  header_len = length (head_of fin op payload);
  payload_len = length payload;
}

length-encode :
    (fin : Bool) (op : Opcode) (payload : List ℕ)
    → length (encode fin op payload) ≡ length (head_of fin op payload) + length payload
length-encode fin op payload = length-append (head_of fin op payload) payload

module _ {I : Type 0} (fin : Bool) (op : Opcode) (payload : List ℕ) where
  peek_at-whole :
      (b : RecvBuffer) (rest : List ℕ)
      → filled b ≡ encode fin op payload ++ rest
      → length (encode fin op payload) ≤ capacity b
      → peek_at {I = I} b (some (header_of fin op payload)) ≡ ok (some (frame_of fin op payload))
  unfolding peek_at
  peek_at-whole b rest e fits =
      rw
        (
          le→ltb (capacity b) (frame_len (header_of fin op payload))
              (omega (arith, fits, length-encode fin op payload)),
          e,
          le→ltb (length (encode fin op payload ++ rest)) (frame_len (header_of fin op payload)) (
              omega
                (arith, length-append (encode fin op payload) rest, length-encode fin op payload)),
          append_assoc (head_of fin op payload) payload rest,
          drop_append (head_of fin op payload) (payload ++ rest),
          take_append_len payload rest
              (length (head_of fin op payload) + length payload - length (head_of fin op payload))
              (omega arith),
        )
        refl

  -- What a part behind whose header the frame goes on is answered with.
  peek_at-part :
      (b : RecvBuffer)
      → length (filled b) < length (encode fin op payload)
      → peek_at {I = I} b (some (header_of fin op payload)) ≡ (
          if leb (length (encode fin op payload)) (capacity b)
          then ok none
          else err (oversize (capacity b)))
  unfolding peek_at
  peek_at-part b short = ground (arith, length-encode fin op payload, short)

  -- Unread bytes that begin with a frame are read as that frame, if the buffer can hold it at all, and
  -- when it is consumed the bytes behind it are what is unread.
  pub peek-encode :
      (link : Link) (rest : List ℕ)
      → IsSendable fin op (length payload)
      → IsValid link.buf
      → filled link.buf ≡ encode fin op payload ++ rest
      → length (encode fin op payload) ≤ capacity link.buf
      → (peek {I = I} link ≡ ok (some (frame_of fin op payload)))
        × (filled (consume_frame (frame_of fin op payload).len link).buf ≡ rest)
  unfolding peek consume_frame
  peek-encode link rest s v e fits = (
    rw read (peek_at-whole link.buf rest e fits),
    (consume_lem v (frame_of fin op payload).len).0
        ∙ ap (drop (frame_of fin op payload).len) e
        ∙ drop_append_at (encode fin op payload) rest _ 0
            (omega (arith, length-encode fin op payload)),
  )
    where
      read : parse_header (filled link.buf) ≡ ok (some (header_of fin op payload))
      read =
          ap parse_header (e ∙ append_assoc (head_of fin op payload) payload rest)
          ∙ parse_header-server_header fin op (length payload) (payload ++ rest) s

  -- The first `k` bytes of a frame that a server may send, not all of them, are not read. While the
  -- header is not whole, or if the frame fits the buffer, `peek` waits for more; else it refuses the
  -- frame as too long for the buffer, as soon as the header is whole.
  pub peek-take :
      (link : Link) (k : ℕ)
      → IsSendable fin op (length payload)
      → filled link.buf ≡ take k (encode fin op payload)
      → k < length (encode fin op payload)
      → peek {I = I} link ≡ (
          if ltb k (length (server_header fin op (length payload)))
            || leb (length (encode fin op payload)) (capacity link.buf)
          then ok none
          else err (oversize (capacity link.buf)))
  unfolding peek peek_at
  peek-take link k s e short = elim (Bool-cases (ltb k (length (head_of fin op payload)))) [
    | inl part ↦ rw (part, in_header (ltb→lt _ _ part)) refl
    | inr whole ↦
        rw (whole, behind (ground (arith, whole)))
          (peek_at-part link.buf
            (omega (arith, ap length e, length-take k (encode fin op payload), short)))
  ]
    where
      in_header : k < length (head_of fin op payload) → parse_header (filled link.buf) ≡ ok none
      in_header h =
          ap parse_header (e ∙ take_append_le (head_of fin op payload) payload k (omega (arith, h)))
          ∙ parse_header-take fin op (length payload) k h

      behind :
          length (head_of fin op payload) ≤ k
          → parse_header (filled link.buf) ≡ ok (some (header_of fin op payload))
      behind h =
          ap parse_header (
            e
            ∙ take_append_at (head_of fin op payload) payload k
                (k - length (head_of fin op payload)) (omega (arith, h)))
          ∙ parse_header-server_header fin op (length payload) _ s
