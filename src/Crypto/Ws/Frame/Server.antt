-- ===== src/Crypto/Ws/Frame/Server.antt =====
-- A server's frame header as RFC 6455 lays it out, unmasked, and what `parse_header` makes of it.
use Prim.Native.Nat.{bit_and}
use jeed.Base.{ℕ, zero, suc, ◌+◌, ◌^◌, ◌≤◌, ◌<◌, List, [], ◌∷◌, ◌++◌, Bool, true, false}
use jeed.Base.{◌≡◌, refl, sym, ◌∙◌, arith, none, some, not, ◌==◌, ltb, if◌then◌else◌}
use jeed.Base.{ok, ◌>>=◌, length, take}
use jeed.Base.{length-take, subst, ==→eq, inl, inr, Bool-cases, le→ltb, ltb→lt}
use jeed.Base.Bits.{bit_and_mask}
use jeed.Base.Bytes.{be_from, be_bytes, be_from-be_bytes, all_below-at}
use jeed.Crypto.Ws.Frame.{Opcode, from_u8, as_u8, is_control, parse_header, parse_length}
use jeed.Crypto.Ws.Frame.{finish_header, max_control_payload}
use jeed.Crypto.Ws.Frame.{continuation, text, binary, close, ping, pong}

abbrev pub first_byte : Bool → Opcode → ℕ
first_byte fin op = (if fin then 128 else 0) + as_u8 op

-- The length in its shortest form.
abbrev pub server_length : ℕ → List ℕ
server_length n =
    if ltb n 126 then n ∷ [] else (if ltb n 65536 then 126 ∷ be_bytes 2 n else 127 ∷ be_bytes 8 n)

abbrev pub server_header : Bool → Opcode → ℕ → List ℕ
server_header fin op n = first_byte fin op ∷ server_length n

-- What a peer that keeps to the protocol sends.
pub record IsSendable (fin : Bool) (op : Opcode) (n : ℕ) : Type 0 where
  pub short : n < 2 ^ 63
  pub control : is_control op ≡ true → (fin ≡ true) × (n ≤ 125)

-- The first byte's three parts.
first_byte_lem :
    (fin : Bool) (op : Opcode)
    → (bit_and (first_byte fin op) 0x70 ≡ 0)
      × (from_u8 (bit_and (first_byte fin op) 0x0f) ≡ some op)
      × (not (bit_and (first_byte fin op) 0x80 == 0) ≡ fin)
unfolding from_u8 as_u8
first_byte_lem true continuation = (refl, refl, refl)
first_byte_lem true text = (refl, refl, refl)
first_byte_lem true binary = (refl, refl, refl)
first_byte_lem true close = (refl, refl, refl)
first_byte_lem true ping = (refl, refl, refl)
first_byte_lem true pong = (refl, refl, refl)
first_byte_lem false continuation = (refl, refl, refl)
first_byte_lem false text = (refl, refl, refl)
first_byte_lem false binary = (refl, refl, refl)
first_byte_lem false close = (refl, refl, refl)
first_byte_lem false ping = (refl, refl, refl)
first_byte_lem false pong = (refl, refl, refl)

-- A byte below 128 has no mask bit.
mask_bit : (b : ℕ) → b < 128 → bit_and b 0x80 ≡ 0
mask_bit b h = ==→eq _ _ (all_below-at 128 (λ b. bit_and b 0x80 == 0) refl b h)

low_bits : (b : ℕ) → b < 128 → bit_and b 0x7f ≡ b
low_bits b h = omega (arith, bit_and_mask 7 b)

-- Two bytes of a frame that are in order leave the length and the control checks.
parse_header-begin :
    (fin : Bool) (op : Opcode) (b : ℕ) (rest : List ℕ)
    → b < 128
    → parse_header (first_byte fin op ∷ b ∷ rest) ≡ (parse_length b rest >>= finish_header fin op)
unfolding parse_header
parse_header-begin fin op b rest h =
    let first = first_byte_lem fin op in
    rw (first.0, first.1, first.2, mask_bit b h, low_bits b h) refl

finish_header-sendable :
    (fin : Bool) (op : Opcode) (k n : ℕ)
    → IsSendable fin op n
    → finish_header fin op (some (k, n))
      ≡ ok (some (record { fin = fin; opcode = op; header_len = k; payload_len = n }))
unfolding finish_header
finish_header-sendable fin op k n s = elim (Bool-cases (is_control op)) [
  | inl ctl ↦
      let keeps = s.control ctl in rw (ctl, keeps.0, le→ltb max_control_payload n keeps.1) refl
  | inr other ↦ rw other refl
]

module _ (n : ℕ) (rest : List ℕ) where
  parse_length-short : n < 126 → parse_length n rest ≡ ok (some (2, n))
  unfolding parse_length
  parse_length-short h = ground arith

  parse_length-two : n < 65536 → parse_length 126 (be_bytes 2 n ++ rest) ≡ ok (some (4, n))
  unfolding parse_length
  parse_length-two h = rw value (ground arith)
    where
      value : be_from 0 (be_bytes 2 n) ≡ n
      value = be_from-be_bytes 2 0 n ∙ omega arith

  parse_length-eight : n < 2 ^ 63 → parse_length 127 (be_bytes 8 n ++ rest) ≡ ok (some (10, n))
  unfolding parse_length
  parse_length-eight h = rw value (ground arith)
    where
      value : be_from 0 (be_bytes 8 n) ≡ n
      value = be_from-be_bytes 8 0 n ∙ omega arith

-- A header that a server may send is read back, whatever follows it: the final bit, the opcode, how
-- long the header is, and the length of the payload.
pub parse_header-server_header :
    (fin : Bool) (op : Opcode) (n : ℕ) (rest : List ℕ)
    → IsSendable fin op n
    → parse_header (server_header fin op n ++ rest)
      ≡ ok (
          some (record {
            fin = fin;
            opcode = op;
            header_len = length (server_header fin op n);
            payload_len = n;
          }))
parse_header-server_header fin op n rest s = elim (Bool-cases (ltb n 126)) [
  | inl one ↦
      let small = ltb→lt n 126 one in
      rw (one, parse_header-begin fin op n rest (omega arith), parse_length-short n rest small)
        (finish_header-sendable fin op 2 n s)
  | inr more ↦ elim (Bool-cases (ltb n 65536)) [
    | inl two ↦
        rw
          (
            more,
            two,
            parse_header-begin fin op 126 (be_bytes 2 n ++ rest) (omega arith),
            parse_length-two n rest (ltb→lt n 65536 two),
          )
          (finish_header-sendable fin op 4 n s)
    | inr eight ↦
        rw
          (
            more,
            eight,
            parse_header-begin fin op 127 (be_bytes 8 n ++ rest) (omega arith),
            parse_length-eight n rest s.short,
          )
          (finish_header-sendable fin op 10 n s)
  ]
]

parse_length-two_short : (rest : List ℕ) → length rest < 2 → parse_length 126 rest ≡ ok none
unfolding parse_length
parse_length-two_short rest h = ground arith

parse_length-eight_short : (rest : List ℕ) → length rest < 8 → parse_length 127 rest ≡ ok none
unfolding parse_length
parse_length-eight_short rest h = ground arith

finish_header-none : (fin : Bool) (op : Opcode) → finish_header fin op none ≡ ok none
unfolding finish_header
finish_header-none fin op = refl

-- Fewer bytes than a header are not read, if fewer than its extension are not.
header_take :
    (fin : Bool) (op : Opcode) (b : ℕ) (ext : List ℕ)
    → b < 128
    → ((rest : List ℕ) → length rest < length ext → parse_length b rest ≡ ok none)
    → (k : ℕ) → k < length (first_byte fin op ∷ b ∷ ext)
    → parse_header (take k (first_byte fin op ∷ b ∷ ext)) ≡ ok none
unfolding parse_header
header_take fin op b ext h none_of zero lt = refl
header_take fin op b ext h none_of (suc zero) lt = refl
header_take fin op b ext h none_of (suc (suc j)) lt =
    rw
      (
        parse_header-begin fin op b (take j ext) h,
        none_of (take j ext) (omega (arith, length-take j ext)),
      )
      (finish_header-none fin op)

-- Of a header in the protocol's form, a part is neither refused nor read.
pub parse_header-take :
    (fin : Bool) (op : Opcode) (n k : ℕ)
    → k < length (server_header fin op n)
    → parse_header (take k (server_header fin op n)) ≡ ok none
parse_header-take fin op n k lt = elim (Bool-cases (ltb n 126)) [
  | inl one ↦
      go (n ∷ []) (rw one refl) (
        header_take fin op n [] (omega (arith, ltb→lt n 126 one)) (λ rest h. absurd (omega arith))
          k)
  | inr more ↦ elim (Bool-cases (ltb n 65536)) [
    | inl two ↦ go (126 ∷ be_bytes 2 n) (rw (more, two) refl) (
        header_take fin op 126 (be_bytes 2 n) (omega arith)
          (λ rest h. parse_length-two_short rest h) k)
    | inr eight ↦ go (127 ∷ be_bytes 8 n) (rw (more, eight) refl) (
        header_take fin op 127 (be_bytes 8 n) (omega arith)
          (λ rest h. parse_length-eight_short rest h) k)
  ]
]
  where
    go :
        (bs : List ℕ)
        → server_length n ≡ bs
        → (k < length (first_byte fin op ∷ bs)
            → parse_header (take k (first_byte fin op ∷ bs)) ≡ ok none)
        → parse_header (take k (server_header fin op n)) ≡ ok none
    go bs e f =
        subst
          (λ l.
            k < length (first_byte fin op ∷ l)
            → parse_header (take k (first_byte fin op ∷ l)) ≡ ok none)
          (sym e) f lt
