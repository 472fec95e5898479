-- ===== src/Crypto/Ws/Frame/Client.antt =====
-- A client's frame as a server reads it (RFC 6455 §5.2, §5.3), and that this undoes `write_frame`.
use Prim.Native.Nat.{bit_or}
use jeed.Base.{ℕ, suc, ◌+◌, ◌-◌, ◌%◌, ◌^◌, ◌≤◌, ◌<◌, List, [], ◌∷◌, ◌++◌, true, false}
use jeed.Base.{
  ◌≡◌, refl, sym, ◌∙◌, ap, arith, Option, none, some, ◌&&◌, ◌==◌, ltb, leb, if◌then◌else◌,
}
use jeed.Base.{ok, length, take, drop, get_or, append_assoc, length-append}
use jeed.Base.{==→eq, inl, inr, Bool-cases, le→ltb, ltb→lt, ap₂}
use jeed.Base.Options.{◌>>=◌}
use jeed.Base.{ne→==, le→leb, ◌⊎◌, take_append_len, drop_append_at, take_of_length_le}
use jeed.Base.Bytes.{be_from, be_bytes, be_from-be_bytes, all_below-at, bit_xor-bit_xor}
use jeed.Crypto.Ws.Frame.{Opcode, from_u8, as_u8, is_control, write_frame, masked, framed_len}
use jeed.Crypto.Ws.Frame.{length_field, max_control_payload}
use jeed.Crypto.Ws.Frame.{continuation, text, binary, close, ping, pong}

-- A server takes the masked bytes under the same mask again.
pub masked-masked : (mask : List ℕ) (i : ℕ) (bs : List ℕ) → masked mask i (masked mask i bs) ≡ bs
unfolding masked
masked-masked mask i [] = refl
masked-masked mask i (b ∷ bs) =
    ap₂ (λ x xs. x ∷ xs) (bit_xor-bit_xor b (get_or mask (i % 4) 0)) (masked-masked mask (suc i) bs)

length-masked : (mask : List ℕ) (i : ℕ) (bs : List ℕ) → length (masked mask i bs) ≡ length bs
unfolding masked
length-masked mask i [] = refl
length-masked mask i (b ∷ bs) = omega (arith, length-masked mask (suc i) bs)

-- The payload of a frame of `n` bytes behind its length field: four bytes of mask, then the bytes.
abbrev unmask : ℕ → List ℕ → Option (List ℕ)
unmask n bs =
    if leb (4 + n) (length bs) then some (masked (take 4 bs) 0 (take n (drop 4 bs))) else none

abbrev read_payload : ℕ → List ℕ → Option (List ℕ)
read_payload b1 rest =
    if ltb b1 128
    then none
    else (if b1 == 254
        then unmask (be_from 0 (take 2 rest)) (drop 2 rest)
        else (if b1 == 255
            then unmask (be_from 0 (take 8 rest)) (drop 8 rest)
            else unmask (b1 - 128) rest))

-- What a server makes of a final frame: its opcode and its payload. A frame without a mask is refused.
abbrev pub read_client : List ℕ → Option (Opcode × List ℕ)
read_client [] = none
read_client (b0 ∷ []) = none
read_client (b0 ∷ b1 ∷ rest) =
    from_u8 (b0 - 128) >>= (λ op. read_payload b1 rest >>= (λ payload. some (op, payload)))

unmask_lem :
    (mask bs : List ℕ) (n : ℕ)
    → length mask ≡ 4
    → length bs ≡ n
    → unmask n (mask ++ bs) ≡ some (masked mask 0 bs)
unmask_lem mask bs n four e =
    rw
      (
        le→leb (4 + n) (length (mask ++ bs)) (omega (arith, length-append mask bs)),
        take_append_len mask bs 4 (sym four),
        drop_append_at mask bs 4 0 (omega arith),
        take_of_length_le n bs (omega arith),
      )
      refl

-- The three forms of the second byte and the length.
length_field-cases :
    (n : ℕ)
    → ((n < 126) × (length_field n ≡ (128 + n) ∷ []))
      ⊎ (((126 ≤ n) × (n < 65536) × (length_field n ≡ 254 ∷ be_bytes 2 n))
          ⊎ ((65536 ≤ n) × (length_field n ≡ 255 ∷ be_bytes 8 n)))
unfolding length_field
length_field-cases n = elim (Bool-cases (ltb n 126)) [
  | inl one ↦ inl (ltb→lt n 126 one, rw (one, flag (ltb→lt n 126 one)) refl)
  | inr more ↦ elim (Bool-cases (leb n 65535)) [
    | inl two ↦ inr (inl (ground (arith, more), ground (arith, two), rw (more, two) refl))
    | inr eight ↦ inr (inr (ground (arith, eight), rw (more, eight) refl))
  ]
]
  where
    flag : n < 126 → bit_or 128 n ≡ 128 + n
    flag h = ==→eq _ _ (all_below-at 126 (λ n. bit_or 128 n == 128 + n) refl n h)

opcode_back : (op : Opcode) → from_u8 (bit_or 128 (as_u8 op) - 128) ≡ some op
unfolding from_u8 as_u8
opcode_back continuation = refl
opcode_back text = refl
opcode_back binary = refl
opcode_back close = refl
opcode_back ping = refl
opcode_back pong = refl

module _ (n : ℕ) (mask bs : List ℕ) (four : length mask ≡ 4) (len : length bs ≡ n) where
  read_payload-short : n < 126 → read_payload (128 + n) (mask ++ bs) ≡ some (masked mask 0 bs)
  read_payload-short h =
      rw
        (
          le→ltb (128 + n) 128 (omega arith),
          ne→== (128 + n) 254 (λ e. absurd (omega (arith, e))),
          ne→== (128 + n) 255 (λ e. absurd (omega (arith, e))),
        )
        (ap (λ k. unmask k (mask ++ bs)) minus ∙ unmask_lem mask bs n four len)
    where
      minus : 128 + n - 128 ≡ n
      minus = omega arith

  read_payload-two :
      n < 65536 → read_payload 254 (be_bytes 2 n ++ (mask ++ bs)) ≡ some (masked mask 0 bs)
  read_payload-two h =
      ap (λ k. unmask k (mask ++ bs)) (be_from-be_bytes 2 0 n ∙ omega arith)
      ∙ unmask_lem mask bs n four len

  read_payload-eight :
      n < 2 ^ 64 → read_payload 255 (be_bytes 8 n ++ (mask ++ bs)) ≡ some (masked mask 0 bs)
  read_payload-eight h =
      ap (λ k. unmask k (mask ++ bs)) (be_from-be_bytes 8 0 n ∙ omega arith)
      ∙ unmask_lem mask bs n four len

  read_client_lem :
      (op : Opcode)
      → n < 2 ^ 64
      → read_client (bit_or 128 (as_u8 op) ∷ (length_field n ++ (mask ++ bs)))
        ≡ some (op, masked mask 0 bs)
  read_client_lem op h = elim (length_field-cases n) [
    | inl (small, form) ↦ rw (form, opcode_back op, read_payload-short small) refl
    | inr (inl (_, small, form)) ↦ rw (form, opcode_back op, read_payload-two small) refl
    | inr (inr (_, form)) ↦ rw (form, opcode_back op, read_payload-eight h) refl
  ]

length-length_field : (n : ℕ) → 6 + length (length_field n) + n ≡ 1 + framed_len n
unfolding framed_len
length-length_field n = elim (length_field-cases n) [
  | inl (small, form) ↦ rw form (ground arith)
  | inr (inl (large, small, form)) ↦ rw form (ground arith)
  | inr (inr (large, form)) ↦ rw form (ground arith)
]

-- Into a buffer with room for it, a frame of less than 2^64 bytes is written as one that a server reads
-- as its opcode and its payload, whatever the mask of four bytes; the frame is as long as is answered,
-- and what is behind it in the buffer stays. A control frame must be of 125 bytes or less.
pub write_frame-read_client :
    (out : List ℕ) (op : Opcode) (payload mask : List ℕ)
    → length mask ≡ 4
    → length payload < 2 ^ 64
    → (is_control op ≡ true → length payload ≤ 125)
    → framed_len (length payload) ≤ length out
    → let total = framed_len (length payload) in
      (out' : List ℕ) × (write_frame out op payload mask ≡ ok (total, out'))
      × (read_client (take total out') ≡ some (op, payload))
      × (drop total out' ≡ drop total out)
unfolding write_frame
write_frame-read_client out op payload mask four short control room = (
  frame ++ back,
  rw (no_refusal, le→ltb (length out) total room) (ap (λ o. ok (total, o)) together),
  rw (take_append_len frame back total (sym whole)) (
      read_client_lem (length payload) mask (masked mask 0 payload) four
        (length-masked mask 0 payload) op short
      ∙ ap (λ bs. some (op, bs)) (masked-masked mask 0 payload)),
  drop_append_at frame back total 0 (omega (arith, whole)),
)
  where
    total : ℕ
    total = framed_len (length payload)

    back : List ℕ
    back = drop total out

    frame : List ℕ
    frame =
        bit_or 0x80 (as_u8 op) ∷ (length_field (length payload) ++ (mask ++ masked mask 0 payload))

    whole : length frame ≡ total
    whole = omega (
      arith,
      length-append (length_field (length payload)) (mask ++ masked mask 0 payload),
      length-append mask (masked mask 0 payload),
      length-masked mask 0 payload,
      length-length_field (length payload),
    )

    no_refusal : (is_control op && ltb max_control_payload (length payload)) ≡ false
    no_refusal = elim (Bool-cases (is_control op)) [
      | inl ctl ↦ rw (ctl, le→ltb max_control_payload (length payload) (control ctl)) refl
      | inr other ↦ rw other refl
    ]

    together :
        (bit_or 0x80 (as_u8 op) ∷ length_field (length payload))
          ++ (mask ++ (masked mask 0 payload ++ back))
        ≡ frame ++ back
    together =
        ap (λ l. bit_or 0x80 (as_u8 op) ∷ l)
          (ap (λ l. length_field (length payload) ++ l) (sym (append_assoc mask _ back))
            ∙ sym (append_assoc (length_field (length payload)) _ back))
