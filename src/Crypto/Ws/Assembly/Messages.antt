-- ===== src/Crypto/Ws/Assembly/Messages.antt =====
-- The fragments of one message, put together, are the message, or are refused as too long.
use jeed.Base.{ℕ, ◌+◌, ◌≤◌, ◌<◌, ◌≡◌, refl, sym, ap, ◌∙◌, arith, true, false, inl, inr}
use jeed.Base.{
  List, [], ◌∷◌, ◌++◌, append_assoc, append-nil, length, take, drop, Option, none, some,
}
use jeed.Base.{subst, length-append, length-take, length-drop, take_append_len, Result, ok, err}
use jeed.Base.{ltb, le→leb, le→ltb, lt→ltb, Bool-cases, ltb→lt, ◌⊎◌, leb, if◌then◌else◌}
use jeed.Crypto.Ws.Error.{WsError, message_too_long}
use jeed.Crypto.Ws.Frame.{Opcode}
use jeed.Crypto.Ws.Assembly.{Assembly, bytes, capacity, push, begin, append, take_message, reset}

-- A message of this opcode is open, with these bytes so far, in a buffer of `c` bytes.
pub record Holds (op : Opcode) (ys : List ℕ) (c : ℕ) (a : Assembly) : Type 0 where
  pub is_opened : a.opened ≡ some op
  pub so_far : bytes a ≡ ys
  pub within : a.len ≤ capacity a
  pub room : capacity a ≡ c

-- `append` of one fragment after another, up to the first refusal.
abbrev pub append_all : List (List ℕ) → Assembly → Result {0, 0} WsError Unit × Assembly
append_all [] a = (ok tt, a)
append_all (f ∷ fs) a =
    let (r, a') = append f a in elim r [ ok u ↦ append_all fs a' | err e ↦ (err e, a') ]

abbrev pub concat : List (List ℕ) → List ℕ
concat [] = []
concat (f ∷ fs) = f ++ concat fs

module _ {op : Opcode} {ys : List ℕ} {c : ℕ} {a : Assembly} (h : Holds op ys c a) where
  pub length-so_far : length ys ≡ a.len
  length-so_far = omega (arith, length-take a.len a.buf, h.within, ap length h.so_far)

  -- A fragment that fits is put behind what is there.
  pub push-Holds :
      (f : List ℕ)
      → length ys + length f ≤ c
      → ((push f a).0 ≡ ok tt) × Holds op (ys ++ f) c (push f a).1
  unfolding push
  push-Holds f fits = rw fits_test (
    refl,
    record {
      is_opened = h.is_opened;
      so_far =
          ap (take (a.len + length f)) (sym (append_assoc (bytes a) f back))
          ∙ take_append_len (bytes a ++ f) back (a.len + length f)
              (omega (arith, length-append (bytes a) f, length-take a.len a.buf, h.within))
          ∙ ap (λ zs. zs ++ f) h.so_far;
      within = omega (arith, same, fits, length-so_far, h.room);
      room = same ∙ h.room;
    },
  )
    where
      back : List ℕ
      back = drop (a.len + length f) a.buf

      fits_test : ltb (capacity a) (a.len + length f) ≡ false
      fits_test = le→ltb _ _ (omega (arith, fits, length-so_far, h.room))

      same : length (bytes a ++ (f ++ back)) ≡ capacity a
      same = omega (
        arith,
        length-append (bytes a) (f ++ back),
        length-append f back,
        length-take a.len a.buf,
        length-drop (a.len + length f) a.buf,
        h.within,
        fits,
        length-so_far,
        h.room,
      )

  -- One that does not is refused, and the message is given up.
  push-too_long :
      (f : List ℕ) → c < length ys + length f → push f a ≡ (err (message_too_long c), reset a)
  unfolding push
  push-too_long f over =
      rw
        (
          lt→ltb (capacity a) (a.len + length f) (omega (arith, over, length-so_far, h.room)),
          h.room,
        )
        refl

pub append-push :
    {op : Opcode} (a : Assembly) (f : List ℕ) → a.opened ≡ some op → append f a ≡ push f a
unfolding append
append-push a f e = rw e refl

append_all-ok :
    (f : List ℕ) (fs : List (List ℕ)) (a : Assembly)
    → (append f a).0 ≡ ok tt
    → append_all (f ∷ fs) a ≡ append_all fs (append f a).1
append_all-ok f fs a e = rw (append_all, e) refl

append_all-err :
    (f : List ℕ) (fs : List (List ℕ)) (a b : Assembly) (e : WsError)
    → append f a ≡ (err e, b)
    → append_all (f ∷ fs) a ≡ (err e, b)
append_all-err f fs a b e h = rw (append_all, h) (ap (λ x. (err e, x.1)) h)

-- A buffer in which a message has just been opened.
abbrev pub opening : Opcode → Assembly → Assembly
opening op a = record a { len = 0; opened = some op }

pub begin-push :
    (op : Opcode) (a : Assembly) (f : List ℕ)
    → a.opened ≡ none
    → begin op f a ≡ push f (opening op a)
unfolding begin
begin-push op a f e = rw e refl

pub opening-Holds : (op : Opcode) (a : Assembly) → Holds op [] (capacity a) (opening op a)
opening-Holds op a = record { is_opened = refl; so_far = refl; within = omega arith; room = refl }

-- What a message's fragments come to: the bytes, or the refusal, with nothing left open.
pub append_all_lem :
    (fs : List (List ℕ)) (ys : List ℕ) (a : Assembly) {op : Opcode} {c : ℕ}
    → Holds op ys c a
    → ((length (ys ++ concat fs) ≤ c)
        × ((append_all fs a).0 ≡ ok tt)
        × Holds op (ys ++ concat fs) c (append_all fs a).1)
      ⊎ ((c < length (ys ++ concat fs))
          × ((append_all fs a).0 ≡ err (message_too_long c))
          × ((append_all fs a).1.opened ≡ none))
unfolding reset
append_all_lem [] ys a {c = c} h =
    rw (append-nil ys) (inl (omega (arith, length-so_far h, h.within, h.room), refl, h))
append_all_lem (f ∷ fs) ys a {c = c} h = elim (Bool-cases (ltb c (length ys + length f))) [
  | inl over ↦
      rw (append_all-err f fs a (reset a) _ (same ∙ push-too_long h f (ltb→lt _ _ over)))
        (inr (omega (arith, ltb→lt _ _ over, longer), refl, refl))
  | inr fits ↦
      (let pushed = push-Holds h f (ground (arith, fits)) in
        rw
          (
            append_all-ok f fs a (ap (λ x. x.0) same ∙ pushed.0),
            same,
            sym (append_assoc ys f (concat fs)),
          )
          (append_all_lem fs (ys ++ f) (push f a).1 pushed.1))
]
  where
    same : append f a ≡ push f a
    same = append-push a f h.is_opened

    longer : length (ys ++ (f ++ concat fs)) ≡ length ys + length f + length (concat fs)
    longer = omega (arith, length-append ys (f ++ concat fs), length-append f (concat fs))

abbrev handed :
    Result {0, 0} WsError Unit × Assembly → Result WsError (Option (Opcode × List ℕ)) × Assembly
handed (ok u, a) = let (m, a') = take_message a in (ok m, a')
handed (err e, a) = (err e, a)

abbrev continued :
    List (List ℕ)
    → Result {0, 0} WsError Unit × Assembly
    → Result WsError (Option (Opcode × List ℕ)) × Assembly
continued fs (ok u, a) = handed (append_all fs a)
continued fs (err e, a) = (err e, a)

-- A message of several fragments, from the first to the hand-over.
abbrev pub assemble :
    Opcode
    → List ℕ
    → List (List ℕ)
    → Assembly
    → Result WsError (Option (Opcode × List ℕ)) × Assembly
assemble op f fs a = continued fs (begin op f a)

abbrev Answers : Opcode → List ℕ → ℕ → Result WsError (Option (Opcode × List ℕ)) × Assembly → Type 0
Answers op whole c (answer, a) =
    (answer ≡ (if leb (length whole) c then ok (some (op, whole)) else err (message_too_long c)))
    × (a.opened ≡ none)

handed_lem :
    (op : Opcode) (whole : List ℕ) (c : ℕ) (r : Result {0, 0} WsError Unit × Assembly)
    → ((length whole ≤ c) × (r.0 ≡ ok tt) × Holds op whole c r.1)
      ⊎ ((c < length whole) × (r.0 ≡ err (message_too_long c)) × (r.1.opened ≡ none))
    → Answers op whole c (handed r)
unfolding take_message
handed_lem op whole c (r, a) (inl (small, all, h)) =
    rw (all, le→leb _ _ small, h.is_opened, h.so_far) (refl, refl)
handed_lem op whole c (r, a) (inr (large, refusal, shut)) = rw (refusal, longer large) (refl, shut)
  where
    longer : c < length whole → leb (length whole) c ≡ false
    longer large = ground (arith, large)

-- A buffer with nothing open makes a message's fragments into the message, of the opcode of the first,
-- if they fit it together, and else refuses them as too long; nothing is open afterwards.
pub assemble_lem :
    (op : Opcode) (f : List ℕ) (fs : List (List ℕ)) (a : Assembly)
    → a.opened ≡ none
    → let (answer, a') = assemble op f fs a in
      let whole = f ++ concat fs in
      (answer ≡ (
        if leb (length whole) (capacity a)
        then ok (some (op, whole))
        else err (message_too_long (capacity a))))
      × (a'.opened ≡ none)
unfolding reset
assemble_lem op f fs a shut =
    subst (λ x. Answers op (f ++ concat fs) (capacity a) (continued fs x))
      (sym (begin-push op a f shut))
      (elim (Bool-cases (ltb (capacity a) (length f))) [
        | inl over ↦
            rw (push-too_long start f (omega (arith, ltb→lt _ _ over)), refused over) (refl, refl)
        | inr fits ↦
            (let pushed = push-Holds start f (ground (arith, fits)) in
              rw (continued, pushed.0)
                (handed_lem op (f ++ concat fs) (capacity a)
                  (append_all fs (push f (opening op a)).1)
                  (append_all_lem fs f (push f (opening op a)).1 pushed.1)))
      ])
  where
    start : Holds op [] (capacity a) (opening op a)
    start = opening-Holds op a

    refused :
        ltb (capacity a) (length f) ≡ true → leb (length (f ++ concat fs)) (capacity a) ≡ false
    refused over = ground (arith, length-append f (concat fs), over)
