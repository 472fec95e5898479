-- ===== src/Fix/FrameBuffer/Drain.antt =====
-- The loop over a filled buffer: whole messages come out in order, and the beginning of the next
-- one stays for later reads.
use jeed.Base.{ℕ, zero, suc, ◌≤◌, ◌<◌, min, ◌≡◌, refl, sym, ap, ◌∙◌, arith}
use jeed.Base.{
  List, [], ◌∷◌, ◌++◌, map, none, some, Result, ok, err, append_assoc, append-nil, length, take,
  drop, All,
}
use jeed.Base.{length-append, length-take, drop_append_at}
use jeed.Fix.Error.{FixError, incomplete}
use jeed.Fix.TagValue.{soh}
use jeed.Fix.Frame.{Frame, frame}
use jeed.Fix.Frame.Message.{IsMessage, message, message_then, head_of, tail_of, frame-message_then}
use jeed.Fix.Frame.Prefix.{frame-take-message}
use jeed.Fix.FrameBuffer.{FrameBuffer, filled, peek, peek_error, consume}
use jeed.Fix.FrameBuffer.Queue.{IsValid, length-filled, consume_lem}

-- A caller's `while let Some(frame) = buf.peek()? { handle(frame); buf.consume(frame.len()); }`, with the
-- frames handled. Each frame takes a byte at least, so the buffer's capacity bounds the rounds.
unfoldable pub drain : ℕ → ℕ → FrameBuffer → List Frame → Result FixError (List Frame × FrameBuffer)
drain n zero b done = ok (done, b)
drain n (suc fuel) b done = elim (peek n b) [
  | err e ↦ err e
  | ok none ↦ ok (done, b)
  | ok (some f) ↦ drain n fuel (consume (length f.bytes) b) (done ++ (f ∷ []))
]

-- A version text and a body without its last separator.
abbrev pub Text : Type 0
Text = List ℕ × List ℕ

abbrev pub IsText : Text → Type 0
IsText t = IsMessage t.0 t.1 × (length t.0 ≤ 16)

abbrev pub stream : List Text → List ℕ → List ℕ
stream [] more = more
stream (t ∷ ts) more = message_then t.0 t.1 (stream ts more)

abbrev pub frame_of : Text → Frame
frame_of t = record { bytes = message t.0 t.1; begin = t.0; body = t.1 ++ (soh ∷ []) }

module _ (n : ℕ) where
  peek-ok : (b : FrameBuffer) {f : Frame} → frame (filled b) ≡ ok f → peek n b ≡ ok (some f)
  unfolding peek
  peek-ok b e = rw (e, peek) refl

  peek-incomplete :
      (b : FrameBuffer) → frame (filled b) ≡ err incomplete → b.len < n → peek n b ≡ ok none
  unfolding peek peek_error
  peek-incomplete b e h = rw (e, peek) (ground arith)

  drain_step :
      (fuel : ℕ) (b : FrameBuffer) (done : List Frame) {f : Frame}
      → peek n b ≡ ok (some f)
      → drain n (suc fuel) b done ≡ drain n fuel (consume (length f.bytes) b) (done ++ (f ∷ []))
  unfolding drain
  drain_step fuel b done e = rw (e, drain) refl

  drain_stop :
      (fuel : ℕ) (b : FrameBuffer) (done : List Frame)
      → peek n b ≡ ok none
      → drain n fuel b done ≡ ok (done, b)
  unfolding drain
  drain_stop zero b done e = refl
  drain_stop (suc fuel) b done e = rw (e, drain) refl

  abbrev pub Drained : List Frame → List ℕ → Result FixError (List Frame × FrameBuffer) → Type 0
  Drained fs part r = (b' : FrameBuffer) × (r ≡ ok (fs, b')) × (filled b' ≡ part) × IsValid n b'

  message_then-append :
      (t : Text) (more : List ℕ) → message_then t.0 t.1 more ≡ message t.0 t.1 ++ more
  message_then-append t more = sym (append_assoc (head_of t.0 t.1) (tail_of t.0 t.1 []) more)

module _ (n : ℕ) (u : Text) (k : ℕ) (u_text : IsText u) (u_fits : length (message u.0 u.1) ≤ n)
    (cut : k < length (message u.0 u.1)) where
  abbrev pub part : List ℕ
  part = take k (message u.0 u.1)

  drain_lem :
      (ts : List Text) (fuel : ℕ) (b : FrameBuffer) (done : List Frame)
      → All IsText ts
      → IsValid n b
      → filled b ≡ stream ts part
      → b.len < fuel
      → Drained n (done ++ map frame_of ts) part (drain n fuel b done)
  drain_lem ts zero b done h v e hf = absurd (omega arith)
  drain_lem [] (suc fuel) b done h v e hf = (
    b,
    drain_stop n (suc fuel) b done (
          peek-incomplete n b (ap frame e ∙ frame-take-message u.0 u.1 k u_text.0 u_text.1 cut)
            (omega (arith, ap length e, length-filled v, length-take k (message u.0 u.1))))
        ∙ rw append-nil refl,
    e,
    v,
  )
  drain_lem (t ∷ ts) (suc fuel) b done h v e hf =
      let e' = peek-ok n b (ap frame e ∙ frame-message_then t.0 t.1 (stream ts part) h.0.0) in
      let (d, v') = consume_lem v (length (message t.0 t.1)) in
      rw (drain_step n fuel b done e', ← append_assoc done (frame_of t ∷ []) (map frame_of ts))
        (drain_lem ts fuel (consume (length (message t.0 t.1)) b) (done ++ (frame_of t ∷ [])) h.1 v'
          (d
            ∙ ap (drop (min (length (message t.0 t.1)) b.len))
                (e ∙ message_then-append n t (stream ts part))
            ∙ drop_append_at (message t.0 t.1) (stream ts part)
                (min (length (message t.0 t.1)) b.len) 0 (omega (arith, size)))
          (unfold consume in omega (arith, size)))
    where
      size : length (message t.0 t.1) ≤ b.len
      size = omega (
        arith,
        length-filled v,
        ap length e,
        ap length (message_then-append n t (stream ts part)),
        length-append (message t.0 t.1) (stream ts part),
      )

  -- A valid buffer of `n` bytes that holds whole messages and then the beginning of one more that
  -- would fit it: the loop hands over exactly those messages, in order and without an error, and
  -- leaves the beginning in place, in a valid buffer.
  pub drain-stream :
      (ts : List Text) (b : FrameBuffer)
      → All IsText ts
      → IsValid n b
      → filled b ≡ stream ts part
      → Drained n (map frame_of ts) part (drain n (suc n) b [])
  drain-stream ts b h v e = drain_lem ts (suc n) b [] h v e (omega (arith, v.within))
