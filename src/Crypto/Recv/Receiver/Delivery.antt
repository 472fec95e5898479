-- ===== src/Crypto/Recv/Receiver/Delivery.antt =====
-- Frames that lie whole in the buffer, none refused and none to be answered: the loop over the bytes does
-- what `on_frame` does frame by frame.
use jeed.Base.{
  ℕ, zero, suc, ◌≤◌, ◌≡◌, refl, sym, ap, subst, ◌∙◌, arith, Bool, false, Option, none, some,
}
use jeed.Base.{List, [], ◌∷◌, ◌++◌, replicate, length, drop, All, Result, ok, err}
use jeed.Fix.Recv.Sink.{Sink}
use jeed.Crypto.Ws.Frame.{Opcode, parse_header}
use jeed.Crypto.Ws.Frame.Server.{IsSendable}
use jeed.Crypto.Recv.Pipeline.{Router}
use jeed.Crypto.Recv.Link.{Frame, Link, LinkError, Writes, filled, capacity, peek, peek_at}
use jeed.Crypto.Recv.Link.{consume, consume_frame}
use jeed.Crypto.Recv.Link.Buffer.{IsValid, consume_lem}
use jeed.Crypto.Recv.Link.Frames.{encode, frame_of, peek-encode}
use jeed.Crypto.Recv.Dispatch.{Action, nothing, State, on_frame}
use jeed.Crypto.Recv.Dispatch.Reassembly.{on_frames, followed, prefixed}
use jeed.Crypto.Recv.Receiver.{Receiver, next_frame, frames_loop, take_frame, act}

-- A frame as the server sends it.
pub record Sent : Type 0 where
  pub fin : Bool
  pub opcode : Opcode
  pub payload : List ℕ

abbrev pub bytes_of : List Sent → List ℕ
bytes_of [] = []
bytes_of (x ∷ xs) = encode x.fin x.opcode x.payload ++ bytes_of xs

-- Each under the stamp of its round.
abbrev pub stamped_from : (ℕ → ℕ) → ℕ → List Sent → List (ℕ × Frame)
stamped_from clock i [] = []
stamped_from clock i (x ∷ xs) =
    (clock i, frame_of x.fin x.opcode x.payload) ∷ stamped_from clock (suc i) xs

-- The protocol allows it, and the buffer can hold it.
pub record IsAcceptable (c : ℕ) (x : Sent) : Type 0 where
  pub sendable : IsSendable x.fin x.opcode (length x.payload)
  pub fits : length (encode x.fin x.opcode x.payload) ≤ c

prefixed-ok :
    {R S E I : Type 0} (b a : Action) (acts : List Action)
    (x : Result (LinkError I) (List Action) × State R S E)
    → (prefixed b x).0 ≡ ok (a ∷ acts)
    → (b ≡ a) × (x.0 ≡ ok acts) × ((prefixed b x).1 ≡ x.1)
prefixed-ok b a acts (ok bs, st) h = (cc, cc, refl)
prefixed-ok b a acts (err e, st) h = cc

-- After a frame that asks for nothing.
abbrev acted_on :
    {R S E : Type 0} → ℕ → Link → Frame → State R S E → Receiver R S E → Receiver R S E
acted_on t link f st rx = record rx {
  pipeline = st.0;
  assembly = st.1;
  link = some (consume_frame f.len link);
  last_rx_ns = t;
  pinged = false;
}

module _ {R S E I : Type 0} (router : Router R E) (sink : Sink S) where
  followed-ok :
      (rest : State R S E → Result (LinkError I) (List Action) × State R S E) (a : Action)
      (acts : List Action) (r : Result (LinkError I) Action × State R S E)
      → (followed router sink rest r).0 ≡ ok (a ∷ acts)
      → (r.0 ≡ ok a) × ((rest r.1).0 ≡ ok acts) × ((followed router sink rest r).1 ≡ (rest r.1).1)
  followed-ok rest a acts (err e, st) h = cc
  followed-ok rest a acts (ok b, st) h =
      let inner = prefixed-ok b a acts (rest st) h in (ap ok inner.0, inner.1, inner.2)

  -- How the loop ends: no error, every byte framed, and the pipeline and the assembly as given.
  pub record Ends (st : State R S E) (r : Option (LinkError I) × Receiver R S E) : Type 0 where
    pub no_error : r.0 ≡ none
    pub pipeline : r.1.pipeline ≡ st.0
    pub assembly : r.1.assembly ≡ st.1
    pub link : Link
    pub kept : r.1.link ≡ some link
    pub framed : filled link.buf ≡ []

  frames_loop-dry :
      (clock : ℕ → ℕ) (w : ℕ → Writes I) (n i : ℕ) (rx : Receiver R S E)
      → next_frame {I = I} rx.link ≡ ok none
      → frames_loop router sink clock w n i rx ≡ (none, rx)
  unfolding frames_loop
  frames_loop-dry clock w zero i rx dry = refl
  frames_loop-dry clock w (suc n) i rx dry = rw (frames_loop, dry) refl

  frames_loop-frame :
      (clock : ℕ → ℕ) (w : ℕ → Writes I) (n i : ℕ) (rx : Receiver R S E) (link : Link) (f : Frame)
      → next_frame {I = I} rx.link ≡ ok (some (link, f))
      → (take_frame router sink (clock i) (w i) link f rx).0 ≡ none
      → frames_loop router sink clock w (suc n) i rx
        ≡ frames_loop router sink clock w n
            (suc i)
            (take_frame router sink (clock i) (w i) link f rx).1
  unfolding frames_loop
  frames_loop-frame clock w n i rx link f found goes_on = rw (frames_loop, found, goes_on) refl

  take_frame-nothing :
      (t : ℕ) (w : Writes I) (link : Link) (f : Frame) (rx : Receiver R S E)
      → (on_frame {I = I} router sink f t (rx.pipeline, rx.assembly)).0 ≡ ok nothing
      → take_frame router sink t w link f rx ≡ (
        none,
        acted_on t link f (on_frame {I = I} router sink f t (rx.pipeline, rx.assembly)).1 rx,
      )
  unfolding take_frame act
  take_frame-nothing t w link f rx e = rw (take_frame, e) refl

  next_frame-peek :
      (l : Option Link) (link : Link) (f : Frame)
      → l ≡ some link
      → peek {I = I} link ≡ ok (some f)
      → next_frame {I = I} l ≡ ok (some (link, f))
  unfolding next_frame
  next_frame-peek l link f e p = ap next_frame e ∙ rw (next_frame, p) refl

  next_frame-empty :
      (l : Option Link) (link : Link)
      → l ≡ some link
      → filled link.buf ≡ []
      → next_frame {I = I} l ≡ ok none
  unfolding next_frame peek peek_at parse_header
  next_frame-empty l link e p = ap next_frame e ∙ rw (next_frame, p) refl

  -- Frames that lie whole in the valid buffer of a link are all taken in one run of the loop, if it
  -- is allowed as many rounds and `on_frame`, taking them frame by frame under the stamps of the
  -- rounds, accepts each and asks for nothing: none is refused, and none asks for a pong or a hang-
  -- up. Each frame is one that a server may send and that fits the buffer. The pipeline and the
  -- assembly then end where `on_frame` takes them, there is no error, and no byte is left.
  pub frames_loop-Ends :
      (clock : ℕ → ℕ) (w : ℕ → Writes I) (xs : List Sent) (n i : ℕ) (rx : Receiver R S E)
      (link : Link)
      → rx.link ≡ some link
      → IsValid link.buf
      → filled link.buf ≡ bytes_of xs
      → All (IsAcceptable (capacity link.buf)) xs
      → length xs ≤ n
      → (on_frames {I = I} router sink (stamped_from clock i xs) (rx.pipeline, rx.assembly)).0
        ≡ ok (replicate (length xs) nothing)
      → Ends
          (on_frames {I = I} router sink (stamped_from clock i xs) (rx.pipeline, rx.assembly)).1
          (frames_loop router sink clock w n i rx)
  unfolding consume_frame
  frames_loop-Ends clock w [] n i rx link e v all ok_all enough quiet =
      subst (Ends (rx.pipeline, rx.assembly))
        (sym (frames_loop-dry clock w n i rx (next_frame-empty rx.link link e all)))
        (record {
          no_error = refl;
          pipeline = refl;
          assembly = refl;
          link = link;
          kept = e;
          framed = all;
        })
  frames_loop-Ends clock w (x ∷ xs) zero i rx link e v all ok_all enough quiet =
      absurd (omega (arith, enough))
  frames_loop-Ends clock w (x ∷ xs) (suc n) i rx link e v all ok_all enough quiet =
      subst (λ st. Ends st (frames_loop router sink clock w (suc n) i rx)) (sym step.2)
        (subst (Ends (rest r.1).1) (sym round) (
          frames_loop-Ends clock w xs n (suc i) (acted_on (clock i) link f r.1 rx)
            (consume_frame f.len link) refl after.1 head.1
            (subst (λ c. All (IsAcceptable c) xs) (sym after.2) ok_all.1) (omega (arith, enough))
            step.1))
    where
      f : Frame
      f = frame_of x.fin x.opcode x.payload

      head :
          (peek {I = I} link ≡ ok (some f)) × (filled (consume_frame f.len link).buf ≡ bytes_of xs)
      head =
          peek-encode x.fin x.opcode x.payload link (bytes_of xs) ok_all.0.sendable v all
            ok_all.0.fits

      after :
          (filled (consume f.len link.buf) ≡ drop f.len (filled link.buf))
          × IsValid (consume f.len link.buf)
          × (capacity (consume f.len link.buf) ≡ capacity link.buf)
      after = consume_lem v f.len

      r : Result (LinkError I) Action × State R S E
      r = on_frame router sink f (clock i) (rx.pipeline, rx.assembly)

      rest : State R S E → Result (LinkError I) (List Action) × State R S E
      rest = on_frames router sink (stamped_from clock (suc i) xs)

      step :
          (r.0 ≡ ok nothing)
          × ((rest r.1).0 ≡ ok (replicate (length xs) nothing))
          × ((followed router sink rest r).1 ≡ (rest r.1).1)
      step = followed-ok rest nothing (replicate (length xs) nothing) r quiet

      taken :
          take_frame router sink (clock i) (w i) link f rx
          ≡ (none, acted_on (clock i) link f r.1 rx)
      taken = take_frame-nothing (clock i) (w i) link f rx step.0

      round :
          frames_loop router sink clock w (suc n) i rx
          ≡ frames_loop router sink clock w n (suc i) (acted_on (clock i) link f r.1 rx)
      round =
          frames_loop-frame clock w n i rx link f (next_frame-peek rx.link link f e head.0)
            (ap (λ y. y.0) taken)
          ∙ ap (λ y. frames_loop router sink clock w n (suc i) y.1) taken
