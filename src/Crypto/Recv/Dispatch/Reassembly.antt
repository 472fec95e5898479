-- ===== src/Crypto/Recv/Dispatch/Reassembly.antt =====
-- A message that arrives in fragments, with pings and pongs between them, reaches the router whole.
use jeed.Base.{ℕ, ◌+◌, ◌≤◌, ◌≡◌, refl, sym, ap, ◌∙◌, arith, true, false, none}
use jeed.Base.{List, [], ◌∷◌, ◌++◌, map, append_assoc, append-nil, length, take, length-append}
use jeed.Base.{Result, ok, err, subst}
use jeed.Fix.Recv.Sink.{Sink}
use jeed.Crypto.Ws.Frame.{
  Opcode, text, binary, close, continuation, ping, pong, max_control_payload,
}
use jeed.Crypto.Ws.Assembly.{Assembly, capacity, take_message, begin}
use jeed.Crypto.Ws.Assembly.Messages.{begin-push, opening-Holds, Holds, push-Holds, append-push}
use jeed.Crypto.Recv.Stats.{Stats, note_frame, note_fragment, note_ping, note_pong}
use jeed.Crypto.Recv.Pipeline.{Router, Pipeline, noted}
use jeed.Crypto.Recv.Link.{Frame, LinkError}
use jeed.Crypto.Recv.Link.Frames.{frame_of}
use jeed.Crypto.Recv.Dispatch.{
  begun, data_frame, taken, on_opcode, continuation_frame, appended, Action, nothing, answer, State,
  on_frame, ingest_message,
}

pub data IsData : Opcode → Type 0 where
  is_text : IsData text
  is_binary : IsData binary

-- What may stand between the first fragment and the last.
pub data Between : Type 0 where
  pinged ponged more : List ℕ → Between

abbrev pub between_frame : Between → Frame
between_frame (pinged x) = frame_of true ping x
between_frame (ponged x) = frame_of true pong x
between_frame (more x) = frame_of false continuation x

-- The part of the message that it carries, what is done about it, and what it counts as.
abbrev pub carried : Between → List ℕ
carried (pinged x) = []
carried (ponged x) = []
carried (more x) = x

abbrev pub done : Between → Action
done (pinged x) = answer (take max_control_payload x)
done (ponged x) = nothing
done (more x) = nothing

abbrev pub count : Between → Stats → Stats
count (pinged x) s = note_ping (note_frame s)
count (ponged x) s = note_pong (note_frame s)
count (more x) s = note_fragment (note_frame s)

abbrev pub prefixed :
    {R S E I : Type 0}
    → Action
    → Result (LinkError I) (List Action) × State R S E
    → Result (LinkError I) (List Action) × State R S E
prefixed act (ok acts, st) = (ok (act ∷ acts), st)
prefixed act (err e, st) = (err e, st)

module _ {R S E I : Type 0} (router : Router R E) (sink : Sink S) where
  abbrev pub followed :
      (State R S E → Result (LinkError I) (List Action) × State R S E)
      → Result (LinkError I) Action × State R S E
      → Result (LinkError I) (List Action) × State R S E
  followed rest (err e, st) = (err e, st)
  followed rest (ok act, st) = prefixed act (rest st)

  -- Frames one after another, each with its stamp, up to the first error.
  abbrev pub on_frames :
      List (ℕ × Frame) → State R S E → Result (LinkError I) (List Action) × State R S E
  on_frames [] st = (ok [], st)
  on_frames ((t, f) ∷ fs) st = followed (on_frames fs) (on_frame router sink f t st)

  abbrev Stepped :
      Between
      → Pipeline R S E
      → Opcode
      → List ℕ
      → ℕ
      → Result (LinkError I) Action × State R S E
      → Type 0
  Stepped b p op ys c (r, (p', a')) =
      (r ≡ ok (done b)) × (p' ≡ noted (count b) p) × Holds op (ys ++ carried b) c a'

  between-Holds :
      (b : Between) (t : ℕ) (p : Pipeline R S E) (a : Assembly) {op : Opcode} {ys : List ℕ} {c : ℕ}
      → Holds op ys c a
      → length ys + length (carried b) ≤ c
      → Stepped b p op ys c (on_frame router sink (between_frame b) t (p, a))
  unfolding on_frame on_opcode continuation_frame
  between-Holds (pinged x) t p a {ys = ys} h fits = (refl, refl, rw (append-nil ys) h)
  between-Holds (ponged x) t p a {ys = ys} h fits = (refl, refl, rw (append-nil ys) h)
  between-Holds (more x) t p a {op = op} {ys = ys} {c = c} h fits =
      subst
        (λ r.
          Stepped (more x) p op ys c (appended {I = I} router sink false t (noted note_frame p) r))
        (sym (append-push a x h.is_opened))
        (let pushed = push-Holds h x fits in rw (appended, pushed.0) (refl, refl, pushed.1))

abbrev pub stamped : ℕ × Between → ℕ × Frame
stamped (t, b) = (t, between_frame b)

abbrev pub carried_all : List (ℕ × Between) → List ℕ
carried_all [] = []
carried_all ((t, b) ∷ bs) = carried b ++ carried_all bs

abbrev pub done_all : List (ℕ × Between) → List Action
done_all [] = nothing ∷ []
done_all ((t, b) ∷ bs) = done b ∷ done_all bs

abbrev pub count_all : List (ℕ × Between) → Stats → Stats
count_all [] s = note_fragment (note_frame s)
count_all ((t, b) ∷ bs) s = count_all bs (count b s)

module _ {R S E I : Type 0} (router : Router R E) (sink : Sink S) where
  abbrev Delivered :
      Opcode
      → List ℕ
      → ℕ
      → Pipeline R S E
      → List Action
      → Result (LinkError I) (List Action) × State R S E
      → Type 0
  Delivered op whole t p acts (r, (p', a)) =
      (r ≡ ok acts) × (p' ≡ ingest_message router sink op whole t p) × (a.opened ≡ none)

  followed-Delivered :
      (rest : State R S E → Result (LinkError I) (List Action) × State R S E) (b : Between)
      (op op' : Opcode) (ys whole : List ℕ) (c t : ℕ) (p q : Pipeline R S E) (acts : List Action)
      (r : Result (LinkError I) Action × State R S E)
      → Stepped router sink b p op' ys c r
      → Delivered op whole t q acts (rest r.1)
      → Delivered op whole t q (done b ∷ acts) (followed router sink rest r)
  followed-Delivered rest b op op' ys whole c t p q acts r h k =
      rw (followed, h.0) (rw (k.0) (refl, k.1, k.2))

  last-Delivered :
      (z : List ℕ) (t : ℕ) (p : Pipeline R S E) (a : Assembly) {op : Opcode} {ys : List ℕ} {c : ℕ}
      → Holds op ys c a
      → length ys + length z ≤ c
      → Delivered op
          (ys ++ z)
          t
          (noted (λ s. note_fragment (note_frame s)) p)
          (nothing ∷ [])
          (on_frames {I = I} router sink ((t, frame_of true continuation z) ∷ []) (p, a))
  unfolding on_frame on_opcode continuation_frame take_message
  last-Delivered z t p a {op = op} {ys = ys} h fits =
      subst
        (λ r.
          Delivered op (ys ++ z) t (noted (λ s. note_fragment (note_frame s)) p) (nothing ∷ []) (
            followed {I = I} router sink (on_frames router sink [])
              (appended {I = I} router sink true t (noted note_frame p) r)))
        (sym (append-push a z h.is_opened))
        (let pushed = push-Holds h z fits in
          rw (appended, pushed.0, taken, take_message, pushed.1.is_opened, pushed.1.so_far)
            (refl, refl, refl))

  rest-Delivered :
      (bs : List (ℕ × Between)) (z : List ℕ) (t : ℕ) (p : Pipeline R S E) (a : Assembly)
      (ys : List ℕ) {op : Opcode} {c : ℕ}
      → Holds op ys c a
      → length (ys ++ (carried_all bs ++ z)) ≤ c
      → Delivered op (ys ++ (carried_all bs ++ z)) t (noted (count_all bs) p) (done_all bs) (
          on_frames {I = I} router sink
            (map stamped bs ++ ((t, frame_of true continuation z) ∷ []))
            (p, a))
  rest-Delivered [] z t p a ys h fits =
      last-Delivered z t p a h (omega (arith, fits, length-append ys z))
  rest-Delivered ((u, b) ∷ bs) z t p a ys {op = op} {c = c} h fits =
      followed-Delivered
        (on_frames router sink (map stamped bs ++ ((t, frame_of true continuation z) ∷ []))) b op op
        ys (ys ++ ((carried b ++ carried_all bs) ++ z)) c t p (noted (count_all ((u, b) ∷ bs)) p)
        (done_all bs) (on_frame router sink (between_frame b) u (p, a)) stepped
        (subst
          (λ w. Delivered op w t (noted (count_all ((u, b) ∷ bs)) p) (done_all bs) (
            on_frames {I = I} router sink
              (map stamped bs ++ ((t, frame_of true continuation z) ∷ []))
              (on_frame {I = I} router sink (between_frame b) u (p, a)).1))
          regroup
          (subst
            (λ q.
              Delivered op ((ys ++ carried b) ++ (carried_all bs ++ z)) t (noted (count_all bs) q)
                (done_all bs)
                (on_frames {I = I} router sink
                  (map stamped bs ++ ((t, frame_of true continuation z) ∷ []))
                  (on_frame {I = I} router sink (between_frame b) u (p, a)).1))
            stepped.1
            (rest-Delivered bs z t _ _ (ys ++ carried b) stepped.2
              (subst (λ w. length w ≤ c) (sym regroup) fits))))
    where
      stepped :
          Stepped {I = I} router sink b p op ys c (on_frame router sink (between_frame b) u (p, a))
      stepped = between-Holds router sink b u p a h (
          omega (
            arith,
            fits,
            length-append ys ((carried b ++ carried_all bs) ++ z),
            length-append (carried b ++ carried_all bs) z,
            length-append (carried b) (carried_all bs),
          ))

      regroup :
          (ys ++ carried b) ++ (carried_all bs ++ z) ≡ ys ++ ((carried b ++ carried_all bs) ++ z)
      regroup =
          append_assoc ys (carried b) (carried_all bs ++ z)
          ∙ ap (λ l. ys ++ l) (sym (append_assoc (carried b) (carried_all bs) z))

  begun-Holds :
      (op : Opcode) (x : List ℕ) (p : Pipeline R S E) (a : Assembly)
      → a.opened ≡ none
      → length x ≤ capacity a
      → Stepped {I = I} router sink
          (more x)
          p
          op
          []
          (capacity a)
          (begun router sink (noted note_frame p) (begin op x a))
  begun-Holds op x p a shut fits =
      subst
        (λ r.
          Stepped {I = I} router sink (more x) p op [] (capacity a)
            (begun router sink (noted note_frame p) r))
        (sym (begin-push op a x shut))
        (let pushed = push-Holds (opening-Holds op a) x (omega (arith, fits)) in
          rw (begun, pushed.0) (refl, refl, pushed.1))

  first-Holds :
      (op : Opcode) (x : List ℕ) (u : ℕ) (p : Pipeline R S E) (a : Assembly)
      → IsData op
      → a.opened ≡ none
      → length x ≤ capacity a
      → Stepped {I = I} router sink
          (more x)
          p
          op
          []
          (capacity a)
          (on_frame router sink (frame_of false op x) u (p, a))
  unfolding on_frame on_opcode data_frame
  first-Holds text x u p a kind shut fits = begun-Holds text x p a shut fits
  first-Holds binary x u p a kind shut fits = begun-Holds binary x p a shut fits
  first-Holds continuation x u p a kind shut fits = elim kind [ ]
  first-Holds close x u p a kind shut fits = elim kind [ ]
  first-Holds ping x u p a kind shut fits = elim kind [ ]
  first-Holds pong x u p a kind shut fits = elim kind [ ]

  -- With no message open, a text or binary message that arrives as a first fragment, any number of
  -- further ones with pings and pongs between them, and a last one reaches the router once, as its
  -- fragments put together, under the stamp of the last, provided that it fits the buffer. The pings
  -- are answered in their order, every frame is counted, and no message is open afterwards.
  pub on_frames-message :
      (op : Opcode) (x : List ℕ) (u : ℕ) (bs : List (ℕ × Between)) (z : List ℕ) (t : ℕ)
      (p : Pipeline R S E) (a : Assembly)
      → IsData op
      → a.opened ≡ none
      → length (x ++ (carried_all bs ++ z)) ≤ capacity a
      → let (actions, (p', a')) =
          on_frames {I = I} router sink
            ((u, frame_of false op x)
              ∷ (map stamped bs ++ ((t, frame_of true continuation z) ∷ [])))
            (p, a) in
        (actions ≡ ok (nothing ∷ done_all bs))
        × (p'
            ≡ ingest_message router sink op
                (x ++ (carried_all bs ++ z))
                t
                (noted (λ s. count_all bs (note_fragment (note_frame s))) p))
        × (a'.opened ≡ none)
  on_frames-message op x u bs z t p a kind shut fits =
      followed-Delivered
        (on_frames router sink (map stamped bs ++ ((t, frame_of true continuation z) ∷ [])))
        (more x) op op [] (x ++ (carried_all bs ++ z)) (capacity a) t p
        (noted (λ s. count_all bs (note_fragment (note_frame s))) p) (done_all bs)
        (on_frame router sink (frame_of false op x) u (p, a)) first
        (subst
          (λ q. Delivered op (x ++ (carried_all bs ++ z)) t (noted (count_all bs) q) (done_all bs) (
            on_frames {I = I} router sink
              (map stamped bs ++ ((t, frame_of true continuation z) ∷ []))
              (on_frame {I = I} router sink (frame_of false op x) u (p, a)).1))
          first.1 (rest-Delivered bs z t _ _ x first.2 fits))
    where
      first :
          Stepped {I = I} router sink
            (more x)
            p
            op
            []
            (capacity a)
            (on_frame router sink (frame_of false op x) u (p, a))
      first =
          first-Holds op x u p a kind shut
            (omega (arith, fits, length-append x (carried_all bs ++ z)))
