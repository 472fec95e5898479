-- ===== src/Fix/Emit/Read.antt =====
-- The fields that `Emitter::build` writes are those that the framer and the field iterator read.
use jeed.Base.{
  false, refl, sym, subst, suc, ◌/◌, ◌%◌, All-append, ℕ, ◌≤◌, ◌<◌, ◌^◌, List, ok, All, map, length,
  ◌≡◌, arith,
}
use jeed.Fix.TagValue.{is_soh, Field, fields}
use jeed.Fix.TagValue.Scan.{encode_fields, IsField, fields-encode_fields}
use jeed.Fix.TagValue.Numeral.{numeral, IsNumeral, numeral-IsNumeral}
use jeed.Fix.Frame.Message.{digits-free}
use jeed.Fix.Session.{add_u64}
use jeed.Fix.Time.Calendar.{nth_day, nth_day-IsDate, number-nth_day}
use jeed.Fix.Emit.Stamp.{
  padded-IsNumeral, time_text, date_text, sending_time_lem, day_of, year_bound, days_bound,
}
use jeed.Fix.Frame.{frame}
use jeed.Fix.Value.{as_bytes}
use jeed.Fix.Emit.Writer.{Writer, sending_time}
use jeed.Fix.Emit.Writes.{Writes, padded}
use jeed.Fix.Emit.Emitter.{Emitter, build}
use jeed.Fix.Emit.Built.{header_fields}
use jeed.Fix.Emit.Sent.{frame-build, build-ok}

abbrev pub Free : List ℕ → Type 0
Free bs = All (λ b. is_soh b ≡ false) bs

-- Texts of the configuration that hold no separator.
pub record IsReady (e : Emitter) : Type 0 where
  pub some_begin : 1 ≤ length e.begin
  pub begin_free : Free e.begin
  pub sender_free : Free (as_bytes e.sender)
  pub target_free : Free (as_bytes e.target)
  pub seq_fits : e.next_seq < 2 ^ 64

pub numeral-Free : (n : ℕ) → n < 2 ^ 64 → Free (numeral n)
numeral-Free n h =
    digits-free (numeral n)
      (IsNumeral.digits (numeral-IsNumeral 19 n (omega (arith, h)) (omega arith)))

padded-Free : (k v : ℕ) → v < 10 ^ suc k → suc k ≤ 19 → Free (padded (suc k) v)
padded-Free k v h n = digits-free (padded (suc k) v) (IsNumeral.digits (padded-IsNumeral k v h n))

abbrev IsFree : ℕ → Type 0
IsFree b = is_soh b ≡ false

time_text-Free : (sod millis : ℕ) → sod < 86_400 → millis < 1_000 → Free (time_text sod millis)
time_text-Free sod millis hs hm =
    All-append IsFree (padded 2 (sod / 3_600)) _
      (padded-Free 1 (sod / 3_600) (omega (arith, hs)) (omega arith))
      (
        refl,
        All-append IsFree (padded 2 (sod / 60 % 60)) _
            (padded-Free 1 (sod / 60 % 60) (omega arith) (omega arith))
            (
              refl,
              All-append IsFree (padded 2 (sod % 60)) _
                  (padded-Free 1 (sod % 60) (omega arith) (omega arith))
                  (refl, padded-Free 2 millis (omega (arith, hm)) (omega arith)),
            ),
      )

date_text-Free : (y m d : ℕ) → y < 10_000 → m < 100 → d < 100 → Free (date_text y m d)
date_text-Free y m d hy hm hd =
    All-append IsFree (padded 4 y) _ (padded-Free 3 y (omega (arith, hy)) (omega arith)) (
      All-append IsFree (padded 2 m) _ (padded-Free 1 m (omega (arith, hm)) (omega arith))
        (padded-Free 1 d (omega (arith, hd)) (omega arith)))

sending_time-Free : (now : ℕ) → now < 2 ^ 64 → Free (sending_time now)
sending_time-Free now h =
    let (y, m, d) = nth_day (day_of now) in
    let v = nth_day-IsDate (day_of now) in
    subst Free (sym (sending_time_lem now h)) (
      All-append IsFree (date_text y m d) _
        (date_text-Free y m d (year_bound y m d v (omega (arith, number-nth_day (day_of now))))
          (omega (arith, v)) (omega (arith, v, days_bound y m)))
        (refl, time_text-Free _ _ (omega arith) (omega arith)))

header_fields-IsField :
    (e : Emitter) (msg_type : List ℕ) (now : ℕ) (more : List Field)
    → IsReady e
    → now < 2 ^ 64
    → Free msg_type
    → All IsField more
    → All IsField (header_fields e msg_type now more)
header_fields-IsField e msg_type now more v h free more_fields = (
  record { tag_fits = omega arith; value_free = free },
  (
    record { tag_fits = omega arith; value_free = v.sender_free },
    (
      record { tag_fits = omega arith; value_free = v.target_free },
      (
        record { tag_fits = omega arith; value_free = numeral-Free e.next_seq v.seq_fits },
        (record { tag_fits = omega arith; value_free = sending_time-Free now h }, more_fields),
      ),
    ),
  ),
)

-- Whatever fields a message adds to the standard header: if `build` succeeds, `frame` takes all the
-- bytes that it wrote as one message, whose fields are the header's (type, sender, target, number and
-- time) and those added, in order, and the emitter's number and time of sending have moved on. The
-- texts must hold no separator, and the numbers fit 64 bits.
pub build-read :
    (e : Emitter) (msg_type : List ℕ) (now : ℕ) (fill : Writer → Writer) (more : List Field)
    → ((w : Writer) → Writes w (fill w) (encode_fields more))
    → (room : ℕ) (out : List ℕ) (e' : Emitter) → build e msg_type now room fill ≡ (ok out, e')
    → IsReady e
    → now < 2 ^ 64
    → Free msg_type
    → All IsField more
    → (body : List ℕ) × (frame out ≡ ok (record { bytes = out; begin = e.begin; body = body }))
      × (fields body ≡ map ok (header_fields e msg_type now more))
      × (e'.next_seq ≡ add_u64 e.next_seq 1)
      × (e'.last_sent_ns ≡ now)
build-read e msg_type now fill more fills room out e' sent v h free are_fields =
    let (_, _, _, seq, time) = build-ok e msg_type now fill more fills room out e' sent in
    (
      encode_fields (header_fields e msg_type now more),
      frame-build e msg_type now fill more fills room out e' sent v.some_begin v.begin_free,
      fields-encode_fields (header_fields e msg_type now more)
          (header_fields-IsField e msg_type now more v h free are_fields),
      seq,
      time,
    )
