-- ===== src/Fix/MarketData/Entries.antt =====
-- What the entries of a decoded market data message are.
use jeed.Base.{ℕ, ◌+◌, ◌≤◌, ◌≡◌, subst, arith, inl, inr}
use jeed.Base.{List, [], ◌∷◌, ◌++◌, Option, none, some, false}
use jeed.Base.{
  Result, ok, err, ◌>>=◌, ◌==◌, ◌||◌, leb, length, All, All-append, length-append, Bool-cases,
  Result-cases,
}
use jeed.Fix.Error.{FixError}
use jeed.Fix.TagValue.{Field, fields}
use jeed.Fix.Frame.{Frame}
use jeed.Fix.MarketData.Entry.{FixScales, is_unset, empty_entry, MdEntry, MdMessage, md_max_entries}
use jeed.Fix.MarketData.Parse.{Decoder, start, levelled, push_entry, close_entry, fill_entry}
use jeed.Fix.MarketData.Parse.{
  set_field, delimiter, is_repeat, is_group_tag, group_field, plain_field, read_field, read_fields,
  finish,
}
use jeed.Fix.MarketData.Parse.{parse_md_message}

abbrev pub IsTyped : MdEntry → Type 0
IsTyped e = is_unset e.entry_type ≡ false

-- No more entries than the array holds, each with its type.
abbrev pub IsSound : List MdEntry → Type 0
IsSound es = (length es ≤ md_max_entries) × All IsTyped es

-- A result whose message, if any, is sound.
abbrev Keeps : Result FixError Decoder → Type 0
Keeps (ok d) = IsSound d.msg.entries
Keeps (err e) = Unit

levelled-IsTyped :
    (e : MdEntry) (b a : ℕ) → is_unset e.entry_type ≡ false → IsTyped (levelled e b a)
levelled-IsTyped e b a h = ground arith

IsSound-push :
    (es : List MdEntry) (e : MdEntry)
    → IsSound es
    → length es + 1 ≤ md_max_entries
    → IsTyped e
    → IsSound (es ++ e ∷ [])
IsSound-push es e h room typed =
    (omega (arith, length-append es (e ∷ [])), All-append IsTyped es (e ∷ []) h.1 (typed, tt))

room_left : (n : ℕ) → leb md_max_entries n ≡ false → n + 1 ≤ md_max_entries
room_left n h = ground arith

push_entry-Keeps : (d : Decoder) (e : MdEntry) → IsSound d.msg.entries → Keeps (push_entry d e)
unfolding push_entry
push_entry-Keeps d e h = elim (Bool-cases (is_unset e.entry_type)) [
  | inl u ↦ rw u tt
  | inr u ↦ rw u (elim (Bool-cases (leb md_max_entries (length d.msg.entries))) [
    | inl full ↦ rw full tt
    | inr room ↦ rw room (
        IsSound-push d.msg.entries (levelled e d.bid_seen d.ask_seen) h (room_left _ room)
          (levelled-IsTyped e d.bid_seen d.ask_seen u))
  ])
]

close_entry-Keeps :
    (d : Decoder) (cur : Option MdEntry) → IsSound d.msg.entries → Keeps (close_entry d cur)
unfolding close_entry
close_entry-Keeps d none h = h
close_entry-Keeps d (some e) h = push_entry-Keeps (record d { cur = none }) e h

bind-Keeps :
    (r : Result FixError Decoder) (f : Decoder → Result FixError Decoder)
    → ((d : Decoder) → IsSound d.msg.entries → Keeps (f d))
    → Keeps r
    → Keeps (r >>= f)
bind-Keeps (ok d) f k h = k d h
bind-Keeps (err e) f k h = tt

fill_entry-Keeps :
    (scales : FixScales) (f : Field) (d : Decoder) (cur : Option MdEntry)
    → IsSound d.msg.entries
    → Keeps (fill_entry scales f d cur)
unfolding fill_entry
fill_entry-Keeps scales f d none h = tt
fill_entry-Keeps scales f d (some e) h = elim (Result-cases (set_field scales f e)) [
  | inl (e', q) ↦ rw q h
  | inr (x, q) ↦ rw q tt
]

group_field-Keeps :
    (scales : FixScales) (d : Decoder) (f : Field)
    → IsSound d.msg.entries
    → Keeps (group_field scales d f)
unfolding group_field
group_field-Keeps scales d f h =
    elim (Bool-cases (f.tag == delimiter d.msg.msg_type || is_repeat f.tag d.cur)) [
      | inl opens ↦ rw opens (
          bind-Keeps (close_entry d d.cur) (λ d'. fill_entry scales f d' (some empty_entry))
            (λ d' k. fill_entry-Keeps scales f d' (some empty_entry) k)
            (close_entry-Keeps d d.cur h))
      | inr same ↦ rw same (fill_entry-Keeps scales f d d.cur h)
    ]

plain_field-Keeps : (d : Decoder) (f : Field) → IsSound d.msg.entries → Keeps (plain_field d f)
unfolding plain_field
plain_field-Keeps d f h = ground arith

read_field-Keeps :
    (scales : FixScales) (d : Decoder) (f : Field)
    → IsSound d.msg.entries
    → Keeps (read_field scales d f)
unfolding read_field
read_field-Keeps scales d f h = elim (Bool-cases (is_group_tag f.tag)) [
  | inl g ↦ rw g (group_field-Keeps scales d f h)
  | inr g ↦ rw g (plain_field-Keeps d f h)
]

read_fields-Keeps :
    (scales : FixScales) (d : Decoder) (items : List (Result FixError Field))
    → IsSound d.msg.entries
    → Keeps (read_fields scales d items)
unfolding read_fields
read_fields-Keeps scales d [] h = h
read_fields-Keeps scales d (err e ∷ items) h = tt
read_fields-Keeps scales d (ok f ∷ items) h =
    bind-Keeps (read_field scales d f) (λ d'. read_fields scales d' items)
      (λ d' k. read_fields-Keeps scales d' items k) (read_field-Keeps scales d f h)

-- A result whose message, if any, is as `parse_md_message` gives it out.
abbrev Final : Result FixError MdMessage → Type 0
Final (ok m) = (m.declared_entries ≡ length m.entries) × IsSound m.entries
Final (err e) = Unit

finish-Final : (d : Decoder) → IsSound d.msg.entries → Final (finish d)
unfolding finish
finish-Final d h = ground arith

bind-Final :
    (r : Result FixError Decoder) (f : Decoder → Result FixError MdMessage)
    → ((d : Decoder) → IsSound d.msg.entries → Final (f d))
    → Keeps r
    → Final (r >>= f)
bind-Final (ok d) f k h = k d h
bind-Final (err e) f k h = tt

parse_md_message-Final :
    (frame : Frame) (scales : FixScales) → Final (parse_md_message frame scales)
unfolding parse_md_message
parse_md_message-Final frame scales =
    bind-Final (read_fields scales start (fields frame.body)) closed
      (λ d h. bind-Final (close_entry d d.cur) finish finish-Final (close_entry-Keeps d d.cur h))
      (read_fields-Keeps scales start (fields frame.body) (omega arith, tt))
  where
    closed : Decoder → Result FixError MdMessage
    closed d = close_entry d d.cur >>= finish

-- A frame that decodes as market data has exactly the entries that it declares, 32 at most, and each
-- of them has its type.
pub parse_md_message-IsSound :
    (frame : Frame) (scales : FixScales) (m : MdMessage)
    → parse_md_message frame scales ≡ ok m
    → (m.declared_entries ≡ length m.entries) × IsSound m.entries
parse_md_message-IsSound frame scales m h = subst Final h (parse_md_message-Final frame scales)
