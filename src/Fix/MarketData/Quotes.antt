-- ===== src/Fix/MarketData/Quotes.antt =====
-- `parse_md_message` on the written form of an incremental message whose entries are quotes.
use jeed.Base.{ℕ, suc, ◌+◌, ◌^◌, ◌≤◌, ◌<◌, ◌≡◌, ◌∙◌, refl, sym, ap, arith}
use jeed.Base.{List, [], ◌∷◌, ◌++◌, append_assoc, Option, none, some, true, false, map}
use jeed.Base.{
  Result, ok, ◌>>=◌, bind_same, lt→ltb, Bool-cases, inl, inr, length, length-append, eq→==, All,
}
use jeed.Fix.Error.{FixError}
use jeed.Fix.MsgType.{market_data_incremental, from_value}
use jeed.Fix.TagValue.{Field, fields}
use jeed.Fix.TagValue.Numeral.{numeral, parse_u64-numeral}
use jeed.Fix.Frame.{Frame}
use jeed.Fix.MarketData.Entry.{FixScales, entry_type_of}
use jeed.Fix.MarketData.Entry.{MdEntry, MdMessage, md_max_entries}
use jeed.Fix.MarketData.Parse.{Decoder, start, close_entry, read_field, read_fields, finish}
use jeed.Fix.MarketData.Parse.{set_field, fill_entry, group_field, plain_field, push_entry}
use jeed.Fix.TagValue.Scan.{encode_fields, IsField, fields-encode_fields}
use jeed.Fix.MarketData.Parse.{parse_md_message}
use jeed.Fix.MarketData.Quote.{
  amount_text, parse_amount, Quote, action_byte, action_of-action_byte, field, all_fields,
  update_fields, side_level, bid_count, offer_count, count_bid_lem, count_ask_lem,
  implied_level_lem, one_side, is_read, read_only, lt→leb, IsQuote, entry_at, entries_from,
  message_with,
}

module _ (scales : FixScales) where
  -- A quote's five fields close the open entry and open its own.
  quote_step :
      (d d' : Decoder) (q : Quote) (items : List (Result FixError Field))
      → IsQuote scales q
      → d.msg.msg_type ≡ market_data_incremental
      → d'.msg.msg_type ≡ market_data_incremental
      → close_entry d d.cur ≡ ok d'
      → read_fields scales d (
          ok (field 279 (action_byte q.action ∷ []))
          ∷ ok (field 269 (q.kind ∷ []))
          ∷ ok (field 55 q.symbol)
          ∷ ok (field 270 (amount_text q.negative q.price))
          ∷ ok (field 271 (amount_text false q.size))
          ∷ items)
        ≡ read_fields scales (record d' { cur = some (entry_at scales 0 q) }) items
  unfolding read_fields read_field group_field plain_field fill_entry set_field
  quote_step d d' q items v kind kind' closed =
      rw
        (
          closed,
          kind,
          action_of-action_byte q.action,
          kind',
          parse_amount q.negative scales.price q.price v.price_fits,
          parse_amount false scales.quantity q.size v.size_fits,
        )
        refl

  module _ (seq count : ℕ) (count_fits : count ≤ md_max_entries) where
    abbrev opened : List MdEntry → Option MdEntry → ℕ → ℕ → Decoder
    opened es cur bids offers = record {
      msg = message_with seq count es;
      cur = cur;
      bid_seen = bids;
      ask_seen = offers;
      have_msg_type = true;
      have_seq = true;
    }

    close_quote :
        (es : List MdEntry) (q : Quote) (bids offers : ℕ)
        → IsQuote scales q
        → bids + offers ≤ length es
        → length es < count
        → let kind = entry_type_of q.kind in
          close_entry
            (opened es (some (entry_at scales 0 q)) bids offers)
            (some (entry_at scales 0 q))
          ≡ ok (
              opened
                (es ++ entry_at scales (side_level kind bids offers) q ∷ [])
                none
                (bids + bid_count kind)
                (offers + offer_count kind))
    unfolding close_entry push_entry
    close_quote es q bids offers v few room =
        rw
          (
            v.typed,
            lt→leb md_max_entries (length es) (omega (arith, room, count_fits)),
            count_bid_lem (entry_type_of q.kind) bids (omega (arith, few, room, count_fits)),
            count_ask_lem (entry_type_of q.kind) offers (omega (arith, few, room, count_fits)),
            implied_level_lem (entry_type_of q.kind) bids offers,
          )
          refl

    finish_update :
        (es : List MdEntry) (bids offers : ℕ)
        → length es ≡ count
        → finish (opened es none bids offers) ≡ ok (message_with seq count es)
    unfolding finish
    finish_update es bids offers h = rw (eq→== count (length es) (sym h)) refl

    abbrev finished : Result FixError Decoder → Result FixError MdMessage
    finished r = r >>= (λ d. close_entry d d.cur >>= (λ d'. finish d'))

    read_quotes :
        (es : List MdEntry) (q : Quote) (qs : List Quote) (bids offers : ℕ)
        → IsQuote scales q
        → All (IsQuote scales) qs
        → bids + offers ≤ length es
        → length es + suc (length qs) ≡ count
        → finished (
            read_fields scales
              (opened es (some (entry_at scales 0 q)) bids offers)
              (map ok (all_fields qs)))
          ≡ ok (message_with seq count (es ++ entries_from scales bids offers (q ∷ qs)))
    unfolding read_fields
    read_quotes es q [] bids offers v vs few total =
        rw (close_quote es q bids offers v few (omega (arith, total))) (
          finish_update _ _ _ (
            omega (
              arith,
              length-append es
                  (entry_at scales (side_level (entry_type_of q.kind) bids offers) q ∷ []),
              total,
            )))
    read_quotes es q (r ∷ rs) bids offers v vs few total =
        let kind = entry_type_of q.kind in
        let e = entry_at scales (side_level kind bids offers) q in
        let one_more = length-append es (e ∷ []) in
        ap finished (
          quote_step (opened es (some (entry_at scales 0 q)) bids offers)
            (opened (es ++ e ∷ []) none (bids + bid_count kind) (offers + offer_count kind)) r
            (map ok (all_fields rs)) vs.0 refl refl
            (close_quote es q bids offers v few (omega (arith, total))))
        ∙ read_quotes (es ++ e ∷ []) r rs (bids + bid_count kind) (offers + offer_count kind) vs.0
            vs.1 (omega (arith, few, one_more, one_side kind)) (omega (arith, total, one_more))
        ∙ ap (λ l. ok (message_with seq count l))
            (append_assoc es (e ∷ [])
              (entries_from scales (bids + bid_count kind) (offers + offer_count kind) (r ∷ rs)))

    -- The three fields in front of the quotes.
    read_head :
        (items : List (Result FixError Field))
        → seq < 10 ^ 19
        → read_fields scales start (
            ok (field 35 (b'X' ∷ []))
            ∷ ok (field 34 (numeral seq))
            ∷ ok (field 268 (numeral count))
            ∷ items)
          ≡ read_fields scales (opened [] none 0 0) items
    unfolding read_fields read_field plain_field from_value
    read_head items h =
        rw
          (
            parse_u64-numeral seq h,
            parse_u64-numeral count (omega (arith, count_fits)),
            lt→ltb count (2 ^ 32) (omega (arith, count_fits)),
          )
          refl

  read_update :
      (seq : ℕ) (qs : List Quote)
      → seq < 10 ^ 19
      → (fits : length qs ≤ md_max_entries) → All (IsQuote scales) qs
      → finished seq (length qs) fits (read_fields scales start (map ok (update_fields seq qs)))
        ≡ ok (message_with seq (length qs) (entries_from scales 0 0 qs))
  unfolding finish read_fields close_entry
  read_update seq [] small fits vs =
      ap (finished seq 0 fits) (read_head seq 0 fits [] small)
      ∙ finish_update seq 0 fits [] 0 0 refl
  read_update seq (q ∷ qs) small fits vs =
      ap (finished seq (suc (length qs)) fits) (
        read_head seq (suc (length qs)) fits (map ok (all_fields (q ∷ qs))) small
        ∙ quote_step (opened seq (suc (length qs)) fits [] none 0 0)
            (opened seq (suc (length qs)) fits [] none 0 0) q (map ok (all_fields qs)) vs.0 refl
            refl refl)
      ∙ read_quotes seq (suc (length qs)) fits [] q qs 0 0 vs.0 vs.1 (omega arith) (omega arith)

  read_field-not_read :
      (d : Decoder) (f : Field) → is_read f.tag ≡ false → read_field scales d f ≡ ok d
  unfolding read_field plain_field
  read_field-not_read d f h = ground (arith, h)

  -- What the loop does not read changes nothing.
  read_fields-read_only :
      (d : Decoder) (xs : List Field)
      → read_fields scales d (map ok xs) ≡ read_fields scales d (map ok (read_only xs))
  unfolding read_fields
  read_fields-read_only d [] = refl
  read_fields-read_only d (f ∷ xs) = elim (Bool-cases (is_read f.tag)) [
    | inl read ↦ rw read (bind_same (read_field scales d f) (λ d'. read_fields-read_only d' xs))
    | inr not_read ↦ rw (not_read, read_field-not_read d f not_read) (read_fields-read_only d xs)
  ]

  -- An incremental message of 32 quotes at most is decoded to exactly its quotes, in order: each with
  -- its action, type and symbol, the exact price and size at the scales, and as its level the number of
  -- quotes of its own side before it. The fields with tags that the decoder reads are these and in this
  -- order: 35, 34, 268 with the number of quotes, then 279, 269, 55, 270, 271 for each quote; fields with
  -- any other tags, such as 49 and 56, stand anywhere among them. So it has no 43, 52, 262, 272, 273, 346
  -- or 1023. The sequence number has 19 digits at most, each type's byte is not 0, the amounts are digits
  -- that the scales hold exactly and an `i64` holds, and no value holds a separator.
  pub parse_md_message-update_fields :
      (seq : ℕ) (qs : List Quote) (xs : List Field) (frame : Frame)
      → seq < 10 ^ 19
      → length qs ≤ md_max_entries
      → All (IsQuote scales) qs
      → All IsField xs
      → read_only xs ≡ update_fields seq qs
      → frame.body ≡ encode_fields xs
      → parse_md_message frame scales
        ≡ ok (message_with seq (length qs) (entries_from scales 0 0 qs))
  unfolding parse_md_message
  parse_md_message-update_fields seq qs xs frame small fits vs are_fields same body =
      ap (λ b. finished seq (length qs) fits (read_fields scales start (fields b))) body
      ∙ ap (λ items. finished seq (length qs) fits (read_fields scales start items))
          (fields-encode_fields xs are_fields)
      ∙ ap (finished seq (length qs) fits)
          (read_fields-read_only start xs ∙ ap (λ l. read_fields scales start (map ok l)) same)
      ∙ read_update seq qs small fits vs
