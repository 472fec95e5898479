-- ===== src/Tests/Quotes.antt =====
-- Two quotes of a pair, written and decoded.
use jeed.Base.{ℕ, List, [], ◌∷◌, some, none, true, false, ok, arith, refl, ◌≡◌, ◌<◌, ◌^◌, All}
use jeed.Fix.TagValue.{Field, is_soh}
use jeed.Fix.TagValue.Numeral.{numeral}
use jeed.Fix.TagValue.Scan.{encode_fields, IsField}
use jeed.Fix.Frame.{Frame}
use jeed.Wire.Types.{s2, s0}
use jeed.Fix.MarketData.Entry.{FixScales, new, change, entry_type_of}
use jeed.Fix.MarketData.Parse.{parse_md_message}
use jeed.Fix.MarketData.Quote.{Amount, IsAmount, Quote, IsQuote, field, update_fields, message_with}
use jeed.Fix.MarketData.Quote.{entry_at}
use jeed.Fix.MarketData.Quotes.{parse_md_message-update_fields}

abbrev two_and_none : FixScales
two_and_none = record { price = s2; quantity = s0 }

-- `1.250`
abbrev bid_price : Amount
bid_price = record { whole = b'1' ∷ []; frac = some (b'2' ∷ b'5' ∷ b'0' ∷ []) }

abbrev ten : Amount
ten = record { whole = b'1' ∷ b'0' ∷ []; frac = none }

abbrev bid_quote : Quote
bid_quote = record {
  action = new;
  kind = b'0';
  symbol = b'E' ∷ b'U' ∷ [];
  negative = false;
  price = bid_price;
  size = ten;
}

abbrev second_bid : Quote
second_bid = record bid_quote { action = change; negative = true; price = ten }

abbrev quotes : List Quote
quotes = bid_quote ∷ second_bid ∷ []

bid_price-IsAmount : IsAmount s2 bid_price
bid_price-IsAmount = record {
  whole_digits = (refl, tt);
  rest_digits = (refl, (refl, (refl, tt)));
  some_digit = omega arith;
  fits = omega arith;
  exact = refl;
}

ten-IsAmount : IsAmount s2 ten × IsAmount s0 ten
ten-IsAmount = (
  record {
    whole_digits = (refl, (refl, tt));
    rest_digits = tt;
    some_digit = omega arith;
    fits = omega arith;
    exact = refl;
  },
  record {
    whole_digits = (refl, (refl, tt));
    rest_digits = tt;
    some_digit = omega arith;
    fits = omega arith;
    exact = refl;
  },
)

quotes-IsQuote : All (IsQuote two_and_none) quotes
unfolding entry_type_of
quotes-IsQuote = (
  record { typed = refl; price_fits = bid_price-IsAmount; size_fits = ten-IsAmount.1 },
  (record { typed = refl; price_fits = ten-IsAmount.0; size_fits = ten-IsAmount.1 }, tt),
)

free_field :
    (tag : ℕ) (value : List ℕ)
    → tag < 2 ^ 32
    → All (λ b. is_soh b ≡ false) value
    → IsField (field tag value)
free_field tag value fits free = record { tag_fits = fits; value_free = free }

-- Those of the quotes' message, with a SenderCompID, 49, that the decoder does not read.
abbrev sent_fields : List Field
sent_fields = field 49 (b'V' ∷ []) ∷ update_fields 7 quotes

quotes-IsField : All IsField (update_fields 7 quotes)
unfolding numeral
quotes-IsField = (
  free_field 35 (b'X' ∷ []) (omega arith) (refl, tt),
  (
    free_field 34 (b'7' ∷ []) (omega arith) (refl, tt),
    (
      free_field 268 (b'2' ∷ []) (omega arith) (refl, tt),
      (
        free_field 279 (b'0' ∷ []) (omega arith) (refl, tt),
        (
          free_field 269 (b'0' ∷ []) (omega arith) (refl, tt),
          (
            free_field 55 (b'E' ∷ b'U' ∷ []) (omega arith) (refl, (refl, tt)),
            (
              free_field 270 (b'1' ∷ b'.' ∷ b'2' ∷ b'5' ∷ b'0' ∷ []) (omega arith)
                  (refl, (refl, (refl, (refl, (refl, tt))))),
              (
                free_field 271 (b'1' ∷ b'0' ∷ []) (omega arith) (refl, (refl, tt)),
                (
                  free_field 279 (b'1' ∷ []) (omega arith) (refl, tt),
                  (
                    free_field 269 (b'0' ∷ []) (omega arith) (refl, tt),
                    (
                      free_field 55 (b'E' ∷ b'U' ∷ []) (omega arith) (refl, (refl, tt)),
                      (
                        free_field 270 (b'-' ∷ b'1' ∷ b'0' ∷ []) (omega arith)
                            (refl, (refl, (refl, tt))),
                        (free_field 271 (b'1' ∷ b'0' ∷ []) (omega arith) (refl, (refl, tt)), tt),
                      ),
                    ),
                  ),
                ),
              ),
            ),
          ),
        ),
      ),
    ),
  ),
)

abbrev quotes_frame : Frame
quotes_frame = record { bytes = []; begin = b'F' ∷ []; body = encode_fields sent_fields }

parse_md_message-update_fields_example :
    parse_md_message quotes_frame two_and_none
    ≡ ok (
        message_with 7 2
          (entry_at two_and_none 0 bid_quote ∷ entry_at two_and_none 1 second_bid ∷ []))
unfolding entry_type_of
parse_md_message-update_fields_example =
    parse_md_message-update_fields two_and_none 7 quotes sent_fields quotes_frame (omega arith)
      (omega arith) quotes-IsQuote
      (free_field 49 (b'V' ∷ []) (omega arith) (refl, tt), quotes-IsField) refl refl
