-- ===== src/Wire/Types.antt =====
-- crates/jeed-wire/src/types.rs and `WireKind::from_u8` of kind.rs: what bytes stand for.
use jeed.Base.{ℕ, suc, ◌-◌, List, [], ◌∷◌, Option, none, some, ◌||◌, ◌==◌}
use jeed.Base.{Result, ok, err, if◌then◌else◌, length, take, ltb, replicate}
use jeed.Wire.Error.{WireError, WireKind, quote, trade, trade_quote, open_interest, investor_stats}
use jeed.Wire.Error.{snapshot_delta, price_limit, market_schedule, heartbeat, dynamic_price_limit}

-- `WireKind::from_u8`
unfoldable pub kind_of : ℕ → Result WireError WireKind
kind_of b =
    if b == 1
    then ok quote
    else (if b == 2
        then ok trade
        else (if b == 3
            then ok trade_quote
            else (if b == 4
                then ok open_interest
                else (if b == 5
                    then ok investor_stats
                    else (if b == 6
                        then ok snapshot_delta
                        else (if b == 7
                            then ok price_limit
                            else (if b == 8
                                then ok market_schedule
                                else (if b == 9
                                    then ok heartbeat
                                    else (if b == 10
                                        then ok dynamic_price_limit
                                        else err (WireError.kind b))))))))))

pub data Venue : Type 0 where
  krx nxt smbs binance_spot binance_futures upbit bithumb okx : Venue
  bybit_spot bybit_linear bitget_spot bitget_linear gate_spot kucoin_spot kucoin_futures : Venue

-- `Venue::from_u8`
unfoldable pub venue_of : ℕ → Option Venue
venue_of b =
    if b == 0
    then some krx
    else (if b == 1
        then some nxt
        else (if b == 2
            then some smbs
            else (if b == 3
                then some binance_spot
                else (if b == 4
                    then some binance_futures
                    else (if b == 5
                        then some upbit
                        else (if b == 6
                            then some bithumb
                            else (if b == 7
                                then some okx
                                else (if b == 8
                                    then some bybit_spot
                                    else (if b == 9
                                        then some bybit_linear
                                        else (if b == 10
                                            then some bitget_spot
                                            else (if b == 11
                                                then some bitget_linear
                                                else (if b == 12
                                                    then some gate_spot
                                                    else (if b == 13
                                                        then some kucoin_spot
                                                        else (if b == 14
                                                            then some kucoin_futures
                                                            else none))))))))))))))

pub data Scale : Type 0 where
  s0 s1 s2 s3 s4 s5 s6 s7 s8 : Scale

abbrev pub decimals : Scale → ℕ
decimals s0 = 0
decimals s1 = 1
decimals s2 = 2
decimals s3 = 3
decimals s4 = 4
decimals s5 = 5
decimals s6 = 6
decimals s7 = 7
decimals s8 = 8

-- `Scale::from_decimals`
unfoldable pub from_decimals : ℕ → Option Scale
from_decimals n =
    if n == 0
    then some s0
    else (if n == 1
        then some s1
        else (if n == 2
            then some s2
            else (if n == 3
                then some s3
                else (if n == 4
                    then some s4
                    else (if n == 5
                        then some s5
                        else (if n == 6
                            then some s6
                            else (if n == 7
                                then some s7
                                else (if n == 8 then some s8 else none))))))))

abbrev pub symbol_len : ℕ
symbol_len = 24

-- The loop of `symbol_from_bytes`: what is left of the array stays zero.
unfoldable pub fill_symbol : ℕ → List ℕ → Option (List ℕ)
fill_symbol room [] = some (replicate room 0)
fill_symbol room (b ∷ bs) =
    let rest = fill_symbol (room - 1) bs in
    if b == 0 then none else elim rest [ none ↦ none | some more ↦ some (b ∷ more) ]

unfoldable pub symbol_from_bytes : List ℕ → Option (List ℕ)
symbol_from_bytes bytes =
    if length bytes == 0 || ltb symbol_len (length bytes)
    then none
    else fill_symbol symbol_len bytes

-- One more than the last place that is not zero, 0 if there is none.
unfoldable pub used_len : List ℕ → ℕ
used_len [] = 0
used_len (b ∷ bs) = let n = used_len bs in if n == 0 then (if b == 0 then 0 else 1) else suc n

unfoldable pub symbol_bytes : List ℕ → List ℕ
symbol_bytes symbol = take (used_len symbol) symbol
