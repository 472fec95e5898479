-- ===== src/Fix/MsgType.antt =====
-- `MsgType` of crates/jeed-fix/src/tagvalue.rs: tag 35.
use jeed.Base.{ℕ, List, [], ◌∷◌, Bool, true, false, ◌==◌, if◌then◌else◌}

pub data MsgType : Type 0 where
  heartbeat test_request resend_request reject sequence_reset logout logon : MsgType
  market_data_request market_data_snapshot market_data_incremental : MsgType
  market_data_request_reject : MsgType
  other : ℕ → MsgType

-- A value of one byte.
unfoldable pub from_byte : ℕ → MsgType
from_byte b =
    if b == b'0'
    then heartbeat
    else (if b == b'1'
        then test_request
        else (if b == b'2'
            then resend_request
            else (if b == b'3'
                then reject
                else (if b == b'4'
                    then sequence_reset
                    else (if b == b'5'
                        then logout
                        else (if b == b'A'
                            then logon
                            else (if b == b'V'
                                then market_data_request
                                else (if b == b'W'
                                    then market_data_snapshot
                                    else (if b == b'X'
                                        then market_data_incremental
                                        else (if b == b'Y'
                                            then market_data_request_reject
                                            else other b))))))))))

unfoldable pub from_value : List ℕ → MsgType
unfolding from_byte
from_value [] = other 0
from_value (b ∷ []) = from_byte b
from_value (b ∷ c ∷ bs) = other b

abbrev pub is_market_data : MsgType → Bool
is_market_data market_data_snapshot = true
is_market_data market_data_incremental = true
is_market_data _ = false

abbrev pub is_admin : MsgType → Bool
is_admin heartbeat = true
is_admin test_request = true
is_admin resend_request = true
is_admin reject = true
is_admin sequence_reset = true
is_admin logout = true
is_admin logon = true
is_admin _ = false
