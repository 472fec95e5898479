-- ===== src/Crypto/Ws/Assembly.antt =====
-- crates/jeed-crypto/src/recv/ws/assemble.rs: fragments back into one message.
pub mod Messages
use jeed.Base.{ℕ, ◌+◌, List, [], ◌∷◌, ◌++◌, Bool, true, false, Option, none, some}
use jeed.Base.{Result, ok, err, if◌then◌else◌, ltb, length, take, drop, replicate}
use jeed.Crypto.Ws.Error.{WsError, interleaved_message, unexpected_continuation, message_too_long}
use jeed.Crypto.Ws.Frame.{Opcode}

pub record Assembly : Type 0 where
  pub buf : List ℕ
  pub len : ℕ
  pub opened : Option Opcode

unfoldable pub new : ℕ → Assembly
new capacity = record { buf = replicate capacity 0; len = 0; opened = none }

abbrev pub is_open : Assembly → Bool
is_open a = elim a.opened [ none ↦ false | some op ↦ true ]

abbrev pub bytes : Assembly → List ℕ
bytes a = take a.len a.buf

abbrev pub capacity : Assembly → ℕ
capacity a = length a.buf

unfoldable pub reset : Assembly → Assembly
reset a = record a { len = 0; opened = none }

-- Each answers the buffer too, which an error also changes.
unfoldable pub push : List ℕ → Assembly → Result {0, 0} WsError Unit × Assembly
push fragment a =
    let end = a.len + length fragment in
    if ltb (capacity a) end
    then (err (message_too_long (capacity a)), reset a)
    else (ok tt, record a { buf = take a.len a.buf ++ (fragment ++ drop end a.buf); len = end })

unfoldable pub begin : Opcode → List ℕ → Assembly → Result {0, 0} WsError Unit × Assembly
begin op fragment a =
    if is_open a
    then (err interleaved_message, a)
    else push fragment (record a { len = 0; opened = some op })

unfoldable pub append : List ℕ → Assembly → Result {0, 0} WsError Unit × Assembly
append fragment a = if is_open a then push fragment a else (err unexpected_continuation, a)

-- The message stays in the buffer, but is no longer open.
unfoldable pub take_message : Assembly → Option (Opcode × List ℕ) × Assembly
take_message a = elim a.opened [
  | none ↦ (none, a)
  | some op ↦ (some (op, bytes a), record a { opened = none })
]
