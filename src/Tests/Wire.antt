-- ===== src/Tests/Wire.antt =====
-- A header that is too deep, and a symbol.
use jeed.Base.{ℕ, List, [], ◌∷◌, some, err, arith, refl, ◌≡◌, length}
use jeed.Wire.Error.{WireError}
use jeed.Wire.Types.{symbol_from_bytes, symbol_bytes}
use jeed.Wire.Header.{RecordHeader, new_header, validate}
use jeed.Wire.Valid.{validate_lem}
use jeed.Wire.Symbol.{symbol_bytes-symbol_from_bytes}

abbrev pair : List ℕ
pair = b'E' ∷ b'U' ∷ []

abbrev deep : RecordHeader
deep = record (new_header 1 7 pair 5) { depth = 11 }

validate_lem_example : validate deep ≡ err (WireError.depth 11 10)
validate_lem_example = validate_lem deep

symbol_bytes-symbol_from_bytes_example :
    (symbol : List ℕ) × (symbol_from_bytes pair ≡ some symbol)
    × (length symbol ≡ 24)
    × (symbol_bytes symbol ≡ pair)
symbol_bytes-symbol_from_bytes_example =
    symbol_bytes-symbol_from_bytes pair (refl, (refl, tt)) (omega arith) (omega arith)
