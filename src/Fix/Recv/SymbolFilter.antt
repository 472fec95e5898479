-- ===== src/Fix/Recv/SymbolFilter.antt =====
-- crates/jeed-fix/src/recv/filter.rs: the symbols to keep. The boxed slice is a list of padded keys, and
-- a lookup halves it as `binary_search` does, whether it is sorted or not.
pub mod Search
pub mod Keys
use jeed.Base.{
  ℕ, zero, suc, ◌-◌, ◌/◌, drop, List, [], ◌∷◌, ◌++◌, Bool, true, false, not, ◌&&◌, ◌||◌,
}
use jeed.Base.{if◌then◌else◌, ltb, ◌==◌, length, take, replicate, same_bytes, min}
use jeed.Fix.Value.{fix_text_len, as_bytes, is_empty_text}
use jeed.Fix.MarketData.Entry.{MdMessage, MdEntry}

-- A symbol's bytes, padded with zeros.
abbrev pub key_of : List ℕ → List ℕ
key_of s = let n = min (length s) fix_text_len in take n s ++ replicate (fix_text_len - n) 0

-- The order of the padded keys, byte by byte.
unfoldable pub precedes : List ℕ → List ℕ → Bool
precedes [] [] = false
precedes [] (b ∷ bs) = true
precedes (a ∷ more) [] = false
precedes (a ∷ more) (b ∷ bs) =
    let rest = precedes more bs in if ltb a b then true else (if a == b then rest else false)

-- A key put in its place, unless it is there.
unfoldable pub sorted_insert : List ℕ → List (List ℕ) → List (List ℕ)
sorted_insert key [] = key ∷ []
sorted_insert key (k ∷ ks) =
    let rest = sorted_insert key ks in
    if same_bytes key k then k ∷ ks else (if precedes key k then key ∷ k ∷ ks else k ∷ rest)

-- The sorted keys of `SymbolFilter::new`, each once.
unfoldable pub new_filter : List (List ℕ) → List (List ℕ)
new_filter [] = []
new_filter (s ∷ ss) = sorted_insert (key_of s) (new_filter ss)

-- One round of the search: the key in the middle, and the halves below and above it.
abbrev pub probe : (List (List ℕ) → Bool) → List ℕ → List (List ℕ) → List (List ℕ) → Bool
probe search key below [] = false
probe search key below (mid ∷ above) =
    let lower = search below in
    let upper = search above in
    if same_bytes mid key then true else (if precedes key mid then lower else upper)

-- `binary_search(..).is_ok()`, with the rounds that are allowed: each leaves half of the keys at most, so
-- as many rounds as there are keys are enough.
unfoldable pub binary_search : ℕ → List ℕ → List (List ℕ) → Bool
binary_search zero key ks = false
binary_search (suc fuel) key ks =
    probe (λ part. binary_search fuel key part) key (take (length ks / 2) ks)
      (drop (length ks / 2) ks)

abbrev pub allows : List (List ℕ) → List ℕ → Bool
allows allow symbol =
    if length allow == 0
    then true
    else (if ltb fix_text_len (length symbol)
        then false
        else binary_search (length allow) (key_of symbol) allow)

-- The loop over the entries, and `!named` after it.
abbrev pub allows_entry : List (List ℕ) → Bool → List MdEntry → Bool
allows_entry allow named [] = not named
allows_entry allow named (e ∷ es) =
    if is_empty_text e.symbol
    then allows_entry allow named es
    else (if allows allow (as_bytes e.symbol) then true else allows_entry allow true es)

unfoldable pub allows_message : List (List ℕ) → MdMessage → Bool
allows_message allow msg =
    if length allow == 0
    then true
    else (if not (is_empty_text msg.symbol) && allows allow (as_bytes msg.symbol)
        then true
        else allows_entry allow (not (is_empty_text msg.symbol)) msg.entries)
