-- ===== src/Fix/Recv/SymbolFilter/Keys.antt =====
-- The keys that a symbol filter holds: what it was given, sorted.
use jeed.Base.{ℕ, List, [], ◌∷◌, Bool, true, ◌&&◌, ◌||◌, map, ◌==◌, leb, length}
use jeed.Base.{◌≤◌, ◌≡◌, refl, sym, ap, subst, ◌∙◌, arith, same_bytes, Bool-cases, inl, inr}
use jeed.Fix.Recv.SymbolFilter.{key_of, precedes, sorted_insert, new_filter, allows, binary_search}
use jeed.Fix.Recv.SymbolFilter.Search.{holds, Below, IsSorted, same_bytes→eq, precedes_either}
use jeed.Fix.Recv.SymbolFilter.Search.{binary_search-holds}

or_twice : (a b : Bool) → (a || b) ≡ (a || (a || b))
or_twice a b = ground arith

holds-sorted_insert :
    (key : List ℕ) (ks : List (List ℕ)) (k : List ℕ)
    → holds (sorted_insert key ks) k ≡ (same_bytes key k || holds ks k)
unfolding sorted_insert holds
holds-sorted_insert key [] k = refl
holds-sorted_insert key (j ∷ js) k = elim (Bool-cases (same_bytes key j)) [
  | inl same ↦ rw same (
      subst
        (λ t. (same_bytes j k || holds js k) ≡ (same_bytes t k || (same_bytes j k || holds js k)))
        (sym (same_bytes→eq key j same)) (or_twice (same_bytes j k) (holds js k)))
  | inr other ↦ elim (Bool-cases (precedes key j)) [
    | inl before ↦ rw (other, before) refl
    | inr after ↦ rw (other, after, holds-sorted_insert key js k) (ground arith)
  ]
]

holds-new_filter :
    (symbols : List (List ℕ)) (k : List ℕ)
    → holds (new_filter symbols) k ≡ holds (map key_of symbols) k
unfolding new_filter holds
holds-new_filter [] k = refl
holds-new_filter (s ∷ ss) k =
    holds-sorted_insert (key_of s) (new_filter ss) k
    ∙ ap (λ b. same_bytes (key_of s) k || b) (holds-new_filter ss k)

length-sorted_insert : (key : List ℕ) (ks : List (List ℕ)) → 1 ≤ length (sorted_insert key ks)
unfolding sorted_insert
length-sorted_insert key [] = omega arith
length-sorted_insert key (k ∷ ks) = ground arith

Below-sorted_insert :
    (key k : List ℕ) (ks : List (List ℕ))
    → precedes k key ≡ true
    → Below k ks
    → Below k (sorted_insert key ks)
unfolding sorted_insert
Below-sorted_insert key k [] h below = h
Below-sorted_insert key k (j ∷ js) h below = ground arith

sorted_insert-IsSorted :
    (key : List ℕ) (ks : List (List ℕ)) → IsSorted ks → IsSorted (sorted_insert key ks)
unfolding sorted_insert
sorted_insert-IsSorted key [] h = (tt, tt)
sorted_insert-IsSorted key (k ∷ ks) h = elim (Bool-cases (same_bytes key k)) [
  | inl same ↦ rw same h
  | inr other ↦ elim (Bool-cases (precedes key k)) [
    | inl before ↦ rw (other, before) (before, h)
    | inr after ↦
        rw (other, after)
          (
            Below-sorted_insert key k ks (precedes_either key k other after) h.0,
            sorted_insert-IsSorted key ks h.1,
          )
  ]
]

-- The keys of a filter are strictly increasing, each there once, which is what `binary_search` needs.
pub new_filter-IsSorted : (symbols : List (List ℕ)) → IsSorted (new_filter symbols)
unfolding new_filter
new_filter-IsSorted [] = tt
new_filter-IsSorted (s ∷ ss) =
    sorted_insert-IsSorted (key_of s) (new_filter ss) (new_filter-IsSorted ss)

-- A filter made of symbols allows exactly these, cut to 32 bytes and padded, and every symbol if it was
-- given none: the binary search finds a key among the sorted ones exactly if it was given.
pub allows-new_filter :
    (symbols : List (List ℕ)) (symbol : List ℕ)
    → allows (new_filter symbols) symbol ≡ (
        length symbols == 0
        || (leb (length symbol) 32 && holds (map key_of symbols) (key_of symbol)))
unfolding new_filter holds
allows-new_filter [] symbol = refl
allows-new_filter (s ∷ ss) symbol =
    ground (arith, length-sorted_insert (key_of s) (new_filter ss), found)
  where
    found :
        binary_search (length (new_filter (s ∷ ss))) (key_of symbol) (new_filter (s ∷ ss))
        ≡ holds (map key_of (s ∷ ss)) (key_of symbol)
    found =
        binary_search-holds (length (new_filter (s ∷ ss))) (key_of symbol) (new_filter (s ∷ ss))
          (omega arith) (new_filter-IsSorted (s ∷ ss))
        ∙ holds-new_filter (s ∷ ss) (key_of symbol)
