-- ===== src/Fix/Recv/SymbolFilter/Search.antt =====
-- The order of the padded keys, and the binary search in sorted ones against a walk over all of them.
use jeed.Base.{ℕ, zero, suc, ◌/◌, List, [], ◌∷◌, ◌++◌, Bool, true, false, ◌||◌, take, drop}
use jeed.Base.{
  ◌≤◌, ◌≡◌, refl, sym, ap, ap₂, ==→eq, subst, ◌∙◌, arith, same_bytes, Bool-cases, inl, inr, ◌==◌,
  length,
}
use jeed.Base.{length-take, length-drop, take-append-drop}
use jeed.Fix.Recv.SymbolFilter.{precedes, probe, binary_search}

-- Whether a key is there, found by comparing each.
unfoldable pub holds : List (List ℕ) → List ℕ → Bool
holds [] key = false
holds (k ∷ ks) key = same_bytes k key || holds ks key

-- Strictly increasing, as `binary_search` needs it.
abbrev pub Below : List ℕ → List (List ℕ) → Type 0
Below key [] = Unit
Below key (k ∷ ks) = precedes key k ≡ true

abbrev pub IsSorted : List (List ℕ) → Type 0
IsSorted [] = Unit
IsSorted (k ∷ ks) = Below k ks × IsSorted ks

pub same_bytes→eq : (a b : List ℕ) → same_bytes a b ≡ true → a ≡ b
same_bytes→eq [] [] h = refl
same_bytes→eq [] (y ∷ ys) h = absurd (ground (arith, h))
same_bytes→eq (x ∷ xs) [] h = absurd (ground (arith, h))
same_bytes→eq (x ∷ xs) (y ∷ ys) h = elim (Bool-cases (x == y)) [
  | inl e ↦ ap₂ (λ (z : ℕ) zs. z ∷ zs) (==→eq x y e) (same_bytes→eq xs ys (sym (rw e refl) ∙ h))
  | inr e ↦ absurd (ground (arith, e, h))
]

precedes_itself : (a : List ℕ) → precedes a a ≡ false
unfolding precedes
precedes_itself [] = refl
precedes_itself (x ∷ xs) = ground (arith, precedes_itself xs)

precedes_trans : (a b c : List ℕ) → precedes a b ≡ true → precedes b c ≡ true → precedes a c ≡ true
unfolding precedes
precedes_trans [] [] c h k = absurd (ground (arith, h))
precedes_trans [] (y ∷ ys) [] h k = absurd (ground (arith, k))
precedes_trans [] (y ∷ ys) (z ∷ zs) h k = refl
precedes_trans (x ∷ xs) [] c h k = absurd (ground (arith, h))
precedes_trans (x ∷ xs) (y ∷ ys) [] h k = absurd (ground (arith, k))
precedes_trans (x ∷ xs) (y ∷ ys) (z ∷ zs) h k = ground (arith, precedes_trans xs ys zs, h, k)

-- A key is not one that it comes before.
precedes_other : (a b : List ℕ) → precedes a b ≡ true → same_bytes a b ≡ false
precedes_other a b h = elim (Bool-cases (same_bytes a b)) [
  | inl same ↦
      absurd (cc (sym h ∙ ap (precedes a) (sym (same_bytes→eq a b same)) ∙ precedes_itself a))
  | inr other ↦ other
]

other_way : (a b : List ℕ) → precedes a b ≡ true → same_bytes b a ≡ false
other_way a b h = elim (Bool-cases (same_bytes b a)) [
  | inl same ↦ absurd (cc (sym h ∙ ap (precedes a) (same_bytes→eq b a same) ∙ precedes_itself a))
  | inr other ↦ other
]

IsSorted-split : (xs ys : List (List ℕ)) → IsSorted (xs ++ ys) → IsSorted xs × IsSorted ys
IsSorted-split [] ys h = (tt, h)
IsSorted-split (x ∷ []) ys h = ((tt, tt), h.1)
IsSorted-split (x ∷ z ∷ xs) ys h =
    let rest = IsSorted-split (z ∷ xs) ys h.1 in ((h.0, rest.0), rest.1)

holds-append :
    (xs ys : List (List ℕ)) (key : List ℕ) → holds (xs ++ ys) key ≡ (holds xs key || holds ys key)
unfolding holds
holds-append [] ys key = refl
holds-append (x ∷ xs) ys key = rw (holds-append xs ys key) (ground arith)

-- A key below the first of sorted keys is not among them.
absent_above :
    (key k : List ℕ) (ks : List (List ℕ))
    → precedes key k ≡ true
    → IsSorted (k ∷ ks)
    → holds (k ∷ ks) key ≡ false
unfolding holds
absent_above key k [] h sorted = rw (other_way key k h) refl
absent_above key k (j ∷ js) h sorted =
    rw (other_way key k h) (absent_above key j js (precedes_trans key k j h sorted.0) sorted.1)

first_below :
    (x mid : List ℕ) (xs above : List (List ℕ))
    → IsSorted (x ∷ (xs ++ (mid ∷ above)))
    → precedes x mid ≡ true
first_below x mid [] above sorted = sorted.0
first_below x mid (z ∷ xs) above sorted =
    precedes_trans x z mid sorted.0 (first_below z mid xs above sorted.1)

-- Nor is one above a key of them among those below that key.
absent_below :
    (key mid : List ℕ) (xs above : List (List ℕ))
    → precedes mid key ≡ true
    → IsSorted (xs ++ (mid ∷ above))
    → holds xs key ≡ false
unfolding holds
absent_below key mid [] above h sorted = refl
absent_below key mid (x ∷ xs) above h sorted =
    rw (precedes_other x key (precedes_trans x mid key (first_below x mid xs above sorted) h))
      (absent_below key mid xs above h sorted.1)

pub precedes_either :
    (a b : List ℕ) → same_bytes a b ≡ false → precedes a b ≡ false → precedes b a ≡ true
unfolding precedes
precedes_either [] [] h n = absurd (ground (arith, h))
precedes_either [] (y ∷ ys) h n = absurd (ground (arith, n))
precedes_either (x ∷ xs) [] h n = refl
precedes_either (x ∷ xs) (y ∷ ys) h n = ground (arith, precedes_either xs ys, h, n)

IsSorted-tail : (k : List ℕ) (ks : List (List ℕ)) → IsSorted (k ∷ ks) → IsSorted ks
IsSorted-tail k ks h = h.1

-- Where the key is, of the middle and the halves.
module _ (below above : List (List ℕ)) (mid key : List ℕ) where
  hit : same_bytes mid key ≡ true → holds (below ++ (mid ∷ above)) key ≡ true
  unfolding holds
  hit same = holds-append below (mid ∷ above) key ∙ rw same (ground arith)

  lower_half :
      holds (mid ∷ above) key ≡ false → holds below key ≡ holds (below ++ (mid ∷ above)) key
  lower_half absent = rw (holds-append below (mid ∷ above) key, absent) (ground arith)

  not_first : same_bytes mid key ≡ false → holds (mid ∷ above) key ≡ holds above key
  unfolding holds
  not_first other = rw other refl

  upper_half :
      same_bytes mid key ≡ false
      → holds below key ≡ false
      → holds above key ≡ holds (below ++ (mid ∷ above)) key
  upper_half other absent =
      sym (holds-append below (mid ∷ above) key ∙ rw (absent, not_first other) refl)

module _ (fuel : ℕ) (key : List ℕ) where
  abbrev Finds : List (List ℕ) → Type 0
  Finds part = length part ≤ fuel → IsSorted part → binary_search fuel key part ≡ holds part key

  probe_lem :
      (below rest : List (List ℕ))
      → ((part : List (List ℕ)) → Finds part)
      → IsSorted (below ++ rest)
      → length below ≤ length rest
      → length below ≤ fuel
      → length rest ≤ suc fuel
      → probe (λ part. binary_search fuel key part) key below rest ≡ holds (below ++ rest) key
  unfolding holds
  probe_lem [] [] finds sorted half fits fits' = refl
  probe_lem (x ∷ xs) [] finds sorted half fits fits' = absurd (omega (arith, half))
  probe_lem below (mid ∷ above) finds sorted half fits fits' =
      elim (Bool-cases (same_bytes mid key)) [
        | inl same ↦ rw same (sym (hit below above mid key same))
        | inr other ↦ elim (Bool-cases (precedes key mid)) [
          | inl lower ↦
              rw (other, lower)
                (finds below fits parts.0
                  ∙ lower_half below above mid key (absent_above key mid above lower parts.1))
          | inr upper ↦
              rw (other, upper)
                (finds above (omega (arith, fits')) (IsSorted-tail mid above parts.1)
                  ∙ upper_half below above mid key other
                      (absent_below key mid below above (after other upper) sorted))
        ]
      ]
    where
      parts : IsSorted below × IsSorted (mid ∷ above)
      parts = IsSorted-split below (mid ∷ above) sorted

      after : same_bytes mid key ≡ false → precedes key mid ≡ false → precedes mid key ≡ true
      after other upper = elim (Bool-cases (precedes mid key)) [
        | inl before ↦ before
        | inr not_before ↦ absurd (cc (sym upper ∙ precedes_either mid key other not_before))
      ]

pub binary_search-holds :
    (fuel : ℕ) (key : List ℕ) (ks : List (List ℕ))
    → length ks ≤ fuel
    → IsSorted ks
    → binary_search fuel key ks ≡ holds ks key
unfolding binary_search holds
binary_search-holds zero key [] h sorted = refl
binary_search-holds zero key (k ∷ ks) h sorted = absurd (omega (arith, h))
binary_search-holds (suc fuel) key ks h sorted =
    probe_lem fuel key (take (length ks / 2) ks) (drop (length ks / 2) ks)
      (binary_search-holds fuel key) (subst IsSorted (sym whole) sorted)
      (omega (arith, length-take (length ks / 2) ks, length-drop (length ks / 2) ks))
      (omega (arith, length-take (length ks / 2) ks, h))
      (omega (arith, length-drop (length ks / 2) ks, h))
    ∙ ap (λ l. holds l key) whole
  where
    whole : take (length ks / 2) ks ++ drop (length ks / 2) ks ≡ ks
    whole = take-append-drop (length ks / 2) ks
