-- ===== src/Shm/Race/Invariant.antt =====
-- The sequence lock: what stays true through every interleaving.
use jeed.Base.{ℕ, suc, ◌+◌, ◌≤◌, ◌<◌, ◌≡◌, ◌≢◌, ◌⊎◌, inl, inr, refl, sym, ap, ◌∙◌, arith}
use mathlib.Core.Path.{subst}
use native.Mathlib.Decide.{ℕ_discrete}
use jeed.Shm.Ring.{seq_in_progress, seq_word, record_words, slot_index}
use jeed.Shm.Race.{
  Memory, store, Phase, between, claimed, stamped, Reader, outside, wanting, copying, returned,
  World, set_word, record_history, Step, claim, write, abandon, stamp, publish, load_cursor,
  first_check, copy, second_check, leave, Start, Reach, here, next,
}

-- One past the newest sequence that a slot has carried.
abbrev pub upto_of : Phase → ℕ → ℕ
upto_of stamped n = n + 1
upto_of _ n = n

abbrev pub upto : World → ℕ
upto w = upto_of w.phase w.next_seq

store-cases :
    (m : Memory) (j i v a b x : ℕ)
    → store m j i v a b ≡ x
    → ((a ≡ j) × (b ≡ i) × (v ≡ x)) ⊎ (m a b ≡ x)
store-cases m j i v a b x h = ground arith

store-hit : (m : Memory) (j i v b : ℕ) → i ≡ b → store m j i v j b ≡ v
store-hit m j i v b h = ground arith

store-other : (m : Memory) (j i v a b : ℕ) → (a ≡ j → b ≢ i) → store m j i v a b ≡ m a b
store-other m j i v a b h = ground arith

module _ (mask : ℕ) (Foreign : ℕ → Type 0) where
  -- The words of `s` as far as `n`, but for its sequence, are in `out`.
  abbrev pub Copied : World → ℕ → ℕ → (ℕ → ℕ) → Type 0
  Copied w s n out = (i : ℕ) → i < n → i ≢ seq_word → out i ≡ w.history s i

  abbrev pub Holds : World → ℕ → Type 0
  Holds w s = w.cells (slot_index s mask) seq_word ≡ s

  abbrev pub ReaderOk : World → Reader → Type 0
  ReaderOk w outside = Unit {0}
  ReaderOk w (wanting s) = s < upto w
  ReaderOk w (copying s n out) = (s < upto w) × (¬ Foreign s → Holds w s → Copied w s n out)
  ReaderOk w (returned s out) = (s < upto w) × (¬ Foreign s → Copied w s record_words out)

  pub record Inv (w : World) : Type 0 where
    pub behind : w.cursor ≤ w.next_seq
    pub bounded : upto w ≤ seq_in_progress
    pub marked :
        w.phase ≡ claimed
        → let v = w.cells (slot_index w.next_seq mask) seq_word in (v ≡ seq_in_progress) ⊎ Foreign v
    pub held :
        (s : ℕ)
        → s < upto w
        → ¬ Foreign s
        → Holds w s
        → (i : ℕ) → i ≢ seq_word
        → w.cells (slot_index s mask) i ≡ w.history s i
    pub reading : ReaderOk w w.reader

  -- Between two states: no sequence is forgotten or carried again, and no history rewritten.
  record Follows (w w' : World) : Type 0 where
    grows : upto w ≤ upto w'
    once : (s : ℕ) → s < upto w → ¬ Foreign s → Holds w' s → Holds w s
    kept : (s i : ℕ) → s < upto w → w'.history s i ≡ w.history s i

  Follows-ReaderOk : {w w' : World} (r : Reader) → Follows w w' → ReaderOk w r → ReaderOk w' r
  Follows-ReaderOk outside f h = tt
  Follows-ReaderOk (wanting s) f h = omega (arith, f.grows)
  Follows-ReaderOk (copying s n out) f h = (
    omega (arith, f.grows, h.0),
    λ safe holds i lt ne. h.1 safe (f.once s h.0 safe holds) i lt ne ∙ sym (f.kept s i h.0),
  )
  Follows-ReaderOk (returned s out) f h =
      (omega (arith, f.grows, h.0), λ safe i lt ne. h.1 safe i lt ne ∙ sym (f.kept s i h.0))

  -- The states that the producer's accesses lead to.
  module _ (w : World) where
    abbrev slot : ℕ
    slot = slot_index w.next_seq mask

    abbrev claimed_world : World
    claimed_world = record w {
      cells = store w.cells slot seq_word seq_in_progress;
      phase = claimed;
    }

    abbrev written_world : ℕ → ℕ → World
    written_world i v = record w { cells = store w.cells slot i v }

    abbrev stamped_world : World
    stamped_world = record w {
      cells = store w.cells slot seq_word w.next_seq;
      phase = stamped;
      history = record_history w.history w.next_seq (w.cells slot);
    }

    abbrev published_world : World
    published_world = record w {
      next_seq = w.next_seq + 1;
      cursor = w.next_seq + 1;
      phase = between;
    }

  claim-Follows : {w : World} → Inv w → w.phase ≡ between → Follows w (claimed_world w)
  claim-Follows {w} v e = record {
    grows = ground arith;
    once = λ s lt safe holds. ground arith;
    kept = λ s i lt. refl;
  }

  write-Follows :
      {w : World} (i x : ℕ)
      → Inv w
      → w.phase ≡ claimed
      → (i ≡ seq_word → Foreign x)
      → Follows w (written_world w i x)
  write-Follows {w} i x v e foreign = record {
    grows = omega arith;
    once = λ s lt safe holds.
        elim (store-cases w.cells (slot w) i x (slot_index s mask) seq_word s holds) [
          | inl (_, j, k) ↦ absurd (safe (subst Foreign k (foreign (sym j))))
          | inr old ↦ old
        ];
    kept = λ s j lt. refl;
  }

  stamp-Follows : {w : World} → Inv w → w.phase ≡ claimed → Follows w (stamped_world w)
  stamp-Follows {w} v e = record {
    grows = ground arith;
    once = λ s lt safe holds. ground arith;
    kept = λ s i lt. ground arith;
  }

  publish-Follows : {w : World} → w.phase ≡ stamped → Follows w (published_world w)
  publish-Follows {w} e = record {
    grows = ground arith;
    once = λ s lt safe holds. holds;
    kept = λ s i lt. refl;
  }

  -- A slot that is being filled carries no safe sequence.
  filling-free :
      {w : World}
      → Inv w
      → w.phase ≡ claimed
      → (s : ℕ) → s < upto w
      → ¬ Foreign s
      → Holds w s
      → slot_index s mask ≢ slot w
  filling-free {w} v e s lt safe holds same = unmarked (v.marked e)
    where
      moved : w.cells (slot w) seq_word ≡ s
      moved = subst (λ j. w.cells j seq_word ≡ s) same holds

      unmarked :
          (w.cells (slot w) seq_word ≡ seq_in_progress) ⊎ Foreign (w.cells (slot w) seq_word) → ⊥
      unmarked (inl full) = ground (arith, moved, v.bounded)
      unmarked (inr f) = safe (subst Foreign moved f)

  claim-Inv : {w : World} → Inv w → w.phase ≡ between → Inv (claimed_world w)
  claim-Inv {w} v e = record {
    behind = v.behind;
    bounded = ground (arith, v.bounded);
    marked = λ _. inl (ground arith);
    held = λ s lt safe holds i ne.
        store-other w.cells (slot w) seq_word seq_in_progress (slot_index s mask) i (λ _. ne)
        ∙ v.held s (ground arith) safe ((claim-Follows v e).once s (ground arith) safe holds) i ne;
    reading = Follows-ReaderOk w.reader (claim-Follows v e) v.reading;
  }

  write-Inv :
      {w : World} (i x : ℕ)
      → Inv w
      → w.phase ≡ claimed
      → (i ≡ seq_word → Foreign x)
      → Inv (written_world w i x)
  write-Inv {w} i x v e foreign = record {
    behind = v.behind;
    bounded = v.bounded;
    marked = λ _. still_marked;
    held = λ s lt safe holds j ne.
        let old = (write-Follows i x v e foreign).once s lt safe holds in
        store-other w.cells (slot w) i x (slot_index s mask) j
          (λ same. absurd (filling-free v e s lt safe old same))
        ∙ v.held s lt safe old j ne;
    reading = Follows-ReaderOk w.reader (write-Follows i x v e foreign) v.reading;
  }
    where
      now : ℕ
      now = store w.cells (slot w) i x (slot w) seq_word

      still_marked : (now ≡ seq_in_progress) ⊎ Foreign now
      still_marked = elim (ℕ_discrete i seq_word) [
        | yes p ↦ inr (subst Foreign (sym (store-hit w.cells (slot w) i x seq_word p)) (foreign p))
        | no p ↦
            subst (λ c. (c ≡ seq_in_progress) ⊎ Foreign c)
              (sym (store-other w.cells (slot w) i x (slot w) seq_word (λ _ q. p (sym q))))
              (v.marked e)
      ]

  stamp-Inv :
      {w : World} → Inv w → w.phase ≡ claimed → w.next_seq < seq_in_progress → Inv (stamped_world w)
  stamp-Inv {w} v e room = record {
    behind = v.behind;
    bounded = omega arith;
    marked = λ p. cc;
    held = held;
    reading = Follows-ReaderOk w.reader (stamp-Follows v e) v.reading;
  }
    where
      held :
          (s : ℕ)
          → s < w.next_seq + 1
          → ¬ Foreign s
          → Holds (stamped_world w) s
          → (i : ℕ) → i ≢ seq_word
          → store w.cells (slot w) seq_word w.next_seq (slot_index s mask) i
            ≡ record_history w.history w.next_seq (w.cells (slot w)) s i
      held s lt safe holds i ne = elim (ℕ_discrete s w.next_seq) [
        | yes p ↦
            store-other w.cells (slot w) seq_word w.next_seq (slot_index s mask) i (λ _. ne)
            ∙ ground (arith, ap (λ k. w.cells (slot_index k mask) i) p)
        | no p ↦
            store-other w.cells (slot w) seq_word w.next_seq (slot_index s mask) i (λ _. ne)
            ∙ v.held s (ground arith) safe ((stamp-Follows v e).once s (ground arith) safe holds) i
                ne
            ∙ ground arith
      ]

  publish-Inv : {w : World} → Inv w → w.phase ≡ stamped → Inv (published_world w)
  publish-Inv {w} v e = record {
    behind = omega arith;
    bounded = ground (arith, v.bounded);
    marked = λ p. cc;
    held = λ s lt safe holds i ne. v.held s (ground arith) safe holds i ne;
    reading = Follows-ReaderOk w.reader (publish-Follows {w = w} e) v.reading;
  }

  abandon-Inv : {w : World} → Inv w → w.phase ≡ claimed → Inv (record w { phase = between })
  abandon-Inv {w} v e = record {
    behind = v.behind;
    bounded = ground (arith, v.bounded);
    marked = λ p. cc;
    held = λ s lt safe holds i ne. v.held s (ground arith) safe holds i ne;
    reading = Follows-ReaderOk w.reader same v.reading;
  }
    where
      same : Follows w (record w { phase = between })
      same = record { grows = ground arith; once = λ s lt safe holds. holds; kept = λ s i lt. refl }

  -- The consumer's accesses change nothing but where it stands.
  reader-Inv : {w : World} (r : Reader) → Inv w → ReaderOk w r → Inv (record w { reader = r })
  reader-Inv {w} r v h = record {
    behind = v.behind;
    bounded = v.bounded;
    marked = v.marked;
    held = v.held;
    reading = Follows-ReaderOk r same h;
  }
    where
      same : Follows w (record w { reader = r })
      same = record { grows = omega arith; once = λ s lt safe holds. holds; kept = λ s i lt. refl }

  reading_at : {w : World} {r : Reader} → Inv w → w.reader ≡ r → ReaderOk w r
  reading_at {w} v e = subst (ReaderOk w) e v.reading

  copy-ReaderOk :
      {w : World} (s n : ℕ) (out : ℕ → ℕ)
      → Inv w
      → ReaderOk w (copying s n out)
      → ReaderOk w (copying s (suc n) (set_word out n (w.cells (slot_index s mask) n)))
  copy-ReaderOk {w} s n out v (lt, h) = (
    lt,
    λ safe holds i below ne. elim (ℕ_discrete i n) [
      | yes p ↦ ground (arith, v.held s lt safe holds i ne)
      | no p ↦ ground (arith, h safe holds i (omega arith) ne)
    ],
  )

  pub Step-Inv : {w w' : World} → Step mask Foreign w w' → Inv w → Inv w'
  Step-Inv (claim e room) v = claim-Inv v e
  Step-Inv (write i x e foreign) v = write-Inv i x v e foreign
  Step-Inv (abandon e) v = abandon-Inv v e
  Step-Inv (stamp e room) v = stamp-Inv v e room
  Step-Inv (publish e) v = publish-Inv v e
  Step-Inv (load_cursor s below near) v = reader-Inv (wanting s) v (ground (arith, v.behind))
  Step-Inv (first_check s e holds) v =
      reader-Inv (copying s 0 (λ _. 0)) v (reading_at v e, λ safe h i lt ne. absurd (omega arith))
  Step-Inv (copy s n out e room) v = reader-Inv _ v (copy-ReaderOk s n out v (reading_at v e))
  Step-Inv (second_check s out e holds) v =
      let (lt, h) = reading_at v e in reader-Inv (returned s out) v (lt, λ safe. h safe holds)
  Step-Inv leave v = reader-Inv outside v tt

  Start-Inv : {w : World} → Start mask Foreign w → Inv w
  Start-Inv {w} s = record {
    behind = omega (arith, s.at_zero, s.cursor_zero);
    bounded = ground (arith, s.at_zero, s.quiet);
    marked = λ p. cc (s.quiet);
    held = λ n lt safe holds i ne. absurd (ground (arith, s.at_zero, s.quiet));
    reading = subst (ReaderOk w) (sym s.away) tt;
  }

  pub Reach-Inv : {w w' : World} → Start mask Foreign w → Reach mask Foreign w w' → Inv w'
  Reach-Inv s here = Start-Inv s
  Reach-Inv s (next r st) = Step-Inv st (Reach-Inv s r)

  -- The sequence lock rules out a torn read. Whatever the interleaving, and wherever the producer
  -- abandoned or lapped slots meanwhile: when `try_recv` returns the record of `want`, each of its
  -- words but the sequence is the word that the slot had when `want` was committed to it. The one
  -- condition is that no decoder writes `want` itself into the body's `producer_seq`.
  pub returned-untorn :
      {w w' : World} (want : ℕ) (out : ℕ → ℕ)
      → Start mask Foreign w
      → Reach mask Foreign w w'
      → w'.reader ≡ returned want out
      → ¬ Foreign want
      → (i : ℕ) → i < record_words
      → i ≢ seq_word
      → out i ≡ w'.history want i
  returned-untorn want out s r e safe i lt ne = (reading_at (Reach-Inv s r) e).1 safe i lt ne
