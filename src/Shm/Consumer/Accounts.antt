-- ===== src/Shm/Consumer/Accounts.antt =====
-- What a consumer's answers add up to.
use jeed.Base.{ℕ, ◌+◌, ◌≡◌, ◌∙◌, sym, arith, List, [], ◌∷◌, All}
use jeed.Shm.Consumer.{
  RingConsumer, Recv, received, empty, lagged, restarted, Loads, reseat, try_recv,
}
use jeed.Shm.Consumer.{try_recv_all}

-- The sequence numbers that an answer accounts for.
abbrev pub count_of : Recv → ℕ
count_of received = 1
count_of empty = 0
count_of (lagged lost) = lost
count_of (restarted boot_id) = 0

abbrev pub total : List Recv → ℕ
total [] = 0
total (r ∷ rs) = count_of r + total rs

try_recv-count :
    (c : RingConsumer) (l : Loads)
    → l.boot_id ≡ c.boot_id
    → let (r, c') = try_recv c l in
      (c'.next_seq ≡ c.next_seq + count_of r) × (c'.boot_id ≡ c.boot_id)
unfolding try_recv reseat
try_recv-count c l h = ground arith

-- While the producer is not restarted, whatever the loads of any number of calls return: each sequence
-- number that the consumer moves over is either a record that it returned or counted in a `Lagged`.
pub try_recv_all-total :
    (boot : ℕ) (c : RingConsumer) (ls : List Loads)
    → c.boot_id ≡ boot
    → All (λ (l : Loads). l.boot_id ≡ boot) ls
    → let (rs, c') = try_recv_all c ls in c'.next_seq ≡ c.next_seq + total rs
unfolding try_recv_all
try_recv_all-total boot c [] same h = omega arith
try_recv_all-total boot c (l ∷ ls) same h =
    let (moved, kept) = try_recv-count c l (h.0 ∙ sym same) in
    omega (arith, moved, try_recv_all-total boot (try_recv c l).1 ls (kept ∙ same) h.1)
