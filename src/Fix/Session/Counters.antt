-- ===== src/Fix/Session/Counters.antt =====
-- What the counters of a session say of the messages that it has seen.
use jeed.Base.{ℕ, ◌+◌, ◌*◌, ◌%◌, ◌^◌, ◌<◌, max, ◌≡◌, refl, ap, ◌∙◌, ◌↔◌, ◌≢◌, arith}
use jeed.Base.{List, [], ◌∷◌, All, Bool, true}
use native.Mathlib.Nat.{mod-eq_of_lt}
use jeed.Fix.Session.{SessionState}
use jeed.Fix.Session.{observe, is_silent, max_one}

-- A framed message, as `observe` sees it.
pub record Arrival : Type 0 where
  pub seq : ℕ
  pub poss_dup : Bool
  pub recv_ns : ℕ

unfoldable pub observe_all : SessionState → List Arrival → SessionState
observe_all s [] = s
observe_all s (a ∷ rest) = observe_all (observe s a.seq a.poss_dup a.recv_ns).0 rest

-- Every number up to the expected one was received, lost, or is accounted for by a message that did
-- not move it; in the counters' arithmetic, which wraps at 2 ^ 64.
abbrev pub Balanced : SessionState → Type 0
Balanced s =
    (s.next_expected + s.duplicates + s.regressions) % 2 ^ 64 ≡ (1 + s.observed + s.lost) % 2 ^ 64

observe-Balanced :
    (s : SessionState) (seq : ℕ) (dup : Bool) (ns : ℕ)
    → Balanced s
    → Balanced (observe s seq dup ns).0
unfolding observe
observe-Balanced s seq dup ns h = ground arith

-- Whatever messages arrive, in whatever order: if the expected number plus the duplicates and the
-- regressions is one plus the observed and the lost, modulo 2 ^ 64, as in a fresh session, it stays so.
pub observe_all-Balanced :
    (s : SessionState) (arrivals : List Arrival) → Balanced s → Balanced (observe_all s arrivals)
unfolding observe_all
observe_all-Balanced s [] h = h
observe_all-Balanced s (a ∷ rest) h =
    observe_all-Balanced (observe s a.seq a.poss_dup a.recv_ns).0 rest
      (observe-Balanced s a.seq a.poss_dup a.recv_ns h)

-- The number behind the highest, of `n - 1` and the numbers that arrived.
abbrev pub behind_highest : ℕ → List Arrival → ℕ
behind_highest n [] = n
behind_highest n (a ∷ rest) = max (a.seq + 1) (behind_highest n rest)

behind_highest-max :
    (n k : ℕ) (arrivals : List Arrival)
    → behind_highest (max k n) arrivals ≡ max k (behind_highest n arrivals)
behind_highest-max n k [] = refl
behind_highest-max n k (a ∷ rest) = rw (behind_highest-max n k rest) (omega arith)

observe-highest :
    (s : SessionState) (a : Arrival)
    → a.seq + 1 < 2 ^ 64
    → (observe s a.seq a.poss_dup a.recv_ns).0.next_expected ≡ max (a.seq + 1) s.next_expected
unfolding observe
observe-highest s a h = ground arith

-- Whatever messages arrive, in whatever order, each with a number below 2 ^ 64 - 1: the expected number
-- ends one above the highest that came, or where it was if none came up to it.
pub observe_all-highest :
    (s : SessionState) (arrivals : List Arrival)
    → All (λ a. a.seq + 1 < 2 ^ 64) arrivals
    → (observe_all s arrivals).next_expected ≡ behind_highest s.next_expected arrivals
unfolding observe_all
observe_all-highest s [] h = refl
observe_all-highest s (a ∷ rest) h =
    observe_all-highest (observe s a.seq a.poss_dup a.recv_ns).0 rest h.1
    ∙ ap (λ (n : ℕ). behind_highest n rest) (observe-highest s a h.0)
    ∙ behind_highest-max s.next_expected (a.seq + 1) rest

-- Where `factor` intervals, one at least, fit 64 bits: the session is reported silent exactly when a
-- heartbeat interval is agreed, a message has come, and more than that many have passed since.
pub is_silent_iff :
    (s : SessionState) (now factor : ℕ)
    → s.heartbeat_interval_ns * max_one factor < 2 ^ 64
    → (is_silent s now factor ≡ true) ↔ (
        (s.heartbeat_interval_ns ≢ 0)
        × (s.last_recv_ns ≢ 0)
        × (s.last_recv_ns + s.heartbeat_interval_ns * max_one factor < now))
unfolding is_silent
is_silent_iff s now factor h = ground (arith, mod-eq_of_lt h)
