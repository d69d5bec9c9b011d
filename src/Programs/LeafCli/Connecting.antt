-- ===== src/Programs/LeafCli/Connecting.antt =====
-- leaf/main.c, lines 77 to 88 and 97 to 105: the wait for the handshake, and the end of the input.
use arbor_mq.Base.{
  ℕ, zero, suc, ◌<◌, ◌≡◌, refl, Bool, true, false, Option, none, some, ltb, if◌then◌else◌, ◌>>=◌,
  arith, Returns, Bool-cases, inl, inr, lt→ltb,
}
use arbor_mq.Leaf.State.{Leaf, clock_read, call, now_ms}
use arbor_mq.Leaf.Client.{leaf_destroy, leaf_is_ready}
use arbor_mq.Leaf.Poll.{since}
use arbor_mq.Programs.LeafCli.{
  poll_100, Waited, is_ready, gave_up, still_waiting, waited_on, wait_ready,
}

-- The client and the clock after a number of rounds of the wait that all go on.
abbrev pub waits : ℕ → Leaf → Option Leaf
waits zero c = poll_100 c
waits (suc n) c = poll_100 c >>= (λ c'. waits n (call c' clock_read))

-- The wait is over: the client is ready, or it has been destroyed.
abbrev pub IsSettled : Waited → Type 0
IsSettled (is_ready c) = leaf_is_ready c ≡ true
IsSettled (gave_up c) = (d : Leaf) × (c ≡ leaf_destroy d)
IsSettled (still_waiting c) = ⊥

-- Where the rounds of the wait do not fault, and the clock is ten seconds past the start after the round
-- `n`, the wait ends within any larger number of rounds: with a client that is ready, or with a timeout,
-- and then the client is destroyed.
pub wait_ready_ends :
    (n rounds start : ℕ) (c : Leaf)
    → Returns (λ d. 10000 < since (now_ms d) start) (waits n c)
    → n < rounds
    → Returns IsSettled (wait_ready rounds start c)
unfolding wait_ready
wait_ready_ends n zero start c h k = absurd (omega arith)
wait_ready_ends zero (suc rounds) start c h k = elim (Bool-cases (leaf_is_ready c)) [
  | inl r ↦ rw r r
  | inr r ↦ rw r (at (poll_100 c) h)
]
  where
    at :
        (o : Option Leaf)
        → Returns (λ d. 10000 < since (now_ms d) start) o
        → Returns IsSettled (o >>= waited_on (wait_ready rounds start) start)
    at none g = g
    at (some d) g = rw (lt→ltb 10000 (since (now_ms d) start) g) (call d clock_read, refl)
wait_ready_ends (suc n) (suc rounds) start c h k = elim (Bool-cases (leaf_is_ready c)) [
  | inl r ↦ rw r r
  | inr r ↦ rw r (
      at (poll_100 c) h (λ d g. wait_ready_ends n rounds start (call d clock_read) g (omega arith)))
]
  where
    later :
        (t : Bool) (d : Leaf)
        → Returns IsSettled (wait_ready rounds start (call d clock_read))
        → Returns IsSettled (
            if t
            then some (gave_up (leaf_destroy (call d clock_read)))
            else wait_ready rounds start (call d clock_read))
    later true d g = (call d clock_read, refl)
    later false d g = g

    at :
        (o : Option Leaf)
        → Returns (λ d. 10000 < since (now_ms d) start) (o >>= (λ c'. waits n (call c' clock_read)))
        → ((d : Leaf)
            → Returns (λ e. 10000 < since (now_ms e) start) (waits n (call d clock_read))
            → Returns IsSettled (wait_ready rounds start (call d clock_read)))
        → Returns IsSettled (o >>= waited_on (wait_ready rounds start) start)
    at none g f = g
    at (some d) g f = later (ltb 10000 (since (now_ms d) start)) d (f d g)
