-- ===== src/Broker/Safe/Poll.antt =====
-- branch_broker.h, lines 244 to 361: the event loop, and every broker that it brings about.
use arbor_mq.Base.{
  ℕ, zero, suc, ◌+◌, ◌≡◌, refl, Bool, true, false, Option, none, some, List, ◌∷◌, ReturnsUnless,
  ReturnsUnless-weaken, ReturnsUnless-bind, Returns, if_keeps, inl, inr, if◌then◌else◌, ◌≤◌, leb→le,
  leb, ◌⊎◌,
}
use arbor_mq.Broker.State.{
  Broker, SelectResult, selected, timed_out, interrupted, select_failed, client_at, record_effect,
  max_clients, select_tried,
}
use arbor_mq.Broker.Send.{Status, success, failure, client_send}
use arbor_mq.Broker.Forward.{is_disconnected}
use arbor_mq.Broker.Receive.{client_recv, check_keepalive}
use arbor_mq.Broker.Poll.{
  accept_connection, is_set, is_past, watched_read, watched_write, after_recv, after_client_send,
  client_io, io_loop, finish_poll, after_select, poll_on, branch_poll,
}
use arbor_mq.Broker.Safe.{Safe, Safe-if, close_client-Safe}
use arbor_mq.Broker.Safe.Descriptors.{PastSet, is_past-PastSet}
use arbor_mq.Broker.Safe.Sockets.{client_send-Safe, accept_connection-Safe}
use arbor_mq.Broker.Safe.Process.{SafeUnless}
use arbor_mq.Broker.Safe.Receive.{
  ReceivesDisconnect, asked, answer, client_recv-Safe, check_keepalive-Safe,
}

after_recv-Safe : (i : ℕ) (x : Broker × Status) → Safe x.0 → Returns Safe (after_recv i x)
after_recv-Safe i (b, failure) s = close_client-Safe b i s
after_recv-Safe i (b, success) s =
    if_keeps (Returns Safe) (is_disconnected (client_at b i).state) (close_client-Safe b i s) s

-- What the loop does for a client before it reads.
abbrev pub written : List ℕ → Broker → ℕ → ℕ → Broker × Status
written wfds b i fd = if is_set fd wfds then client_send b i else (b, success)

-- The loop over the clients comes to one that is ready to read, and whose input then holds a complete
-- DISCONNECT packet, or to one whose descriptor is behind the end of an `fd_set`.
pub data PollMeets (rfds wfds : List ℕ) : ℕ → ℕ → Broker → Type 0 where
  at_client :
      {rounds i : ℕ} {b : Broker} (fd : ℕ) (b' : Broker)
      → (client_at b i).fd ≡ some fd
      → written wfds b i fd ≡ (b', success)
      → is_set fd rfds ≡ true
      → ReceivesDisconnect (asked b' i) i (answer b' i)
      → PollMeets rfds wfds (suc rounds) i b
  past_set :
      {rounds i : ℕ} {b : Broker} (fd : ℕ)
      → (client_at b i).fd ≡ some fd
      → b.os.fd_setsize ≤ fd
      → PollMeets rfds wfds (suc rounds) i b
  behind :
      {rounds i : ℕ} {b : Broker} (b' : Broker)
      → client_io rfds wfds b i (client_at b i).fd ≡ some b'
      → PollMeets rfds wfds rounds (i + 1) b'
      → PollMeets rfds wfds (suc rounds) i b

-- A test whose failure is the reason of a fault.
guarded :
    {A : Type 0} (P : A → Type 0) (D : Type 0) (r : Option A) (t : Bool)
    → (t ≡ true → D)
    → ReturnsUnless P D r
    → ReturnsUnless P D (if t then none else r)
guarded P D r true d h = inr (d refl, refl)
guarded P D r false d h = h

client_io-Safe :
    (rfds wfds : List ℕ) (rounds : ℕ) (b : Broker) (i : ℕ) (o : Option ℕ)
    → (client_at b i).fd ≡ o
    → Safe b
    → ReturnsUnless Safe (PollMeets rfds wfds (suc rounds) i b) (client_io rfds wfds b i o)
client_io-Safe rfds wfds rounds b i none e s = inl s
client_io-Safe rfds wfds rounds b i (some fd) e s =
    guarded Safe D _ (leb b.os.fd_setsize fd) (λ t. past_set fd e (leb→le b.os.fd_setsize fd t))
      (sent_first (written wfds b i fd) refl
        (if_keeps (λ (x : Broker × Status). Safe x.0) (is_set fd wfds) (client_send-Safe b i s) s))
  where
    D : Type 0
    D = PollMeets rfds wfds (suc rounds) i b

    read :
        (t : Bool) (b' : Broker)
        → is_set fd rfds ≡ t
        → written wfds b i fd ≡ (b', success)
        → Safe b'
        → ReturnsUnless (λ x. Safe x.0) D (if t then client_recv b' i else some (b', success))
    read true b' t q s' =
        ReturnsUnless-weaken (λ x. Safe x.0) (λ x. Safe x.0)
          (ReceivesDisconnect (asked b' i) i (answer b' i)) D (client_recv b' i) (λ x y. y)
          (λ m. at_client fd b' e q t m) (client_recv-Safe b' i s')
    read false b' t q s' = inl s'

    sent_first :
        (x : Broker × Status)
        → written wfds b i fd ≡ x
        → Safe x.0
        → ReturnsUnless Safe D (after_client_send i (is_set fd rfds) x)
    sent_first (b', failure) q s' = inl (close_client-Safe b' i s')
    sent_first (b', success) q s' =
        ReturnsUnless-bind (λ x. Safe x.0) Safe D _ (after_recv i)
          (read (is_set fd rfds) b' refl q s') (λ x _ s''. inl (after_recv-Safe i x s''))

io_loop-Safe :
    (rounds i : ℕ) (rfds wfds : List ℕ) (b : Broker)
    → Safe b
    → ReturnsUnless Safe (PollMeets rfds wfds rounds i b) (io_loop rounds i rfds wfds b)
unfolding io_loop
io_loop-Safe zero i rfds wfds b s = inl s
io_loop-Safe (suc rounds) i rfds wfds b s =
    let D = PollMeets rfds wfds (suc rounds) i b in
    ReturnsUnless-bind Safe Safe D (client_io rfds wfds b i (client_at b i).fd) _
      (client_io-Safe rfds wfds rounds b i (client_at b i).fd refl s)
      (λ b' e s'.
        ReturnsUnless-weaken Safe Safe (PollMeets rfds wfds rounds (i + 1) b') D
          (io_loop rounds (i + 1) rfds wfds b') (λ c t. t) (λ m. behind b' e m)
          (io_loop-Safe rounds (i + 1) rfds wfds b' s'))

-- The broker in front of the loop over the clients.
abbrev pub accepted_first : Broker → ℕ → List ℕ → Broker
accepted_first b fd rfds = if is_set fd rfds then accept_connection b fd else b

-- The sockets that `select` is asked about, and the broker behind the call.
abbrev pub selecting : Broker → Option ℕ → ℕ → Broker
selecting b timeout fd =
    record_effect b (select_tried (fd ∷ watched_read b.clients) (watched_write b.clients) timeout)

-- The loop over the clients comes to a reason for a fault.
abbrev pub SelectFaults : Broker → ℕ → SelectResult → Type 0
SelectFaults b fd r =
    (rfds : List ℕ) × (wfds : List ℕ) × (r ≡ selected rfds wfds)
    × PollMeets rfds wfds max_clients 0 (accepted_first b fd rfds)

finish_poll-Safe :
    (D : Type 0) (r : Option Broker) → ReturnsUnless Safe D r → SafeUnless D (finish_poll r)
finish_poll-Safe D none (inl h) = absurd h
finish_poll-Safe D none (inr (d, e)) = inr (d, refl)
finish_poll-Safe D (some b) (inl h) = inl h
finish_poll-Safe D (some b) (inr (d, e)) = absurd (cc)

after_select-Safe :
    (b : Broker) (fd : ℕ) (r : SelectResult)
    → Safe b
    → SafeUnless (SelectFaults b fd r) (after_select b fd r)
after_select-Safe b fd select_failed s = inl s
after_select-Safe b fd interrupted s = inl s
after_select-Safe b fd timed_out s =
    finish_poll-Safe (SelectFaults b fd timed_out) (check_keepalive b)
      (inl (check_keepalive-Safe b s))
after_select-Safe b fd (selected rfds wfds) s =
    let D = SelectFaults b fd (selected rfds wfds) in
    let b' = accepted_first b fd rfds in
    let s' =
      Safe-if (is_set fd rfds) (accept_connection b fd) b (accept_connection-Safe b fd s) s in
    finish_poll-Safe D _ (
      ReturnsUnless-bind Safe Safe D (io_loop max_clients 0 rfds wfds b') check_keepalive
        (ReturnsUnless-weaken Safe Safe (PollMeets rfds wfds max_clients 0 b') D
          (io_loop max_clients 0 rfds wfds b') (λ c t. t) (λ m. (rfds, wfds, refl, m))
          (io_loop-Safe max_clients 0 rfds wfds b' s'))
        (λ c _ t. inl (check_keepalive-Safe c t)))

-- The reasons for a poll to fault: a descriptor that it watches is behind the end of an `fd_set`, or
-- a socket that it comes to is, or has brought a complete DISCONNECT packet.
abbrev pub PollFaults : Broker → Option ℕ → Option ℕ → Type 0
PollFaults b timeout none = ⊥
PollFaults b timeout (some fd) =
    PastSet b fd
    ⊎ SelectFaults (selecting b timeout fd) fd
        (b.os.select b.log (fd ∷ watched_read b.clients) (watched_write b.clients) timeout)

poll_on-Safe :
    (b : Broker) (timeout o : Option ℕ)
    → Safe b
    → SafeUnless (PollFaults b timeout o) (poll_on b timeout o)
poll_on-Safe b timeout none s = inl s
poll_on-Safe b timeout (some fd) s =
    let D = PollFaults b timeout (some fd) in
    let r = b.os.select b.log (fd ∷ watched_read b.clients) (watched_write b.clients) timeout in
    let a = selecting b timeout fd in
    guarded (λ (x : Broker × Status). Safe x.0) D (after_select a fd r)
      (is_past b.os.fd_setsize (fd ∷ watched_read b.clients)) (λ t. inl (is_past-PastSet b fd t))
      (ReturnsUnless-weaken (λ x. Safe x.0) (λ x. Safe x.0) (SelectFaults a fd r) D
        (after_select a fd r) (λ x y. y) (λ d. inr d) (after_select-Safe a fd r s))

-- In a safe broker `branch_poll` returns a safe broker, or there is one of the reasons for a fault, and
-- then it faults.
pub branch_poll-Safe :
    (b : Broker) (timeout : Option ℕ)
    → Safe b
    → SafeUnless (PollFaults b timeout b.listen_fd) (branch_poll b timeout)
unfolding branch_poll
branch_poll-Safe b timeout s = poll_on-Safe b timeout b.listen_fd s
