-- ===== src/Leaf/Poll/Stall.antt =====
-- leaf_client.h, lines 62, 267 to 309: a connection that `connect` establishes at once.
use arbor_mq.Base.{
  leb, ◌<◌, ℕ, ◌≡◌, ◌≢◌, refl, sym, ap, subst, Bool, true, false, Option, some, List, [], ◌∷◌,
  Returns, Returns-bind, Returns-weaken, ◌>>=◌, if◌then◌else◌, ◌-◌, ltb, arith,
}
use arbor_mq.Broker.State.{
  SelectResult, selected, timed_out, interrupted, select_failed, recv_blocked,
}
use arbor_mq.Broker.Send.{Status, success}
use arbor_mq.Broker.Poll.{is_set}
use arbor_mq.Leaf.State.{
  Leaf, System, Call, established, disconnected, tcp_connected, select_tried, clock_read,
  host_resolved, socket_opened, call, now_ms, leaf_buf_size,
}
use arbor_mq.Leaf.Network.{connect_tcp, recv_and_dispatch}
use arbor_mq.Leaf.Client.{leaf_connect}
use arbor_mq.Leaf.Poll.{leaf_poll, reconnect, after_select, after_read, on_readable, keep_alive}

-- Connected over TCP with nothing to send.
abbrev pub IsStalled : ℕ → Leaf → Type 0
IsStalled fd c = c ≡ record c { fd = some fd; state = tcp_connected; send_buf = [] }

-- `select` answers for the descriptors that it is asked about, and does not fail.
abbrev pub SelectsWatched : System → Type 0
SelectsWatched s =
    (log : List Call) (rfds wfds : List ℕ) (timeout : Option ℕ)
    → (s.select log rfds wfds timeout ≢ select_failed)
      × ((rs ws : List ℕ) (fd : ℕ)
          → s.select log rfds wfds timeout ≡ selected rs ws
          → is_set fd wfds ≡ false
          → is_set fd ws ≡ false)

-- The broker sends nothing.
abbrev pub HearsNothing : System → Type 0
HearsNothing s = (log : List Call) (fd : Option ℕ) (room : ℕ) → s.recv log fd room ≡ recv_blocked

abbrev StaysStalled : System → ℕ → Leaf × Status → Type 0
StaysStalled s fd r = IsStalled fd r.0 × (r.0.system ≡ s)

abbrev stalled : Leaf → ℕ → Leaf
stalled b fd = record b { fd = some fd; state = tcp_connected; send_buf = [] }

read-StaysStalled :
    (b : Leaf) (now fd : ℕ)
    → HearsNothing b.system
    → Returns (StaysStalled b.system fd) (on_readable (stalled b fd) >>= after_read now)
unfolding on_readable recv_and_dispatch keep_alive
read-StaysStalled b now fd h = rw (h b.log (some fd) (leaf_buf_size - b.recv_len)) (refl, refl)

write-StaysStalled :
    (b : Leaf) (now fd : ℕ) (rfds : List ℕ) (t : Bool)
    → HearsNothing b.system
    → Returns (StaysStalled b.system fd) (
        (if t then on_readable (stalled b fd) else some (stalled b fd, success)) >>= after_read now)
unfolding keep_alive
write-StaysStalled b now fd rfds true h = read-StaysStalled b now fd h
write-StaysStalled b now fd rfds false h = (refl, refl)

select-StaysStalled :
    (b : Leaf) (now fd : ℕ) (r : SelectResult)
    → HearsNothing b.system
    → r ≢ select_failed
    → ((rs ws : List ℕ) → r ≡ selected rs ws → is_set fd ws ≡ false)
    → Returns (StaysStalled b.system fd) (after_select (stalled b fd) now fd r)
select-StaysStalled b now fd select_failed h n w = absurd (n refl)
select-StaysStalled b now fd interrupted h n w = (refl, refl)
select-StaysStalled b now fd timed_out h n w = (refl, refl)
select-StaysStalled b now fd (selected rs ws) h n w =
    rw (w rs ws refl) (write-StaysStalled b now fd rs (is_set fd rs) h)

poll_stalled :
    (b : Leaf) (fd : ℕ) (timeout : Option ℕ)
    → fd < b.system.fd_setsize
    → SelectsWatched b.system
    → HearsNothing b.system
    → Returns (StaysStalled b.system fd) (leaf_poll (stalled b fd) timeout)
unfolding leaf_poll reconnect is_set
poll_stalled b fd timeout i s h =
    let below : leb b.system.fd_setsize fd ≡ false = ground (arith, i) in
    let log : List Call = clock_read ∷ b.log in
    let asked = s log (fd ∷ []) [] timeout in
    rw (nothing b.send_off, below)
      (select-StaysStalled
        (call (record (call b clock_read) { last_poll_ms = now_ms b })
          (select_tried (fd ∷ []) [] timeout))
        (now_ms b) fd (b.system.select log (fd ∷ []) [] timeout) h asked.0
        (λ rs ws e. asked.1 rs ws fd e refl))
  where
    nothing : (n : ℕ) → ltb n 0 ≡ false
    nothing n = ground arith

-- A run of `leaf_poll`, with the timeout of each call.
unfoldable pub polls : List (Option ℕ) → Leaf → Option Leaf
polls [] c = some c
polls (t ∷ ts) c = leaf_poll c t >>= (λ r. polls ts r.0)

abbrev RunStalled : System → ℕ → Leaf → Type 0
RunStalled s fd c = IsStalled fd c × (c.system ≡ s)

polls-stalled :
    (ts : List (Option ℕ)) (s : System) (fd : ℕ) (c : Leaf)
    → fd < s.fd_setsize
    → SelectsWatched s
    → HearsNothing s
    → RunStalled s fd c
    → Returns (RunStalled s fd) (polls ts c)
unfolding polls
polls-stalled [] s fd c i w h r = r
polls-stalled (t ∷ ts) s fd c i w h (r, e) =
    Returns-bind (StaysStalled s fd) (RunStalled s fd) (leaf_poll c t) (λ r. polls ts r.0)
      (subst (λ (d : Leaf). Returns (StaysStalled s fd) (leaf_poll d t)) (sym r)
        (subst (λ (z : System). Returns (StaysStalled z fd) (leaf_poll (stalled c fd) t)) e
          (poll_stalled c fd t (subst (λ (z : System). fd < z.fd_setsize) (sym e) i)
            (subst SelectsWatched (sym e) w) (subst HearsNothing (sym e) h))))
      (λ d p. polls-stalled ts s fd d.0 i w h p)

-- Disconnected, with nothing to send.
abbrev pub IsIdle : Leaf → Type 0
IsIdle c = c ≡ record c { state = disconnected; send_buf = [] }

abbrev Connects : System → ℕ → Leaf × Status → Type 0
Connects s fd r = (r.1 ≡ success) × RunStalled s fd r.0

connect-stalled :
    (c : Leaf) (fd : ℕ)
    → IsIdle c
    → c.system.resolve c.log ≡ true
    → ((log : List Call) → c.system.socket log ≡ some fd)
    → ((log : List Call) → c.system.connect log fd ≡ established)
    → Connects c.system fd (leaf_connect c)
unfolding leaf_connect connect_tcp
connect-stalled c fd idle r s k =
    subst (λ (d : Leaf). Connects c.system fd (leaf_connect d)) (sym idle)
      (rw (r, s (host_resolved ∷ c.log), k (socket_opened ∷ host_resolved ∷ c.log))
        (refl, (refl, refl)))

-- Where `connect` establishes the connection at once, `leaf_connect` succeeds, but no run of
-- `leaf_poll` ever takes the client further: it stays connected over TCP with nothing to send, and
-- its CONNECT packet is never sent. This is so for a disconnected client with nothing to send, a
-- host that resolves, a descriptor below `FD_SETSIZE`, a `select` that does not fail and answers for
-- what it is asked about, and a broker that waits for the CONNECT packet.
pub leaf_connect-stall :
    (c : Leaf) (fd : ℕ) (timeouts : List (Option ℕ))
    → IsIdle c
    → c.system.resolve c.log ≡ true
    → ((log : List Call) → c.system.socket log ≡ some fd)
    → fd < c.system.fd_setsize
    → ((log : List Call) → c.system.connect log fd ≡ established)
    → SelectsWatched c.system
    → HearsNothing c.system
    → ((leaf_connect c).1 ≡ success)
      × Returns
          (λ d. (d.state ≡ tcp_connected) × (d.send_buf ≡ []))
          (polls timeouts (leaf_connect c).0)
leaf_connect-stall c fd timeouts idle r s i k w h =
    let connects = connect-stalled c fd idle r s k in
    (
      connects.0,
      Returns-weaken (RunStalled c.system fd) (λ d. (d.state ≡ tcp_connected) × (d.send_buf ≡ []))
          (polls timeouts (leaf_connect c).0)
          (λ d p. (ap (λ (x : Leaf). x.state) p.0, ap (λ (x : Leaf). x.send_buf) p.0))
          (polls-stalled timeouts c.system fd (leaf_connect c).0 i w h connects.1),
    )
