-- ===== src/Leaf/Poll/Handshake.antt =====
-- leaf_client.h, lines 248 to 334: the client gets through the handshake.
use arbor_mq.Base.{
  ℕ, ◌+◌, ◌*◌, ◌%◌, ◌^◌, ◌≤◌, ◌<◌, ◌≡◌, refl, ap, ◌∙◌, Bool, true, false, ◌&&◌, ◌||◌, Option, some,
  [], ◌∷◌, ltb, leb, Returns, Returns-bind, if_keeps, arith, if◌then◌else◌, length, take, List,
  Grows, Grows-refl, Grows-cons, Grows-trans,
}
use arbor_mq.Wire.{read_u8, decode_remaining}
use arbor_mq.Packet.{enc_connack}
use arbor_mq.Broker.State.{selected, sent, received}
use arbor_mq.Broker.Send.{Status, success, failure}
use arbor_mq.Broker.Poll.{is_set}
use arbor_mq.Leaf.State.{
  Leaf, System, Call, Pending, connected_event, recv_tried, now_ms, tcp_connecting, connack_wait,
  ready, clock_read, error_read, send_tried, select_tried, send_now, leaf_buf_size,
}
use arbor_mq.Leaf.{encode_pingreq}
use arbor_mq.Leaf.Connect.ReadBack.{length-encode_connect}
use arbor_mq.Leaf.Connect.{encode_connect, keepalive_of}
use arbor_mq.Leaf.Pending.{retry_pending, retry_slots, is_resent}
use arbor_mq.Leaf.Dispatch.{leaf_dispatch, handle_packet, on_connack}
use arbor_mq.Leaf.Network.{
  fire_disconnect, same_phase, send_pending, advanced, recv_and_dispatch, take_bytes, packet_loop,
  next_packet, shift_down,
}
use arbor_mq.Leaf.Client.{replace_output}
use arbor_mq.Leaf.Poll.{
  leaf_poll, reconnect, on_writable, on_readable, queue_connect, ping_if_idle, is_silent,
  keep_alive, after_read, since,
}

-- A system in which the connection is made, the clock stands at `t`, all descriptors are ready, all
-- bytes are sent, and the broker's answer is there: a CONNACK packet that accepts the client.
abbrev pub prompt : System → ℕ → System
prompt s t = record s {
  now_ms = λ log. t;
  so_error = λ log fd. false;
  select = λ log rfds wfds timeout. selected rfds wfds;
  send = λ log fd bytes. sent (length bytes);
  recv = λ log fd room. received (take room (enc_connack 0 0));
}

-- A client that waits for its connection.
abbrev pub connecting_to : System → ℕ → Leaf → ℕ → Bool → Leaf
connecting_to s t b fd on_connect = record b {
  system = prompt s t;
  fd = some fd;
  state = tcp_connecting;
  recv_len = 0;
  on_connect = on_connect;
}

-- Ready at the time `t`, with nothing wrong, after the calls of `log`.
abbrev Readies : List Call → ℕ → Leaf × Status → Type 0
Readies log t r =
    (r.1 ≡ success)
    × (r.0.state ≡ ready)
    × (r.0.last_recv_ms ≡ t)
    × (r.0.last_send_ms ≡ t)
    × Grows log r.0.log

-- The call succeeds, and the client is ready, after the calls of `log`.
abbrev pub IsReady : List Call → Leaf × Status → Type 0
IsReady log r = (r.1 ≡ success) × (r.0.state ≡ ready) × Grows log r.0.log

-- The calls of `leaf_poll` up to CONNECT, which is the first packet that it sends.
abbrev pub connect_calls : Leaf → ℕ → Option ℕ → List Call
connect_calls b fd timeout =
    send_tried (some fd) (encode_connect b.cfg)
    ∷ error_read fd
    ∷ select_tried (fd ∷ []) (fd ∷ []) timeout
    ∷ clock_read
    ∷ b.log

connack-Readies :
    (s : System) (t : ℕ) (b : Leaf) (fd : ℕ) (on_connect : Bool)
    → b.last_send_ms ≡ t
    → Returns
        (Readies b.log t)
        (on_readable (record (connecting_to s t b fd on_connect) { state = connack_wait }))
unfolding on_readable recv_and_dispatch take_bytes packet_loop next_packet shift_down leaf_dispatch
    handle_packet on_connack decode_remaining enc_connack read_u8
connack-Readies s t b fd true h = (
  refl,
  refl,
  refl,
  h,
  (connected_event ∷ clock_read ∷ recv_tried (some fd) leaf_buf_size ∷ [], refl),
)
connack-Readies s t b fd false h =
    (refl, refl, refl, h, (clock_read ∷ recv_tried (some fd) leaf_buf_size ∷ [], refl))

retry_slots-Grows :
    (now : ℕ) (fd : Option ℕ) (ps : List Pending) (log : List Call)
    → Grows log (retry_slots now fd ps log).1
unfolding retry_slots
retry_slots-Grows now fd [] log = Grows-refl log
retry_slots-Grows now fd (p ∷ ps) log =
    let log' = if is_resent now p then send_tried fd p.payload ∷ log else log in
    let kept =
      if_keeps (λ (x : List Call). Grows log x) (is_resent now p)
        (Grows-cons (send_tried fd p.payload) log log (Grows-refl log)) (Grows-refl log) in
    Grows-trans log log' (retry_slots now fd ps log').1 kept (retry_slots-Grows now fd ps log')

retry_pending-Grows : (c : Leaf) → Grows c.log (retry_pending c).log
unfolding retry_pending
retry_pending-Grows c =
    Grows-trans c.log (clock_read ∷ c.log) _ (Grows-cons clock_read c.log c.log (Grows-refl c.log))
      (retry_slots-Grows (now_ms c) c.fd c.pending (clock_read ∷ c.log))

-- The client once the CONNECT packet is sent.
abbrev connect_sent : System → ℕ → Leaf → ℕ → Bool → Leaf
connect_sent s t b fd on_connect = record (connecting_to s t b fd on_connect) {
  log = clock_read ∷ send_tried (some fd) (encode_connect b.cfg) ∷ error_read fd ∷ b.log;
  state = connack_wait;
  send_buf = [];
  send_off = 0;
  last_send_ms = t;
}

on_writable-connect_sent :
    (s : System) (t : ℕ) (b : Leaf) (fd : ℕ) (on_connect : Bool)
    → length (encode_connect b.cfg) ≤ leaf_buf_size
    → on_writable (connecting_to s t b fd on_connect) fd
      ≡ some (connect_sent s t b fd on_connect, success)
unfolding on_writable queue_connect replace_output send_pending advanced
on_writable-connect_sent s t b fd k h =
    let n = length (encode_connect b.cfg) in
    let fits : ltb leaf_buf_size n ≡ false = ground arith in
    let some_bytes : leb n 0 ≡ false = ground (arith, length-encode_connect b.cfg) in
    let all : leb n ((0 + n) % 2 ^ 32) ≡ true = ground arith in rw (fits, some_bytes, all) refl

watched-connecting : (t : Bool) (fd : ℕ) → (if t || true then fd ∷ [] else []) ≡ fd ∷ []
watched-connecting true fd = refl
watched-connecting false fd = refl

module _ (log : List Call) (c : Leaf) (t : ℕ) (h : t < 2 ^ 64)
    (r : Readies log t (c, success)) where
  no_ping : ping_if_idle c t ≡ c
  unfolding ping_if_idle
  no_ping =
      ap (λ x. if x then record (send_now c encode_pingreq) { last_send_ms = t } else c)
        (ap (λ x. ltb 0 (keepalive_of c.cfg) && ltb (keepalive_of c.cfg * 1000) (since t x)) r.3
          ∙ idle (keepalive_of c.cfg))
    where
      idle : (ka : ℕ) → (ltb 0 ka && ltb (ka * 1000) (since t t)) ≡ false
      idle ka = ground arith

  not_silent : is_silent c t ≡ false
  unfolding is_silent
  not_silent =
      ap (λ x. ltb 0 (keepalive_of c.cfg) && ltb (keepalive_of c.cfg * 1500) (since t x)) r.2
      ∙ idle (keepalive_of c.cfg)
    where
      idle : (ka : ℕ) → (ltb 0 ka && ltb (ka * 1500) (since t t)) ≡ false
      idle ka = ground arith

  kept_alive : keep_alive c t ≡ (c, success)
  unfolding keep_alive
  kept_alive =
      ap
        (λ w.
          if w
          then (if is_silent (ping_if_idle c t) t
              then (fire_disconnect (ping_if_idle c t), failure)
              else (ping_if_idle c t, success))
          else (c, success))
        (ap (λ p. same_phase p ready || same_phase p connack_wait) r.1)
      ∙ ap (λ d. if is_silent d t then (fire_disconnect d, failure) else (d, success)) no_ping
      ∙ ap (λ x. if x then (fire_disconnect c, failure) else (c, success)) not_silent

  retried-IsReady : Returns (IsReady log) (after_read t (c, success))
  unfolding retry_pending
  retried-IsReady = rw kept_alive (
    refl,
    if_keeps (λ (d : Leaf). d.state ≡ ready) (same_phase c.state ready) r.1 r.1,
    if_keeps (λ (d : Leaf). Grows log d.log) (same_phase c.state ready)
        (Grows-trans log c.log (retry_pending c).log r.4 (retry_pending-Grows c)) r.4,
  )

after_read-IsReady :
    (log : List Call) (t : ℕ) (r : Leaf × Status)
    → t < 2 ^ 64
    → Readies log t r
    → Returns (IsReady log) (after_read t r)
after_read-IsReady log t (c, success) h p = retried-IsReady log c t h p
after_read-IsReady log t (c, failure) h p = absurd (clash p.0)
  where
    clash : failure ≡ success → ⊥
    clash q = cc

is_set_one : (fd : ℕ) → is_set fd (fd ∷ []) ≡ true
unfolding is_set
is_set_one fd = ground arith

-- Where the system and the broker answer at once, and the clock reads the same time during the call,
-- one `leaf_poll` takes a client that waits for its connection, on a descriptor below `FD_SETSIZE`,
-- to the state ready: it sends the CONNECT packet of its configuration, which must fit the send
-- buffer, in one `send` and before any other packet, and takes the broker's CONNACK.
pub leaf_poll-handshake :
    (s : System) (t : ℕ) (b : Leaf) (fd : ℕ) (on_connect : Bool) (timeout : Option ℕ)
    → t < 2 ^ 64
    → fd < s.fd_setsize
    → length (encode_connect b.cfg) ≤ leaf_buf_size
    → Returns
        (IsReady (connect_calls b fd timeout))
        (leaf_poll (connecting_to s t b fd on_connect) timeout)
unfolding leaf_poll reconnect
leaf_poll-handshake s t b fd k timeout h i fits =
    let below : leb s.fd_setsize fd ≡ false = ground (arith, i) in
    let asked : Leaf = record b {
      log = select_tried (fd ∷ []) (fd ∷ []) timeout ∷ clock_read ∷ b.log;
      last_poll_ms = t;
    } in
    let waiting : Leaf = connect_sent s t asked fd k in
    let calls : List Call = connect_calls b fd timeout in
    rw
      (
        watched-connecting (ltb b.send_off (length b.send_buf)) fd,
        below,
        is_set_one fd,
        on_writable-connect_sent s t asked fd k fits,
      )
      (rw (is_set_one fd) (
        Returns-bind (Readies waiting.log t) (IsReady calls) (on_readable waiting) (after_read t)
          (connack-Readies s t waiting fd k refl)
          (λ r p. after_read-IsReady calls t r h (
            p.0,
            p.1,
            p.2,
            p.3,
            Grows-trans calls waiting.log r.0.log
                (Grows-cons clock_read calls calls (Grows-refl calls)) p.4,
          ))))
