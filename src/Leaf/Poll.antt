-- ===== src/Leaf/Poll.antt =====
-- leaf/leaf/leaf_client.h, lines 248 to 335: `leaf_poll`. A timeout below 0 is `none`.
pub mod Stall
pub mod Alive
pub mod Handshake
use arbor_mq.Base.{
  ℕ, ◌+◌, ◌-◌, ◌*◌, ◌%◌, ◌^◌, Bool, true, false, not, ◌&&◌, ◌||◌, Option, none, some, List, [], ◌∷◌,
  ltb, leb, ◌==◌, if◌then◌else◌, ◌>>=◌, Bytes, length,
}
use arbor_mq.Broker.State.{SelectResult, selected, timed_out, interrupted, select_failed}
use arbor_mq.Broker.Send.{Status, success, failure}
use arbor_mq.Broker.Poll.{is_set}
use arbor_mq.Leaf.{encode_pingreq}
use arbor_mq.Leaf.State.{
  Leaf, disconnected, tcp_connecting, tcp_connected, connack_wait, ready, select_tried, error_read,
  clock_read, call, now_ms, send_now,
}
use arbor_mq.Leaf.Pending.{retry_pending}
use arbor_mq.Leaf.Connect.{encode_connect, keepalive_of}
use arbor_mq.Leaf.Network.{
  same_phase, connect_tcp, fire_disconnect, send_pending, recv_and_dispatch,
}
use arbor_mq.Leaf.Client.{replace_output, done}

-- `uint64_t` subtraction
abbrev pub since : ℕ → ℕ → ℕ
since now before = (now + 2 ^ 64 - before) % 2 ^ 64

-- A disconnected client tries again once the backoff is over, which doubles up to a minute.
unfoldable pub reconnect : Leaf → ℕ → Leaf
reconnect c now =
    let backoff = c.reconnect_backoff_ms in
    let tried = record c {
      last_attempt = now;
      reconnect_backoff_ms = if ltb backoff 60000 then backoff * 2 else backoff;
    } in
    if same_phase c.state disconnected
    then if leb backoff (since now c.last_attempt) then (connect_tcp tried).0 else c
    else c

-- What `select` is asked to watch for writing.
abbrev pub watched : Leaf → ℕ → List ℕ
watched c fd =
    if ltb c.send_off (length c.send_buf) || same_phase c.state tcp_connecting then fd ∷ [] else []

-- The end of the connection attempt: failed, or the client is connected.
abbrev pub settle : Leaf → ℕ → Leaf × Status
settle c fd =
    if same_phase c.state tcp_connecting
    then if c.system.so_error c.log (some fd)
      then (fire_disconnect (call c (error_read fd)), failure)
      else (record (call c (error_read fd)) { state = tcp_connected }, success)
    else (c, success)

-- A connected client queues its CONNECT packet.
unfoldable pub queue_connect : Leaf → Option Leaf
queue_connect c =
    if same_phase c.state tcp_connected
    then replace_output c (encode_connect c.cfg)
      >>= (λ c'. some (record c' { state = connack_wait }))
    else some c

-- `if (… < 0) { leaf__fire_disconnect(c); return -1; }`
abbrev pub or_disconnect : Leaf × Status → Leaf × Status
or_disconnect (c, success) = (c, success)
or_disconnect (c, failure) = (fire_disconnect c, failure)

abbrev pub write_settled : Leaf × Status → Option (Leaf × Status)
write_settled (c, failure) = some (c, failure)
write_settled (c, success) = queue_connect c >>= (λ c'. some (or_disconnect (send_pending c')))

unfoldable pub on_writable : Leaf → ℕ → Option (Leaf × Status)
on_writable c fd = write_settled (settle c fd)

abbrev pub received_or_closed : Option (Leaf × Status) → Option (Leaf × Status)
received_or_closed none = none
received_or_closed (some r) = some (or_disconnect r)

unfoldable pub on_readable : Leaf → Option (Leaf × Status)
on_readable c = received_or_closed (recv_and_dispatch c)

-- PINGREQ when nothing was sent for the keepalive interval.
unfoldable pub ping_if_idle : Leaf → ℕ → Leaf
ping_if_idle c now =
    let ka = keepalive_of c.cfg in
    if ltb 0 ka && ltb (ka * 1000) (since now c.last_send_ms)
    then record (send_now c encode_pingreq) { last_send_ms = now }
    else c

unfoldable pub is_silent : Leaf → ℕ → Bool
is_silent c now =
    let ka = keepalive_of c.cfg in ltb 0 ka && ltb (ka * 1500) (since now c.last_recv_ms)

abbrev pub is_waiting : Leaf → Bool
is_waiting c = same_phase c.state ready || same_phase c.state connack_wait

unfoldable pub keep_alive : Leaf → ℕ → Leaf × Status
keep_alive c now =
    let pinged = ping_if_idle c now in
    if is_waiting c
    then if is_silent pinged now then (fire_disconnect pinged, failure) else (pinged, success)
    else (c, success)

abbrev pub retried : Leaf × Status → Leaf × Status
retried (c, failure) = (c, failure)
retried (c, success) = (if same_phase c.state ready then retry_pending c else c, success)

abbrev pub after_read : ℕ → Leaf × Status → Option (Leaf × Status)
after_read now (c, failure) = some (c, failure)
after_read now (c, success) = some (retried (keep_alive c now))

abbrev pub after_write : ℕ → ℕ → List ℕ → Leaf × Status → Option (Leaf × Status)
after_write now fd rfds (c, failure) = some (c, failure)
after_write now fd rfds (c, success) =
    (if is_set fd rfds then on_readable c else some (c, success)) >>= after_read now

abbrev pub after_select : Leaf → ℕ → ℕ → SelectResult → Option (Leaf × Status)
after_select c now fd select_failed = some (fire_disconnect c, failure)
after_select c now fd interrupted = some (c, failure)
after_select c now fd timed_out = some (c, success)
after_select c now fd (selected rfds wfds) =
    (if is_set fd wfds then on_writable c fd else some (c, success)) >>= after_write now fd rfds

-- Without a descriptor the call sleeps, if the timeout is above 0. `FD_SET` does not test the descriptor:
-- one of `FD_SETSIZE` or above is behind the end of the `fd_set`.
abbrev pub sleep : Leaf → Option ℕ → Leaf
sleep c none = c
sleep c (some ms) = if ltb 0 ms then call c (select_tried [] [] (some ms)) else c

abbrev pub poll_fd : Leaf → ℕ → Option ℕ → Option ℕ → Option (Leaf × Status)
poll_fd c now timeout none = some (sleep c timeout, success)
poll_fd c now timeout (some fd) =
    let rfds = fd ∷ [] in
    let wfds = watched c fd in
    if leb c.system.fd_setsize fd
    then none
    else after_select (call c (select_tried rfds wfds timeout)) now fd
        (c.system.select c.log rfds wfds timeout)

abbrev pub poll_at : Leaf → ℕ → Option ℕ → Option (Leaf × Status)
poll_at c now timeout = poll_fd c now timeout c.fd

unfoldable pub leaf_poll : Leaf → Option ℕ → Option (Leaf × Status)
leaf_poll c timeout =
    let now = now_ms c in
    poll_at (reconnect (record (call c clock_read) { last_poll_ms = now }) now) now timeout
