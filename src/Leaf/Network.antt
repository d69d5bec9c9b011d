-- ===== src/Leaf/Network.antt =====
-- leaf/leaf/leaf_client.h, lines 39 to 141: the network I/O of the client library, and the end of a
-- connection. `none` stands for a write past the end of a buffer.
pub mod Receive
use arbor_mq.Base.{
  ℕ, zero, suc, ◌+◌, ◌-◌, ◌%◌, ◌^◌, Bool, true, false, ◌&&◌, Option, none, some, List, [], ◌∷◌,
  ◌++◌, ltb, leb, ◌==◌, if◌then◌else◌, ◌>>=◌, list_eq, Bytes, length, take, drop, set, get_or,
}
use arbor_mq.Wire.{slice, decode_remaining}
use arbor_mq.Packet.{t_pkt_publish, t_pkt_subscribe, t_pkt_unsubscribe}
use arbor_mq.Broker.State.{
  SendResult, sent, send_blocked, send_failed, RecvResult, received, recv_blocked, recv_failed,
  zeros,
}
use arbor_mq.Broker.Tables.{find_index}
use arbor_mq.Broker.Send.{Status, success, failure}
use arbor_mq.Broker.Receive.{Frame, short, malformed, incomplete, complete, frame_of}
use arbor_mq.Leaf.{encode_publish, encode_subscribe, encode_unsubscribe, encode_disconnect}
use arbor_mq.Leaf.State.{
  Leaf, LeafSub, Config, System, Phase, disconnected, tcp_connecting, tcp_connected, connack_wait,
  ready, disconnecting, ConnectResult, established, in_progress, refused, clock_read, socket_opened,
  host_resolved, connect_tried, closed, recv_tried, send_tried, disconnected_event, call, call_if,
  now_ms, send_now, no_pendings, cleared, empty_config, leaf_buf_size, leaf_max_pending,
  leaf_max_subs, leaf_max_topic, leaf_reconnect_ms,
}
use arbor_mq.Leaf.Pending.{pending_slot, next_pid, pending_at, put_pending}
use arbor_mq.Leaf.Dispatch.{leaf_dispatch}

-- `c->state == state`
abbrev pub same_phase : Phase → Phase → Bool
same_phase disconnected disconnected = true
same_phase tcp_connecting tcp_connecting = true
same_phase tcp_connected tcp_connected = true
same_phase connack_wait connack_wait = true
same_phase ready ready = true
same_phase disconnecting disconnecting = true
same_phase _ _ = false

abbrev pub close_at : Leaf → Option ℕ → Leaf
close_at c none = c
close_at c (some fd) = record (call c (closed fd)) { fd = none }

unfoldable pub leaf_close_fd : Leaf → Leaf
leaf_close_fd c = close_at c c.fd

-- The end of `leaf__connect_tcp` in each case of `connect`.
abbrev pub opened : Leaf → Phase → Leaf × Status
opened c state = (
  record (call c clock_read) { state = state; last_recv_ms = now_ms c; last_send_ms = now_ms c },
  success,
)

abbrev pub connecting : Leaf → ConnectResult → Leaf × Status
connecting c established = opened c tcp_connected
connecting c in_progress = opened c tcp_connecting
connecting c refused = (record (close_at c c.fd) { state = disconnected }, failure)

abbrev pub connect_on : Leaf → Option ℕ → Leaf × Status
connect_on c none = (record c { fd = none; state = disconnected }, failure)
connect_on c (some fd) =
    connecting (record (call c (connect_tried fd)) { fd = some fd }) (c.system.connect c.log fd)

unfoldable pub connect_tcp : Leaf → Leaf × Status
connect_tcp c =
    let c1 = call c host_resolved in
    if c.system.resolve c.log
    then connect_on (call c1 socket_opened) (c.system.socket c1.log)
    else (record c1 { state = disconnected }, failure)

abbrev pub unsent_bytes : Leaf → Bytes
unsent_bytes c = drop c.send_off c.send_buf

-- `send` took `n` bytes; the clock is read last.
unfoldable pub advanced : Leaf → ℕ → Leaf
advanced c n =
    let off = (c.send_off + n) % 2 ^ 32 in
    let timed = record (call c clock_read) { last_send_ms = now_ms c } in
    if leb (length c.send_buf) off
    then record timed { send_off = 0; send_buf = [] }
    else record timed { send_off = off }

abbrev pub sent_pending : Leaf → SendResult → Leaf × Status
sent_pending c (sent n) = (advanced c n, success)
sent_pending c send_blocked = (c, success)
sent_pending c send_failed = (c, failure)

unfoldable pub send_pending : Leaf → Leaf × Status
send_pending c =
    if leb (length c.send_buf) c.send_off
    then (c, success)
    else sent_pending (send_now c (unsent_bytes c)) (c.system.send c.log c.fd (unsent_bytes c))

-- The packet at the start of the input, by the tests at the top of the loop.
unfoldable pub next_packet : Leaf → Frame
next_packet c =
    if ltb c.recv_len 2 then short else frame_of c.recv_len (decode_remaining (drop 1 c.recv_buf) 4)

-- The bytes behind the packet move to the front; `recv_len - total` is a `uint32_t`.
unfoldable pub shift_down : Leaf → ℕ → Option Leaf
shift_down c total =
    let rem = (c.recv_len + 2 ^ 32 - total) % 2 ^ 32 in
    if ltb leaf_buf_size (total + rem)
    then none
    else some
        (record c { recv_buf = slice c.recv_buf total rem ++ drop rem c.recv_buf; recv_len = rem })

abbrev pub after_packet :
    (Leaf → Option (Leaf × Status)) → ℕ → Leaf × Status → Option (Leaf × Status)
after_packet next total (c, failure) = some (c, failure)
after_packet next total (c, success) = shift_down c total >>= next

-- One round of the loop; `next` is the loop from there on.
abbrev pub packet_round : (Leaf → Option (Leaf × Status)) → Leaf → Frame → Option (Leaf × Status)
packet_round next c short = some (c, success)
packet_round next c malformed = some (record c { recv_len = 0 }, failure)
packet_round next c incomplete = some (c, success)
packet_round next c (complete total) = after_packet next total (leaf_dispatch c total)

-- The `while` loop. Each round takes a packet of at least two bytes off the input.
unfoldable pub packet_loop : ℕ → Leaf → Option (Leaf × Status)
packet_loop zero c = some (c, success)
packet_loop (suc rounds) c = packet_round (packet_loop rounds) c (next_packet c)

-- The bytes that `recv` wrote behind the input; there may be none.
unfoldable pub take_bytes : Leaf → Bytes → Leaf
take_bytes c bytes = record (call c clock_read) {
  recv_buf = take c.recv_len c.recv_buf ++ (bytes ++ drop (c.recv_len + length bytes) c.recv_buf);
  recv_len = c.recv_len + length bytes;
  last_recv_ms = now_ms c;
}

abbrev pub received_bytes : Leaf → RecvResult → Option (Leaf × Status)
received_bytes c recv_blocked = some (c, success)
received_bytes c recv_failed = some (c, failure)
received_bytes c (received bytes) = let c' = take_bytes c bytes in packet_loop c'.recv_len c'

-- `recv_len` is at most the size of the buffer, so that `room` does not wrap.
unfoldable pub recv_and_dispatch : Leaf → Option (Leaf × Status)
recv_and_dispatch c =
    let room = leaf_buf_size - c.recv_len in
    received_bytes (call c (recv_tried c.fd room)) (c.system.recv c.log c.fd room)

unfoldable pub leaf_reset : Leaf → Leaf
unfolding leaf_close_fd
leaf_reset c = record (leaf_close_fd c) {
  state = disconnected;
  send_buf = [];
  send_off = 0;
  recv_len = 0;
  subs = [];
  next_packet_id = 0;
  pending = no_pendings leaf_max_pending;
  received_ids = zeros leaf_max_pending;
}

unfoldable pub fire_disconnect : Leaf → Leaf
unfolding leaf_reset
fire_disconnect c =
    if same_phase c.state disconnected
    then c
    else call_if c.on_disconnect (leaf_reset c) disconnected_event
