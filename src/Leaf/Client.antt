-- ===== src/Leaf/Client.antt =====
-- leaf/leaf/leaf_client.h, lines 150 to 246 and 337 to 344: the commands of the client library. `none`
-- stands for a write past the end of a buffer.
use arbor_mq.Base.{
  ◌+◌, ℕ, ◌-◌, ◌%◌, Bool, true, false, Option, none, some, List, [], ◌∷◌, ◌++◌, ltb, leb,
  if◌then◌else◌, ◌>>=◌, list_eq, Bytes, length, take, set, get_or,
}
use arbor_mq.Packet.{t_pkt_publish, t_pkt_subscribe, t_pkt_unsubscribe}
use arbor_mq.Broker.Tables.{find_index}
use arbor_mq.Broker.Send.{Status, success, failure}
use arbor_mq.Leaf.{encode_publish, encode_subscribe, encode_unsubscribe, encode_disconnect}
use arbor_mq.Leaf.State.{
  Leaf, LeafSub, Config, Phase, disconnected, tcp_connecting, tcp_connected, connack_wait, ready,
  disconnecting, clock_read, call, now_ms, send_now, cleared, leaf_buf_size, leaf_max_subs,
  leaf_max_topic, leaf_reconnect_ms,
}
use arbor_mq.Leaf.Pending.{pending_slot, next_pid, pending_at, put_pending}
use arbor_mq.Leaf.Network.{connect_tcp, fire_disconnect, leaf_close_fd, same_phase}

-- `in_use` is the global flag `g_leaf_in_use`.
unfoldable pub leaf_create : Bool → Leaf → Config → Option Leaf
leaf_create in_use c cfg =
    if in_use
    then none
    else some
        (record (cleared c) { cfg = cfg; fd = none; reconnect_backoff_ms = leaf_reconnect_ms })

unfoldable pub leaf_disconnect : Leaf → Leaf
unfolding fire_disconnect
leaf_disconnect c =
    if same_phase c.state disconnected
    then c
    else if same_phase c.state disconnecting
    then c
    else fire_disconnect
        (send_now (record c { state = disconnecting; clean_disconnect = true }) encode_disconnect)

unfoldable pub leaf_destroy : Leaf → Leaf
unfolding leaf_disconnect leaf_close_fd
leaf_destroy c = cleared (leaf_close_fd (if same_phase c.state ready then leaf_disconnect c else c))

unfoldable pub leaf_connect : Leaf → Leaf × Status
leaf_connect c = if same_phase c.state disconnected then connect_tcp c else (c, failure)

-- The encoders write at the start of the send buffer, whatever stands there.
unfoldable pub replace_output : Leaf → Bytes → Option Leaf
replace_output c packet =
    if ltb leaf_buf_size (length packet)
    then none
    else some (record c { send_buf = packet; send_off = 0 })

abbrev pub done : Option Leaf → Option (Leaf × Status)
done none = none
done (some c) = some (c, success)

-- The slot of a packet that waits for its SUBACK or UNSUBACK.
abbrev pub wait_at : Leaf → ℕ → ℕ → Option ℕ → Leaf
wait_at c pid type none = c
wait_at c pid type (some i) =
    put_pending c i (record (pending_at c i) { packet_id = pid; type = type })

abbrev pub enqueue : Leaf → Bytes → ℕ → ℕ → Option (Leaf × Status)
enqueue c packet pid type =
    done (replace_output c packet >>= (λ c'. some (wait_at c' pid type (pending_slot c'))))

abbrev pub add_leaf_sub : Leaf → Bytes → ℕ → Leaf
add_leaf_sub c topic qos = record c { subs = c.subs ++ record { topic = topic; qos = qos } ∷ [] }

-- `strlen(topic)` is cut to 16 bits for the test of the length, but the text is not. `tl + 1` bytes are
-- copied, which end with the NUL if `tl` is the whole length; the slot behind them is taken to be zero.
unfoldable pub leaf_subscribe : Leaf → Bytes → ℕ → Option (Leaf × Status)
leaf_subscribe c topic qos =
    let (pid, c') = next_pid c in
    if same_phase c.state ready
    then if leb leaf_max_subs (length c.subs)
      then some (c, failure)
      else if leb leaf_max_topic (length topic % 65536)
      then some (c', failure)
      else enqueue (add_leaf_sub c' (take (length topic % 65536 + 1) topic) qos)
          (encode_subscribe topic qos pid) pid t_pkt_subscribe
    else some (c, failure)

abbrev pub no_leaf_sub : LeafSub
no_leaf_sub = record { topic = []; qos = 0 }

-- `c->subs[i] = c->subs[--c->sub_count]` for the first entry with the topic.
abbrev pub remove_at : List LeafSub → Option ℕ → List LeafSub
remove_at subs none = subs
remove_at subs (some i) =
    take (length subs - 1) (set subs i (get_or subs (length subs - 1) no_leaf_sub))

unfoldable pub remove_leaf_sub : List LeafSub → Bytes → List LeafSub
unfolding find_index
remove_leaf_sub subs topic = remove_at subs (find_index (λ s. list_eq s.topic topic) subs)

unfoldable pub leaf_unsubscribe : Leaf → Bytes → Option (Leaf × Status)
leaf_unsubscribe c topic =
    let (pid, c') = next_pid (record c { subs = remove_leaf_sub c.subs topic }) in
    if same_phase c.state ready
    then enqueue c' (encode_unsubscribe topic pid) pid t_pkt_unsubscribe
    else some (c, failure)

-- The snapshot of the packet in the slot, for the retries.
abbrev pub snapshot : Leaf → Bytes → ℕ → ℕ → Option Leaf
snapshot c packet pid i =
    if ltb leaf_buf_size (length packet)
    then none
    else some (
        put_pending (call c clock_read) i (record (pending_at c i) {
          packet_id = pid;
          type = t_pkt_publish;
          sent_at_ms = now_ms c;
          retries = 0;
          payload = packet;
        }))

abbrev pub publish_tracked : Leaf → Bytes → ℕ → Option ℕ → Option (Leaf × Status)
publish_tracked c packet pid none = some (c, failure)
publish_tracked c packet pid (some i) =
    done (snapshot c packet pid i >>= (λ c'. replace_output c' packet))

unfoldable pub leaf_publish : Leaf → Bytes → Bytes → ℕ → ℕ → Option (Leaf × Status)
leaf_publish c topic payload qos retain =
    let (pid, c') = next_pid c in
    if same_phase c.state ready
    then if ltb 0 qos
      then publish_tracked c' (encode_publish topic payload qos retain pid) pid (pending_slot c')
      else done (replace_output c (encode_publish topic payload qos retain 0))
    else some (c, failure)

-- `leaf_set_on_connect`, `leaf_set_on_disconnect` and `leaf_set_on_message`.
unfoldable pub set_on_connect : Leaf → Bool → Leaf
set_on_connect c cb = record c { on_connect = cb }

unfoldable pub set_on_disconnect : Leaf → Bool → Leaf
set_on_disconnect c cb = record c { on_disconnect = cb }

unfoldable pub set_on_message : Leaf → Bool → Leaf
set_on_message c cb = record c { on_message = cb }

-- `state >= LEAF_S_TCP_CONNECTED`
abbrev pub is_past_tcp : Phase → Bool
is_past_tcp disconnected = false
is_past_tcp tcp_connecting = false
is_past_tcp tcp_connected = true
is_past_tcp connack_wait = true
is_past_tcp ready = true
is_past_tcp disconnecting = true

unfoldable pub leaf_is_connected : Leaf → Bool
leaf_is_connected c = is_past_tcp c.state

unfoldable pub leaf_is_ready : Leaf → Bool
leaf_is_ready c = same_phase c.state ready
