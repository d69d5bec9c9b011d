-- ===== src/Broker/Forward.antt =====
-- branch_broker.h, lines 15 to 31, 89 to 161 and 363 to 375: routing a message to its subscribers, the
-- retained messages, and closing a client, which publishes its will. `none` stands for a write past
-- the end of the packet buffer on the stack.
pub mod Reach
pub mod Queued
use arbor_mq.Base.{
  ℕ, ◌+◌, ◌-◌, Bool, true, false, not, ◌&&◌, Option, none, some, List, [], ◌∷◌, ltb, ◌==◌,
  if◌then◌else◌, ◌>>=◌, Bytes, length, take, set, get_or,
}
use arbor_mq.Topic.{match_topic}
use arbor_mq.Packet.{enc_publish}
use arbor_mq.Broker.State.{
  Broker, Client, Sub, Retained, out_publish_sent, ClientState, disconnected, connack_sent, ready,
  will_triggered, clock_read, closed, buf_size, max_clients, max_topic, client_at, put_client,
  record_effect, now_ms, zero_client, unused_sub,
}
use arbor_mq.Broker.Tables.{
  alloc_pid, find_retained, find_free_retained, find_free_slot, slot_at, put_slot, is_open,
}
use arbor_mq.Broker.Send.{queue_and_flush}

-- The local array `pkt[BRANCH_BUF_SIZE]` and the call of `queue_and_flush` behind it.
unfoldable pub send_packet : Broker → ℕ → Bytes → Option Broker
send_packet b ci pkt = if ltb buf_size (length pkt) then none else some (queue_and_flush b ci pkt)

abbrev pub is_disconnected : ClientState → Bool
is_disconnected disconnected = true
is_disconnected connack_sent = false
is_disconnected ready = false
is_disconnected will_triggered = false

abbrev pub same_client : Option ℕ → ℕ → Bool
same_client none ci = false
same_client (some from) ci = from == ci

abbrev pub track_out_at : Broker → ℕ → ℕ → Option ℕ → Broker
track_out_at b ci pid none = b
track_out_at b ci pid (some qi) =
    put_slot (record_effect b clock_read) ci qi
      (record (slot_at b ci qi) { pid = pid; state = out_publish_sent; t_ms = now_ms b })

-- An outgoing QoS 2 message takes the first free slot; with none free it is not tracked.
unfoldable pub track_out : Broker → ℕ → ℕ → Broker
track_out b ci pid = track_out_at b ci pid (find_free_slot b ci)

-- The packet id of the message as it goes out, and the slot that tracks it.
unfoldable pub prepare_out : Broker → ℕ → ℕ → ℕ × Broker
prepare_out b ci fwd_qos =
    let (pid, b') = alloc_pid b in
    if fwd_qos == 0 then (0, b) else (pid, if fwd_qos == 2 then track_out b' ci pid else b')

-- The body of the loop for a subscription that is to have the message.
unfoldable pub deliver : Broker → Sub → Bytes → Bytes → ℕ → ℕ → Option Broker
deliver b s topic payload qos retain =
    let fwd_qos = if ltb qos s.qos then qos else s.qos in
    let (pid, b') = prepare_out b s.client_idx fwd_qos in
    send_packet b' s.client_idx (enc_publish topic payload fwd_qos retain pid)

-- The tests at the top of the loop, each of which skips the subscription.
unfoldable pub wants : Broker → Option ℕ → Bytes → Sub → Bool
wants b from topic s =
    s.used
    && match_topic s.topic_filter topic
    && not (same_client from s.client_idx)
    && ltb s.client_idx max_clients
    && not (is_disconnected (client_at b s.client_idx).state)

-- The loop over `t->subs`, which it does not change.
unfoldable pub forward_subs : List Sub → Broker → Option ℕ → Bytes → Bytes → ℕ → ℕ → Option Broker
forward_subs [] b from topic payload qos retain = some b
forward_subs (s ∷ subs) b from topic payload qos retain = do
  b' ← if wants b from topic s then deliver b s topic payload qos retain else some b
  forward_subs subs b' from topic payload qos retain

unfoldable pub store_retained : Retained → Bytes → Bytes → ℕ → Retained
store_retained r topic payload qos = record r {
  topic = take (max_topic - 1) topic;
  payload = take (if ltb (length payload) buf_size then length payload else buf_size - 1) payload;
  qos = qos;
  used = true;
}

abbrev pub unused_retained : Retained
unused_retained = record { topic = []; payload = []; qos = 0; used = false }

abbrev pub retained_at : List Retained → ℕ → Retained
retained_at rs ri = get_or rs ri unused_retained

abbrev pub or_else : Option ℕ → Option ℕ → Option ℕ
or_else (some i) other = some i
or_else none other = other

abbrev pub store_at : List Retained → Option ℕ → Bytes → Bytes → ℕ → List Retained
store_at rs none topic payload qos = rs
store_at rs (some ri) topic payload qos =
    set rs ri (store_retained (retained_at rs ri) topic payload qos)

abbrev pub clear_at : List Retained → Option ℕ → List Retained
clear_at rs none = rs
clear_at rs (some ri) = set rs ri (record (retained_at rs ri) { used = false })

-- What a message does to the retained messages.
unfoldable pub retain_message : List Retained → Bytes → Bytes → ℕ → ℕ → List Retained
retain_message rs topic payload qos retain =
    if retain == 0
    then rs
    else if length payload == 0
    then clear_at rs (find_retained rs topic)
    else store_at rs (or_else (find_retained rs topic) (find_free_retained rs)) topic payload qos

unfoldable pub forward : Broker → Option ℕ → Bytes → Bytes → ℕ → ℕ → Option Broker
forward b from topic payload qos retain = do
  b' ← forward_subs b.subs b from topic payload qos retain
  some (record b' { retained = retain_message b'.retained topic payload qos retain })

-- `branch_publish`, for a broker and a topic that are not null.
unfoldable pub branch_publish : Broker → Bytes → Bytes → ℕ → ℕ → Option Broker
branch_publish b topic payload qos retain = forward b none topic payload qos retain

-- The loop over `t->retained`, which it does not change.
unfoldable pub send_retained_from : List Retained → Broker → ℕ → Bytes → Option Broker
send_retained_from [] b ci topic_filter = some b
send_retained_from (r ∷ rs) b ci topic_filter = do
  b' ←
      if r.used && match_topic topic_filter r.topic
      then send_packet b ci (enc_publish r.topic r.payload r.qos 1 0)
      else some b
  send_retained_from rs b' ci topic_filter

unfoldable pub send_retained : Broker → ℕ → Bytes → Option Broker
send_retained b ci topic_filter = send_retained_from b.retained b ci topic_filter

-- `if (c->fd >= 0) { close(c->fd); c->fd = -1; }`
abbrev pub close_fd_at : Broker → ℕ → Option ℕ → Broker
close_fd_at b ci none = b
close_fd_at b ci (some fd) =
    put_client (record_effect b (closed (some fd))) ci (record (client_at b ci) { fd = none })

unfoldable pub close_fd : Broker → ℕ → Broker
close_fd b ci = close_fd_at b ci (client_at b ci).fd

abbrev pub is_will_triggered : ClientState → Bool
is_will_triggered will_triggered = true
is_will_triggered disconnected = false
is_will_triggered connack_sent = false
is_will_triggered ready = false

unfoldable pub trigger_will : Broker → ℕ → Option Broker
trigger_will b ci =
    let c = client_at b ci in
    if c.has_will && not (is_will_triggered c.state)
    then branch_publish b c.will_topic c.will_payload c.will_qos c.will_retain
      >>= (λ b'. some (put_client b' ci (record (client_at b' ci) { state = will_triggered })))
    else some b

-- `t->subs[si].used = 0`
abbrev pub release_sub : List Sub → ℕ → List Sub
release_sub subs si = set subs si (record (get_or subs si unused_sub) { used = false })

unfoldable pub release_subs : List ℕ → List Sub → List Sub
release_subs [] subs = subs
release_subs (si ∷ indices) subs = release_subs indices (release_sub subs si)

unfoldable pub close_client : Broker → ℕ → Option Broker
close_client b ci = do
  b' ← trigger_will (close_fd b ci) ci
  some (
      put_client (record b' { subs = release_subs (client_at b' ci).sub_indices b'.subs }) ci
        zero_client)

unfoldable pub count_open : List Client → ℕ
count_open [] = 0
count_open (c ∷ cs) = (if is_open c.fd then 1 else 0) + count_open cs

unfoldable pub branch_client_count : Broker → ℕ
branch_client_count b = count_open b.clients
