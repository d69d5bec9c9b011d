-- ===== src/Leaf/Dispatch.antt =====
-- leaf/leaf/leaf_codec.h, lines 178 to 323: `leaf__dispatch`, which handles one complete packet at the
-- start of the client's receive buffer. A callback is an event of the log: none calls the library.
pub mod Handled
pub mod Once
pub mod Delivered
use arbor_mq.Base.{
  ℕ, ◌+◌, ◌-◌, ◌/◌, ◌%◌, ◌^◌, Bool, true, false, not, ◌&&◌, ◌||◌, Option, none, some, List, [], ◌∷◌,
  ltb, ◌==◌, if◌then◌else◌, ◌>>=◌, Bytes, shr, drop, set,
}
use arbor_mq.Wire.{slice, copy_str, read_u8, read_u16, read_str, decode_remaining}
use arbor_mq.Packet.{
  t_pkt_connack, t_pkt_publish, t_pkt_puback, t_pkt_pubrec, t_pkt_pubrel, t_pkt_pubcomp,
  t_pkt_suback, t_pkt_unsuback,
}
use arbor_mq.Broker.Tables.{find_index}
use arbor_mq.Broker.Send.{Status, success, failure}
use arbor_mq.Broker.Dispatch.{packet_type, packet_flags}
use arbor_mq.Leaf.{encode_ack}
use arbor_mq.Leaf.State.{
  Leaf, Pending, Delivery, ready, connected_event, message_event, clock_read, call, call_if, now_ms,
  send_now, leaf_max_topic, leaf_reconnect_ms,
}
use arbor_mq.Leaf.Pending.{pending_slot, pending_at, put_pending}

-- CONNACK
abbrev pub accepted : Leaf → ℕ → Leaf
accepted c rc =
    if rc == 0
    then call_if c.on_connect (record c { state = ready; reconnect_backoff_ms = leaf_reconnect_ms })
        connected_event
    else c

abbrev pub connack_rc : Bytes → ℕ → ℕ → Option ℕ
connack_rc p off len = do (sp, o1) ← read_u8 p off len; (rc, o2) ← read_u8 p o1 len; some rc

abbrev pub connack_read : Leaf → Option ℕ → Leaf × Status
connack_read c none = (c, failure)
connack_read c (some rc) = (accepted c rc, success)

unfoldable pub on_connack : Leaf → ℕ → ℕ → Leaf × Status
on_connack c off len = connack_read c (connack_rc c.recv_buf off len)

-- The fields of a PUBLISH packet: those that the application gets, and the packet id, which is there
-- only with a QoS above 0.
abbrev pub pid_of : Bytes → ℕ → ℕ → ℕ → Option (ℕ × ℕ)
pid_of p qos off len = if ltb 0 qos then read_u16 p off len else some (0, off)

unfoldable pub read_delivery : Bytes → ℕ → ℕ → ℕ → Option (Delivery × ℕ)
read_delivery p flags off len = do
  (topic, o1) ← read_str p off len
  (pid, o2) ← pid_of p (shr flags 1 % 4) o1 len
  some (
    record {
      topic = copy_str leaf_max_topic topic;
      payload = slice p o2 (len - o2);
      qos = shr flags 1 % 4;
      retain = flags % 2;
    },
    pid,
  )

-- `seen`: the packet id stands among the received ones.
unfoldable pub is_received : List ℕ → ℕ → Bool
is_received [] pid = false
is_received (x ∷ xs) pid = if x == pid then true else is_received xs pid

abbrev pub is_seen : Leaf → ℕ → Bool
is_seen c pid = if pid == 0 then false else is_received c.received_ids pid

-- The first free entry takes the packet id; with none free it is not noted.
unfoldable pub note_id : List ℕ → ℕ → List ℕ
note_id [] pid = []
note_id (x ∷ xs) pid = let rest = note_id xs pid in if x == 0 then pid ∷ xs else x ∷ rest

abbrev pub note_received : Leaf → ℕ → Leaf
note_received c pid =
    if not (is_seen c pid) && not (pid == 0)
    then record c { received_ids = note_id c.received_ids pid }
    else c

-- The slot of an incoming QoS 2 message.
abbrev pub hold_at : Leaf → ℕ → Option ℕ → Leaf
hold_at c pid none = c
hold_at c pid (some i) =
    put_pending (call c clock_read) i
      (record (pending_at c i) { packet_id = pid; type = t_pkt_publish; sent_at_ms = now_ms c })

unfoldable pub answer_publish : Leaf → ℕ → ℕ → Leaf
answer_publish c qos pid =
    if qos == 1
    then send_now c (encode_ack t_pkt_puback pid)
    else if qos == 2
    then send_now (hold_at c pid (pending_slot c)) (encode_ack t_pkt_pubrec pid)
    else c

-- The callback runs for a message that is not seen already.
unfoldable pub deliver : Leaf → Delivery → ℕ → Leaf
deliver c m pid =
    call_if (not (is_seen c pid) && c.on_message) (answer_publish (note_received c pid) m.qos pid)
      (message_event m)

abbrev pub delivery_read : Leaf → Option (Delivery × ℕ) → Leaf × Status
delivery_read c none = (c, failure)
delivery_read c (some (m, pid)) = (deliver c m pid, success)

unfoldable pub on_publish : Leaf → ℕ → ℕ → ℕ → Leaf × Status
on_publish c flags off len = delivery_read c (read_delivery c.recv_buf flags off len)

-- `c->pending[i].packet_id = 0`
abbrev pub free_at : Leaf → Option ℕ → Leaf
free_at c none = c
free_at c (some i) = put_pending c i (record (pending_at c i) { packet_id = 0 })

-- PUBACK, PUBCOMP, SUBACK and UNSUBACK free the first slot with the packet id.
unfoldable pub complete : Leaf → ℕ → Leaf
unfolding find_index
complete c pid = free_at c (find_index (λ p. p.packet_id == pid) c.pending)

unfoldable pub on_pubrec : Leaf → ℕ → Leaf
on_pubrec c pid = send_now c (encode_ack t_pkt_pubrel pid)

unfoldable pub on_pubrel : Leaf → ℕ → Leaf
unfolding find_index
on_pubrel c pid =
    free_at (send_now c (encode_ack t_pkt_pubcomp pid))
      (find_index (λ p. p.packet_id == pid && p.type == t_pkt_publish) c.pending)

abbrev pub id_read : (Leaf → ℕ → Leaf) → Leaf → Option (ℕ × ℕ) → Leaf × Status
id_read on c none = (c, failure)
id_read on c (some (pid, off)) = (on c pid, success)

-- The reading that the handlers of the acknowledgements have in common.
unfoldable pub on_ack : (Leaf → ℕ → Leaf) → Leaf → ℕ → ℕ → Leaf × Status
on_ack on c off len = id_read on c (read_u16 c.recv_buf off len)

-- The `switch`, with the offset behind the fixed header.
unfoldable pub handle_packet : ℕ → Leaf → ℕ → ℕ → ℕ → Leaf × Status
handle_packet type c flags off len =
    if type == t_pkt_connack
    then on_connack c off len
    else if type == t_pkt_publish
    then on_publish c flags off len
    else if type == t_pkt_puback || type == t_pkt_pubcomp
    then on_ack complete c off len
    else if type == t_pkt_pubrec
    then on_ack on_pubrec c off len
    else if type == t_pkt_pubrel
    then on_ack on_pubrel c off len
    else if type == t_pkt_suback
    then on_ack complete c off len
    else if type == t_pkt_unsuback
    then on_ack complete c off len
    else (c, success)

abbrev pub handle_at : Leaf → ℕ → Option (ℕ × ℕ) → Leaf × Status
handle_at c len none = (c, failure)
handle_at c len (some (r, rem_len)) =
    handle_packet (packet_type c.recv_buf) c (packet_flags c.recv_buf) (1 + r) len

unfoldable pub leaf_dispatch : Leaf → ℕ → Leaf × Status
leaf_dispatch c len =
    if ltb len 2
    then (c, failure)
    else handle_at c len (decode_remaining (drop 1 c.recv_buf) (len - 1))
