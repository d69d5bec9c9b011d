-- ===== src/Broker/Publish.antt =====
-- branch_codec.h, lines 237 to 339: the handlers of PUBLISH and of its four acknowledgements.
pub mod Inside
pub mod Slots
use arbor_mq.Base.{ℕ, ◌-◌, ◌%◌, Option, none, some, ◌==◌, ltb, if◌then◌else◌, ◌>>=◌, Bytes, shr}
use arbor_mq.Wire.{copy_str, slice, read_u16, read_str}
use arbor_mq.Packet.{enc_ack, t_pkt_puback, t_pkt_pubrec, t_pkt_pubrel, t_pkt_pubcomp}
use arbor_mq.Broker.State.{
  Broker, free, in_pubrec_sent, in_pubrel_rcvd, out_publish_sent, out_pubrec_rcvd, out_pubrel_sent,
  clock_read, now_ms, record_effect, max_topic, client_at,
}
use arbor_mq.Broker.Tables.{
  find_slot, find_free_slot, find_duplicate, slot_at, put_slot, set_slot_state,
}
use arbor_mq.Broker.Send.{Status, success, failure, queue_and_flush}
use arbor_mq.Broker.Forward.{forward}

-- The fields of a PUBLISH packet. The topic is the bytes in the packet.
pub record Message : Type 0 where
  pub qos : ℕ
  pub retain : ℕ
  pub topic : Bytes
  pub pid : ℕ
  pub payload : Bytes

-- A packet id is there only with a QoS above 0.
abbrev pub read_pid : Bytes → ℕ → ℕ → ℕ → Option (ℕ × ℕ)
read_pid p qos off len = if ltb 0 qos then read_u16 p off len else some (0, off)

-- `off` is at most `len`, so `len - off` does not wrap.
unfoldable pub read_publish : Bytes → ℕ → ℕ → ℕ → Option Message
read_publish p flags off len = do
  (topic, o1) ← read_str p off len
  (pid, o2) ← read_pid p (shr flags 1 % 4) o1 len
  some (record {
    qos = shr flags 1 % 4;
    retain = flags % 2;
    topic = topic;
    pid = pid;
    payload = slice p o2 (len - o2);
  })

abbrev pub track_in_at : Broker → ℕ → ℕ → Option ℕ → Broker
track_in_at b ci pid none = b
track_in_at b ci pid (some qi) =
    put_slot (record_effect b clock_read) ci qi (record (slot_at b ci qi) {
      pid = pid;
      state = in_pubrec_sent;
      from_client = ci % 256;
      t_ms = now_ms b;
    })

abbrev pub track_new : Broker → ℕ → ℕ → Option ℕ → Broker
track_new b ci pid none = track_in_at b ci pid (find_free_slot b ci)
track_new b ci pid (some qi) = b

-- The duplicate test, and the slot for a message that is none.
unfoldable pub track_in : Broker → ℕ → ℕ → Broker
track_in b ci pid = track_new b ci pid (find_duplicate b ci pid)

unfoldable pub acknowledge : Broker → ℕ → ℕ → ℕ → Broker
acknowledge b ci qos pid =
    if qos == 1
    then queue_and_flush b ci (enc_ack t_pkt_puback pid)
    else if qos == 2
    then queue_and_flush b ci (enc_ack t_pkt_pubrec pid)
    else b

-- The message is forwarded whether or not it is a duplicate.
unfoldable pub accept_message : Broker → ℕ → Message → Option Broker
accept_message b ci m =
    let b' = if m.qos == 2 then track_in b ci m.pid else b in
    forward (acknowledge b' ci m.qos m.pid) (some ci) (copy_str max_topic m.topic) m.payload m.qos
      m.retain

abbrev pub succeed : Option Broker → Option (Broker × Status)
succeed none = none
succeed (some b) = some (b, success)

abbrev pub publish_read : Broker → ℕ → Option Message → Option (Broker × Status)
publish_read b ci none = some (b, failure)
publish_read b ci (some m) = succeed (accept_message b ci m)

unfoldable pub handle_publish : Broker → ℕ → ℕ → ℕ → ℕ → Option (Broker × Status)
handle_publish b ci flags off len =
    publish_read b ci (read_publish (client_at b ci).recv_buf flags off len)

-- What the four handlers do with the slot that they find.
abbrev pub at_slot : (ℕ → Broker) → Broker → Option ℕ → Broker
at_slot f b none = b
at_slot f b (some qi) = f qi

unfoldable pub on_puback : Broker → ℕ → ℕ → Broker
on_puback b ci pid =
    at_slot (λ qi. set_slot_state b ci qi free) b (find_slot b ci pid out_publish_sent)

-- The slot is `out_pubrec_rcvd` while the PUBREL is queued.
abbrev pub release_out : Broker → ℕ → ℕ → ℕ → Broker
release_out b ci pid qi =
    let b' = set_slot_state b ci qi out_pubrec_rcvd in
    set_slot_state (queue_and_flush b' ci (enc_ack t_pkt_pubrel pid)) ci qi out_pubrel_sent

unfoldable pub on_pubrec : Broker → ℕ → ℕ → Broker
on_pubrec b ci pid = at_slot (release_out b ci pid) b (find_slot b ci pid out_publish_sent)

-- The slot is `in_pubrel_rcvd` while the PUBCOMP is queued.
abbrev pub complete_in : Broker → ℕ → ℕ → ℕ → Broker
complete_in b ci pid qi =
    let b' = set_slot_state b ci qi in_pubrel_rcvd in
    set_slot_state (queue_and_flush b' ci (enc_ack t_pkt_pubcomp pid)) ci qi free

unfoldable pub on_pubrel : Broker → ℕ → ℕ → Broker
on_pubrel b ci pid = at_slot (complete_in b ci pid) b (find_slot b ci pid in_pubrec_sent)

unfoldable pub on_pubcomp : Broker → ℕ → ℕ → Broker
on_pubcomp b ci pid =
    at_slot (λ qi. set_slot_state b ci qi free) b (find_slot b ci pid out_pubrel_sent)

abbrev pub ack_read : (ℕ → Broker) → Broker → Option (ℕ × ℕ) → Broker × Status
ack_read on b none = (b, failure)
ack_read on b (some (pid, off)) = (on pid, success)

-- The reading that the four handlers have in common.
unfoldable pub handle_ack : (ℕ → Broker) → Broker → ℕ → ℕ → ℕ → Broker × Status
handle_ack on b ci off len = ack_read on b (read_u16 (client_at b ci).recv_buf off len)
