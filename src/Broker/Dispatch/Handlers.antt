-- ===== src/Broker/Dispatch/Handlers.antt =====
-- Every handler but that of DISCONNECT leaves the receive buffer of its client alone.
use arbor_mq.Base.{
  ℕ, ◌+◌, ◌≢◌, refl, Option, none, some, ltb, if◌then◌else◌, Bytes, Ensures, Ensures-weaken,
  Ensures-if, ◌==◌, set,
}
use arbor_mq.Wire.{read_u16, copy_str}
use arbor_mq.Packet.{enc_ack, enc_pingresp, t_pkt_puback, t_pkt_pubrec, t_pkt_disconnect}
use arbor_mq.Broker.State.{Broker, Q2, Qos2, client_at, record_effect, clock_read, max_topic}
use arbor_mq.Broker.Tables.{
  find_slot, find_free_slot, find_duplicate, slot_at, put_slot, set_slot_state,
}
use arbor_mq.Broker.Send.{Status, success, failure, queue_and_flush}
use arbor_mq.Broker.Publish.{
  Message, read_publish, track_in_at, track_new, track_in, acknowledge, accept_message, succeed,
  publish_read, handle_publish, at_slot, on_puback, on_pubrec, on_pubrel, on_pubcomp, ack_read,
  handle_ack,
}
use arbor_mq.Broker.Dispatch.{
  handle, handle_disconnect, packet_type, packet_flags, dispatch_at, dispatch,
}
use arbor_mq.Broker.Input.{
  KeepsInput, KeepsInput-trans, KeepsInput-queue_and_flush, KeepsInput-put_client,
  KeepsInput-forward,
}
use arbor_mq.Broker.Dispatch.Connect.{
  HandlerKeeps, other_index, KeepsInput-if, KeepsInput-handle_connect,
}
use arbor_mq.Broker.Dispatch.Subscriptions.{HandlerKeeps-subscribe, KeepsInput-handle_unsubscribe}

KeepsInput-set_slot : (b : Broker) (ci qi : ℕ) (q : Qos2) → KeepsInput ci b (put_slot b ci qi q)
KeepsInput-set_slot b ci qi q =
    let c = client_at b ci in
    KeepsInput-put_client ci b ci (record c { qos2 = set c.qos2 qi q }) (refl, refl)

KeepsInput-track_in_at :
    (b : Broker) (ci pid : ℕ) (slot : Option ℕ) → KeepsInput ci b (track_in_at b ci pid slot)
KeepsInput-track_in_at b ci pid none = (refl, refl)
KeepsInput-track_in_at b ci pid (some qi) = KeepsInput-set_slot (record_effect b clock_read) ci qi _

KeepsInput-track_new :
    (b : Broker) (ci pid : ℕ) (dup : Option ℕ) → KeepsInput ci b (track_new b ci pid dup)
KeepsInput-track_new b ci pid none = KeepsInput-track_in_at b ci pid (find_free_slot b ci)
KeepsInput-track_new b ci pid (some qi) = (refl, refl)

KeepsInput-acknowledge : (b : Broker) (ci qos pid : ℕ) → KeepsInput ci b (acknowledge b ci qos pid)
unfolding acknowledge
KeepsInput-acknowledge b ci qos pid =
    KeepsInput-if (qos == 1) ci b _ _
      (KeepsInput-queue_and_flush ci b ci (enc_ack t_pkt_puback pid))
      (KeepsInput-if (qos == 2) ci b _ b
        (KeepsInput-queue_and_flush ci b ci (enc_ack t_pkt_pubrec pid)) (refl, refl))

KeepsInput-accept_message :
    (b : Broker) (ci : ℕ) (m : Message) → Ensures (KeepsInput ci b) (accept_message b ci m)
unfolding accept_message track_in
KeepsInput-accept_message b ci m =
    let tracked : Broker = if m.qos == 2 then track_in b ci m.pid else b in
    let acked = acknowledge tracked ci m.qos m.pid in
    let first =
      KeepsInput-trans ci b tracked acked
        (KeepsInput-if (m.qos == 2) ci b (track_in b ci m.pid) b
          (KeepsInput-track_new b ci m.pid (find_duplicate b ci m.pid)) (refl, refl))
        (KeepsInput-acknowledge tracked ci m.qos m.pid) in
    Ensures-weaken (KeepsInput ci acked) (KeepsInput ci b) _
      (λ b' k. KeepsInput-trans ci b acked b' first k)
      (KeepsInput-forward ci acked (some ci) (copy_str max_topic m.topic) m.payload m.qos m.retain)

HandlerKeeps-succeed :
    (ci : ℕ) (b : Broker) (r : Option Broker)
    → Ensures (KeepsInput ci b) r
    → HandlerKeeps ci b (succeed r)
HandlerKeeps-succeed ci b none h = tt
HandlerKeeps-succeed ci b (some b') h = h

HandlerKeeps-publish_read :
    (b : Broker) (ci : ℕ) (m : Option Message) → HandlerKeeps ci b (publish_read b ci m)
HandlerKeeps-publish_read b ci none = (refl, refl)
HandlerKeeps-publish_read b ci (some m) =
    HandlerKeeps-succeed ci b (accept_message b ci m) (KeepsInput-accept_message b ci m)

HandlerKeeps-publish :
    (b : Broker) (ci flags off len : ℕ) → HandlerKeeps ci b (handle_publish b ci flags off len)
unfolding handle_publish
HandlerKeeps-publish b ci flags off len =
    HandlerKeeps-publish_read b ci (read_publish (client_at b ci).recv_buf flags off len)

-- A slot is set, a packet queued, and the slot set again.
KeepsInput-answer_slot :
    (b : Broker) (ci qi : ℕ) (q : Qos2) (pkt : Bytes) (to : Q2)
    → KeepsInput ci b (set_slot_state (queue_and_flush (put_slot b ci qi q) ci pkt) ci qi to)
KeepsInput-answer_slot b ci qi q pkt to =
    let b' = put_slot b ci qi q in
    let b'' = queue_and_flush b' ci pkt in
    KeepsInput-trans ci b b'' (set_slot_state b'' ci qi to)
      (KeepsInput-trans ci b b' b'' (KeepsInput-set_slot b ci qi q)
        (KeepsInput-queue_and_flush ci b' ci pkt))
      (KeepsInput-set_slot b'' ci qi (record (slot_at b'' ci qi) { state = to }))

KeepsInput-at_slot :
    (b : Broker) (ci : ℕ) (f : ℕ → Broker) (slot : Option ℕ)
    → ((qi : ℕ) → KeepsInput ci b (f qi))
    → KeepsInput ci b (at_slot f b slot)
KeepsInput-at_slot b ci f none h = (refl, refl)
KeepsInput-at_slot b ci f (some qi) h = h qi

module _ (b : Broker) (ci : ℕ) where
  KeepsInput-on_puback : (pid : ℕ) → KeepsInput ci b (on_puback b ci pid)
  unfolding on_puback
  KeepsInput-on_puback pid =
      KeepsInput-at_slot b ci _ (find_slot b ci pid _) (λ qi. KeepsInput-set_slot b ci qi _)

  KeepsInput-on_pubrec : (pid : ℕ) → KeepsInput ci b (on_pubrec b ci pid)
  unfolding on_pubrec
  KeepsInput-on_pubrec pid =
      KeepsInput-at_slot b ci _ (find_slot b ci pid _) (λ qi. KeepsInput-answer_slot b ci qi _ _ _)

  KeepsInput-on_pubrel : (pid : ℕ) → KeepsInput ci b (on_pubrel b ci pid)
  unfolding on_pubrel
  KeepsInput-on_pubrel pid =
      KeepsInput-at_slot b ci _ (find_slot b ci pid _) (λ qi. KeepsInput-answer_slot b ci qi _ _ _)

  KeepsInput-on_pubcomp : (pid : ℕ) → KeepsInput ci b (on_pubcomp b ci pid)
  unfolding on_pubcomp
  KeepsInput-on_pubcomp pid =
      KeepsInput-at_slot b ci _ (find_slot b ci pid _) (λ qi. KeepsInput-set_slot b ci qi _)

  KeepsInput-ack :
      (on : ℕ → Broker) (off len : ℕ)
      → ((pid : ℕ) → KeepsInput ci b (on pid))
      → KeepsInput ci b (handle_ack on b ci off len).0
  unfolding handle_ack
  KeepsInput-ack on off len h = read (read_u16 (client_at b ci).recv_buf off len)
    where
      read : (r : Option (ℕ × ℕ)) → KeepsInput ci b (ack_read on b r).0
      read none = (refl, refl)
      read (some (pid, o)) = h pid

not_disconnect :
    (type : ℕ) (b : Broker) (ci : ℕ)
    → type ≢ t_pkt_disconnect
    → HandlerKeeps ci b
        (if type == t_pkt_disconnect then handle_disconnect b ci else some (b, success))
not_disconnect type b ci h = rw (other_index type t_pkt_disconnect h) (refl, refl)

-- Each case of the `switch`.
HandlerKeeps-handle :
    (type : ℕ) (b : Broker) (ci flags off len : ℕ)
    → type ≢ t_pkt_disconnect
    → HandlerKeeps ci b (handle type b ci flags off len)
unfolding handle
HandlerKeeps-handle type b ci flags off len h =
    let P = λ (r : Broker × Status). KeepsInput ci b r.0 in
    Ensures-if (type == 1) P _ _ (KeepsInput-handle_connect b ci off len) (
      Ensures-if (type == 3) P _ _ (HandlerKeeps-publish b ci flags off len) (
        Ensures-if (type == 4) P _ _ (KeepsInput-ack b ci _ off len (KeepsInput-on_puback b ci)) (
          Ensures-if (type == 5) P _ _ (KeepsInput-ack b ci _ off len (KeepsInput-on_pubrec b ci)) (
            Ensures-if (type == 6) P _ _ (KeepsInput-ack b ci _ off len (KeepsInput-on_pubrel b ci))
              (Ensures-if (type == 7) P _ _
                (KeepsInput-ack b ci _ off len (KeepsInput-on_pubcomp b ci))
                (Ensures-if (type == 8) P _ _ (HandlerKeeps-subscribe b ci off len) (
                  Ensures-if (type == 10) P _ _ (KeepsInput-handle_unsubscribe b ci off len) (
                    Ensures-if (type == 12) P _ _ (KeepsInput-queue_and_flush ci b ci enc_pingresp)
                      (not_disconnect type b ci h)))))))))

HandlerKeeps-dispatch_at :
    (b : Broker) (ci len : ℕ) (r : Option (ℕ × ℕ))
    → packet_type (client_at b ci).recv_buf ≢ t_pkt_disconnect
    → HandlerKeeps ci b (dispatch_at b ci len r)
HandlerKeeps-dispatch_at b ci len none h = (refl, refl)
HandlerKeeps-dispatch_at b ci len (some (r, rem_len)) h =
    HandlerKeeps-handle _ b ci (packet_flags (client_at b ci).recv_buf) (1 + r) len h

-- While `dispatch` handles a packet that is not a DISCONNECT, the bytes in the receive buffer of the
-- sender and their number stay the same, whatever else it does to this client and to the others.
pub dispatch-KeepsInput :
    (b : Broker) (ci len : ℕ)
    → packet_type (client_at b ci).recv_buf ≢ t_pkt_disconnect
    → Ensures (λ r. KeepsInput ci b r.0) (dispatch b ci len)
unfolding dispatch
dispatch-KeepsInput b ci len h =
    Ensures-if (ltb len 2) (λ r. KeepsInput ci b r.0) (some (b, failure)) _ (refl, refl)
      (HandlerKeeps-dispatch_at b ci len _ h)
