-- ===== src/Broker/Safe/Dispatch.antt =====
-- branch_codec.h, lines 127 to 141 and 237 to 436: the packet handlers and `branch__dispatch` in a
-- broker whose wills and retained messages can be sent on.
mod Subscriptions
use arbor_mq.Base.{
  ℕ, ◌+◌, ◌-◌, ◌≤◌, ◌≡◌, refl, Option, none, some, ltb, false, if◌then◌else◌, Bytes, length, drop,
  arith, Returns, Returns-bind, if_keeps, ◌==◌, set,
}
use arbor_mq.Wire.{read_u16, copy_str, decode_remaining}
use arbor_mq.Wire.Remaining.{decode_remaining_bounds}
use arbor_mq.Packet.{enc_ack, enc_pingresp, t_pkt_puback, t_pkt_pubrec}
use arbor_mq.Broker.State.{
  Broker, Client, Q2, Qos2, client_at, put_client, record_effect, clock_read, max_topic, buf_size,
  disconnected_clean,
}
use arbor_mq.Broker.Tables.{
  find_slot, find_free_slot, find_duplicate, slot_at, put_slot, set_slot_state,
}
use arbor_mq.Broker.Send.{Status, success, failure, queue_and_flush}
use arbor_mq.Broker.Forward.{close_client}
use arbor_mq.Broker.Publish.{
  Message, read_publish, track_in_at, track_new, track_in, acknowledge, accept_message, succeed,
  publish_read, handle_publish, at_slot, on_puback, on_pubrec, on_pubrel, on_pubcomp, ack_read,
  handle_ack,
}
use arbor_mq.Broker.Publish.Inside.{pid_size, read_publish_inside}
use arbor_mq.Broker.Dispatch.{
  handle, handle_disconnect, packet_type, packet_flags, dispatch_at, dispatch,
}
use arbor_mq.Broker.Dispatch.Overflow.{header_room}
use arbor_mq.Broker.Room.{Forwardable, length-copy_str}
use arbor_mq.Broker.Safe.{
  Safe, Safe-if, put_client-Safe, emit-Safe, queue_and_flush-Safe, close_client-Safe, forward-Safe,
}
use arbor_mq.Broker.Safe.Connect.{handle_connect-Safe}
use arbor_mq.Broker.Safe.Dispatch.Subscriptions.{handle_subscribe-Safe, handle_unsubscribe-Safe}

put_slot-Safe : (b : Broker) (ci qi : ℕ) (q : Qos2) → Safe b → Safe (put_slot b ci qi q)
put_slot-Safe b ci qi q s =
    let c = client_at b ci in put_client-Safe b ci (record c { qos2 = set c.qos2 qi q }) s (s.0 ci)

track_in_at-Safe :
    (b : Broker) (ci pid : ℕ) (slot : Option ℕ) → Safe b → Safe (track_in_at b ci pid slot)
track_in_at-Safe b ci pid none s = s
track_in_at-Safe b ci pid (some qi) s = put_slot-Safe (record_effect b clock_read) ci qi _ s

track_new-Safe : (b : Broker) (ci pid : ℕ) (dup : Option ℕ) → Safe b → Safe (track_new b ci pid dup)
track_new-Safe b ci pid none s = track_in_at-Safe b ci pid (find_free_slot b ci) s
track_new-Safe b ci pid (some qi) s = s

acknowledge-Safe : (b : Broker) (ci qos pid : ℕ) → Safe b → Safe (acknowledge b ci qos pid)
unfolding acknowledge
acknowledge-Safe b ci qos pid s =
    Safe-if (qos == 1) _ _ (queue_and_flush-Safe b ci (enc_ack t_pkt_puback pid) s) (
      Safe-if (qos == 2) (queue_and_flush b ci (enc_ack t_pkt_pubrec pid)) b
        (queue_and_flush-Safe b ci (enc_ack t_pkt_pubrec pid) s) s)

accept_message-Safe :
    (b : Broker) (ci : ℕ) (m : Message)
    → Safe b
    → Forwardable (length m.topic) (length m.payload) m.qos
    → Returns Safe (accept_message b ci m)
unfolding accept_message track_in
accept_message-Safe b ci m s h =
    let tracked : Broker = if m.qos == 2 then track_in b ci m.pid else b in
    let tracked-Safe : Safe tracked =
      Safe-if (m.qos == 2) (track_in b ci m.pid) b
        (track_new-Safe b ci m.pid (find_duplicate b ci m.pid) s) s in
    forward-Safe (acknowledge tracked ci m.qos m.pid) (some ci) (copy_str max_topic m.topic)
      m.payload m.qos m.retain (acknowledge-Safe tracked ci m.qos m.pid tracked-Safe)
      (omega (arith, h, length-copy_str max_topic m.topic))

-- The handler does not fault, and leaves the broker safe.
abbrev pub HandlesSafely : Option (Broker × Status) → Type 0
HandlesSafely = Returns (λ r. Safe r.0)

succeed-Safe : (r : Option Broker) → Returns Safe r → HandlesSafely (succeed r)
succeed-Safe none h = h
succeed-Safe (some b) h = h

handle_publish-Safe :
    (b : Broker) (ci flags off len : ℕ)
    → Safe b
    → len ≤ off + 4093
    → HandlesSafely (handle_publish b ci flags off len)
unfolding handle_publish
handle_publish-Safe b ci flags off len s h =
    at (read_publish (client_at b ci).recv_buf flags off len) refl
  where
    at :
        (x : Option Message)
        → read_publish (client_at b ci).recv_buf flags off len ≡ x
        → HandlesSafely (publish_read b ci x)
    at none q = s
    at (some m) q =
        let inside = read_publish_inside (client_at b ci).recv_buf flags off len m q in
        succeed-Safe (accept_message b ci m) (accept_message-Safe b ci m s (omega (arith, inside)))

-- A slot is set, a packet queued, and the slot set again.
answer_slot-Safe :
    (b : Broker) (ci qi : ℕ) (q : Qos2) (pkt : Bytes) (to : Q2)
    → Safe b
    → Safe (set_slot_state (queue_and_flush (put_slot b ci qi q) ci pkt) ci qi to)
answer_slot-Safe b ci qi q pkt to s =
    let b' = put_slot b ci qi q in
    put_slot-Safe (queue_and_flush b' ci pkt) ci qi _
      (queue_and_flush-Safe b' ci pkt (put_slot-Safe b ci qi q s))

at_slot-Safe :
    (b : Broker) (f : ℕ → Broker) (slot : Option ℕ)
    → Safe b
    → ((qi : ℕ) → Safe (f qi))
    → Safe (at_slot f b slot)
at_slot-Safe b f none s h = s
at_slot-Safe b f (some qi) s h = h qi

module _ (b : Broker) (ci : ℕ) (s : Safe b) where
  on_puback-Safe : (pid : ℕ) → Safe (on_puback b ci pid)
  unfolding on_puback
  on_puback-Safe pid = at_slot-Safe b _ (find_slot b ci pid _) s (λ qi. put_slot-Safe b ci qi _ s)

  on_pubrec-Safe : (pid : ℕ) → Safe (on_pubrec b ci pid)
  unfolding on_pubrec
  on_pubrec-Safe pid =
      at_slot-Safe b _ (find_slot b ci pid _) s (λ qi. answer_slot-Safe b ci qi _ _ _ s)

  on_pubrel-Safe : (pid : ℕ) → Safe (on_pubrel b ci pid)
  unfolding on_pubrel
  on_pubrel-Safe pid =
      at_slot-Safe b _ (find_slot b ci pid _) s (λ qi. answer_slot-Safe b ci qi _ _ _ s)

  on_pubcomp-Safe : (pid : ℕ) → Safe (on_pubcomp b ci pid)
  unfolding on_pubcomp
  on_pubcomp-Safe pid = at_slot-Safe b _ (find_slot b ci pid _) s (λ qi. put_slot-Safe b ci qi _ s)

  handle_ack-Safe :
      (on : ℕ → Broker) (off len : ℕ)
      → ((pid : ℕ) → Safe (on pid))
      → Safe (handle_ack on b ci off len).0
  unfolding handle_ack
  handle_ack-Safe on off len h = read (read_u16 (client_at b ci).recv_buf off len)
    where
      read : (r : Option (ℕ × ℕ)) → Safe (ack_read on b r).0
      read none = s
      read (some (pid, o)) = h pid

  handle_disconnect-Safe : HandlesSafely (handle_disconnect b ci)
  unfolding handle_disconnect
  handle_disconnect-Safe =
      let c = record (client_at b ci) { has_will = false } in
      let b' = put_client b ci c in
      Returns-bind Safe (λ r. Safe r.0) (close_client b' ci) _
        (close_client-Safe b' ci (put_client-Safe b ci c s (s.0 ci)))
        (λ d t. emit-Safe d (disconnected_clean _) t)

  -- Each case of the `switch`.
  handle-Safe :
      (type flags off len : ℕ) → len ≤ off + 4093 → HandlesSafely (handle type b ci flags off len)
  unfolding handle
  handle-Safe type flags off len h =
      let P = HandlesSafely in
      if_keeps P (type == 1) (handle_connect-Safe b ci off len s) (
        if_keeps P (type == 3) (handle_publish-Safe b ci flags off len s h) (
          if_keeps P (type == 4) (handle_ack-Safe (on_puback b ci) off len on_puback-Safe) (
            if_keeps P (type == 5) (handle_ack-Safe (on_pubrec b ci) off len on_pubrec-Safe) (
              if_keeps P (type == 6) (handle_ack-Safe (on_pubrel b ci) off len on_pubrel-Safe) (
                if_keeps P (type == 7) (handle_ack-Safe (on_pubcomp b ci) off len on_pubcomp-Safe) (
                  if_keeps P (type == 8) (handle_subscribe-Safe b ci off len s) (
                    if_keeps P (type == 10) (handle_unsubscribe-Safe b ci off len s) (
                      if_keeps P (type == 12) (queue_and_flush-Safe b ci enc_pingresp s)
                        (if_keeps P (type == 14) handle_disconnect-Safe s)))))))))

-- A complete packet reaches the `switch`.
pub dispatch-handle :
    (b : Broker) (ci r rem : ℕ)
    → decode_remaining (drop 1 (client_at b ci).recv_buf) (r + rem) ≡ some (r, rem)
    → dispatch b ci (1 + r + rem) ≡ (
        let p = (client_at b ci).recv_buf in
        handle (packet_type p) b ci (packet_flags p) (1 + r) (1 + r + rem))
unfolding dispatch
dispatch-handle b ci r rem d =
    let (one, _, _, _) =
      decode_remaining_bounds (drop 1 (client_at b ci).recv_buf) (r + rem) r rem d in
    let long : ltb (1 + r + rem) 2 ≡ false = ground (arith, one) in
    let size : 1 + r + rem - 1 ≡ r + rem = omega arith in rw (long, size, d) refl

pub dispatch-Safe :
    (b : Broker) (ci r rem : ℕ)
    → Safe b
    → decode_remaining (drop 1 (client_at b ci).recv_buf) (r + rem) ≡ some (r, rem)
    → 1 + r + rem ≤ buf_size
    → Returns (λ x. Safe x.0) (dispatch b ci (1 + r + rem))
dispatch-Safe b ci r rem s d h =
    let p = (client_at b ci).recv_buf in
    rw (dispatch-handle b ci r rem d) (
      handle-Safe b ci s (packet_type p) (packet_flags p) (1 + r) (1 + r + rem)
        (header_room (drop 1 p) r rem d h))
