-- ===== src/Broker/Dispatch/Overflow.antt =====
-- branch_codec.h, lines 237 to 289, and branch_broker.h, lines 89 to 124: the packet buffer of
-- `branch__forward`, where the message came in a PUBLISH packet.
use arbor_mq.Base.{
  ℕ, ◌+◌, ◌≤◌, ◌≡◌, refl, ap, ◌∙◌, Option, none, some, ◌==◌, if◌then◌else◌, Bytes, length, Returns,
  Bool-cases, inl, inr, arith,
}
use arbor_mq.Wire.{copy_str, decode_remaining}
use arbor_mq.Wire.Remaining.{decode_remaining_bounds}
use arbor_mq.Wire.Short.{decode_remaining_one}
use arbor_mq.Broker.State.{Broker, buf_size, max_topic, client_at}
use arbor_mq.Broker.Publish.{
  Message, read_publish, track_in, acknowledge, accept_message, succeed, publish_read,
  handle_publish,
}
use arbor_mq.Broker.Publish.Inside.{read_publish_inside}
use arbor_mq.Broker.Room.{Forwardable, Done, forward-Returns, length-copy_str}

accept_message-Returns :
    (b : Broker) (ci : ℕ) (m : Message)
    → Forwardable (length m.topic) (length m.payload) m.qos
    → Returns Done (accept_message b ci m)
unfolding accept_message
accept_message-Returns b ci m h =
    let b' : Broker = if m.qos == 2 then track_in b ci m.pid else b in
    forward-Returns (acknowledge b' ci m.qos m.pid) (some ci) (copy_str max_topic m.topic) m.payload
      m.qos m.retain (omega (arith, h, length-copy_str max_topic m.topic))

pub handle_publish-Returns :
    (b : Broker) (ci flags off len : ℕ)
    → len ≤ off + 4093
    → Returns (λ r. Done r.0) (handle_publish b ci flags off len)
unfolding handle_publish
handle_publish-Returns b ci flags off len h =
    at (read_publish (client_at b ci).recv_buf flags off len) refl
  where
    done : (r : Option Broker) → Returns Done r → Returns (λ r. Done r.0) (succeed r)
    done none h = h
    done (some b') h = h

    at :
        (x : Option Message)
        → read_publish (client_at b ci).recv_buf flags off len ≡ x
        → Returns (λ r. Done r.0) (publish_read b ci x)
    at none q = tt
    at (some m) q =
        let inside = read_publish_inside (client_at b ci).recv_buf flags off len m q in
        done (accept_message b ci m) (accept_message-Returns b ci m (omega (arith, inside)))

-- A long header leaves less room, and a short one has a small length.
pub header_room :
    (p : Bytes) (r rem : ℕ)
    → decode_remaining p (r + rem) ≡ some (r, rem)
    → 1 + r + rem ≤ buf_size
    → 1 + r + rem ≤ 1 + r + 4093
header_room p r rem d h = elim (Bool-cases (r == 1)) [
  | inl t ↦
      let one : r ≡ 1 = ground arith in
      omega (arith, decode_remaining_one p (r + rem) rem (d ∙ ap (λ n. some (n, rem)) one))
  | inr f ↦ ground (arith, decode_remaining_bounds p (r + rem) r rem d)
]
