-- ===== src/Broker/Dispatch/Closing.antt =====
-- What `branch__dispatch` leaves of the input, where it handles a DISCONNECT packet too.
use arbor_mq.Base.{
  ℕ, ◌+◌, ◌-◌, ◌≡◌, refl, ◌∙◌, Bool, true, false, Option, none, some, ltb, length, arith, drop, ◌⊎◌,
  inl, inr, ◌<◌, length-set, Ensures, Ensures-bind, Ensures-weaken, Ensures-if,
}
use native.Mathlib.Decide.{ℕ_discrete}
use arbor_mq.Wire.{decode_remaining}
use arbor_mq.Packet.{t_pkt_disconnect}
use arbor_mq.Broker.State.{Broker, Event, emit_if, zero_client, client_at, put_client}
use arbor_mq.Broker.Send.{failure}
use arbor_mq.Broker.Forward.{close_client}
use arbor_mq.Broker.Dispatch.{
  handle, handle_disconnect, packet_type, packet_flags, dispatch_at, dispatch,
}
use arbor_mq.Broker.Input.{KeepsInput, close_client-zero}
use arbor_mq.Broker.Dispatch.Handlers.{dispatch-KeepsInput}

recv_len-emit :
    (on : Bool) (b : Broker) (ci : ℕ) (e : Event) → client_at (emit_if on b e) ci ≡ client_at b ci
recv_len-emit true b ci e = refl
recv_len-emit false b ci e = refl

disconnect-clears :
    (b : Broker) (ci : ℕ)
    → ci < length b.clients
    → Ensures (λ r. client_at r.0 ci ≡ zero_client) (handle_disconnect b ci)
unfolding handle_disconnect
disconnect-clears b ci h =
    let c = client_at b ci in
    let b' = put_client b ci (record c { has_will = false }) in
    Ensures-bind (λ d. client_at d ci ≡ zero_client) (λ r. client_at r.0 ci ≡ zero_client)
      (close_client b' ci) _
      (close_client-zero b' ci
        (omega (arith, length-set b.clients ci (record c { has_will = false }))))
      (λ d e. recv_len-emit d.os.on_event d ci _ ∙ e)

pub handle_of_disconnect :
    (b : Broker) (ci flags off len : ℕ)
    → handle t_pkt_disconnect b ci flags off len ≡ handle_disconnect b ci
unfolding handle
handle_of_disconnect b ci flags off len = refl

dispatch_disconnect :
    (b : Broker) (ci len : ℕ)
    → ci < length b.clients
    → packet_type (client_at b ci).recv_buf ≡ t_pkt_disconnect
    → Ensures (λ r. KeepsInput ci b r.0 ⊎ (client_at r.0 ci ≡ zero_client)) (dispatch b ci len)
unfolding dispatch
dispatch_disconnect b ci len h e =
    Ensures-if (ltb len 2) (λ r. KeepsInput ci b r.0 ⊎ (client_at r.0 ci ≡ zero_client))
      (some (b, failure)) _ (inl (refl, refl))
      (at (decode_remaining (drop 1 (client_at b ci).recv_buf) (len - 1)))
  where
    at :
        (r : Option (ℕ × ℕ))
        → Ensures
            (λ r. KeepsInput ci b r.0 ⊎ (client_at r.0 ci ≡ zero_client))
            (dispatch_at b ci len r)
    at none = inl (refl, refl)
    at (some (n, v)) =
        rw (e, handle_of_disconnect b ci (packet_flags (client_at b ci).recv_buf) (1 + n) len)
          (Ensures-weaken (λ r. client_at r.0 ci ≡ zero_client) _ _ (λ r z. inr z)
            (disconnect-clears b ci h))

-- After any packet the client has its input as before, or its slot is cleared.
pub dispatch-input :
    (b : Broker) (ci len : ℕ)
    → ci < length b.clients
    → Ensures (λ r. KeepsInput ci b r.0 ⊎ (client_at r.0 ci ≡ zero_client)) (dispatch b ci len)
dispatch-input b ci len h =
    elim (ℕ_discrete (packet_type (client_at b ci).recv_buf) t_pkt_disconnect) [
      | yes e ↦ dispatch_disconnect b ci len h e
      | no n ↦
          Ensures-weaken (λ r. KeepsInput ci b r.0) _ _ (λ r k. inl k)
            (dispatch-KeepsInput b ci len n)
    ]
