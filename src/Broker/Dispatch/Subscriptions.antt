-- ===== src/Broker/Dispatch/Subscriptions.antt =====
-- SUBSCRIBE and UNSUBSCRIBE leave the receive buffer of their client alone.
use arbor_mq.Base.{
  ℕ, zero, suc, ◌-◌, ◌%◌, refl, Option, none, some, [], ◌∷◌, ◌++◌, ltb, Bytes, length, Ensures,
  Ensures-bind, Ensures-if,
}
use arbor_mq.Wire.{read_u16, read_str, copy_str}
use arbor_mq.Packet.{enc_unsuback}
use arbor_mq.Broker.State.{Broker, client_at, put_client, put_sub, max_topic, max_pending}
use arbor_mq.Broker.Tables.{find_free_sub}
use arbor_mq.Broker.Send.{queue_and_flush}
use arbor_mq.Broker.Subscribe.{
  read_filter, track_sub, fill_sub, add_sub_at, add_sub, subscribe_next, subscribe_loop, suback,
  subscribe_read, handle_subscribe, remove_subs, unsubscribe, unsubscribe_next, unsubscribe_loop,
  unsubscribe_read, handle_unsubscribe,
}
use arbor_mq.Broker.Keeps.{Through}
use arbor_mq.Broker.Input.{
  SameInput, SameInput-Kept, KeepsInput, KeepsInput-trans, KeepsInput-queue_and_flush,
  KeepsInput-put_client, Through-send_retained,
}
use arbor_mq.Broker.Dispatch.Connect.{HandlerKeeps, KeepsInput-if}

KeepsInput-track_sub : (b : Broker) (ci si : ℕ) → KeepsInput ci b (track_sub b ci si)
unfolding track_sub
KeepsInput-track_sub b ci si =
    let c = client_at b ci in
    let c' = record c { sub_indices = c.sub_indices ++ si % 256 ∷ [] } in
    KeepsInput-if (ltb (length c.sub_indices) max_pending) ci b (put_client b ci c') b
      (KeepsInput-put_client ci b ci c' (refl, refl)) (refl, refl)

KeepsInput-fill_sub :
    (b : Broker) (ci si : ℕ) (topic_filter : Bytes) (rqos : ℕ)
    → KeepsInput ci b (fill_sub b ci si topic_filter rqos)
unfolding fill_sub
KeepsInput-fill_sub b ci si topic_filter rqos = KeepsInput-track_sub (put_sub b si _) ci si

-- A broker with a number or a list beside it.
abbrev PairKeeps : {A : Type 0} → ℕ → Broker → Option (Broker × A) → Type 0
PairKeeps ci b = Ensures (λ r. KeepsInput ci b r.0)

PairKeeps-add_sub_at :
    (b : Broker) (ci : ℕ) (si : Option ℕ) (topic_filter : Bytes) (rqos rc_count : ℕ)
    → PairKeeps ci b (add_sub_at b ci si topic_filter rqos rc_count)
PairKeeps-add_sub_at b ci none topic_filter rqos rc_count = (refl, refl)
PairKeeps-add_sub_at b ci (some si) topic_filter rqos rc_count =
    let b' = fill_sub b ci si topic_filter rqos in
    Ensures-if (ltb rc_count max_pending) (λ r. KeepsInput ci b r.0) _ (some (b, 0x80))
      (Ensures-bind (Through SameInput b') (λ r. KeepsInput ci b r.0) _ _
        (Through-send_retained SameInput-Kept b' ci (copy_str max_topic topic_filter))
        (λ b'' t.
          KeepsInput-trans ci b b' b'' (KeepsInput-fill_sub b ci si topic_filter rqos) (t.each ci)))
      (refl, refl)

PairKeeps-subscribe_next :
    (next : Broker → ℕ → Bytes → Option (Broker × Bytes)) (a b : Broker) (ci : ℕ) (rcs : Bytes)
    (r : Option (Bytes × ℕ × ℕ))
    → ((c : Broker) (o : ℕ) (rcs' : Bytes) → KeepsInput ci a c → PairKeeps ci a (next c o rcs'))
    → KeepsInput ci a b
    → PairKeeps ci a (subscribe_next next b ci rcs r)
PairKeeps-subscribe_next next a b ci rcs none h k = k
PairKeeps-subscribe_next next a b ci rcs (some (topic_filter, rqos, o)) h k =
    Ensures-bind (λ r. KeepsInput ci b r.0) (λ r. KeepsInput ci a r.0)
      (add_sub b ci topic_filter rqos (length rcs)) _
      (unfold add_sub in PairKeeps-add_sub_at b ci (find_free_sub b) topic_filter rqos (length rcs))
      (λ r l. h r.0 o (rcs ++ r.1 ∷ []) (KeepsInput-trans ci a b r.0 k l))

PairKeeps-subscribe_loop :
    (rounds : ℕ) (a b : Broker) (ci : ℕ) (p : Bytes) (off len : ℕ) (rcs : Bytes)
    → KeepsInput ci a b
    → PairKeeps ci a (subscribe_loop rounds b ci p off len rcs)
unfolding subscribe_loop
PairKeeps-subscribe_loop zero a b ci p off len rcs k = k
PairKeeps-subscribe_loop (suc rounds) a b ci p off len rcs k =
    Ensures-if (ltb off len) (λ r. KeepsInput ci a r.0) _ (some (b, rcs))
      (PairKeeps-subscribe_next _ a b ci rcs (read_filter p off len)
        (λ c o rcs' l. PairKeeps-subscribe_loop rounds a c ci p o len rcs' l) k)
      k

HandlerKeeps-subscribe_read :
    (b : Broker) (ci len : ℕ) (r : Option (ℕ × ℕ)) → HandlerKeeps ci b (subscribe_read b ci len r)
HandlerKeeps-subscribe_read b ci len none = (refl, refl)
HandlerKeeps-subscribe_read b ci len (some (pid, off)) =
    Ensures-bind (λ r. KeepsInput ci b r.0) (λ r. KeepsInput ci b r.0)
      (subscribe_loop 32 b ci (client_at b ci).recv_buf off len []) _
      (PairKeeps-subscribe_loop 32 b b ci (client_at b ci).recv_buf off len [] (refl, refl))
      (λ r k.
        KeepsInput-trans ci b r.0 (queue_and_flush r.0 ci (suback pid r.1)) k
          (KeepsInput-queue_and_flush ci r.0 ci (suback pid r.1)))

KeepsInput-unsubscribe :
    (b : Broker) (ci : ℕ) (topic_filter : Bytes) → KeepsInput ci b (unsubscribe b ci topic_filter)
unfolding unsubscribe
KeepsInput-unsubscribe b ci topic_filter =
    let c = client_at b ci in
    let r =
      remove_subs (length c.sub_indices) 0 (copy_str max_topic topic_filter) c.sub_indices b.subs in
    KeepsInput-put_client ci (record b { subs = r.1 }) ci (record c { sub_indices = r.0 })
      (refl, refl)

KeepsInput-unsubscribe_next :
    (next : Broker → ℕ → Broker) (a b : Broker) (ci : ℕ) (r : Option (Bytes × ℕ))
    → ((c : Broker) (o : ℕ) → KeepsInput ci a c → KeepsInput ci a (next c o))
    → KeepsInput ci a b
    → KeepsInput ci a (unsubscribe_next next b ci r)
KeepsInput-unsubscribe_next next a b ci none h k = k
KeepsInput-unsubscribe_next next a b ci (some (topic_filter, o)) h k =
    let b' = unsubscribe b ci topic_filter in
    h b' o (KeepsInput-trans ci a b b' k (KeepsInput-unsubscribe b ci topic_filter))

KeepsInput-unsubscribe_loop :
    (rounds : ℕ) (a b : Broker) (ci : ℕ) (p : Bytes) (off len : ℕ)
    → KeepsInput ci a b
    → KeepsInput ci a (unsubscribe_loop rounds b ci p off len)
unfolding unsubscribe_loop
KeepsInput-unsubscribe_loop zero a b ci p off len k = k
KeepsInput-unsubscribe_loop (suc rounds) a b ci p off len k =
    let next = λ (b' : Broker) (o : ℕ). unsubscribe_loop rounds b' ci p o len in
    KeepsInput-if (ltb off len) ci a (unsubscribe_next next b ci (read_str p off len)) b
      (KeepsInput-unsubscribe_next next a b ci (read_str p off len)
        (λ c o l. KeepsInput-unsubscribe_loop rounds a c ci p o len l) k)
      k

KeepsInput-unsubscribe_read :
    (b : Broker) (ci len : ℕ) (r : Option (ℕ × ℕ)) → KeepsInput ci b (unsubscribe_read b ci len r).0
KeepsInput-unsubscribe_read b ci len none = (refl, refl)
KeepsInput-unsubscribe_read b ci len (some (pid, off)) =
    let b' = unsubscribe_loop (len - off) b ci (client_at b ci).recv_buf off len in
    KeepsInput-trans ci b b' (queue_and_flush b' ci (enc_unsuback pid))
      (KeepsInput-unsubscribe_loop (len - off) b b ci (client_at b ci).recv_buf off len
        (refl, refl))
      (KeepsInput-queue_and_flush ci b' ci (enc_unsuback pid))

pub HandlerKeeps-subscribe :
    (b : Broker) (ci off len : ℕ) → HandlerKeeps ci b (handle_subscribe b ci off len)
unfolding handle_subscribe
HandlerKeeps-subscribe b ci off len =
    HandlerKeeps-subscribe_read b ci len (read_u16 (client_at b ci).recv_buf off len)

pub KeepsInput-handle_unsubscribe :
    (b : Broker) (ci off len : ℕ) → KeepsInput ci b (handle_unsubscribe b ci off len).0
unfolding handle_unsubscribe
KeepsInput-handle_unsubscribe b ci off len =
    KeepsInput-unsubscribe_read b ci len (read_u16 (client_at b ci).recv_buf off len)
