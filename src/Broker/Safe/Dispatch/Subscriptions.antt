-- ===== src/Broker/Safe/Dispatch/Subscriptions.antt =====
-- branch_codec.h, lines 341 to 410: SUBSCRIBE, which sends the retained messages, and UNSUBSCRIBE.
use arbor_mq.Base.{
  ℕ, zero, suc, ◌-◌, ◌%◌, Option, none, some, [], ◌∷◌, ◌++◌, ltb, Bytes, length, Returns,
  Returns-bind, if_keeps,
}
use arbor_mq.Wire.{read_u16, read_str, copy_str}
use arbor_mq.Packet.{enc_unsuback}
use arbor_mq.Broker.State.{Broker, client_at, put_client, put_sub, max_topic, max_pending}
use arbor_mq.Broker.Tables.{find_free_sub}
use arbor_mq.Broker.Subscribe.{
  read_filter, track_sub, fill_sub, add_sub_at, add_sub, subscribe_next, subscribe_loop, suback,
  subscribe_read, handle_subscribe, remove_subs, unsubscribe, unsubscribe_next, unsubscribe_loop,
  unsubscribe_read, handle_unsubscribe,
}
use arbor_mq.Broker.Safe.{Safe, Safe-if, put_client-Safe, queue_and_flush-Safe, send_retained-Safe}

track_sub-Safe : (b : Broker) (ci si : ℕ) → Safe b → Safe (track_sub b ci si)
unfolding track_sub
track_sub-Safe b ci si s =
    let c = client_at b ci in
    let c' = record c { sub_indices = c.sub_indices ++ si % 256 ∷ [] } in
    Safe-if (ltb (length c.sub_indices) max_pending) (put_client b ci c') b
      (put_client-Safe b ci c' s (s.0 ci)) s

fill_sub-Safe :
    (b : Broker) (ci si : ℕ) (topic_filter : Bytes) (rqos : ℕ)
    → Safe b
    → Safe (fill_sub b ci si topic_filter rqos)
unfolding fill_sub
fill_sub-Safe b ci si topic_filter rqos s = track_sub-Safe (put_sub b si _) ci si s

-- A broker with a number or a list beside it.
abbrev PairSafe : {A : Type 0} → Option (Broker × A) → Type 0
PairSafe = Returns (λ r. Safe r.0)

add_sub_at-Safe :
    (b : Broker) (ci : ℕ) (si : Option ℕ) (topic_filter : Bytes) (rqos rc_count : ℕ)
    → Safe b
    → PairSafe (add_sub_at b ci si topic_filter rqos rc_count)
add_sub_at-Safe b ci none topic_filter rqos rc_count s = s
add_sub_at-Safe b ci (some si) topic_filter rqos rc_count s =
    let b' = fill_sub b ci si topic_filter rqos in
    if_keeps PairSafe (ltb rc_count max_pending)
      (Returns-bind Safe (λ r. Safe r.0) _ _
        (send_retained-Safe b' ci (copy_str max_topic topic_filter)
          (fill_sub-Safe b ci si topic_filter rqos s))
        (λ b'' t. t))
      s

subscribe_next-Safe :
    (next : Broker → ℕ → Bytes → Option (Broker × Bytes)) (b : Broker) (ci : ℕ) (rcs : Bytes)
    (r : Option (Bytes × ℕ × ℕ))
    → ((c : Broker) (o : ℕ) (rcs' : Bytes) → Safe c → PairSafe (next c o rcs'))
    → Safe b
    → PairSafe (subscribe_next next b ci rcs r)
subscribe_next-Safe next b ci rcs none h s = s
subscribe_next-Safe next b ci rcs (some (topic_filter, rqos, o)) h s =
    Returns-bind (λ r. Safe r.0) (λ r. Safe r.0) (add_sub b ci topic_filter rqos (length rcs)) _
      (unfold add_sub in add_sub_at-Safe b ci (find_free_sub b) topic_filter rqos (length rcs) s)
      (λ r t. h r.0 o (rcs ++ r.1 ∷ []) t)

subscribe_loop-Safe :
    (rounds : ℕ) (b : Broker) (ci : ℕ) (p : Bytes) (off len : ℕ) (rcs : Bytes)
    → Safe b
    → PairSafe (subscribe_loop rounds b ci p off len rcs)
unfolding subscribe_loop
subscribe_loop-Safe zero b ci p off len rcs s = s
subscribe_loop-Safe (suc rounds) b ci p off len rcs s =
    if_keeps PairSafe (ltb off len)
      (subscribe_next-Safe _ b ci rcs (read_filter p off len)
        (λ c o rcs' t. subscribe_loop-Safe rounds c ci p o len rcs' t) s)
      s

pub handle_subscribe-Safe :
    (b : Broker) (ci off len : ℕ) → Safe b → PairSafe (handle_subscribe b ci off len)
unfolding handle_subscribe
handle_subscribe-Safe b ci off len s = read (read_u16 (client_at b ci).recv_buf off len)
  where
    read : (r : Option (ℕ × ℕ)) → PairSafe (subscribe_read b ci len r)
    read none = s
    read (some (pid, o)) =
        Returns-bind (λ r. Safe r.0) (λ r. Safe r.0)
          (subscribe_loop 32 b ci (client_at b ci).recv_buf o len []) _
          (subscribe_loop-Safe 32 b ci (client_at b ci).recv_buf o len [] s)
          (λ r t. queue_and_flush-Safe r.0 ci (suback pid r.1) t)

unsubscribe-Safe :
    (b : Broker) (ci : ℕ) (topic_filter : Bytes) → Safe b → Safe (unsubscribe b ci topic_filter)
unfolding unsubscribe
unsubscribe-Safe b ci topic_filter s =
    let c = client_at b ci in
    let r =
      remove_subs (length c.sub_indices) 0 (copy_str max_topic topic_filter) c.sub_indices b.subs in
    put_client-Safe (record b { subs = r.1 }) ci (record c { sub_indices = r.0 }) s (s.0 ci)

unsubscribe_next-Safe :
    (next : Broker → ℕ → Broker) (b : Broker) (ci : ℕ) (r : Option (Bytes × ℕ))
    → ((c : Broker) (o : ℕ) → Safe c → Safe (next c o))
    → Safe b
    → Safe (unsubscribe_next next b ci r)
unsubscribe_next-Safe next b ci none h s = s
unsubscribe_next-Safe next b ci (some (topic_filter, o)) h s =
    h (unsubscribe b ci topic_filter) o (unsubscribe-Safe b ci topic_filter s)

unsubscribe_loop-Safe :
    (rounds : ℕ) (b : Broker) (ci : ℕ) (p : Bytes) (off len : ℕ)
    → Safe b
    → Safe (unsubscribe_loop rounds b ci p off len)
unfolding unsubscribe_loop
unsubscribe_loop-Safe zero b ci p off len s = s
unsubscribe_loop-Safe (suc rounds) b ci p off len s =
    let next = λ (b' : Broker) (o : ℕ). unsubscribe_loop rounds b' ci p o len in
    Safe-if (ltb off len) (unsubscribe_next next b ci (read_str p off len)) b
      (unsubscribe_next-Safe next b ci (read_str p off len)
        (λ c o t. unsubscribe_loop-Safe rounds c ci p o len t) s)
      s

pub handle_unsubscribe-Safe :
    (b : Broker) (ci off len : ℕ) → Safe b → Safe (handle_unsubscribe b ci off len).0
unfolding handle_unsubscribe
handle_unsubscribe-Safe b ci off len s = read (read_u16 (client_at b ci).recv_buf off len)
  where
    read : (r : Option (ℕ × ℕ)) → Safe (unsubscribe_read b ci len r).0
    read none = s
    read (some (pid, o)) =
        let b' = unsubscribe_loop (len - o) b ci (client_at b ci).recv_buf o len in
        queue_and_flush-Safe b' ci (enc_unsuback pid)
          (unsubscribe_loop-Safe (len - o) b ci (client_at b ci).recv_buf o len s)
