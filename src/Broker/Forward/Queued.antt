-- ===== src/Broker/Forward/Queued.antt =====
-- branch_broker.h, lines 66 to 83 and 89 to 124: what a message of QoS 0 adds to the output of its
-- subscribers.
use arbor_mq.Base.{
  ℕ, zero, suc, ◌+◌, ◌*◌, ◌≤◌, ◌<◌, ◌≡◌, ◌≢◌, refl, sym, ap, ◌∙◌, subst, Bool, true, false, not,
  ◌&&◌, Option, some, List, [], ◌∷◌, ◌++◌, ltb, leb, ◌==◌, if◌then◌else◌, ◌>>=◌, Bytes, length,
  length-append, set, get_or, get_or-set_self, get_or-set_ne, get_or-set_rel, arith, Returns,
  Returns-weaken, Returns-bind, Bool-cases, inl, inr, if_keeps,
}
use arbor_mq.Topic.{match_topic}
use arbor_mq.Packet.{enc_publish}
use arbor_mq.Broker.State.{
  Broker, Client, Os, Sub, Effect, send_blocked, buf_size, max_clients, client_at, zero_client,
}
use arbor_mq.Broker.Send.{append_data, flush, queue_and_flush, after_send, unsent}
use arbor_mq.Broker.Forward.{
  send_packet, prepare_out, deliver, wants, same_client, is_disconnected, forward_subs, forward,
}
use arbor_mq.Broker.Keeps.{Through-queue_and_flush}
use arbor_mq.Broker.Input.{SameInput-Kept}
use arbor_mq.Broker.Room.{Forwardable, enc_publish-fits}

-- The sockets take nothing at once, so that what is queued stays in the send buffers.
abbrev pub Blocks : Os → Type 0
Blocks os =
    (log : List Effect) (fd : Option ℕ) (bytes : Bytes) → os.send log fd bytes ≡ send_blocked

blocked-clients :
    (b : Broker) (ci : ℕ) (pkt : Bytes)
    → Blocks b.os
    → (queue_and_flush b ci pkt).clients ≡ set b.clients ci (append_data (client_at b ci) pkt)
unfolding queue_and_flush flush
blocked-clients b ci pkt h =
    let c = append_data (client_at b ci) pkt in
    elim (Bool-cases (ltb c.send_off (length c.send_buf))) [
      | inl t ↦ rw (t) (ap (λ r. set b.clients ci (after_send c r)) (h b.log c.fd (unsent c)))
      | inr t ↦ rw (t) refl
    ]

append_data-state : (c : Client) (pkt : Bytes) → (append_data c pkt).state ≡ c.state
unfolding append_data
append_data-state c pkt =
    if_keeps (λ (d : Client). d.state ≡ c.state) (leb (length c.send_buf + length pkt) buf_size)
      refl refl

append_data-room :
    (c : Client) (pkt : Bytes)
    → length c.send_buf + length pkt ≤ buf_size
    → (append_data c pkt).send_buf ≡ c.send_buf ++ pkt
unfolding append_data
append_data-room c pkt h =
    let room : leb (length c.send_buf + length pkt) buf_size ≡ true = ground arith in rw (room) refl

abbrev SameStates : Broker → Broker → Type 0
SameStates b b' = (j : ℕ) → (client_at b' j).state ≡ (client_at b j).state

blocked-states :
    (b : Broker) (ci : ℕ) (pkt : Bytes) → Blocks b.os → SameStates b (queue_and_flush b ci pkt)
blocked-states b ci pkt h j =
    ap (λ (cs : List Client). (get_or cs j zero_client).state) (blocked-clients b ci pkt h)
    ∙ get_or-set_rel (λ (c d : Client). d.state ≡ c.state) b.clients ci j _ zero_client (λ c. refl)
        (append_data-state (client_at b ci) pkt)

-- The packet as many times behind the bytes that are queued.
abbrev pub appended : ℕ → Bytes → Bytes → Bytes
appended zero pkt buf = buf
appended (suc n) pkt buf = appended n pkt (buf ++ pkt)

-- How many of the subscriptions are for client `j` and want the message.
abbrev pub copies : (Sub → Bool) → ℕ → List Sub → ℕ
copies wanted j [] = 0
copies wanted j (s ∷ subs) =
    if wanted s && (s.client_idx == j) then suc (copies wanted j subs) else copies wanted j subs

prepare_out-zero : (b : Broker) (ci : ℕ) → prepare_out b ci 0 ≡ (0, b)
unfolding prepare_out
prepare_out-zero b ci = refl

-- A message of QoS 0 is queued as it is, whatever QoS the subscription has.
deliver-zero :
    (b : Broker) (s : Sub) (topic payload : Bytes) (retain : ℕ)
    → Forwardable (length topic) (length payload) 0
    → deliver b s topic payload 0 retain
      ≡ some (queue_and_flush b s.client_idx (enc_publish topic payload 0 retain 0))
unfolding deliver send_packet
deliver-zero b s topic payload retain h =
    let low : (if ltb 0 s.qos then 0 else s.qos) ≡ 0 = ground arith in
    let fits = enc_publish-fits topic payload 0 retain 0 h in
    let small : ltb buf_size (length (enc_publish topic payload 0 retain 0)) ≡ false =
      ground (arith, fits) in
    rw (low, prepare_out-zero b s.client_idx, small) refl

-- Whether a subscription wants the message is the same where the states are.
wants-agree :
    (b b' : Broker) (from : Option ℕ) (topic : Bytes) (s : Sub)
    → SameStates b b'
    → wants b' from topic s ≡ wants b from topic s
unfolding wants
wants-agree b b' from topic s h =
    ap
      (λ t.
        s.used
        && match_topic s.topic_filter topic
        && not (same_client from s.client_idx)
        && ltb s.client_idx max_clients
        && not (is_disconnected t))
      (h s.client_idx)

-- The bytes that are queued for client `j` after one packet for client `ci`.
queued_self :
    (b : Broker) (j : ℕ) (pkt : Bytes)
    → Blocks b.os
    → j < length b.clients
    → length (client_at b j).send_buf + length pkt ≤ buf_size
    → (client_at (queue_and_flush b j pkt) j).send_buf ≡ (client_at b j).send_buf ++ pkt
queued_self b j pkt h k room =
    ap (λ (cs : List Client). (get_or cs j zero_client).send_buf) (blocked-clients b j pkt h)
    ∙ ap (λ (c : Client). c.send_buf)
        (get_or-set_self b.clients j (append_data (client_at b j) pkt) zero_client k)
    ∙ append_data-room (client_at b j) pkt room

queued_other :
    (b : Broker) (ci j : ℕ) (pkt : Bytes)
    → Blocks b.os
    → ci ≢ j
    → client_at (queue_and_flush b ci pkt) j ≡ client_at b j
queued_other b ci j pkt h n =
    ap (λ (cs : List Client). get_or cs j zero_client) (blocked-clients b ci pkt h)
    ∙ get_or-set_ne b.clients ci j _ zero_client n

suc_times : (n k : ℕ) → suc n * k ≡ n * k + k
suc_times n k = grind arith

-- One packet for client `ci`, as client `j` sees it.
queued_either :
    (b : Broker) (ci j : ℕ) (pkt : Bytes) (t : Bool)
    → (ci == j) ≡ t
    → Blocks b.os
    → j < length b.clients
    → length (client_at b j).send_buf + (if t then length pkt else 0) ≤ buf_size
    → (client_at (queue_and_flush b ci pkt) j).send_buf
      ≡ (if t then (client_at b j).send_buf ++ pkt else (client_at b j).send_buf)
queued_either b ci j pkt true e h k room =
    let same : ci ≡ j = ground arith in
    ap (λ i. (client_at (queue_and_flush b i pkt) j).send_buf) same ∙ queued_self b j pkt h k room
queued_either b ci j pkt false e h k room =
    ap (λ (c : Client). c.send_buf) (queued_other b ci j pkt h (ground arith))

module _ (j : ℕ) (from : Option ℕ) (topic payload : Bytes) (retain : ℕ) (wanted : Sub → Bool)
    (fits : Forwardable (length topic) (length payload) 0) where
  abbrev packet : Bytes
  packet = enc_publish topic payload 0 retain 0

  abbrev Room : List Sub → Broker → Type 0
  Room subs b = length (client_at b j).send_buf + copies wanted j subs * length packet ≤ buf_size

  -- The system takes nothing, the subscriptions want what they wanted, and the client is in the table.
  abbrev Ready : Broker → Type 0
  Ready b = Blocks b.os × ((s : Sub) → wants b from topic s ≡ wanted s) × (j < length b.clients)

  Ready-queued : (b : Broker) (ci : ℕ) → Ready b → Ready (queue_and_flush b ci packet)
  Ready-queued b ci (h, w, k) =
      let t = Through-queue_and_flush SameInput-Kept b ci packet in
      (
        subst Blocks (sym t.os) h,
        λ s.
            wants-agree b (queue_and_flush b ci packet) from topic s (blocked-states b ci packet h)
            ∙ w s,
        omega (arith, t.size),
      )

  abbrev Queued : List Sub → Broker → Broker → Type 0
  Queued subs b b' =
      (client_at b' j).send_buf ≡ appended (copies wanted j subs) packet (client_at b j).send_buf

  forward_subs-Queued :
      (subs : List Sub) (b : Broker)
      → Ready b
      → Room subs b
      → Returns (Queued subs b) (forward_subs subs b from topic payload 0 retain)
  unfolding forward_subs
  forward_subs-Queued [] b r room = refl
  forward_subs-Queued (s ∷ subs) b r room = rw (r.1 s) (
      at (wanted s) (s.client_idx == j) refl room (λ c q room'. forward_subs-Queued subs c q room'))
    where
      n : ℕ
      n = copies wanted j subs

      rest : Broker → Option Broker
      rest c = forward_subs subs c from topic payload 0 retain

      at :
          (t u : Bool)
          → (s.client_idx == j) ≡ u
          → length (client_at b j).send_buf + (if t && u then suc n else n) * length packet
            ≤ buf_size
          → ((c : Broker) → Ready c → Room subs c → Returns (Queued subs c) (rest c))
          → Returns
              (λ b'.
                (client_at b' j).send_buf
                ≡ appended (if t && u then suc n else n) packet (client_at b j).send_buf)
              ((if t then deliver b s topic payload 0 retain else some b) >>= rest)
      at false u e room' ih = ih b r room'
      at true true e room' ih =
          let b1 = queue_and_flush b s.client_idx packet in
          let here : length (client_at b j).send_buf + length packet ≤ buf_size =
            omega (arith, room', suc_times n (length packet)) in
          let same = queued_either b s.client_idx j packet true e r.0 r.2 here in
          rw (deliver-zero b s topic payload retain fits) (
            Returns-weaken (Queued subs b1) _ (rest b1) (λ b' q. q ∙ ap (appended n packet) same)
              (ih b1 (Ready-queued b s.client_idx r) (
                omega (
                  arith,
                  room',
                  suc_times n (length packet),
                  ap (λ (bs : Bytes). length bs) same,
                  length-append (client_at b j).send_buf packet,
                ))))
      at true false e room' ih =
          let b1 = queue_and_flush b s.client_idx packet in
          let same = queued_either b s.client_idx j packet false e r.0 r.2 (omega (arith, room')) in
          rw (deliver-zero b s topic payload retain fits) (
            Returns-weaken (Queued subs b1) _ (rest b1) (λ b' q. q ∙ ap (appended n packet) same)
              (ih b1 (Ready-queued b s.client_idx r)
                (omega (arith, room', ap (λ (bs : Bytes). length bs) same))))

-- A message of QoS 0 that fits a packet is queued for a client of the table once for each of its
-- subscriptions that want it, behind what is queued already and as one and the same PUBLISH packet,
-- whatever QoS they have; where the send buffer has room for all of these packets, and the sockets take
-- nothing at once.
pub forward-queued :
    (b : Broker) (from : Option ℕ) (topic payload : Bytes) (retain j : ℕ)
    → Blocks b.os
    → Forwardable (length topic) (length payload) 0
    → j < length b.clients
    → length (client_at b j).send_buf
        + copies (wants b from topic) j b.subs * length (enc_publish topic payload 0 retain 0)
      ≤ buf_size
    → Returns
        (λ b'.
          (client_at b' j).send_buf
          ≡ appended
              (copies (wants b from topic) j b.subs)
              (enc_publish topic payload 0 retain 0)
              (client_at b j).send_buf)
        (forward b from topic payload 0 retain)
unfolding forward
forward-queued b from topic payload retain j h fits k room =
    let Grown = λ (b' : Broker).
      (client_at b' j).send_buf
      ≡ appended (copies (wants b from topic) j b.subs) (enc_publish topic payload 0 retain 0)
          (client_at b j).send_buf in
    Returns-bind Grown Grown (forward_subs b.subs b from topic payload 0 retain) _
      (forward_subs-Queued j from topic payload retain (wants b from topic) fits b.subs b
        (h, (λ s. refl), k) room)
      (λ b' q. q)
