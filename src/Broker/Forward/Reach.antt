-- ===== src/Broker/Forward/Reach.antt =====
-- branch_broker.h, lines 89 to 146: which clients a message reaches.
use arbor_mq.Base.{
  ℕ, ◌+◌, ◌%◌, ◌≡◌, ◌≢◌, refl, ap, ◌∙◌, Bool, true, false, not, ◌&&◌, ◌||◌, Option, none, some,
  List, [], ◌∷◌, ltb, ◌==◌, if◌then◌else◌, Bytes, length, get_or-set_ne, arith, Ensures,
  Ensures-bind, Ensures-weaken, Ensures-if, if_keeps,
}
use arbor_mq.Topic.{match_topic}
use arbor_mq.Broker.State.{Broker, Sub, client_at, zero_client, buf_size}
use arbor_mq.Broker.Tables.{alloc_pid, find_free_slot}
use arbor_mq.Broker.Send.{queue_and_flush}
use arbor_mq.Broker.Keeps.{Sends-queue_and_flush}
use arbor_mq.Broker.Forward.{
  same_client, track_out_at, track_out, prepare_out, send_packet, deliver, wants, forward_subs,
  forward,
}

-- The subscription asks for the topic on behalf of client `j`, and `j` is not the sender.
abbrev pub reaches : Option ℕ → Bytes → ℕ → Sub → Bool
reaches from topic j s =
    s.used
    && match_topic s.topic_filter topic
    && not (same_client from s.client_idx)
    && s.client_idx == j

unfoldable pub any_reaches : Option ℕ → Bytes → ℕ → List Sub → Bool
any_reaches from topic j [] = false
any_reaches from topic j (s ∷ subs) =
    let rest = any_reaches from topic j subs in reaches from topic j s || rest

module _ (j : ℕ) where
  -- Client `j` is as before.
  abbrev Spared : Broker → Broker → Type 0
  Spared b b' = client_at b' j ≡ client_at b j

  queue_and_flush-Spared :
      (b : Broker) (ci : ℕ) (bytes : Bytes) → ci ≢ j → Spared b (queue_and_flush b ci bytes)
  queue_and_flush-Spared b ci bytes n =
      let s = Sends-queue_and_flush b ci bytes in
      ap (λ (x : Broker). client_at x j) s.broker
      ∙ get_or-set_ne b.clients ci j s.client zero_client n

  track_out-Spared : (b : Broker) (ci pid : ℕ) → ci ≢ j → Spared b (track_out b ci pid)
  unfolding track_out
  track_out-Spared b ci pid n = at (find_free_slot b ci)
    where
      at : (o : Option ℕ) → Spared b (track_out_at b ci pid o)
      at none = refl
      at (some qi) = get_or-set_ne b.clients ci j _ zero_client n

  alloc_pid-Spared : (b : Broker) → Spared b (alloc_pid b).1
  unfolding alloc_pid
  alloc_pid-Spared b =
      if_keeps (λ (r : ℕ × Broker). Spared b r.1) ((b.next_pid + 1) % 65536 == 0) refl refl

  prepare_out-Spared : (b : Broker) (ci q : ℕ) → ci ≢ j → Spared b (prepare_out b ci q).1
  unfolding prepare_out
  prepare_out-Spared b ci q n =
      let a = alloc_pid b in
      if_keeps (λ (r : ℕ × Broker). Spared b r.1) (q == 0) refl
        (if_keeps (Spared b) (q == 2) (track_out-Spared a.1 ci a.0 n ∙ alloc_pid-Spared b)
          (alloc_pid-Spared b))

  send_packet-Spared :
      (b : Broker) (ci : ℕ) (pkt : Bytes) → ci ≢ j → Ensures (Spared b) (send_packet b ci pkt)
  unfolding send_packet
  send_packet-Spared b ci pkt n =
      Ensures-if (ltb buf_size (length pkt)) (Spared b) none (some (queue_and_flush b ci pkt)) tt
        (queue_and_flush-Spared b ci pkt n)

  deliver-Spared :
      (b : Broker) (s : Sub) (topic payload : Bytes) (qos retain : ℕ)
      → s.client_idx ≢ j
      → Ensures (Spared b) (deliver b s topic payload qos retain)
  unfolding deliver
  deliver-Spared b s topic payload qos retain n =
      let q : ℕ = if ltb qos s.qos then qos else s.qos in
      let out = prepare_out b s.client_idx q in
      Ensures-weaken (Spared out.1) (Spared b) _ (λ c p. p ∙ prepare_out-Spared b s.client_idx q n)
        (send_packet-Spared out.1 s.client_idx _ n)

  not_for :
      (b : Broker) (from : Option ℕ) (s : Sub) (topic : Bytes)
      → wants b from topic s ≡ true
      → reaches from topic j s ≡ false
      → s.client_idx ≢ j
  unfolding wants
  not_for b from s topic w h e = ground arith

  turn-Spared :
      (b : Broker) (from : Option ℕ) (s : Sub) (topic payload : Bytes) (qos retain : ℕ)
      → reaches from topic j s ≡ false
      → Ensures
          (Spared b)
          (if wants b from topic s then deliver b s topic payload qos retain else some b)
  turn-Spared b from s topic payload qos retain h = at (wants b from topic s) refl
    where
      at :
          (t : Bool)
          → wants b from topic s ≡ t
          → Ensures (Spared b) (if t then deliver b s topic payload qos retain else some b)
      at true w = deliver-Spared b s topic payload qos retain (not_for b from s topic w h)
      at false w = refl

  forward_subs-Spared :
      (subs : List Sub) (b : Broker) (from : Option ℕ) (topic payload : Bytes) (qos retain : ℕ)
      → any_reaches from topic j subs ≡ false
      → Ensures (Spared b) (forward_subs subs b from topic payload qos retain)
  unfolding forward_subs any_reaches
  forward_subs-Spared [] b from topic payload qos retain h = refl
  forward_subs-Spared (s ∷ subs) b from topic payload qos retain h =
      Ensures-bind (Spared b) (Spared b) _ _
        (turn-Spared b from s topic payload qos retain (ground arith))
        (λ c p.
          Ensures-weaken (Spared c) (Spared b) _ (λ d q. q ∙ p)
            (forward_subs-Spared subs c from topic payload qos retain (ground arith)))

-- Forwarding a message leaves a client as it was to which no subscription leads, that is, none that is in
-- use, belongs to this client, matches the topic, and is not one of the sender's own; unless the call
-- writes past the end of a buffer.
pub forward-untouched :
    (b : Broker) (from : Option ℕ) (topic payload : Bytes) (qos retain j : ℕ)
    → any_reaches from topic j b.subs ≡ false
    → Ensures (λ b'. client_at b' j ≡ client_at b j) (forward b from topic payload qos retain)
unfolding forward
forward-untouched b from topic payload qos retain j h =
    Ensures-bind (λ b'. client_at b' j ≡ client_at b j) (λ b'. client_at b' j ≡ client_at b j)
      (forward_subs b.subs b from topic payload qos retain) _
      (forward_subs-Spared j b.subs b from topic payload qos retain h) (λ c p. p)
