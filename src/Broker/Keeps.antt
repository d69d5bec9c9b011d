-- ===== src/Broker/Keeps.antt =====
-- Relations between a client before and after, carried through the operations of the broker that
-- send to clients, track messages and forward.
use arbor_mq.Base.{
  Grows, Grows-refl, Grows-cons, Grows-trans, if_keeps, ℕ, zero, suc, ◌≡◌, refl, sym, ap, subst,
  ◌∙◌, Bool, true, false, Option, none, some, List, [], ◌∷◌, ltb, if◌then◌else◌, Bytes, length, set,
  get_or, length-set, get_or-set_rel, arith, Bool-cases, inl, inr, Ensures, Ensures-bind,
  Ensures-weaken, Ensures-if, ◌==◌, ◌>>=◌,
}
use arbor_mq.Broker.State.{
  Broker, Client, ClientState, Qos2, Effect, send_tried, clock_read, SendResult, sent, send_blocked,
  send_failed, client_at, zero_client, Sub, buf_size, free_slot, free, out_publish_sent,
}
use arbor_mq.Broker.Tables.{alloc_pid, find_free_slot}
use arbor_mq.Broker.Search.{find_free_slot_sound}
use arbor_mq.Broker.Send.{
  unsent, advance, append_data, after_send, send_result, flush, queue_and_flush,
}
use arbor_mq.Broker.Forward.{
  track_out_at, track_out, prepare_out, send_packet, deliver, wants, forward_subs,
}

-- `c'` is `c` with another output.
abbrev pub OutputOf : Client → Client → Type 0
OutputOf c c' = c' ≡ record c { send_buf = c'.send_buf; send_off = c'.send_off; state = c'.state }

OutputOf-advance : (c : Client) (n : ℕ) → OutputOf c (advance c n)
unfolding advance
OutputOf-advance c n = ground arith

OutputOf-append_data : (c : Client) (bytes : Bytes) → OutputOf c (append_data c bytes)
unfolding append_data
OutputOf-append_data c bytes = ground arith

OutputOf-after_send : (c : Client) (r : SendResult) → OutputOf c (after_send c r)
OutputOf-after_send c (sent zero) = refl
OutputOf-after_send c (sent (suc n)) = OutputOf-advance c (suc n)
OutputOf-after_send c send_blocked = refl
OutputOf-after_send c send_failed = refl

OutputOf-trans : (c d e : Client) → OutputOf c d → OutputOf d e → OutputOf c e
OutputOf-trans c d e p q =
    q
    ∙ ap
        (λ (x : Client). record x { send_buf = e.send_buf; send_off = e.send_off; state = e.state })
        p

-- The two brokers differ in the log, and in client `ci` as far as `R` allows.
pub record Sends (ci : ℕ) (b b' : Broker) : Type 0 where
  pub client : Client
  pub only : OutputOf (client_at b ci) client
  pub broker : b' ≡ record b { clients = set b.clients ci client; log = b'.log }
  pub grows : Grows b.log b'.log

Sends-flush :
    (b : Broker) (ci : ℕ) (c : Client) → OutputOf (client_at b ci) c → Sends ci b (flush b ci c)
unfolding flush
Sends-flush b ci c o = elim (Bool-cases (ltb c.send_off (length c.send_buf))) [
  | inl e ↦ record {
    client = after_send c (send_result b c);
    only =
        OutputOf-trans (client_at b ci) c (after_send c (send_result b c)) o
          (OutputOf-after_send c (send_result b c));
    broker = rw e;
    grows = logged;
  }
  | inr e ↦ record { client = c; only = o; broker = rw e; grows = logged }
]
  where
    logged : Grows b.log (flush b ci c).log
    logged =
        if_keeps (λ (x : Broker). Grows b.log x.log) (ltb c.send_off (length c.send_buf))
          (Grows-cons (send_tried c.fd (unsent c)) b.log b.log (Grows-refl b.log))
          (Grows-refl b.log)

pub Sends-queue_and_flush :
    (b : Broker) (ci : ℕ) (bytes : Bytes) → Sends ci b (queue_and_flush b ci bytes)
unfolding queue_and_flush
Sends-queue_and_flush b ci bytes =
    Sends-flush b ci (append_data (client_at b ci) bytes)
      (OutputOf-append_data (client_at b ci) bytes)

-- A relation that survives a new output, and the tracking of an outgoing message in a free slot.
pub record Kept (R : Client → Client → Type 0) : Type 0 where
  pub same : (c : Client) → R c c
  pub chain : (c d e : Client) → R c d → R d e → R c e
  pub output :
      (c : Client) (bytes : Bytes) (off : ℕ) (s : ClientState)
      → R c (record c { send_buf = bytes; send_off = off; state = s })
  pub tracked :
      (c : Client) (qi : ℕ) (q : Qos2)
      → (get_or c.qos2 qi free_slot).state ≡ free
      → q.state ≡ out_publish_sent
      → R c (record c { qos2 = set c.qos2 qi q })

-- The relation holds of each client, the tables beside the clients are the same, and the log grows.
pub record Through (R : Client → Client → Type 0) (b b' : Broker) : Type 0 where
  pub each : (j : ℕ) → R (client_at b j) (client_at b' j)
  pub subs : b'.subs ≡ b.subs
  pub retained : b'.retained ≡ b.retained
  pub os : b'.os ≡ b.os
  pub listen_fd : b'.listen_fd ≡ b.listen_fd
  pub grows : Grows b.log b'.log
  pub size : length b'.clients ≡ length b.clients

module _ {R : Client → Client → Type 0} (k : Kept R) where
  pub Through-same : (b : Broker) → Through R b b
  Through-same b = record {
    each = λ j. k.same (client_at b j);
    subs = refl;
    retained = refl;
    os = refl;
    listen_fd = refl;
    grows = Grows-refl b.log;
    size = refl;
  }

  pub Through-trans : (a b c : Broker) → Through R a b → Through R b c → Through R a c
  Through-trans a b c p q = record {
    each = λ j. k.chain _ _ _ (p.each j) (q.each j);
    subs = q.subs ∙ p.subs;
    retained = q.retained ∙ p.retained;
    os = q.os ∙ p.os;
    listen_fd = q.listen_fd ∙ p.listen_fd;
    grows = Grows-trans a.log b.log c.log p.grows q.grows;
    size = q.size ∙ p.size;
  }

  pub Through-put_client :
      (b : Broker) (ci : ℕ) (c : Client) (log : List Effect)
      → R (client_at b ci) c
      → Grows b.log log
      → Through R b (record b { clients = set b.clients ci c; log = log })
  Through-put_client b ci c log h g = record {
    each = λ j. get_or-set_rel R b.clients ci j c zero_client k.same h;
    subs = refl;
    retained = refl;
    os = refl;
    listen_fd = refl;
    grows = g;
    size = length-set b.clients ci c;
  }

  pub Through-queue_and_flush :
      (b : Broker) (ci : ℕ) (bytes : Bytes) → Through R b (queue_and_flush b ci bytes)
  Through-queue_and_flush b ci bytes =
      let s = Sends-queue_and_flush b ci bytes in
      let kept = subst (R (client_at b ci)) (sym s.only) (k.output (client_at b ci) _ _ _) in
      subst (Through R b) (sym s.broker) (Through-put_client b ci s.client _ kept s.grows)

  Through-track_out_at :
      (b : Broker) (ci pid : ℕ) (o : Option ℕ)
      → o ≡ find_free_slot b ci
      → Through R b (track_out_at b ci pid o)
  Through-track_out_at b ci pid none e = Through-same b
  Through-track_out_at b ci pid (some qi) e =
      Through-put_client b ci _ _
        (k.tracked (client_at b ci) qi _ (find_free_slot_sound b ci qi (sym e)) refl)
        (Grows-cons clock_read b.log b.log (Grows-refl b.log))

  Through-track_out : (b : Broker) (ci pid : ℕ) → Through R b (track_out b ci pid)
  unfolding track_out
  Through-track_out b ci pid = Through-track_out_at b ci pid (find_free_slot b ci) refl

  Through-next_pid : (b : Broker) (pid : ℕ) → Through R b (record b { next_pid = pid })
  Through-next_pid b pid = record {
    each = λ j. k.same (client_at b j);
    subs = refl;
    retained = refl;
    os = refl;
    listen_fd = refl;
    grows = Grows-refl b.log;
    size = refl;
  }

  Through-if :
      (t : Bool) (b : Broker) (x y : ℕ × Broker)
      → Through R b x.1
      → Through R b y.1
      → Through R b (if t then x else y).1
  Through-if true b x y p q = p
  Through-if false b x y p q = q

  Through-alloc_pid : (b : Broker) → Through R b (alloc_pid b).1
  unfolding alloc_pid
  Through-alloc_pid b = Through-if _ b _ _ (Through-next_pid b _) (Through-next_pid b _)

  Through-track_if :
      (t : Bool) (b : Broker) (ci pid : ℕ) → Through R b (if t then track_out b ci pid else b)
  Through-track_if true b ci pid = Through-track_out b ci pid
  Through-track_if false b ci pid = Through-same b

  Through-prepare_out : (b : Broker) (ci fwd_qos : ℕ) → Through R b (prepare_out b ci fwd_qos).1
  unfolding prepare_out
  Through-prepare_out b ci fwd_qos =
      let a = alloc_pid b in
      Through-if (fwd_qos == 0) b _ _ (Through-same b)
        (Through-trans b a.1 _ (Through-alloc_pid b) (Through-track_if (fwd_qos == 2) a.1 ci a.0))

  pub Through-send_packet :
      (b : Broker) (ci : ℕ) (pkt : Bytes) → Ensures (Through R b) (send_packet b ci pkt)
  unfolding send_packet
  Through-send_packet b ci pkt =
      Ensures-if (ltb buf_size (length pkt)) (Through R b) none (some (queue_and_flush b ci pkt)) tt
        (Through-queue_and_flush b ci pkt)

  Through-deliver :
      (b : Broker) (s : Sub) (topic payload : Bytes) (qos retain : ℕ)
      → Ensures (Through R b) (deliver b s topic payload qos retain)
  unfolding deliver
  Through-deliver b s topic payload qos retain =
      let fwd_qos : ℕ = if ltb qos s.qos then qos else s.qos in
      let out = prepare_out b s.client_idx fwd_qos in
      Ensures-weaken (Through R out.1) (Through R b) _
        (λ c. Through-trans b out.1 c (Through-prepare_out b s.client_idx fwd_qos))
        (Through-send_packet out.1 s.client_idx _)

  -- The same, over a chain of steps.
  pub Through-bind :
      (a b : Broker) (r : Option Broker) (f : Broker → Option Broker)
      → Through R a b
      → Ensures (Through R b) r
      → ((c : Broker) → Through R a c → Ensures (Through R a) (f c))
      → Ensures (Through R a) (r >>= f)
  Through-bind a b r f p h g =
      Ensures-bind (Through R b) (Through R a) r f h (λ c q. g c (Through-trans a b c p q))

  pub Through-forward_subs :
      (subs : List Sub) (a b : Broker) (from : Option ℕ) (topic payload : Bytes) (qos retain : ℕ)
      → Through R a b
      → Ensures (Through R a) (forward_subs subs b from topic payload qos retain)
  unfolding forward_subs
  Through-forward_subs [] a b from topic payload qos retain p = p
  Through-forward_subs (s ∷ subs) a b from topic payload qos retain p =
      Through-bind a b _ _ p
        (Ensures-if (wants b from topic s) (Through R b) _ _
          (Through-deliver b s topic payload qos retain) (Through-same b))
        (λ c q. Through-forward_subs subs a c from topic payload qos retain q)
