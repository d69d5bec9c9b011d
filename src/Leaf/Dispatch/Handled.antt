-- ===== src/Leaf/Dispatch/Handled.antt =====
-- What the handlers of the client library change.
use arbor_mq.Base.{
  ℕ, ◌≡◌, refl, ap, ◌∙◌, Bool, true, false, not, ◌&&◌, ◌||◌, Option, none, some, List, ◌==◌, ltb,
  if_keeps, Bytes, ◌+◌,
}
use arbor_mq.Broker.Send.{Status}
use arbor_mq.Packet.{
  t_pkt_connack, t_pkt_publish, t_pkt_puback, t_pkt_pubrec, t_pkt_pubrel, t_pkt_pubcomp,
  t_pkt_suback, t_pkt_unsuback,
}
use arbor_mq.Broker.Dispatch.{packet_type, packet_flags}
use arbor_mq.Leaf.{encode_ack}
use arbor_mq.Leaf.State.{
  Leaf, Pending, Delivery, Call, call_if, message_event, connected_event, ready, leaf_reconnect_ms,
  call, send_now, clock_read,
}
use arbor_mq.Leaf.Pending.{pending_slot, put_pending}
use arbor_mq.Leaf.Dispatch.{
  connack_read, on_connack, hold_at, note_received, answer_publish, deliver, delivery_read,
  on_publish, free_at, complete, on_pubrec, on_pubrel, id_read, on_ack, handle_packet, handle_at,
  leaf_dispatch, is_seen, connack_rc, read_delivery, note_id,
}

-- A relation that holds of the changes that handlers are made of.
pub record Changes (R : Leaf → Leaf → Type 0) : Type 0 where
  pub same : (c : Leaf) → R c c
  pub chain : (c d e : Leaf) → R c d → R d e → R c e
  pub logged : (c : Leaf) (e : Call) → R c (call c e)
  pub slots : (c : Leaf) (ps : List Pending) → R c (record c { pending = ps })
  pub noted : (c : Leaf) (pid : ℕ) → R c (record c { received_ids = note_id c.received_ids pid })
  pub opened :
      (c : Leaf) → R c (record c { state = ready; reconnect_backoff_ms = leaf_reconnect_ms })

module _ {R : Leaf → Leaf → Type 0} (k : Changes R) where
  abbrev By : Leaf → Leaf × Status → Type 0
  By c r = R c r.0

  By-call_if : (t : Bool) (c d : Leaf) (e : Call) → R c d → R c (call_if t d e)
  By-call_if true c d e h = k.chain c d (call d e) h (k.logged d e)
  By-call_if false c d e h = h

  By-connack_read : (c : Leaf) (r : Option ℕ) → By c (connack_read c r)
  By-connack_read c none = k.same c
  By-connack_read c (some rc) =
      if_keeps (R c) (rc == 0) (By-call_if c.on_connect c _ connected_event (k.opened c)) (k.same c)

  By-put_pending : (c d : Leaf) (i : ℕ) (p : Pending) → R c d → R c (put_pending d i p)
  By-put_pending c d i p h = k.chain c d (put_pending d i p) h (k.slots d _)

  By-hold_at : (c : Leaf) (pid : ℕ) (o : Option ℕ) → R c (hold_at c pid o)
  By-hold_at c pid none = k.same c
  By-hold_at c pid (some i) = By-put_pending c (call c clock_read) i _ (k.logged c clock_read)

  By-send_now : (c d : Leaf) (bytes : Bytes) → R c d → R c (send_now d bytes)
  By-send_now c d bytes h = k.chain c d (send_now d bytes) h (k.logged d _)

  By-answer_publish : (c : Leaf) (qos pid : ℕ) → R c (answer_publish c qos pid)
  unfolding answer_publish
  By-answer_publish c qos pid = if_keeps (R c) (qos == 1) (By-send_now c c _ (k.same c)) (
      if_keeps (R c) (qos == 2)
        (By-send_now c (hold_at c pid (pending_slot c)) _ (By-hold_at c pid (pending_slot c)))
        (k.same c))

  By-note_received : (c : Leaf) (pid : ℕ) → R c (note_received c pid)
  By-note_received c pid =
      if_keeps (R c) (not (is_seen c pid) && not (pid == 0)) (k.noted c pid) (k.same c)

  pub By-deliver : (c : Leaf) (m : Delivery) (pid : ℕ) → R c (deliver c m pid)
  unfolding deliver
  By-deliver c m pid =
      let d = note_received c pid in
      By-call_if (not (is_seen c pid) && c.on_message) c (answer_publish d m.qos pid)
        (message_event m)
        (k.chain c d (answer_publish d m.qos pid) (By-note_received c pid)
          (By-answer_publish d m.qos pid))

  By-delivery_read : (c : Leaf) (r : Option (Delivery × ℕ)) → By c (delivery_read c r)
  By-delivery_read c none = k.same c
  By-delivery_read c (some (m, pid)) = By-deliver c m pid

  By-free_at : (c d : Leaf) (o : Option ℕ) → R c d → R c (free_at d o)
  By-free_at c d none h = h
  By-free_at c d (some i) h = By-put_pending c d i _ h

  By-complete : (c : Leaf) (pid : ℕ) → R c (complete c pid)
  unfolding complete
  By-complete c pid = By-free_at c c _ (k.same c)

  By-on_pubrec : (c : Leaf) (pid : ℕ) → R c (on_pubrec c pid)
  unfolding on_pubrec
  By-on_pubrec c pid = By-send_now c c _ (k.same c)

  By-on_pubrel : (c : Leaf) (pid : ℕ) → R c (on_pubrel c pid)
  unfolding on_pubrel
  By-on_pubrel c pid =
      By-free_at c (send_now c (encode_ack t_pkt_pubcomp pid)) _ (By-send_now c c _ (k.same c))

  By-id_read :
      (on : Leaf → ℕ → Leaf) (c : Leaf) (r : Option (ℕ × ℕ))
      → ((pid : ℕ) → R c (on c pid))
      → By c (id_read on c r)
  By-id_read on c none h = k.same c
  By-id_read on c (some (pid, off)) h = h pid

  By-on_ack :
      (on : Leaf → ℕ → Leaf) (c : Leaf) (off len : ℕ)
      → ((pid : ℕ) → R c (on c pid))
      → By c (on_ack on c off len)
  unfolding on_ack
  By-on_ack on c off len h = By-id_read on c _ h

  By-handle_packet :
      (type : ℕ) (c : Leaf) (flags off len : ℕ) → By c (handle_packet type c flags off len)
  unfolding handle_packet on_connack on_publish
  By-handle_packet type c flags off len =
      let completed = By-on_ack complete c off len (By-complete c) in
      if_keeps (By c) (type == t_pkt_connack) (By-connack_read c (connack_rc c.recv_buf off len)) (
        if_keeps (By c) (type == t_pkt_publish)
          (By-delivery_read c (read_delivery c.recv_buf flags off len))
          (if_keeps (By c) (type == t_pkt_puback || type == t_pkt_pubcomp) completed (
            if_keeps (By c) (type == t_pkt_pubrec) (By-on_ack on_pubrec c off len (By-on_pubrec c))
              (if_keeps (By c) (type == t_pkt_pubrel)
                (By-on_ack on_pubrel c off len (By-on_pubrel c))
                (if_keeps (By c) (type == t_pkt_suback) completed
                  (if_keeps (By c) (type == t_pkt_unsuback) completed (k.same c)))))))

  By-handle_at : (c : Leaf) (len : ℕ) (r : Option (ℕ × ℕ)) → By c (handle_at c len r)
  By-handle_at c len none = k.same c
  By-handle_at c len (some (r, rem_len)) =
      By-handle_packet (packet_type c.recv_buf) c (packet_flags c.recv_buf) (1 + r) len

  pub By-leaf_dispatch : (c : Leaf) (len : ℕ) → R c (leaf_dispatch c len).0
  unfolding leaf_dispatch
  By-leaf_dispatch c len = if_keeps (By c) (ltb len 2) (k.same c) (By-handle_at c len _)

-- The packet changes the phase, the backoff, the slots, the received ids and the log alone.
abbrev pub Handled : Leaf → Leaf → Type 0
Handled c c' = c' ≡ record c {
  log = c'.log;
  state = c'.state;
  reconnect_backoff_ms = c'.reconnect_backoff_ms;
  pending = c'.pending;
  received_ids = c'.received_ids;
}

Handled-trans : (a b c : Leaf) → Handled a b → Handled b c → Handled a c
Handled-trans a b c p q =
    q
    ∙ ap
        (λ (x : Leaf). record x {
          log = c.log;
          state = c.state;
          reconnect_backoff_ms = c.reconnect_backoff_ms;
          pending = c.pending;
          received_ids = c.received_ids;
        })
        p

pub Handled-Changes : Changes Handled
Handled-Changes = record {
  same = λ c. refl;
  chain = Handled-trans;
  logged = λ c e. refl;
  slots = λ c ps. refl;
  noted = λ c pid. refl;
  opened = λ c. refl;
}

-- No packet changes anything of the client but its phase, its backoff, its slots, its received ids and
-- the log: not its descriptor, its buffers, its subscriptions or its packet ids.
pub leaf_dispatch-Handled : (c : Leaf) (len : ℕ) → Handled c (leaf_dispatch c len).0
leaf_dispatch-Handled c len = By-leaf_dispatch Handled-Changes c len
