-- ===== src/Broker/Publish/Slots.antt =====
-- branch_codec.h, lines 247 to 339, and branch_broker.h, lines 110 to 117: the QoS 2 slots of a client
-- as a state machine.
use arbor_mq.Base.{
  ℕ, zero, suc, ◌<◌, ◌≡◌, refl, sym, ap, ◌∙◌, subst, Option, none, some, List, [], ◌∷◌, Bytes,
  length, get_or, set, get_or-set_self, get_or-set_rel, length-set, arith, ◌%◌,
}
use arbor_mq.Packet.{enc_ack, t_pkt_pubrel, t_pkt_pubcomp}
use arbor_mq.Broker.State.{
  Broker, Client, Q2, free, in_pubrec_sent, in_pubrel_rcvd, out_publish_sent, out_pubrec_rcvd,
  out_pubrel_sent, Qos2, free_slot, client_at, zero_client, record_effect, clock_read, now_ms,
}
use arbor_mq.Broker.Tables.{
  slot_is, find_slot, find_free_slot, find_duplicate, slot_at, put_slot, set_slot_state,
}
use arbor_mq.Broker.Search.{find_index_sound, find_slot_sound, find_free_slot_sound}
use arbor_mq.Broker.Send.{queue_and_flush}
use arbor_mq.Broker.Forward.{track_out, track_out_at}
use arbor_mq.Broker.Publish.{
  track_in, track_in_at, track_new, at_slot, on_puback, on_pubrec, on_pubrel, on_pubcomp,
  release_out, complete_in,
}
use arbor_mq.Broker.Keeps.{Sends-queue_and_flush, Through-queue_and_flush}
use arbor_mq.Broker.Input.{SameInput-Kept}
use arbor_mq.Broker.Exactly.{put_slot-slots}

-- What happens in a QoS 2 exchange: a message comes in or goes out, or an acknowledgement comes in.
pub data Occasion : Type 0 where
  message_in message_out puback pubrec pubrel pubcomp : Occasion

-- What the broker does to the slots of client `ci` then.
abbrev pub on_occasion : Occasion → Broker → ℕ → ℕ → Broker
on_occasion message_in = track_in
on_occasion message_out = track_out
on_occasion puback = on_puback
on_occasion pubrec = on_pubrec
on_occasion pubrel = on_pubrel
on_occasion pubcomp = on_pubcomp

-- The steps of a slot, for the packet id `pid`.
pub data SlotStep (pid : ℕ) : Occasion → Qos2 → Qos2 → Type 0 where
  unchanged : (o : Occasion) (q : Qos2) → SlotStep pid o q q
  taken_in :
      (q : Qos2) (from_client t_ms : ℕ)
      → q.state ≡ free
      → SlotStep pid message_in q
          (record { pid = pid; state = in_pubrec_sent; from_client = from_client; t_ms = t_ms })
  sent_out :
      (q : Qos2) (t_ms : ℕ)
      → q.state ≡ free
      → SlotStep pid message_out q (record q { pid = pid; state = out_publish_sent; t_ms = t_ms })
  acknowledged :
      (q : Qos2)
      → q.pid ≡ pid
      → q.state ≡ out_publish_sent
      → SlotStep pid puback q (record q { state = free })
  received_there :
      (q : Qos2)
      → q.pid ≡ pid
      → q.state ≡ out_publish_sent
      → SlotStep pid pubrec q (record q { state = out_pubrel_sent })
  released :
      (q : Qos2)
      → q.pid ≡ pid
      → q.state ≡ in_pubrec_sent
      → SlotStep pid pubrel q (record q { state = free })
  completed :
      (q : Qos2)
      → q.pid ≡ pid
      → q.state ≡ out_pubrel_sent
      → SlotStep pid pubcomp q (record q { state = free })

abbrev SlotsStep : ℕ → Occasion → List Qos2 → List Qos2 → Type 0
SlotsStep pid o xs ys = (i : ℕ) → SlotStep pid o (get_or xs i free_slot) (get_or ys i free_slot)

set-SlotsStep :
    (pid : ℕ) (o : Occasion) (xs : List Qos2) (qi : ℕ) (q : Qos2)
    → SlotStep pid o (get_or xs qi free_slot) q
    → SlotsStep pid o xs (set xs qi q)
set-SlotsStep pid o xs qi q h i =
    get_or-set_rel (SlotStep pid o) xs qi i q free_slot (unchanged o) h

abbrev slots : Broker → ℕ → List Qos2
slots b ci = (client_at b ci).qos2

-- One slot is written.
put_slot-SlotsStep :
    (pid : ℕ) (o : Occasion) (b : Broker) (ci qi : ℕ) (q : Qos2)
    → ci < length b.clients
    → SlotStep pid o (slot_at b ci qi) q
    → SlotsStep pid o (slots b ci) (slots (put_slot b ci qi q) ci)
put_slot-SlotsStep pid o b ci qi q h s =
    subst (SlotsStep pid o (slots b ci)) (sym (put_slot-slots b ci qi q h))
      (set-SlotsStep pid o (slots b ci) qi q s)

-- Sending leaves the slots as they are.
queue_and_flush-slots :
    (b : Broker) (ci : ℕ) (pkt : Bytes)
    → ci < length b.clients
    → slots (queue_and_flush b ci pkt) ci ≡ slots b ci
queue_and_flush-slots b ci pkt h =
    let s = Sends-queue_and_flush b ci pkt in
    ap (λ (d : Broker). slots d ci) s.broker
    ∙ ap (λ (c : Client). c.qos2) (get_or-set_self b.clients ci s.client zero_client h)
    ∙ ap (λ (c : Client). c.qos2) s.only

set-set : (xs : List Qos2) (i : ℕ) (q r : Qos2) → set (set xs i q) i r ≡ set xs i r
set-set [] i q r = refl
set-set (x ∷ xs) zero q r = refl
set-set (x ∷ xs) (suc i) q r = ap (◌∷◌ x) (set-set xs i q r)

-- A slot is set, a packet queued, and the slot set again: the state between is not seen.
answered-slots :
    (b : Broker) (ci qi : ℕ) (mid to : Q2) (pkt : Bytes)
    → ci < length b.clients
    → qi < length (slots b ci)
    → slots (set_slot_state (queue_and_flush (set_slot_state b ci qi mid) ci pkt) ci qi to) ci
      ≡ set (slots b ci) qi (record (slot_at b ci qi) { state = to })
answered-slots b ci qi mid to pkt h k =
    let q : Qos2 = record (slot_at b ci qi) { state = mid } in
    let b' : Broker = put_slot b ci qi q in
    let b'' : Broker = queue_and_flush b' ci pkt in
    let size = (Through-queue_and_flush SameInput-Kept b' ci pkt).size in
    let size' =
      length-set b.clients ci (record (client_at b ci) { qos2 = set (slots b ci) qi q }) in
    let h' : ci < length b'.clients = omega (arith, size') in
    let same : slots b'' ci ≡ set (slots b ci) qi q =
      queue_and_flush-slots b' ci pkt h' ∙ put_slot-slots b ci qi q h in
    let at : slot_at b'' ci qi ≡ q =
      ap (λ xs. get_or xs qi free_slot) same ∙ get_or-set_self (slots b ci) qi q free_slot k in
    put_slot-slots b'' ci qi (record (slot_at b'' ci qi) { state = to })
      (omega (arith, size, size'))
    ∙ ap (λ xs. set xs qi (record (slot_at b'' ci qi) { state = to })) same
    ∙ ap (λ (r : Qos2). set (set (slots b ci) qi q) qi (record r { state = to })) at
    ∙ set-set (slots b ci) qi q (record q { state = to })

find_slot-inside :
    (b : Broker) (ci pid qi : ℕ) (s : Q2)
    → find_slot b ci pid s ≡ some qi
    → qi < length (slots b ci)
unfolding find_slot
find_slot-inside b ci pid qi s e = (find_index_sound (slot_is pid s) (slots b ci) qi free_slot e).1

-- The handlers that look for a slot with the packet id do nothing without one.
at_slot-SlotsStep :
    (pid : ℕ) (o : Occasion) (b : Broker) (ci : ℕ) (s : Q2) (f : ℕ → Broker)
    → ((qi : ℕ) → find_slot b ci pid s ≡ some qi → SlotsStep pid o (slots b ci) (slots (f qi) ci))
    → SlotsStep pid o (slots b ci) (slots (at_slot f b (find_slot b ci pid s)) ci)
at_slot-SlotsStep pid o b ci s f h = at (find_slot b ci pid s) (λ qi e. h qi e)
  where
    at :
        (r : Option ℕ)
        → ((qi : ℕ) → r ≡ some qi → SlotsStep pid o (slots b ci) (slots (f qi) ci))
        → SlotsStep pid o (slots b ci) (slots (at_slot f b r) ci)
    at none k = λ i. unchanged o (get_or (slots b ci) i free_slot)
    at (some qi) k = k qi refl

-- A slot that an acknowledgement answers.
answered-SlotsStep :
    (pid : ℕ) (o : Occasion) (b : Broker) (ci qi : ℕ) (mid to : Q2) (pkt : Bytes)
    → ci < length b.clients
    → qi < length (slots b ci)
    → SlotStep pid o (slot_at b ci qi) (record (slot_at b ci qi) { state = to })
    → SlotsStep pid o
        (slots b ci)
        (slots (set_slot_state (queue_and_flush (set_slot_state b ci qi mid) ci pkt) ci qi to) ci)
answered-SlotsStep pid o b ci qi mid to pkt h k s =
    subst (SlotsStep pid o (slots b ci)) (sym (answered-slots b ci qi mid to pkt h k))
      (set-SlotsStep pid o (slots b ci) qi (record (slot_at b ci qi) { state = to }) s)

module _ (pid : ℕ) (b : Broker) (ci : ℕ) (h : ci < length b.clients) where
  track_in-SlotsStep : SlotsStep pid message_in (slots b ci) (slots (track_in b ci pid) ci)
  unfolding track_in
  track_in-SlotsStep = at (find_duplicate b ci pid)
    where
      into :
          (r : Option ℕ)
          → find_free_slot b ci ≡ r
          → SlotsStep pid message_in (slots b ci) (slots (track_in_at b ci pid r) ci)
      into none e = λ i. unchanged message_in (get_or (slots b ci) i free_slot)
      into (some qi) e =
          put_slot-SlotsStep pid message_in (record_effect b clock_read) ci qi _ h
            (taken_in (slot_at b ci qi) (ci % 256) (now_ms b) (find_free_slot_sound b ci qi e))

      at : (r : Option ℕ) → SlotsStep pid message_in (slots b ci) (slots (track_new b ci pid r) ci)
      at none = into (find_free_slot b ci) refl
      at (some qi) = λ i. unchanged message_in (get_or (slots b ci) i free_slot)

  track_out-SlotsStep : SlotsStep pid message_out (slots b ci) (slots (track_out b ci pid) ci)
  unfolding track_out
  track_out-SlotsStep = into (find_free_slot b ci) refl
    where
      into :
          (r : Option ℕ)
          → find_free_slot b ci ≡ r
          → SlotsStep pid message_out (slots b ci) (slots (track_out_at b ci pid r) ci)
      into none e = λ i. unchanged message_out (get_or (slots b ci) i free_slot)
      into (some qi) e =
          put_slot-SlotsStep pid message_out (record_effect b clock_read) ci qi _ h
            (sent_out (slot_at b ci qi) (now_ms b) (find_free_slot_sound b ci qi e))

  on_puback-SlotsStep : SlotsStep pid puback (slots b ci) (slots (on_puback b ci pid) ci)
  unfolding on_puback
  on_puback-SlotsStep =
      at_slot-SlotsStep pid puback b ci out_publish_sent (λ qi. set_slot_state b ci qi free)
        (λ qi e.
          let (p, s) = find_slot_sound b ci pid qi out_publish_sent e in
          put_slot-SlotsStep pid puback b ci qi _ h (acknowledged (slot_at b ci qi) p s))

  on_pubrec-SlotsStep : SlotsStep pid pubrec (slots b ci) (slots (on_pubrec b ci pid) ci)
  unfolding on_pubrec
  on_pubrec-SlotsStep =
      at_slot-SlotsStep pid pubrec b ci out_publish_sent (release_out b ci pid) (λ qi e.
        let (p, s) = find_slot_sound b ci pid qi out_publish_sent e in
        answered-SlotsStep pid pubrec b ci qi out_pubrec_rcvd out_pubrel_sent
          (enc_ack t_pkt_pubrel pid) h (find_slot-inside b ci pid qi out_publish_sent e)
          (received_there (slot_at b ci qi) p s))

  on_pubrel-SlotsStep : SlotsStep pid pubrel (slots b ci) (slots (on_pubrel b ci pid) ci)
  unfolding on_pubrel
  on_pubrel-SlotsStep =
      at_slot-SlotsStep pid pubrel b ci in_pubrec_sent (complete_in b ci pid) (λ qi e.
        let (p, s) = find_slot_sound b ci pid qi in_pubrec_sent e in
        answered-SlotsStep pid pubrel b ci qi in_pubrel_rcvd free (enc_ack t_pkt_pubcomp pid) h
          (find_slot-inside b ci pid qi in_pubrec_sent e) (released (slot_at b ci qi) p s))

  on_pubcomp-SlotsStep : SlotsStep pid pubcomp (slots b ci) (slots (on_pubcomp b ci pid) ci)
  unfolding on_pubcomp
  on_pubcomp-SlotsStep =
      at_slot-SlotsStep pid pubcomp b ci out_pubrel_sent (λ qi. set_slot_state b ci qi free)
        (λ qi e.
          let (p, s) = find_slot_sound b ci pid qi out_pubrel_sent e in
          put_slot-SlotsStep pid pubcomp b ci qi _ h (completed (slot_at b ci qi) p s))

-- On every occasion of a QoS 2 exchange, each slot of a client of the table stays as it is or takes the one
-- step that the occasion allows: a free slot takes a message in or out; PUBACK frees one whose message
-- went out with this packet id, PUBREC moves it on to wait for PUBCOMP, PUBCOMP frees it then, and PUBREL
-- frees one whose message came in with this packet id. No slot is left in the states between.
pub on_occasion-SlotStep :
    (o : Occasion) (b : Broker) (ci pid i : ℕ)
    → ci < length b.clients
    → SlotStep pid o (slot_at b ci i) (slot_at (on_occasion o b ci pid) ci i)
on_occasion-SlotStep message_in b ci pid i h = track_in-SlotsStep pid b ci h i
on_occasion-SlotStep message_out b ci pid i h = track_out-SlotsStep pid b ci h i
on_occasion-SlotStep puback b ci pid i h = on_puback-SlotsStep pid b ci h i
on_occasion-SlotStep pubrec b ci pid i h = on_pubrec-SlotsStep pid b ci h i
on_occasion-SlotStep pubrel b ci pid i h = on_pubrel-SlotsStep pid b ci h i
on_occasion-SlotStep pubcomp b ci pid i h = on_pubcomp-SlotsStep pid b ci h i
