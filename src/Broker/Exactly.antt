-- ===== src/Broker/Exactly.antt =====
-- branch_codec.h, lines 254 to 270 and 315 to 330: the slots of incoming QoS 2 messages.
use arbor_mq.Base.{
  ℕ, ◌%◌, ◌<◌, ◌≡◌, ◌≢◌, refl, sym, ap, ◌∙◌, Bool, ◌||◌, Option, none, some, length, set,
  get_or-set_self, Option-cases, arith, inl, inr,
}
use arbor_mq.Broker.State.{
  Broker, Client, Qos2, free, in_pubrec_sent, in_pubrel_rcvd, free_slot, client_at, zero_client,
  record_effect, clock_read, now_ms,
}
use arbor_mq.Broker.Tables.{find_free_slot, find_duplicate, slot_is, slot_at, put_slot, same_q2}
use arbor_mq.Broker.Search.{find_index-set, find_index_sound}
use arbor_mq.Broker.Publish.{track_in, track_in_at}

-- What a tracked message leaves in the slot.
pub put_slot-slots :
    (b : Broker) (ci qi : ℕ) (q : Qos2)
    → ci < length b.clients
    → (client_at (put_slot b ci qi q) ci).qos2 ≡ set (client_at b ci).qos2 qi q
put_slot-slots b ci qi q h =
    let c = client_at b ci in
    ap (λ (d : Client). d.qos2)
      (get_or-set_self b.clients ci (record c { qos2 = set c.qos2 qi q }) zero_client h)

abbrev is_incoming : ℕ → Qos2 → Bool
is_incoming pid q = slot_is pid in_pubrec_sent q || slot_is pid in_pubrel_rcvd q

track_in_at-found :
    (b : Broker) (ci pid qi : ℕ)
    → ci < length b.clients
    → find_free_slot b ci ≡ some qi
    → find_duplicate (track_in_at b ci pid (some qi)) ci pid ≢ none
unfolding find_duplicate find_free_slot
track_in_at-found b ci pid qi h e =
    let q : Qos2 = record (slot_at b ci qi) {
      pid = pid;
      state = in_pubrec_sent;
      from_client = ci % 256;
      t_ms = now_ms b;
    } in
    let inside =
      (find_index_sound (λ q. same_q2 q.state free) (client_at b ci).qos2 qi free_slot e).1 in
    rw (put_slot-slots (record_effect b clock_read) ci qi q h)
      (find_index-set (is_incoming pid) (client_at b ci).qos2 qi q (ground arith) inside)

-- A message whose packet id stands in a slot is not tracked again.
track_in_of_duplicate :
    (b : Broker) (ci pid : ℕ) → find_duplicate b ci pid ≢ none → track_in b ci pid ≡ b
unfolding track_in
track_in_of_duplicate b ci pid d = elim (Option-cases (find_duplicate b ci pid)) [
  | inl n ↦ absurd (d n)
  | inr (i, e) ↦ rw (e) refl
]

track_in_of_full :
    (b : Broker) (ci pid : ℕ)
    → find_duplicate b ci pid ≡ none
    → find_free_slot b ci ≡ none
    → track_in b ci pid ≡ b
unfolding track_in
track_in_of_full b ci pid d f = rw (d, f) refl

track_in_of_new :
    (b : Broker) (ci pid qi : ℕ)
    → find_duplicate b ci pid ≡ none
    → find_free_slot b ci ≡ some qi
    → track_in b ci pid ≡ track_in_at b ci pid (some qi)
unfolding track_in
track_in_of_new b ci pid qi d f = rw (d, f) refl

-- For a client in the table, tracking an incoming QoS 2 message twice is tracking it once.
pub track_in_twice :
    (b : Broker) (ci pid : ℕ)
    → ci < length b.clients
    → track_in (track_in b ci pid) ci pid ≡ track_in b ci pid
track_in_twice b ci pid h = elim (Option-cases (find_duplicate b ci pid)) [
  | inr (i, e) ↦ ap (λ b'. track_in b' ci pid) (track_in_of_duplicate b ci pid (found e))
  | inl n ↦ elim (Option-cases (find_free_slot b ci)) [
    | inl f ↦ ap (λ b'. track_in b' ci pid) (track_in_of_full b ci pid n f)
    | inr (qi, f) ↦ rw (track_in_of_new b ci pid qi n f) (
        track_in_of_duplicate (track_in_at b ci pid (some qi)) ci pid
          (track_in_at-found b ci pid qi h f))
  ]
]
  where
    found : {i : ℕ} → find_duplicate b ci pid ≡ some i → find_duplicate b ci pid ≢ none
    found e n = clash (sym e ∙ n)
      where
        clash : {i : ℕ} → ◌≡◌ {A = Option ℕ} (some i) none → ⊥
        clash q = cc
