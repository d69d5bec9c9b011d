-- ===== src/Broker/Tables.antt =====
-- branch_broker.h, lines 9 to 13 and 33 to 64: packet ids and the searches in the broker's tables;
-- and the loops over a client's QoS 2 slots, which stand in each packet handler of branch_codec.h.
use arbor_mq.Base.{
  ℕ, suc, ◌+◌, ◌%◌, Bool, true, false, not, ◌&&◌, ◌||◌, Option, none, some, List, [], ◌∷◌, ◌==◌,
  if◌then◌else◌, list_eq, Bytes, get_or, set,
}
use arbor_mq.Broker.State.{
  Broker, Retained, Qos2, Q2, free, in_pubrec_sent, in_pubrel_rcvd, out_publish_sent,
  out_pubrec_rcvd, out_pubrel_sent, free_slot, client_at, put_client,
}

-- A `for` loop that returns the first index whose entry passes the test.
unfoldable pub find_index {ℓ} : {A : Type ℓ} → (A → Bool) → List A → Option ℕ
find_index p [] = none
find_index p (x ∷ xs) =
    if p x then some 0 else elim (find_index p xs) [ none ↦ none | some i ↦ some (suc i) ]

-- `++t->next_pid` on a `uint16_t`, once more if that gives 0.
unfoldable pub alloc_pid : Broker → ℕ × Broker
alloc_pid b =
    let pid = (b.next_pid + 1) % 65536 in
    let again = (pid + 1) % 65536 in
    if pid == 0 then (again, record b { next_pid = again }) else (pid, record b { next_pid = pid })

abbrev pub is_open : Option ℕ → Bool
is_open none = false
is_open (some fd) = true

unfoldable pub find_free_client : Broker → Option ℕ
unfolding find_index
find_free_client b = find_index (λ c. not (is_open c.fd)) b.clients

unfoldable pub find_free_sub : Broker → Option ℕ
unfolding find_index
find_free_sub b = find_index (λ s. not s.used) b.subs

unfoldable pub find_retained : List Retained → Bytes → Option ℕ
unfolding find_index
find_retained retained topic = find_index (λ r. r.used && list_eq r.topic topic) retained

unfoldable pub find_free_retained : List Retained → Option ℕ
unfolding find_index
find_free_retained retained = find_index (λ r. not r.used) retained

unfoldable pub find_client_by_id : Broker → Bytes → Option ℕ
unfolding find_index
find_client_by_id b client_id =
    find_index (λ c. is_open c.fd && list_eq c.client_id client_id) b.clients

abbrev pub same_q2 : Q2 → Q2 → Bool
same_q2 free free = true
same_q2 in_pubrec_sent in_pubrec_sent = true
same_q2 in_pubrel_rcvd in_pubrel_rcvd = true
same_q2 out_publish_sent out_publish_sent = true
same_q2 out_pubrec_rcvd out_pubrec_rcvd = true
same_q2 out_pubrel_sent out_pubrel_sent = true
same_q2 _ _ = false

-- `qos2[qi].pid == pid && qos2[qi].state == state`
abbrev pub slot_is : ℕ → Q2 → Qos2 → Bool
slot_is pid state q = q.pid == pid && same_q2 q.state state

-- The loops over `c->qos2` that stop at the first slot that passes their test.
unfoldable pub find_slot : Broker → ℕ → ℕ → Q2 → Option ℕ
unfolding find_index
find_slot b ci pid state = find_index (slot_is pid state) (client_at b ci).qos2

unfoldable pub find_free_slot : Broker → ℕ → Option ℕ
unfolding find_index
find_free_slot b ci = find_index (λ q. same_q2 q.state free) (client_at b ci).qos2

-- `dup`: the packet id of an incoming QoS 2 message is in use.
unfoldable pub find_duplicate : Broker → ℕ → ℕ → Option ℕ
unfolding find_index
find_duplicate b ci pid =
    find_index (λ q. slot_is pid in_pubrec_sent q || slot_is pid in_pubrel_rcvd q)
      (client_at b ci).qos2

abbrev pub slot_at : Broker → ℕ → ℕ → Qos2
slot_at b ci qi = get_or (client_at b ci).qos2 qi free_slot

abbrev pub put_slot : Broker → ℕ → ℕ → Qos2 → Broker
put_slot b ci qi q = let c = client_at b ci in put_client b ci (record c { qos2 = set c.qos2 qi q })

-- `c->qos2[qi].state = state`
abbrev pub set_slot_state : Broker → ℕ → ℕ → Q2 → Broker
set_slot_state b ci qi state = put_slot b ci qi (record (slot_at b ci qi) { state = state })
