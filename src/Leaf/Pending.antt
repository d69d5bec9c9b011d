-- ===== src/Leaf/Pending.antt =====
-- leaf/leaf/leaf_client.h, lines 10 to 33: packet ids, and the slots of packets that wait for their
-- acknowledgement.
pub mod Retries
use arbor_mq.Base.{
  ℕ, ◌+◌, ◌-◌, ◌%◌, ◌^◌, Bool, not, ◌&&◌, Option, List, [], ◌∷◌, ltb, leb, ◌==◌, if◌then◌else◌,
  get_or, set,
}
use arbor_mq.Broker.Tables.{find_index}
use arbor_mq.Leaf.State.{Leaf, Pending, Call, send_tried, clock_read, no_pending, now_ms}

unfoldable pub pending_slot : Leaf → Option ℕ
unfolding find_index
pending_slot c = find_index (λ p. p.packet_id == 0) c.pending

-- `++c->next_packet_id` on a `uint16_t`, once more if that gives 0.
unfoldable pub next_pid : Leaf → ℕ × Leaf
next_pid c =
    let pid = (c.next_packet_id + 1) % 65536 in
    let again = (pid + 1) % 65536 in
    if pid == 0
    then (again, record c { next_packet_id = again })
    else (pid, record c { next_packet_id = pid })

abbrev pub pending_at : Leaf → ℕ → Pending
pending_at c i = get_or c.pending i no_pending

abbrev pub put_pending : Leaf → ℕ → Pending → Leaf
put_pending c i p = record c { pending = set c.pending i p }

-- The slot is used, and its packet is ten seconds old; `now - p->sent_at_ms` is a `uint64_t`.
unfoldable pub is_due : ℕ → Pending → Bool
is_due now p = not (p.packet_id == 0) && not (ltb ((now + 2 ^ 64 - p.sent_at_ms) % 2 ^ 64) 10000)

-- What a round of the loop does to the slot: the sixth attempt is not made.
unfoldable pub retry_slot : ℕ → Pending → Pending
unfolding is_due
retry_slot now p =
    if is_due now p
    then if leb 5 p.retries
      then record p { packet_id = 0 }
      else record p { sent_at_ms = now; retries = p.retries + 1 }
    else p

abbrev pub is_resent : ℕ → Pending → Bool
is_resent now p = is_due now p && not (leb 5 p.retries)

-- The loop over the slots, which sends the packets that are due again.
unfoldable pub retry_slots : ℕ → Option ℕ → List Pending → List Call → List Pending × List Call
retry_slots now fd [] log = ([], log)
retry_slots now fd (p ∷ ps) log =
    let log' = if is_resent now p then send_tried fd p.payload ∷ log else log in
    let rest = retry_slots now fd ps log' in (retry_slot now p ∷ rest.0, rest.1)

unfoldable pub retry_pending : Leaf → Leaf
retry_pending c =
    let r = retry_slots (now_ms c) c.fd c.pending (clock_read ∷ c.log) in
    record c { pending = r.0; log = r.1 }
