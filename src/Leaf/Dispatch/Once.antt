-- ===== src/Leaf/Dispatch/Once.antt =====
-- Which messages the client library hands to the application.
use arbor_mq.Base.{
  ℕ, ◌≡◌, ◌≢◌, refl, ap, ◌∙◌, Bool, true, false, not, ◌&&◌, Option, none, some, List, [], ◌∷◌,
  if◌then◌else◌, ◌==◌, Bytes, arith, if_keeps, Bool-cases, inl, inr,
}
use arbor_mq.Leaf.State.{
  Leaf, Delivery, Call, clock_read, socket_opened, host_resolved, connect_tried, error_read,
  select_tried, send_tried, recv_tried, closed, connected_event, disconnected_event, message_event,
  call_if,
}
use arbor_mq.Leaf.Pending.{pending_slot}
use arbor_mq.Leaf.Dispatch.{
  is_received, is_seen, note_id, note_received, hold_at, answer_publish, deliver, leaf_dispatch,
}
use arbor_mq.Leaf.Dispatch.Handled.{Changes, By-leaf_dispatch}

-- The messages that the application was given, newest first.
abbrev pub delivered : List Call → List Delivery
delivered [] = []
delivered (message_event m ∷ log) = m ∷ delivered log
delivered (clock_read ∷ log) = delivered log
delivered (socket_opened ∷ log) = delivered log
delivered (host_resolved ∷ log) = delivered log
delivered (connect_tried fd ∷ log) = delivered log
delivered (error_read fd ∷ log) = delivered log
delivered (select_tried rfds wfds timeout ∷ log) = delivered log
delivered (send_tried fd bytes ∷ log) = delivered log
delivered (recv_tried fd room ∷ log) = delivered log
delivered (closed fd ∷ log) = delivered log
delivered (connected_event ∷ log) = delivered log
delivered (disconnected_event ∷ log) = delivered log

note_id-noted :
    (ids : List ℕ) (pid : ℕ) → is_received ids 0 ≡ true → is_received (note_id ids pid) pid ≡ true
unfolding is_received note_id
note_id-noted [] pid h = cc
note_id-noted (x ∷ xs) pid h = ground (arith, note_id-noted xs pid)

note_id-keeps :
    (ids : List ℕ) (pid x : ℕ)
    → x ≢ 0
    → is_received ids x ≡ true
    → is_received (note_id ids pid) x ≡ true
unfolding is_received note_id
note_id-keeps [] pid x n h = h
note_id-keeps (y ∷ ys) pid x n h = ground (arith, note_id-keeps ys pid x n)

-- A packet id that was received stays received.
abbrev Remembers : ℕ → Leaf → Leaf → Type 0
Remembers x c c' = is_received c.received_ids x ≡ true → is_received c'.received_ids x ≡ true

Remembers-Changes : (x : ℕ) → x ≢ 0 → Changes (Remembers x)
Remembers-Changes x n = record {
  same = λ c h. h;
  chain = λ c d e p q h. q (p h);
  logged = λ c e h. h;
  slots = λ c ps h. h;
  noted = λ c pid h. note_id-keeps c.received_ids pid x n h;
  opened = λ c h. h;
}

answer_publish-delivered :
    (c : Leaf) (qos pid : ℕ) → delivered (answer_publish c qos pid).log ≡ delivered c.log
unfolding answer_publish
answer_publish-delivered c qos pid =
    if_keeps Quiet (qos == 1) refl (if_keeps Quiet (qos == 2) (held (pending_slot c)) refl)
  where
    Quiet : Leaf → Type 0
    Quiet d = delivered d.log ≡ delivered c.log

    held : (o : Option ℕ) → delivered (hold_at c pid o).log ≡ delivered c.log
    held none = refl
    held (some i) = refl

deliver_of_seen :
    (c : Leaf) (m : Delivery) (pid : ℕ)
    → is_seen c pid ≡ true
    → delivered (deliver c m pid).log ≡ delivered c.log
unfolding deliver
deliver_of_seen c m pid h = rw (h) (answer_publish-delivered c m.qos pid)

answer_publish-ids :
    (c : Leaf) (qos pid : ℕ) → (answer_publish c qos pid).received_ids ≡ c.received_ids
unfolding answer_publish
answer_publish-ids c qos pid =
    if_keeps Same (qos == 1) refl (if_keeps Same (qos == 2) (held (pending_slot c)) refl)
  where
    Same : Leaf → Type 0
    Same d = d.received_ids ≡ c.received_ids

    held : (o : Option ℕ) → (hold_at c pid o).received_ids ≡ c.received_ids
    held none = refl
    held (some i) = refl

call_if-ids : (t : Bool) (c : Leaf) (e : Call) → (call_if t c e).received_ids ≡ c.received_ids
call_if-ids true c e = refl
call_if-ids false c e = refl

note_received-noted :
    (c : Leaf) (pid : ℕ)
    → pid ≢ 0
    → is_received c.received_ids 0 ≡ true
    → is_received (note_received c pid).received_ids pid ≡ true
note_received-noted c pid n room = elim (Bool-cases (is_received c.received_ids pid)) [
  | inl h ↦
      if_keeps Noted (not (is_seen c pid) && not (pid == 0)) (note_id-noted c.received_ids pid room)
        h
  | inr h ↦
      ap (λ t. is_received (after t).received_ids pid) (notes h)
      ∙ note_id-noted c.received_ids pid room
]
  where
    Noted : Leaf → Type 0
    Noted d = is_received d.received_ids pid ≡ true

    after : Bool → Leaf
    after t = if t then record c { received_ids = note_id c.received_ids pid } else c

    notes : is_received c.received_ids pid ≡ false → (not (is_seen c pid) && not (pid == 0)) ≡ true
    notes h = ground arith

deliver-noted :
    (c : Leaf) (m : Delivery) (pid : ℕ)
    → pid ≢ 0
    → is_received c.received_ids 0 ≡ true
    → is_received (deliver c m pid).received_ids pid ≡ true
unfolding deliver
deliver-noted c m pid n room =
    let d = note_received c pid in
    rw
      (
        call_if-ids (not (is_seen c pid) && c.on_message) (answer_publish d m.qos pid)
            (message_event m),
        answer_publish-ids d m.qos pid,
      )
      (note_received-noted c pid n room)

is_seen_of_received :
    (c : Leaf) (pid : ℕ) → pid ≢ 0 → is_received c.received_ids pid ≡ true → is_seen c pid ≡ true
is_seen_of_received c pid n h = ground arith

-- Any number of packets is handled, whatever the receive buffer holds each time.
pub data Traffic (c : Leaf) : Leaf → Type 0 where
  quiet : Traffic c c
  packet :
      {d : Leaf} (len recv_len : ℕ) (recv_buf : Bytes)
      → Traffic c d
      → Traffic c (record (leaf_dispatch d len).0 { recv_buf = recv_buf; recv_len = recv_len })

Traffic-Remembers : (c d : Leaf) (x : ℕ) → x ≢ 0 → Traffic c d → Remembers x c d
Traffic-Remembers c d x n quiet h = h
Traffic-Remembers c _ x n (packet {d} len recv_len recv_buf t) h =
    By-leaf_dispatch (Remembers-Changes x n) d len (Traffic-Remembers c d x n t h)

-- With room in the table of received packet ids, a message with a packet id makes the application miss
-- every later message with this packet id, whatever packets come between: also after a PUBREL, which
-- ends the exchange and frees the packet id for a new message.
pub deliver-never_again :
    (c d : Leaf) (m m' : Delivery) (pid : ℕ)
    → pid ≢ 0
    → is_received c.received_ids 0 ≡ true
    → Traffic (deliver c m pid) d
    → delivered (deliver d m' pid).log ≡ delivered d.log
deliver-never_again c d m m' pid n room t = deliver_of_seen d m' pid (
    is_seen_of_received d pid n
      (Traffic-Remembers (deliver c m pid) d pid n t (deliver-noted c m pid n room)))
