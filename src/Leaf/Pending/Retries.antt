-- ===== src/Leaf/Pending/Retries.antt =====
-- leaf_client.h, lines 22 to 33: what becomes of a packet that is never answered.
use arbor_mq.Base.{
  ℕ, suc, ◌+◌, ◌-◌, ◌^◌, ◌≤◌, ◌<◌, ◌≡◌, ◌≢◌, refl, ap, subst, sym, ◌∙◌, Bool, true, false, not,
  ◌&&◌, Option, List, [], ◌∷◌, ◌++◌, leb, if◌then◌else◌, length, arith, leb→le, Bool-cases, inl,
  inr, All, Bytes, replicate, replicate-cons,
}
use arbor_mq.Leaf.State.{
  Leaf, Pending, Call, clock_read, socket_opened, host_resolved, connect_tried, error_read,
  select_tried, send_tried, recv_tried, closed, connected_event, disconnected_event, message_event,
}
use arbor_mq.Leaf.Pending.{is_due, retry_slot, is_resent, retry_slots, retry_pending}

-- The client at a time of its clock.
abbrev pub at_time : Leaf → ℕ → Leaf
at_time c t = record c { system = record c.system { now_ms = λ log. t } }

-- `leaf__retry_pending` at each of the times.
unfoldable pub retry_at : List ℕ → Leaf → Leaf
retry_at [] c = c
retry_at (t ∷ ts) c = retry_at ts (retry_pending (at_time c t))

-- What has been sent, newest first.
abbrev pub sendings : List Call → List (Option ℕ × Bytes)
sendings [] = []
sendings (send_tried fd bytes ∷ log) = (fd, bytes) ∷ sendings log
sendings (clock_read ∷ log) = sendings log
sendings (socket_opened ∷ log) = sendings log
sendings (host_resolved ∷ log) = sendings log
sendings (connect_tried fd ∷ log) = sendings log
sendings (error_read fd ∷ log) = sendings log
sendings (select_tried rfds wfds timeout ∷ log) = sendings log
sendings (recv_tried fd room ∷ log) = sendings log
sendings (closed fd ∷ log) = sendings log
sendings (connected_event ∷ log) = sendings log
sendings (disconnected_event ∷ log) = sendings log
sendings (message_event m ∷ log) = sendings log

-- Times that are ten seconds apart at least, the first from the last sending.
abbrev pub Spaced : ℕ → List ℕ → Type 0
Spaced last [] = Unit {0}
Spaced last (t ∷ ts) = (last + 10000 ≤ t) × (t < 2 ^ 64) × Spaced t ts

-- A free slot.
abbrev pub IsFree : Pending → Type 0
IsFree p = p.packet_id ≡ 0

due_of_spaced :
    (p : Pending) (t : ℕ)
    → p.packet_id ≢ 0
    → p.sent_at_ms + 10000 ≤ t
    → t < 2 ^ 64
    → is_due t p ≡ true
unfolding is_due
due_of_spaced p t n h k = ground arith

retry_slot-again :
    (p : Pending) (t : ℕ)
    → is_due t p ≡ true
    → p.retries < 5
    → retry_slot t p ≡ record p { sent_at_ms = t; retries = p.retries + 1 }
unfolding retry_slot
retry_slot-again p t d h = ground arith

retry_slot-over :
    (p : Pending) (t : ℕ)
    → is_due t p ≡ true
    → 5 ≤ p.retries
    → retry_slot t p ≡ record p { packet_id = 0 }
unfolding retry_slot
retry_slot-over p t d h = ground arith

retry_slot-free :
    (p : Pending) (t : ℕ) → p.packet_id ≡ 0 → (retry_slot t p ≡ p) × (is_resent t p ≡ false)
unfolding retry_slot is_due
retry_slot-free p t z = ground arith

is_resent-due : (p : Pending) (t : ℕ) → is_due t p ≡ true → is_resent t p ≡ not (leb 5 p.retries)
is_resent-due p t d = ap (λ x. x && not (leb 5 p.retries)) d

-- A free slot in front of the others.
retry_slots-skip :
    (t : ℕ) (fd : Option ℕ) (p : Pending) (ps : List Pending) (log : List Call)
    → IsFree p
    → retry_slots t fd (p ∷ ps) log ≡ (p ∷ (retry_slots t fd ps log).0, (retry_slots t fd ps log).1)
unfolding retry_slots
retry_slots-skip t fd p ps log z =
    let (same, quiet) = retry_slot-free p t z in rw (same, quiet) refl

retry_slots-free :
    (t : ℕ) (fd : Option ℕ) (ps : List Pending) (log : List Call)
    → All IsFree ps
    → retry_slots t fd ps log ≡ (ps, log)
retry_slots-free t fd [] log f = unfold retry_slots in refl
retry_slots-free t fd (p ∷ ps) log (z, f) =
    retry_slots-skip t fd p ps log z
    ∙ ap (λ (r : List Pending × List Call). (p ∷ r.0, r.1)) (retry_slots-free t fd ps log f)

-- A slot among free ones.
retry_slots-one :
    (t : ℕ) (fd : Option ℕ) (xs ys : List Pending) (p : Pending) (log : List Call)
    → All IsFree xs
    → All IsFree ys
    → retry_slots t fd (xs ++ (p ∷ ys)) log
      ≡ (xs ++ (retry_slot t p ∷ ys), if is_resent t p then send_tried fd p.payload ∷ log else log)
retry_slots-one t fd [] ys p log f g =
    unfold retry_slots in
    ap (λ (r : List Pending × List Call). (retry_slot t p ∷ r.0, r.1))
      (retry_slots-free t fd ys (if is_resent t p then send_tried fd p.payload ∷ log else log) g)
retry_slots-one t fd (x ∷ xs) ys p log (z, f) g =
    retry_slots-skip t fd x (xs ++ (p ∷ ys)) log z
    ∙ ap (λ (r : List Pending × List Call). (x ∷ r.0, r.1)) (retry_slots-one t fd xs ys p log f g)

All-middle :
    (xs ys : List Pending) (p : Pending)
    → All IsFree xs
    → IsFree p
    → All IsFree ys
    → All IsFree (xs ++ (p ∷ ys))
All-middle [] ys p f z g = (z, g)
All-middle (x ∷ xs) ys p (y, f) z g = (y, All-middle xs ys p f z g)

-- All slots are free, and this has been sent.
abbrev Idle : List (Option ℕ × Bytes) → Leaf → Type 0
Idle sent c = All IsFree c.pending × (sendings c.log ≡ sent)

idle_look :
    (c : Leaf) (t : ℕ)
    → All IsFree c.pending
    → retry_pending (at_time c t) ≡ record (at_time c t) { log = clock_read ∷ c.log }
unfolding retry_pending
idle_look c t f =
    ap (λ (r : List Pending × List Call). record (at_time c t) { pending = r.0; log = r.1 })
      (retry_slots-free t c.fd c.pending (clock_read ∷ c.log) f)

Idle-retry_at :
    (ts : List ℕ) (c : Leaf) → All IsFree c.pending → Idle (sendings c.log) (retry_at ts c)
unfolding retry_at
Idle-retry_at [] c f = (f, refl)
Idle-retry_at (t ∷ ts) c f =
    let d : Leaf = record (at_time c t) { log = clock_read ∷ c.log } in
    subst (λ (e : Leaf). Idle (sendings c.log) (retry_at ts e)) (sym (idle_look c t f))
      (Idle-retry_at ts d f)

-- The client with one packet that waits for its acknowledgement.
abbrev pub waiting_one : Leaf → List Pending → Pending → List Pending → Leaf
waiting_one c xs p ys = record c { pending = xs ++ (p ∷ ys) }

-- The client behind a look that leaves the slot `q`, and sends or does not.
abbrev looked_at : Leaf → ℕ → List Pending → Pending → List Pending → Bool → Bytes → Leaf
looked_at c t xs q ys sends payload =
    let log = clock_read ∷ c.log in
    waiting_one
      (record (at_time c t) { log = if sends then send_tried c.fd payload ∷ log else log }) xs q ys

look :
    (c : Leaf) (t : ℕ) (xs ys : List Pending) (p q : Pending) (sends : Bool)
    → All IsFree xs
    → All IsFree ys
    → retry_slot t p ≡ q
    → is_resent t p ≡ sends
    → retry_pending (at_time (waiting_one c xs p ys) t) ≡ looked_at c t xs q ys sends p.payload
unfolding retry_pending
look c t xs ys p q sends f g e s =
    ap (λ (r : List Pending × List Call). record (at_time c t) { pending = r.0; log = r.1 })
      (retry_slots-one t c.fd xs ys p (clock_read ∷ c.log) f g)
    ∙ ap (λ (q : Pending). looked_at c t xs q ys (is_resent t p) p.payload) e
    ∙ ap (λ (x : Bool). looked_at c t xs q ys x p.payload) s

once_more :
    {A : Type 0} (r : ℕ) (x : A) (xs : List A)
    → r < 5
    → replicate (5 - (r + 1)) x ++ (x ∷ xs) ≡ replicate (5 - r) x ++ xs
once_more r x xs h =
    let e : suc (5 - (r + 1)) ≡ 5 - r = omega (arith, h) in
    replicate-cons (5 - (r + 1)) x xs ∙ ap (λ n. replicate n x ++ xs) e

-- A packet that is not answered, and that `leaf__retry_pending` looks at often enough, six times
-- less the retries that are behind it, is given up: all slots are free afterwards, and the packet
-- has been sent again as often as five retries allow, but no more, and nothing else has been sent.
-- This holds for a packet that is the only one to wait, for looks at least ten seconds apart, by a
-- clock of 64 bits.
pub retry_pending-end :
    (ts : List ℕ) (c : Leaf) (xs ys : List Pending) (p : Pending)
    → All IsFree xs
    → All IsFree ys
    → p.packet_id ≢ 0
    → p.retries ≤ 5
    → Spaced p.sent_at_ms ts
    → 6 ≤ length ts + p.retries
    → (let d = retry_at ts (waiting_one c xs p ys) in
        All IsFree d.pending
        × (sendings d.log ≡ replicate (5 - p.retries) (c.fd, p.payload) ++ sendings c.log))
unfolding retry_at
retry_pending-end [] c xs ys p f g n r s l = absurd (omega (arith, r, l))
retry_pending-end (t ∷ ts) c xs ys p f g n r (gap, small, s) l =
    let due = due_of_spaced p t n gap small in
    let Ends : Leaf → Type 0 = λ (e : Leaf).
      Idle (replicate (5 - p.retries) (c.fd, p.payload) ++ sendings c.log) (retry_at ts e) in
    elim (Bool-cases (leb 5 p.retries)) [
      | inl h ↦
          let q : Pending = record p { packet_id = 0 } in
          let over : 5 - p.retries ≡ 0 = omega (arith, leb→le 5 p.retries h) in
          let (free, quiet) =
            Idle-retry_at ts (looked_at c t xs q ys false p.payload)
              (All-middle xs ys q f refl g) in
          subst Ends
            (sym (
              look c t xs ys p q false f g (retry_slot-over p t due (leb→le 5 p.retries h))
                (is_resent-due p t due ∙ ap not h)))
            (free, quiet ∙ ap (λ k. replicate k (c.fd, p.payload) ++ sendings c.log) (sym over))
      | inr h ↦
          let less : p.retries < 5 = ground arith in
          let q : Pending = record p { sent_at_ms = t; retries = p.retries + 1 } in
          let d : Leaf = record (at_time c t) {
            log = send_tried c.fd p.payload ∷ clock_read ∷ c.log;
          } in
          let (free, sent) =
            retry_pending-end ts d xs ys q f g n (omega (arith, less)) s (omega (arith, l)) in
          subst Ends
            (sym (
              look c t xs ys p q true f g (retry_slot-again p t due less)
                (is_resent-due p t due ∙ ap not h)))
            (free, sent ∙ once_more p.retries (c.fd, p.payload) (sendings c.log) less)
    ]
