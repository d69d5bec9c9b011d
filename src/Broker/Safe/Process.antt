-- ===== src/Broker/Safe/Process.antt =====
-- branch_broker.h, lines 181 to 196: the loop over the received packets in a safe broker.
use arbor_mq.Base.{
  ℕ, zero, suc, ◌+◌, ◌-◌, ◌%◌, ◌^◌, ◌≤◌, ◌≡◌, refl, ap, ◌∙◌, Bool, true, false, Option, none, some,
  ◌++◌, ltb, ◌>>=◌, drop, arith, Returns, Returns-both, ReturnsUnless, ReturnsUnless-weaken,
  ReturnsUnless-bind, inl, inr, if◌then◌else◌,
}
use native.Mathlib.Decide.{ℕ_discrete}
use arbor_mq.Wire.{slice, decode_remaining}
use arbor_mq.Wire.Agree.{decode_remaining_agree}
use arbor_mq.Packet.{t_pkt_disconnect}
use arbor_mq.Broker.State.{Broker, Client, buf_size, client_at}
use arbor_mq.Broker.Send.{Status, success, failure}
use arbor_mq.Broker.Dispatch.{packet_type, packet_flags, handle, dispatch, handle_disconnect}
use arbor_mq.Broker.Dispatch.Closing.{handle_of_disconnect}
use arbor_mq.Broker.Dispatch.Handlers.{dispatch-KeepsInput}
use arbor_mq.Broker.Input.{KeepsInput}
use arbor_mq.Broker.Receive.{
  Frame, short, malformed, incomplete, complete, frame_of, next_frame, shift_input, after_dispatch,
  process_frame, process, drop_input,
}
use arbor_mq.Broker.Receive.Progress.{next_frame-complete, recv_len-in_range, process-suc}
use arbor_mq.Broker.Receive.Disconnect.{handle_disconnect-Cleared, Cleared-faults}
use arbor_mq.Broker.Safe.{Safe, put_client-Safe}
use arbor_mq.Broker.Safe.Dispatch.{HandlesSafely, dispatch-handle, dispatch-Safe}

-- The header of a complete packet.
abbrev Header : Client → ℕ → Type 0
Header c total =
    (r : ℕ) × (rem : ℕ) × (decode_remaining (drop 1 c.recv_buf) (r + rem) ≡ some (r, rem))
    × (total ≡ 1 + r + rem)

next_frame-Header : (c : Client) (total : ℕ) → next_frame c ≡ complete total → Header c total
unfolding next_frame
next_frame-Header c total e = at (ltb c.recv_len 2) e
  where
    framed :
        (o : Option (ℕ × ℕ))
        → decode_remaining (drop 1 c.recv_buf) 4 ≡ o
        → frame_of c.recv_len o ≡ complete total
        → Header c total
    framed none d q = absurd (cc)
    framed (some (r, rem)) d q = (
      r,
      rem,
      decode_remaining_agree (drop 1 c.recv_buf) 4 (r + rem) r rem d (omega arith),
      ground arith,
    )

    at :
        (t : Bool)
        → (if t then short else frame_of c.recv_len (decode_remaining (drop 1 c.recv_buf) 4))
          ≡ complete total
        → Header c total
    at true q = absurd (cc)
    at false q = framed (decode_remaining (drop 1 c.recv_buf) 4) refl q

-- The packet that the loop takes off the input is handled safely.
dispatch_frame-Safe :
    (b : Broker) (ci total : ℕ)
    → Safe b
    → next_frame (client_at b ci) ≡ complete total
    → HandlesSafely (dispatch b ci total)
dispatch_frame-Safe b ci total s e =
    let (r, rem, d, same) = next_frame-Header (client_at b ci) total e in
    let (_, _, hi) = next_frame-complete (client_at b ci) total e in
    rw same (dispatch-Safe b ci r rem s d (omega (arith, hi, same)))

pub drop_input-Safe : (b : Broker) (ci : ℕ) → Safe b → Safe (drop_input b ci).0
drop_input-Safe b ci s =
    let (i, j, k) = s.0 ci in
    put_client-Safe b ci (record (client_at b ci) { recv_len = 0 }) s (i, j, omega arith)

shift_input-Safe :
    (b : Broker) (ci total : ℕ)
    → Safe b
    → total ≤ (client_at b ci).recv_len
    → Returns Safe (shift_input b ci total)
unfolding shift_input
shift_input-Safe b ci total s h =
    let c = client_at b ci in
    let (i, j, k) = s.0 ci in
    let rem = (c.recv_len + 2 ^ 32 - total) % 2 ^ 32 in
    let here : total + rem ≡ c.recv_len = omega arith in
    let near : ltb buf_size (total + rem) ≡ false = ground arith in
    rw near (
      put_client-Safe b ci
        (record c { recv_buf = slice c.recv_buf total rem ++ drop rem c.recv_buf; recv_len = rem })
        s (i, j, omega (arith, here)))

-- The loop over the input of a client reaches a complete DISCONNECT packet.
pub data MeetsDisconnect (ci : ℕ) : ℕ → Broker → Type 0 where
  met :
      {rounds : ℕ} {b : Broker} (total : ℕ)
      → next_frame (client_at b ci) ≡ complete total
      → packet_type (client_at b ci).recv_buf ≡ t_pkt_disconnect
      → MeetsDisconnect ci (suc rounds) b
  later :
      {rounds : ℕ} {b : Broker} (total : ℕ) (b' b'' : Broker)
      → next_frame (client_at b ci) ≡ complete total
      → dispatch b ci total ≡ some (b', success)
      → shift_input b' ci total ≡ some b''
      → MeetsDisconnect ci rounds b''
      → MeetsDisconnect ci (suc rounds) b

-- The computation returns a safe broker, or faults with the reason given.
abbrev pub SafeUnless : Type 0 → Option (Broker × Status) → Type 0
SafeUnless = ReturnsUnless (λ x. Safe x.0)

-- A DISCONNECT packet is handled, and the loop faults behind it.
process_of_disconnect :
    (rounds : ℕ) (b : Broker) (ci total : ℕ)
    → next_frame (client_at b ci) ≡ complete total
    → packet_type (client_at b ci).recv_buf ≡ t_pkt_disconnect
    → (dispatch b ci total >>= after_dispatch (λ b'. process rounds b' ci) ci total) ≡ none
process_of_disconnect rounds b ci total e t =
    let (r, rem, d, same) = next_frame-Header (client_at b ci) total e in
    let (lo, here, hi) = next_frame-complete (client_at b ci) total e in
    let inside = recv_len-in_range b.clients ci (omega (arith, lo, here)) in
    let handled : dispatch b ci total ≡ handle_disconnect b ci =
      ap (dispatch b ci) same
      ∙ dispatch-handle b ci r rem d
      ∙ ap (λ n. handle n b ci (packet_flags (client_at b ci).recv_buf) (1 + r) (1 + r + rem)) t
      ∙ handle_of_disconnect b ci (packet_flags (client_at b ci).recv_buf) (1 + r) (1 + r + rem) in
    rw handled (
      Cleared-faults rounds ci total (handle_disconnect b ci) lo hi
        (handle_disconnect-Cleared b ci inside))

-- The rest of the loop is safe.
abbrev LoopSafe : (Broker → Option (Broker × Status)) → ℕ → ℕ → Type 0
LoopSafe next ci rounds = (b : Broker) → Safe b → SafeUnless (MeetsDisconnect ci rounds b) (next b)

-- In a safe broker the loop over the input of a client returns a safe broker, or it has reached a complete
-- DISCONNECT packet, and then it faults.
pub process-Safe :
    (rounds : ℕ) (b : Broker) (ci : ℕ)
    → Safe b
    → SafeUnless (MeetsDisconnect ci rounds b) (process rounds b ci)
process-Safe zero b ci s = unfold process in inl s
process-Safe (suc rounds) b ci s =
    rw (process-suc rounds b ci)
      (at (next_frame (client_at b ci)) refl (λ b'' s''. process-Safe rounds b'' ci s''))
  where
    D : Type 0
    D = MeetsDisconnect ci (suc rounds) b

    next : Broker → Option (Broker × Status)
    next b' = process rounds b' ci

    handled :
        (total : ℕ) (x : Broker × Status)
        → next_frame (client_at b ci) ≡ complete total
        → dispatch b ci total ≡ some x
        → Safe x.0 × KeepsInput ci b x.0
        → LoopSafe next ci rounds
        → SafeUnless D (after_dispatch next ci total x)
    handled total (b', failure) e d h k = inl h.0
    handled total (b', success) e d (h, i) k =
        let (_, here, _) = next_frame-complete (client_at b ci) total e in
        ReturnsUnless-bind Safe (λ x. Safe x.0) D (shift_input b' ci total) next
          (inl (shift_input-Safe b' ci total h (omega (arith, here, i.1))))
          (λ b'' q t.
            ReturnsUnless-weaken (λ x. Safe x.0) (λ x. Safe x.0) (MeetsDisconnect ci rounds b'') D
              (next b'') (λ x y. y) (λ m. later total b' b'' e d q m) (k b'' t))

    at :
        (f : Frame)
        → next_frame (client_at b ci) ≡ f
        → LoopSafe next ci rounds
        → SafeUnless D (process_frame next b ci f)
    at short e k = inl s
    at malformed e k = inl (drop_input-Safe b ci s)
    at incomplete e k = inl s
    at (complete total) e k =
        elim (ℕ_discrete (packet_type (client_at b ci).recv_buf) t_pkt_disconnect) [
          | yes t ↦ inr (met total e t, process_of_disconnect rounds b ci total e t)
          | no n ↦
              let P = λ (x : Broker × Status). Safe x.0 × KeepsInput ci b x.0 in
              ReturnsUnless-bind P (λ x. Safe x.0) D (dispatch b ci total)
                (after_dispatch next ci total)
                (inl (
                  Returns-both (λ x. Safe x.0) (λ x. KeepsInput ci b x.0) (dispatch b ci total)
                    (dispatch_frame-Safe b ci total s e) (dispatch-KeepsInput b ci total n)))
                (λ x d h. handled total x e d h k)
        ]
