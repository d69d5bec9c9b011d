-- ===== src/Broker/Receive/Progress.antt =====
-- The loop of `client_recv` over the packets in the receive buffer.
use arbor_mq.Base.{
  ℕ, zero, suc, ◌+◌, ◌-◌, ◌%◌, ◌^◌, ◌≤◌, ◌<◌, ◌≡◌, refl, sym, ap, ◌∙◌, Option, none, some, List, [],
  ◌∷◌, Bytes, length, arith, Ensures-value, ◌>>=◌, drop, get_or, get_or-set_self, ◌++◌, inl, inr,
  ◌⊎◌,
}
use arbor_mq.Wire.{slice, decode_remaining}
use arbor_mq.Wire.Remaining.{decode_remaining_bounds}
use arbor_mq.Broker.State.{Broker, Client, buf_size, client_at, zero_client}
use arbor_mq.Broker.Send.{Status, success, failure}
use arbor_mq.Broker.Dispatch.{dispatch}
use arbor_mq.Broker.Dispatch.Closing.{dispatch-input}
use arbor_mq.Broker.Input.{KeepsInput}
use arbor_mq.Broker.Receive.{
  Frame, short, malformed, incomplete, complete, frame_of, next_frame, shift_input, after_dispatch,
  process_frame, process,
}

-- A packet that is complete has two bytes at least, and lies in the input and in the buffer.
pub frame_of-complete :
    (recv_len total : ℕ) (buf : Bytes)
    → frame_of recv_len (decode_remaining buf 4) ≡ complete total
    → (2 ≤ total) × (total ≤ recv_len) × (total ≤ buf_size)
frame_of-complete recv_len total buf e = read (decode_remaining buf 4) refl e
  where
    read :
        (r : Option (ℕ × ℕ))
        → decode_remaining buf 4 ≡ r
        → frame_of recv_len r ≡ complete total
        → (2 ≤ total) × (total ≤ recv_len) × (total ≤ buf_size)
    read none d e = absurd (cc)
    read (some (n, v)) d e = ground (arith, decode_remaining_bounds buf 4 n v d)

pub next_frame-complete :
    (c : Client) (total : ℕ)
    → next_frame c ≡ complete total
    → (2 ≤ total) × (total ≤ c.recv_len) × (total ≤ buf_size)
unfolding next_frame
next_frame-complete c total e =
    ground (arith, frame_of-complete c.recv_len total (drop 1 c.recv_buf))

pub recv_len-in_range :
    (cs : List Client) (ci : ℕ) → 1 ≤ (get_or cs ci zero_client).recv_len → ci < length cs
recv_len-in_range [] ci h = absurd (omega arith)
recv_len-in_range (c ∷ cs) zero h = omega arith
recv_len-in_range (c ∷ cs) (suc ci) h = omega (arith, recv_len-in_range cs ci h)

-- The input that is left behind a packet, where the shift does not fault.
shift_input-recv_len :
    (b b' : Broker) (ci total : ℕ)
    → shift_input b ci total ≡ some b'
    → 2 ≤ total
    → total ≤ buf_size
    → (total ≤ (client_at b ci).recv_len) ⊎ ((client_at b ci).recv_len ≡ 0)
    → (client_at b ci).recv_len ≤ buf_size
    → (client_at b' ci).recv_len + total ≡ (client_at b ci).recv_len
unfolding shift_input
shift_input-recv_len b b' ci total e lo hi (inr h) k = ground arith
shift_input-recv_len b b' ci total e lo hi (inl h) k =
    let c = client_at b ci in
    let rem = (c.recv_len + 2 ^ 32 - total) % 2 ^ 32 in
    let c' = record c {
      recv_buf = slice c.recv_buf total rem ++ drop rem c.recv_buf;
      recv_len = rem;
    } in
    ground (
      arith,
      get_or-set_self b.clients ci c' zero_client (recv_len-in_range b.clients ci (omega arith)),
    )

-- A round that goes on leaves at least two bytes less in the input.
pub round_shrinks :
    (b b' b'' : Broker) (ci total : ℕ)
    → next_frame (client_at b ci) ≡ complete total
    → (client_at b ci).recv_len ≤ buf_size
    → dispatch b ci total ≡ some (b', success)
    → shift_input b' ci total ≡ some b''
    → (client_at b'' ci).recv_len + 2 ≤ (client_at b ci).recv_len
round_shrinks b b' b'' ci total f k d e =
    let (lo, here, hi) = next_frame-complete (client_at b ci) total f in
    let inside = recv_len-in_range b.clients ci (omega arith) in
    let Q = λ (r : Broker × Status). KeepsInput ci b r.0 ⊎ (client_at r.0 ci ≡ zero_client) in
    finish lo here hi
      (Ensures-value Q (dispatch b ci total) (b', success) d (dispatch-input b ci total inside))
  where
    finish :
        2 ≤ total
        → total ≤ (client_at b ci).recv_len
        → total ≤ buf_size
        → KeepsInput ci b b' ⊎ (client_at b' ci ≡ zero_client)
        → (client_at b'' ci).recv_len + 2 ≤ (client_at b ci).recv_len
    finish lo here hi (inl k') = omega (
      arith,
      k'.1,
      shift_input-recv_len b' b'' ci total e lo hi (inl (omega arith)) (omega arith),
    )
    finish lo here hi (inr z) =
        let empty : (client_at b' ci).recv_len ≡ 0 = ap (λ (c : Client). c.recv_len) z in
        omega (arith, empty, shift_input-recv_len b' b'' ci total e lo hi (inr empty) (omega arith))

-- Two continuations that agree on what a round leaves give the same round.
after_dispatch-agree :
    (next next' : Broker → Option (Broker × Status)) (ci total : ℕ) (b' : Broker) (s : Status)
    → ((b'' : Broker) → s ≡ success → shift_input b' ci total ≡ some b'' → next b'' ≡ next' b'')
    → after_dispatch next ci total (b', s) ≡ after_dispatch next' ci total (b', s)
after_dispatch-agree next next' ci total b' failure h = refl
after_dispatch-agree next next' ci total b' success h =
    shifted (shift_input b' ci total) (λ b''. h b'' refl)
  where
    shifted :
        (r : Option Broker)
        → ((b'' : Broker) → r ≡ some b'' → next b'' ≡ next' b'')
        → (r >>= next) ≡ (r >>= next')
    shifted none k = refl
    shifted (some b'') k = k b'' refl

process_frame-agree :
    (next next' : Broker → Option (Broker × Status)) (b : Broker) (ci : ℕ) (f : Frame)
    → ((total : ℕ) (b' b'' : Broker)
        → f ≡ complete total
        → dispatch b ci total ≡ some (b', success)
        → shift_input b' ci total ≡ some b''
        → next b'' ≡ next' b'')
    → process_frame next b ci f ≡ process_frame next' b ci f
process_frame-agree next next' b ci short h = refl
process_frame-agree next next' b ci malformed h = refl
process_frame-agree next next' b ci incomplete h = refl
process_frame-agree next next' b ci (complete total) h =
    handled (dispatch b ci total) (λ b' b''. h total b' b'' refl)
  where
    handled :
        (r : Option (Broker × Status))
        → ((b' b'' : Broker)
            → r ≡ some (b', success)
            → shift_input b' ci total ≡ some b''
            → next b'' ≡ next' b'')
        → (r >>= after_dispatch next ci total) ≡ (r >>= after_dispatch next' ci total)
    handled none k = refl
    handled (some (b', s)) k =
        after_dispatch-agree next next' ci total b' s (λ b'' e. k b' b'' (ap (λ t. some (b', t)) e))

-- One round written out.
pub process-suc :
    (rounds : ℕ) (b : Broker) (ci : ℕ)
    → process (suc rounds) b ci
      ≡ process_frame (λ b'. process rounds b' ci) b ci (next_frame (client_at b ci))
unfolding process
process-suc rounds b ci = refl

-- Nothing received: the loop ends at its first test.
next_frame-short : (c : Client) → c.recv_len ≤ 1 → next_frame c ≡ short
unfolding next_frame
next_frame-short c h = ground arith

process-idle :
    (b : Broker) (ci : ℕ) → (client_at b ci).recv_len ≤ 0 → process 1 b ci ≡ process 0 b ci
unfolding process
process-idle b ci h =
    ap (process_frame (λ b'. process 0 b' ci) b ci)
      (next_frame-short (client_at b ci) (omega arith))

-- For a client whose input fits the receive buffer, rounds beyond the number of bytes received change
-- nothing: the loop ends by its own tests, or by a fault, within that number of rounds.
pub process_enough :
    (rounds : ℕ) (b : Broker) (ci : ℕ)
    → (client_at b ci).recv_len ≤ buf_size
    → (client_at b ci).recv_len ≤ rounds
    → process (suc rounds) b ci ≡ process rounds b ci
process_enough zero b ci k h = process-idle b ci h
process_enough (suc rounds) b ci k h =
    process-suc (suc rounds) b ci
    ∙ process_frame-agree (λ b'. process (suc rounds) b' ci) (λ b'. process rounds b' ci) b ci
        (next_frame (client_at b ci))
        (λ total b' b'' f d e.
          let less = round_shrinks b b' b'' ci total f k d e in
          process_enough rounds b'' ci (omega (arith, less, k)) (omega (arith, less, h)))
    ∙ sym (process-suc rounds b ci)
