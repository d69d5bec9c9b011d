-- ===== src/Leaf/Network/Receive.antt =====
-- leaf_client.h, lines 85 to 119: the loop over the packets in the client's receive buffer.
use arbor_mq.Base.{
  ℕ, zero, suc, ◌+◌, ◌-◌, ◌%◌, ◌^◌, ◌≤◌, ◌≡◌, refl, sym, ap, ◌∙◌, false, Option, none, some, List,
  ltb, Bytes, length, drop, arith, Returns, Returns-bind, Returns-at, ◌>>=◌,
}
use arbor_mq.Broker.State.{RecvResult, received, recv_blocked, recv_failed}
use arbor_mq.Broker.Send.{Status, success, failure}
use arbor_mq.Broker.Receive.{Frame, short, malformed, incomplete, complete}
use arbor_mq.Broker.Receive.Progress.{frame_of-complete}
use arbor_mq.Leaf.State.{Leaf, System, Call, leaf_buf_size, call, recv_tried}
use arbor_mq.Leaf.Dispatch.{leaf_dispatch}
use arbor_mq.Leaf.Dispatch.Handled.{leaf_dispatch-Handled}
use arbor_mq.Leaf.Network.{
  next_packet, shift_down, after_packet, packet_round, packet_loop, take_bytes, received_bytes,
  recv_and_dispatch,
}

next_packet-complete :
    (c : Leaf) (total : ℕ)
    → next_packet c ≡ complete total
    → (2 ≤ total) × (total ≤ c.recv_len) × (total ≤ leaf_buf_size)
unfolding next_packet
next_packet-complete c total e =
    ground (arith, frame_of-complete c.recv_len total (drop 1 c.recv_buf))

-- The shift behind a packet that lies in the input does not fault, and takes it off.
abbrev Shortened : ℕ → ℕ → Leaf → Type 0
Shortened recv_len total c = c.recv_len + total ≡ recv_len

shift_down-Shortened :
    (c : Leaf) (total : ℕ)
    → total ≤ c.recv_len
    → c.recv_len ≤ leaf_buf_size
    → Returns (Shortened c.recv_len total) (shift_down c total)
unfolding shift_down
shift_down-Shortened c total h k =
    let rem : ℕ = (c.recv_len + 2 ^ 32 - total) % 2 ^ 32 in
    let inside : ltb leaf_buf_size (total + rem) ≡ false = ground arith in rw (inside) (omega arith)

-- The input fits the receive buffer.
abbrev InputFits : Leaf × Status → Type 0
InputFits r = r.0.recv_len ≤ leaf_buf_size

-- One round in front of a loop that is safe on shorter inputs.
packet_round-InputFits :
    (next : Leaf → Option (Leaf × Status)) (c : Leaf) (f : Frame)
    → c.recv_len ≤ leaf_buf_size
    → next_packet c ≡ f
    → ((c' : Leaf) → c'.recv_len ≤ leaf_buf_size → Returns InputFits (next c'))
    → Returns InputFits (packet_round next c f)
packet_round-InputFits next c short k e n = k
packet_round-InputFits next c malformed k e n = omega arith
packet_round-InputFits next c incomplete k e n = k
packet_round-InputFits next c (complete total) k e n =
    handled (leaf_dispatch c total) (ap (λ (d : Leaf). d.recv_len) (leaf_dispatch-Handled c total))
  where
    handled :
        (r : Leaf × Status)
        → r.0.recv_len ≡ c.recv_len
        → Returns InputFits (after_packet next total r)
    handled (d, failure) same = omega (arith, same)
    handled (d, success) same =
        let (lo, here, hi) = next_packet-complete c total e in
        Returns-bind (Shortened d.recv_len total) InputFits (shift_down d total) next
          (shift_down-Shortened d total (omega (arith, same, here)) (omega (arith, same)))
          (λ d' m. n d' (omega (arith, m, same)))

packet_loop-InputFits :
    (rounds : ℕ) (c : Leaf) → c.recv_len ≤ leaf_buf_size → Returns InputFits (packet_loop rounds c)
unfolding packet_loop
packet_loop-InputFits zero c k = k
packet_loop-InputFits (suc rounds) c k =
    packet_round-InputFits (packet_loop rounds) c (next_packet c) k refl
      (λ c' h. packet_loop-InputFits rounds c' h)

-- What `recv` documents: it gives at most as many bytes as it is asked for.
abbrev pub RecvAtMost : System → Type 0
RecvAtMost s =
    (log : List Call) (fd : Option ℕ) (room : ℕ) (bytes : Bytes)
    → s.recv log fd room ≡ received bytes
    → length bytes ≤ room

received_bytes-InputFits :
    (c : Leaf) (r : RecvResult)
    → c.recv_len ≤ leaf_buf_size
    → ((bytes : Bytes) → r ≡ received bytes → c.recv_len + length bytes ≤ leaf_buf_size)
    → Returns InputFits (received_bytes c r)
unfolding take_bytes
received_bytes-InputFits c recv_blocked k h = k
received_bytes-InputFits c recv_failed k h = k
received_bytes-InputFits c (received bytes) k h =
    packet_loop-InputFits (c.recv_len + length bytes) (take_bytes c bytes) (h bytes refl)

-- For a client whose input fits the receive buffer, and a `recv` that gives at most as many bytes as it
-- is asked for, `leaf__recv_and_dispatch` does not fault, and the input fits the buffer afterwards.
pub recv_and_dispatch_safe :
    (c : Leaf)
    → RecvAtMost c.system
    → c.recv_len ≤ leaf_buf_size
    → Returns (λ r. r.0.recv_len ≤ leaf_buf_size) (recv_and_dispatch c)
unfolding recv_and_dispatch
recv_and_dispatch_safe c s k =
    let room = leaf_buf_size - c.recv_len in
    received_bytes-InputFits (call c (recv_tried c.fd room)) (c.system.recv c.log c.fd room) k
      (λ bytes e. omega (arith, s c.log c.fd room bytes e))

-- Rounds beyond the number of bytes received change nothing.
packet_round_agree :
    (next next' : Leaf → Option (Leaf × Status)) (c : Leaf) (f : Frame)
    → c.recv_len ≤ leaf_buf_size
    → next_packet c ≡ f
    → ((c' : Leaf) → c'.recv_len + 2 ≤ c.recv_len → next c' ≡ next' c')
    → packet_round next c f ≡ packet_round next' c f
packet_round_agree next next' c short k e n = refl
packet_round_agree next next' c malformed k e n = refl
packet_round_agree next next' c incomplete k e n = refl
packet_round_agree next next' c (complete total) k e n =
    handled (leaf_dispatch c total) (ap (λ (d : Leaf). d.recv_len) (leaf_dispatch-Handled c total))
  where
    shifted :
        (o : Option Leaf)
        → ((c' : Leaf) → o ≡ some c' → next c' ≡ next' c')
        → (o >>= next) ≡ (o >>= next')
    shifted none h = refl
    shifted (some c') h = h c' refl

    handled :
        (r : Leaf × Status)
        → r.0.recv_len ≡ c.recv_len
        → after_packet next total r ≡ after_packet next' total r
    handled (d, failure) same = refl
    handled (d, success) same =
        let (lo, here, hi) = next_packet-complete c total e in
        shifted (shift_down d total) (λ c' s.
          let left =
            Returns-at (Shortened d.recv_len total) (shift_down d total) c' s
              (shift_down-Shortened d total (omega (arith, same, here)) (omega (arith, same))) in
          n c' (omega (arith, left, same, lo)))

next_packet-short : (c : Leaf) → c.recv_len ≤ 1 → next_packet c ≡ short
unfolding next_packet
next_packet-short c h = ground arith

packet_loop_idle : (c : Leaf) → c.recv_len ≤ 0 → packet_loop 1 c ≡ packet_loop 0 c
unfolding packet_loop
packet_loop_idle c h = ap (packet_round (packet_loop 0) c) (next_packet-short c (omega arith))

packet_loop-suc :
    (rounds : ℕ) (c : Leaf)
    → packet_loop (suc rounds) c ≡ packet_round (packet_loop rounds) c (next_packet c)
unfolding packet_loop
packet_loop-suc rounds c = refl

-- For a client whose input fits the receive buffer, rounds beyond the number of bytes received change
-- nothing: the loop ends by its own tests within that number of rounds.
pub packet_loop_enough :
    (rounds : ℕ) (c : Leaf)
    → c.recv_len ≤ leaf_buf_size
    → c.recv_len ≤ rounds
    → packet_loop (suc rounds) c ≡ packet_loop rounds c
packet_loop_enough zero c k h = packet_loop_idle c h
packet_loop_enough (suc rounds) c k h =
    packet_loop-suc (suc rounds) c
    ∙ packet_round_agree (packet_loop (suc rounds)) (packet_loop rounds) c (next_packet c) k refl
        (λ c' less. packet_loop_enough rounds c' (omega arith) (omega arith))
    ∙ sym (packet_loop-suc rounds c)
