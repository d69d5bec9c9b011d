-- ===== src/Broker/Receive/Bounds.antt =====
-- The length of the input in the receive buffer.
use arbor_mq.Base.{
  ℕ, zero, suc, ◌+◌, ◌-◌, ◌≤◌, ◌<◌, ◌≡◌, refl, ap, Option, none, some, List, [], ◌∷◌, ltb, ◌++◌,
  Bytes, length, take, drop, arith, Ensures, Ensures-value, Ensures-if, ◌>>=◌, get_or-set_rel, ◌⊎◌,
  inl, inr,
}
use arbor_mq.Broker.State.{
  Broker, Client, Os, RecvResult, received, recv_blocked, recv_failed, recv_tried, record_effect,
  now_ms, Effect, buf_size, client_at, zero_client,
}
use arbor_mq.Broker.Send.{Status, success, failure}
use arbor_mq.Broker.Dispatch.{dispatch}
use arbor_mq.Broker.Dispatch.Closing.{dispatch-input}
use arbor_mq.Broker.Input.{KeepsInput}
use arbor_mq.Broker.Receive.{
  Frame, short, malformed, incomplete, complete, next_frame, shift_input, after_dispatch,
  process_frame, process, drop_input, take_input, recv_done, client_recv,
}
use arbor_mq.Broker.Receive.Progress.{next_frame-complete, recv_len-in_range, round_shrinks}

abbrev pub Fits : ℕ → Broker → Type 0
Fits ci b = (client_at b ci).recv_len ≤ buf_size

abbrev FitsAfter : ℕ → Broker × Status → Type 0
FitsAfter ci r = Fits ci r.0

Fits-drop_input : (b : Broker) (ci : ℕ) → Fits ci b → FitsAfter ci (drop_input b ci)
Fits-drop_input b ci h =
    get_or-set_rel (λ (c d : Client). c.recv_len ≤ buf_size → d.recv_len ≤ buf_size) b.clients ci ci
      (record (client_at b ci) { recv_len = 0 }) zero_client (λ c k. k) (λ k. omega arith) h

Fits-dispatch :
    (b b' : Broker) (ci total : ℕ) (s : Status)
    → Fits ci b
    → ci < length b.clients
    → dispatch b ci total ≡ some (b', s)
    → Fits ci b'
Fits-dispatch b b' ci total s h k d =
    let Q = λ (r : Broker × Status). KeepsInput ci b r.0 ⊎ (client_at r.0 ci ≡ zero_client) in
    elim (Ensures-value Q (dispatch b ci total) (b', s) d (dispatch-input b ci total k)) [
      | inl same ↦ omega (arith, same.1)
      | inr z ↦ zeroed (ap (λ (c : Client). c.recv_len) z)
    ]
  where
    zeroed : (client_at b' ci).recv_len ≡ 0 → Fits ci b'
    zeroed e = omega arith

-- One round, in front of a loop that keeps the bound.
Fits-process_frame :
    (next : Broker → Option (Broker × Status)) (b : Broker) (ci : ℕ) (f : Frame)
    → ((b' : Broker) → Fits ci b' → Ensures (FitsAfter ci) (next b'))
    → Fits ci b
    → next_frame (client_at b ci) ≡ f
    → Ensures (FitsAfter ci) (process_frame next b ci f)
Fits-process_frame next b ci short k h e = h
Fits-process_frame next b ci malformed k h e = Fits-drop_input b ci h
Fits-process_frame next b ci incomplete k h e = h
Fits-process_frame next b ci (complete total) k h e = handled (dispatch b ci total) refl
  where
    shifted :
        (r : Option Broker)
        → ((b'' : Broker) → r ≡ some b'' → Fits ci b'')
        → Ensures (FitsAfter ci) (r >>= next)
    shifted none f = tt
    shifted (some b'') f = k b'' (f b'' refl)

    handled :
        (r : Option (Broker × Status))
        → dispatch b ci total ≡ r
        → Ensures (FitsAfter ci) (r >>= after_dispatch next ci total)
    handled none d = tt
    handled (some (b', failure)) d =
        let inside = next_frame-complete (client_at b ci) total e in
        let k' = recv_len-in_range b.clients ci (omega (arith, inside.0, inside.1)) in
        Fits-dispatch b b' ci total failure h k' d
    handled (some (b', success)) d =
        shifted (shift_input b' ci total)
          (λ b'' s. omega (arith, h, round_shrinks b b' b'' ci total e h d s))

Fits-process :
    (rounds : ℕ) (b : Broker) (ci : ℕ) → Fits ci b → Ensures (FitsAfter ci) (process rounds b ci)
unfolding process
Fits-process zero b ci h = h
Fits-process (suc rounds) b ci h =
    Fits-process_frame (λ b'. process rounds b' ci) b ci (next_frame (client_at b ci))
      (λ b' k. Fits-process rounds b' ci k) h refl

-- What `recv` documents: it gives at most as many bytes as it is asked for.
abbrev pub ReceivesAtMost : Os → Type 0
ReceivesAtMost os =
    (log : List Effect) (fd : Option ℕ) (room : ℕ) (bytes : Bytes)
    → os.recv log fd room ≡ received bytes
    → length bytes ≤ room

Fits-take_input :
    (b : Broker) (ci : ℕ) (bytes : Bytes)
    → Fits ci b
    → (client_at b ci).recv_len + length bytes ≤ buf_size
    → Fits ci (take_input b ci bytes)
unfolding take_input
Fits-take_input b ci bytes h k =
    let c = client_at b ci in
    get_or-set_rel (λ (c d : Client). c.recv_len ≤ buf_size → d.recv_len ≤ buf_size) b.clients ci ci
      (record c {
        recv_buf =
            take c.recv_len c.recv_buf ++ bytes ++ drop (c.recv_len + length bytes) c.recv_buf;
        recv_len = c.recv_len + length bytes;
        last_recv_ms = now_ms b;
      })
      zero_client (λ c k. k) (λ _. k) h

Fits-recv_done :
    (b : Broker) (ci : ℕ) (r : RecvResult)
    → Fits ci b
    → ((bytes : Bytes) → r ≡ received bytes → (client_at b ci).recv_len + length bytes ≤ buf_size)
    → Ensures (FitsAfter ci) (recv_done b ci r)
Fits-recv_done b ci recv_blocked h k = h
Fits-recv_done b ci recv_failed h k = h
Fits-recv_done b ci (received []) h k = h
Fits-recv_done b ci (received (x ∷ xs)) h k =
    let b' = take_input b ci (x ∷ xs) in
    Fits-process (client_at b' ci).recv_len b' ci
      (Fits-take_input b ci (x ∷ xs) h (k (x ∷ xs) refl))

-- For a client whose input fits the receive buffer, and a `recv` that gives at most as many bytes as
-- it is asked for, the input of the client fits the buffer after `client_recv`, where that does not
-- fault.
pub client_recv_bounds :
    (b : Broker) (ci : ℕ)
    → ReceivesAtMost b.os
    → (client_at b ci).recv_len ≤ buf_size
    → Ensures (λ r. (client_at r.0 ci).recv_len ≤ buf_size) (client_recv b ci)
unfolding client_recv
client_recv_bounds b ci os h =
    let c = client_at b ci in
    let room = buf_size - c.recv_len in
    Ensures-if (ltb room 64) (FitsAfter ci) (some (drop_input b ci)) _ (Fits-drop_input b ci h) (
      Fits-recv_done (record_effect b (recv_tried c.fd room)) ci (b.os.recv b.log c.fd room) h
        (λ bytes e. omega (arith, os b.log c.fd room bytes e)))
