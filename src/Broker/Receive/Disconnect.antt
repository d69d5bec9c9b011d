-- ===== src/Broker/Receive/Disconnect.antt =====
-- The loop of `client_recv` on a DISCONNECT packet.
use arbor_mq.Base.{
  ℕ, suc, ltb, ◌+◌, ◌-◌, ◌%◌, ◌^◌, ◌≤◌, ◌<◌, ◌≡◌, refl, sym, ap, ◌∙◌, Option, none, some, ◌∷◌, Bool,
  true, false, Bytes, length, arith, Returns, Returns-bind, get_or-set_self, get_or-set_rel,
  length-set, ◌>>=◌, drop,
}
use arbor_mq.Wire.{decode_remaining, decode_loop}
use arbor_mq.Broker.State.{
  buf_size, Broker, Client, Event, client_at, put_client, emit_if, zero_client,
}
use arbor_mq.Broker.Send.{Status, success, failure}
use arbor_mq.Broker.Dispatch.{
  packet_type, packet_flags, dispatch, dispatch_at, handle, handle_disconnect,
}
use arbor_mq.Broker.Dispatch.Closing.{handle_of_disconnect}
use arbor_mq.Broker.Input.{SameSize-close_fd_at}
use arbor_mq.Broker.Forward.{trigger_will, close_client, close_fd, close_fd_at}
use arbor_mq.Broker.Receive.{complete, next_frame, shift_input, after_dispatch, process}

-- The packet is complete as soon as both of its bytes are there.
next_frame-disconnect :
    (c : Client) (rest : Bytes)
    → c.recv_buf ≡ 0xe0 ∷ 0 ∷ rest
    → 2 ≤ c.recv_len
    → next_frame c ≡ complete 2
unfolding next_frame decode_remaining decode_loop
next_frame-disconnect c rest e h = rw (e) (ground arith)

decode_remaining-none_left :
    (buf rest : Bytes) → buf ≡ 0xe0 ∷ 0 ∷ rest → decode_remaining (drop 1 buf) 1 ≡ some (1, 0)
unfolding decode_remaining decode_loop
decode_remaining-none_left buf rest e = rw (e) refl

dispatch-disconnect :
    (b : Broker) (ci : ℕ) (rest : Bytes)
    → (client_at b ci).recv_buf ≡ 0xe0 ∷ 0 ∷ rest
    → dispatch b ci 2 ≡ handle_disconnect b ci
unfolding dispatch
dispatch-disconnect b ci rest e =
    ap (dispatch_at b ci 2) (decode_remaining-none_left (client_at b ci).recv_buf rest e)
    ∙ ap (λ p. handle (packet_type p) b ci (packet_flags p) 2 2) e
    ∙ handle_of_disconnect b ci 0 2 2

-- Without a will, closing a client publishes nothing and cannot fault.
no_will : (b : Broker) (ci : ℕ) → (client_at b ci).has_will ≡ false → trigger_will b ci ≡ some b
unfolding trigger_will
no_will b ci e = rw (e) refl

close_fd_at-has_will :
    (b : Broker) (ci : ℕ) (fd : Option ℕ)
    → (client_at b ci).has_will ≡ false
    → (client_at (close_fd_at b ci fd) ci).has_will ≡ false
close_fd_at-has_will b ci none e = e
close_fd_at-has_will b ci (some fd) e =
    sym (
      get_or-set_rel (λ (c d : Client). c.has_will ≡ d.has_will) b.clients ci ci
        (record (client_at b ci) { fd = none }) zero_client (λ c. refl) refl)
    ∙ e

close_client-quiet :
    (b : Broker) (ci : ℕ)
    → ci < length b.clients
    → (client_at b ci).has_will ≡ false
    → Returns (λ b'. client_at b' ci ≡ zero_client) (close_client b ci)
unfolding close_client close_fd
close_client-quiet b ci h e =
    let d = close_fd b ci in
    rw (no_will d ci (close_fd_at-has_will b ci (client_at b ci).fd e)) (
      get_or-set_self d.clients ci zero_client zero_client
        (omega (arith, SameSize-close_fd_at b ci (client_at b ci).fd)))

recv_len-emit :
    (on : Bool) (b : Broker) (ci : ℕ) (e : Event) → client_at (emit_if on b e) ci ≡ client_at b ci
recv_len-emit true b ci e = refl
recv_len-emit false b ci e = refl

-- The handler succeeds, and leaves a cleared slot.
abbrev pub Cleared : ℕ → Broker × Status → Type 0
Cleared ci r = (r.1 ≡ success) × (client_at r.0 ci ≡ zero_client)

pub handle_disconnect-Cleared :
    (b : Broker) (ci : ℕ) → ci < length b.clients → Returns (Cleared ci) (handle_disconnect b ci)
unfolding handle_disconnect
handle_disconnect-Cleared b ci h =
    let c = record (client_at b ci) { has_will = false } in
    let b' = put_client b ci c in
    Returns-bind (λ d. client_at d ci ≡ zero_client) (Cleared ci) (close_client b' ci) _
      (close_client-quiet b' ci (omega (arith, length-set b.clients ci c))
        (ap (λ (c : Client). c.has_will) (get_or-set_self b.clients ci c zero_client h)))
      (λ d e. (refl, recv_len-emit d.os.on_event d ci _ ∙ e))

-- Nothing is left in a cleared slot, so that the length behind the packet wraps.
pub shift_input-cleared :
    (b : Broker) (ci total : ℕ)
    → client_at b ci ≡ zero_client
    → 2 ≤ total
    → total ≤ buf_size
    → shift_input b ci total ≡ none
unfolding shift_input
shift_input-cleared b ci total e lo hi =
    let far : ltb buf_size (total + (0 + 2 ^ 32 - total) % 2 ^ 32) ≡ true = ground arith in
    rw (e, far) refl

pub process-complete :
    (rounds : ℕ) (b : Broker) (ci total : ℕ)
    → next_frame (client_at b ci) ≡ complete total
    → process (suc rounds) b ci
      ≡ (dispatch b ci total >>= after_dispatch (λ b'. process rounds b' ci) ci total)
unfolding process
process-complete rounds b ci total f = rw (f) refl

-- Behind a cleared slot the loop goes on with the shift, and faults.
pub Cleared-faults :
    (rounds ci total : ℕ) (r : Option (Broker × Status))
    → 2 ≤ total
    → total ≤ buf_size
    → Returns (Cleared ci) r
    → (r >>= after_dispatch (λ b'. process rounds b' ci) ci total) ≡ none
Cleared-faults rounds ci total none lo hi c = absurd c
Cleared-faults rounds ci total (some (b', success)) lo hi (s, z) =
    rw (shift_input-cleared b' ci total z lo hi) refl
Cleared-faults rounds ci total (some (b', failure)) lo hi (s, z) = absurd (cc)

-- A DISCONNECT packet of a client in the table, both bytes received, is handled with success, and the
-- client's slot is cleared; then the loop faults: the shift of the input behind the packet moves more
-- bytes than the receive buffer has.
pub process_disconnect :
    (rounds : ℕ) (b : Broker) (ci : ℕ) (rest : Bytes)
    → ci < length b.clients
    → (client_at b ci).recv_buf ≡ 0xe0 ∷ 0 ∷ rest
    → 2 ≤ (client_at b ci).recv_len
    → Returns (Cleared ci) (dispatch b ci 2) × (process (suc rounds) b ci ≡ none)
process_disconnect rounds b ci rest h e k =
    let handled : Returns (Cleared ci) (dispatch b ci 2) =
      rw (dispatch-disconnect b ci rest e) (handle_disconnect-Cleared b ci h) in
    (
      handled,
      process-complete rounds b ci 2 (next_frame-disconnect (client_at b ci) rest e k)
          ∙ Cleared-faults rounds ci 2 (dispatch b ci 2) (omega arith) (omega arith) handled,
    )
