-- ===== src/Broker/Safe/Receive.antt =====
-- branch_broker.h, lines 167 to 197 and 220 to 235: `client_recv` and the keepalive check in a safe
-- broker.
use arbor_mq.Base.{
  ℕ, zero, suc, ◌+◌, ◌-◌, ◌≤◌, ◌≡◌, refl, [], ◌∷◌, ◌++◌, ltb, Bytes, length, take, drop, arith,
  Returns, Returns-bind, ReturnsUnless-weaken, if_keeps, inl,
}
use arbor_mq.Broker.State.{
  Broker, RecvResult, received, recv_blocked, recv_failed, recv_tried, record_effect, clock_read,
  keepalive_timeout, emit, now_ms, buf_size, max_clients, client_at,
}
use arbor_mq.Broker.Receive.{
  process, take_input, recv_done, client_recv, is_overdue, check_clients, check_keepalive,
}
use arbor_mq.Broker.Safe.{Safe, put_client-Safe, emit-Safe, close_client-Safe}
use arbor_mq.Broker.Safe.Process.{MeetsDisconnect, SafeUnless, process-Safe, drop_input-Safe}

take_input-Safe :
    (b : Broker) (ci : ℕ) (bytes : Bytes)
    → Safe b
    → (client_at b ci).recv_len + length bytes ≤ buf_size
    → Safe (take_input b ci bytes)
unfolding take_input
take_input-Safe b ci bytes s h =
    let c = client_at b ci in
    let (i, j, _) = s.0 ci in
    put_client-Safe (record_effect b clock_read) ci
      (record c {
        recv_buf =
            take c.recv_len c.recv_buf ++ bytes ++ drop (c.recv_len + length bytes) c.recv_buf;
        recv_len = c.recv_len + length bytes;
        last_recv_ms = now_ms b;
      })
      s (i, j, h)

-- The bytes that `recv` gives for the client bring the input to a complete DISCONNECT packet.
abbrev pub ReceivesDisconnect : Broker → ℕ → RecvResult → Type 0
ReceivesDisconnect b ci r =
    (bytes : Bytes) × (r ≡ received bytes)
    × (let b' = take_input b ci bytes in MeetsDisconnect ci (client_at b' ci).recv_len b')

recv_done-Safe :
    (b : Broker) (ci : ℕ) (r : RecvResult)
    → Safe b
    → ((bytes : Bytes) → r ≡ received bytes → (client_at b ci).recv_len + length bytes ≤ buf_size)
    → SafeUnless (ReceivesDisconnect b ci r) (recv_done b ci r)
recv_done-Safe b ci recv_blocked s h = inl s
recv_done-Safe b ci recv_failed s h = inl s
recv_done-Safe b ci (received []) s h = inl s
recv_done-Safe b ci (received (x ∷ xs)) s h =
    let b' = take_input b ci (x ∷ xs) in
    ReturnsUnless-weaken (λ x. Safe x.0) (λ x. Safe x.0)
      (MeetsDisconnect ci (client_at b' ci).recv_len b')
      (ReceivesDisconnect b ci (received (x ∷ xs))) (process (client_at b' ci).recv_len b' ci)
      (λ x y. y) (λ m. (x ∷ xs, refl, m))
      (process-Safe (client_at b' ci).recv_len b' ci
        (take_input-Safe b ci (x ∷ xs) s (h (x ∷ xs) refl)))

-- The call of `recv` for the client, and what it answers.
abbrev pub asked : Broker → ℕ → Broker
asked b ci = let c = client_at b ci in record_effect b (recv_tried c.fd (buf_size - c.recv_len))

abbrev pub answer : Broker → ℕ → RecvResult
answer b ci = let c = client_at b ci in b.os.recv b.log c.fd (buf_size - c.recv_len)

-- In a safe broker `client_recv` returns a safe broker, whatever bytes the client has sent, or the bytes
-- bring its input to a complete DISCONNECT packet, and then it faults.
pub client_recv-Safe :
    (b : Broker) (ci : ℕ)
    → Safe b
    → SafeUnless (ReceivesDisconnect (asked b ci) ci (answer b ci)) (client_recv b ci)
unfolding client_recv
client_recv-Safe b ci s =
    let c = client_at b ci in
    let (i, j, k) = s.0 ci in
    if_keeps (SafeUnless (ReceivesDisconnect (asked b ci) ci (answer b ci)))
      (ltb (buf_size - c.recv_len) 64) (inl (drop_input-Safe b ci s))
      (recv_done-Safe (asked b ci) ci (answer b ci) s
        (λ bytes e. omega (arith, s.2 b.log c.fd (buf_size - c.recv_len) bytes e)))

check_clients-Safe :
    (rounds i now : ℕ) (b : Broker) → Safe b → Returns Safe (check_clients rounds i now b)
unfolding check_clients
check_clients-Safe zero i now b s = s
check_clients-Safe (suc rounds) i now b s =
    let c = client_at b i in
    Returns-bind Safe Safe _ _
      (if_keeps (Returns Safe) (is_overdue now c)
        (close_client-Safe (emit b (keepalive_timeout c.client_id)) i
          (emit-Safe b (keepalive_timeout c.client_id) s))
        s)
      (λ b' s'. check_clients-Safe rounds (i + 1) now b' s')

pub check_keepalive-Safe : (b : Broker) → Safe b → Returns Safe (check_keepalive b)
unfolding check_keepalive
check_keepalive-Safe b s =
    check_clients-Safe max_clients 0 (now_ms b) (record_effect b clock_read) s
