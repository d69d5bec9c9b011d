-- ===== src/Broker/Receive.antt =====
-- branch_broker.h, lines 167 to 197 and 220 to 235: receiving from a client, and the keepalive check.
-- `none` stands for a `memmove` past the end of the receive buffer, or a fault of the dispatcher.
pub mod Progress
pub mod Disconnect
pub mod Bounds
use arbor_mq.Base.{
  ℕ, zero, suc, ◌+◌, ◌-◌, ◌*◌, ◌%◌, ◌^◌, Bool, true, false, Option, none, some, List, [], ◌∷◌, ◌++◌,
  ◌==◌, ltb, if◌then◌else◌, ◌>>=◌, Bytes, length, drop, take,
}
use arbor_mq.Wire.{slice, decode_remaining}
use arbor_mq.Broker.State.{
  Broker, Client, RecvResult, received, recv_blocked, recv_failed, recv_tried, clock_read,
  keepalive_timeout, emit, now_ms, record_effect, buf_size, max_clients, client_at, put_client,
}
use arbor_mq.Broker.Tables.{is_open}
use arbor_mq.Broker.Send.{Status, success, failure}
use arbor_mq.Broker.Forward.{close_client}
use arbor_mq.Broker.Dispatch.{dispatch}

-- `c->recv_len = 0; return -1;`
abbrev pub drop_input : Broker → ℕ → Broker × Status
drop_input b ci = (put_client b ci (record (client_at b ci) { recv_len = 0 }), failure)

-- The bytes behind the packet move to the front; `recv_len - total` is a `uint32_t`.
unfoldable pub shift_input : Broker → ℕ → ℕ → Option Broker
shift_input b ci total =
    let c = client_at b ci in
    let rem = (c.recv_len + 2 ^ 32 - total) % 2 ^ 32 in
    if ltb buf_size (total + rem)
    then none
    else some (
        put_client b ci (record c {
          recv_buf = slice c.recv_buf total rem ++ drop rem c.recv_buf;
          recv_len = rem;
        }))

-- What the first bytes of the buffer say of the packet there.
pub data Frame : Type 0 where
  short malformed : Frame
  incomplete : Frame
  complete : ℕ → Frame

-- `rem_len` has at most 28 bits, so that the sum does not wrap.
abbrev pub frame_of : ℕ → Option (ℕ × ℕ) → Frame
frame_of recv_len none = malformed
frame_of recv_len (some (rl, rem_len)) =
    let total = 1 + rl + rem_len in
    if ltb buf_size total
    then malformed
    else if ltb recv_len total
    then incomplete
    else complete total

-- The length field is decoded from the four bytes behind the first, received or not.
unfoldable pub next_frame : Client → Frame
next_frame c =
    if ltb c.recv_len 2 then short else frame_of c.recv_len (decode_remaining (drop 1 c.recv_buf) 4)

abbrev pub after_dispatch :
    (Broker → Option (Broker × Status)) → ℕ → ℕ → Broker × Status → Option (Broker × Status)
after_dispatch next ci total (b, failure) = some (b, failure)
after_dispatch next ci total (b, success) = shift_input b ci total >>= next

-- One round of the loop; `next` is the loop from there on.
abbrev pub process_frame :
    (Broker → Option (Broker × Status)) → Broker → ℕ → Frame → Option (Broker × Status)
process_frame next b ci short = some (b, success)
process_frame next b ci malformed = some (drop_input b ci)
process_frame next b ci incomplete = some (b, success)
process_frame next b ci (complete total) = dispatch b ci total >>= after_dispatch next ci total

-- The `while` loop. Each round takes a packet of at least two bytes off the input.
unfoldable pub process : ℕ → Broker → ℕ → Option (Broker × Status)
process zero b ci = some (b, success)
process (suc rounds) b ci =
    process_frame (λ b'. process rounds b' ci) b ci (next_frame (client_at b ci))

-- The bytes that `recv` wrote at the end of the input.
unfoldable pub take_input : Broker → ℕ → Bytes → Broker
take_input b ci bytes =
    let c = client_at b ci in
    put_client (record_effect b clock_read) ci (record c {
      recv_buf = take c.recv_len c.recv_buf ++ bytes ++ drop (c.recv_len + length bytes) c.recv_buf;
      recv_len = c.recv_len + length bytes;
      last_recv_ms = now_ms b;
    })

abbrev pub recv_done : Broker → ℕ → RecvResult → Option (Broker × Status)
recv_done b ci recv_blocked = some (b, success)
recv_done b ci recv_failed = some (b, failure)
recv_done b ci (received []) = some (b, failure)
recv_done b ci (received (x ∷ xs)) =
    let b' = take_input b ci (x ∷ xs) in process (client_at b' ci).recv_len b' ci

-- `recv_len` is at most the size of the buffer, so that `room` does not wrap.
unfoldable pub client_recv : Broker → ℕ → Option (Broker × Status)
client_recv b ci =
    let c = client_at b ci in
    let room = buf_size - c.recv_len in
    if ltb room 64
    then some (drop_input b ci)
    else recv_done (record_effect b (recv_tried c.fd room)) ci (b.os.recv b.log c.fd room)

-- `now - c->last_recv_ms > ka_ms` on `uint64_t`; `ka_ms` has at most 27 bits.
abbrev pub is_overdue : ℕ → Client → Bool
is_overdue now c =
    let ka_ms = c.keepalive_sec * 1500 in
    if is_open c.fd
    then if ka_ms == 0 then false else ltb ka_ms ((now + 2 ^ 64 - c.last_recv_ms) % 2 ^ 64)
    else false

-- The loop over the clients, with `rounds = BRANCH_MAX_CLIENTS - i`.
unfoldable pub check_clients : ℕ → ℕ → ℕ → Broker → Option Broker
check_clients zero i now b = some b
check_clients (suc rounds) i now b =
    let c = client_at b i in
    (if is_overdue now c then close_client (emit b (keepalive_timeout c.client_id)) i else some b)
    >>= (λ b'. check_clients rounds (i + 1) now b')

unfoldable pub check_keepalive : Broker → Option Broker
check_keepalive b = check_clients max_clients 0 (now_ms b) (record_effect b clock_read)
