-- ===== src/Broker/Poll.antt =====
-- branch_broker.h, lines 244 to 361 and 377 to 389: the lifecycle of the broker, and its event loop.
-- The setting of socket options is left out. A timeout below 0 is `none`.
pub mod Accept
pub mod Closing
pub mod Destroy
use arbor_mq.Base.{
  ℕ, zero, suc, ◌+◌, ◌-◌, ◌/◌, ◌%◌, ◌^◌, Bool, true, false, ◌&&◌, ◌||◌, Option, none, some, List,
  [], ◌∷◌, ltb, leb, ◌==◌, if◌then◌else◌, ◌>>=◌, Bytes, length, take, replicate,
}
use arbor_mq.Broker.State.{
  Broker, Client, ClientState, connack_sent, Os, SelectResult, selected, timed_out, interrupted,
  select_failed, socket_opened, bind_tried, listen_tried, select_tried, accept_tried, closed,
  clock_read, listening, shutting_down, emit, now_ms, record_effect, max_clients, max_subs,
  max_retained, max_client_id, client_at, put_client, zero_client, unused_sub,
}
use arbor_mq.Broker.Tables.{is_open, find_free_client}
use arbor_mq.Broker.Send.{Status, success, failure, client_send}
use arbor_mq.Broker.Forward.{close_client, is_disconnected, unused_retained}
use arbor_mq.Broker.Receive.{client_recv, check_keepalive}

-- `memset(t, 0, sizeof(*t))` and the initial client slots.
unfoldable pub fresh_broker : Os → Broker
fresh_broker os = record {
  os = os;
  listen_fd = none;
  clients = replicate max_clients zero_client;
  subs = replicate max_subs unused_sub;
  retained = replicate max_retained unused_retained;
  next_pid = 0;
  start_ms = 0;
  log = [];
}

-- `close(t->listen_fd); t->listen_fd = -1;`
abbrev pub close_listener : Broker → ℕ → Broker
close_listener b fd = record (record_effect b (closed (some fd))) { listen_fd = none }

unfoldable pub started : Broker → ℕ → Broker
started b port = emit (record (record_effect b clock_read) { start_ms = now_ms b }) (listening port)

-- From `socket` on; the broker is returned whether or not it listens.
abbrev pub open_listener : Broker → ℕ → Option ℕ → Broker
open_listener b port none = b
open_listener b port (some fd) =
    let b1 = record_effect (record b { listen_fd = some fd }) (bind_tried fd) in
    let b2 = record_effect b1 (listen_tried fd) in
    if b.os.bind_ok b.log fd
    then if b.os.listen_ok b1.log fd then started b2 port else close_listener b2 fd
    else close_listener b1 fd

-- `in_use` is the global flag `g_branch_in_use`. A port of 0 is the default.
unfoldable pub branch_create : Bool → Os → ℕ → Option Broker
branch_create in_use os port =
    let b = fresh_broker os in
    if in_use
    then none
    else some (
        open_listener (record_effect b socket_opened) (if port == 0 then 1883 else port)
          (os.socket b.log))

-- The loop over the clients of `branch_destroy`, with `rounds = BRANCH_MAX_CLIENTS - i`.
unfoldable pub close_clients : ℕ → ℕ → Broker → Option Broker
close_clients zero i b = some b
close_clients (suc rounds) i b =
    (if is_open (client_at b i).fd then close_client b i else some b)
    >>= (λ b'. close_clients rounds (i + 1) b')

abbrev pub close_listen_fd : Broker → Option ℕ → Broker
close_listen_fd b none = b
close_listen_fd b (some fd) = close_listener b fd

unfoldable pub branch_destroy : Broker → Option Broker
branch_destroy b =
    close_clients max_clients 0 (emit b shutting_down)
    >>= (λ b'. some (close_listen_fd b' b'.listen_fd))

-- The new connection takes the first free slot, or is closed.
abbrev pub take_slot : Broker → ℕ → Option ℕ → Broker
take_slot b newfd none = record_effect b (closed (some newfd))
take_slot b newfd (some ci) = put_client (record_effect b clock_read) ci (record zero_client {
  fd = some newfd;
  state = connack_sent;
  last_recv_ms = now_ms b;
  last_send_ms = now_ms b;
})

abbrev pub accepted : Broker → Option ℕ → Broker
accepted b none = b
accepted b (some newfd) = take_slot b newfd (find_free_client b)

unfoldable pub accept_connection : Broker → ℕ → Broker
accept_connection b listen_fd =
    accepted (record_effect b (accept_tried listen_fd)) (b.os.accept b.log listen_fd)

-- `FD_ISSET`
unfoldable pub is_set : ℕ → List ℕ → Bool
is_set fd [] = false
is_set fd (x ∷ xs) = if x == fd then true else is_set fd xs

abbrev pub fd_of : Client → List ℕ → List ℕ
fd_of c fds = elim c.fd [ none ↦ fds | some fd ↦ fd ∷ fds ]

-- The descriptors that `select` is asked about, those of the clients in order.
unfoldable pub watched_read : List Client → List ℕ
watched_read [] = []
watched_read (c ∷ cs) = fd_of c (watched_read cs)

unfoldable pub watched_write : List Client → List ℕ
watched_write [] = []
watched_write (c ∷ cs) =
    let rest = watched_write cs in if ltb c.send_off (length c.send_buf) then fd_of c rest else rest

-- The tail of the loop's body: a client whose state is `CS_DISCONNECTED` is closed.
abbrev pub after_recv : ℕ → Broker × Status → Option Broker
after_recv i (b, failure) = close_client b i
after_recv i (b, success) =
    if is_disconnected (client_at b i).state then close_client b i else some b

abbrev pub after_client_send : ℕ → Bool → Broker × Status → Option Broker
after_client_send i readable (b, failure) = close_client b i
after_client_send i readable (b, success) =
    (if readable then client_recv b i else some (b, success)) >>= after_recv i

-- A descriptor of the list is behind the end of an `fd_set`.
unfoldable pub is_past : ℕ → List ℕ → Bool
is_past fd_setsize [] = false
is_past fd_setsize (x ∷ xs) = leb fd_setsize x || is_past fd_setsize xs

-- The body of the loop for one client. `FD_ISSET` does not test the descriptor, which may have been
-- accepted behind `select`.
abbrev pub client_io : List ℕ → List ℕ → Broker → ℕ → Option ℕ → Option Broker
client_io rfds wfds b i none = some b
client_io rfds wfds b i (some fd) =
    if leb b.os.fd_setsize fd
    then none
    else after_client_send i (is_set fd rfds)
        (if is_set fd wfds then client_send b i else (b, success))

unfoldable pub io_loop : ℕ → ℕ → List ℕ → List ℕ → Broker → Option Broker
io_loop zero i rfds wfds b = some b
io_loop (suc rounds) i rfds wfds b =
    client_io rfds wfds b i (client_at b i).fd >>= (λ b'. io_loop rounds (i + 1) rfds wfds b')

abbrev pub finish_poll : Option Broker → Option (Broker × Status)
finish_poll none = none
finish_poll (some b) = some (b, success)

abbrev pub after_select : Broker → ℕ → SelectResult → Option (Broker × Status)
after_select b listen_fd select_failed = some (b, failure)
after_select b listen_fd interrupted = some (b, success)
after_select b listen_fd timed_out = finish_poll (check_keepalive b)
after_select b listen_fd (selected rfds wfds) = finish_poll (
    io_loop max_clients 0 rfds wfds
      (if is_set listen_fd rfds then accept_connection b listen_fd else b)
    >>= check_keepalive)

-- `FD_SET` writes behind the end of `rfds` for a descriptor of `FD_SETSIZE` or above; those of `wfds` are
-- among those of `rfds`.
abbrev pub poll_on : Broker → Option ℕ → Option ℕ → Option (Broker × Status)
poll_on b timeout none = some (b, failure)
poll_on b timeout (some fd) =
    let rfds = fd ∷ watched_read b.clients in
    let wfds = watched_write b.clients in
    if is_past b.os.fd_setsize rfds
    then none
    else after_select (record_effect b (select_tried rfds wfds timeout)) fd
        (b.os.select b.log rfds wfds timeout)

unfoldable pub branch_poll : Broker → Option ℕ → Option (Broker × Status)
branch_poll b timeout = poll_on b timeout b.listen_fd

pub record ClientInfo : Type 0 where
  pub client_id : Bytes
  pub connected_sec : ℕ

abbrev pub info_of : Broker → Client → ClientInfo
info_of b c = record {
  client_id = take (max_client_id - 1) c.client_id;
  connected_sec = (now_ms b + 2 ^ 64 - c.connected_at_ms) % 2 ^ 64 / 1000 % 2 ^ 32;
}

-- The entries that `branch_get_clients` fills, all of them active; each reads the clock.
unfoldable pub get_clients : ℕ → List Client → Broker → List ClientInfo × Broker
get_clients max [] b = ([], b)
get_clients zero (c ∷ cs) b = ([], b)
get_clients (suc max) (c ∷ cs) b = elim (is_open c.fd) [
  | true ↦ let r = get_clients max cs (record_effect b clock_read) in (info_of b c ∷ r.0, r.1)
  | false ↦ get_clients (suc max) cs b
]

unfoldable pub branch_get_clients : Broker → ℕ → List ClientInfo × Broker
branch_get_clients b max = get_clients max b.clients b
