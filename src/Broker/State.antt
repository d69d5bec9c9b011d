-- ===== src/Broker/State.antt =====
-- branch/branch/branch_types.h and the tuning constants of branch/branch.h: the broker's state, and
-- the system that it runs on. A descriptor of -1 is `none`. A char array is the C string that it
-- holds. `send_buf` is the bytes of the send buffer below `send_len`; nothing reads those behind.
-- `recv_buf` is the whole receive buffer, whose bytes behind `recv_len` are read. `sub_indices` is
-- the entries below `sub_count`. The fields of a QoS 2 slot that no code touches are left out.
use arbor_mq.Base.{ℕ, Bool, true, false, Option, none, List, [], ◌∷◌, Bytes, get_or, set, replicate}

abbrev pub max_clients : ℕ
max_clients = 32

abbrev pub max_subs : ℕ
max_subs = 128

abbrev pub max_retained : ℕ
max_retained = 64

abbrev pub max_pending : ℕ
max_pending = 8

abbrev pub buf_size : ℕ
buf_size = 4096

abbrev pub max_topic : ℕ
max_topic = 256

abbrev pub max_client_id : ℕ
max_client_id = 128

abbrev pub max_will_payload : ℕ
max_will_payload = 512

-- `Q2_*`: the state of a QoS 2 exchange, first those of an incoming message.
pub data Q2 : Type 0 where
  free in_pubrec_sent in_pubrel_rcvd : Q2
  out_publish_sent out_pubrec_rcvd out_pubrel_sent : Q2

pub record Qos2 : Type 0 where
  pub pid : ℕ
  pub state : Q2
  pub from_client : ℕ
  pub t_ms : ℕ

-- `CS_*`
pub data ClientState : Type 0 where
  disconnected connack_sent ready will_triggered : ClientState

pub record Client : Type 0 where
  pub fd : Option ℕ
  pub state : ClientState
  pub clean_session : Bool
  pub recv_buf : Bytes
  pub recv_len : ℕ
  pub send_buf : Bytes
  pub send_off : ℕ
  pub client_id : Bytes
  pub username : Bytes
  pub keepalive_sec : ℕ
  pub last_recv_ms : ℕ
  pub last_send_ms : ℕ
  pub will_topic : Bytes
  pub will_payload : Bytes
  pub will_qos : ℕ
  pub will_retain : ℕ
  pub has_will : Bool
  pub qos2 : List Qos2
  pub sub_indices : List ℕ
  pub connected_at_ms : ℕ

pub record Sub : Type 0 where
  pub topic_filter : Bytes
  pub client_idx : ℕ
  pub qos : ℕ
  pub used : Bool

pub record Retained : Type 0 where
  pub topic : Bytes
  pub payload : Bytes
  pub qos : ℕ
  pub used : Bool

-- The messages of `on_event`, by their content.
pub data Event : Type 0 where
  connected disconnected_clean keepalive_timeout : Bytes → Event
  refused : Bytes → ℕ → Event
  listening : ℕ → Event
  shutting_down : Event

-- A call to the system, or to a callback.
pub data Effect : Type 0 where
  clock_read : Effect
  send_tried : Option ℕ → Bytes → Effect
  recv_tried : Option ℕ → ℕ → Effect
  closed : Option ℕ → Effect
  event : Event → Effect
  socket_opened : Effect
  bind_tried listen_tried : ℕ → Effect
  select_tried : List ℕ → List ℕ → Option ℕ → Effect
  accept_tried : ℕ → Effect
  auth_asked : Bytes → Bytes → Bytes → Effect

pub data SendResult : Type 0 where
  sent : ℕ → SendResult
  send_blocked send_failed : SendResult

pub data RecvResult : Type 0 where
  received : Bytes → RecvResult
  recv_blocked recv_failed : RecvResult

-- The descriptors that are ready to read and to write, or why there are none.
pub data SelectResult : Type 0 where
  selected : List ℕ → List ℕ → SelectResult
  timed_out interrupted select_failed : SelectResult

-- The system and the callbacks: the answer to a call may depend on all calls made before, which the
-- broker's `log` lists, newest first. `auth_cb` is `none` for a null pointer, and is given the username,
-- the password and the client id. `fd_setsize` is `FD_SETSIZE`, the size of an `fd_set`. A callback does
-- not call the broker back.
pub record Os : Type 0 where
  pub now_ms : List Effect → ℕ
  pub send : List Effect → Option ℕ → Bytes → SendResult
  pub recv : List Effect → Option ℕ → ℕ → RecvResult
  pub socket : List Effect → Option ℕ
  pub bind_ok : List Effect → ℕ → Bool
  pub listen_ok : List Effect → ℕ → Bool
  pub select : List Effect → List ℕ → List ℕ → Option ℕ → SelectResult
  pub accept : List Effect → ℕ → Option ℕ
  pub auth_cb : Option (List Effect → Bytes → Bytes → Bytes → Bool)
  pub on_event : Bool
  pub fd_setsize : ℕ

pub record Broker : Type 0 where
  pub os : Os
  pub listen_fd : Option ℕ
  pub clients : List Client
  pub subs : List Sub
  pub retained : List Retained
  pub next_pid : ℕ
  pub start_ms : ℕ
  pub log : List Effect

pub zeros : ℕ → Bytes
zeros n = replicate n 0

abbrev pub free_slot : Qos2
free_slot = record { pid = 0; state = free; from_client = 0; t_ms = 0 }

pub free_slots : ℕ → List Qos2
free_slots n = replicate n free_slot

-- `memset(c, 0, sizeof(*c))`, then `fd = -1`.
abbrev pub zero_client : Client
zero_client = record {
  fd = none;
  state = disconnected;
  clean_session = false;
  recv_buf = zeros buf_size;
  recv_len = 0;
  send_buf = [];
  send_off = 0;
  client_id = [];
  username = [];
  keepalive_sec = 0;
  last_recv_ms = 0;
  last_send_ms = 0;
  will_topic = [];
  will_payload = [];
  will_qos = 0;
  will_retain = 0;
  has_will = false;
  qos2 = free_slots max_pending;
  sub_indices = [];
  connected_at_ms = 0;
}

abbrev pub unused_sub : Sub
unused_sub = record { topic_filter = []; client_idx = 0; qos = 0; used = false }

-- `t->clients[ci]` and `t->subs[si]`, read and written.
abbrev pub client_at : Broker → ℕ → Client
client_at b ci = get_or b.clients ci zero_client

abbrev pub put_client : Broker → ℕ → Client → Broker
put_client b ci c = record b { clients = set b.clients ci c }

abbrev pub sub_at : Broker → ℕ → Sub
sub_at b si = get_or b.subs si unused_sub

abbrev pub put_sub : Broker → ℕ → Sub → Broker
put_sub b si s = record b { subs = set b.subs si s }

abbrev pub record_effect : Broker → Effect → Broker
record_effect b e = record b { log = e ∷ b.log }

-- `branch__now_ms()`
abbrev pub now_ms : Broker → ℕ
now_ms b = b.os.now_ms b.log

-- `if (t->cfg.on_event) t->cfg.on_event(…)`
abbrev pub emit_if : Bool → Broker → Event → Broker
emit_if true b e = record_effect b (event e)
emit_if false b e = b

abbrev pub emit : Broker → Event → Broker
emit b e = emit_if b.os.on_event b e
