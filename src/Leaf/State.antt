-- ===== src/Leaf/State.antt =====
-- leaf/leaf/leaf_types.h and the types of leaf/leaf.h: the client library's state, and the system that
-- it runs on. A descriptor of -1 is `none`; a null text is the empty one, which the code treats alike.
-- `send_buf` is the bytes of the send buffer below `send_len`, `recv_buf` the whole receive buffer, and
-- `subs` the entries below `sub_count`; the payload of a slot is its bytes below `payload_len`.
use arbor_mq.Base.{ℕ, Bool, true, false, Option, none, some, List, [], ◌∷◌, Bytes, replicate}
use arbor_mq.Broker.State.{SendResult, RecvResult, SelectResult, zeros}

abbrev pub leaf_buf_size : ℕ
leaf_buf_size = 4096

abbrev pub leaf_max_pending : ℕ
leaf_max_pending = 8

abbrev pub leaf_max_subs : ℕ
leaf_max_subs = 8

abbrev pub leaf_max_topic : ℕ
leaf_max_topic = 256

abbrev pub leaf_keepalive_sec : ℕ
leaf_keepalive_sec = 60

abbrev pub leaf_reconnect_ms : ℕ
leaf_reconnect_ms = 5000

-- `LEAF_S_*`
pub data Phase : Type 0 where
  disconnected tcp_connecting tcp_connected connack_wait ready disconnecting : Phase

-- The port and the address are the system's. A null will payload is `none`.
pub record Config : Type 0 where
  pub client_id : Bytes
  pub username : Bytes
  pub password : Bytes
  pub keepalive_sec : ℕ
  pub clean_session : Bool
  pub will_topic : Bytes
  pub will_payload : Option Bytes
  pub will_payload_len : ℕ
  pub will_qos : ℕ
  pub will_retain : Bool

-- What the message callback is given.
pub record Delivery : Type 0 where
  pub topic : Bytes
  pub payload : Bytes
  pub qos : ℕ
  pub retain : ℕ

-- A call to the system, or to a callback of the application.
pub data Call : Type 0 where
  clock_read socket_opened host_resolved : Call
  connect_tried error_read : ℕ → Call
  select_tried : List ℕ → List ℕ → Option ℕ → Call
  send_tried : Option ℕ → Bytes → Call
  recv_tried : Option ℕ → ℕ → Call
  closed : ℕ → Call
  connected_event disconnected_event : Call
  message_event : Delivery → Call

pub data ConnectResult : Type 0 where
  established in_progress refused : ConnectResult

-- The system: the answer to a call may depend on all calls made before, which `log` lists, newest
-- first. `so_error` is whether `SO_ERROR` is set, `fd_setsize` is `FD_SETSIZE`.
pub record System : Type 0 where
  pub now_ms : List Call → ℕ
  pub resolve : List Call → Bool
  pub socket : List Call → Option ℕ
  pub connect : List Call → ℕ → ConnectResult
  pub so_error : List Call → Option ℕ → Bool
  pub select : List Call → List ℕ → List ℕ → Option ℕ → SelectResult
  pub send : List Call → Option ℕ → Bytes → SendResult
  pub recv : List Call → Option ℕ → ℕ → RecvResult
  pub fd_setsize : ℕ

-- `leaf_pending_t`
pub record Pending : Type 0 where
  pub packet_id : ℕ
  pub type : ℕ
  pub retries : ℕ
  pub payload : Bytes
  pub sent_at_ms : ℕ

pub record LeafSub : Type 0 where
  pub topic : Bytes
  pub qos : ℕ

-- `struct leaf_s`; the callbacks are there or not. `last_attempt` is the static variable of
-- `leaf_poll`.
pub record Leaf : Type 0 where
  pub system : System
  pub log : List Call
  pub last_attempt : ℕ
  pub cfg : Config
  pub fd : Option ℕ
  pub state : Phase
  pub clean_disconnect : Bool
  pub recv_buf : Bytes
  pub recv_len : ℕ
  pub send_buf : Bytes
  pub send_off : ℕ
  pub next_packet_id : ℕ
  pub pending : List Pending
  pub received_ids : List ℕ
  pub subs : List LeafSub
  pub last_send_ms : ℕ
  pub last_recv_ms : ℕ
  pub last_poll_ms : ℕ
  pub on_connect : Bool
  pub on_disconnect : Bool
  pub on_message : Bool
  pub reconnect_backoff_ms : ℕ

abbrev pub no_pending : Pending
no_pending = record { packet_id = 0; type = 0; retries = 0; payload = []; sent_at_ms = 0 }

pub no_pendings : ℕ → List Pending
no_pendings n = replicate n no_pending

abbrev pub empty_config : Config
empty_config = record {
  client_id = [];
  username = [];
  password = [];
  keepalive_sec = 0;
  clean_session = false;
  will_topic = [];
  will_payload = none;
  will_payload_len = 0;
  will_qos = 0;
  will_retain = false;
}

-- `memset(c, 0, sizeof(*c))`, where the system, its log and the static variable stay.
abbrev pub cleared : Leaf → Leaf
cleared c = record c {
  cfg = empty_config;
  fd = some 0;
  state = disconnected;
  clean_disconnect = false;
  recv_buf = zeros leaf_buf_size;
  recv_len = 0;
  send_buf = [];
  send_off = 0;
  next_packet_id = 0;
  pending = no_pendings leaf_max_pending;
  received_ids = zeros leaf_max_pending;
  subs = [];
  last_send_ms = 0;
  last_recv_ms = 0;
  last_poll_ms = 0;
  on_connect = false;
  on_disconnect = false;
  on_message = false;
  reconnect_backoff_ms = 0;
}

abbrev pub call : Leaf → Call → Leaf
call c e = record c { log = e ∷ c.log }

-- `leaf__now_ms()`, before the call is recorded.
abbrev pub now_ms : Leaf → ℕ
now_ms c = c.system.now_ms c.log

-- `send` whose result the code drops.
abbrev pub send_now : Leaf → Bytes → Leaf
send_now c bytes = call c (send_tried c.fd bytes)

abbrev pub call_if : Bool → Leaf → Call → Leaf
call_if true c e = call c e
call_if false c e = c
