-- ===== src/Samples/Clients.antt =====
-- A client of the library under leaf, and the packets that it receives.
use arbor_mq.Base.{
  All, replicate, ◌++◌, ◌+◌, ℕ, ◌≤◌, ◌≡◌, refl, true, false, none, some, List, [], ◌∷◌, arith,
  length, take, length-take, Returns,
}
use arbor_mq.Broker.State.{send_blocked, recv_blocked, received, selected, zeros, zero_client}
use arbor_mq.Wire.{
  decode_remaining, encode_remaining, encode_loop, copy_str, c_str, write_u8, write_u16, write_str,
  write_bytes,
}
use arbor_mq.Packet.{enc_publish}
use arbor_mq.Broker.Connect.{read_connect}
use arbor_mq.Leaf.Publish.{sent_pid}
use arbor_mq.Leaf.Connect.{
  encode_connect, connect_rem_len, keepalive_of, connect_payload, connect_flags,
}
use arbor_mq.Leaf.Connect.Fields.{Sendable, with_will, with_username}
use arbor_mq.Leaf.Connect.ReadBack.{read_connect-encode_connect}
use arbor_mq.Leaf.Dispatch.Delivered.{leaf_dispatch-enc_publish}
use arbor_mq.Leaf.Poll.Handshake.{IsReady, connect_calls, connecting_to, leaf_poll-handshake}
use arbor_mq.Leaf.Pending.Retries.{retry_at, waiting_one, IsFree, sendings, retry_pending-end}
use arbor_mq.Broker.Send.{success}
use arbor_mq.Broker.Poll.{is_set}
use arbor_mq.Leaf.State.{
  System, Config, Pending, no_pending, leaf_max_topic, Leaf, Delivery, established, disconnected,
  tcp_connected, ready, no_pendings, empty_config, leaf_buf_size, leaf_max_pending, clock_read,
  recv_tried,
}
use arbor_mq.Leaf.Dispatch.{is_received, handle_packet, deliver, leaf_dispatch}
use arbor_mq.Leaf.Dispatch.Once.{delivered, Traffic, quiet, packet, deliver-never_again}
use arbor_mq.Leaf.Network.{packet_loop, recv_and_dispatch, take_bytes, next_packet, shift_down}
use arbor_mq.Leaf.Client.{leaf_connect}
use arbor_mq.Leaf.Network.Receive.{RecvAtMost, recv_and_dispatch_safe, packet_loop_enough}
use arbor_mq.Leaf.Poll.{leaf_poll, on_readable}
use arbor_mq.Leaf.Poll.Stall.{SelectsWatched, polls, leaf_connect-stall}
use arbor_mq.Leaf.Poll.Alive.{Drops, asked, leaf_poll-read_late}

-- A system whose broker waits, and one whose broker answers with PINGRESP.
abbrev pub waiting : System
waiting = record {
  now_ms = λ log. length log;
  resolve = λ log. true;
  socket = λ log. some 4;
  connect = λ log fd. established;
  so_error = λ log fd. false;
  select = λ log rfds wfds timeout. selected rfds wfds;
  send = λ log fd bytes. send_blocked;
  recv = λ log fd room. recv_blocked;
  fd_setsize = 1024;
}

abbrev answering : System
answering = record waiting {
  select = λ log rfds wfds timeout. selected rfds [];
  recv = λ log fd room. received (take room (0xd0 ∷ 0 ∷ []));
}

abbrev pub fresh : System → Leaf
fresh s = record {
  system = s;
  log = [];
  last_attempt = 0;
  cfg = empty_config;
  fd = none;
  state = disconnected;
  clean_disconnect = false;
  recv_buf = 0 ∷ 0 ∷ zeros 4094;
  recv_len = 0;
  send_buf = [];
  send_off = 0;
  next_packet_id = 0;
  pending = no_pendings leaf_max_pending;
  received_ids = 0 ∷ 0 ∷ 0 ∷ 0 ∷ 0 ∷ 0 ∷ 0 ∷ 0 ∷ [];
  subs = [];
  last_send_ms = 0;
  last_recv_ms = 0;
  last_poll_ms = 0;
  on_connect = true;
  on_disconnect = true;
  on_message = true;
  reconnect_backoff_ms = 5000;
}

abbrev pub online : Leaf
online = record (fresh answering) { fd = some 4; state = ready }

abbrev hello : Delivery
hello = record { topic = b't' ∷ []; payload = b'h' ∷ []; qos = 2; retain = 0 }

abbrev other : Delivery
other = record { topic = b't' ∷ []; payload = b'o' ∷ []; qos = 2; retain = 0 }

-- The message, and then the PUBREL of its packet id.
abbrev delivered_once : Leaf
delivered_once = deliver online hello 7

abbrev released : Leaf
released =
    let next : Leaf = record (leaf_dispatch delivered_once 0).0 {
      recv_buf = 0x62 ∷ 2 ∷ 0 ∷ 7 ∷ [];
      recv_len = 4;
    } in
    record (leaf_dispatch next 4).0 { recv_buf = []; recv_len = 0 }

released-Traffic : Traffic delivered_once released
released-Traffic = packet 4 0 [] (packet 0 4 (0x62 ∷ 2 ∷ 0 ∷ 7 ∷ []) quiet)

none_received : is_received online.received_ids 0 ≡ true
unfolding is_received
none_received = refl

deliver-never_again_example : delivered (deliver released other 7).log ≡ delivered released.log
deliver-never_again_example =
    deliver-never_again online released hello other 7 (λ e. cc) none_received released-Traffic

answering-RecvAtMost : RecvAtMost answering
answering-RecvAtMost log fd room bytes e = bounded (same e)
  where
    same : received (take room (0xd0 ∷ 0 ∷ [])) ≡ received bytes → take room (0xd0 ∷ 0 ∷ []) ≡ bytes
    same q = cc

    bounded : take room (0xd0 ∷ 0 ∷ []) ≡ bytes → length bytes ≤ room
    bounded q = rw (← q) (omega (arith, length-take {A = ℕ} room (0xd0 ∷ 0 ∷ [])))

recv_and_dispatch_safe_example :
    Returns (λ r. r.0.recv_len ≤ leaf_buf_size) (recv_and_dispatch online)
recv_and_dispatch_safe_example = recv_and_dispatch_safe online answering-RecvAtMost (omega arith)

abbrev ping_received : Leaf
ping_received = record online { recv_buf = 0xd0 ∷ 0 ∷ zeros 4094; recv_len = 2 }

packet_loop_enough_example : packet_loop 3 ping_received ≡ packet_loop 2 ping_received
packet_loop_enough_example = packet_loop_enough 2 ping_received (omega arith) (omega arith)

waiting-SelectsWatched : SelectsWatched waiting
waiting-SelectsWatched log rfds wfds timeout = (λ e. cc, λ rs ws fd e h. asked_for rs ws fd e h)
  where
    asked_for :
        (rs ws : List ℕ) (fd : ℕ)
        → selected rfds wfds ≡ selected rs ws
        → is_set fd wfds ≡ false
        → is_set fd ws ≡ false
    asked_for rs ws fd e h = cc

leaf_connect-stall_example :
    ((leaf_connect (fresh waiting)).1 ≡ success)
    × Returns
        (λ d. (d.state ≡ tcp_connected) × (d.send_buf ≡ []))
        (polls (none ∷ some 100 ∷ []) (leaf_connect (fresh waiting)).0)
leaf_connect-stall_example =
    leaf_connect-stall (fresh waiting) 4 (none ∷ some 100 ∷ []) refl refl (λ log. refl)
      (omega arith) (λ log. refl) waiting-SelectsWatched (λ log fd room. refl)

abbrev heard : Leaf
heard = record (asked online 4 none) {
  log = clock_read ∷ recv_tried (some 4) 4096 ∷ (asked online 4 none).log;
  recv_buf = 0xd0 ∷ 0 ∷ zeros 4094;
  last_recv_ms = 3;
}

online-heard : on_readable (asked online 4 none) ≡ some (heard, success)
unfolding on_readable recv_and_dispatch take_bytes packet_loop next_packet shift_down leaf_dispatch
    handle_packet decode_remaining
online-heard = refl

online-is_set : is_set 4 (4 ∷ []) ≡ true
unfolding is_set
online-is_set = refl

leaf_poll-read_late_example : Returns Drops (leaf_poll online none)
leaf_poll-read_late_example =
    leaf_poll-read_late online heard 4 none (4 ∷ []) refl refl (omega arith) refl online-is_set
      online-heard refl (omega arith) (omega arith) (omega arith)

-- A client that has received a PUBLISH packet of the broker.
abbrev published : Leaf
published = record online { recv_buf = enc_publish (b't' ∷ []) (b'h' ∷ []) 1 0 9 ++ zeros 4 }

leaf_dispatch-enc_publish_example :
    leaf_dispatch published (length (enc_publish (b't' ∷ []) (b'h' ∷ []) 1 0 9)) ≡ (
      deliver published
          (record {
            topic = copy_str leaf_max_topic (b't' ∷ []);
            payload = b'h' ∷ [];
            qos = 1;
            retain = 0;
          })
          (sent_pid 1 9),
      success,
    )
leaf_dispatch-enc_publish_example =
    leaf_dispatch-enc_publish published (b't' ∷ []) (b'h' ∷ []) (zeros 4) 1 0 9 (omega arith)
      (omega arith) (omega arith) (omega arith) (omega arith) refl

abbrev willing : Config
willing = record {
  client_id = b'c' ∷ b'1' ∷ [];
  username = b'u' ∷ [];
  password = b'p' ∷ [];
  keepalive_sec = 30;
  clean_session = true;
  will_topic = b'w' ∷ [];
  will_payload = some (b'x' ∷ []);
  will_payload_len = 1;
  will_qos = 2;
  will_retain = true;
}

willing-Sendable : Sendable willing
unfolding c_str
willing-Sendable = record {
  id_fits = (omega arith, refl);
  topic_fits = (omega arith, refl);
  payload_there = refl;
  payload_fits = omega arith;
  qos_fits = omega arith;
  username_fits = (omega arith, refl);
  password_fits = (omega arith, refl);
  keepalive_fits = omega arith;
}

read_connect-encode_connect_example :
    read_connect
      (encode_connect willing ++ zeros 4)
      (1 + length (encode_remaining (connect_rem_len willing)))
      (length (encode_connect willing))
      zero_client
    ≡ (
      with_username willing
          (with_will willing (record zero_client { client_id = willing.client_id })),
      some (record {
        proto_ok = true;
        level = 4;
        clean_session = true;
        keepalive = keepalive_of willing;
        password = b'p' ∷ [];
      }),
    )
read_connect-encode_connect_example =
    read_connect-encode_connect willing (zeros 4) zero_client willing-Sendable

empty_config-fits : length (encode_connect empty_config) ≤ leaf_buf_size
unfolding encode_connect write_u8 write_u16 write_str write_bytes encode_remaining encode_loop
    connect_payload connect_flags
empty_config-fits = omega arith

leaf_poll-handshake_example :
    Returns
      (IsReady (connect_calls (fresh waiting) 4 (some 100)))
      (leaf_poll (connecting_to waiting 7 (fresh waiting) 4 true) (some 100))
leaf_poll-handshake_example =
    leaf_poll-handshake waiting 7 (fresh waiting) 4 true (some 100) (omega arith) (omega arith)
      empty_config-fits

-- A packet that was sent at the time 0, and six looks at its slot.
abbrev unanswered : Pending
unanswered = record no_pending { packet_id = 1; type = 3; payload = 0x82 ∷ 0 ∷ [] }

abbrev looks : List ℕ
looks = 10000 ∷ 20000 ∷ 30000 ∷ 40000 ∷ 50000 ∷ 60000 ∷ []

retry_pending-end_example :
    let d = retry_at looks (waiting_one online [] unanswered (replicate 7 no_pending)) in
    All IsFree d.pending × (sendings d.log ≡ replicate 5 (some 4, 0x82 ∷ 0 ∷ []) ++ [])
retry_pending-end_example =
    retry_pending-end looks online [] (replicate 7 no_pending) unanswered tt
      (refl, (refl, (refl, (refl, (refl, (refl, (refl, tt))))))) (λ e. cc) (omega arith)
      (
        omega arith,
        omega arith,
        (
          omega arith,
          omega arith,
          (
            omega arith,
            omega arith,
            (omega arith, omega arith, (omega arith, omega arith, (omega arith, omega arith, tt))),
          ),
        ),
      )
      (omega arith)
