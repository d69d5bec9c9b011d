-- ===== src/Samples/Brokers.antt =====
-- A broker with one client, and the packets that it receives.
use arbor_mq.Base.{
  ℕ, ◌≤◌, ◌≡◌, ◌≢◌, refl, true, false, none, some, [], ◌∷◌, Bytes, arith, length, take, length-take,
  Ensures, Returns, drop, ◌+◌, ◌*◌, ◌%◌, ◌++◌, ◌>>=◌,
}
use arbor_mq.Packet.{t_pkt_disconnect}
use arbor_mq.Broker.State.{
  Os, Broker, received, selected, send_blocked, ready, zeros, zero_client, client_at, buf_size,
}
use arbor_mq.Broker.Publish.{track_in}
use arbor_mq.Broker.Dispatch.{packet_type, dispatch}
use arbor_mq.Broker.Dispatch.Handlers.{dispatch-KeepsInput}
use arbor_mq.Broker.Input.{KeepsInput}
use arbor_mq.Broker.Receive.{process, client_recv}
use arbor_mq.Broker.Receive.Progress.{process_enough}
use arbor_mq.Broker.Receive.Disconnect.{Cleared, process_disconnect}
use arbor_mq.Broker.Receive.Bounds.{ReceivesAtMost, client_recv_bounds}
use arbor_mq.Broker.Exactly.{track_in_twice}
use arbor_mq.Broker.Poll.{accept_connection}
use arbor_mq.Broker.Poll.Accept.{accept_connection-keeps}
use arbor_mq.Topic.{match_topic}
use arbor_mq.Broker.Forward.Reach.{any_reaches, forward-untouched}
use arbor_mq.Broker.Forward.{forward, wants}
use arbor_mq.Broker.Forward.Queued.{copies, appended, forward-queued}
use arbor_mq.Wire.{fhdr, write_u8, write_u16, write_str, write_bytes, encode_loop}
use arbor_mq.Wire.{encode_remaining, decode_remaining}
use arbor_mq.Packet.{enc_unsuback, enc_publish}
use arbor_mq.Broker.Send.{success, queue_and_flush}
use arbor_mq.Broker.Subscribe.{add_sub, handle_subscribe, unsubscribe, handle_unsubscribe}
use arbor_mq.Leaf.{encode_subscribe, encode_unsubscribe}
use arbor_mq.Leaf.Subscribe.{answered_one, handle_subscribe-encode_subscribe}
use arbor_mq.Leaf.Unsubscribe.{handle_unsubscribe-encode_unsubscribe}
use arbor_mq.Broker.Pids.{pid_at, pid_at_cycle}

-- A system that has a PINGREQ to receive, and that sends nothing at once.
abbrev pub pinging : Os
pinging = record {
  now_ms = λ log. length log;
  send = λ log fd bytes. send_blocked;
  recv = λ log fd room. received (take room (0xc0 ∷ 0 ∷ []));
  socket = λ log. some 3;
  bind_ok = λ log fd. true;
  listen_ok = λ log fd. true;
  select = λ log rfds wfds timeout. selected rfds [];
  accept = λ log fd. some 9;
  auth_cb = none;
  on_event = true;
  fd_setsize = 1024;
}

abbrev with_input : Bytes → ℕ → Broker
with_input buf n = record {
  os = pinging;
  listen_fd = some 3;
  clients = record zero_client { fd = some 4; state = ready; recv_buf = buf; recv_len = n } ∷ [];
  subs = [];
  retained = [];
  next_pid = 65535;
  start_ms = 0;
  log = [];
}

abbrev pub ping : Broker
ping = with_input (0xc0 ∷ 0 ∷ zeros 4094) 2

abbrev goodbye : Broker
goodbye = with_input (0xe0 ∷ 0 ∷ zeros 4094) 2

pub pinging-ReceivesAtMost : ReceivesAtMost pinging
pinging-ReceivesAtMost log fd room bytes e = bounded (same e)
  where
    same : received (take room (0xc0 ∷ 0 ∷ [])) ≡ received bytes → take room (0xc0 ∷ 0 ∷ []) ≡ bytes
    same q = cc

    bounded : take room (0xc0 ∷ 0 ∷ []) ≡ bytes → length bytes ≤ room
    bounded q = rw (← q) (omega (arith, length-take {A = ℕ} room (0xc0 ∷ 0 ∷ [])))

ping-packet_type : packet_type (client_at ping 0).recv_buf ≢ t_pkt_disconnect
ping-packet_type = λ e. cc

dispatch-KeepsInput_example : Ensures (λ r. KeepsInput 0 ping r.0) (dispatch ping 0 2)
dispatch-KeepsInput_example = dispatch-KeepsInput ping 0 2 ping-packet_type

process_enough_example : process 3 ping 0 ≡ process 2 ping 0
process_enough_example = process_enough 2 ping 0 (omega arith) (omega arith)

process_disconnect_example :
    Returns (Cleared 0) (dispatch goodbye 0 2) × (process 2 goodbye 0 ≡ none)
process_disconnect_example =
    process_disconnect 1 goodbye 0 (zeros 4094) (omega arith) refl (omega arith)

client_recv_bounds_example :
    Ensures (λ r. (client_at r.0 0).recv_len ≤ buf_size) (client_recv ping 0)
client_recv_bounds_example = client_recv_bounds ping 0 pinging-ReceivesAtMost (omega arith)

track_in_twice_example : track_in (track_in ping 0 7) 0 7 ≡ track_in ping 0 7
track_in_twice_example = track_in_twice ping 0 7 (omega arith)

pid_at_cycle_example :
    (1 ≤ pid_at 0 ping) × (pid_at 0 ping ≤ 65535) × (pid_at 0 ping ≢ pid_at 9 ping)
pid_at_cycle_example = pid_at_cycle ping 0 9 (omega arith) (omega arith) (omega arith)

accept_connection-keeps_example : client_at (accept_connection ping 3) 0 ≡ client_at ping 0
accept_connection-keeps_example = accept_connection-keeps ping 3 0 refl

abbrev light : Bytes
light = b'l' ∷ b'/' ∷ b'#' ∷ []

abbrev subscribing : Broker
subscribing = with_input (encode_subscribe light 1 7 ++ zeros 4) 10

handle_subscribe-encode_subscribe_example :
    handle_subscribe subscribing 0
      (1 + length (encode_remaining (2 + 2 + length light % 65536 + 1)))
      (length (encode_subscribe light 1 7))
    ≡ (add_sub subscribing 0 light 1 0 >>= answered_one 0 7)
handle_subscribe-encode_subscribe_example =
    handle_subscribe-encode_subscribe subscribing 0 light (zeros 4) 1 7 (omega arith) (omega arith)
      (omega arith) refl

abbrev unsubscribing : Broker
unsubscribing = with_input (encode_unsubscribe light 8 ++ zeros 4) 9

handle_unsubscribe-encode_unsubscribe_example :
    handle_unsubscribe unsubscribing 0
      (1 + length (encode_remaining (2 + 2 + length light % 65536)))
      (length (encode_unsubscribe light 8))
    ≡ (queue_and_flush (unsubscribe unsubscribing 0 light) 0 (enc_unsuback 8), success)
handle_unsubscribe-encode_unsubscribe_example =
    handle_unsubscribe-encode_unsubscribe unsubscribing 0 light (zeros 4) 8 (omega arith)
      (omega arith) refl

-- A client that has sent a message `h` for the topic `t`.
abbrev pub publishing : Broker
publishing = with_input (0x30 ∷ 4 ∷ 0 ∷ 1 ∷ b't' ∷ b'h' ∷ zeros 4090) 6

pub publishing-header : decode_remaining (drop 1 (client_at publishing 0).recv_buf) 5 ≡ some (1, 4)
unfolding decode_remaining
publishing-header = refl

-- A broker whose client has subscribed to `t`, and a message for `u`.
abbrev subscribed : Broker
subscribed = record ping {
  subs = record { topic_filter = b't' ∷ []; client_idx = 0; qos = 1; used = true } ∷ [];
}

subscribed-any_reaches : any_reaches none (b'u' ∷ []) 0 subscribed.subs ≡ false
unfolding any_reaches match_topic
subscribed-any_reaches = refl

forward-untouched_example :
    Ensures
      (λ b'. client_at b' 0 ≡ client_at subscribed 0)
      (forward subscribed none (b'u' ∷ []) (b'h' ∷ []) 1 0)
forward-untouched_example =
    forward-untouched subscribed none (b'u' ∷ []) (b'h' ∷ []) 1 0 0 subscribed-any_reaches

one_copy : copies (wants subscribed none (b't' ∷ [])) 0 subscribed.subs ≡ 1
unfolding wants match_topic
one_copy = refl

message_length : length (enc_publish (b't' ∷ []) (b'h' ∷ []) 0 0 0) ≡ 6
unfolding enc_publish fhdr write_u8 write_u16 write_str write_bytes encode_remaining encode_loop
message_length = refl

copies_fit :
    length (client_at subscribed 0).send_buf
      + copies (wants subscribed none (b't' ∷ [])) 0 subscribed.subs
        * length (enc_publish (b't' ∷ []) (b'h' ∷ []) 0 0 0)
    ≤ buf_size
copies_fit = rw (one_copy, message_length) (omega arith)

forward-queued_example :
    Returns
      (λ b'.
        (client_at b' 0).send_buf
        ≡ appended
            (copies (wants subscribed none (b't' ∷ [])) 0 subscribed.subs)
            (enc_publish (b't' ∷ []) (b'h' ∷ []) 0 0 0)
            (client_at subscribed 0).send_buf)
      (forward subscribed none (b't' ∷ []) (b'h' ∷ []) 0 0)
forward-queued_example =
    forward-queued subscribed none (b't' ∷ []) (b'h' ∷ []) 0 0 (λ log fd bytes. refl) (omega arith)
      (omega arith) copies_fit
