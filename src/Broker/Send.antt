-- ===== src/Broker/Send.antt =====
-- branch_broker.h, lines 66 to 83 and 199 to 214: the send buffer of a client.
use arbor_mq.Base.{
  ℕ, zero, suc, ◌+◌, ◌%◌, ◌^◌, [], ◌++◌, ltb, leb, if◌then◌else◌, Bytes, length, drop,
}
use arbor_mq.Broker.State.{
  Broker, Client, ClientState, disconnected, connack_sent, ready, will_triggered, SendResult, sent,
  send_blocked, send_failed, send_tried, clock_read, buf_size, client_at, put_client, record_effect,
  now_ms,
}

abbrev pub ready_if_connack_sent : ClientState → ClientState
ready_if_connack_sent connack_sent = ready
ready_if_connack_sent disconnected = disconnected
ready_if_connack_sent ready = ready
ready_if_connack_sent will_triggered = will_triggered

-- `send` took `n` bytes: the offset moves on, and an emptied buffer starts again.
unfoldable pub advance : Client → ℕ → Client
advance c n =
    let off = (c.send_off + n) % 2 ^ 32 in
    if leb (length c.send_buf) off
    then record c { send_off = 0; send_buf = []; state = ready_if_connack_sent c.state }
    else record c { send_off = off }

-- Data that does not fit is dropped.
unfoldable pub append_data : Client → Bytes → Client
append_data c bytes =
    if leb (length c.send_buf + length bytes) buf_size
    then record c { send_buf = c.send_buf ++ bytes }
    else c

abbrev pub unsent : Client → Bytes
unsent c = drop c.send_off c.send_buf

-- `send(c->fd, …)`: the answer, and the broker that has made the call.
abbrev pub send_result : Broker → Client → SendResult
send_result b c = b.os.send b.log c.fd (unsent c)

abbrev pub after_send : Client → SendResult → Client
after_send c (sent zero) = c
after_send c (sent (suc n)) = advance c (suc n)
after_send c send_blocked = c
after_send c send_failed = c

-- The attempt to send at once.
unfoldable pub flush : Broker → ℕ → Client → Broker
flush b ci c =
    if ltb c.send_off (length c.send_buf)
    then put_client (record_effect b (send_tried c.fd (unsent c))) ci
        (after_send c (send_result b c))
    else put_client b ci c

unfoldable pub queue_and_flush : Broker → ℕ → Bytes → Broker
queue_and_flush b ci bytes = flush b ci (append_data (client_at b ci) bytes)

-- The results 0 and -1 of the functions that report failure.
pub data Status : Type 0 where
  success failure : Status

-- The clock is read last.
unfoldable pub sent_more : Broker → ℕ → Client → ℕ → Broker
sent_more b ci c n =
    put_client (record_effect b clock_read) ci (record (advance c n) { last_send_ms = now_ms b })

abbrev pub client_sent : Broker → ℕ → Client → SendResult → Broker × Status
client_sent b ci c (sent n) = (sent_more b ci c n, success)
client_sent b ci c send_blocked = (b, success)
client_sent b ci c send_failed = (b, failure)

unfoldable pub client_send : Broker → ℕ → Broker × Status
client_send b ci =
    let c = client_at b ci in
    if leb (length c.send_buf) c.send_off
    then (b, success)
    else client_sent (record_effect b (send_tried c.fd (unsent c))) ci c (send_result b c)
