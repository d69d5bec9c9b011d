-- ===== src/Broker/Safe/Sockets.antt =====
-- branch_broker.h, lines 199 to 214 and 283 to 361: writing to a client and accepting a connection
-- in a safe broker.
use arbor_mq.Base.{ℕ, ◌+◌, Option, none, some, ◌%◌, ◌^◌, leb, length, if_keeps}
use arbor_mq.Broker.State.{
  Broker, client_at, SendResult, sent, send_blocked, send_failed, record_effect, clock_read, now_ms,
  accept_tried, send_tried,
}
use arbor_mq.Broker.Tables.{find_free_client}
use arbor_mq.Broker.Send.{Status, client_send, client_sent, sent_more, send_result, advance, unsent}
use arbor_mq.Broker.Poll.{take_slot, accepted, accept_connection}
use arbor_mq.Broker.Safe.{Safe, ClientFits, zero_client-ClientFits, put_client-Safe}

sent_more-Safe : (b : Broker) (ci : ℕ) (n : ℕ) → Safe b → Safe (sent_more b ci (client_at b ci) n)
unfolding sent_more advance
sent_more-Safe b ci n s =
    put_client-Safe (record_effect b clock_read) ci
      (record (advance (client_at b ci) n) { last_send_ms = now_ms b }) s
      (if_keeps ClientFits
        (leb (length (client_at b ci).send_buf) (((client_at b ci).send_off + n) % 2 ^ 32)) (s.0 ci)
        (s.0 ci))

client_sent-Safe :
    (b : Broker) (ci : ℕ) (r : SendResult) → Safe b → Safe (client_sent b ci (client_at b ci) r).0
client_sent-Safe b ci (sent n) s = sent_more-Safe b ci n s
client_sent-Safe b ci send_blocked s = s
client_sent-Safe b ci send_failed s = s

pub client_send-Safe : (b : Broker) (ci : ℕ) → Safe b → Safe (client_send b ci).0
unfolding client_send
client_send-Safe b ci s =
    let c = client_at b ci in
    if_keeps (λ (x : Broker × Status). Safe x.0) (leb (length c.send_buf) c.send_off) s
      (client_sent-Safe (record_effect b (send_tried c.fd (unsent c))) ci (send_result b c) s)

take_slot-Safe : (b : Broker) (newfd : ℕ) (o : Option ℕ) → Safe b → Safe (take_slot b newfd o)
take_slot-Safe b newfd none s = s
take_slot-Safe b newfd (some ci) s =
    put_client-Safe (record_effect b clock_read) ci _ s zero_client-ClientFits

accepted-Safe : (b : Broker) (o : Option ℕ) → Safe b → Safe (accepted b o)
accepted-Safe b none s = s
accepted-Safe b (some newfd) s = take_slot-Safe b newfd (find_free_client b) s

pub accept_connection-Safe : (b : Broker) (fd : ℕ) → Safe b → Safe (accept_connection b fd)
unfolding accept_connection
accept_connection-Safe b fd s =
    accepted-Safe (record_effect b (accept_tried fd)) (b.os.accept b.log fd) s
