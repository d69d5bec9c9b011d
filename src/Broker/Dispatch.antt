-- ===== src/Broker/Dispatch.antt =====
-- branch_codec.h, lines 127 to 141 and 412 to 436: `branch__dispatch`, which handles one complete
-- packet at the start of the client's receive buffer.
mod Connect
mod Subscriptions
pub mod Handlers
pub mod Closing
pub mod Overflow
use arbor_mq.Base.{
  ℕ, ◌+◌, ◌-◌, ◌/◌, ◌%◌, ◌^◌, Bool, true, false, Option, none, some, ◌==◌, ltb, if◌then◌else◌,
  ◌>>=◌, Bytes, shr, drop, take,
}
use arbor_mq.Wire.{byte_at, decode_remaining}
use arbor_mq.Packet.{
  enc_pingresp, t_pkt_connect, t_pkt_publish, t_pkt_puback, t_pkt_pubrec, t_pkt_pubrel,
  t_pkt_pubcomp, t_pkt_subscribe, t_pkt_unsubscribe, t_pkt_pingreq, t_pkt_disconnect,
}
use arbor_mq.Broker.State.{Broker, disconnected_clean, emit, max_client_id, client_at, put_client}
use arbor_mq.Broker.Send.{Status, success, failure, queue_and_flush}
use arbor_mq.Broker.Forward.{close_client}
use arbor_mq.Broker.Connect.{handle_connect}
use arbor_mq.Broker.Publish.{
  handle_publish, handle_ack, on_puback, on_pubrec, on_pubrel, on_pubcomp,
}
use arbor_mq.Broker.Subscribe.{handle_subscribe, handle_unsubscribe}

unfoldable pub handle_disconnect : Broker → ℕ → Option (Broker × Status)
handle_disconnect b ci =
    let c = client_at b ci in
    close_client (put_client b ci (record c { has_will = false })) ci
    >>= (λ b'. some (emit b' (disconnected_clean (take (max_client_id - 1) c.client_id)), success))

-- The `switch`, with the offset behind the fixed header.
unfoldable pub handle : ℕ → Broker → ℕ → ℕ → ℕ → ℕ → Option (Broker × Status)
handle type b ci flags off len =
    if type == t_pkt_connect
    then handle_connect b ci off len
    else if type == t_pkt_publish
    then handle_publish b ci flags off len
    else if type == t_pkt_puback
    then some (handle_ack (on_puback b ci) b ci off len)
    else if type == t_pkt_pubrec
    then some (handle_ack (on_pubrec b ci) b ci off len)
    else if type == t_pkt_pubrel
    then some (handle_ack (on_pubrel b ci) b ci off len)
    else if type == t_pkt_pubcomp
    then some (handle_ack (on_pubcomp b ci) b ci off len)
    else if type == t_pkt_subscribe
    then handle_subscribe b ci off len
    else if type == t_pkt_unsubscribe
    then some (handle_unsubscribe b ci off len)
    else if type == t_pkt_pingreq
    then some (queue_and_flush b ci enc_pingresp, success)
    else if type == t_pkt_disconnect
    then handle_disconnect b ci
    else some (b, success)

-- `(p[0] >> 4) & 0x0F` and `p[0] & 0x0F`
abbrev pub packet_type : Bytes → ℕ
packet_type p = shr (byte_at p 0) 4 % 16

abbrev pub packet_flags : Bytes → ℕ
packet_flags p = byte_at p 0 % 16

abbrev pub dispatch_at : Broker → ℕ → ℕ → Option (ℕ × ℕ) → Option (Broker × Status)
dispatch_at b ci len none = some (b, failure)
dispatch_at b ci len (some (r, rem_len)) =
    let p = (client_at b ci).recv_buf in handle (packet_type p) b ci (packet_flags p) (1 + r) len

unfoldable pub dispatch : Broker → ℕ → ℕ → Option (Broker × Status)
dispatch b ci len =
    if ltb len 2
    then some (b, failure)
    else dispatch_at b ci len (decode_remaining (drop 1 (client_at b ci).recv_buf) (len - 1))
