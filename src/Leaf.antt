-- ===== src/Leaf.antt =====
-- leaf/leaf/leaf_codec.h, lines 121 to 172: the packets that the client library sends behind CONNECT.
-- Its writers are those of Wire, with which those of the library agree (Leaf/Codec). A packet
-- is the bytes that stand in the send buffer, which has room for them.
pub mod Codec
pub mod Publish
pub mod Subscribe
pub mod Unsubscribe
pub mod State
pub mod Pending
pub mod Connect
pub mod Dispatch
pub mod Network
pub mod Client
pub mod Poll
use arbor_mq.Base.{
  ℕ, ◌+◌, ◌%◌, ◌^◌, ◌++◌, [], ◌∷◌, ltb, ◌==◌, if◌then◌else◌, Bytes, length, shl, low_bits, bit_or,
}
use arbor_mq.Wire.{write_u8, write_u16, write_str, encode_remaining}
use arbor_mq.Packet.{
  t_pkt_publish, t_pkt_subscribe, t_pkt_unsubscribe, t_pkt_pingreq, t_pkt_disconnect,
}

-- The `uint32_t` remaining length of a PUBLISH packet.
abbrev pub publish_rem_len : Bytes → Bytes → ℕ → ℕ
publish_rem_len topic payload qos =
    let rem_len = 2 + length topic % 65536 + length payload in
    (if ltb 0 qos then rem_len + 2 else rem_len) % 2 ^ 32

abbrev pub flag_bits : ℕ → ℕ → ℕ
flag_bits qos retain = let f = shl (low_bits qos 2) 1 in if retain == 0 then f else bit_or f 1

unfoldable pub encode_publish : Bytes → Bytes → ℕ → ℕ → ℕ → Bytes
encode_publish topic payload qos retain pid =
    let head =
      write_u8 [] (bit_or (shl t_pkt_publish 4) (flag_bits qos retain))
      ++ encode_remaining (publish_rem_len topic payload qos) in
    let named = write_str head topic in
    (if ltb 0 qos then write_u16 named pid else named) ++ payload

unfoldable pub encode_subscribe : Bytes → ℕ → ℕ → Bytes
encode_subscribe topic qos pid =
    let head =
      write_u8 [] (bit_or (shl t_pkt_subscribe 4) 2)
      ++ encode_remaining (2 + 2 + length topic % 65536 + 1) in
    write_u8 (write_str (write_u16 head pid) topic) qos

unfoldable pub encode_unsubscribe : Bytes → ℕ → Bytes
encode_unsubscribe topic pid =
    let head =
      write_u8 [] (bit_or (shl t_pkt_unsubscribe 4) 2)
      ++ encode_remaining (2 + 2 + length topic % 65536) in
    write_str (write_u16 head pid) topic

unfoldable pub encode_ack : ℕ → ℕ → Bytes
encode_ack type pid = write_u16 (write_u8 (write_u8 [] (shl type 4)) 2) pid

unfoldable pub encode_pingreq : Bytes
encode_pingreq = shl t_pkt_pingreq 4 % 256 ∷ 0 ∷ []

unfoldable pub encode_disconnect : Bytes
encode_disconnect = shl t_pkt_disconnect 4 % 256 ∷ 0 ∷ []
