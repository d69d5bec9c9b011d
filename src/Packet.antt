-- ===== src/Packet.antt =====
-- branch/branch/branch_codec.h, lines 74 to 121: the packets that the broker writes, and
-- branch_types.h, the packet types. An encoder gives the bytes that it writes from the start of its
-- buffer; its C result is their number.
use arbor_mq.Base.{
  ℕ, ◌+◌, ◌%◌, ◌^◌, [], ◌∷◌, ◌++◌, ltb, ◌==◌, if◌then◌else◌, length, Bytes, shl, low_bits, bit_or,
}
use arbor_mq.Wire.{write_u8, write_u16, write_str, fhdr}

abbrev pub t_pkt_connect : ℕ
t_pkt_connect = 1

abbrev pub t_pkt_connack : ℕ
t_pkt_connack = 2

abbrev pub t_pkt_publish : ℕ
t_pkt_publish = 3

abbrev pub t_pkt_puback : ℕ
t_pkt_puback = 4

abbrev pub t_pkt_pubrec : ℕ
t_pkt_pubrec = 5

abbrev pub t_pkt_pubrel : ℕ
t_pkt_pubrel = 6

abbrev pub t_pkt_pubcomp : ℕ
t_pkt_pubcomp = 7

abbrev pub t_pkt_subscribe : ℕ
t_pkt_subscribe = 8

abbrev pub t_pkt_suback : ℕ
t_pkt_suback = 9

abbrev pub t_pkt_unsubscribe : ℕ
t_pkt_unsubscribe = 10

abbrev pub t_pkt_unsuback : ℕ
t_pkt_unsuback = 11

abbrev pub t_pkt_pingreq : ℕ
t_pkt_pingreq = 12

abbrev pub t_pkt_pingresp : ℕ
t_pkt_pingresp = 13

abbrev pub t_pkt_disconnect : ℕ
t_pkt_disconnect = 14

unfoldable pub enc_connack : ℕ → ℕ → Bytes
unfolding write_u8
enc_connack session_present rc =
    write_u8 (write_u8 (write_u8 (write_u8 [] (shl t_pkt_connack 4)) 2) session_present) rc

-- The payload is the `plen` bytes at `payload`; `rem` is a `uint32_t`.
abbrev pub publish_remaining : Bytes → Bytes → ℕ → ℕ
publish_remaining topic payload qos =
    let rem = 2 + length topic % 65536 + length payload in
    (if ltb 0 qos then rem + 2 else rem) % 2 ^ 32

abbrev pub publish_flags : ℕ → ℕ → ℕ
publish_flags qos retain = bit_or (shl (low_bits qos 2) 1) (if retain == 0 then 0 else 1)

unfoldable pub enc_publish : Bytes → Bytes → ℕ → ℕ → ℕ → Bytes
unfolding fhdr write_str write_u16
enc_publish topic payload qos retain pid =
    let head =
      fhdr t_pkt_publish (publish_flags qos retain) (publish_remaining topic payload qos) in
    let named = write_str head topic in
    (if ltb 0 qos then write_u16 named pid else named) ++ payload

unfoldable pub enc_suback : ℕ → ℕ → Bytes
unfolding fhdr write_u16 write_u8
enc_suback pid rc = write_u8 (write_u16 (fhdr t_pkt_suback 0 3) pid) rc

unfoldable pub enc_unsuback : ℕ → Bytes
unfolding fhdr write_u16
enc_unsuback pid = write_u16 (fhdr t_pkt_unsuback 0 2) pid

unfoldable pub enc_ack : ℕ → ℕ → Bytes
unfolding fhdr write_u16
enc_ack type pid = write_u16 (fhdr type 0 2) pid

unfoldable pub enc_pingresp : Bytes
enc_pingresp = shl t_pkt_pingresp 4 % 256 ∷ 0 ∷ []
