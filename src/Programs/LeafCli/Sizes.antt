-- ===== src/Programs/LeafCli/Sizes.antt =====
-- leaf/leaf/leaf_codec.h, lines 121 to 149: the packets for what a user can enter fit the send buffer.
use arbor_mq.Base.{
  ℕ, ◌+◌, ◌%◌, ◌^◌, ◌≤◌, ◌<◌, Bool, true, false, [], ◌∷◌, ◌++◌, ltb, if◌then◌else◌, Bytes, length,
  length-append, shl, bit_or, arith,
}
use arbor_mq.Wire.{write_u8, write_u16, encode_remaining}
use arbor_mq.Wire.Fields.{u16, write_str-append}
use arbor_mq.Wire.Short.{length-encode_remaining_two}
use arbor_mq.Packet.{t_pkt_publish, t_pkt_subscribe}
use arbor_mq.Leaf.{encode_publish, encode_subscribe, publish_rem_len, flag_bits}
use arbor_mq.Leaf.State.{leaf_buf_size}

publish_rem_len-small :
    (topic payload : Bytes) (qos : ℕ)
    → length topic ≤ 255
    → length payload ≤ 511
    → publish_rem_len topic payload qos < 16384
publish_rem_len-small topic payload qos h k = at (ltb 0 qos)
  where
    at :
        (t : Bool)
        → (if t
              then 2 + length topic % 65536 + length payload + 2
              else 2 + length topic % 65536 + length payload)
            % 2 ^ 32
          < 16384
    at true = omega arith
    at false = omega arith

pub encode_publish-fits :
    (topic payload : Bytes) (qos retain pid : ℕ)
    → length topic ≤ 255
    → length payload ≤ 511
    → length (encode_publish topic payload qos retain pid) ≤ leaf_buf_size
unfolding encode_publish write_u8 write_u16
encode_publish-fits topic payload qos retain pid h k =
    rw (write_str-append head topic (omega arith)) (at (ltb 0 qos))
  where
    rem : Bytes
    rem = encode_remaining (publish_rem_len topic payload qos)

    head : Bytes
    head = bit_or (shl t_pkt_publish 4) (flag_bits qos retain) % 256 ∷ rem

    named : Bytes
    named = head ++ (u16 (length topic) ++ topic)

    small : length rem ≤ 2
    small =
        length-encode_remaining_two (publish_rem_len topic payload qos)
          (publish_rem_len-small topic payload qos h k)

    at : (t : Bool) → length ((if t then named ++ u16 pid else named) ++ payload) ≤ leaf_buf_size
    at true = omega (
      arith,
      small,
      length-append (named ++ u16 pid) payload,
      length-append named (u16 pid),
      length-append head (u16 (length topic) ++ topic),
    )
    at false = omega (
      arith,
      small,
      length-append named payload,
      length-append head (u16 (length topic) ++ topic),
    )

pub encode_subscribe-fits :
    (topic : Bytes) (qos pid : ℕ)
    → length topic ≤ 255
    → length (encode_subscribe topic qos pid) ≤ leaf_buf_size
unfolding encode_subscribe write_u8 write_u16
encode_subscribe-fits topic qos pid h =
    rw (write_str-append (head ++ u16 pid) topic (omega arith)) (
      omega (
        arith,
        small,
        length-append ((head ++ u16 pid) ++ (u16 (length topic) ++ topic)) (qos % 256 ∷ []),
        length-append (head ++ u16 pid) (u16 (length topic) ++ topic),
        length-append head (u16 pid),
      ))
  where
    rem : Bytes
    rem = encode_remaining (2 + 2 + length topic % 65536 + 1)

    head : Bytes
    head = bit_or (shl t_pkt_subscribe 4) 2 % 256 ∷ rem

    small : length rem ≤ 2
    small = length-encode_remaining_two (2 + 2 + length topic % 65536 + 1) (omega arith)
