-- ===== src/Samples/Fields.antt =====
-- Fields of packets.
use arbor_mq.Base.{◌+◌, Bytes, ◌<◌, ◌≤◌, ◌≡◌, refl, some, [], ◌∷◌, ◌++◌, arith, length, ◌^◌}
use arbor_mq.Broker.Dispatch.{packet_flags}
use arbor_mq.Broker.Publish.{read_publish}
use arbor_mq.Leaf.{encode_publish, publish_rem_len}
use arbor_mq.Leaf.Publish.{sent_pid, read_publish-encode_publish}
use arbor_mq.Wire.{encode_remaining, decode_remaining, encode_loop, decode_loop}
use arbor_mq.Wire.Remaining.{decode_remaining-encode_remaining, decode_remaining_bounds}

encodes_321 : encode_remaining 321 ≡ 0xc1 ∷ 0x02 ∷ []
unfolding encode_remaining encode_loop
encodes_321 = refl

decodes_321 : decode_remaining (0xc1 ∷ 0x02 ∷ []) 2 ≡ some (2, 321)
unfolding decode_remaining decode_loop
decodes_321 = refl

-- Five bytes are read where the bound reaches over them.
decodes_five : decode_remaining (0x80 ∷ 0x80 ∷ 0x80 ∷ 0x80 ∷ 0 ∷ []) 9 ≡ some (5, 0)
unfolding decode_remaining decode_loop
decodes_five = refl

length-encode_321 : length (encode_remaining 321) ≤ 4
unfolding encode_remaining encode_loop
length-encode_321 = omega arith

decode_remaining-encode_remaining_example :
    decode_remaining (encode_remaining 321 ++ 7 ∷ []) 4 ≡ some (length (encode_remaining 321), 321)
decode_remaining-encode_remaining_example =
    decode_remaining-encode_remaining 321 4 (7 ∷ []) (omega arith) length-encode_321

decode_remaining_bounds_example : (1 ≤ 2) × (2 ≤ 2) × (2 ≤ 5) × (321 < 2 ^ 28)
decode_remaining_bounds_example = decode_remaining_bounds (0xc1 ∷ 0x02 ∷ []) 2 2 321 decodes_321

abbrev topic : Bytes
topic = b'h' ∷ []

abbrev payload : Bytes
payload = 1 ∷ 2 ∷ []

abbrev packet : Bytes
packet = encode_publish topic payload 1 0 7

read_publish-encode_publish_example :
    read_publish
      (packet ++ 9 ∷ [])
      (packet_flags packet)
      (1 + length (encode_remaining (publish_rem_len topic payload 1)))
      (length packet)
    ≡ some (record { qos = 1; retain = 0; topic = topic; pid = sent_pid 1 7; payload = payload })
read_publish-encode_publish_example =
    read_publish-encode_publish topic payload (9 ∷ []) 1 0 7 (omega arith) (omega arith)
      (omega arith) (omega arith)
