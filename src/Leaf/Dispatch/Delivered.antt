-- ===== src/Leaf/Dispatch/Delivered.antt =====
-- branch_codec.h, lines 83 to 95, and leaf_codec.h, lines 178 to 261: the client is given the messages
-- that the broker sends it.
use arbor_mq.Base.{
  ℕ, suc, ◌+◌, ◌-◌, ◌%◌, ◌^◌, ◌<◌, ◌≡◌, refl, ap, ◌∙◌, Bool, true, false, some, [], ◌∷◌, ◌++◌,
  append_assoc, ltb, if◌then◌else◌, Bytes, length, length-append, drop, drop-append_self, drop_past,
  take-append_self, shl, shr, low_bits, bit_or, bit_or-shl_left, arith,
}
use arbor_mq.Wire.{copy_str, encode_remaining, decode_remaining, fhdr}
use arbor_mq.Wire.Remaining.{decode_remaining-encode_remaining, encode_remaining_shape}
use arbor_mq.Wire.Fields.{u16, read_str-drop}
use arbor_mq.Packet.{enc_publish, publish_flags, t_pkt_publish}
use arbor_mq.Broker.Send.{success, failure}
use arbor_mq.Broker.Dispatch.{packet_type, packet_flags}
use arbor_mq.Leaf.{encode_publish, publish_rem_len, flag_bits}
use arbor_mq.Leaf.State.{Leaf, leaf_max_topic}
use arbor_mq.Leaf.Dispatch.{
  read_delivery, delivery_read, handle_packet, handle_at, leaf_dispatch, deliver, on_publish,
}
use arbor_mq.Leaf.Publish.{
  pid_field, sent_pid, read_pid-drop, head, body, encode_publish-parts, flag_bits-values,
  first_byte-flags, length-body,
}

-- A packet with a valid fixed header reaches its handler, with the offset behind the header.
pub leaf_dispatch-framed :
    (c : Leaf) (first rem len : ℕ) (rest : Bytes)
    → (let h = first ∷ encode_remaining rem in
        c.recv_buf ≡ h ++ rest
        → rem < 2 ^ 28
        → len ≡ length h + rem
        → leaf_dispatch c len ≡ handle_packet (packet_type h) c (packet_flags h) (length h) len)
unfolding leaf_dispatch
leaf_dispatch-framed c first rem len rest e small l =
    let (_, one, _) = encode_remaining_shape rem (omega arith) in
    let h = first ∷ encode_remaining rem in
    let long : ltb len 2 ≡ false = ground (arith, l, one) in
    let decoded =
      ap (λ b. decode_remaining (drop 1 b) (len - 1)) e
      ∙ decode_remaining-encode_remaining rem (len - 1) rest small (omega (arith, l)) in
    ap
      (λ t.
        if t
        then (c, failure)
        else handle_at c len (decode_remaining (drop 1 c.recv_buf) (len - 1)))
      long
    ∙ ap (handle_at c len) decoded
    ∙ ap
        (λ b.
          handle_packet (packet_type b) c (packet_flags b) (1 + length (encode_remaining rem)) len)
        e
    ∙ ap (λ o. handle_packet (packet_type h) c (packet_flags h) o len)
        (start (length (encode_remaining rem)))
  where
    start : (n : ℕ) → 1 + n ≡ suc n
    start n = omega arith

read_delivery-drop :
    (buf topic payload rest : Bytes) (flags off len qos retain pid : ℕ)
    → shr flags 1 % 4 ≡ qos
    → flags % 2 ≡ retain
    → drop off buf ≡ u16 (length topic) ++ (topic ++ (pid_field qos pid ++ (payload ++ rest)))
    → length topic < 65536
    → pid < 65536
    → len ≡ off + 2 + length topic + length (pid_field qos pid) + length payload
    → read_delivery buf flags off len
      ≡ some (
        record {
          topic = copy_str leaf_max_topic topic;
          payload = payload;
          qos = qos;
          retain = retain;
        },
        sent_pid qos pid,
      )
unfolding read_delivery
read_delivery-drop buf topic payload rest flags off len qos retain pid fq fr e ht hp l =
    let behind = pid_field qos pid ++ (payload ++ rest) in
    let o1 = off + 2 + length topic in
    let behind_len = drop_past buf off (u16 (length topic)) (topic ++ behind) e in
    let behind_topic = drop_past buf (off + 2) topic behind behind_len in
    let o2 = o1 + length (pid_field qos pid) in
    let behind_pid = drop_past buf o1 (pid_field qos pid) (payload ++ rest) behind_topic in
    let size : len - o2 ≡ length payload = omega (arith, l) in
    rw
      (
        fq,
        fr,
        read_str-drop buf topic behind off len e ht (omega (arith, l)),
        read_pid-drop buf (payload ++ rest) o1 len qos pid behind_topic hp (omega (arith, l)),
        size,
        behind_pid,
        take-append_self payload rest,
      )
      refl

-- The broker and the client write a PUBLISH packet alike.
enc_publish-encode_publish :
    (topic payload : Bytes) (qos retain pid : ℕ)
    → qos < 4
    → retain < 2
    → enc_publish topic payload qos retain pid ≡ encode_publish topic payload qos retain pid
unfolding enc_publish encode_publish fhdr
enc_publish-encode_publish topic payload qos retain pid h k =
    let same : low_bits (publish_flags qos retain) 4 ≡ flag_bits qos retain = ground (
      arith,
      bit_or-shl_left 1 (qos % 4) 0 (omega arith),
      bit_or-shl_left 1 (qos % 4) 1 (omega arith),
    ) in
    rw (same) refl

publish-packet_type :
    (topic payload : Bytes) (qos retain : ℕ)
    → qos < 4
    → retain < 2
    → packet_type (head topic payload qos retain) ≡ t_pkt_publish
publish-packet_type topic payload qos retain h k =
    let f = flag_bits qos retain in
    omega (
      arith,
      flag_bits-values qos retain h k,
      bit_or-shl_left 4 t_pkt_publish f (omega (arith, flag_bits-values qos retain h k)),
    )

length-publish :
    (topic payload : Bytes) (qos retain pid : ℕ)
    → length topic < 65536
    → 4 + length topic + length payload < 2 ^ 28
    → length (body topic payload qos pid) ≡ publish_rem_len topic payload qos
length-publish topic payload qos retain pid h k = at (ltb 0 qos) (length-body topic payload qos pid)
  where
    at :
        (t : Bool)
        → length (body topic payload qos pid)
          ≡ 2 + length topic + length (if t then u16 pid else []) + length payload
        → length (body topic payload qos pid)
          ≡ (if t
              then 2 + length topic % 65536 + length payload + 2
              else 2 + length topic % 65536 + length payload)
            % 2 ^ 32
    at true e = omega (arith, e)
    at false e = omega (arith, e)

-- A client that has received a PUBLISH packet of the broker handles it with success, and as one message:
-- with the topic cut to the 255 bytes that the client has room for, and with the payload, the QoS, the
-- retain flag and, for a QoS above 0, the packet id that the broker has sent. This holds for a topic of
-- at most 65535 bytes, a packet of less than 2^28 bytes, a 16-bit packet id, two bits of QoS and one of
-- retain, and whatever the receive buffer has behind the packet.
pub leaf_dispatch-enc_publish :
    (c : Leaf) (topic payload rest : Bytes) (qos retain pid : ℕ)
    → length topic < 65536
    → 4 + length topic + length payload < 2 ^ 28
    → pid < 65536
    → qos < 4
    → retain < 2
    → c.recv_buf ≡ enc_publish topic payload qos retain pid ++ rest
    → leaf_dispatch c (length (enc_publish topic payload qos retain pid)) ≡ (
      deliver c
          (record {
            topic = copy_str leaf_max_topic topic;
            payload = payload;
            qos = qos;
            retain = retain;
          })
          (sent_pid qos pid),
      success,
    )
unfolding handle_packet on_publish
leaf_dispatch-enc_publish c topic payload rest qos retain pid ht hl hp hq hr e =
    let same =
      enc_publish-encode_publish topic payload qos retain pid hq hr
      ∙ encode_publish-parts topic payload qos retain pid ht in
    let f = first_byte-flags qos retain topic payload hq hr in
    let size = ap length same ∙ length-append h b in
    let buf = e ∙ ap (λ p. p ++ rest) same ∙ append_assoc h b rest in
    let off = length h in
    let len = length (enc_publish topic payload qos retain pid) in
    let behind = ap (drop off) buf ∙ drop-append_self h (b ++ rest) ∙ parts in
    leaf_dispatch-framed c first rem len (b ++ rest) buf (small (ltb 0 qos))
      (omega (arith, size, length-publish topic payload qos retain pid ht hl))
    ∙ ap (λ t. handle_packet t c (packet_flags h) off len)
        (publish-packet_type topic payload qos retain hq hr)
    ∙ ap (delivery_read c) (
        read_delivery-drop c.recv_buf topic payload rest (packet_flags h) off len qos retain pid
          (omega (arith, f)) (omega (arith, f)) behind ht hp
          (omega (arith, size, length-body topic payload qos pid)))
  where
    h : Bytes
    h = head topic payload qos retain

    b : Bytes
    b = body topic payload qos pid

    rem : ℕ
    rem = publish_rem_len topic payload qos

    first : ℕ
    first = bit_or (shl t_pkt_publish 4) (flag_bits qos retain) % 256

    small :
        (t : Bool)
        → (if t
              then 2 + length topic % 65536 + length payload + 2
              else 2 + length topic % 65536 + length payload)
            % 2 ^ 32
          < 2 ^ 28
    small true = omega arith
    small false = omega arith

    parts : b ++ rest ≡ u16 (length topic) ++ (topic ++ (pid_field qos pid ++ (payload ++ rest)))
    parts = simp append_assoc
