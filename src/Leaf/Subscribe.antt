-- ===== src/Leaf/Subscribe.antt =====
-- leaf_codec.h, lines 138 to 149, and branch_codec.h, lines 341 to 385: the broker subscribes its client
-- as the client library asks.
use arbor_mq.Base.{
  ℕ, suc, ◌+◌, ◌%◌, ◌≤◌, ◌<◌, ◌≡◌, refl, ap, ◌∙◌, true, false, Option, some, none, [], ◌∷◌, ◌++◌,
  append_assoc, ltb, ◌>>=◌, Bytes, length, length-append, drop, drop-append_self, drop_past, shl,
  bit_or, arith,
}
use arbor_mq.Wire.{read_u16, write_u8, write_u16, encode_remaining}
use arbor_mq.Wire.Fields.{u16, read_u8-drop, read_u16-drop, read_str-drop, write_str-append}
use arbor_mq.Packet.{t_pkt_subscribe}
use arbor_mq.Broker.State.{Broker, client_at}
use arbor_mq.Broker.Send.{Status, success, queue_and_flush}
use arbor_mq.Broker.Subscribe.{
  read_filter, add_sub, subscribe_loop, suback, subscribe_read, handle_subscribe,
}
use arbor_mq.Leaf.{encode_subscribe}

abbrev subscribe_head : Bytes → Bytes
subscribe_head topic =
    bit_or (shl t_pkt_subscribe 4) 2 % 256 ∷ encode_remaining (2 + 2 + length topic % 65536 + 1)

encode_subscribe-parts :
    (topic rest : Bytes) (qos pid : ℕ)
    → length topic < 65536
    → qos < 256
    → encode_subscribe topic qos pid ++ rest
      ≡ subscribe_head topic ++ (u16 pid ++ (u16 (length topic) ++ (topic ++ (qos ∷ rest))))
unfolding encode_subscribe write_u8 write_u16
encode_subscribe-parts topic rest qos pid h q =
    let byte : qos % 256 ≡ qos = omega arith in
    rw (write_str-append (subscribe_head topic ++ u16 pid) topic h, byte) (simp append_assoc)

read_filter-drop :
    (buf topic rest : Bytes) (off len qos : ℕ)
    → drop off buf ≡ u16 (length topic) ++ (topic ++ (qos ∷ rest))
    → length topic < 65536
    → off + 3 + length topic ≤ len
    → read_filter buf off len ≡ some (topic, qos, off + 2 + length topic + 1)
unfolding read_filter
read_filter-drop buf topic rest off len qos e h l =
    let behind_len = drop_past buf off (u16 (length topic)) (topic ++ (qos ∷ rest)) e in
    let behind = drop_past buf (off + 2) topic (qos ∷ rest) behind_len in
    rw
      (
        read_str-drop buf topic (qos ∷ rest) off len e h (omega arith),
        read_u8-drop buf rest (off + 2 + length topic) len qos behind (omega arith),
      )
      refl

abbrev with_code : Broker × ℕ → Option (Broker × Bytes)
with_code r = some (r.0, r.1 ∷ [])

-- The answer to a SUBSCRIBE packet, from the return codes or from the only one.
abbrev answered : ℕ → ℕ → Broker × Bytes → Option (Broker × Status)
answered ci pid r = some (queue_and_flush r.0 ci (suback pid r.1), success)

abbrev pub answered_one : ℕ → ℕ → Broker × ℕ → Option (Broker × Status)
answered_one ci pid r = some (queue_and_flush r.0 ci (suback pid (r.1 ∷ [])), success)

-- The loop over a packet with one filter.
subscribe_loop-one :
    (b : Broker) (ci : ℕ) (buf topic rest : Bytes) (off len qos : ℕ)
    → drop off buf ≡ u16 (length topic) ++ (topic ++ (qos ∷ rest))
    → length topic < 65536
    → len ≡ off + 3 + length topic
    → subscribe_loop 32 b ci buf off len [] ≡ (add_sub b ci topic qos 0 >>= with_code)
unfolding subscribe_loop
subscribe_loop-one b ci buf topic rest off len qos e h l =
    let inside : ltb off len ≡ true = ground (arith, l) in
    let over : ltb (off + 2 + length topic + 1) len ≡ false = ground (arith, l) in
    rw (inside, read_filter-drop buf topic rest off len qos e h (omega (arith, l)), over) refl

length-encode_subscribe :
    (topic : Bytes) (qos pid : ℕ)
    → length topic < 65536
    → qos < 256
    → length (encode_subscribe topic qos pid) ≡ length (subscribe_head topic) + 5 + length topic
length-encode_subscribe topic qos pid h q =
    let parts = ap length (encode_subscribe-parts topic [] qos pid h q) in
    omega (
      arith,
      parts,
      length-append (encode_subscribe topic qos pid) [],
      length-append (subscribe_head topic)
          (u16 pid ++ (u16 (length topic) ++ (topic ++ (qos ∷ [])))),
      length-append topic (qos ∷ []),
    )

-- A SUBSCRIBE packet that the client library encodes makes the broker add just that subscription, for the
-- topic filter and the QoS that were asked for, and answer with a SUBACK packet that has the packet id and
-- the one return code of the subscription. This holds for a filter of at most 65535 bytes, a QoS of one
-- byte, a 16-bit packet id, and whatever the receive buffer has behind the packet.
pub handle_subscribe-encode_subscribe :
    (b : Broker) (ci : ℕ) (topic rest : Bytes) (qos pid : ℕ)
    → length topic < 65536
    → qos < 256
    → pid < 65536
    → (client_at b ci).recv_buf ≡ encode_subscribe topic qos pid ++ rest
    → handle_subscribe b ci
        (1 + length (encode_remaining (2 + 2 + length topic % 65536 + 1)))
        (length (encode_subscribe topic qos pid))
      ≡ (add_sub b ci topic qos 0 >>= answered_one ci pid)
unfolding handle_subscribe
handle_subscribe-encode_subscribe b ci topic rest qos pid h q i e =
    let head = subscribe_head topic in
    let filter_on : Bytes = u16 (length topic) ++ (topic ++ (qos ∷ rest)) in
    let buf = (client_at b ci).recv_buf in
    let n = length (encode_subscribe topic qos pid) in
    let size = length-encode_subscribe topic qos pid h q in
    let at_pid =
      ap (drop (length head)) (e ∙ encode_subscribe-parts topic rest qos pid h q)
      ∙ drop-append_self head (u16 pid ++ filter_on) in
    let at_filter = drop_past buf (length head) (u16 pid) filter_on at_pid in
    ap (λ o. subscribe_read b ci n (read_u16 buf o n))
      (start (length (encode_remaining (2 + 2 + length topic % 65536 + 1))))
    ∙ ap (subscribe_read b ci n)
        (read_u16-drop buf filter_on (length head) n pid at_pid i (omega (arith, size)))
    ∙ ap (λ x. x >>= answered ci pid)
        (subscribe_loop-one b ci buf topic rest (length head + 2) n qos at_filter h
          (omega (arith, size)))
    ∙ rest_of (add_sub b ci topic qos 0)
  where
    start : (n : ℕ) → 1 + n ≡ suc n
    start n = omega arith

    rest_of :
        (x : Option (Broker × ℕ))
        → (x >>= with_code >>= answered ci pid) ≡ (x >>= answered_one ci pid)
    rest_of none = refl
    rest_of (some r) = refl
