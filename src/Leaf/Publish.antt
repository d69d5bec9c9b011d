-- ===== src/Leaf/Publish.antt =====
-- The broker reads the PUBLISH packets that the client library encodes.
use arbor_mq.Base.{
  ℕ, suc, ◌+◌, ◌-◌, ◌*◌, ◌%◌, ◌≤◌, ◌<◌, ◌≡◌, refl, ap, ◌∙◌, Bool, true, false, some, [], ◌∷◌, ◌++◌,
  append_assoc, ltb, if◌then◌else◌, Bytes, length, length-append, drop, drop-append_self, drop_past,
  take-append_self, shl, shr, bit_or, bit_or-shl_left, arith,
}
use arbor_mq.Wire.{read_u16, write_u8, write_u16, encode_remaining}
use arbor_mq.Wire.Fields.{u16, read_u16-drop, read_str-drop, write_str-append}
use arbor_mq.Packet.{t_pkt_publish}
use arbor_mq.Broker.Publish.{read_pid, read_publish}
use arbor_mq.Broker.Dispatch.{packet_flags}
use arbor_mq.Leaf.{encode_publish, publish_rem_len, flag_bits}

abbrev pub pid_field : ℕ → ℕ → Bytes
pid_field qos pid = if ltb 0 qos then u16 pid else []

-- The packet id that stands in the packet; 0 if there is none.
abbrev pub sent_pid : ℕ → ℕ → ℕ
sent_pid qos pid = if ltb 0 qos then pid else 0

pub read_pid-drop :
    (buf rest : Bytes) (off len qos pid : ℕ)
    → drop off buf ≡ pid_field qos pid ++ rest
    → pid < 65536
    → off + length (pid_field qos pid) ≤ len
    → read_pid buf qos off len ≡ some (sent_pid qos pid, off + length (pid_field qos pid))
read_pid-drop buf rest off len qos pid e h k = at (ltb 0 qos) e k
  where
    at :
        (t : Bool)
        → drop off buf ≡ (if t then u16 pid else []) ++ rest
        → off + length (if t then u16 pid else []) ≤ len
        → (if t then read_u16 buf off len else some (0, off))
          ≡ some ((if t then pid else 0), off + length (if t then u16 pid else []))
    at true e k = read_u16-drop buf rest off len pid e h k
    at false e k = ap (λ o. some (0, o)) (omega arith)

read_publish-drop :
    (buf topic payload rest : Bytes) (flags off len qos retain pid : ℕ)
    → shr flags 1 % 4 ≡ qos
    → flags % 2 ≡ retain
    → drop off buf ≡ u16 (length topic) ++ (topic ++ (pid_field qos pid ++ (payload ++ rest)))
    → length topic < 65536
    → pid < 65536
    → len ≡ off + 2 + length topic + length (pid_field qos pid) + length payload
    → read_publish buf flags off len
      ≡ some (record {
        qos = qos;
        retain = retain;
        topic = topic;
        pid = sent_pid qos pid;
        payload = payload;
      })
unfolding read_publish
read_publish-drop buf topic payload rest flags off len qos retain pid fq fr e ht hp l =
    let body = pid_field qos pid ++ (payload ++ rest) in
    let o1 = off + 2 + length topic in
    let behind_len = drop_past buf off (u16 (length topic)) (topic ++ body) e in
    let behind_topic = drop_past buf (off + 2) topic body behind_len in
    let o2 = o1 + length (pid_field qos pid) in
    let behind_pid = drop_past buf o1 (pid_field qos pid) (payload ++ rest) behind_topic in
    let size : len - o2 ≡ length payload = omega (arith, l) in
    rw
      (
        fq,
        fr,
        read_str-drop buf topic body off len e ht (omega (arith, l)),
        read_pid-drop buf (payload ++ rest) o1 len qos pid behind_topic hp (omega (arith, l)),
        size,
        behind_pid,
        take-append_self payload rest,
      )
      refl

abbrev pub head : Bytes → Bytes → ℕ → ℕ → Bytes
head topic payload qos retain =
    bit_or (shl t_pkt_publish 4) (flag_bits qos retain) % 256
    ∷ encode_remaining (publish_rem_len topic payload qos)

abbrev pub body : Bytes → Bytes → ℕ → ℕ → Bytes
body topic payload qos pid = u16 (length topic) ++ (topic ++ (pid_field qos pid ++ payload))

pub encode_publish-parts :
    (topic payload : Bytes) (qos retain pid : ℕ)
    → length topic < 65536
    → encode_publish topic payload qos retain pid
      ≡ head topic payload qos retain ++ body topic payload qos pid
unfolding encode_publish write_u8 write_u16
encode_publish-parts topic payload qos retain pid h =
    rw (write_str-append (head topic payload qos retain) topic h) (at (ltb 0 qos))
  where
    at :
        (t : Bool)
        → (if t
              then write_u16 (head topic payload qos retain ++ (u16 (length topic) ++ topic)) pid
              else head topic payload qos retain ++ (u16 (length topic) ++ topic))
            ++ payload
          ≡ head topic payload qos retain
            ++ (u16 (length topic) ++ (topic ++ ((if t then u16 pid else []) ++ payload)))
    at true = simp append_assoc
    at false = simp append_assoc

-- The flags of a PUBLISH packet, in its first byte.
pub flag_bits-values :
    (qos retain : ℕ) → qos < 4 → retain < 2 → flag_bits qos retain ≡ 2 * qos + retain
flag_bits-values qos retain h k =
    let one = bit_or-shl_left 1 (qos % 4) 1 (omega arith) in ground (arith, one)

first_byte : (f : ℕ) → f < 16 → bit_or (shl t_pkt_publish 4) f % 256 % 16 ≡ f
first_byte f h = omega (arith, bit_or-shl_left 4 t_pkt_publish f (omega arith))

pub first_byte-flags :
    (qos retain : ℕ) (topic payload : Bytes)
    → qos < 4
    → retain < 2
    → packet_flags (head topic payload qos retain) ≡ 2 * qos + retain
first_byte-flags qos retain topic payload h k =
    let f = flag_bits-values qos retain h k in
    first_byte (flag_bits qos retain) (omega (arith, f)) ∙ f

pub length-body :
    (topic payload : Bytes) (qos pid : ℕ)
    → length (body topic payload qos pid)
      ≡ 2 + length topic + length (pid_field qos pid) + length payload
length-body topic payload qos pid = omega (
  arith,
  length-append topic (pid_field qos pid ++ payload),
  length-append (pid_field qos pid) payload,
)

-- A PUBLISH packet that the client library encodes is read by the broker as it was sent: the QoS, the
-- retain flag, the topic, the payload, and for a QoS above 0 the packet id. This holds for a topic of
-- at most 65535 bytes, a 16-bit packet id, two bits of QoS and one of retain, and whatever the receive
-- buffer has behind the packet.
pub read_publish-encode_publish :
    (topic payload rest : Bytes) (qos retain pid : ℕ)
    → length topic < 65536
    → pid < 65536
    → qos < 4
    → retain < 2
    → (let p = encode_publish topic payload qos retain pid in
        let off = 1 + length (encode_remaining (publish_rem_len topic payload qos)) in
        read_publish (p ++ rest) (packet_flags p) off (length p)
        ≡ some (record {
          qos = qos;
          retain = retain;
          topic = topic;
          pid = sent_pid qos pid;
          payload = payload;
        }))
read_publish-encode_publish topic payload rest qos retain pid ht hp hq hr =
    rw
      (
        encode_publish-parts topic payload qos retain pid ht,
        start (length (encode_remaining (publish_rem_len topic payload qos))),
      )
      (read_publish-drop (h ++ b ++ rest) topic payload rest (packet_flags h) (length h)
        (length (h ++ b)) qos retain pid (qos_bits f) (retain_bit f) behind ht hp
        (omega (arith, length-append h b, length-body topic payload qos pid)))
  where
    h : Bytes
    h = head topic payload qos retain

    b : Bytes
    b = body topic payload qos pid

    f : packet_flags (head topic payload qos retain) ≡ 2 * qos + retain
    f = first_byte-flags qos retain topic payload hq hr

    qos_bits :
        packet_flags (head topic payload qos retain) ≡ 2 * qos + retain
        → shr (packet_flags (head topic payload qos retain)) 1 % 4 ≡ qos
    qos_bits e = rw (e) (omega arith)

    retain_bit :
        packet_flags (head topic payload qos retain) ≡ 2 * qos + retain
        → packet_flags (head topic payload qos retain) % 2 ≡ retain
    retain_bit e = rw (e) (omega arith)

    behind :
        drop
          (length (head topic payload qos retain))
          (head topic payload qos retain ++ body topic payload qos pid ++ rest)
        ≡ u16 (length topic) ++ (topic ++ (pid_field qos pid ++ (payload ++ rest)))
    behind =
        ap (drop (length (head topic payload qos retain)))
          (append_assoc (head topic payload qos retain) (body topic payload qos pid) rest)
        ∙ drop-append_self (head topic payload qos retain) (body topic payload qos pid ++ rest)
        ∙ simp append_assoc

    start : (n : ℕ) → 1 + n ≡ suc n
    start n = omega arith
