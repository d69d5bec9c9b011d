-- ===== src/Broker/Room.antt =====
-- branch_broker.h, lines 89 to 124: which messages fit the packet buffer of `branch__forward`.
use arbor_mq.Base.{
  ℕ, ◌+◌, ◌-◌, ◌%◌, ◌^◌, ◌≤◌, ◌<◌, ◌≡◌, Bool, true, false, Option, some, List, [], ◌∷◌, ◌++◌, ltb,
  if◌then◌else◌, Bytes, length, length-append, length-take, take, Returns, Returns-bind, Ensures,
  subst, ◌>>=◌, arith, bit_or, shl, low_bits, none,
}
use arbor_mq.Wire.{
  c_str, copy_str, read_str, read_str_copy, write_u8, write_u16, encode_remaining, fhdr,
}
use arbor_mq.Wire.Short.{length-encode_remaining_two}
use arbor_mq.Wire.Fields.{u16, write_str-append}
use arbor_mq.Packet.{enc_publish, publish_remaining, publish_flags, t_pkt_publish}
use arbor_mq.Broker.State.{Broker, Sub, buf_size}
use arbor_mq.Broker.Forward.{
  send_packet, prepare_out, deliver, wants, forward_subs, retain_message, forward,
}
use arbor_mq.Broker.Publish.Inside.{pid_size}

-- The message and the fields before it leave room for the fixed header.
abbrev pub Forwardable : ℕ → ℕ → ℕ → Type 0
Forwardable topic payload qos = 2 + topic + pid_size qos + payload ≤ 4093

length-enc_publish :
    (topic payload : Bytes) (qos retain pid : ℕ)
    → length topic < 65536
    → length (enc_publish topic payload qos retain pid)
      ≡ 3
        + length (encode_remaining (publish_remaining topic payload qos))
        + length topic
        + pid_size qos
        + length payload
unfolding enc_publish fhdr write_u8 write_u16
length-enc_publish topic payload qos retain pid h =
    rw (write_str-append head topic h) (at (ltb 0 qos))
  where
    head : Bytes
    head =
        bit_or (shl t_pkt_publish 4) (low_bits (publish_flags qos retain) 4) % 256
        ∷ encode_remaining (publish_remaining topic payload qos)

    rem : Bytes
    rem = encode_remaining (publish_remaining topic payload qos)

    named : Bytes
    named = head ++ (u16 (length topic) ++ topic)

    at :
        (t : Bool)
        → length ((if t then named ++ u16 pid else named) ++ payload)
          ≡ 3 + length rem + length topic + (if t then 2 else 0) + length payload
    at true = omega (
      arith,
      length-append (named ++ u16 pid) payload,
      length-append named (u16 pid),
      length-append head (u16 (length topic) ++ topic),
    )
    at false =
        omega (arith, length-append named payload, length-append head (u16 (length topic) ++ topic))

pub enc_publish-fits :
    (topic payload : Bytes) (qos retain pid : ℕ)
    → Forwardable (length topic) (length payload) qos
    → length (enc_publish topic payload qos retain pid) ≤ buf_size
enc_publish-fits topic payload qos retain pid h =
    let small =
      length-encode_remaining_two (publish_remaining topic payload qos) (rest (ltb 0 qos) h) in
    omega (arith, length-enc_publish topic payload qos retain pid (omega (arith, h)), small)
  where
    rest :
        (t : Bool)
        → 2 + length topic + (if t then 2 else 0) + length payload ≤ 4093
        → (if t
              then 2 + length topic % 65536 + length payload + 2
              else 2 + length topic % 65536 + length payload)
            % 2 ^ 32
          < 16384
    rest true h = omega arith
    rest false h = omega arith

-- A lower QoS takes no more room.
Forwardable-lower :
    (topic payload qos q : ℕ)
    → q ≤ qos
    → Forwardable topic payload qos
    → Forwardable topic payload q
Forwardable-lower topic payload qos q l h = ground arith

abbrev pub Done : Broker → Type 0
Done b = Unit {0}

pub send_packet-Returns :
    (b : Broker) (ci : ℕ) (pkt : Bytes)
    → length pkt ≤ buf_size
    → Returns Done (send_packet b ci pkt)
unfolding send_packet
send_packet-Returns b ci pkt h =
    let fits : ltb buf_size (length pkt) ≡ false = ground arith in rw fits tt

deliver-Returns :
    (b : Broker) (s : Sub) (topic payload : Bytes) (qos retain : ℕ)
    → Forwardable (length topic) (length payload) qos
    → Returns Done (deliver b s topic payload qos retain)
unfolding deliver
deliver-Returns b s topic payload qos retain h =
    let q : ℕ = if ltb qos s.qos then qos else s.qos in
    let (pid, b') = prepare_out b s.client_idx q in
    send_packet-Returns b' s.client_idx (enc_publish topic payload q retain pid) (
      enc_publish-fits topic payload q retain pid
        (Forwardable-lower (length topic) (length payload) qos q (ground arith) h))

pub forward_subs-Returns :
    (subs : List Sub) (b : Broker) (from : Option ℕ) (topic payload : Bytes) (qos retain : ℕ)
    → Forwardable (length topic) (length payload) qos
    → Returns Done (forward_subs subs b from topic payload qos retain)
unfolding forward_subs
forward_subs-Returns [] b from topic payload qos retain h = tt
forward_subs-Returns (s ∷ subs) b from topic payload qos retain h =
    Returns-bind Done Done _ (λ b'. forward_subs subs b' from topic payload qos retain)
      (each (wants b from topic s))
      (λ b' _. forward_subs-Returns subs b' from topic payload qos retain h)
  where
    each : (t : Bool) → Returns Done (if t then deliver b s topic payload qos retain else some b)
    each true = deliver-Returns b s topic payload qos retain h
    each false = tt

pub forward-Returns :
    (b : Broker) (from : Option ℕ) (topic payload : Bytes) (qos retain : ℕ)
    → Forwardable (length topic) (length payload) qos
    → Returns Done (forward b from topic payload qos retain)
unfolding forward
forward-Returns b from topic payload qos retain h =
    Returns-bind Done Done (forward_subs b.subs b from topic payload qos retain)
      (λ b'. some (record b' { retained = retain_message b'.retained topic payload qos retain }))
      (forward_subs-Returns b.subs b from topic payload qos retain h) (λ b' _. tt)

length-c_str : (s : Bytes) → length (c_str s) ≤ length s
unfolding c_str
length-c_str [] = omega arith
length-c_str (c ∷ s) = ground (arith, length-c_str s)

pub length-copy_str : (size : ℕ) (s : Bytes) → length (copy_str size s) ≤ length s
length-copy_str size s = omega (arith, length-c_str (take (size - 1) s), length-take (size - 1) s)

pub length-copy_str_bound : (size : ℕ) (s : Bytes) → length (copy_str size s) ≤ size - 1
length-copy_str_bound size s =
    omega (arith, length-c_str (take (size - 1) s), length-take {A = ℕ} (size - 1) s)

pub length-read_str_copy :
    (p : Bytes) (off len size : ℕ) (s : Bytes) (o : ℕ)
    → read_str_copy p off len size ≡ some (s, o)
    → length s ≤ size - 1
unfolding read_str_copy
length-read_str_copy p off len size s o e = at (read_str p off len) e
  where
    same : (u : Bytes) (n : ℕ) → ◌≡◌ {A = Option (Bytes × ℕ)} (some (u, n)) (some (s, o)) → u ≡ s
    same u n q = cc

    at :
        (r : Option (Bytes × ℕ))
        → ◌>>=◌ {B = Bytes × ℕ} r (λ x. some (copy_str size x.0, x.1)) ≡ some (s, o)
        → length s ≤ size - 1
    at none q = absurd (cc)
    at (some (t, n)) q =
        subst (λ (u : Bytes). length u ≤ size - 1) (same (copy_str size t) n q)
          (length-copy_str_bound size t)

-- A run that does not fault, with what holds of its result where it does not fault.
pub Returns-Ensures :
    {A : Type 0} (P Q : A → Type 0) (r : Option A) → Returns P r → Ensures Q r → Returns Q r
Returns-Ensures P Q none h k = h
Returns-Ensures P Q (some a) h k = k
