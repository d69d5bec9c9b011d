-- ===== src/Leaf/Connect/ReadBack.antt =====
-- leaf_codec.h, lines 63 to 119, and branch_codec.h, lines 143 to 193: the broker reads the CONNECT
-- packets that the client library encodes.
use arbor_mq.Base.{
  ℕ, suc, ◌+◌, ◌%◌, ◌<◌, ◌≡◌, refl, ap, ◌∙◌, true, some, [], ◌∷◌, ◌++◌, append_assoc, ◌==◌,
  if◌then◌else◌, Bytes, length, length-append, list_eq_self, drop, drop-append_self, drop_past, shl,
  shr, arith,
}
use arbor_mq.Wire.{write_u8, write_u16, encode_remaining}
use arbor_mq.Wire.Fields.{
  u16, read_u8-drop, read_u16-drop, read_str-drop, read_str_copy-drop, write_str-append,
}
use arbor_mq.Packet.{t_pkt_connect}
use arbor_mq.Broker.State.{Client, max_client_id}
use arbor_mq.Broker.Connect.{bit, read_connect}
use arbor_mq.Leaf.State.{Config}
use arbor_mq.Leaf.Connect.{
  is_given, id_field, given_field, connect_payload, flags_of, keepalive_of, connect_rem_len,
  encode_connect,
}
use arbor_mq.Leaf.Connect.Flags.{
  flags-clean, flags-will, flags-user, flags-pass, flags-qos, flags-retain, flags-IsByte,
}
use arbor_mq.Leaf.Connect.Fields.{
  Sendable, with_will, with_username, id_field-u16, read_username-drop, read_password-drop,
  read_will-drop, will_of,
}

abbrev mqtt : Bytes
mqtt = b'M' ∷ b'Q' ∷ b'T' ∷ b'T' ∷ []

abbrev pub connect_head : Config → Bytes
connect_head cfg = shl t_pkt_connect 4 % 256 ∷ encode_remaining (connect_rem_len cfg)

abbrev texts : Config → Bytes → Bytes
texts cfg rest =
    will_of cfg.will_topic cfg.will_payload cfg.will_payload_len
    ++ (given_field cfg.username ++ (given_field cfg.password ++ rest))

-- The packet behind its fixed header, and what follows it.
abbrev connect_body : Config → Bytes → Bytes
connect_body cfg rest =
    u16 4
    ++ (mqtt
        ++ (4
            ∷ flags_of cfg % 256
            ∷ (u16 (keepalive_of cfg) ++ (id_field cfg.client_id ++ texts cfg rest))))

encode_connect-parts :
    (cfg : Config) (rest : Bytes)
    → encode_connect cfg ++ rest ≡ connect_head cfg ++ connect_body cfg rest
unfolding encode_connect write_u8 write_u16 connect_payload
encode_connect-parts cfg rest =
    rw (write_str-append (connect_head cfg) mqtt (omega arith)) (simp append_assoc)

length-texts :
    (cfg : Config) (rest : Bytes)
    → length (texts cfg rest)
      ≡ length (will_of cfg.will_topic cfg.will_payload cfg.will_payload_len)
        + length (given_field cfg.username)
        + length (given_field cfg.password)
        + length rest
length-texts cfg rest =
    let w = will_of cfg.will_topic cfg.will_payload cfg.will_payload_len in
    let u = given_field cfg.username in
    let p = given_field cfg.password in
    omega
      (arith, length-append w (u ++ (p ++ rest)), length-append u (p ++ rest), length-append p rest)

pub length-encode_connect :
    (cfg : Config)
    → length (encode_connect cfg)
      ≡ length (connect_head cfg)
        + 12
        + length cfg.client_id
        + length (will_of cfg.will_topic cfg.will_payload cfg.will_payload_len)
        + length (given_field cfg.username)
        + length (given_field cfg.password)
length-encode_connect cfg =
    let parts = ap length (encode_connect-parts cfg []) in
    omega (
      arith,
      parts,
      length-append (encode_connect cfg) [],
      length-append (connect_head cfg) (connect_body cfg []),
      length-append cfg.client_id (texts cfg []),
      length-texts cfg [],
    )

-- The fields of the packet, read one after the other.
connect_body-read :
    (buf rest : Bytes) (cfg : Config) (off len : ℕ) (c : Client)
    → Sendable cfg
    → drop off buf ≡ connect_body cfg rest
    → len
      ≡ off
        + 12
        + length cfg.client_id
        + length (will_of cfg.will_topic cfg.will_payload cfg.will_payload_len)
        + length (given_field cfg.username)
        + length (given_field cfg.password)
    → read_connect buf off len c ≡ (
      with_username cfg (with_will cfg (record c { client_id = cfg.client_id })),
      some (record {
        proto_ok = true;
        level = 4;
        clean_session = cfg.clean_session;
        keepalive = keepalive_of cfg;
        password = cfg.password;
      }),
    )
unfolding read_connect
connect_body-read buf rest cfg off len c s e l =
    let id = cfg.client_id in
    let w = will_of cfg.will_topic cfg.will_payload cfg.will_payload_len in
    let u = given_field cfg.username in
    let p = given_field cfg.password in
    let fl = flags_of cfg % 256 in
    let ka = keepalive_of cfg in
    let id_on : Bytes = id_field id ++ texts cfg rest in
    let level_on : Bytes = 4 ∷ fl ∷ (u16 ka ++ id_on) in
    let at_mqtt = drop_past buf off (u16 4) (mqtt ++ level_on) e in
    let at_level = drop_past buf (off + 2) mqtt level_on at_mqtt in
    let at_flags = drop_past buf (off + 2 + 4) (4 ∷ []) (fl ∷ (u16 ka ++ id_on)) at_level in
    let at_ka = drop_past buf (off + 2 + 4 + 1) (fl ∷ []) (u16 ka ++ id_on) at_flags in
    let at_id = drop_past buf (off + 2 + 4 + 1 + 1) (u16 ka) id_on at_ka in
    let id_start =
      at_id ∙ ap (λ f. f ++ texts cfg rest) (id_field-u16 id (omega (arith, s.id_fits.0))) in
    let o5 = off + 2 + 4 + 1 + 1 + 2 + 2 + length id in
    let behind_id : off + 2 + 4 + 1 + 1 + 2 + 2 + length id
        ≡ off + 2 + 4 + 1 + 1 + 2 + length (id_field id) =
      omega arith in
    let at_will =
      ap (λ o. drop o buf) behind_id
      ∙ drop_past buf (off + 2 + 4 + 1 + 1 + 2) (id_field id) (texts cfg rest) at_id in
    let at_user = drop_past buf o5 w (u ++ (p ++ rest)) at_will in
    let at_pass = drop_past buf (o5 + length w) u (p ++ rest) at_user in
    let q = s.qos_fits in
    let clean = cfg.clean_session in
    let will = is_given cfg.will_topic in
    let ret = cfg.will_retain in
    let user = is_given cfg.username in
    let pass = is_given cfg.password in
    let qos = cfg.will_qos in
    let f : fl ≡ flags_of cfg = omega (arith, flags-IsByte clean will ret user pass qos q) in
    let named : Client = record c { client_id = id } in
    let willed : Client = with_will cfg named in
    rw
      (
        read_str-drop buf mqtt level_on off len e (omega arith) (omega (arith, l)),
        read_u8-drop buf (fl ∷ (u16 ka ++ id_on)) (off + 2 + 4) len 4 at_level (omega (arith, l)),
        read_u8-drop buf (u16 ka ++ id_on) (off + 2 + 4 + 1) len fl at_flags (omega (arith, l)),
        read_u16-drop buf id_on (off + 2 + 4 + 1 + 1) len ka at_ka
            (ka_fits cfg.keepalive_sec s.keepalive_fits) (omega (arith, l)),
        read_str_copy-drop buf id (texts cfg rest) (off + 2 + 4 + 1 + 1 + 2) len max_client_id
            id_start s.id_fits (omega arith) (omega (arith, l)),
        read_will-drop buf cfg.will_topic (u ++ (p ++ rest)) cfg.will_payload cfg.will_payload_len
            qos ret o5 len fl named
            (ap (λ x. bit x 2) f ∙ flags-will clean will ret user pass qos q)
            (ap (λ x. shr x 3 % 4) f ∙ flags-qos clean will ret user pass qos q)
            (ap (λ x. shr x 5 % 2) f ∙ flags-retain clean will ret user pass qos q) at_will
            s.topic_fits s.payload_there s.payload_fits (omega (arith, l)),
        read_username-drop buf cfg.username (p ++ rest) (o5 + length w) len fl willed
            (ap (λ x. bit x 7) f ∙ flags-user clean will ret user pass qos q) at_user
            s.username_fits (omega (arith, l)),
        read_password-drop buf cfg.password rest (o5 + length w + length u) len fl
            (with_username cfg willed)
            (ap (λ x. bit x 6) f ∙ flags-pass clean will ret user pass qos q) at_pass
            s.password_fits (omega (arith, l)),
        ap (λ x. bit x 1) f ∙ flags-clean clean will ret user pass qos q,
        list_eq_self mqtt,
      )
      refl
  where
    ka_fits : (n : ℕ) → n < 65536 → (if n == 0 then 60 else n) < 65536
    ka_fits n h = ground arith

-- The broker reads a CONNECT packet that the client library encodes as it was sent: the client id, the
-- will and the user name are stored in the client, with the will and the user name left alone where the
-- configuration has none, and the protocol, its level, the session flag, the keepalive interval and the
-- password are handed on. This holds for texts without NUL that the broker has room for, a will payload
-- of at most 512 bytes that is there, two bits of QoS and a 16-bit keepalive interval, and whatever the
-- receive buffer has behind the packet.
pub read_connect-encode_connect :
    (cfg : Config) (rest : Bytes) (c : Client)
    → Sendable cfg
    → read_connect
        (encode_connect cfg ++ rest)
        (1 + length (encode_remaining (connect_rem_len cfg)))
        (length (encode_connect cfg))
        c
      ≡ (
        with_username cfg (with_will cfg (record c { client_id = cfg.client_id })),
        some (record {
          proto_ok = true;
          level = 4;
          clean_session = cfg.clean_session;
          keepalive = keepalive_of cfg;
          password = cfg.password;
        }),
      )
read_connect-encode_connect cfg rest c s =
    let h = connect_head cfg in
    let parts = encode_connect-parts cfg rest in
    ap (λ o. read_connect (encode_connect cfg ++ rest) o (length (encode_connect cfg)) c)
      (start (length (encode_remaining (connect_rem_len cfg))))
    ∙ connect_body-read (encode_connect cfg ++ rest) rest cfg (length h)
        (length (encode_connect cfg)) c s
        (ap (drop (length h)) parts ∙ drop-append_self h (connect_body cfg rest))
        (length-encode_connect cfg)
  where
    start : (n : ℕ) → 1 + n ≡ suc n
    start n = omega arith
