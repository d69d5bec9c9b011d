-- ===== src/Leaf/Connect/Fields.antt =====
-- leaf_codec.h, lines 67 to 100, and branch_codec.h, lines 165 to 193: the texts of a CONNECT packet, and
-- what the broker reads of them.
use arbor_mq.Base.{
  ℕ, suc, ◌+◌, ◌%◌, ◌≤◌, ◌<◌, ◌≡◌, refl, ap, sym, ◌∙◌, Bool, true, ◌&&◌, Option, some, [], ◌∷◌,
  ◌++◌, append_assoc, ltb, if◌then◌else◌, Bytes, length, length-append, take, take_all, drop,
  drop_past, shr, arith,
}
use arbor_mq.Wire.Fields.{u16, read_str-drop, read_str_copy-drop, FitsArray}
use arbor_mq.Broker.State.{Client, max_topic, max_client_id, max_will_payload}
use arbor_mq.Broker.Connect.{bit, read_will, read_username, read_password}
use arbor_mq.Leaf.State.{Config}
use arbor_mq.Leaf.Connect.{
  is_given, text_field, id_field, payload_bytes, payload_field, given_field,
}

pub text_field-u16 : (s : Bytes) → length s < 65536 → text_field s ≡ u16 (length s) ++ s
text_field-u16 s h =
    let small : length s % 65536 ≡ length s = omega arith in
    rw (small, take_all (length s) s (omega arith)) refl

pub id_field-u16 : (s : Bytes) → length s < 256 → id_field s ≡ u16 (length s) ++ s
id_field-u16 s h =
    let high : 0 ≡ shr (length s) 8 % 256 = omega arith in ap (λ b. b ∷ length s % 256 ∷ s) high

pub read_username-drop :
    (buf s rest : Bytes) (off len cf : ℕ) (c : Client)
    → bit cf 7 ≡ is_given s
    → drop off buf ≡ given_field s ++ rest
    → FitsArray 64 s
    → off + length (given_field s) ≤ len
    → read_username buf off len cf c
      ≡ ((if is_given s then record c { username = s } else c), some (off + length (given_field s)))
unfolding read_username
read_username-drop buf [] rest off len cf c t e h l = rw (t) (ap (λ o. (c, some o)) (omega arith))
read_username-drop buf (x ∷ xs) rest off len cf c t e h l =
    let field = text_field-u16 (x ∷ xs) (omega (arith, h.0)) in
    let size = ap length field in
    rw
      (
        t,
        read_str_copy-drop buf (x ∷ xs) rest off len 64 (e ∙ ap (λ f. f ++ rest) field) h
            (omega arith) (omega (arith, size)),
      )
      (ap (λ o. (record c { username = x ∷ xs }, some o)) (omega (arith, size)))

pub read_password-drop :
    (buf s rest : Bytes) (off len cf : ℕ) (c : Client)
    → bit cf 6 ≡ is_given s
    → drop off buf ≡ given_field s ++ rest
    → FitsArray 64 s
    → off + length (given_field s) ≤ len
    → read_password buf off len cf c ≡ (c, some s)
unfolding read_password
read_password-drop buf [] rest off len cf c t e h l = rw (t) refl
read_password-drop buf (x ∷ xs) rest off len cf c t e h l =
    let field = text_field-u16 (x ∷ xs) (omega (arith, h.0)) in
    let size = ap length field in
    rw
      (
        t,
        read_str_copy-drop buf (x ∷ xs) rest off len 64 (e ∙ ap (λ f. f ++ rest) field) h
            (omega arith) (omega (arith, size)),
      )
      refl

-- What the client library can send: texts without NUL that the broker has room for, a will payload
-- that is there, and numbers in their ranges.
pub record Sendable (cfg : Config) : Type 0 where
  pub id_fits : FitsArray max_client_id cfg.client_id
  pub topic_fits : FitsArray max_topic cfg.will_topic
  pub payload_there :
      length (payload_bytes cfg.will_payload cfg.will_payload_len) ≡ cfg.will_payload_len
  pub payload_fits : cfg.will_payload_len ≤ max_will_payload
  pub qos_fits : cfg.will_qos < 4
  pub username_fits : FitsArray 64 cfg.username
  pub password_fits : FitsArray 64 cfg.password
  pub keepalive_fits : cfg.keepalive_sec < 65536

-- What the broker knows of the will, and of the user, of a client with this configuration.
abbrev pub with_will : Config → Client → Client
with_will cfg c =
    if is_given cfg.will_topic
    then record c {
      will_topic = cfg.will_topic;
      will_payload = payload_bytes cfg.will_payload cfg.will_payload_len;
      will_qos = cfg.will_qos;
      will_retain = if cfg.will_retain then 1 else 0;
      has_will = true;
    }
    else c

abbrev pub with_username : Config → Client → Client
with_username cfg c = if is_given cfg.username then record c { username = cfg.username } else c

read_will-given :
    (buf topic w rest : Bytes) (off len cf : ℕ) (c : Client)
    → bit cf 2 ≡ true
    → drop off buf ≡ u16 (length topic) ++ (topic ++ (u16 (length w) ++ (w ++ rest)))
    → FitsArray max_topic topic
    → length w ≤ max_will_payload
    → off + 4 + length topic + length w ≤ len
    → read_will buf off len cf c ≡ (
      record c {
        will_topic = topic;
        will_payload = w;
        will_qos = shr cf 3 % 4;
        will_retain = shr cf 5 % 2;
        has_will = true;
      },
      some (off + 4 + length topic + length w),
    )
unfolding read_will
read_will-given buf topic w rest off len cf c t e h k l =
    let behind_len =
      drop_past buf off (u16 (length topic)) (topic ++ (u16 (length w) ++ (w ++ rest))) e in
    let behind_topic = drop_past buf (off + 2) topic (u16 (length w) ++ (w ++ rest)) behind_len in
    let o1 = off + 2 + length topic in
    let kept : take (if ltb (length w) 512 then length w else 512) w ≡ w =
      ap (λ n. take n w) (all (length w) k) ∙ take_all (length w) w (omega arith) in
    rw
      (
        t,
        read_str_copy-drop buf topic (u16 (length w) ++ (w ++ rest)) off len max_topic e h
            (omega arith) (omega arith),
        read_str-drop buf w rest o1 len behind_topic (omega arith) (omega arith),
        kept,
      )
      (ap
        (λ o. (
          record c {
            will_topic = topic;
            will_payload = w;
            will_qos = shr cf 3 % 4;
            will_retain = shr cf 5 % 2;
            has_will = true;
          },
          some o,
        ))
        (omega arith))
  where
    all : (n : ℕ) → n ≤ 512 → (if ltb n 512 then n else 512) ≡ n
    all n k = ground arith

abbrev pub will_of : Bytes → Option Bytes → ℕ → Bytes
will_of topic p n = if is_given topic then text_field topic ++ payload_field p n else []

abbrev with_will_of : Bytes → Option Bytes → ℕ → ℕ → Bool → Client → Client
with_will_of topic p n qos retain c =
    if is_given topic
    then record c {
      will_topic = topic;
      will_payload = payload_bytes p n;
      will_qos = qos;
      will_retain = if retain then 1 else 0;
      has_will = true;
    }
    else c

pub read_will-drop :
    (buf topic rest : Bytes) (p : Option Bytes) (n qos : ℕ) (retain : Bool) (off len cf : ℕ)
    (c : Client)
    → bit cf 2 ≡ is_given topic
    → shr cf 3 % 4 ≡ (if is_given topic then qos else 0)
    → shr cf 5 % 2 ≡ (if is_given topic && retain then 1 else 0)
    → drop off buf ≡ will_of topic p n ++ rest
    → FitsArray max_topic topic
    → length (payload_bytes p n) ≡ n
    → n ≤ max_will_payload
    → off + length (will_of topic p n) ≤ len
    → read_will buf off len cf c
      ≡ (with_will_of topic p n qos retain c, some (off + length (will_of topic p n)))
unfolding read_will
read_will-drop buf [] rest p n qos retain off len cf c t fq fr e h there k l =
    rw (t) (ap (λ o. (c, some o)) (omega arith))
read_will-drop buf (x ∷ xs) rest p n qos retain off len cf c t fq fr e h there k l =
    let topic = x ∷ xs in
    let w = payload_bytes p n in
    let fields : will_of topic p n ≡ u16 (length topic) ++ (topic ++ (u16 (length w) ++ w)) =
      ap (λ f. f ++ payload_field p n) (text_field-u16 topic (omega (arith, h.0)))
      ∙ ap (λ m. u16 (length topic) ++ (topic ++ (u16 m ++ w))) (sym there) in
    let size =
      ap length fields ∙ ap (λ m. suc (suc m)) (length-append topic (u16 (length w) ++ w)) in
    let start =
      e
      ∙ ap (λ f. f ++ rest) fields
      ∙ ap (λ f. u16 (length topic) ++ f) (append_assoc topic (u16 (length w) ++ w) rest) in
    let offset : off + 4 + length topic + length w ≡ off + length (will_of topic p n) =
      omega (arith, size) in
    read_will-given buf topic w rest off len cf c t start h (omega (arith, there))
      (omega (arith, size))
    ∙ ap
        (λ o. (
          record c {
            will_topic = topic;
            will_payload = w;
            will_qos = shr cf 3 % 4;
            will_retain = shr cf 5 % 2;
            has_will = true;
          },
          some o,
        ))
        offset
    ∙ rw (fq, fr) refl
