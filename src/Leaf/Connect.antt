-- ===== src/Leaf/Connect.antt =====
-- leaf/leaf/leaf_codec.h, lines 65 to 119: the CONNECT packet of the client library.
pub mod Flags
pub mod Fields
pub mod ReadBack
use arbor_mq.Base.{
  ℕ, ◌+◌, ◌%◌, ◌^◌, Bool, true, false, Option, none, some, [], ◌∷◌, ◌++◌, ◌==◌, if◌then◌else◌,
  Bytes, length, take, shl, shr, low_bits, bit_or,
}
use arbor_mq.Wire.{write_u8, write_u16, write_str, encode_remaining}
use arbor_mq.Packet.{t_pkt_connect}
use arbor_mq.Leaf.State.{Config, leaf_keepalive_sec}

-- `c->cfg.text && c->cfg.text[0]`
abbrev pub is_given : Bytes → Bool
is_given [] = false
is_given (c ∷ s) = true

-- A `uint16_t` length and as many bytes of the text.
abbrev pub text_field : Bytes → Bytes
text_field s = let n = length s % 65536 in shr n 8 % 256 ∷ low_bits n 8 ∷ take n s

-- The length is cut to one byte.
abbrev pub id_field : Bytes → Bytes
id_field s = 0 ∷ length s % 256 ∷ s

-- The payload is the `len` bytes at the pointer; its length field is cut to two bytes.
abbrev pub payload_bytes : Option Bytes → ℕ → Bytes
payload_bytes none len = []
payload_bytes (some p) len = if len == 0 then [] else take len p

abbrev pub payload_field : Option Bytes → ℕ → Bytes
payload_field p len = shr len 8 % 256 ∷ low_bits len 8 ∷ payload_bytes p len

abbrev pub given_field : Bytes → Bytes
given_field s = if is_given s then text_field s else []

abbrev pub will_fields : Config → Bytes
will_fields cfg =
    if is_given cfg.will_topic
    then text_field cfg.will_topic ++ payload_field cfg.will_payload cfg.will_payload_len
    else []

unfoldable pub connect_payload : Config → Bytes
connect_payload cfg =
    id_field cfg.client_id
    ++ (will_fields cfg ++ (given_field cfg.username ++ given_field cfg.password))

-- The flags of the will, of the user name and of the password are set as their fields are written.
abbrev pub with_flag : Bool → ℕ → ℕ → ℕ
with_flag true bits flags = bit_or flags bits
with_flag false bits flags = flags

abbrev pub will_flags : Bool → ℕ → Bool → ℕ → ℕ
will_flags false qos retain flags = flags
will_flags true qos retain flags =
    with_flag retain 0x20 (bit_or (bit_or flags 0x04) (shl (low_bits qos 2) 3))

unfoldable pub connect_flags : Bool → Bool → ℕ → Bool → Bool → Bool → ℕ
connect_flags clean will qos retain user pass =
    with_flag pass 0x40 (with_flag user 0x80 (will_flags will qos retain (with_flag clean 0x02 0)))

abbrev pub flags_of : Config → ℕ
flags_of cfg =
    connect_flags cfg.clean_session (is_given cfg.will_topic) cfg.will_qos cfg.will_retain
      (is_given cfg.username) (is_given cfg.password)

abbrev pub keepalive_of : Config → ℕ
keepalive_of cfg = if cfg.keepalive_sec == 0 then leaf_keepalive_sec else cfg.keepalive_sec

abbrev pub connect_rem_len : Config → ℕ
connect_rem_len cfg = (10 + length (connect_payload cfg)) % 2 ^ 32

unfoldable pub encode_connect : Config → Bytes
encode_connect cfg =
    let head = write_u8 [] (shl t_pkt_connect 4) ++ encode_remaining (connect_rem_len cfg) in
    let named = write_str head (b'M' ∷ b'Q' ∷ b'T' ∷ b'T' ∷ []) in
    write_u16 (write_u8 (write_u8 named 4) (flags_of cfg)) (keepalive_of cfg) ++ connect_payload cfg
