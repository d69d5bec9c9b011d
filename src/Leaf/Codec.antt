-- ===== src/Leaf/Codec.antt =====
-- leaf/leaf/leaf_codec.h, lines 10 to 59: the fields and the remaining length in the client library, and
-- that they are those of the broker, on which the packets of the client are built here.
use arbor_mq.Base.{
  ℕ, zero, suc, ◌+◌, ◌*◌, ◌%◌, ◌≡◌, refl, ap, ◌∙◌, ◌||◌, Option, none, some, [], ◌∷◌, ◌++◌, ltb,
  leb, ◌==◌, if◌then◌else◌, ◌>>=◌, length, take, Bytes, shl, shr, low_bits, bit_or,
}
use arbor_mq.Wire.{
  byte_at, slice, continues, read_u8, read_u16, read_str, write_u8, write_u16, write_bytes,
  write_str, encode_loop, encode_remaining, decode_loop, decode_end, decode_remaining, fhdr,
}

unfoldable pub leaf_read_u8 : Bytes → ℕ → ℕ → Option (ℕ × ℕ)
leaf_read_u8 buf off len = if leb len off then none else some (byte_at buf off, off + 1)

unfoldable pub leaf_read_u16 : Bytes → ℕ → ℕ → Option (ℕ × ℕ)
leaf_read_u16 buf off len =
    if leb len (off + 1)
    then none
    else some (bit_or (shl (byte_at buf off) 8) (byte_at buf (off + 1)), off + 2)

unfoldable pub leaf_read_bytes : Bytes → ℕ → ℕ → Option (Bytes × ℕ)
leaf_read_bytes buf off len = do
  (n, start) ← leaf_read_u16 buf off len
  if ltb len (start + n) then none else some (slice buf start n, start + n)

unfoldable pub leaf_write_u8 : Bytes → ℕ → Bytes
leaf_write_u8 out v = out ++ v % 256 ∷ []

unfoldable pub leaf_write_u16 : Bytes → ℕ → Bytes
leaf_write_u16 out v = out ++ shr v 8 % 256 ∷ low_bits v 8 ∷ []

unfoldable pub leaf_write_bytes : Bytes → Bytes → ℕ → Bytes
leaf_write_bytes out d n = if n == 0 then leaf_write_u16 out n else leaf_write_u16 out n ++ take n d

unfoldable pub leaf_write_str : Bytes → Bytes → Bytes
leaf_write_str out s = leaf_write_bytes out s (length s % 65536)

-- The `do` loop. A `uint32_t` has at most five groups of seven bits.
unfoldable pub leaf_encode_loop : ℕ → ℕ → Bytes
leaf_encode_loop zero val = []
leaf_encode_loop (suc rounds) val =
    let rest = leaf_encode_loop rounds (shr val 7) in
    bit_or (low_bits val 7) (if ltb 0x7f val then 0x80 else 0)
    ∷ (if shr val 7 == 0 then [] else rest)

unfoldable pub leaf_encode_remaining : ℕ → Bytes
leaf_encode_remaining val = leaf_encode_loop 5 val

-- The `for` loop with `rounds = 4 - i` rounds to go: the final `i` and `v`.
unfoldable pub leaf_decode_loop : ℕ → Bytes → ℕ → ℕ → ℕ → ℕ × ℕ
leaf_decode_loop zero buf len i v = (i, v)
leaf_decode_loop (suc rounds) buf len i v =
    let v' = bit_or v (shl (low_bits (byte_at buf i) 7) (7 * i)) in
    let more = leaf_decode_loop rounds buf len (i + 1) v' in
    if leb len i then (i, v) else if continues (byte_at buf i) then more else (i, v')

-- What stands behind the loop.
abbrev pub leaf_decode_end : Bytes → ℕ → ℕ × ℕ → Option (ℕ × ℕ)
leaf_decode_end buf len (i, v) =
    if leb len i || continues (byte_at buf i) then none else some (i + 1, v)

unfoldable pub leaf_decode_remaining : Bytes → ℕ → Option (ℕ × ℕ)
leaf_decode_remaining buf len = leaf_decode_end buf len (leaf_decode_loop 4 buf len 0 0)

-- `leaf__encode_fixed_header`
unfoldable pub leaf_encode_fixed_header : ℕ → ℕ → ℕ → Bytes
leaf_encode_fixed_header type flags rem_len =
    leaf_write_u8 [] (bit_or (shl type 4) (low_bits flags 4)) ++ leaf_encode_remaining rem_len

leaf_encode_loop-encode_loop :
    (rounds val : ℕ) → leaf_encode_loop rounds val ≡ encode_loop rounds val
unfolding leaf_encode_loop encode_loop
leaf_encode_loop-encode_loop zero val = refl
leaf_encode_loop-encode_loop (suc rounds) val =
    rw (leaf_encode_loop-encode_loop rounds (shr val 7)) refl

leaf_decode_loop-decode_loop :
    (rounds : ℕ) (buf : Bytes) (len i v : ℕ)
    → leaf_decode_loop rounds buf len i v ≡ decode_loop rounds buf len i v
unfolding leaf_decode_loop decode_loop
leaf_decode_loop-decode_loop zero buf len i v = refl
leaf_decode_loop-decode_loop (suc rounds) buf len i v =
    let v' = bit_or v (shl (low_bits (byte_at buf i) 7) (7 * i)) in
    rw (leaf_decode_loop-decode_loop rounds buf len (i + 1) v') refl

leaf_decode_end-decode_end :
    (buf : Bytes) (len : ℕ) (r : ℕ × ℕ) → leaf_decode_end buf len r ≡ decode_end buf len r
leaf_decode_end-decode_end buf len (i, v) = refl

-- The client library reads and writes its fields as the broker does.
pub readers_agree :
    (buf : Bytes) (off len : ℕ)
    → (leaf_read_u8 buf off len ≡ read_u8 buf off len)
      × (leaf_read_u16 buf off len ≡ read_u16 buf off len)
      × (leaf_read_bytes buf off len ≡ read_str buf off len)
      × (leaf_decode_remaining buf len ≡ decode_remaining buf len)
unfolding leaf_read_u8 leaf_read_u16 leaf_read_bytes leaf_decode_remaining read_u8 read_u16 read_str
    decode_remaining
readers_agree buf off len = (
  refl,
  refl,
  refl,
  ap (leaf_decode_end buf len) (leaf_decode_loop-decode_loop 4 buf len 0 0)
      ∙ leaf_decode_end-decode_end buf len (decode_loop 4 buf len 0 0),
)

pub writers_agree :
    (out s : Bytes) (v type flags : ℕ)
    → (leaf_write_u8 out v ≡ write_u8 out v)
      × (leaf_write_u16 out v ≡ write_u16 out v)
      × (leaf_write_bytes out s v ≡ write_bytes out s v)
      × (leaf_write_str out s ≡ write_str out s)
      × (leaf_encode_remaining v ≡ encode_remaining v)
      × (leaf_encode_fixed_header type flags v ≡ fhdr type flags v)
unfolding leaf_write_u8 leaf_write_u16 leaf_write_bytes leaf_write_str leaf_encode_remaining
    leaf_encode_fixed_header write_u8 write_u16 write_bytes write_str encode_remaining fhdr
writers_agree out s v type flags =
    let same = leaf_encode_loop-encode_loop 5 v in
    (refl, refl, refl, refl, same, ap (λ r. bit_or (shl type 4) (low_bits flags 4) % 256 ∷ r) same)
