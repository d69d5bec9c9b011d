-- ===== src/Wire.antt =====
-- branch/branch/branch_codec.h, lines 18 to 68: reading and writing MQTT fields, and the codec of the
-- remaining length. A buffer that is read is the list of its bytes, and a pointer into it is the
-- offset; a reader that returns -1 is `none`, and otherwise gives the value and the new offset. A
-- writer appends to the bytes that stand before the offset `*off`.
pub mod Remaining
pub mod Short
pub mod Agree
pub mod Fields
use arbor_mq.Base.{
  ℕ, zero, suc, ◌+◌, ◌-◌, ◌*◌, ◌/◌, ◌%◌, ◌^◌, Bool, true, false, ◌||◌, Option, none, some, List, [],
  ◌∷◌, ◌++◌, ltb, leb, ◌==◌, if◌then◌else◌, ◌>>=◌, length, take, drop, get_or, Bytes, shl, shr,
  low_bits, bit_or,
}

-- The byte at an offset. The readers test the offset first.
abbrev pub byte_at : Bytes → ℕ → ℕ
byte_at b off = get_or b off 0

abbrev pub slice : Bytes → ℕ → ℕ → Bytes
slice b off n = take n (drop off b)

unfoldable pub read_u8 : Bytes → ℕ → ℕ → Option (ℕ × ℕ)
read_u8 b off len = if leb len off then none else some (byte_at b off, off + 1)

unfoldable pub read_u16 : Bytes → ℕ → ℕ → Option (ℕ × ℕ)
read_u16 b off len =
    if leb len (off + 1)
    then none
    else some (bit_or (shl (byte_at b off) 8) (byte_at b (off + 1)), off + 2)

-- The bytes of the string, `slen` of them, and the offset behind them.
unfoldable pub read_str : Bytes → ℕ → ℕ → Option (Bytes × ℕ)
read_str b off len = do
  (n, start) ← read_u16 b off len
  if ltb len (start + n) then none else some (slice b start n, start + n)

-- The C string that a char array holds: the bytes up to the first NUL.
unfoldable pub c_str : Bytes → Bytes
c_str [] = []
c_str (c ∷ s) = if c == 0 then [] else c ∷ c_str s

-- At most `dst_max - 1` bytes are copied, with a NUL behind them.
abbrev pub copy_str : ℕ → Bytes → Bytes
copy_str dst_max s = c_str (take (dst_max - 1) s)

unfoldable pub read_str_copy : Bytes → ℕ → ℕ → ℕ → Option (Bytes × ℕ)
read_str_copy b off len dst_max = do (s, off') ← read_str b off len; some (copy_str dst_max s, off')

unfoldable pub write_u8 : Bytes → ℕ → Bytes
write_u8 out v = out ++ v % 256 ∷ []

unfoldable pub write_u16 : Bytes → ℕ → Bytes
write_u16 out v = out ++ shr v 8 % 256 ∷ low_bits v 8 ∷ []

-- `n` is a `uint16_t`, the first `n` bytes of `d` are written.
unfoldable pub write_bytes : Bytes → Bytes → ℕ → Bytes
write_bytes out d n = if n == 0 then write_u16 out n else write_u16 out n ++ take n d

unfoldable pub write_str : Bytes → Bytes → Bytes
unfolding write_bytes write_u16
write_str out s = write_bytes out s (length s % 65536)

-- The `do` loop. A `uint32_t` has at most five groups of seven bits.
unfoldable pub encode_loop : ℕ → ℕ → Bytes
encode_loop zero val = []
encode_loop (suc rounds) val =
    let rest = encode_loop rounds (shr val 7) in
    bit_or (low_bits val 7) (if ltb 0x7f val then 0x80 else 0)
    ∷ (if shr val 7 == 0 then [] else rest)

unfoldable pub encode_remaining : ℕ → Bytes
encode_remaining val = encode_loop 5 val

-- `b[i] & 0x80`, as a test.
abbrev pub continues : ℕ → Bool
continues byte = shr byte 7 % 2 == 1

-- The `for` loop with `rounds = 4 - i` rounds to go: the final `i` and `v`. At most 28 bits are set
-- in `v`, so the shifts do not wrap.
unfoldable pub decode_loop : ℕ → Bytes → ℕ → ℕ → ℕ → ℕ × ℕ
decode_loop zero b len i v = (i, v)
decode_loop (suc rounds) b len i v =
    let v' = bit_or v (shl (low_bits (byte_at b i) 7) (7 * i)) in
    let more = decode_loop rounds b len (i + 1) v' in
    if leb len i then (i, v) else if continues (byte_at b i) then more else (i, v')

-- What stands behind the loop: the number of bytes of the field, and its value.
abbrev pub decode_end : Bytes → ℕ → ℕ × ℕ → Option (ℕ × ℕ)
decode_end b len (i, v) = if leb len i || continues (byte_at b i) then none else some (i + 1, v)

unfoldable pub decode_remaining : Bytes → ℕ → Option (ℕ × ℕ)
unfolding decode_loop
decode_remaining b len = decode_end b len (decode_loop 4 b len 0 0)

-- The fixed header; `type << 4 | flags & 0x0F` is cut to a byte.
unfoldable pub fhdr : ℕ → ℕ → ℕ → Bytes
unfolding write_u8
fhdr type flags rem = write_u8 [] (bit_or (shl type 4) (low_bits flags 4)) ++ encode_remaining rem
