-- ===== src/Wire/Short.antt =====
-- branch_codec.h, lines 52 to 63: how many bytes a remaining length takes.
use arbor_mq.Base.{
  ℕ, ◌+◌, ◌*◌, ◌/◌, ◌≤◌, ◌<◌, ◌≡◌, sym, ◌∙◌, Bool, true, false, some, leb, if◌then◌else◌, length,
  Bytes, shl, low_bits, bit_or, bit_or-shl_right, arith,
}
use arbor_mq.Wire.{byte_at, continues, encode_remaining, decode_loop, decode_end, decode_remaining}
use arbor_mq.Wire.Remaining.{
  encode_loop_step, encode_loop_short, Bounded, decode_loop_bounds, decode_remaining_lem,
}

decode_end_at :
    (b : Bytes) (len i v n w : ℕ) → decode_end b len (i, v) ≡ some (n, w) → (n ≡ i + 1) × (w ≡ v)
decode_end_at b len i v n w e = ground arith

later_end :
    (b : Bytes) (len v : ℕ) (r : ℕ × ℕ) → Bounded 1 3 r → decode_end b len r ≡ some (1, v) → ⊥
later_end b len v (i, w) h e = omega (arith, h, decode_end_at b len i w 1 v e)

-- A field of one byte has seven bits.
pub decode_remaining_one : (b : Bytes) (len v : ℕ) → decode_remaining b len ≡ some (1, v) → v < 128
unfolding decode_loop
decode_remaining_one b len v e =
    at (leb len 0) (continues (byte_at b 0)) (sym (decode_remaining_lem b len) ∙ e)
  where
    small : bit_or 0 (shl (low_bits (byte_at b 0) 7) (7 * 0)) < 128
    small = omega (arith, bit_or-shl_right 0 0 (low_bits (byte_at b 0) 7) (omega arith))

    at :
        (t u : Bool)
        → decode_end b len (
            if t
            then (0, 0)
            else if u
            then decode_loop 3 b len (0 + 1) (bit_or 0 (shl (low_bits (byte_at b 0) 7) (7 * 0)))
            else (0, bit_or 0 (shl (low_bits (byte_at b 0) 7) (7 * 0))))
          ≡ some (1, v)
        → v < 128
    at true u e = omega (arith, decode_end_at b len 0 0 1 v e)
    at false true e = absurd (
        later_end b len v
          (decode_loop 3 b len 1 (bit_or 0 (shl (low_bits (byte_at b 0) 7) (7 * 0))))
          (decode_loop_bounds 3 b len 1 (bit_or 0 (shl (low_bits (byte_at b 0) 7) (7 * 0))) (small))
          e)
    at false false e = omega (
      arith,
      decode_end_at b len 0 (bit_or 0 (shl (low_bits (byte_at b 0) 7) (7 * 0))) 1 v e,
      small,
    )

-- Two bytes are enough for fourteen bits.
pub length-encode_remaining_two : (v : ℕ) → v < 16384 → length (encode_remaining v) ≤ 2
unfolding encode_remaining
length-encode_remaining_two v h = ground (
  arith,
  encode_loop_step 4 v,
  encode_loop_step 3 (v / 128),
  encode_loop_short 3 (v / 128) (omega arith),
)
