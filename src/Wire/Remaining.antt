-- ===== src/Wire/Remaining.antt =====
-- The remaining length: what the encoder writes, and that the decoder reads it back.
use arbor_mq.Base.{
  ℕ, zero, suc, ◌+◌, ◌*◌, ◌/◌, ◌%◌, ◌^◌, ◌≤◌, ◌<◌, ◌≡◌, refl, sym, ap, ◌∙◌, some, [], ◌∷◌, ◌++◌,
  ltb, if◌then◌else◌, length, All, IsByte, Bytes, low_bits, bit_or, bit_or-zero, bit_or-shl_right,
  drop, get_or_of_drop, drop_next, plus_suc, lt→ltb, arith,
}
use native.Mathlib.Nat.{div-add-mod, add-zero, le_refl}
use native.Mathlib.Numerals.{towards_suc}
use native.Mathlib.Decide.{dec_lt}
use arbor_mq.Wire.{
  byte_at, decode_end, encode_loop, encode_remaining, decode_loop, decode_remaining,
}

group_byte : (val : ℕ) → bit_or (low_bits val 7) 0x80 ≡ low_bits val 7 + 128
group_byte val = bit_or-shl_right 7 (low_bits val 7) 1 (omega arith)

-- The encoder in plain arithmetic.
pub encode_loop_step :
    (rounds val : ℕ)
    → encode_loop (suc rounds) val
      ≡ (if ltb val 128 then val ∷ [] else (val % 128 + 128) ∷ encode_loop rounds (val / 128))
unfolding encode_loop
encode_loop_step rounds val = ground (arith, group_byte val, bit_or-zero (low_bits val 7))

encode_loop-IsByte : (rounds val : ℕ) → val < 128 ^ rounds → All IsByte (encode_loop rounds val)
encode_loop-IsByte zero val h = unfold encode_loop in tt
encode_loop-IsByte (suc rounds) val h =
    rw encode_loop_step (ground (arith, encode_loop-IsByte rounds (val / 128)))

length-encode_loop : (rounds val : ℕ) → length (encode_loop rounds val) ≤ rounds
length-encode_loop zero val = unfold encode_loop in omega arith
length-encode_loop (suc rounds) val =
    rw encode_loop_step (ground (arith, length-encode_loop rounds (val / 128)))

-- Rounds beyond those that the value needs write nothing.
encode_loop_enough :
    (rounds val : ℕ)
    → val < 128 ^ suc rounds
    → encode_loop (suc (suc rounds)) val ≡ encode_loop (suc rounds) val
encode_loop_enough zero val h = ground (arith, encode_loop_step 1 val, encode_loop_step 0 val)
encode_loop_enough (suc rounds) val h = ground (
  arith,
  encode_loop_step (suc (suc rounds)) val,
  encode_loop_step (suc rounds) val,
  encode_loop_enough rounds (val / 128) (omega arith),
)

times_seven : (i : ℕ) → 7 * (i + 1) ≡ 7 * i + 7
times_seven i = omega arith

next_power : (i : ℕ) → 2 ^ (7 * (i + 1)) ≡ 128 * 2 ^ (7 * i)
next_power i = rw (times_seven i) (simp towards_suc (omega arith))

-- The lowest group of `w` and the groups above it, at bit `7 * i`.
split_group : (i w : ℕ) → w * 2 ^ (7 * i) ≡ w % 128 * 2 ^ (7 * i) + w / 128 * 2 ^ (7 * (i + 1))
split_group i w = omega (
  arith,
  ap (λ (t : ℕ). t * 2 ^ (7 * i)) (div-add-mod w 128),
  ap (λ (t : ℕ). w / 128 * t) (next_power i),
)

-- Where the loop stops, on the groups of `w` that stand at offset `i`.
abbrev Decodes : Bytes → ℕ → ℕ → ℕ → ℕ → ℕ × ℕ → Type 0
Decodes b len i size total (n, v) =
    (n + 1 ≡ i + size) × (v ≡ total) × (n < len) × (byte_at b n < 128)

decode_loop_last :
    (rounds : ℕ) (b : Bytes) (len i v w : ℕ)
    → byte_at b i ≡ w
    → w < 128
    → i < len
    → v < 2 ^ (7 * i)
    → decode_loop (suc rounds) b len i v ≡ (i, v + w * 2 ^ (7 * i))
unfolding decode_loop
decode_loop_last rounds b len i v w e hw hi hv =
    ground (arith, bit_or-shl_right (7 * i) v (low_bits (byte_at b i) 7) hv)

decode_loop_inner :
    (rounds : ℕ) (b : Bytes) (len i v g : ℕ)
    → byte_at b i ≡ g + 128
    → g < 128
    → i < len
    → v < 2 ^ (7 * i)
    → decode_loop (suc rounds) b len i v ≡ decode_loop rounds b len (i + 1) (v + g * 2 ^ (7 * i))
unfolding decode_loop
decode_loop_inner rounds b len i v g e hg hi hv =
    ground (arith, bit_or-shl_right (7 * i) v (low_bits (byte_at b i) 7) hv)

pub encode_loop_short : (rounds w : ℕ) → w < 128 → encode_loop (suc rounds) w ≡ w ∷ []
encode_loop_short rounds w h = encode_loop_step rounds w ∙ rw (lt→ltb w 128 h)

encode_loop_long :
    (rounds w : ℕ)
    → ¬ (w < 128)
    → encode_loop (suc rounds) w ≡ (w % 128 + 128) ∷ encode_loop rounds (w / 128)
encode_loop_long rounds w h = encode_loop_step rounds w ∙ ground arith

decode_short :
    (k i v w len : ℕ) (b rest : Bytes)
    → drop i b ≡ w ∷ rest
    → w < 128
    → i < len
    → v < 2 ^ (7 * i)
    → Decodes b len i 1 (v + w * 2 ^ (7 * i)) (decode_loop (suc k) b len i v)
decode_short k i v w len b rest e hw hi hv =
    let at = get_or_of_drop b i w 0 rest e in
    rw (decode_loop_last k b len i v w at hw hi hv) (refl, refl, hi, rw at hw)

sum_below : (i v g : ℕ) → v < 2 ^ (7 * i) → g < 128 → v + g * 2 ^ (7 * i) < 2 ^ (7 * (i + 1))
sum_below i v g hv hg = rw (next_power i) (grind arith)

decode_loop-encode_loop :
    (k i v w len : ℕ) (b rest : Bytes)
    → drop i b ≡ encode_loop (suc k) w ++ rest
    → w < 128 ^ suc k
    → i + length (encode_loop (suc k) w) ≤ len
    → v < 2 ^ (7 * i)
    → Decodes b len i
        (length (encode_loop (suc k) w))
        (v + w * 2 ^ (7 * i))
        (decode_loop (suc k) b len i v)
decode_loop-encode_loop zero i v w len b rest e hw hl hv =
    let short = encode_loop_short 0 w hw in
    rw short
      (decode_short 0 i v w len b rest (rw short at e) hw (omega (arith, ap length short)) hv)
decode_loop-encode_loop (suc k) i v w len b rest e hw hl hv = elim (dec_lt w 128) [
  | yes h ↦
      let short = encode_loop_short (suc k) w h in
      rw short (
        decode_short (suc k) i v w len b rest (rw short at e) h (omega (arith, ap length short)) hv)
  | no h ↦
      let long = encode_loop_long (suc k) w h in
      let e' : drop i b ≡ (w % 128 + 128) ∷ encode_loop (suc k) (w / 128) ++ rest = rw long at e in
      let low : w % 128 < 128 = omega arith in
      let (size, total, inside, last) =
        decode_loop-encode_loop k (i + 1) (v + w % 128 * 2 ^ (7 * i)) (w / 128) len b rest
          (drop_next b i _ _ e') (omega arith) (omega (arith, ap length long))
          (sum_below i v (w % 128) hv low) in
      let at = get_or_of_drop b i (w % 128 + 128) 0 _ e' in
      rw (decode_loop_inner (suc k) b len i v (w % 128) at low (omega (arith, ap length long)) hv)
        (omega (arith, size, ap length long), omega (arith, total, split_group i w), inside, last)
]

-- A value of at most 28 bits takes at most four bytes, whatever number of rounds is left.
encode_remaining_four : (val : ℕ) → val < 2 ^ 28 → encode_remaining val ≡ encode_loop 4 val
unfolding encode_remaining
encode_remaining_four val h = encode_loop_enough 3 val h

decode_end_last :
    (b : Bytes) (len size total : ℕ) (r : ℕ × ℕ)
    → Decodes b len 0 size total r
    → decode_end b len r ≡ some (size, total)
decode_end_last b len size total (n, v) (hs, hv, inside, last) = ground arith

decode_loop-encode_remaining :
    (val len : ℕ) (rest : Bytes)
    → val < 2 ^ 28
    → length (encode_remaining val) ≤ len
    → Decodes
        (encode_remaining val ++ rest)
        len
        0
        (length (encode_loop 4 val))
        (0 + val * 2 ^ (7 * 0))
        (decode_loop 4 (encode_remaining val ++ rest) len 0 0)
decode_loop-encode_remaining val len rest h hl =
    let four = encode_remaining_four val h in
    decode_loop-encode_loop 3 0 0 val len (encode_remaining val ++ rest) rest
      (ap (λ (s : Bytes). s ++ rest) four) h (omega (arith, ap length four)) (omega arith)

pub decode_remaining_lem :
    (b : Bytes) (len : ℕ) → decode_remaining b len ≡ decode_end b len (decode_loop 4 b len 0 0)
unfolding decode_remaining
decode_remaining_lem b len = refl

-- The decoder reads back every value below 2 ^ 28 that the encoder wrote, and consumes just the
-- bytes that were written, whatever follows them, if the bound `len` reaches over them.
pub decode_remaining-encode_remaining :
    (val len : ℕ) (rest : Bytes)
    → val < 2 ^ 28
    → length (encode_remaining val) ≤ len
    → decode_remaining (encode_remaining val ++ rest) len
      ≡ some (length (encode_remaining val), val)
decode_remaining-encode_remaining val len rest h hl =
    let b = encode_remaining val ++ rest in
    let read =
      decode_end_last b len _ _ (decode_loop 4 b len 0 0)
        (decode_loop-encode_remaining val len rest h hl) in
    decode_remaining_lem b len ∙ read ∙ ground (arith, ap length (encode_remaining_four val h))

-- For a `uint32_t` the encoder writes bytes, at least one and at most five.
pub encode_remaining_shape :
    (val : ℕ)
    → val < 2 ^ 32
    → All IsByte (encode_remaining val)
      × (1 ≤ length (encode_remaining val))
      × (length (encode_remaining val) ≤ 5)
unfolding encode_remaining
encode_remaining_shape val h = (
  encode_loop-IsByte 5 val (omega arith),
  rw (encode_loop_step 4 val) (ground arith),
  length-encode_loop 5 val,
)

power_le : (n i : ℕ) → 2 ^ (7 * i) ≤ 2 ^ (7 * (i + n))
power_le zero i = rw add-zero (le_refl (2 ^ (7 * i)))
power_le (suc n) i = rw (plus_suc i n) (omega (arith, next_power i, power_le n (i + 1)))

-- The loop stops within its rounds, with a value that fits the groups it may have read.
abbrev pub Bounded : ℕ → ℕ → ℕ × ℕ → Type 0
Bounded i rounds (j, v) = (i ≤ j) × (j ≤ i + rounds) × (v < 2 ^ (7 * (i + rounds)))

Bounded-step :
    (rounds : ℕ) (b : Bytes) (len i v : ℕ)
    → v < 2 ^ (7 * i)
    → (let g = low_bits (byte_at b i) 7 in
        Bounded (i + 1) rounds (decode_loop rounds b len (i + 1) (v + g * 2 ^ (7 * i))))
    → Bounded i (suc rounds) (decode_loop (suc rounds) b len i v)
unfolding decode_loop
Bounded-step rounds b len i v hv more =
    let g = low_bits (byte_at b i) 7 in
    let below = sum_below i v g hv (omega arith) in
    let up = power_le rounds (i + 1) in
    rw (plus_suc i rounds, bit_or-shl_right (7 * i) v g hv)
      (ground (arith, more, up, below, next_power i))

pub decode_loop_bounds :
    (rounds : ℕ) (b : Bytes) (len i v : ℕ)
    → v < 2 ^ (7 * i)
    → Bounded i rounds (decode_loop rounds b len i v)
decode_loop_bounds zero b len i v hv =
    unfold decode_loop in (le_refl i, rw add-zero (le_refl i), rw add-zero hv)
decode_loop_bounds (suc rounds) b len i v hv =
    let g = low_bits (byte_at b i) 7 in
    Bounded-step rounds b len i v hv (
      decode_loop_bounds rounds b len (i + 1) (v + g * 2 ^ (7 * i))
        (sum_below i v g hv (omega arith)))

decode_end_bounds :
    (b : Bytes) (len n v : ℕ) (r : ℕ × ℕ)
    → Bounded 0 4 r
    → decode_end b len r ≡ some (n, v)
    → (1 ≤ n) × (n ≤ len) × (n ≤ 5) × (v < 2 ^ 28)
decode_end_bounds b len n v (i, w) h e = ground arith

-- A field that the decoder accepts ends before the bound `len`, takes one to five bytes, and its
-- value has at most 28 bits.
pub decode_remaining_bounds :
    (b : Bytes) (len n v : ℕ)
    → decode_remaining b len ≡ some (n, v)
    → (1 ≤ n) × (n ≤ len) × (n ≤ 5) × (v < 2 ^ 28)
decode_remaining_bounds b len n v e =
    decode_end_bounds b len n v (decode_loop 4 b len 0 0)
      (decode_loop_bounds 4 b len 0 0 (omega arith)) (sym (decode_remaining_lem b len) ∙ e)
