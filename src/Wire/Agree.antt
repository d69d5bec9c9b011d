-- ===== src/Wire/Agree.antt =====
-- branch_codec.h, lines 52 to 63: the decoder of the remaining length under another bound.
use arbor_mq.Base.{
  ℕ, zero, suc, ◌+◌, ◌*◌, ◌≤◌, ◌≡◌, refl, sym, ◌∙◌, Bool, true, false, some, leb, if◌then◌else◌,
  Bytes, shl, low_bits, bit_or, arith,
}
use arbor_mq.Wire.{byte_at, continues, decode_end, decode_loop, decode_remaining}
use arbor_mq.Wire.Remaining.{decode_remaining_lem}

decode_end_after : (b : Bytes) (len i v n w : ℕ) → decode_end b len (i, v) ≡ some (n, w) → i + 1 ≤ n
decode_end_after b len i v n w e = ground arith

abbrev next_value : Bytes → ℕ → ℕ → ℕ
next_value b i v = bit_or v (shl (low_bits (byte_at b i) 7) (7 * i))

-- One round of the loop, by its two tests.
abbrev round_of : ℕ → Bytes → ℕ → ℕ → ℕ → Bool → Bool → ℕ × ℕ
round_of rounds b len i v past more =
    if past
    then (i, v)
    else if more
    then decode_loop rounds b len (i + 1) (next_value b i v)
    else (i, next_value b i v)

-- The field ends behind the place where the loop starts.
decode_loop_after :
    (rounds : ℕ) (b : Bytes) (len i v n w : ℕ)
    → decode_end b len (decode_loop rounds b len i v) ≡ some (n, w)
    → i + 1 ≤ n
unfolding decode_loop
decode_loop_after zero b len i v n w e = decode_end_after b len i v n w e
decode_loop_after (suc rounds) b len i v n w e =
    at (leb len i) (continues (byte_at b i))
      (decode_loop_after rounds b len (i + 1) (next_value b i v) n w) e
  where
    at :
        (past more : Bool)
        → (decode_end b len (decode_loop rounds b len (i + 1) (next_value b i v)) ≡ some (n, w)
            → i + 1 + 1 ≤ n)
        → decode_end b len (round_of rounds b len i v past more) ≡ some (n, w)
        → i + 1 ≤ n
    at true more k q = decode_end_after b len i v n w q
    at false false k q = decode_end_after b len i (next_value b i v) n w q
    at false true k q = omega (arith, k q)

decode_end_agree :
    (b : Bytes) (len len' i v n w : ℕ)
    → decode_end b len (i, v) ≡ some (n, w)
    → n ≤ len'
    → decode_end b len' (i, v) ≡ some (n, w)
decode_end_agree b len len' i v n w e h = ground arith

decode_end_past :
    (b : Bytes) (len i v n w : ℕ) → leb len i ≡ true → decode_end b len (i, v) ≡ some (n, w) → ⊥
decode_end_past b len i v n w p e = ground arith

decode_loop_agree :
    (rounds : ℕ) (b : Bytes) (len len' i v n w : ℕ)
    → decode_end b len (decode_loop rounds b len i v) ≡ some (n, w)
    → n ≤ len'
    → decode_end b len' (decode_loop rounds b len' i v) ≡ some (n, w)
unfolding decode_loop
decode_loop_agree zero b len len' i v n w e h = decode_end_agree b len len' i v n w e h
decode_loop_agree (suc rounds) b len len' i v n w e h =
    at (leb len i) (leb len' i) (continues (byte_at b i)) (λ p. p) (λ p k. absurd (ground arith))
      (λ q. decode_loop_agree rounds b len len' (i + 1) (next_value b i v) n w q h) e
  where
    at :
        (past past' more : Bool)
        → (past ≡ true → leb len i ≡ true)
        → (past' ≡ true → i + 1 ≤ n → ⊥)
        → (decode_end b len (decode_loop rounds b len (i + 1) (next_value b i v)) ≡ some (n, w)
            → decode_end b len' (decode_loop rounds b len' (i + 1) (next_value b i v))
              ≡ some (n, w))
        → decode_end b len (round_of rounds b len i v past more) ≡ some (n, w)
        → decode_end b len' (round_of rounds b len' i v past' more) ≡ some (n, w)
    at true past' more p p' k q = absurd (decode_end_past b len i v n w (p refl) q)
    at false true false p p' k q =
        absurd (p' refl (decode_end_after b len i (next_value b i v) n w q))
    at false true true p p' k q =
        let later = decode_loop_after rounds b len (i + 1) (next_value b i v) n w q in
        absurd (p' refl (omega (arith, later)))
    at false false false p p' k q = decode_end_agree b len len' i (next_value b i v) n w q h
    at false false true p p' k q = k q

-- The bound does not matter as long as the field lies within it.
pub decode_remaining_agree :
    (b : Bytes) (len len' n v : ℕ)
    → decode_remaining b len ≡ some (n, v)
    → n ≤ len'
    → decode_remaining b len' ≡ some (n, v)
decode_remaining_agree b len len' n v e h =
    decode_remaining_lem b len'
    ∙ decode_loop_agree 4 b len len' 0 0 n v (sym (decode_remaining_lem b len) ∙ e) h
