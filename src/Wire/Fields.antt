-- ===== src/Wire/Fields.antt =====
-- branch_codec.h, lines 18 to 50: a reader gives back the field that a writer wrote, wherever it stands
-- in the buffer.
use arbor_mq.Base.{
  ℕ, suc, ◌+◌, ◌-◌, ◌%◌, ◌≤◌, ◌<◌, ◌≡◌, refl, ap, ◌∙◌, false, some, [], ◌∷◌, ◌++◌, append_assoc,
  ◌==◌, Bytes, length, take_all, drop, get_or_of_drop, drop_next, drop_past, take-append_self, shr,
  low_bits, bit_or-shl_left, arith,
}
use arbor_mq.Wire.{
  read_u8, read_u16, read_str, read_str_copy, c_str, copy_str, write_u16, write_bytes, write_str,
}

-- The two bytes of a 16-bit field.
abbrev pub u16 : ℕ → Bytes
u16 v = shr v 8 % 256 ∷ low_bits v 8 ∷ []

pub read_u16-drop :
    (buf rest : Bytes) (off len v : ℕ)
    → drop off buf ≡ u16 v ++ rest
    → v < 65536
    → off + 2 ≤ len
    → read_u16 buf off len ≡ some (v, off + 2)
unfolding read_u16
read_u16-drop buf rest off len v e h k =
    let hi = get_or_of_drop buf off (shr v 8 % 256) 0 (low_bits v 8 ∷ rest) e in
    let next = drop_next buf off (shr v 8 % 256) (low_bits v 8 ∷ rest) e in
    let lo = get_or_of_drop buf (off + 1) (low_bits v 8) 0 rest next in
    rw (hi, lo) (ground (arith, bit_or-shl_left 8 (shr v 8 % 256) (low_bits v 8) (omega arith)))

pub read_str-drop :
    (buf s rest : Bytes) (off len : ℕ)
    → drop off buf ≡ u16 (length s) ++ s ++ rest
    → length s < 65536
    → off + 2 + length s ≤ len
    → read_str buf off len ≡ some (s, off + 2 + length s)
unfolding read_str
read_str-drop buf s rest off len e h k =
    let behind = drop_past buf off (u16 (length s)) (s ++ rest) e in
    rw
      (
        read_u16-drop buf (s ++ rest) off len (length s) e h (omega arith),
        behind,
        take-append_self s rest,
      )
      (ground arith)

write_bytes-all : (out s : Bytes) → write_bytes out s (length s) ≡ out ++ (u16 (length s) ++ s)
unfolding write_bytes write_u16
write_bytes-all out [] = refl
write_bytes-all out (c ∷ s) =
    rw (not_zero (length s), take_all (length (c ∷ s)) (c ∷ s) (omega arith)) (simp append_assoc)
  where
    not_zero : (n : ℕ) → (suc n == 0) ≡ false
    not_zero n = ground arith

pub write_str-append :
    (out s : Bytes) → length s < 65536 → write_str out s ≡ out ++ (u16 (length s) ++ s)
unfolding write_str
write_str-append out s h = ap (write_bytes out s) (small (length s) h) ∙ write_bytes-all out s
  where
    small : (n : ℕ) → n < 65536 → n % 65536 ≡ n
    small n k = omega arith

pub read_u8-drop :
    (buf rest : Bytes) (off len v : ℕ)
    → drop off buf ≡ v ∷ rest
    → off < len
    → read_u8 buf off len ≡ some (v, off + 1)
unfolding read_u8
read_u8-drop buf rest off len v e h = rw (get_or_of_drop buf off v 0 rest e) (ground arith)

-- A text without NUL that fits a char array.
abbrev pub FitsArray : ℕ → Bytes → Type 0
FitsArray size s = (length s < size) × (c_str s ≡ s)

pub copy_str-FitsArray : (size : ℕ) (s : Bytes) → FitsArray size s → copy_str size s ≡ s
copy_str-FitsArray size s (h, k) = ap c_str (take_all (size - 1) s (omega arith)) ∙ k

pub read_str_copy-drop :
    (buf s rest : Bytes) (off len size : ℕ)
    → drop off buf ≡ u16 (length s) ++ s ++ rest
    → FitsArray size s
    → size ≤ 65536
    → off + 2 + length s ≤ len
    → read_str_copy buf off len size ≡ some (s, off + 2 + length s)
unfolding read_str_copy
read_str_copy-drop buf s rest off len size e (h, k) z l =
    rw (read_str-drop buf s rest off len e (omega arith) l, copy_str-FitsArray size s (h, k)) refl
