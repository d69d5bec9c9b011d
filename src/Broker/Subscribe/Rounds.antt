-- ===== src/Broker/Subscribe/Rounds.antt =====
-- branch_codec.h, lines 385 to 404: the two lists of a round of UNSUBSCRIBE, and the round.
use arbor_mq.Base.{
  ℕ, zero, suc, ◌+◌, ◌-◌, ◌≤◌, ◌<◌, ◌≡◌, ◌≢◌, refl, sym, ap, ◌∙◌, Bool, true, false, List, [], ◌∷◌,
  ltb, Bytes, length, take, set, get_or, get_or-set_ne, get_or-set_rel, get_or-set_self, length-set,
  length-take, arith,
}
use native.Mathlib.Decide.{ℕ_discrete}
use arbor_mq.Broker.State.{Sub, unused_sub}
use arbor_mq.Broker.Forward.{release_sub}
use arbor_mq.Broker.Subscribe.{swap_remove, is_for, remove_subs}

get_or-take :
    (n : ℕ) (xs : List ℕ) (i d : ℕ) → i < n → i < length xs → get_or (take n xs) i d ≡ get_or xs i d
get_or-take zero xs i d h k = absurd (omega arith)
get_or-take (suc n) [] i d h k = absurd (omega arith)
get_or-take (suc n) (x ∷ xs) zero d h k = refl
get_or-take (suc n) (x ∷ xs) (suc i) d h k = get_or-take n xs i d (omega arith) (omega arith)

pub length-swap_remove : (xs : List ℕ) (i : ℕ) → length (swap_remove xs i) ≡ length xs - 1
length-swap_remove xs i =
    let v = get_or xs (length xs - 1) 0 in
    omega (arith, length-take {A = ℕ} (length (set xs i v) - 1) (set xs i v), length-set xs i v)

-- The entries in front of the one removed stay where they are.
pub swap_remove-before :
    (xs : List ℕ) (i j : ℕ) → j < i → i < length xs → get_or (swap_remove xs i) j 0 ≡ get_or xs j 0
swap_remove-before xs i j h k =
    let v = get_or xs (length xs - 1) 0 in
    let size = length-set xs i v in
    get_or-take (length (set xs i v) - 1) (set xs i v) j 0 (omega (arith, size))
      (omega (arith, size))
    ∙ get_or-set_ne xs i j v 0 (λ e. absurd (omega (arith, e)))

-- A subscription that is not for the filter stays so when another is released.
pub release_sub-keeps :
    (f : Bytes) (subs : List Sub) (si k : ℕ)
    → is_for f (get_or subs k unused_sub) ≡ false
    → is_for f (get_or (release_sub subs si) k unused_sub) ≡ false
release_sub-keeps f subs si k h =
    get_or-set_rel (λ (x y : Sub). is_for f x ≡ false → is_for f y ≡ false) subs si k _ unused_sub
      (λ x p. p) (λ p. refl) h

-- The list has the entry.
abbrev pub Lists : ℕ → List ℕ → Type 0
Lists si indices = (k : ℕ) × (k < length indices) × (get_or indices k 0 ≡ si)

-- An entry other than the one removed stays in the list, the last one in the place of that one.
pub swap_remove-Lists :
    (xs : List ℕ) (i si : ℕ)
    → i < length xs
    → get_or xs i 0 ≢ si
    → Lists si xs
    → Lists si (swap_remove xs i)
swap_remove-Lists xs i si h n (j, k, e) = elim (ℕ_discrete j (length xs - 1)) [
  | yes q ↦
      let front : i < length xs - 1 = elim (ℕ_discrete i (length xs - 1)) [
        | yes p ↦ absurd (n (ap (λ x. get_or xs x 0) (p ∙ sym q) ∙ e))
        | no p ↦ omega (arith, h, p)
      ] in
      (
        i,
        omega (arith, shorter, front),
        kept i (omega (arith, front))
            ∙ get_or-set_self xs i v 0 h
            ∙ ap (λ x. get_or xs x 0) (sym q)
            ∙ e,
      )
  | no q ↦ (
    j,
    omega (arith, shorter, k, q),
    kept j (omega (arith, k, q))
        ∙ get_or-set_ne xs i j v 0 (λ p. n (ap (λ x. get_or xs x 0) p ∙ e))
        ∙ e,
  )
]
  where
    v : ℕ
    v = get_or xs (length xs - 1) 0

    shorter : length (swap_remove xs i) ≡ length xs - 1
    shorter = length-swap_remove xs i

    kept : (x : ℕ) → x < length xs - 1 → get_or (swap_remove xs i) x 0 ≡ get_or (set xs i v) x 0
    kept x l =
        get_or-take (length (set xs i v) - 1) (set xs i v) x 0 (omega (arith, length-set xs i v, l))
          (omega (arith, length-set xs i v, l))

-- A subscription is unused once it is released, and stays so.
pub release_sub-unused :
    (subs : List Sub) (si : ℕ) → (get_or (release_sub subs si) si unused_sub).used ≡ false
release_sub-unused [] si = refl
release_sub-unused (s ∷ subs) zero = refl
release_sub-unused (s ∷ subs) (suc si) = release_sub-unused subs si

pub release_sub-keeps_unused :
    (subs : List Sub) (si k : ℕ)
    → (get_or subs k unused_sub).used ≡ false
    → (get_or (release_sub subs si) k unused_sub).used ≡ false
release_sub-keeps_unused subs si k h =
    get_or-set_rel (λ (x y : Sub). x.used ≡ false → y.used ≡ false) subs si k _ unused_sub
      (λ x p. p) (λ p. refl) h

-- One round, by its two tests.
pub remove_subs-round :
    (P : List ℕ × List Sub → Type 0) (rounds i : ℕ) (f : Bytes) (indices : List ℕ) (subs : List Sub)
    → (length indices ≤ i → P (indices, subs))
    → (i < length indices
        → is_for f (get_or subs (get_or indices i 0) unused_sub) ≡ true
        → P (
            remove_subs rounds i f (swap_remove indices i) (release_sub subs (get_or indices i 0))))
    → (i < length indices
        → is_for f (get_or subs (get_or indices i 0) unused_sub) ≡ false
        → P (remove_subs rounds (i + 1) f indices subs))
    → P (remove_subs (suc rounds) i f indices subs)
unfolding remove_subs
remove_subs-round P rounds i f indices subs x y z =
    at (ltb i (length indices)) (is_for f (get_or subs (get_or indices i 0) unused_sub))
      (λ e. x (ground arith)) (λ e. y (ground arith)) (λ e. z (ground arith))
  where
    at :
        (t u : Bool)
        → (t ≡ false → P (indices, subs))
        → (t ≡ true
            → u ≡ true
            → P (
                remove_subs rounds i f
                  (swap_remove indices i)
                  (release_sub subs (get_or indices i 0))))
        → (t ≡ true → u ≡ false → P (remove_subs rounds (i + 1) f indices subs))
        → P (elim t [
          | false ↦ (indices, subs)
          | true ↦ elim u [
            | true ↦
                remove_subs rounds i f
                  (swap_remove indices i)
                  (release_sub subs (get_or indices i 0))
            | false ↦ remove_subs rounds (i + 1) f indices subs
          ]
        ])
    at false u x y z = x refl
    at true true x y z = y refl refl
    at true false x y z = z refl refl
