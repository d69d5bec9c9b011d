-- ===== src/Base/Growth.antt =====
-- Lists that grow at the front, as the logs of the calls do.
use mathlib.Core.Path.{◌≡◌, refl, sym, ap, ◌∙◌}
use Prim.Native.Nat.{ℕ, zero, suc}
use arbor_mq.Base.Lists.{replicate}
use mathlib.Core.List.{List, [], ◌∷◌, ◌++◌, append_assoc}

module _ {ℓ} {A : Type ℓ} where
  -- The second list is the first behind some new entries.
  abbrev pub Grows : List A → List A → Type ℓ
  Grows xs ys = (new : List A) × (ys ≡ new ++ xs)

  pub Grows-refl : (xs : List A) → Grows xs xs
  Grows-refl xs = ([], refl)

  pub Grows-cons : (x : A) (xs ys : List A) → Grows xs ys → Grows xs (x ∷ ys)
  Grows-cons x xs ys (new, e) = (x ∷ new, ap (λ zs. x ∷ zs) e)

  pub Grows-trans : (xs ys zs : List A) → Grows xs ys → Grows ys zs → Grows xs zs
  Grows-trans xs ys zs (n, e) (m, d) =
      (m ++ n, d ∙ ap (λ us. m ++ us) e ∙ sym (append_assoc m n xs))

  -- After the entries of the first list `x` has been entered, and then others.
  abbrev pub Enters : A → List A → List A → Type ℓ
  Enters x xs zs = (ys : List A) × Grows xs ys × Grows (x ∷ ys) zs

  pub Enters-early : (x : A) (ws xs zs : List A) → Grows ws xs → Enters x xs zs → Enters x ws zs
  Enters-early x ws xs zs g (ys, p, q) = (ys, Grows-trans ws xs ys g p, q)

  pub Enters-late : (x : A) (ws xs zs : List A) → Enters x ws xs → Grows xs zs → Enters x ws zs
  Enters-late x ws xs zs (ys, p, q) g = (ys, p, Grows-trans (x ∷ ys) xs zs q g)

  pub Enters-now : (x : A) (xs : List A) → Enters x xs (x ∷ xs)
  Enters-now x xs = (xs, Grows-refl xs, Grows-refl (x ∷ xs))

  -- Equal entries may stand on either side of one more.
  pub replicate-cons :
      (n : ℕ) (x : A) (xs : List A) → replicate n x ++ (x ∷ xs) ≡ x ∷ (replicate n x ++ xs)
  replicate-cons zero x xs = refl
  replicate-cons (suc n) x xs = ap (λ ys. x ∷ ys) (replicate-cons n x xs)
