-- ===== src/Base/Faults.antt =====
-- Computations that may fault. `none` stands for undefined behaviour of the source: an access past the
-- end of an array.
use mathlib.Core.Path.{◌≡◌, refl, subst}
use mathlib.Core.Bool.{Bool, true, false}
use mathlib.Core.Logic.{◌⊎◌, inl, inr}
use mathlib.Core.Option.{Option, none, some}
use arbor_mq.Base.Tests.{if◌then◌else◌}

infixl 5 ◌>>=◌
abbrev pub ◌>>=◌ {ℓ κ} : {A : Type ℓ} {B : Type κ} → Option A → (A → Option B) → Option B
none >>= f = none
some a >>= f = f a

-- The computation does not fault, and its result satisfies `P`.
abbrev pub Returns {ℓ} : {A : Type ℓ} → (A → Type 0) → Option A → Type 0
Returns P none = ⊥
Returns P (some a) = P a

-- If the computation does not fault, its result satisfies `P`.
abbrev pub Ensures {ℓ} : {A : Type ℓ} → (A → Type 0) → Option A → Type 0
Ensures P none = Unit {0}
Ensures P (some a) = P a

module _ {ℓ} {A : Type ℓ} where
  pub Returns-weaken :
      (P Q : A → Type 0) (r : Option A) → ((a : A) → P a → Q a) → Returns P r → Returns Q r
  Returns-weaken P Q none f h = h
  Returns-weaken P Q (some a) f h = f a h

  pub Ensures-weaken :
      (P Q : A → Type 0) (r : Option A) → ((a : A) → P a → Q a) → Ensures P r → Ensures Q r
  Ensures-weaken P Q none f h = tt
  Ensures-weaken P Q (some a) f h = f a h

  pub Returns→Ensures : (P : A → Type 0) (r : Option A) → Returns P r → Ensures P r
  Returns→Ensures P none h = tt
  Returns→Ensures P (some a) h = h

  -- A run that does not fault, with what holds of its result where it does not fault.
  pub Returns-both :
      (P Q : A → Type 0) (r : Option A) → Returns P r → Ensures Q r → Returns (λ a. P a × Q a) r
  Returns-both P Q none h k = h
  Returns-both P Q (some a) h k = (h, k)

  pub Returns-value : (P : A → Type 0) (r : Option A) → Returns P r → (a : A) × (r ≡ some a) × P a
  Returns-value P none h = absurd h
  Returns-value P (some a) h = (a, refl, h)

  pub Returns-at : (P : A → Type 0) (r : Option A) (a : A) → r ≡ some a → Returns P r → P a
  Returns-at P none a e h = absurd h
  Returns-at P (some b) a e h = subst P (cc) h

  pub Ensures-value : (P : A → Type 0) (r : Option A) (a : A) → r ≡ some a → Ensures P r → P a
  Ensures-value P none a e h = absurd (none-ne-some e)
    where
      none-ne-some : ◌≡◌ {A = Option A} none (some a) → ⊥
      none-ne-some q = cc
  Ensures-value P (some b) a e h = subst P (cc) h

module _ {ℓ} {A : Type ℓ} where
  pub Ensures-if :
      (t : Bool) (P : A → Type 0) (x y : Option A)
      → Ensures P x
      → Ensures P y
      → Ensures P (if t then x else y)
  Ensures-if true P x y p q = p
  Ensures-if false P x y p q = q

module _ {ℓ κ} {A : Type ℓ} {B : Type κ} where
  pub Returns-bind :
      (P : A → Type 0) (Q : B → Type 0) (r : Option A) (f : A → Option B)
      → Returns P r
      → ((a : A) → P a → Returns Q (f a))
      → Returns Q (r >>= f)
  Returns-bind P Q none f h k = h
  Returns-bind P Q (some a) f h k = k a h

  pub Ensures-bind :
      (P : A → Type 0) (Q : B → Type 0) (r : Option A) (f : A → Option B)
      → Ensures P r
      → ((a : A) → P a → Ensures Q (f a))
      → Ensures Q (r >>= f)
  Ensures-bind P Q none f h k = tt
  Ensures-bind P Q (some a) f h k = k a h

-- The computation does not fault and its result satisfies `P`, or it faults with the reason `D`.
abbrev pub ReturnsUnless {ℓ} : {A : Type ℓ} → (A → Type 0) → Type 0 → Option A → Type ℓ
ReturnsUnless P D r = Returns P r ⊎ (D × (r ≡ none))

module _ {ℓ} {A : Type ℓ} where
  pub ReturnsUnless-weaken :
      (P Q : A → Type 0) (D E : Type 0) (r : Option A)
      → ((a : A) → P a → Q a)
      → (D → E)
      → ReturnsUnless P D r
      → ReturnsUnless Q E r
  ReturnsUnless-weaken P Q D E r f g (inl h) = inl (Returns-weaken P Q r f h)
  ReturnsUnless-weaken P Q D E r f g (inr (d, e)) = inr (g d, e)

module _ {ℓ κ} {A : Type ℓ} {B : Type κ} where
  pub ReturnsUnless-bind :
      (P : A → Type 0) (Q : B → Type 0) (D : Type 0) (r : Option A) (f : A → Option B)
      → ReturnsUnless P D r
      → ((a : A) → r ≡ some a → P a → ReturnsUnless Q D (f a))
      → ReturnsUnless Q D (r >>= f)
  ReturnsUnless-bind P Q D none f (inl h) k = absurd h
  ReturnsUnless-bind P Q D none f (inr (d, e)) k = inr (d, refl)
  ReturnsUnless-bind P Q D (some a) f (inl h) k = k a refl h
  ReturnsUnless-bind P Q D (some a) f (inr (d, e)) k = absurd (cc)
