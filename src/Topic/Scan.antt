-- ===== src/Topic/Scan.antt =====
-- The loop of `match_topic` against a walk over levels.
use arbor_mq.Base.{
  ℕ, ◌≡◌, refl, sym, ap, subst, ◌∙◌, inl, inr, ◌≢◌, Bool, true, false, not, ◌&&◌, List, [], ◌∷◌,
  if◌then◌else◌, Bytes, list_eq, arith,
}
use native.Mathlib.Decide.{ℕ_discrete}
use arbor_mq.Topic.{skip_level, is_empty, at_end, match_topic}
use arbor_mq.Topic.Levels.{
  Level, first_level, later_levels, levels, plus_level, hash_level, IsPlain, AreLevels,
}

abbrev pub is_nil : List Level → Bool
is_nil [] = true
is_nil (l ∷ ls) = false

abbrev pub accept_level : Level → Level → List Level → Bool
accept_level f t ts = if list_eq f plus_level then not (is_empty t && is_nil ts) else list_eq f t

-- What the loop computes: `+` stands for one level, but not for an empty one at the end.
unfoldable pub accepts : List Level → List Level → Bool
accepts [] ts = is_nil ts
accepts (f ∷ fs) [] = list_eq f hash_level && is_nil fs
accepts (f ∷ fs) (t ∷ ts) =
    let rest = accepts fs ts in
    if list_eq f hash_level && is_nil fs then true else if accept_level f t ts then rest else false

first_level-skip_level : (t : Bytes) → first_level (skip_level t) ≡ []
unfolding first_level skip_level
first_level-skip_level [] = refl
first_level-skip_level (c ∷ t) = ground (arith, first_level-skip_level t)

later_levels-skip_level : (t : Bytes) → later_levels (skip_level t) ≡ later_levels t
unfolding later_levels skip_level
later_levels-skip_level [] = refl
later_levels-skip_level (c ∷ t) = ground (arith, later_levels-skip_level t)

-- Inside a level that has no wildcard the loop compares the rest of the level, then the levels
-- behind it.
abbrev Inside : Bytes → Type 0
Inside f =
    (t : Bytes)
    → IsPlain (first_level f)
    → AreLevels (later_levels f)
    → match_topic f t ≡ (
        if list_eq (first_level f) (first_level t)
        then accepts (later_levels f) (later_levels t)
        else false)

-- At the start of a level it compares all levels.
abbrev AtStart : Bytes → Type 0
AtStart f = (t : Bytes) → AreLevels (levels f) → match_topic f t ≡ accepts (levels f) (levels t)

Inside-nil : Inside []
unfolding match_topic at_end accepts first_level later_levels list_eq
Inside-nil [] p v = refl
Inside-nil (c ∷ t) p v = ground arith

-- `/#` behind an exhausted topic.
slash_at_end :
    (f : Bytes)
    → at_end (b'/' ∷ f) [] ≡ (list_eq (first_level f) hash_level && is_nil (later_levels f))
unfolding at_end first_level later_levels list_eq
slash_at_end [] = refl
slash_at_end (c ∷ []) = ground arith
slash_at_end (c ∷ d ∷ f) = ground arith

Inside-slash : (f : Bytes) → AtStart f → Inside (b'/' ∷ f)
unfolding match_topic accepts first_level later_levels list_eq
Inside-slash f start [] p v = slash_at_end f
Inside-slash f start (c ∷ t) p v = ground (arith, start t)

Inside-byte : (c : ℕ) (f : Bytes) → c ≢ b'/' → Inside f → Inside (c ∷ f)
unfolding match_topic at_end first_level later_levels list_eq
Inside-byte c f h inside [] p v = ground arith
Inside-byte c f h inside (d ∷ t) p v = ground (arith, inside t)

pub plain-ne-hash : (l : Level) → IsPlain l → list_eq l hash_level ≡ false
unfolding list_eq
plain-ne-hash [] p = refl
plain-ne-hash (c ∷ l) p = ground arith

pub plain-ne-plus : (l : Level) → IsPlain l → list_eq l plus_level ≡ false
unfolding list_eq
plain-ne-plus [] p = refl
plain-ne-plus (c ∷ l) p = ground arith

AtStart_plain :
    (f t : Bytes)
    → Inside f
    → IsPlain (first_level f)
    → AreLevels (later_levels f)
    → match_topic f t ≡ accepts (levels f) (levels t)
unfolding accepts
AtStart_plain f t inside p v =
    inside t p v ∙ rw (plain-ne-hash (first_level f) p, plain-ne-plus (first_level f) p)

only_empty : (f : Bytes) → first_level f ≡ [] → later_levels f ≡ [] → f ≡ []
unfolding first_level later_levels
only_empty [] e e' = refl
only_empty (c ∷ f) e e' = ground arith

only_hash : (f : Bytes) → first_level f ≡ hash_level → later_levels f ≡ [] → f ≡ hash_level
unfolding first_level later_levels
only_hash [] e e' = cc
only_hash (c ∷ f) e e' = ground (arith, only_empty f)

match_topic-hash : (t : Bytes) → match_topic hash_level t ≡ true
unfolding match_topic at_end
match_topic-hash [] = refl
match_topic-hash (c ∷ t) = refl

AtStart_hash :
    (f t : Bytes)
    → first_level f ≡ hash_level
    → later_levels f ≡ []
    → match_topic f t ≡ accepts (levels f) (levels t)
unfolding accepts first_level later_levels list_eq
AtStart_hash f t e e' = rw (only_hash f e e', match_topic-hash t)

plus_first :
    (c : ℕ) (f : Bytes) → first_level (c ∷ f) ≡ plus_level → (c ≡ b'+') × (first_level f ≡ [])
unfolding first_level
plus_first c f e = ground arith

AtStart_plus :
    (f t : Bytes)
    → Inside f
    → first_level f ≡ []
    → AreLevels (later_levels f)
    → match_topic (b'+' ∷ f) t ≡ accepts (levels (b'+' ∷ f)) (levels t)
unfolding match_topic first_level later_levels accepts list_eq at_end
AtStart_plus f [] inside e v = ground arith
AtStart_plus [] (d ∷ t) inside e v =
    ground (arith, first_level-skip_level (d ∷ t), later_levels-skip_level (d ∷ t))
AtStart_plus (g ∷ f) (d ∷ t) inside e v = ground (
  arith,
  inside (skip_level (d ∷ t)),
  first_level-skip_level (d ∷ t),
  later_levels-skip_level (d ∷ t),
)

AtStart-nil : AtStart []
unfolding first_level later_levels
AtStart-nil t (inl plain, v) = AtStart_plain [] t Inside-nil plain v
AtStart-nil t (inr (inl e), v) = absurd (cc)
AtStart-nil t (inr (inr (e, e')), v) = absurd (cc)

later_levels-plus : (f : Bytes) → later_levels (b'+' ∷ f) ≡ later_levels f
unfolding later_levels
later_levels-plus f = refl

AtStart-cons : (c : ℕ) (f : Bytes) → Inside (c ∷ f) → Inside f → AtStart (c ∷ f)
AtStart-cons c f here next t (inl plain, v) = AtStart_plain (c ∷ f) t here plain v
AtStart-cons c f here next t (inr (inr (e, e')), v) = AtStart_hash (c ∷ f) t e e'
AtStart-cons c f here next t (inr (inl e), v) =
    let (hc, hf) = plus_first c f e in
    rw hc (
      AtStart_plus f t next hf
        (subst AreLevels (ap (λ (d : ℕ). later_levels (d ∷ f)) hc ∙ later_levels-plus f) v))

Inside-cons : (c : ℕ) (f : Bytes) → Inside f → AtStart f → Inside (c ∷ f)
Inside-cons c f inside start = elim (ℕ_discrete c b'/') [
  | yes e ↦ subst (λ d. Inside (d ∷ f)) (sym e) (Inside-slash f start)
  | no n ↦ Inside-byte c f n inside
]

scan_levels : (f : Bytes) → Inside f × AtStart f
scan_levels [] = (Inside-nil, AtStart-nil)
scan_levels (c ∷ f) =
    let (inside, start) = scan_levels f in
    let here = Inside-cons c f inside start in (here, AtStart-cons c f here inside)

-- On a well-formed filter the loop over bytes is the walk over levels.
pub match_topic-accepts :
    (f t : Bytes) → AreLevels (levels f) → match_topic f t ≡ accepts (levels f) (levels t)
match_topic-accepts f t v = (scan_levels f).1 t v
