-- ===== src/Topic/Match.antt =====
-- `match_topic` against the meaning of filters.
use arbor_mq.Base.{
  ◌≡◌, refl, sym, subst, ◌∙◌, inl, inr, Bool, true, false, List, [], ◌∷◌, ◌++◌, ◌==◌, if◌then◌else◌,
  Bytes, list_eq, list_eq→eq, list_eq_self, arith, ◌↔◌,
}
use arbor_mq.Topic.{at_end, match_topic}
use arbor_mq.Topic.Levels.{
  Level, first_level, later_levels, levels, plus_level, hash_level, IsPlain, AreLevels, IsFilter,
  EndsFilled, Matches, done, hash, plus, same,
}
use arbor_mq.Topic.Scan.{accepts, is_nil, plain-ne-hash, plain-ne-plus, match_topic-accepts}

alone : (fs : List Level) → is_nil fs ≡ true → fs ≡ []
alone [] e = refl
alone (f ∷ fs) e = cc

Matches-hash : (f : Level) (fs ts : List Level) → f ≡ hash_level → fs ≡ [] → Matches (f ∷ fs) ts
Matches-hash f fs ts e e' = rw (e, e') hash

accepts-plain :
    (f t : Level) (fs ts : List Level)
    → IsPlain f
    → accepts (f ∷ fs) (t ∷ ts) ≡ true
    → (f ≡ t) × (accepts fs ts ≡ true)
unfolding accepts
accepts-plain f t fs ts p e = ground (arith, plain-ne-hash f p, plain-ne-plus f p, list_eq→eq f t)

accepts-plus :
    (t : Level) (fs ts : List Level)
    → accepts (plus_level ∷ fs) (t ∷ ts) ≡ true
    → accepts fs ts ≡ true
unfolding accepts list_eq
accepts-plus t fs ts e = ground arith

accepts-nil :
    (f : Level) (fs : List Level)
    → accepts (f ∷ fs) [] ≡ true
    → (list_eq f hash_level ≡ true) × (is_nil fs ≡ true)
unfolding accepts
accepts-nil f fs e = ground arith

accepts-Matches : (fs ts : List Level) → AreLevels fs → accepts fs ts ≡ true → Matches fs ts
accepts-Matches [] [] v e = done
accepts-Matches [] (t ∷ ts) v e = absurd (unfold accepts in cc)
accepts-Matches (f ∷ fs) [] v e =
    let (h, k) = accepts-nil f fs e in Matches-hash f fs [] (list_eq→eq f _ h) (alone fs k)
accepts-Matches (f ∷ fs) (t ∷ ts) (inl p, v) e =
    let (h, rest) = accepts-plain f t fs ts p e in
    rw h (same (subst IsPlain h p) (accepts-Matches fs ts v rest))
accepts-Matches (f ∷ fs) (t ∷ ts) (inr (inl h), v) e = rw h (
    plus (
      accepts-Matches fs ts v
        (accepts-plus t fs ts (subst (λ (g : Level). accepts (g ∷ fs) (t ∷ ts) ≡ true) h e))))
accepts-Matches (f ∷ fs) (t ∷ ts) (inr (inr (h, k)), v) e = Matches-hash f fs (t ∷ ts) h k

EndsFilled-tail : (t : Level) (ts : List Level) → EndsFilled (t ∷ ts) → EndsFilled ts
EndsFilled-tail t [] e = tt
EndsFilled-tail t (u ∷ ts) e = e

accepts-hash : (ts : List Level) → accepts (hash_level ∷ []) ts ≡ true
unfolding accepts list_eq
accepts-hash [] = refl
accepts-hash (t ∷ ts) = refl

accepts_plus_step :
    (t : Level) (fs ts : List Level)
    → EndsFilled (t ∷ ts)
    → accepts fs ts ≡ true
    → accepts (plus_level ∷ fs) (t ∷ ts) ≡ true
unfolding accepts list_eq
accepts_plus_step [] fs [] filled e = absurd (filled refl)
accepts_plus_step (c ∷ t) fs [] filled e = ground arith
accepts_plus_step t fs (u ∷ ts) filled e = ground arith

accepts_same_step :
    (t : Level) (fs ts : List Level)
    → IsPlain t
    → accepts fs ts ≡ true
    → accepts (t ∷ fs) (t ∷ ts) ≡ true
unfolding accepts
accepts_same_step t fs ts p e = ground (arith, plain-ne-hash t p, plain-ne-plus t p, list_eq_self t)

Matches-accepts : {fs ts : List Level} → Matches fs ts → EndsFilled ts → accepts fs ts ≡ true
Matches-accepts done e = unfold accepts in refl
Matches-accepts {ts} hash e = accepts-hash ts
Matches-accepts (plus {t} {fs} {ts} m) e =
    accepts_plus_step t fs ts e (Matches-accepts m (EndsFilled-tail t ts e))
Matches-accepts (same {t} {fs} {ts} p m) e =
    accepts_same_step t fs ts p (Matches-accepts m (EndsFilled-tail t ts e))

-- A topic that `match_topic` lets through a well-formed filter does match it, level by level.
pub match_topic_sound :
    (filter topic : Bytes)
    → IsFilter filter
    → match_topic filter topic ≡ true
    → Matches (levels filter) (levels topic)
match_topic_sound filter topic v e =
    accepts-Matches _ _ v (sym (match_topic-accepts filter topic v) ∙ e)

-- On a well-formed filter and a topic whose last level is not empty, `match_topic` answers true
-- exactly when the topic matches the filter, level by level.
pub match_topic_iff :
    (filter topic : Bytes)
    → IsFilter filter
    → EndsFilled (levels topic)
    → (match_topic filter topic ≡ true) ↔ Matches (levels filter) (levels topic)
match_topic_iff filter topic v filled = (
  match_topic_sound filter topic v,
  λ m. match_topic-accepts filter topic v ∙ Matches-accepts m filled,
)

first_level-IsPlain : (s p : Bytes) → IsPlain p → IsPlain (first_level (p ++ b'/' ∷ s))
unfolding first_level
first_level-IsPlain s [] h = tt
first_level-IsPlain s (c ∷ p) h = ground (arith, first_level-IsPlain s p h.1)

Matches-if :
    (b : Bool) (l m : Level) (fs ts : List Level)
    → Matches (l ∷ fs) (m ∷ ts)
    → Matches fs ts
    → Matches (if b then l ∷ fs else fs) (if b then m ∷ ts else ts)
Matches-if true l m fs ts whole rest = whole
Matches-if false l m fs ts whole rest = rest

module _ (s s' : Bytes) where
  first_level-slash : (p : Bytes) → first_level (p ++ b'/' ∷ s) ≡ first_level (p ++ b'/' ∷ s')
  unfolding first_level
  first_level-slash [] = refl
  first_level-slash (c ∷ p) = ground (arith, first_level-slash p)

  -- A level without a wildcard in front of levels that match.
  levels-step :
      (p : Bytes)
      → IsPlain p
      → Matches (later_levels (p ++ b'/' ∷ s)) (later_levels (p ++ b'/' ∷ s'))
      → Matches (levels (p ++ b'/' ∷ s)) (levels (p ++ b'/' ∷ s'))
  levels-step p h m = rw (first_level-slash p) (same (first_level-IsPlain s' p h) m)

  later_levels-slash :
      (p : Bytes)
      → IsPlain p
      → Matches (levels s) (levels s')
      → Matches (later_levels (p ++ b'/' ∷ s)) (later_levels (p ++ b'/' ∷ s'))
  unfolding later_levels
  later_levels-slash [] h m = m
  later_levels-slash (c ∷ p) h m =
      let rest = later_levels-slash p h.1 m in
      Matches-if (c == b'/') _ _ _ _ (levels-step p h.1 rest) rest

  levels-slash :
      (p : Bytes)
      → IsPlain p
      → Matches (levels s) (levels s')
      → Matches (levels (p ++ b'/' ∷ s)) (levels (p ++ b'/' ∷ s'))
  levels-slash p h m = levels-step p h (later_levels-slash p h m)

plus-empty : Matches (levels plus_level) (levels [])
unfolding first_level later_levels
plus-empty = plus done

match_topic-slash :
    (p : Bytes) → IsPlain p → match_topic (p ++ b'/' ∷ plus_level) (p ++ b'/' ∷ []) ≡ false
unfolding match_topic at_end
match_topic-slash [] h = refl
match_topic-slash (c ∷ p) h = ground (arith, match_topic-slash p h.1)

-- A filter that ends in `/+` and has no other wildcard stands for its parent with any one level
-- behind it, the empty level too; `match_topic` refuses the topic that has the empty level there.
pub match_topic_empty_level :
    (p : Bytes)
    → IsPlain p
    → (match_topic (p ++ b'/' ∷ plus_level) (p ++ b'/' ∷ []) ≡ false)
      × Matches (levels (p ++ b'/' ∷ plus_level)) (levels (p ++ b'/' ∷ []))
match_topic_empty_level p h = (match_topic-slash p h, levels-slash plus_level [] p h plus-empty)
