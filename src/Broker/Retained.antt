-- ===== src/Broker/Retained.antt =====
-- branch_broker.h, lines 123 to 145: the retained messages as a map from topics to messages.
pub mod Message
use arbor_mq.Base.{
  ℕ, zero, suc, ◌<◌, ◌≡◌, ◌≢◌, refl, sym, ap, ◌∙◌, Bool, true, false, not, ◌&&◌, Option, none, some,
  List, [], ◌∷◌, ◌==◌, if◌then◌else◌, set, Bytes, list_eq, list_eq→eq, list_eq_self, Bool-cases,
  arith, ◌⊎◌, inl, inr,
}
use arbor_mq.Broker.State.{Retained}
use arbor_mq.Broker.Tables.{find_index, find_retained, find_free_retained}
use arbor_mq.Broker.Forward.{
  unused_retained, retained_at, store_retained, clear_at, store_at, or_else, retain_message,
}
use arbor_mq.Broker.Search.{find_index_cons, find_index_cons_none}

true_ne_false : true ≡ false → ⊥
true_ne_false q = cc

abbrev is_topic : Bytes → Retained → Bool
is_topic topic r = r.used && list_eq r.topic topic

-- The map that the table stands for: the message of a topic, its payload and its QoS.
unfoldable pub lookup : List Retained → Bytes → Option (Bytes × ℕ)
lookup [] topic = none
lookup (r ∷ rs) topic = if is_topic topic r then some (r.payload, r.qos) else lookup rs topic

-- No two used entries have one topic.
abbrev pub UniqueTopics : List Retained → Type 0
UniqueTopics [] = Unit {0}
UniqueTopics (r ∷ rs) = (r.used ≡ true → lookup rs r.topic ≡ none) × UniqueTopics rs

lookup_here :
    (r : Retained) (rs : List Retained) (t : Bytes)
    → is_topic t r ≡ true
    → lookup (r ∷ rs) t ≡ some (r.payload, r.qos)
unfolding lookup
lookup_here r rs t h = rw (h) refl

lookup_later :
    (r : Retained) (rs : List Retained) (t : Bytes)
    → is_topic t r ≡ false
    → lookup (r ∷ rs) t ≡ lookup rs t
unfolding lookup
lookup_later r rs t h = rw (h) refl

-- What writing an entry for a topic does to the map.
abbrev Writes : Bytes → List Retained → List Retained → Option (Bytes × ℕ) → Type 0
Writes topic rs rs' m = (t : Bytes) → lookup rs' t ≡ (if list_eq topic t then m else lookup rs t)

-- A table that does not have the topic does not give a message for it.
find_retained-none :
    (rs : List Retained) (topic : Bytes) → find_retained rs topic ≡ none → lookup rs topic ≡ none
unfolding find_retained lookup
find_retained-none [] topic e = refl
find_retained-none (r ∷ rs) topic e =
    let (h, e') = find_index_cons_none (is_topic topic) r rs e in
    lookup_later r rs topic h ∙ find_retained-none rs topic e'

-- The entry is unused, or it is for the topic.
abbrev OnlyFor : Bytes → Retained → Type 0
OnlyFor topic r = (t : Bytes) → is_topic t r ≡ true → topic ≡ t

unused-OnlyFor : (topic : Bytes) (r : Retained) → r.used ≡ false → OnlyFor topic r
unused-OnlyFor topic r h t e = ground arith

topic-OnlyFor : (topic : Bytes) (r : Retained) → list_eq r.topic topic ≡ true → OnlyFor topic r
topic-OnlyFor topic r h t e = sym (list_eq→eq r.topic topic h) ∙ list_eq→eq r.topic t (ground arith)

list_eq-other : (xs ys : Bytes) → list_eq xs ys ≡ false → xs ≢ ys
list_eq-other xs ys h e = absurd (true_ne_false (sym (list_eq_self xs) ∙ ap (list_eq xs) e ∙ h))

-- An entry is written in place.
Writes-here :
    (topic : Bytes) (r v : Retained) (rs : List Retained)
    → OnlyFor topic r
    → OnlyFor topic v
    → Writes topic (r ∷ rs) (v ∷ rs) (lookup (v ∷ rs) topic)
Writes-here topic r v rs f g t = elim (Bool-cases (list_eq topic t)) [
  | inl h ↦ rw (h) (ap (lookup (v ∷ rs)) (sym (list_eq→eq topic t h)))
  | inr h ↦ rw (h) (lookup_later v rs t (differs v g h) ∙ sym (lookup_later r rs t (differs r f h)))
]
  where
    differs : (w : Retained) → OnlyFor topic w → list_eq topic t ≡ false → is_topic t w ≡ false
    differs w k h = elim (Bool-cases (is_topic t w)) [
      | inl m ↦ absurd (list_eq-other topic t h (k t m))
      | inr m ↦ m
    ]

-- An entry behind one that is not for the topic.
Writes-later :
    (topic : Bytes) (r : Retained) (rs rs' : List Retained) (m : Option (Bytes × ℕ))
    → is_topic topic r ≡ false
    → Writes topic rs rs' m
    → Writes topic (r ∷ rs) (r ∷ rs') m
Writes-later topic r rs rs' m h w t = elim (Bool-cases (is_topic t r)) [
  | inl k ↦ rw (other k, lookup_here r rs t k, lookup_here r rs' t k) refl
  | inr k ↦ rw (lookup_later r rs t k, lookup_later r rs' t k) (w t)
]
  where
    other : is_topic t r ≡ true → list_eq topic t ≡ false
    other k = elim (Bool-cases (list_eq topic t)) [
      | inl e ↦
          absurd (true_ne_false (sym k ∙ ap (λ s. is_topic s r) (sym (list_eq→eq topic t e)) ∙ h))
      | inr e ↦ e
    ]

Writes-update :
    (topic : Bytes) (rs : List Retained) (i : ℕ) (v : Retained)
    → find_retained rs topic ≡ some i
    → v.used ≡ true
    → v.topic ≡ topic
    → Writes topic rs (set rs i v) (some (v.payload, v.qos))
unfolding find_retained
Writes-update topic [] i v e u k = absurd (unfold find_index in cc)
Writes-update topic (r ∷ rs) i v e u k = elim (find_index_cons (is_topic topic) r rs i e) [
  | inl (h, z) ↦
      rw (z, ← lookup_here v rs topic fits)
        (Writes-here topic r v rs (topic-OnlyFor topic r (ground arith))
          (topic-OnlyFor topic v named))
  | inr (h, j, z, m) ↦
      rw (z) (Writes-later topic r rs (set rs j v) _ h (Writes-update topic rs j v m u k))
]
  where
    named : list_eq v.topic topic ≡ true
    named = rw (k) (list_eq_self topic)

    fits : is_topic topic v ≡ true
    fits = rw (u) named

Writes-add :
    (topic : Bytes) (rs : List Retained) (i : ℕ) (v : Retained)
    → find_retained rs topic ≡ none
    → find_free_retained rs ≡ some i
    → v.used ≡ true
    → v.topic ≡ topic
    → Writes topic rs (set rs i v) (some (v.payload, v.qos))
unfolding find_retained find_free_retained
Writes-add topic [] i v n e u k = absurd (unfold find_index in cc)
Writes-add topic (r ∷ rs) i v n e u k = elim (find_index_cons (λ r. not r.used) r rs i e) [
  | inl (h, z) ↦
      rw (z, ← lookup_here v rs topic fits)
        (Writes-here topic r v rs (unused-OnlyFor topic r (ground arith))
          (topic-OnlyFor topic v named))
  | inr (h, j, z, m) ↦
      let (a, b) = find_index_cons_none (is_topic topic) r rs n in
      rw (z) (Writes-later topic r rs (set rs j v) _ a (Writes-add topic rs j v b m u k))
]
  where
    named : list_eq v.topic topic ≡ true
    named = rw (k) (list_eq_self topic)

    fits : is_topic topic v ≡ true
    fits = rw (u) named

Writes-clear :
    (topic : Bytes) (rs : List Retained) (i : ℕ) (v : Retained)
    → UniqueTopics rs
    → find_retained rs topic ≡ some i
    → v.used ≡ false
    → Writes topic rs (set rs i v) none
unfolding find_retained
Writes-clear topic [] i v w e u = absurd (unfold find_index in cc)
Writes-clear topic (r ∷ rs) i v w e u = elim (find_index_cons (is_topic topic) r rs i e) [
  | inl (h, z) ↦
      let gone : lookup (v ∷ rs) topic ≡ none =
        lookup_later v rs topic (ground arith)
        ∙ ap (lookup rs) (sym (list_eq→eq r.topic topic (ground arith)))
        ∙ w.0 (ground arith) in
      rw (z, ← gone)
        (Writes-here topic r v rs (topic-OnlyFor topic r (ground arith)) (unused-OnlyFor topic v u))
  | inr (h, j, z, m) ↦
      rw (z) (Writes-later topic r rs (set rs j v) _ h (Writes-clear topic rs j v w.1 m u))
]
