-- ===== src/Broker/Retained/Message.antt =====
-- branch_broker.h, lines 123 to 145: what a published message does to the retained messages.
use arbor_mq.Base.{
  ℕ, ◌<◌, ◌≡◌, ◌≢◌, refl, sym, ap, ◌∙◌, true, false, not, ◌||◌, Option, none, some, ◌-◌, List, [],
  ◌∷◌, ◌==◌, ltb, if◌then◌else◌, length, set, take_all, Bytes, list_eq, list_eq→eq, list_eq_self,
  if_keeps, Bool-cases, Option-cases, arith, ◌⊎◌, inl, inr,
}
use arbor_mq.Broker.State.{Retained, max_topic, buf_size}
use arbor_mq.Broker.Tables.{find_index, find_retained, find_free_retained}
use arbor_mq.Broker.Forward.{
  retained_at, store_retained, clear_at, store_at, or_else, retain_message,
}
use arbor_mq.Broker.Search.{find_index_cons, find_index_cons_none}
use arbor_mq.Broker.Retained.{
  is_topic, true_ne_false, lookup, UniqueTopics, Writes, Writes-update, Writes-add, Writes-clear,
  find_retained-none,
}

-- Behind an entry for another topic, a write for the topic keeps the entry unique.
head_unique :
    (topic : Bytes) (r : Retained) (rs rs' : List Retained) (m : Option (Bytes × ℕ))
    → is_topic topic r ≡ false
    → Writes topic rs rs' m
    → (r.used ≡ true → lookup rs r.topic ≡ none)
    → r.used ≡ true
    → lookup rs' r.topic ≡ none
head_unique topic r rs rs' m h w f u = w r.topic ∙ rw (other) (f u)
  where
    other : list_eq topic r.topic ≡ false
    other = elim (Bool-cases (list_eq topic r.topic)) [
      | inl e ↦
          absurd (
            true_ne_false (sym (rw (sym (list_eq→eq topic r.topic e), u) (list_eq_self topic)) ∙ h))
      | inr e ↦ e
    ]

UniqueTopics-update :
    (topic : Bytes) (rs : List Retained) (i : ℕ) (v : Retained)
    → UniqueTopics rs
    → find_retained rs topic ≡ some i
    → v.used ≡ true
    → v.topic ≡ topic
    → UniqueTopics (set rs i v)
unfolding find_retained
UniqueTopics-update topic [] i v w e u k = absurd (unfold find_index in cc)
UniqueTopics-update topic (r ∷ rs) i v w e u k = elim (find_index_cons (is_topic topic) r rs i e) [
  | inl (h, z) ↦ rw (z) (
    λ _. ap (lookup rs) (k ∙ sym (list_eq→eq r.topic topic (ground arith))) ∙ w.0 (ground arith),
    w.1,
  )
  | inr (h, j, z, m) ↦ rw (z) (
    head_unique topic r rs (set rs j v) _ h (Writes-update topic rs j v m u k) w.0,
    UniqueTopics-update topic rs j v w.1 m u k,
  )
]

UniqueTopics-add :
    (topic : Bytes) (rs : List Retained) (i : ℕ) (v : Retained)
    → UniqueTopics rs
    → find_retained rs topic ≡ none
    → find_free_retained rs ≡ some i
    → v.used ≡ true
    → v.topic ≡ topic
    → UniqueTopics (set rs i v)
unfolding find_retained find_free_retained
UniqueTopics-add topic [] i v w n e u k = absurd (unfold find_index in cc)
UniqueTopics-add topic (r ∷ rs) i v w n e u k =
    let (a, b) = find_index_cons_none (is_topic topic) r rs n in
    elim (find_index_cons (λ r. not r.used) r rs i e) [
      | inl (h, z) ↦ rw (z) (λ _. ap (lookup rs) k ∙ find_retained-none rs topic b, w.1)
      | inr (h, j, z, m) ↦ rw (z) (
        head_unique topic r rs (set rs j v) _ a (Writes-add topic rs j v b m u k) w.0,
        UniqueTopics-add topic rs j v w.1 b m u k,
      )
    ]

UniqueTopics-clear :
    (topic : Bytes) (rs : List Retained) (i : ℕ) (v : Retained)
    → UniqueTopics rs
    → find_retained rs topic ≡ some i
    → v.used ≡ false
    → UniqueTopics (set rs i v)
unfolding find_retained
UniqueTopics-clear topic [] i v w e u = absurd (unfold find_index in cc)
UniqueTopics-clear topic (r ∷ rs) i v w e u = elim (find_index_cons (is_topic topic) r rs i e) [
  | inl (h, z) ↦ rw (z) (λ t. absurd (true_ne_false (sym t ∙ u)), w.1)
  | inr (h, j, z, m) ↦ rw (z) (
    head_unique topic r rs (set rs j v) _ h (Writes-clear topic rs j v w.1 m u) w.0,
    UniqueTopics-clear topic rs j v w.1 m u,
  )
]

-- The entry that is stored for a topic and a payload that fit.
stored-payload :
    (r : Retained) (topic payload : Bytes) (qos : ℕ)
    → length payload < buf_size
    → (store_retained r topic payload qos).payload ≡ payload
unfolding store_retained
stored-payload r topic payload qos h =
    take_all (if ltb (length payload) buf_size then length payload else buf_size - 1) payload
      (ground arith)

stored-topic :
    (r : Retained) (topic payload : Bytes) (qos : ℕ)
    → length topic < max_topic
    → (store_retained r topic payload qos).topic ≡ topic
unfolding store_retained
stored-topic r topic payload qos h = take_all (max_topic - 1) topic (omega arith)

stored-used :
    (r : Retained) (topic payload : Bytes) (qos : ℕ)
    → (store_retained r topic payload qos).used ≡ true
unfolding store_retained
stored-used r topic payload qos = refl

stored-qos :
    (r : Retained) (topic payload : Bytes) (qos : ℕ)
    → (store_retained r topic payload qos).qos ≡ qos
unfolding store_retained
stored-qos r topic payload qos = refl

Writes-none :
    (topic : Bytes) (rs : List Retained) → find_retained rs topic ≡ none → Writes topic rs rs none
Writes-none topic rs e t = elim (Bool-cases (list_eq topic t)) [
  | inl h ↦ rw (h) (ap (lookup rs) (sym (list_eq→eq topic t h)) ∙ find_retained-none rs topic e)
  | inr h ↦ rw (h) refl
]

Writes-clear_at :
    (topic : Bytes) (rs : List Retained)
    → UniqueTopics rs
    → Writes topic rs (clear_at rs (find_retained rs topic)) none
Writes-clear_at topic rs w = elim (Option-cases (find_retained rs topic)) [
  | inl n ↦ rw (n) (Writes-none topic rs n)
  | inr (i, e) ↦
      rw (e) (Writes-clear topic rs i (record (retained_at rs i) { used = false }) w e refl)
]

UniqueTopics-clear_at :
    (topic : Bytes) (rs : List Retained)
    → UniqueTopics rs
    → UniqueTopics (clear_at rs (find_retained rs topic))
UniqueTopics-clear_at topic rs w = elim (Option-cases (find_retained rs topic)) [
  | inl n ↦ rw (n) w
  | inr (i, e) ↦
      rw (e) (UniqueTopics-clear topic rs i (record (retained_at rs i) { used = false }) w e refl)
]

UniqueTopics-store_at :
    (topic payload : Bytes) (qos : ℕ) (rs : List Retained)
    → UniqueTopics rs
    → length topic < max_topic
    → UniqueTopics
        (store_at rs (or_else (find_retained rs topic) (find_free_retained rs)) topic payload qos)
UniqueTopics-store_at topic payload qos rs w h = elim (Option-cases (find_retained rs topic)) [
  | inr (i, e) ↦
      let r = retained_at rs i in
      rw (e) (
        UniqueTopics-update topic rs i _ w e (stored-used r topic payload qos)
          (stored-topic r topic payload qos h))
  | inl n ↦ elim (Option-cases (find_free_retained rs)) [
    | inl m ↦ rw (n, m) w
    | inr (i, e) ↦
        let r = retained_at rs i in
        rw (n, e)
          (UniqueTopics-add topic rs i _ w n e (stored-used r topic payload qos)
            (stored-topic r topic payload qos h))
  ]
]

Writes-store_at :
    (topic payload : Bytes) (qos : ℕ) (rs : List Retained)
    → length topic < max_topic
    → length payload < buf_size
    → (find_retained rs topic ≢ none) ⊎ (find_free_retained rs ≢ none)
    → Writes topic rs
        (store_at rs (or_else (find_retained rs topic) (find_free_retained rs)) topic payload qos)
        (some (payload, qos))
Writes-store_at topic payload qos rs h k room = elim (Option-cases (find_retained rs topic)) [
  | inr (i, e) ↦
      let r = retained_at rs i in
      rw (e, ← written r)
        (Writes-update topic rs i _ e (stored-used r topic payload qos)
          (stored-topic r topic payload qos h))
  | inl n ↦ elim (Option-cases (find_free_retained rs)) [
    | inl m ↦ absurd (elim room [ inl f ↦ f n | inr f ↦ f m ])
    | inr (i, e) ↦
        let r = retained_at rs i in
        rw (n, e, ← written r)
          (Writes-add topic rs i _ n e (stored-used r topic payload qos)
            (stored-topic r topic payload qos h))
  ]
]
  where
    written :
        (r : Retained)
        → (let v = store_retained r topic payload qos in
            ◌≡◌ {A = Option (Bytes × ℕ)} (some (v.payload, v.qos)) (some (payload, qos)))
    written r = rw (stored-payload r topic payload qos k, stored-qos r topic payload qos) refl

-- A table without two used entries for one topic has none after a message whose topic fits an entry.
pub retain_message-UniqueTopics :
    (rs : List Retained) (topic payload : Bytes) (qos retain : ℕ)
    → UniqueTopics rs
    → length topic < max_topic
    → UniqueTopics (retain_message rs topic payload qos retain)
unfolding retain_message
retain_message-UniqueTopics rs topic payload qos retain w h =
    if_keeps UniqueTopics (retain == 0) w (
      if_keeps UniqueTopics (length payload == 0) (UniqueTopics-clear_at topic rs w)
        (UniqueTopics-store_at topic payload qos rs w h))

-- For a table without two entries for one topic, a topic and a payload that fit an entry, and an entry
-- for the topic or a free one: the message of the topic is the new one, or none where the payload is
-- empty, and the messages of all other topics are as before. A message that is not to be retained
-- changes no topic's message.
pub retain_message-lookup :
    (rs : List Retained) (topic payload : Bytes) (qos retain : ℕ) (t : Bytes)
    → UniqueTopics rs
    → length topic < max_topic
    → length payload < buf_size
    → (find_retained rs topic ≢ none) ⊎ (find_free_retained rs ≢ none)
    → lookup (retain_message rs topic payload qos retain) t ≡ (
        if (retain == 0) || not (list_eq topic t)
        then lookup rs t
        else if length payload == 0
        then none
        else some (payload, qos))
unfolding retain_message
retain_message-lookup rs topic payload qos retain t w h k room =
    ground (arith, Writes-clear_at topic rs w t, Writes-store_at topic payload qos rs h k room t)
