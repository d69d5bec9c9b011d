-- ===== src/Broker/Safe/Descriptors.antt =====
-- branch_broker.h, lines 297 to 305: the descriptors that are put into an `fd_set`.
use arbor_mq.Base.{
  ℕ, suc, ◌≤◌, leb→le, leb, ◌≡◌, refl, sym, ap, ◌∙◌, true, Option, none, some, List, [], ◌∷◌, inl,
  inr, ◌⊎◌, ◌||◌, Bool-cases, get_or,
}
use arbor_mq.Broker.State.{Broker, Client, zero_client}
use arbor_mq.Broker.Poll.{is_past, watched_read}

-- A client of the list has a descriptor that is not below `n`.
abbrev pub ClientPast : ℕ → List Client → Type 0
ClientPast n cs = (j : ℕ) × (x : ℕ) × ((get_or cs j zero_client).fd ≡ some x) × (n ≤ x)

is_past-ClientPast :
    (n : ℕ) (cs : List Client) → is_past n (watched_read cs) ≡ true → ClientPast n cs
unfolding is_past watched_read
is_past-ClientPast n [] h = absurd (cc)
is_past-ClientPast n (c ∷ cs) h = at c.fd refl (is_past-ClientPast n cs) h
  where
    later : ClientPast n cs → ClientPast n (c ∷ cs)
    later (j, x, e, k) = (suc j, x, e, k)

    at :
        (o : Option ℕ)
        → c.fd ≡ o
        → (is_past n (watched_read cs) ≡ true → ClientPast n cs)
        → is_past n (elim o [ none ↦ watched_read cs | some fd ↦ fd ∷ watched_read cs ]) ≡ true
        → ClientPast n (c ∷ cs)
    at none e r h = later (r h)
    at (some x) e r h = elim (Bool-cases (leb n x)) [
      | inl k ↦ (0, x, e, leb→le n x k)
      | inr k ↦ later (r (ap (λ t. t || is_past n (watched_read cs)) (sym k) ∙ h))
    ]

-- The listener or a client of the broker has a descriptor that is not below `FD_SETSIZE`.
abbrev pub PastSet : Broker → ℕ → Type 0
PastSet b fd = (b.os.fd_setsize ≤ fd) ⊎ ClientPast b.os.fd_setsize b.clients

pub is_past-PastSet :
    (b : Broker) (fd : ℕ)
    → is_past b.os.fd_setsize (fd ∷ watched_read b.clients) ≡ true
    → PastSet b fd
unfolding is_past
is_past-PastSet b fd h = elim (Bool-cases (leb b.os.fd_setsize fd)) [
  | inl k ↦ inl (leb→le b.os.fd_setsize fd k)
  | inr k ↦ inr (
      is_past-ClientPast b.os.fd_setsize b.clients
        (ap (λ t. t || is_past b.os.fd_setsize (watched_read b.clients)) (sym k) ∙ h))
]
