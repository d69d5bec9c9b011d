-- ===== src/Broker/Search.antt =====
-- What the searches in the broker's tables find.
use arbor_mq.Base.{
  ℕ, zero, suc, ◌<◌, ◌≡◌, refl, sym, ◌∙◌, ◌⊎◌, inl, inr, Bool, true, false, Option, none, some,
  List, [], ◌∷◌, if◌then◌else◌, length, get_or, set, ◌≢◌, arith, Bool-cases, Option-cases,
}
use arbor_mq.Broker.State.{Broker, Q2, free, free_slot, client_at}
use arbor_mq.Broker.Tables.{find_index, find_free_slot, find_slot, slot_at, same_q2, slot_is}

module _ {ℓ} {A : Type ℓ} (p : A → Bool) where
  find_index_here : (x : A) (xs : List A) → p x ≡ true → find_index p (x ∷ xs) ≡ some 0
  unfolding find_index
  find_index_here x xs h = rw h

  find_index-none :
      (x : A) (xs : List A) → p x ≡ false → find_index p xs ≡ none → find_index p (x ∷ xs) ≡ none
  unfolding find_index
  find_index-none x xs h e = rw (h, e)

  find_index_later :
      (x : A) (xs : List A) (i : ℕ)
      → p x ≡ false
      → find_index p xs ≡ some i
      → find_index p (x ∷ xs) ≡ some (suc i)
  unfolding find_index
  find_index_later x xs i h e = rw (h, e)

  -- The entry at the index that a search returns passes the test.
  pub find_index_sound :
      (xs : List A) (i : ℕ) (d : A)
      → find_index p xs ≡ some i
      → (p (get_or xs i d) ≡ true) × (i < length xs)
  find_index_sound [] i d e = absurd (unfold find_index in cc)
  find_index_sound (x ∷ xs) i d e = elim (Bool-cases (p x)) [
    | inl h ↦ at_zero h (some_eq (sym (find_index_here x xs h) ∙ e))
    | inr h ↦ elim (Option-cases (find_index p xs)) [
      | inl n ↦ absurd (none_some (sym (find_index-none x xs h n) ∙ e))
      | inr (j, m) ↦
          at_suc j (find_index_sound xs j d m) (some_eq (sym (find_index_later x xs j h m) ∙ e))
    ]
  ]
    where
      some_eq : {j : ℕ} → some j ≡ some i → j ≡ i
      some_eq q = cc

      none_some : ◌≡◌ {A = Option ℕ} none (some i) → ⊥
      none_some q = cc

      at_zero : p x ≡ true → zero ≡ i → (p (get_or (x ∷ xs) i d) ≡ true) × (i < length (x ∷ xs))
      at_zero h q = rw (← q) (h, omega arith)

      at_suc :
          (j : ℕ)
          → (p (get_or xs j d) ≡ true) × (j < length xs)
          → suc j ≡ i
          → (p (get_or (x ∷ xs) i d) ≡ true) × (i < length (x ∷ xs))
      at_suc j h q = rw (← q) (h.0, omega arith)

module _ {ℓ} {A : Type ℓ} (p : A → Bool) where
  -- Where a search of a longer list ends.
  pub find_index_cons :
      (x : A) (xs : List A) (i : ℕ)
      → find_index p (x ∷ xs) ≡ some i
      → ((p x ≡ true) × (i ≡ 0))
        ⊎ ((p x ≡ false) × (j : ℕ) × (i ≡ suc j) × (find_index p xs ≡ some j))
  find_index_cons x xs i e = elim (Bool-cases (p x)) [
    | inl h ↦ inl (h, some_eq (sym e ∙ find_index_here p x xs h))
    | inr h ↦ elim (Option-cases (find_index p xs)) [
      | inl n ↦ absurd (none_some (sym (find_index-none p x xs h n) ∙ e))
      | inr (j, m) ↦ inr (h, j, some_eq (sym e ∙ find_index_later p x xs j h m), m)
    ]
  ]
    where
      some_eq : {j : ℕ} → some i ≡ some j → i ≡ j
      some_eq q = cc

      none_some : ◌≡◌ {A = Option ℕ} none (some i) → ⊥
      none_some q = cc

  pub find_index_cons_none :
      (x : A) (xs : List A)
      → find_index p (x ∷ xs) ≡ none
      → (p x ≡ false) × (find_index p xs ≡ none)
  find_index_cons_none x xs e = elim (Bool-cases (p x)) [
    | inl h ↦ absurd (none_some (sym e ∙ find_index_here p x xs h))
    | inr h ↦ elim (Option-cases (find_index p xs)) [
      | inl n ↦ (h, n)
      | inr (j, m) ↦ absurd (none_some (sym e ∙ find_index_later p x xs j h m))
    ]
  ]
    where
      none_some : {j : ℕ} → ◌≡◌ {A = Option ℕ} none (some j) → ⊥
      none_some q = cc

same_q2→eq : (s t : Q2) → same_q2 s t ≡ true → s ≡ t
same_q2→eq s t e = ground arith

pub find_free_slot_sound :
    (b : Broker) (ci qi : ℕ) → find_free_slot b ci ≡ some qi → (slot_at b ci qi).state ≡ free
unfolding find_free_slot
find_free_slot_sound b ci qi e =
    same_q2→eq _ free
      (find_index_sound (λ q. same_q2 q.state free) (client_at b ci).qos2 qi free_slot e).0

pub find_slot_sound :
    (b : Broker) (ci pid qi : ℕ) (s : Q2)
    → find_slot b ci pid s ≡ some qi
    → ((slot_at b ci qi).pid ≡ pid) × ((slot_at b ci qi).state ≡ s)
unfolding find_slot
find_slot_sound b ci pid qi s e =
    let h = (find_index_sound (slot_is pid s) (client_at b ci).qos2 qi free_slot e).0 in
    (ground arith, same_q2→eq _ s (ground arith))

module _ {ℓ} {A : Type ℓ} (p : A → Bool) where
  -- An entry that passes the test is found.
  pub find_index-set :
      (xs : List A) (i : ℕ) (v : A) → p v ≡ true → i < length xs → find_index p (set xs i v) ≢ none
  unfolding find_index
  find_index-set [] i v h k = absurd (omega arith)
  find_index-set (x ∷ xs) zero v h k = rw (h) (λ q. cc)
  find_index-set (x ∷ xs) (suc i) v h k =
      later (p x) (find_index p (set xs i v)) (find_index-set xs i v h (omega arith))
    where
      later :
          (t : Bool) (r : Option ℕ)
          → r ≢ none
          → (if t then some 0 else elim r [ none ↦ none | some j ↦ some (suc j) ]) ≢ none
      later true r k q = cc
      later false none k q = k refl
      later false (some j) k q = cc
