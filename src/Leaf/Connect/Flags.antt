-- ===== src/Leaf/Connect/Flags.antt =====
-- leaf_codec.h, lines 71 to 100: the flags of a CONNECT packet, bit by bit.
use arbor_mq.Base.{
  ℕ, ◌%◌, ◌<◌, ◌≡◌, refl, sym, Bool, true, false, ◌&&◌, ltb, ltb→lt, ◌==◌, if◌then◌else◌, shr,
  arith,
}
use arbor_mq.Broker.Connect.{bit}
use arbor_mq.Leaf.Connect.{connect_flags}

abbrev both : (Bool → Bool) → Bool
both f = f true && f false

abbrev four : (ℕ → Bool) → Bool
four f = f 0 && f 1 && f 2 && f 3

both-at : (f : Bool → Bool) (t : Bool) → both f ≡ true → f t ≡ true
both-at f true h = ground arith
both-at f false h = ground arith

four-at : (f : ℕ → Bool) (n : ℕ) → n < 4 → four f ≡ true → f n ≡ true
four-at f n k h = ground arith

abbrev agree : Bool → Bool → Bool
agree true t = t
agree false true = false
agree false false = true

agree→eq : (s t : Bool) → agree s t ≡ true → s ≡ t
agree→eq true t h = sym h
agree→eq false true h = h
agree→eq false false h = refl

-- The flags of a CONNECT packet: one test of each value of the six fields.
abbrev all_flags : (Bool → Bool → ℕ → Bool → Bool → Bool → Bool) → Bool
all_flags f = both (λ clean. both (λ will.
    four (λ qos. both (λ retain. both (λ user. both (λ pass. f clean will qos retain user pass))))))

equal : (m n : ℕ) → (m == n) ≡ true → m ≡ n
equal m n h = ground arith

module _ (clean will retain user pass : Bool) (qos : ℕ) (q : qos < 4) where
  flags-at :
      (f : Bool → Bool → ℕ → Bool → Bool → Bool → Bool)
      → all_flags f ≡ true
      → f clean will qos retain user pass ≡ true
  flags-at f h = both-at (f clean will qos retain user) pass (
      both-at (λ u. both (f clean will qos retain u)) user
        (both-at (λ r. both (λ u. both (f clean will qos r u))) retain
          (four-at (λ n. both (λ r. both (λ u. both (f clean will n r u)))) qos q
            (both-at (λ w. four (λ n. both (λ r. both (λ u. both (f clean w n r u))))) will
              (both-at (λ c. both (λ w. four (λ n. both (λ r. both (λ u. both (f c w n r u))))))
                clean h)))))

  pub flags-clean : bit (connect_flags clean will qos retain user pass) 1 ≡ clean
  unfolding connect_flags
  flags-clean =
      agree→eq _ _ (flags-at (λ c w q r u p. agree (bit (connect_flags c w q r u p) 1) c) refl)

  pub flags-will : bit (connect_flags clean will qos retain user pass) 2 ≡ will
  unfolding connect_flags
  flags-will =
      agree→eq _ _ (flags-at (λ c w q r u p. agree (bit (connect_flags c w q r u p) 2) w) refl)

  pub flags-user : bit (connect_flags clean will qos retain user pass) 7 ≡ user
  unfolding connect_flags
  flags-user =
      agree→eq _ _ (flags-at (λ c w q r u p. agree (bit (connect_flags c w q r u p) 7) u) refl)

  pub flags-pass : bit (connect_flags clean will qos retain user pass) 6 ≡ pass
  unfolding connect_flags
  flags-pass =
      agree→eq _ _ (flags-at (λ c w q r u p. agree (bit (connect_flags c w q r u p) 6) p) refl)

  pub flags-qos :
      shr (connect_flags clean will qos retain user pass) 3 % 4 ≡ (if will then qos else 0)
  unfolding connect_flags
  flags-qos =
      equal (shr (connect_flags clean will qos retain user pass) 3 % 4) (if will then qos else 0) (
        flags-at (λ c w q r u p. shr (connect_flags c w q r u p) 3 % 4 == (if w then q else 0))
          refl)

  pub flags-retain :
      shr (connect_flags clean will qos retain user pass) 5 % 2 ≡ (if will && retain then 1 else 0)
  unfolding connect_flags
  flags-retain =
      equal (shr (connect_flags clean will qos retain user pass) 5 % 2)
        (if will && retain then 1 else 0)
        (flags-at
          (λ c w q r u p. shr (connect_flags c w q r u p) 5 % 2 == (if w && r then 1 else 0)) refl)

  pub flags-IsByte : connect_flags clean will qos retain user pass < 256
  unfolding connect_flags
  flags-IsByte =
      ltb→lt (connect_flags clean will qos retain user pass) 256
        (flags-at (λ c w q r u p. ltb (connect_flags c w q r u p) 256) refl)
