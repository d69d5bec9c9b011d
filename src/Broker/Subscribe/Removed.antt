-- ===== src/Broker/Subscribe/Removed.antt =====
-- branch_codec.h, lines 385 to 404: what UNSUBSCRIBE leaves of the subscriptions.
use arbor_mq.Base.{ℕ, ◌<◌, ◌≡◌, true, false, List, Bytes, length, get_or, ◌⊎◌}
use arbor_mq.Broker.State.{Broker, Sub, unused_sub}
use arbor_mq.Broker.Subscribe.{is_for}
use arbor_mq.Broker.Subscribe.Rounds.{Lists}

-- No entry below `i` leads to a subscription for the filter.
abbrev CleanBelow : ℕ → Bytes → List ℕ → List Sub → Type 0
CleanBelow i f indices subs =
    (j : ℕ) → j < i → is_for f (get_or subs (get_or indices j 0) unused_sub) ≡ false

abbrev Clean : Bytes → List ℕ × List Sub → Type 0
Clean f r = CleanBelow (length r.0) f r.0 r.1

-- Released, or still to be found in the list.
abbrev Pending : Bytes → ℕ → List ℕ × List Sub → Type 0
Pending f si r =
    (Lists si r.0 × (is_for f (get_or r.1 si unused_sub) ≡ true))
    ⊎ ((get_or r.1 si unused_sub).used ≡ false)
