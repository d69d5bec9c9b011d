-- ===== src/Topic/Levels.antt =====
-- What a filter means, level by level, in the terms of section 4.7 of MQTT 3.1.1.
use arbor_mq.Base.{◌≡◌, ◌≢◌, ◌⊎◌, List, [], ◌∷◌, ◌==◌, if◌then◌else◌, Bytes, All}

abbrev pub Level : Type 0
Level = Bytes

-- The levels of a text are separated by '/': the first, and those behind it.
unfoldable pub first_level : Bytes → Level
first_level [] = []
first_level (c ∷ s) = if c == b'/' then [] else c ∷ first_level s

unfoldable pub later_levels : Bytes → List Level
unfolding first_level
later_levels [] = []
later_levels (c ∷ s) =
    let later = later_levels s in if c == b'/' then first_level s ∷ later else later

abbrev pub levels : Bytes → List Level
levels s = first_level s ∷ later_levels s

abbrev pub plus_level : Level
plus_level = b'+' ∷ []

abbrev pub hash_level : Level
hash_level = b'#' ∷ []

-- Neither byte is a wildcard.
abbrev pub IsPlain : Level → Type 0
IsPlain = All (λ c. (c ≢ b'+') × (c ≢ b'#'))

-- `#` stands for the parent level and any number of further levels, `+` for exactly one level.
pub data Matches : List Level → List Level → Type 0 where
  done : Matches [] []
  hash : {ts : List Level} → Matches (hash_level ∷ []) ts
  plus : {t : Level} {fs ts : List Level} → Matches fs ts → Matches (plus_level ∷ fs) (t ∷ ts)
  same : {t : Level} {fs ts : List Level} → IsPlain t → Matches fs ts → Matches (t ∷ fs) (t ∷ ts)

-- A wildcard fills its level, and `#` is the last one.
abbrev pub IsLevel : Level → List Level → Type 0
IsLevel l ls = IsPlain l ⊎ ((l ≡ plus_level) ⊎ ((l ≡ hash_level) × (ls ≡ [])))

abbrev pub AreLevels : List Level → Type 0
AreLevels [] = Unit {0}
AreLevels (l ∷ ls) = IsLevel l ls × AreLevels ls

abbrev pub IsFilter : Bytes → Type 0
IsFilter f = AreLevels (levels f)

-- The last level is not empty.
abbrev pub EndsFilled : List Level → Type 0
EndsFilled [] = Unit {0}
EndsFilled (l ∷ []) = l ≢ []
EndsFilled (l ∷ m ∷ ls) = EndsFilled (m ∷ ls)
