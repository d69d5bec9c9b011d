-- ===== src/Topic.antt =====
-- branch/branch/branch_match.h. A C string is the list of its bytes before the NUL, so that reading
-- at the end of the list is reading the NUL.
pub mod Levels
mod Scan
pub mod Match
use arbor_mq.Base.{ℕ, ◌≡◌, Bool, true, false, ◌&&◌, ◌||◌, List, [], ◌∷◌, ◌==◌, if◌then◌else◌, Bytes}

-- `while (*topic && *topic != '/') topic++;`
unfoldable pub skip_level : Bytes → Bytes
skip_level [] = []
skip_level (c ∷ topic) = if c == b'/' then c ∷ topic else skip_level topic

abbrev pub is_empty : Bytes → Bool
is_empty [] = true
is_empty (c ∷ s) = false

-- `*s == c` for a byte `c` that is not the NUL.
abbrev pub starts_with : ℕ → Bytes → Bool
starts_with c [] = false
starts_with c (d ∷ s) = d == c

-- The filter is `/#` and nothing more.
abbrev pub is_slash_hash : Bytes → Bool
is_slash_hash (a ∷ b ∷ []) = a == b'/' && b == b'#'
is_slash_hash _ = false

-- The filter is `#` and nothing more.
abbrev pub is_hash : Bytes → Bool
is_hash (a ∷ []) = a == b'#'
is_hash _ = false

-- The three tests behind the loop.
unfoldable pub at_end : Bytes → Bytes → Bool
at_end filter topic =
    if is_hash filter
    then true
    else if is_empty topic && is_slash_hash filter
    then true
    else is_empty filter && is_empty topic

-- Each round of the loop takes one byte of the filter, so the recursion is on the filter.
unfoldable pub match_topic : Bytes → Bytes → Bool
unfolding skip_level at_end
match_topic [] topic = at_end [] topic
match_topic (f ∷ filter) [] = at_end (f ∷ filter) []
match_topic (f ∷ filter) (c ∷ topic) =
    let after_plus = match_topic filter (skip_level (c ∷ topic)) in
    let after_byte = match_topic filter topic in
    if f == b'+'
    then if starts_with b'/' (skip_level (c ∷ topic)) && is_empty filter then false else after_plus
    else if f == b'#'
    then is_empty filter
    else if f == c
    then after_byte
    else false
