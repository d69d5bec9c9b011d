-- ===== src/Samples/Topics.antt =====
-- Topics, filters and retained messages.
use arbor_mq.Base.{◌≡◌, ◌↔◌, inl, inr, refl, true, false, [], ◌∷◌, Bytes}
use arbor_mq.Topic.{match_topic, skip_level, at_end}
use arbor_mq.Topic.Levels.{
  levels, first_level, later_levels, Matches, IsFilter, IsPlain, EndsFilled, plus_level,
}
use arbor_mq.Topic.Match.{match_topic_sound, match_topic_iff, match_topic_empty_level}

abbrev home : Bytes
home = b'h' ∷ b'/' ∷ b't' ∷ []

abbrev home_plus : Bytes
home_plus = b'h' ∷ b'/' ∷ b'+' ∷ []

abbrev home_hash : Bytes
home_hash = b'h' ∷ b'/' ∷ b'#' ∷ []

matches_plus : match_topic home_plus home ≡ true
unfolding match_topic skip_level at_end
matches_plus = refl

matches_parent : match_topic home_hash (b'h' ∷ []) ≡ true
unfolding match_topic skip_level at_end
matches_parent = refl

matches_no_level : match_topic home_plus (b'h' ∷ b'/' ∷ []) ≡ false
unfolding match_topic skip_level at_end
matches_no_level = refl

h-IsPlain : IsPlain (b'h' ∷ [])
h-IsPlain = (((λ e. cc), (λ e. cc)), tt)

home_plus-IsFilter : IsFilter home_plus
unfolding first_level later_levels
home_plus-IsFilter = (inl h-IsPlain, (inr (inl refl), tt))

home-EndsFilled : EndsFilled (levels home)
unfolding first_level later_levels
home-EndsFilled = λ e. cc

match_topic_sound_example : Matches (levels home_plus) (levels home)
match_topic_sound_example = match_topic_sound home_plus home home_plus-IsFilter matches_plus

match_topic_iff_example :
    (match_topic home_plus home ≡ true) ↔ Matches (levels home_plus) (levels home)
match_topic_iff_example = match_topic_iff home_plus home home_plus-IsFilter home-EndsFilled

match_topic_empty_level_example :
    (match_topic (b'h' ∷ b'/' ∷ plus_level) (b'h' ∷ b'/' ∷ []) ≡ false)
    × Matches (levels (b'h' ∷ b'/' ∷ plus_level)) (levels (b'h' ∷ b'/' ∷ []))
match_topic_empty_level_example = match_topic_empty_level (b'h' ∷ []) h-IsPlain
