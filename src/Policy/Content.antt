-- ===== src/Policy/Content.antt =====
-- Disallowed content of flowers/policy.py: a marker, or an illicit verb with an object or phrase.
use flowers_oss.Base.{Bool, ◌&&◌, ◌||◌, List, ◌∷◌, ◌++◌, list_eq, nat_eq, any, subset, meets}
use flowers_oss.Base.Text.{Text, lower, runs, occurs, is_alnum}
use flowers_oss.Policy.Vocabulary.{
  disallowed_markers, illicit_verbs, illicit_objects, illicit_phrases,
}

-- `_alnum_tokens`
unfoldable pub alnum_tokens : Text → List Text
unfolding runs lower
alnum_tokens text = runs is_alnum (lower text)

unfoldable pub is_disallowed_text : Text → Bool
unfolding alnum_tokens occurs lower list_eq nat_eq
is_disallowed_text text =
    let low = lower text in
    let tokens = alnum_tokens low in
    any (λ marker. occurs marker low) disallowed_markers
    || meets tokens illicit_verbs && meets tokens illicit_objects
    || meets tokens illicit_verbs && any (λ phrase. subset phrase tokens) illicit_phrases

unfoldable pub is_disallowed_content : Text → Text → Bool
unfolding is_disallowed_text
is_disallowed_content toolkit action = is_disallowed_text (toolkit ++ (b' ' ∷ action))
