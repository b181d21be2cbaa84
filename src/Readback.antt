-- ===== src/Readback.antt =====
-- flowers/effects.py: the difference of two read-backs, and the match of an expected effect.
mod Tests
pub mod Laws
use flowers_oss.Base.{
  ℕ, Bool, true, false, not, ◌&&◌, ◌||◌, Option, none, some, List, [], ◌∷◌, ◌++◌, Eq, ◌==◌,
  contains, list_eq, nat_eq, option_eq, any, all, keep, map, subset, is_empty, if◌then◌else◌,
}
use flowers_oss.Base.Text.{Text, str, strip, lower, runs, is_alnum, has_char}
use flowers_oss.Base.Sorted.{sorted_set}
use flowers_oss.Base.Dict
use flowers_oss.Base.Dict.{Dict}
use flowers_oss.Base.Value.{Value, py_str, truthy}

pub record Diff : Type 0 where
  pub added : List Text
  pub changed : List Text
  pub removed : List Text

-- Items of any type with Python's `!=`.
module _ {ℓ} {V : Type ℓ} ⦃e : Eq V⦄ where
  unfoldable pub snapshot_diff : Dict Text V → Dict Text V → Diff
  snapshot_diff before after = record {
    added = sorted_set (keep (λ k. not (contains (Dict.keys before) k)) (Dict.keys after));
    changed = sorted_set (
        keep
          (λ k. contains (Dict.keys after) k && not (Dict.lookup k before == Dict.lookup k after))
          (Dict.keys before));
    removed = sorted_set (keep (λ k. not (contains (Dict.keys after) k)) (Dict.keys before));
  }

unfoldable pub has_effect : Diff → Bool
has_effect d = not (is_empty d.added) || not (is_empty d.changed) || not (is_empty d.removed)

-- An item of a read-back, and an expected-effect fingerprint.
abbrev pub Item : Type 0
Item = Dict Text Value

unfoldable pub added_keys : Dict Text Item → Dict Text Item → List Text
added_keys before after = keep (λ k. not (contains (Dict.keys before) k)) (Dict.keys after)

abbrev is_given : Value → Bool
is_given Value.null = false
is_given (Value.text []) = false
is_given _ = true

abbrev id_fingerprint_fields : List Text
id_fingerprint_fields =
    str "email_id" ∷ str "message_id" ∷ str "id" ∷ str "thread_id" ∷ str "draft_id" ∷ []

-- `str` of a list or a dict is a parameter.
module _ (repr : Value → Text) where
  -- `_norm`
  unfoldable pub norm : Value → Text
  norm v = lower (strip (py_str repr v))

  -- `_word_tokens`
  unfoldable pub word_tokens : Text → List Text
  word_tokens s = runs is_alnum (lower s)

  -- One expected value against one item. A text that the address pattern matches has an `@`.
  unfoldable pub value_matches : Item → Text → Bool
  value_matches item expected =
      let e = lower (strip expected) in
      let words = word_tokens expected in
      if is_empty e
      then true
      else if has_char b'@' e
      then contains (map norm (Dict.values item)) e
      else if is_empty words
      then true
      else any (λ v. subset words (word_tokens (py_str repr v))) (Dict.values item)

  -- `_item_matches`
  unfoldable pub item_matches : Item → List Text → Bool
  item_matches item expected = all (value_matches item) expected

  -- `fingerprint_values`: the stripped values that are not blank.
  unfoldable pub fingerprint_values : Item → List Text
  fingerprint_values fp =
      keep (λ s. not (is_empty s))
        (map (λ v. strip (py_str repr v)) (keep is_given (Dict.values fp)))

  abbrev is_filled : Text × Value → Bool
  is_filled (k, v) = not (is_empty (strip (py_str repr v)))

  -- The identities that a fingerprint names, and its other values.
  unfoldable pub id_values : Item → List Text
  id_values fp =
      map (λ e. norm e.1) (keep (λ e. contains id_fingerprint_fields e.0 && is_filled e) fp)

  unfoldable pub text_values : Item → List Text
  text_values fp =
      map (λ e. py_str repr e.1)
        (keep (λ e. not (contains id_fingerprint_fields e.0) && is_filled e) fp)

  -- `(after_items or {}).get(key) or {}`
  unfoldable pub item_at : Text → Dict Text Item → Item
  item_at key items = elim (Dict.lookup key items) [ none ↦ [] | some item ↦ item ]

  abbrev identity : Text → Item → Text
  identity key item = elim (Dict.lookup (str "id") item) [
    | none ↦ norm (Value.text key)
    | some v ↦ if truthy v then norm v else norm (Value.text key)
  ]

  -- Whether an added item carries the expected effect.
  unfoldable pub carries_effect : Item → Dict Text Item → Text → Bool
  carries_effect fp after key =
      all (λ v. v == identity key (item_at key after)) (id_values fp)
      && item_matches (item_at key after) (text_values fp)

  unfoldable pub has_expected_effect : Dict Text Item → Dict Text Item → Item → Option Bool
  has_expected_effect before after fp =
      if is_empty (fingerprint_values fp)
      then none
      else some (any (carries_effect fp after) (added_keys before after))
