-- ===== src/TrustGate/Record.antt =====
-- The flat effect record that flowers/trustgate.py adjudicates, and the tests of its provenance.
use flowers_oss.Base.{
  Bool, true, false, not, ◌&&◌, ◌||◌, Option, none, some, List, [], ◌∷◌, ◌++◌, ◌==◌, contains,
  option_eq, list_eq, nat_eq, is_empty,
}
use flowers_oss.Base.Text.{Text, str, lower, strip}

-- `none` is a key that the dict lacks or maps to `None`. For the toolkit, the action and the two
-- observations the code tells these apart: `none` is a missing key, `some none` is the value `None`.
pub record GateRecord : Type 0 where
  pub action_id : Option Text
  pub request_id : Option Text
  pub toolkit : Option (Option Text)
  pub action : Option (Option Text)
  pub side_effecting : Option Bool
  pub mutating : Option Bool
  pub phase : Option Text
  pub drift_present : Option (Option Bool)
  pub expected_present : Option (Option Bool)
  pub effect_kind : Option Text
  pub verification : Option Text
  pub observer : Option Text
  pub actor : Option Text
  pub grant_key : Option Text

abbrev pub text_or : Option Text → Text → Text
text_or none other = other
text_or (some s) other = s

-- `rec.get(key)`
abbrev got : Option (Option Text) → Option Text
got none = none
got (some o) = o

-- Python's `a or b` on texts.
abbrev pub or_text : Option Text → Text → Text
or_text none other = other
or_text (some []) other = other
or_text (some (c ∷ s)) other = c ∷ s

-- `dict.get(key)` of an observation
abbrev pub observed : Option (Option Bool) → Option Bool
observed none = none
observed (some o) = o

abbrev pub has_key : Option (Option Bool) → Bool
has_key none = false
has_key (some _) = true

-- `value is True` and `value is False`
abbrev pub is_true : Option Bool → Bool
is_true (some true) = true
is_true _ = false

abbrev pub is_false : Option Bool → Bool
is_false (some false) = true
is_false _ = false

abbrev self_report_evidence : List Text
self_report_evidence = str "self_report" ∷ str "screenshot" ∷ str "self-report" ∷ []

abbrev both_same : Option Text → Option Text → Bool
both_same (some observer) (some actor) = observer == actor
both_same _ _ = false

-- `_is_self_sourced`
unfoldable pub is_self_sourced : GateRecord → Bool
unfolding lower strip list_eq nat_eq
is_self_sourced r =
    contains self_report_evidence (lower (strip (text_or r.verification [])))
    || both_same r.observer r.actor

-- `_requires_provenance`
unfoldable pub requires_provenance : GateRecord → Bool
unfolding lower list_eq nat_eq
requires_provenance r =
    contains (str "browser" ∷ str "cua" ∷ []) (lower (text_or (got r.toolkit) []))
    || lower (text_or r.effect_kind []) == str "cua"

-- `_has_independent_provenance`
unfoldable pub has_independent_provenance : GateRecord → Bool
unfolding option_eq list_eq nat_eq
has_independent_provenance r = not (is_empty (text_or r.observer [])) && not (r.observer == r.actor)

-- The id under which a record replaces an earlier one.
unfoldable pub record_key : GateRecord → Text
record_key r = or_text r.action_id (
    or_text r.request_id
      (text_or (got r.toolkit) (str "None") ++ (b':' ∷ text_or (got r.action) (str "None"))))

-- `{rec.get(key, '?')}`
abbrev shown : Option (Option Text) → Text
shown none = str "?"
shown (some o) = text_or o (str "None")

unfoldable pub record_label : GateRecord → Text
record_label r = shown r.toolkit ++ (b':' ∷ shown r.action)

abbrev given_or : Option Bool → Bool → Bool
given_or none other = other
given_or (some b) other = b

-- Whether a record claims a side effect; a record that needs provenance and carries an
-- observation claims one also when it leaves the field out.
unfoldable pub claims_effect : GateRecord → Bool
claims_effect r =
    given_or r.side_effecting
      (requires_provenance r && (has_key r.expected_present || has_key r.drift_present))
