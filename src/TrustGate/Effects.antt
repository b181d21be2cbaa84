-- ===== src/TrustGate/Effects.antt =====
-- `classify_effects` and `_forwarded_labels` of flowers/trustgate.py.
use flowers_oss.Base.{
  Bool, true, false, not, ◌&&◌, ◌||◌, Option, none, some, List, [], ◌∷◌, ◌++◌, ◌==◌, contains,
  list_eq, nat_eq, if◌then◌else◌, is_empty, keep, map,
}
use flowers_oss.Base.Text.{Text, str}
use flowers_oss.Base.Sorted.{sorted_set}
use flowers_oss.Base.Dict
use flowers_oss.Base.Dict.{Dict}
use flowers_oss.TrustGate.Record.{
  GateRecord, observed, text_or, is_true, is_false, is_self_sourced, requires_provenance,
  has_independent_provenance, record_key, record_label, claims_effect,
}

-- What the loop over the terminal records does with one of them.
pub data Ruling : Type 0 where
  passed : Ruling
  landed : Text → Ruling
  unverified : Text → Ruling
  unverifiable : Text → Ruling
  retryable : Text → Text → Ruling

pub data Phase : Type 0 where
  forwarded failed attempted other : Phase

unfoldable pub phase_of : Option Text → Phase
unfolding list_eq nat_eq
phase_of none = other
phase_of (some s) =
    if s == str "forwarded"
    then forwarded
    else if s == str "failed"
    then failed
    else if s == str "attempted"
    then attempted
    else other

abbrev absent_or_unknown : GateRecord → Ruling
absent_or_unknown r =
    if is_false (observed r.drift_present)
    then unverified (record_label r)
    else unverifiable (record_label r)

-- The branch of a forwarded record.
unfoldable pub rule_on_forwarded : GateRecord → Ruling
rule_on_forwarded r =
    let expected = observed r.expected_present in
    if is_false expected
    then unverified (record_label r)
    else if is_self_sourced r
    then unverifiable (record_label r)
    else if requires_provenance r && not (has_independent_provenance r)
    then unverifiable (record_label r)
    else if is_true expected
    then landed (text_or r.grant_key [])
    else if requires_provenance r
    then absent_or_unknown r
    else absent_or_unknown r

abbrev rule_by_phase : Phase → GateRecord → Ruling
rule_by_phase forwarded r = rule_on_forwarded r
rule_by_phase failed r =
    if is_false r.mutating then passed else retryable (record_label r) (text_or r.grant_key [])
rule_by_phase attempted r = retryable (record_label r) (text_or r.grant_key [])
rule_by_phase other r = unverified (record_label r)

-- The body of the loop.
unfoldable pub rule_on : GateRecord → Ruling
rule_on r = if claims_effect r then rule_by_phase (phase_of r.phase) r else passed

-- The lists that the loop builds.
pub record Tally : Type 0 where
  pub unverified : List Text
  pub unverifiable : List Text
  pub landed_gks : List Text
  pub retryable_attempts : List (Text × Text)

-- A landed record with no grant key adds none.
abbrev add_key : Text → List Text → List Text
add_key gk gks = if is_empty gk then gks else gk ∷ gks

unfoldable pub note : Tally → Ruling → Tally
note t passed = t
note t (landed gk) = record t { landed_gks = add_key gk t.landed_gks }
note t (unverified l) = record t { unverified = t.unverified ++ (l ∷ []) }
note t (unverifiable l) = record t { unverifiable = t.unverifiable ++ (l ∷ []) }
note t (retryable l gk) = record t { retryable_attempts = t.retryable_attempts ++ ((l, gk) ∷ []) }

unfoldable pub tally : Tally → List GateRecord → Tally
tally t [] = t
tally t (r ∷ rs) = tally (note t (rule_on r)) rs

unfoldable pub terminal_onto : Dict Text GateRecord → List GateRecord → Dict Text GateRecord
terminal_onto terminal [] = terminal
terminal_onto terminal (r ∷ actions) = terminal_onto (Dict.insert (record_key r) r terminal) actions

-- The terminal record of each action, in the order in which the actions first appear.
unfoldable pub terminal_records : List GateRecord → List GateRecord
unfolding terminal_onto
terminal_records actions = Dict.values (terminal_onto [] actions)

abbrev pub is_superseded : List Text → Text → Bool
is_superseded landed_gks gk = not (is_empty gk) && contains landed_gks gk

-- The labels of the attempts that no verified retry supersedes.
unfoldable pub unforgiven : List Text → List (Text × Text) → List Text
unforgiven landed_gks [] = []
unforgiven landed_gks ((label, gk) ∷ attempts) =
    let rest = unforgiven landed_gks attempts in
    if is_superseded landed_gks gk then rest else label ∷ rest

abbrev pub empty_tally : Tally
empty_tally = record {
  unverified = [];
  unverifiable = [];
  landed_gks = [];
  retryable_attempts = [];
}

unfoldable pub classify_effects : List GateRecord → Bool → List Text × List Text
classify_effects actions claimed_done =
    let t = tally empty_tally (terminal_records actions) in
    if claimed_done
    then (
      sorted_set (t.unverified ++ unforgiven t.landed_gks t.retryable_attempts),
      sorted_set t.unverifiable,
    )
    else ([], [])

abbrev pub is_forwarded : Phase → Bool
is_forwarded forwarded = true
is_forwarded _ = false

-- Whether a terminal record's label is collected.
unfoldable pub counts_as_forwarded : Bool → GateRecord → Bool
counts_as_forwarded strict r =
    let expected = observed r.expected_present in
    if not (claims_effect r) || not (is_forwarded (phase_of r.phase))
    then false
    else if is_self_sourced r || is_false expected
    then false
    else if requires_provenance r
    then is_true expected && has_independent_provenance r
    else if strict
    then is_true expected
    else true

-- `_forwarded_labels`
unfoldable pub forwarded_labels : List GateRecord → Bool → List Text
forwarded_labels actions strict =
    sorted_set (map record_label (keep (counts_as_forwarded strict) (terminal_records actions)))

unfoldable pub verified_effects : List GateRecord → List Text
verified_effects actions = forwarded_labels actions true

unfoldable pub landed_effects : List GateRecord → List Text
landed_effects actions = forwarded_labels actions false
