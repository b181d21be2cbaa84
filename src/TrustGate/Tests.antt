-- ===== src/TrustGate/Tests.antt =====
-- The theorems on flowers/trustgate.py at a small log of records, and runs of it.
use flowers_oss.Base.{
  ◌≡◌, refl, ◌↔◌, Bool, true, none, some, Option, List, [], ◌∷◌, ◌==◌, ◌&&◌, contains, list_eq,
  nat_eq, any, all,
}
use flowers_oss.Base.Text.{Text, str, lower, strip, text_lt}
use flowers_oss.Base.Dict
use flowers_oss.Base.Sorted.{sorted, sorted_set}
use flowers_oss.TrustGate.Record.{
  GateRecord, is_self_sourced, requires_provenance, has_independent_provenance, record_key,
  record_label, claims_effect,
}
use flowers_oss.TrustGate.Effects.{
  phase_of, rule_on, rule_on_forwarded, note, tally, terminal_onto, terminal_records, unforgiven,
  classify_effects, counts_as_forwarded, forwarded_labels, verified_effects, landed_effects,
}
use flowers_oss.TrustGate.Settled.{is_verified, is_settled, verified_keys, classify_effects_iff}
use flowers_oss.TrustGate.Labels.{contains-verified_effects}

-- A send with an id, a phase and what the read-back showed.
abbrev sent : Text → Text → Option Bool → GateRecord
sent id phase expected = record {
  action_id = some id;
  request_id = none;
  toolkit = some (some (str "gmail"));
  action = some (some (str "SEND"));
  side_effecting = some true;
  mutating = some true;
  phase = some phase;
  drift_present = some expected;
  expected_present = some expected;
  effect_kind = some (str "composio");
  verification = none;
  observer = none;
  actor = some (str "worker");
  grant_key = some (str "k1");
}

-- An attempt that failed, and its retry, which a read-back confirmed.
abbrev retried : List GateRecord
retried = sent (str "a") (str "failed") none ∷ sent (str "b") (str "forwarded") (some true) ∷ []

abbrev click : GateRecord
click = record (sent (str "c") (str "forwarded") (some true)) {
  toolkit = some (some (str "browser"));
}

verdict_on : List GateRecord → List Text × List Text
unfolding classify_effects terminal_records terminal_onto tally note rule_on rule_on_forwarded
    phase_of unforgiven is_self_sourced requires_provenance has_independent_provenance record_key
    record_label claims_effect verified_effects landed_effects forwarded_labels counts_as_forwarded
    lower strip text_lt sorted sorted_set Dict.values Dict.insert Dict.lookup list_eq nat_eq
verdict_on actions = classify_effects actions true

verdicts :
    (verdict_on retried ≡ ([], []))
    × (verdict_on (sent (str "a") (str "failed") none ∷ []) ≡ (str "gmail:SEND" ∷ [], []))
    × (verdict_on (sent (str "a") (str "forwarded") none ∷ []) ≡ ([], str "gmail:SEND" ∷ []))
    × (verdict_on (click ∷ []) ≡ ([], str "browser:SEND" ∷ []))
    × (verdict_on (record click { observer = some (str "checker") } ∷ []) ≡ ([], []))
    × (verdict_on (record click { observer = some (str "worker") } ∷ [])
        ≡ ([], str "browser:SEND" ∷ []))
unfolding verdict_on
verdicts = (refl, refl, refl, refl, refl, refl)

classify_effects_iff_example : (classify_effects retried true ≡ ([], [])) ↔ (
    all (is_settled (verified_keys (terminal_records retried))) (terminal_records retried) ≡ true)
classify_effects_iff_example = classify_effects_iff retried

contains-verified_effects_example :
    contains (verified_effects retried) (str "gmail:SEND")
    ≡ any (λ r. is_verified r && str "gmail:SEND" == record_label r) (terminal_records retried)
contains-verified_effects_example = contains-verified_effects retried (str "gmail:SEND")
