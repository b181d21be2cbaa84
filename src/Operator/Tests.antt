-- ===== src/Operator/Tests.antt =====
-- Runs of the gate on one step, and its theorem there.
use flowers_oss.Base.{
  ◌≡◌, refl, ◌↔◌, Bool, true, false, none, some, Option, List, [], ◌∷◌, map, list_eq, nat_eq,
  option_eq,
}
use flowers_oss.Base.Text.{Text, str, lower, strip, text_lt}
use flowers_oss.Base.Dict
use flowers_oss.Base.Sorted.{sorted, sorted_set}
use flowers_oss.TrustGate.Record.{
  is_self_sourced, requires_provenance, has_independent_provenance, record_key, record_label,
  claims_effect,
}
use flowers_oss.TrustGate.Effects.{
  phase_of, rule_on, rule_on_forwarded, note, tally, terminal_onto, terminal_records, unforgiven,
  classify_effects,
}
use flowers_oss.TrustGate.Verdict.{gate_verdict}
use flowers_oss.Types.Effect.{EffectRecord, no_detail, as_gate_dict}
use flowers_oss.Operator.Gate.{
  is_verification_broken, is_owner_confirmed, left_unverifiable, gate_step, are_exempt,
  gate_step_iff,
}

-- A send that no read-back observed, with the error of a broken read-back, or none.
abbrev send : Text → Option Text → EffectRecord
send id broken = record {
  toolkit = str "gmail";
  action = str "SEND";
  side_effecting = some true;
  mutating = true;
  phase = str "forwarded";
  drift_present = none;
  expected_present = none;
  effect_kind = str "composio";
  verification = none;
  observer = none;
  actor = some (str "worker");
  action_id = id;
  label = str "gmail:SEND";
  detail = record no_detail { readback_error = broken };
}

gate : List EffectRecord → Bool × Bool
unfolding gate_step left_unverifiable is_verification_broken is_owner_confirmed gate_verdict
    as_gate_dict classify_effects terminal_records terminal_onto tally note rule_on
    rule_on_forwarded phase_of unforgiven is_self_sourced requires_provenance
    has_independent_provenance record_key record_label claims_effect lower strip text_lt sorted
    sorted_set Dict.values Dict.insert Dict.lookup list_eq nat_eq option_eq
gate effs = let out = gate_step effs true true [] [] [] [] in (out.accept, out.needs_owner)

-- A send that cannot be observed waits for the owner; beside another send of the same kind whose
-- read-back is broken, it does not.
gates :
    (gate (send (str "a") none ∷ []) ≡ (false, true))
    × (gate (send (str "a") (some (str "bad input")) ∷ []) ≡ (true, false))
    × (gate (send (str "a") none ∷ send (str "b") (some (str "bad input")) ∷ []) ≡ (true, false))
unfolding gate
gates = (refl, refl, refl)

abbrev both : List EffectRecord
both = send (str "a") none ∷ send (str "b") (some (str "bad input")) ∷ []

abbrev nothing : List Text
nothing = []

gate_step_iff_example :
    let (unver, unverifiable) = classify_effects (map as_gate_dict both) true in
    ((gate_step both true true [] [] [] []).accept ≡ true) ↔ (
      (true ≡ true)
      × (true ≡ true)
      × (nothing ≡ [])
      × (nothing ≡ [])
      × (nothing ≡ [])
      × (unver ≡ [])
      × (are_exempt both unverifiable ≡ true))
gate_step_iff_example = gate_step_iff both true true [] [] [] []
