-- ===== src/Operator/Gate.antt =====
-- `_gate_step` of flowers/engine/operator.py: the verdict on one step.
use flowers_oss.Base.{
  ◌≡◌, ◌↔◌, Bool, true, false, not, ◌&&◌, ◌||◌, Option, none, some, List, [], ◌∷◌, ◌++◌, ◌==◌,
  contains, list_eq, nat_eq, option_eq, all, keep, map, is_empty, arith, if◌then◌else◌,
}
use flowers_oss.Base.Text.{Text, str}
use flowers_oss.TrustGate.Record.{is_true}
use flowers_oss.TrustGate.Effects.{classify_effects}
use flowers_oss.TrustGate.Verdict.{gate_verdict, gate_verdict_iff}
use flowers_oss.Types.Effect.{EffectRecord, as_gate_dict}

abbrev has_text : Option Text → Bool
has_text none = false
has_text (some s) = not (is_empty s)

abbrev is_none : Option Bool → Bool
is_none none = true
is_none (some _) = false

-- `_is_verification_broken`
unfoldable pub is_verification_broken : EffectRecord → Bool
is_verification_broken e =
    is_true e.side_effecting
    && e.phase == str "forwarded"
    && is_none e.expected_present
    && has_text e.detail.readback_error

unfoldable pub is_owner_confirmed : EffectRecord → Bool
is_owner_confirmed e =
    e.phase == str "forwarded" && e.detail.verification == some (str "owner-confirmed")

abbrev pub labels_of : (EffectRecord → Bool) → List EffectRecord → List Text
labels_of p effs = map (λ e. e.label) (keep p effs)

-- The labels that still stand in the way after the two exemptions.
unfoldable pub left_unverifiable : List EffectRecord → List Text → List Text
left_unverifiable effs unverifiable =
    keep
      (λ l.
        not (contains (labels_of is_verification_broken effs) l)
        && not (contains (labels_of is_owner_confirmed effs) l))
      unverifiable

pub record GateOutcome : Type 0 where
  pub accept : Bool
  pub reason : Text
  pub needs_owner : Bool

-- The effects of the run, what the worker claims, the three lists that the other checks found, and
-- the description of the failed objective checks. The owner's prompt is not modelled.
unfoldable pub gate_step :
    List EffectRecord → Bool → Bool → List Text → List Text → List Text → Text → GateOutcome
gate_step effs claimed_done ok stale breaking unmet detail =
    let (unver, unverifiable) = classify_effects (map as_gate_dict effs) claimed_done in
    let left = left_unverifiable effs unverifiable in
    let (accept, reason) = gate_verdict (record {
      claimed_done = claimed_done;
      ok = ok;
      stale_files = stale;
      gate_breaking = breaking;
      unverified_external = unver;
      unverifiable_external = left;
      objective_unmet = unmet;
    }) in
    record {
      accept = accept;
      reason =
          if not accept && not (is_empty unmet) && not (is_empty detail)
          then reason ++ (str " — " ++ detail)
          else reason;
      needs_owner =
          not (is_empty left)
          && is_empty unver
          && is_empty unmet
          && is_empty stale
          && is_empty breaking;
    }

-- Every label of a list is that of a record which is exempt: its read-back is broken, or the
-- owner confirmed it.
unfoldable pub are_exempt : List EffectRecord → List Text → Bool
are_exempt effs labels =
    all
      (λ l.
        contains (labels_of is_verification_broken effs) l
        || contains (labels_of is_owner_confirmed effs) l)
      labels

left_unverifiable-eq-nil :
    (effs : List EffectRecord) (labels : List Text)
    → (left_unverifiable effs labels ≡ []) ↔ (are_exempt effs labels ≡ true)
unfolding left_unverifiable are_exempt
left_unverifiable-eq-nil effs [] = ground arith
left_unverifiable-eq-nil effs (l ∷ labels) = ground (arith, left_unverifiable-eq-nil effs labels)

-- A step is accepted exactly when the worker claims completion and finished cleanly, no other check
-- found anything, no effect of the run is unverified, and each label that is unverifiable is the
-- label of some record whose read-back is broken or that the owner confirmed.
pub gate_step_iff :
    (effs : List EffectRecord) (claimed_done ok : Bool) (stale breaking unmet : List Text)
    (detail : Text)
    → let (unver, unverifiable) = classify_effects (map as_gate_dict effs) claimed_done in
      ((gate_step effs claimed_done ok stale breaking unmet detail).accept ≡ true) ↔ (
        (claimed_done ≡ true)
        × (ok ≡ true)
        × (stale ≡ [])
        × (breaking ≡ [])
        × (unmet ≡ [])
        × (unver ≡ [])
        × (are_exempt effs unverifiable ≡ true))
unfolding gate_step
gate_step_iff effs claimed_done ok stale breaking unmet detail =
    let (unver, unverifiable) = classify_effects (map as_gate_dict effs) claimed_done in
    ground (
      arith,
      left_unverifiable-eq-nil effs unverifiable,
      gate_verdict_iff (record {
        claimed_done = claimed_done;
        ok = ok;
        stale_files = stale;
        gate_breaking = breaking;
        unverified_external = unver;
        unverifiable_external = left_unverifiable effs unverifiable;
        objective_unmet = unmet;
      }),
    )
