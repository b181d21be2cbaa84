-- ===== src/Types/Effect.antt =====
-- `EffectRecord` of flowers/types.py, and the dict that it hands to the gate.
use flowers_oss.Base.{ℕ, Bool, false, Option, none, some, if◌then◌else◌, is_empty}
use flowers_oss.Base.Text.{Text}
use flowers_oss.Base.Value.{Fields}
use flowers_oss.TrustGate.Record.{GateRecord}

-- The keys of `detail` that the code of the repository reads or writes; `none` and `false` are a key
-- that is missing or None.
pub record Detail : Type 0 where
  pub grant_key : Option Text
  pub error : Option Text
  pub readback_error : Option Text
  pub readback_params : Option Fields
  pub authorized_by : Option Text
  pub idempotent_replay : Bool
  pub verification : Option Text
  pub correction : Option Text
  pub step_index : Option ℕ

abbrev pub no_detail : Detail
no_detail = record {
  grant_key = none;
  error = none;
  readback_error = none;
  readback_params = none;
  authorized_by = none;
  idempotent_replay = false;
  verification = none;
  correction = none;
  step_index = none;
}

pub record EffectRecord : Type 0 where
  pub toolkit : Text
  pub action : Text
  pub side_effecting : Option Bool
  pub mutating : Bool
  pub phase : Text
  pub drift_present : Option Bool
  pub expected_present : Option Bool
  pub effect_kind : Text
  pub verification : Option Text
  pub observer : Option Text
  pub actor : Option Text
  pub action_id : Text
  pub label : Text
  pub detail : Detail

-- A record with the time at which it was made, which only the store reads.
pub record StampedEffect : Type 0 where
  pub effect : EffectRecord
  pub ts : ℕ

abbrev given : Option Text → Option Text
given none = none
given (some s) = if is_empty s then none else some s

unfoldable pub as_gate_dict : EffectRecord → GateRecord
as_gate_dict e = record {
  action_id = some e.action_id;
  request_id = none;
  toolkit = some (some e.toolkit);
  action = some (some e.action);
  side_effecting = e.side_effecting;
  mutating = some e.mutating;
  phase = some e.phase;
  drift_present = some e.drift_present;
  expected_present = some e.expected_present;
  effect_kind = some e.effect_kind;
  verification = e.verification;
  observer = e.observer;
  actor = e.actor;
  grant_key = given e.detail.grant_key;
}
