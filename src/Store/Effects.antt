-- ===== src/Store/Effects.antt =====
-- Effect records and step results of flowers/seams/store.py as dicts, and back.
use flowers_oss.Base.{Bool, true, false, Option, none, some, List, [], ◌∷◌, list_eq, nat_eq}
use flowers_oss.Base.Text.{Text, str}
use flowers_oss.Base.Value.{Value, Values, Fields}
use flowers_oss.Types.Effect.{Detail, StampedEffect}
use flowers_oss.Types.Plan.{StepResult}
use flowers_oss.Store.Json.{
  ◌>>=◌, find, as_text, as_nat, as_bool, as_fields, as_object, as_array, as_optional, to_optional,
  or_else, of_nat, to_array, of_array, read_fields,
}

abbrev blank : Value
blank = Value.text []

-- The entries of some keys, without the keys that have none.
unfoldable pub from_entries : List (Text × Option Value) → Fields
from_entries [] = Fields.end
from_entries ((k, none) ∷ entries) = from_entries entries
from_entries ((k, some v) ∷ entries) = Fields.field k v (from_entries entries)

abbrev pub written {ℓ} : {A : Type ℓ} → (A → Value) → Option A → Option Value
written write none = none
written write (some a) = some (write a)

abbrev pub written_flag : Bool → Option Value
written_flag true = some (Value.bool true)
written_flag false = none

abbrev pub detail_entries : Detail → List (Text × Option Value)
detail_entries d =
    (str "grant_key", written Value.text d.grant_key)
    ∷ (str "error", written Value.text d.error)
    ∷ (str "readback_error", written Value.text d.readback_error)
    ∷ (str "readback_params", written Value.object d.readback_params)
    ∷ (str "authorized_by", written Value.text d.authorized_by)
    ∷ (str "idempotent_replay", written_flag d.idempotent_replay)
    ∷ (str "verification", written Value.text d.verification)
    ∷ (str "correction", written Value.text d.correction)
    ∷ (str "step_index", written of_nat d.step_index)
    ∷ []

-- `dict(e.detail)`
unfoldable pub detail_to_dict : Detail → Fields
unfolding from_entries
detail_to_dict d = from_entries (detail_entries d)

unfoldable pub detail_from_dict : Fields → Option Detail
unfolding find as_text as_bool as_nat as_optional as_object
detail_from_dict d = do
  grant_key ← as_optional as_text (find (str "grant_key") d)
  error ← as_optional as_text (find (str "error") d)
  readback_error ← as_optional as_text (find (str "readback_error") d)
  readback_params ← as_optional as_object (find (str "readback_params") d)
  authorized_by ← as_optional as_text (find (str "authorized_by") d)
  idempotent_replay ← as_bool (or_else (Value.bool false) (find (str "idempotent_replay") d))
  verification ← as_optional as_text (find (str "verification") d)
  correction ← as_optional as_text (find (str "correction") d)
  step_index ← as_optional as_nat (find (str "step_index") d)
  some (record {
    grant_key = grant_key;
    error = error;
    readback_error = readback_error;
    readback_params = readback_params;
    authorized_by = authorized_by;
    idempotent_replay = idempotent_replay;
    verification = verification;
    correction = correction;
    step_index = step_index;
  })

-- `_effect_to_dict`: `mutating` is not among the keys.
unfoldable pub effect_to_dict : StampedEffect → Fields
unfolding to_optional detail_to_dict
effect_to_dict s =
    let e = s.effect in
    Fields.field (str "toolkit") (Value.text e.toolkit) (
      Fields.field (str "action") (Value.text e.action) (
        Fields.field (str "side_effecting") (to_optional Value.bool e.side_effecting) (
          Fields.field (str "phase") (Value.text e.phase) (
            Fields.field (str "drift_present") (to_optional Value.bool e.drift_present) (
              Fields.field (str "expected_present") (to_optional Value.bool e.expected_present) (
                Fields.field (str "effect_kind") (Value.text e.effect_kind) (
                  Fields.field (str "verification") (to_optional Value.text e.verification) (
                    Fields.field (str "observer") (to_optional Value.text e.observer) (
                      Fields.field (str "actor") (to_optional Value.text e.actor) (
                        Fields.field (str "action_id") (Value.text e.action_id) (
                          Fields.field (str "label") (Value.text e.label) (
                            Fields.field (str "detail") (Value.object (detail_to_dict e.detail))
                              (Fields.field (str "ts") (of_nat s.ts) Fields.end)))))))))))))

-- `_effect_from_dict`: `mutating` gets its default.
unfoldable pub effect_from_dict : Fields → Option StampedEffect
unfolding find as_text as_bool as_nat as_fields as_optional detail_from_dict
effect_from_dict d = do
  toolkit ← as_text (find (str "toolkit") d)
  action ← as_text (find (str "action") d)
  side_effecting ← as_optional as_bool (find (str "side_effecting") d)
  phase ← as_text (or_else (Value.text (str "attempted")) (find (str "phase") d))
  drift_present ← as_optional as_bool (find (str "drift_present") d)
  expected_present ← as_optional as_bool (find (str "expected_present") d)
  effect_kind ← as_text (or_else (Value.text (str "composio")) (find (str "effect_kind") d))
  verification ← as_optional as_text (find (str "verification") d)
  observer ← as_optional as_text (find (str "observer") d)
  actor ← as_optional as_text (find (str "actor") d)
  action_id ← as_text (find (str "action_id") d)
  label ← as_text (or_else blank (find (str "label") d))
  detail_dict ← as_fields (find (str "detail") d)
  detail ← detail_from_dict detail_dict
  ts ← as_nat (find (str "ts") d)
  some (record {
    effect = record {
      toolkit = toolkit;
      action = action;
      side_effecting = side_effecting;
      mutating = true;
      phase = phase;
      drift_present = drift_present;
      expected_present = expected_present;
      effect_kind = effect_kind;
      verification = verification;
      observer = observer;
      actor = actor;
      action_id = action_id;
      label = label;
      detail = detail;
    };
    ts = ts;
  })

-- An item of a list of dicts.
abbrev pub read_effect : Value → Option StampedEffect
read_effect v = read_fields v >>= effect_from_dict

abbrev pub write_effect : StampedEffect → Value
write_effect e = Value.object (effect_to_dict e)

-- `_step_result_to_dict`
unfoldable pub step_result_to_dict : StepResult → Fields
unfolding to_array
step_result_to_dict r = Fields.field (str "claimed_done") (Value.bool r.claimed_done) (
    Fields.field (str "ok") (Value.bool r.ok) (
      Fields.field (str "text") (Value.text r.text) (
        Fields.field (str "effects") (Value.array (to_array write_effect r.effects)) (
          Fields.field (str "events") (Value.array (to_array Value.object r.events)) (
            Fields.field (str "signals") (Value.object r.signals) (
              Fields.field (str "searches") (of_nat r.searches)
                (Fields.field (str "tool_failures") (of_nat r.tool_failures) Fields.end)))))))

-- `_step_result_from_dict` of a dict
unfoldable pub step_result_from_dict : Fields → Option StepResult
unfolding find as_text as_bool as_nat as_fields as_array of_array
step_result_from_dict d = do
  claimed_done ← as_bool (or_else (Value.bool false) (find (str "claimed_done") d))
  ok ← as_bool (or_else (Value.bool true) (find (str "ok") d))
  text ← as_text (or_else blank (find (str "text") d))
  effect_values ← as_array (or_else (Value.array Values.nil) (find (str "effects") d))
  effects ← of_array read_effect effect_values
  event_values ← as_array (or_else (Value.array Values.nil) (find (str "events") d))
  events ← of_array read_fields event_values
  signals ← as_fields (find (str "signals") d)
  searches ← as_nat (or_else (of_nat 0) (find (str "searches") d))
  tool_failures ← as_nat (or_else (of_nat 0) (find (str "tool_failures") d))
  some (record {
    claimed_done = claimed_done;
    ok = ok;
    text = text;
    effects = effects;
    events = events;
    signals = signals;
    searches = searches;
    tool_failures = tool_failures;
  })
