-- ===== src/Store/Roundtrip/Effects.antt =====
-- Effect records and step results, written and read back.
use flowers_oss.Base.{
  ℕ, ◌≡◌, refl, Bool, true, false, Option, none, some, List, [], ◌∷◌, ◌==◌, list_eq, nat_eq, map,
  if◌then◌else◌, arith,
}
use flowers_oss.Base.Text.{Text, str}
use flowers_oss.Base.Value.{Value, Fields}
use flowers_oss.Types.Effect.{Detail, StampedEffect}
use flowers_oss.Types.Plan.{StepResult}
use flowers_oss.Store.Json.{
  find, as_text, as_nat, as_bool, as_object, as_optional, or_else, of_nat, as_fields,
  as_optional-text, as_optional-bool, of_array-to_array, of_array-to_array_same, read_fields,
}
use flowers_oss.Store.Effects.{
  from_entries, written, written_flag, detail_entries, detail_to_dict, detail_from_dict,
  effect_to_dict, effect_from_dict, read_effect, write_effect, step_result_to_dict,
  step_result_from_dict,
}

abbrev or_find : Option Value → Option Value → Option Value
or_find none later = later
or_find (some v) later = some v

-- The entry of a key.
abbrev pick : Text → List (Text × Option Value) → Option Value
pick key [] = none
pick key ((k, o) ∷ entries) = if key == k then or_find o (pick key entries) else pick key entries

find-from_entries :
    (key : Text) (entries : List (Text × Option Value))
    → find key (from_entries entries) ≡ pick key entries
unfolding find from_entries
find-from_entries key [] = refl
find-from_entries key ((k, none) ∷ entries) = ground (arith, find-from_entries key entries)
find-from_entries key ((k, some v) ∷ entries) = ground (arith, find-from_entries key entries)

written-text :
    (o : Option Text) → as_optional as_text (or_find (written Value.text o) none) ≡ some o
unfolding as_optional as_text
written-text none = refl
written-text (some s) = refl

written-object :
    (o : Option Fields) → as_optional as_object (or_find (written Value.object o) none) ≡ some o
unfolding as_optional as_object
written-object none = refl
written-object (some d) = refl

written-nat : (o : Option ℕ) → as_optional as_nat (or_find (written of_nat o) none) ≡ some o
unfolding as_optional as_nat
written-nat none = refl
written-nat (some n) = refl

written_flag-bool :
    (b : Bool) → as_bool (or_else (Value.bool false) (or_find (written_flag b) none)) ≡ some b
unfolding as_bool
written_flag-bool true = refl
written_flag-bool false = refl

-- The details of a record come back.
detail_from_dict-detail_to_dict : (d : Detail) → detail_from_dict (detail_to_dict d) ≡ some d
unfolding detail_to_dict detail_from_dict list_eq nat_eq
detail_from_dict-detail_to_dict d =
    rw
      (
        find-from_entries (str "grant_key") (detail_entries d),
        find-from_entries (str "error") (detail_entries d),
        find-from_entries (str "readback_error") (detail_entries d),
        find-from_entries (str "readback_params") (detail_entries d),
        find-from_entries (str "authorized_by") (detail_entries d),
        find-from_entries (str "idempotent_replay") (detail_entries d),
        find-from_entries (str "verification") (detail_entries d),
        find-from_entries (str "correction") (detail_entries d),
        find-from_entries (str "step_index") (detail_entries d),
        written-text d.grant_key,
        written-text d.error,
        written-text d.readback_error,
        written-object d.readback_params,
        written-text d.authorized_by,
        written_flag-bool d.idempotent_replay,
        written-text d.verification,
        written-text d.correction,
        written-nat d.step_index,
      )
      refl

-- What comes back of an effect record: whether the action can change anything is forgotten.
abbrev pub restored_effect : StampedEffect → StampedEffect
restored_effect s = record s { effect = record s.effect { mutating = true } }

-- A stored effect record comes back with all its fields, except that it always counts as mutating.
pub effect_from_dict-effect_to_dict :
    (e : StampedEffect) → effect_from_dict (effect_to_dict e) ≡ some (restored_effect e)
unfolding effect_to_dict effect_from_dict list_eq nat_eq as_fields
effect_from_dict-effect_to_dict s =
    rw
      (
        as_optional-bool s.effect.side_effecting,
        as_optional-bool s.effect.drift_present,
        as_optional-bool s.effect.expected_present,
        as_optional-text s.effect.verification,
        as_optional-text s.effect.observer,
        as_optional-text s.effect.actor,
        detail_from_dict-detail_to_dict s.effect.detail,
      )
      refl

abbrev pub restored_result : StepResult → StepResult
restored_result r = record r { effects = map restored_effect r.effects }

-- A stored step result comes back with its effects restored.
pub step_result_from_dict-step_result_to_dict :
    (r : StepResult) → step_result_from_dict (step_result_to_dict r) ≡ some (restored_result r)
unfolding step_result_to_dict step_result_from_dict list_eq nat_eq as_fields
step_result_from_dict-step_result_to_dict r =
    rw
      (
        of_array-to_array write_effect read_effect restored_effect effect_from_dict-effect_to_dict
            r.effects,
        of_array-to_array_same Value.object read_fields (λ d. refl) r.events,
      )
      refl
