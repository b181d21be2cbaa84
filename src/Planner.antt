-- ===== src/Planner.antt =====
-- `_parse_steps` of flowers/engine/planner.py: the model's steps as a plan.
pub mod Progress
pub mod Replan
mod Tests
use flowers_oss.Base.{
  ℕ, zero, suc, ◌+◌, Bool, true, false, not, ◌&&◌, ◌||◌, Option, none, some, List, [], ◌∷◌, ◌++◌,
  ◌==◌, contains, list_eq, nat_eq, any, map, take, is_empty, if◌then◌else◌,
}
use flowers_oss.Base.Text.{Text, str, lower, strip, ltb, has_char}
use flowers_oss.Base.Value
use flowers_oss.Base.Value.{
  ℤ, Value, Values, Fields, values_list, py_str, py_str_or_blank, or_value, truthy,
}
use flowers_oss.Types.Plan.{PlanStep, StepKind, generic, await_replies, monitor, recurring, pending}
use flowers_oss.Mandate.Counts.{py_int}
use flowers_oss.Mandate.Grant.{iterate}

-- An index that a step with the given index may depend on is added, once.
abbrev pub add_dep : ℕ → List ℕ → Option ℤ → List ℕ
add_dep idx deps none = deps
add_dep idx deps (some (ℤ.negsuc _)) = deps
add_dep idx deps (some (ℤ.pos d)) =
    if ltb d idx && not (contains deps d) then deps ++ (d ∷ []) else deps

-- The loop over the proposed dependencies.
unfoldable pub backward_deps : ℕ → List ℕ → List Value → List ℕ
backward_deps idx deps [] = deps
backward_deps idx deps (v ∷ vs) = backward_deps idx (add_dep idx deps (py_int v)) vs

abbrev list_of : Value → List Value
list_of (Value.array vs) = values_list vs
list_of _ = []

abbrev fields_of : Value → Fields
fields_of (Value.object d) = d
fields_of _ = Fields.end

abbrev is_text : Text → Value → Bool
is_text s (Value.text t) = t == s
is_text s _ = false

abbrev names_effect_landed : Value → Bool
names_effect_landed (Value.object check) =
    is_text (str "effect_landed") (Value.get (str "kind") check)
names_effect_landed _ = false

-- Whether a criterion is an objective check that an effect landed.
abbrev is_effect_check : Value → Bool
is_effect_check (Value.object c) = names_effect_landed (Value.get (str "objective_check") c)
is_effect_check _ = false

abbrev effect_criterion : Text → Value
effect_criterion label = Value.object (
    Fields.field (str "id") (Value.text (str "effect_landed")) (
      Fields.field (str "objective_check")
        (Value.object (
          Fields.field (str "kind") (Value.text (str "effect_landed")) (
            Fields.field (str "params")
              (Value.object (Fields.field (str "label") (Value.text label) Fields.end))
              Fields.end)))
        Fields.end))

-- The criteria of a step, with the one that its declared effect calls for.
unfoldable pub with_effect : Text → List Value → List Value
with_effect produces criteria =
    if not (is_empty produces) && has_char b':' produces && not (any is_effect_check criteria)
    then criteria ++ (effect_criterion produces ∷ [])
    else criteria

-- An item without a text is skipped.
abbrev pub unless_blank : Text → Option (Option PlanStep) → Option (Option PlanStep)
unless_blank [] made_step = some none
unless_blank (c ∷ text) made_step = made_step

abbrev pub and_then : PlanStep → Option (List PlanStep) → Option (List PlanStep)
and_then s none = none
and_then s (some steps) = some (s ∷ steps)

abbrev pub raw_steps : Option Value → Option (List Value)
raw_steps (some (Value.object d)) = elim (Value.get (str "steps") d) [
  | Value.array vs ↦ some (values_list vs)
  | _ ↦ none
]
raw_steps (some (Value.array vs)) = some (values_list vs)
raw_steps _ = none

-- `str` of a list or a dict is a parameter.
module _ (repr : Value → Text) where
  -- `_coerce_kind`
  unfoldable pub coerce_kind : Value → StepKind
  coerce_kind v =
      let s = lower (if truthy v then py_str repr v else str "generic") in
      if s == str "await_replies"
      then await_replies
      else if s == str "monitor"
      then monitor
      else if s == str "recurring"
      then recurring
      else generic

  -- The needs of a step; none is a `TypeError`.
  unfoldable pub needs_of : Value → Option (List Text)
  needs_of v = elim (iterate v) [ none ↦ none | some _ ↦ some (map (py_str repr) (list_of v)) ]

  abbrev pub made : ℕ → Text → Fields → Option (List Text) → Option (Option PlanStep)
  made idx text item none = none
  made idx text item (some needs) = some (
      some (record {
        index = idx;
        text = text;
        kind = coerce_kind (Value.get (str "kind") item);
        depends_on =
            backward_deps idx [] (
              list_of (or_value (Value.get (str "depends_on") item) (Value.get (str "deps") item)));
        needs = needs;
        params = fields_of (Value.get (str "params") item);
        done_criteria =
            with_effect (strip (py_str_or_blank repr (Value.get (str "produces") item)))
              (list_of (Value.get (str "done_criteria") item));
        status = pending;
        result = none;
      }))

  -- The body of the loop: the outer none is an exception, the inner one an item that is skipped.
  unfoldable pub step_of : ℕ → Value → Option (Option PlanStep)
  step_of idx (Value.object item) =
      let text = strip (
        py_str_or_blank repr
          (or_value (Value.get (str "text") item) (Value.get (str "step") item))) in
      unless_blank text (made idx text item (needs_of (Value.get (str "needs") item)))
  step_of idx _ = some none

  -- The loop, with the index of the next step.
  unfoldable pub parse_from : ℕ → List Value → Option (List PlanStep)
  parse_from idx [] = some []
  parse_from idx (v ∷ items) = elim (step_of idx v) [
    | none ↦ none
    | some none ↦ parse_from idx items
    | some (some s) ↦ and_then s (parse_from (idx + 1) items)
  ]

  -- `_parse_steps` on the parsed content, which is none where it is no JSON.
  unfoldable pub parse_steps : ℕ → ℕ → Option Value → Option (List PlanStep)
  parse_steps max_steps offset content = elim (raw_steps content) [
    | none ↦ some []
    | some raw ↦ parse_from offset (take max_steps raw)
  ]
