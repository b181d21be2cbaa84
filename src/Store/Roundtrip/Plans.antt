-- ===== src/Store/Roundtrip/Plans.antt =====
-- Plans, written and read back.
use flowers_oss.Base.{
  ◌≡◌, refl, Bool, Option, none, some, List, [], ◌∷◌, list_eq, nat_eq, map, all, arith,
  Option-cases, inl, inr,
}
use flowers_oss.Base.Dict.{is_some}
use flowers_oss.Base.Value.{Value, Values, Fields}
use flowers_oss.Types.Plan.{
  Plan, PlanStep, StepResult, StepKind, generic, await_replies, monitor, recurring, StepStatus,
  pending, running, waiting, done, failed, skipped,
}
use flowers_oss.Store.Json.{
  as_fields, to_array, of_array, to_optional, as_optional, of_array-to_array_same, read_text,
  read_nat, of_nat,
}
use flowers_oss.Store.Effects.{step_result_to_dict}
use flowers_oss.Store.Criteria.{dict_of}
use flowers_oss.Store.Plans.{
  kind_word, coerce_step_kind, status_word, step_status_of, dicts_of, step_fields, step_to_dict,
  read_result, read_criterion, step_from_dict, steps_to_array, plan_fields, plan_to_dict, read_step,
  plan_from_dict,
}
use flowers_oss.Store.Roundtrip.Effects.{restored_result, step_result_from_dict-step_result_to_dict}

coerce_step_kind-kind_word : (k : StepKind) → coerce_step_kind (Value.text (kind_word k)) ≡ k
unfolding coerce_step_kind list_eq nat_eq
coerce_step_kind-kind_word generic = refl
coerce_step_kind-kind_word await_replies = refl
coerce_step_kind-kind_word monitor = refl
coerce_step_kind-kind_word recurring = refl

step_status_of-status_word : (s : StepStatus) → step_status_of (status_word s) ≡ some s
unfolding step_status_of list_eq nat_eq
step_status_of-status_word pending = refl
step_status_of-status_word running = refl
step_status_of-status_word waiting = refl
step_status_of-status_word done = refl
step_status_of-status_word failed = refl
step_status_of-status_word skipped = refl

abbrev restored_option : Option StepResult → Option StepResult
restored_option none = none
restored_option (some r) = some (restored_result r)

as_optional-result :
    (o : Option StepResult)
    → as_optional read_result (some (to_optional (λ r. Value.object (step_result_to_dict r)) o))
      ≡ some (restored_option o)
unfolding to_optional as_optional
as_optional-result none = refl
as_optional-result (some r) = rw (read_result, step_result_from_dict-step_result_to_dict r) refl

-- A criterion that a dict can be made of comes back as that dict.
unfoldable pub restored_criterion : Value → Value
unfolding dict_of
restored_criterion v = elim (dict_of v) [ none ↦ v | some d ↦ Value.object d ]

dicts_of_restored :
    (vs : List Value) (ds : List Fields)
    → dicts_of vs ≡ some ds
    → map (λ d. Value.object d) ds ≡ map restored_criterion vs
unfolding dicts_of restored_criterion
dicts_of_restored [] ds h = ground arith
dicts_of_restored (v ∷ vs) ds h = elim (Option-cases (dict_of v)) [
  | inl e ↦ absurd (ground arith)
  | inr (d, e) ↦ elim (Option-cases (dicts_of vs)) [
    | inl e' ↦ absurd (ground arith)
    | inr (ds', e') ↦ ground (arith, dicts_of_restored vs ds' e')
  ]
]

read_criterion_lem :
    (ds : List Fields)
    → of_array read_criterion (to_array Value.object ds) ≡ some (map (λ d. Value.object d) ds)
unfolding of_array to_array read_criterion dict_of
read_criterion_lem [] = refl
read_criterion_lem (d ∷ ds) = rw (read_criterion_lem ds) refl

abbrev pub restored_step : PlanStep → PlanStep
restored_step s = record s {
  done_criteria = map restored_criterion s.done_criteria;
  result = restored_option s.result;
}

step_from_dict-step_fields :
    (s : PlanStep) (ds : List Fields)
    → step_from_dict (step_fields s ds)
      ≡ some (record s {
        done_criteria = map (λ d. Value.object d) ds;
        result = restored_option s.result;
      })
unfolding step_from_dict list_eq nat_eq as_fields
step_from_dict-step_fields s ds =
    rw
      (
        of_array-to_array_same of_nat read_nat (λ x. refl) s.depends_on,
        of_array-to_array_same Value.text read_text (λ x. refl) s.needs,
        read_criterion_lem ds,
        step_status_of-status_word s.status,
        as_optional-result s.result,
        coerce_step_kind-kind_word s.kind,
      )
      refl

abbrev pub restored_plan : Plan → Plan
restored_plan p = record p { steps = map restored_step p.steps }

step_from_dict-step_to_dict :
    (s : PlanStep) (d : Fields)
    → step_to_dict s ≡ some d
    → step_from_dict d ≡ some (restored_step s)
unfolding step_to_dict
step_from_dict-step_to_dict s d h = elim (Option-cases (dicts_of s.done_criteria)) [
  | inl e ↦ absurd (ground arith)
  | inr (ds, e) ↦
      let same : step_fields s ds ≡ d = ground arith in
      rw (← same, step_from_dict-step_fields s ds, dicts_of_restored s.done_criteria ds e) refl
]

steps_to_array-restored :
    (steps : List PlanStep) (vs : Values)
    → steps_to_array steps ≡ some vs
    → of_array read_step vs ≡ some (map restored_step steps)
unfolding steps_to_array of_array
steps_to_array-restored [] vs h = let same : Values.nil ≡ vs = ground arith in rw (← same) refl
steps_to_array-restored (s ∷ steps) vs h = elim (Option-cases (step_to_dict s)) [
  | inl e ↦ absurd (ground arith)
  | inr (d, e) ↦ elim (Option-cases (steps_to_array steps)) [
    | inl e' ↦ absurd (ground arith)
    | inr (vs', e') ↦
        let same : Values.cons (Value.object d) vs' ≡ vs = ground arith in
        rw
          (
            ← same,
            read_step,
            step_from_dict-step_to_dict s d e,
            steps_to_array-restored steps vs' e',
          )
          refl
  ]
]

-- A plan that could be stored comes back with its step results and criteria restored: every
-- effect record counts as mutating, and every criterion is a dict.
pub plan_from_dict-plan_to_dict :
    (p : Plan) (d : Fields) → plan_to_dict p ≡ some d → plan_from_dict d ≡ some (restored_plan p)
unfolding plan_to_dict plan_from_dict list_eq nat_eq as_fields
plan_from_dict-plan_to_dict p d h = elim (Option-cases (steps_to_array p.steps)) [
  | inl e ↦ absurd (ground arith)
  | inr (vs, e) ↦
      let same : plan_fields p vs ≡ d = ground arith in
      rw (← same, steps_to_array-restored p.steps vs e) refl
]

-- Whether `dict` can be made of a criterion.
abbrev pub is_storable : PlanStep → Bool
is_storable s = all (λ c. is_some (dict_of c)) s.done_criteria

dicts_of_iff : (vs : List Value) → is_some (dicts_of vs) ≡ all (λ c. is_some (dict_of c)) vs
unfolding dicts_of
dicts_of_iff [] = refl
dicts_of_iff (v ∷ vs) = ground (arith, dicts_of_iff vs)

steps_to_array_iff :
    (steps : List PlanStep) → is_some (steps_to_array steps) ≡ all is_storable steps
unfolding steps_to_array step_to_dict
steps_to_array_iff [] = refl
steps_to_array_iff (s ∷ steps) =
    ground (arith, dicts_of_iff s.done_criteria, steps_to_array_iff steps)

pub plan_to_dict_iff : (p : Plan) → is_some (plan_to_dict p) ≡ all is_storable p.steps
unfolding plan_to_dict
plan_to_dict_iff p = ground (arith, steps_to_array_iff p.steps)
