-- ===== src/Planner/Tests.antt =====
-- A run of the parser on a proposal with a forward and a cyclic dependency, and its theorem there.
use flowers_oss.Base.{
  ℕ, ◌<◌, true, length, arith, ◌≡◌, refl, ◌≢◌, Bool, none, some, Option, List, [], ◌∷◌, map,
  list_eq, nat_eq,
}
use flowers_oss.Base.Text.{Text, str, ltb, lower, strip, has_char}
use flowers_oss.Base.Value
use flowers_oss.Base.Value.{ℤ, Value, Values, Fields}
use flowers_oss.Types.Plan.{PlanStep, ready_indices, is_complete}
use flowers_oss.Mandate.Counts.{py_int}
use flowers_oss.Mandate.Grant.{iterate}
use flowers_oss.Planner.{
  backward_deps, with_effect, coerce_kind, needs_of, step_of, parse_from, parse_steps,
}
use flowers_oss.Planner.Progress.{advance, parse_steps-progress}
use flowers_oss.Planner.Replan.{replan, kept, added_steps, single_steps, replan_progress}

abbrev repr : Value → Text
repr v = str "[...]"

abbrev step : Text → Values → Value
step text deps = Value.object (
    Fields.field (str "text") (Value.text text)
      (Fields.field (str "depends_on") (Value.array deps) Fields.end))

abbrev index : ℕ → Value
index n = Value.int (ℤ.pos n)

-- The first step depends on the second and on itself, the second on the first.
abbrev content : Value
content = Value.array (
    Values.cons (step (str "find it") (Values.cons (index 1) (Values.cons (index 0) Values.nil))) (
      Values.cons (step (str " ") Values.nil)
        (Values.cons (step (str "send it") (Values.cons (index 0) Values.nil)) Values.nil)))

parsed : Option Value → Option (List PlanStep)
unfolding parse_steps parse_from step_of needs_of coerce_kind with_effect backward_deps iterate
    py_int lower strip has_char Value.get Value.values_list Value.py_str list_eq nat_eq
parsed = parse_steps repr 12 0

abbrev shape : Option (List PlanStep) → List (List ℕ)
shape none = []
shape (some steps) = map (λ s. s.index ∷ s.depends_on) steps

abbrev steps_of : Option (List PlanStep) → List PlanStep
steps_of none = []
steps_of (some steps) = steps

shapes : shape (parsed (some content)) ≡ (0 ∷ []) ∷ (1 ∷ 0 ∷ []) ∷ []
unfolding parsed
shapes = refl

-- The first step is done.
abbrev first_done : ℕ → Bool
first_done n = ltb n 1

some_steps : steps_of (parse_steps repr 12 0 (some content)) ≢ []
unfolding parsed
some_steps p = cc

parse_steps-progress_example :
    ready_indices (advance first_done (steps_of (parse_steps repr 12 0 (some content)))) ≢ []
unfolding parsed is_complete advance
parse_steps-progress_example =
    parse_steps-progress repr 12 (some content) (steps_of (parse_steps repr 12 0 (some content)))
      first_done refl some_steps refl

-- The step that the run began with is done, and the plan of the content above comes after it.
replanned : List PlanStep
unfolding replan added_steps single_steps kept parse_steps parse_from step_of needs_of coerce_kind
    with_effect backward_deps iterate py_int lower strip has_char Value.get Value.values_list
    Value.py_str list_eq nat_eq
replanned = replan repr 12 true (single_steps (str "find it")) (some (some content))

replanned_shape :
    map (λ s. s.index ∷ s.depends_on) replanned ≡ (0 ∷ []) ∷ (1 ∷ 0 ∷ []) ∷ (2 ∷ 0 ∷ []) ∷ []
unfolding replanned
replanned_shape = refl

replanned_length :
    length (single_steps (str "find it"))
    < length (replan repr 12 true (single_steps (str "find it")) (some (some content)))
unfolding replanned single_steps
replanned_length = omega arith

replan_progress_example :
    ready_indices (replan repr 12 true (single_steps (str "find it")) (some (some content))) ≢ []
replan_progress_example =
    replan_progress repr 12 true (single_steps (str "find it")) (some (some content))
      replanned_length
