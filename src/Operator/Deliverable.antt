-- ===== src/Operator/Deliverable.antt =====
-- What a run hands on and hands over: `_finishes_run`, `_run_deliverable`, the choice of the answer in
-- `_finalize`, and what `_run_generic_step` tells the executor of the steps before it, in
-- flowers/engine/operator.py.
use flowers_oss.Base.{
  ℕ, ◌+◌, ◌≡◌, refl, Bool, true, ◌||◌, Option, none, some, List, [], ◌∷◌, ◌++◌, ◌==◌, nat_eq, all,
  All, is_empty, if◌then◌else◌, inl, inr, Option-cases, Bool-cases, length,
}
use flowers_oss.Base.Text.{Text, strip}
use flowers_oss.Base.Value.{Value}
use flowers_oss.Types.Plan.{PlanStep, StepResult, is_done, pending}
use flowers_oss.Planner.Replan.{kept, replan, added_steps, added_steps-IsBackward}

-- `_finishes_run`: every step but this one is done.
unfoldable pub finishes_run : List PlanStep → PlanStep → Bool
unfolding nat_eq
finishes_run steps step = all (λ s. s.index == step.index || is_done s.status) steps

abbrev text_of : Option StepResult → Text
text_of none = []
text_of (some r) = r.text

-- The last of the texts that is not blank, or else the given one.
unfoldable pub last_text : (PlanStep → Text) → Text → List PlanStep → Text
unfolding strip
last_text f chosen [] = chosen
last_text f chosen (s ∷ steps) =
    last_text f (if is_empty (strip (f s)) then chosen else strip (f s)) steps

-- `_run_deliverable`
unfoldable pub run_deliverable : List PlanStep → PlanStep → StepResult → Text
unfolding last_text nat_eq
run_deliverable steps step result =
    last_text (λ s. if s.index == step.index then result.text else text_of s.result) [] steps

-- The deliverable of `_finalize`
unfoldable pub final_deliverable : List PlanStep → Text
unfolding last_text
final_deliverable steps = last_text (λ s. text_of s.result) [] steps

-- What the executor is told of the steps that are done.
unfoldable pub prior : List PlanStep → List (Text × Text)
prior [] = []
prior (s ∷ steps) =
    let rest = prior steps in
    elim s.result [
      | none ↦ rest
      | some r ↦ if is_done s.status then (s.text, r.text) ∷ rest else rest
    ]

-- The step at an index with the result that it was given.
unfoldable pub with_result : ℕ → StepResult → List PlanStep → List PlanStep
unfolding nat_eq
with_result i r [] = []
with_result i r (s ∷ steps) =
    (if s.index == i then record s { result = some r } else s) ∷ with_result i r steps

last_text-with_result :
    (step : PlanStep) (r : StepResult) (chosen : Text) (steps : List PlanStep)
    → last_text (λ s. if s.index == step.index then r.text else text_of s.result) chosen steps
      ≡ last_text (λ s. text_of s.result) chosen (with_result step.index r steps)
unfolding last_text with_result
last_text-with_result step r chosen [] = refl
last_text-with_result step r chosen (s ∷ steps) = elim (Bool-cases (s.index == step.index)) [
  | inl e ↦ rw (e) (
      last_text-with_result step r (if is_empty (strip r.text) then chosen else strip r.text) steps)
  | inr e ↦ rw (e) (
      last_text-with_result step r
        (if is_empty (strip (text_of s.result)) then chosen else strip (text_of s.result)) steps)
]

-- The text that the verifier judges before a step is accepted is the answer that the owner gets once the
-- step has its result.
pub run_deliverable-final :
    (steps : List PlanStep) (step : PlanStep) (r : StepResult)
    → run_deliverable steps step r ≡ final_deliverable (with_result step.index r steps)
unfolding run_deliverable final_deliverable
run_deliverable-final steps step r = last_text-with_result step r [] steps

prior-kept-append :
    (i : ℕ) (done_steps added : List PlanStep)
    → All (λ s. s.status ≡ pending) added
    → prior (kept i done_steps ++ added) ≡ []
unfolding prior kept
prior-kept-append i [] [] p = refl
prior-kept-append i [] (s ∷ added) p = elim (Option-cases s.result) [
  | inl e ↦ rw e (prior-kept-append i [] added p.1)
  | inr (r, e) ↦ rw e (rw (p.0) (prior-kept-append i [] added p.1))
]
prior-kept-append i (s ∷ steps) added p = prior-kept-append (i + 1) steps added p

-- After a replan the executor is told nothing of the steps that are done, whatever they found: the new
-- plan holds them without their results.
pub prior-replan :
    (repr : Value → Text) (max_steps : ℕ) (done_steps : List PlanStep)
    (answer : Option (Option Value))
    → prior (replan repr max_steps true done_steps answer) ≡ []
unfolding replan
prior-replan repr max_steps done_steps answer =
    prior-kept-append 0 done_steps (added_steps repr max_steps (length done_steps) answer)
      (added_steps-IsBackward repr max_steps (length done_steps) answer).1
