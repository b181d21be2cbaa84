-- ===== src/Planner/Replan.antt =====
-- `replan` and `_single_steps` of flowers/engine/planner.py, given what the model answers.
use flowers_oss.Base.{
  ℕ, suc, ◌+◌, ◌≡◌, ◌≢◌, refl, Bool, true, false, Option, none, some, List, [], ◌∷◌, ◌++◌, length,
  all, All, arith, Option-cases, inl, inr, if◌then◌else◌, ◌<◌,
}
use mathlib.Core.Path.{subst}
use flowers_oss.Base.Text.{Text}
use flowers_oss.Base.Value.{Value, Fields}
use flowers_oss.Types.Plan.{
  PlanStep, generic, pending, done, IsBackward, IsOpen, is_complete, is_over, ready_indices,
  ready_indices-ne-nil,
}
use flowers_oss.Planner.{parse_steps}
use flowers_oss.Planner.Progress.{parse_steps-IsBackward}

-- `_single_steps`
unfoldable pub single_steps : Text → List PlanStep
single_steps goal_text =
    record {
      index = 0;
      text = goal_text;
      kind = generic;
      depends_on = [];
      needs = [];
      params = Fields.end;
      done_criteria = [];
      status = pending;
      result = none;
    }
    ∷ []

-- The completed steps as the new plan holds them, numbered from `i` on.
unfoldable pub kept : ℕ → List PlanStep → List PlanStep
kept i [] = []
kept i (s ∷ steps) =
    record {
      index = i;
      text = s.text;
      kind = s.kind;
      depends_on = [];
      needs = [];
      params = s.params;
      done_criteria = s.done_criteria;
      status = done;
      result = none;
    }
    ∷ kept (i + 1) steps

abbrev steps_or_none : Option (List PlanStep) → List PlanStep
steps_or_none none = []
steps_or_none (some steps) = steps

-- The steps that the model's answer adds; none is an exception of the call, and the inner none an
-- answer that is no JSON.
unfoldable pub added_steps : (Value → Text) → ℕ → ℕ → Option (Option Value) → List PlanStep
added_steps repr max_steps offset none = []
added_steps repr max_steps offset (some content) =
    steps_or_none (parse_steps repr max_steps offset content)

-- The steps of `replan`
unfoldable pub replan :
    (Value → Text) → ℕ → Bool → List PlanStep → Option (Option Value) → List PlanStep
unfolding kept added_steps
replan repr max_steps available done_steps answer =
    if available
    then kept 0 done_steps ++ added_steps repr max_steps (length done_steps) answer
    else kept 0 done_steps

pub added_steps-IsBackward :
    (repr : Value → Text) (max_steps offset : ℕ) (answer : Option (Option Value))
    → IsBackward offset (added_steps repr max_steps offset answer)
      × All (λ s. s.status ≡ pending) (added_steps repr max_steps offset answer)
unfolding added_steps
added_steps-IsBackward repr max_steps offset none = (tt, tt)
added_steps-IsBackward repr max_steps offset (some content) =
    elim (Option-cases (parse_steps repr max_steps offset content)) [
      | inl e ↦ rw e (tt, tt)
      | inr (steps, e) ↦ rw e (parse_steps-IsBackward repr max_steps offset content steps e)
    ]

kept-append-IsBackward :
    (i : ℕ) (done_steps added : List PlanStep)
    → IsBackward (i + length done_steps) added
    → IsBackward i (kept i done_steps ++ added)
unfolding kept
kept-append-IsBackward i [] added b =
    let e : i + 0 ≡ i = omega arith in subst (λ n. IsBackward n added) e b
kept-append-IsBackward i (s ∷ steps) added b =
    let e : i + suc (length steps) ≡ i + 1 + length steps = omega arith in
    (refl, tt, kept-append-IsBackward (i + 1) steps added (subst (λ n. IsBackward n added) e b))

kept-append-IsOpen :
    (i : ℕ) (done_steps added : List PlanStep)
    → All (λ s. s.status ≡ pending) added
    → IsOpen (kept i done_steps ++ added)
unfolding kept
kept-append-IsOpen i [] added p = pending-IsOpen added p
  where
    pending-IsOpen : (xs : List PlanStep) → All (λ s. s.status ≡ pending) xs → IsOpen xs
    pending-IsOpen [] p = tt
    pending-IsOpen (x ∷ xs) p = (inl p.0, pending-IsOpen xs p.1)
kept-append-IsOpen i (s ∷ steps) added p = (inr refl, kept-append-IsOpen (i + 1) steps added p)

length-append : (xs ys : List PlanStep) → length (xs ++ ys) ≡ length xs + length ys
length-append [] ys = omega arith
length-append (x ∷ xs) ys = omega (arith, length-append xs ys)

length-kept : (i : ℕ) (steps : List PlanStep) → length (kept i steps) ≡ length steps
unfolding kept
length-kept i [] = refl
length-kept i (s ∷ steps) = omega (arith, length-kept (i + 1) steps)

unfinished :
    (i : ℕ) (done_steps added : List PlanStep)
    → All (λ s. s.status ≡ pending) added
    → 0 < length added
    → all (λ s. is_over s.status) (kept i done_steps ++ added) ≡ false
unfolding kept
unfinished i [] [] p h = absurd (omega arith)
unfinished i [] (x ∷ added) p h = ground (arith, p.0)
unfinished i (s ∷ steps) added p h = ground (arith, unfinished (i + 1) steps added p h)

append-ne-nil : (xs ys : List PlanStep) → 0 < length ys → xs ++ ys ≢ []
append-ne-nil [] [] h = absurd (omega arith)
append-ne-nil [] (y ∷ ys) h = λ p. cc
append-ne-nil (x ∷ xs) ys h = λ p. cc

-- A replan that holds more steps than those that are done, which is what the operator asks of it, has a
-- step that is ready.
pub replan_progress :
    (repr : Value → Text) (max_steps : ℕ) (available : Bool) (done_steps : List PlanStep)
    (answer : Option (Option Value))
    → length done_steps < length (replan repr max_steps available done_steps answer)
    → ready_indices (replan repr max_steps available done_steps answer) ≢ []
unfolding replan is_complete
replan_progress repr max_steps false done_steps answer more =
    absurd (omega (arith, length-kept 0 done_steps))
replan_progress repr max_steps true done_steps answer more =
    let added : List PlanStep = added_steps repr max_steps (length done_steps) answer in
    let (backward, waits) = added_steps-IsBackward repr max_steps (length done_steps) answer in
    let some_added : 0 < length added =
      omega (arith, length-append (kept 0 done_steps) added, length-kept 0 done_steps) in
    let e : length done_steps ≡ 0 + length done_steps = omega arith in
    ready_indices-ne-nil (kept 0 done_steps ++ added)
      (kept-append-IsBackward 0 done_steps added (subst (λ n. IsBackward n added) e backward))
      (kept-append-IsOpen 0 done_steps added waits)
      (append-ne-nil (kept 0 done_steps) added some_added)
      (rw (unfinished 0 done_steps added waits some_added) refl)
