-- ===== src/Types/Tests.antt =====
-- The ready steps of a plan of three steps.
use flowers_oss.Base.{ℕ, ◌≡◌, refl, none, List, [], ◌∷◌, nat_eq}
use flowers_oss.Base.Text.{str}
use flowers_oss.Base.Value.{Fields}
use flowers_oss.Types.Plan.{
  PlanStep, StepStatus, generic, pending, done, done_indices, ready_indices,
}

abbrev step : ℕ → StepStatus → List ℕ → PlanStep
step i status deps = record {
  index = i;
  text = str "write the report";
  kind = generic;
  depends_on = deps;
  needs = [];
  params = Fields.end;
  done_criteria = [];
  status = status;
  result = none;
}

-- A done step, one that waits for it, and one that waits for that.
abbrev steps : List PlanStep
steps = step 0 done [] ∷ step 1 pending (0 ∷ []) ∷ step 2 pending (1 ∷ []) ∷ []

ready : ready_indices steps ≡ 1 ∷ []
unfolding ready_indices done_indices nat_eq
ready = refl
