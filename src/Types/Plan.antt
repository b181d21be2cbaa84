-- ===== src/Types/Plan.antt =====
-- `Plan` and `PlanStep` of flowers/types.py: which steps are ready, and when a plan is complete.
use flowers_oss.Base.{
  ℕ, ◌≡◌, refl, ◌≢◌, Bool, true, false, not, ◌&&◌, Option, List, [], ◌∷◌, contains, ◌⊎◌, ◌<◌, ◌+◌,
  nat_eq, all, map, keep, is_empty, All, arith, inl, inr,
}
use native.Mathlib.Decide.{ℕ_discrete}
use flowers_oss.Base.Text.{Text}
use flowers_oss.Base.Value.{Fields, Value}
use flowers_oss.Types.Effect.{StampedEffect}

pub data StepKind : Type 0 where
  generic await_replies monitor recurring : StepKind

pub data StepStatus : Type 0 where
  pending running waiting done failed skipped : StepStatus

-- What a worker reports of a step; an event is the dict that the executor made for the gate.
pub record StepResult : Type 0 where
  pub claimed_done : Bool
  pub ok : Bool
  pub text : Text
  pub effects : List StampedEffect
  pub events : List Fields
  pub signals : Fields
  pub searches : ℕ
  pub tool_failures : ℕ

pub record PlanStep : Type 0 where
  pub index : ℕ
  pub text : Text
  pub kind : StepKind
  pub depends_on : List ℕ
  pub needs : List Text
  pub params : Fields
  pub done_criteria : List Value
  pub status : StepStatus
  pub result : Option StepResult

-- The mandate is the dict that the planner proposed.
pub record Plan : Type 0 where
  pub steps : List PlanStep
  pub goal_text : Text
  pub mandate : Fields

abbrev pub is_done : StepStatus → Bool
is_done done = true
is_done _ = false

abbrev pub is_pending : StepStatus → Bool
is_pending pending = true
is_pending _ = false

abbrev pub is_over : StepStatus → Bool
is_over done = true
is_over skipped = true
is_over _ = false

unfoldable pub done_indices : List PlanStep → List ℕ
done_indices steps = map (λ s. s.index) (keep (λ s. is_done s.status) steps)

abbrev is_ready : List ℕ → PlanStep → Bool
is_ready finished s = is_pending s.status && all (contains finished) s.depends_on

unfoldable pub ready_indices : List PlanStep → List ℕ
ready_indices steps = map (λ s. s.index) (keep (is_ready (done_indices steps)) steps)

unfoldable pub is_complete : List PlanStep → Bool
is_complete steps = all (λ s. is_over s.status) steps && not (is_empty steps)

-- Each dependency of a step points at an earlier step, and the steps are numbered from `n` on.
abbrev pub IsBackward : ℕ → List PlanStep → Type 0
IsBackward n [] = Unit
IsBackward n (s ∷ steps) = (s.index ≡ n) × All (λ d. d < n) s.depends_on × IsBackward (n + 1) steps

-- Every step waits to be run, or is done.
abbrev pub IsOpen : List PlanStep → Type 0
IsOpen steps = All (λ s. (s.status ≡ pending) ⊎ (s.status ≡ done)) steps

all-contains :
    (finished : List ℕ) (n : ℕ) (deps : List ℕ)
    → ((d : ℕ) → d < n → contains finished d ≡ true)
    → All (λ d. d < n) deps
    → all (contains finished) deps ≡ true
all-contains finished n [] h b = refl
all-contains finished n (d ∷ deps) h b = ground (arith, all-contains finished n deps h b.1, h d b.0)

-- The done steps of a list are among the finished ones.
abbrev AreFinished : List ℕ → List PlanStep → Type 0
AreFinished finished = All (λ s. is_done s.status ≡ true → contains finished s.index ≡ true)

contains-below_suc :
    (finished : List ℕ) (n : ℕ)
    → ((d : ℕ) → d < n → contains finished d ≡ true)
    → contains finished n ≡ true
    → (d : ℕ) → d < n + 1
    → contains finished d ≡ true
contains-below_suc finished n h last d lt = elim (ℕ_discrete d n) [
  | yes same ↦ rw same last
  | no other ↦ h d (omega arith)
]

some_ready :
    (finished : List ℕ) (n : ℕ) (steps : List PlanStep)
    → IsBackward n steps
    → IsOpen steps
    → AreFinished finished steps
    → ((d : ℕ) → d < n → contains finished d ≡ true)
    → all (λ s. is_over s.status) steps ≡ false
    → is_empty (keep (is_ready finished) steps) ≡ false
some_ready finished n [] b o f h open_step = cc
some_ready finished n (s ∷ steps) (e, deps, b) (inl p, o) (g, f) h open_step =
    ground (arith, all-contains finished n s.depends_on h deps)
some_ready finished n (s ∷ steps) (e, deps, b) (inr p, o) (g, f) h open_step = ground (
  arith,
  some_ready finished (n + 1) steps b o f
      (contains-below_suc finished n h (rw e at (g (rw p refl)))) (ground arith),
)

done-AreFinished :
    (finished : List ℕ) (steps : List PlanStep)
    → ((i : ℕ) → contains (done_indices steps) i ≡ true → contains finished i ≡ true)
    → AreFinished finished steps
unfolding done_indices nat_eq
done-AreFinished finished [] h = tt
done-AreFinished finished (s ∷ steps) h =
    (λ d. h s.index (ground arith), done-AreFinished finished steps (λ i m. h i (ground arith)))

-- A plan whose steps depend on earlier ones only, and whose steps are all waiting or done, always
-- has a step that is ready unless it is complete: no plan of this form deadlocks.
pub ready_indices-ne-nil :
    (steps : List PlanStep)
    → IsBackward 0 steps
    → IsOpen steps
    → steps ≢ []
    → is_complete steps ≡ false
    → ready_indices steps ≢ []
unfolding ready_indices is_complete
ready_indices-ne-nil steps b o some_step incomplete = ground (
  arith,
  some_ready (done_indices steps) 0 steps b o
      (done-AreFinished (done_indices steps) steps (λ i m. m)) (λ d h. absurd (omega arith)),
)
