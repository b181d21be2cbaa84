-- ===== src/Planner/Progress.antt =====
-- The progress of the plans that `_parse_steps` of flowers/engine/planner.py gives.
use flowers_oss.Base.{
  ◌⊎◌, ℕ, ◌+◌, ◌<◌, ◌≡◌, refl, ◌≢◌, Bool, true, false, not, ◌&&◌, Option, none, some, List, [], ◌∷◌,
  ◌++◌, contains, nat_eq, All, arith, if◌then◌else◌, Option-cases, inl, inr,
}
use mathlib.Core.Option.{some-injective}
use flowers_oss.Base.Text.{Text, ltb}
use flowers_oss.Base.Value.{ℤ, Value, Fields}
use flowers_oss.Mandate.Counts.{py_int}
use flowers_oss.Types.Plan.{
  PlanStep, pending, done, IsBackward, IsOpen, ready_indices, is_complete, ready_indices-ne-nil,
}
use flowers_oss.Planner.{
  add_dep, backward_deps, step_of, parse_from, parse_steps, unless_blank, made, and_then, raw_steps,
}

All-append_one :
    (n : ℕ) (xs : List ℕ) (x : ℕ) → All (λ d. d < n) xs → x < n → All (λ d. d < n) (xs ++ (x ∷ []))
All-append_one n [] x b lt = (lt, tt)
All-append_one n (y ∷ xs) x b lt = (b.0, All-append_one n xs x b.1 lt)

add_dep-bound :
    (n : ℕ) (deps : List ℕ) (d : Option ℤ)
    → All (λ d. d < n) deps
    → All (λ d. d < n) (add_dep n deps d)
add_dep-bound n deps none b = b
add_dep-bound n deps (some (ℤ.negsuc k)) b = b
add_dep-bound n deps (some (ℤ.pos d)) b = go (ltb d n && not (contains deps d)) refl
  where
    go :
        (t : Bool)
        → (ltb d n && not (contains deps d)) ≡ t
        → All (λ d. d < n) (if t then deps ++ (d ∷ []) else deps)
    go true e = All-append_one n deps d b (ground arith)
    go false e = b

backward_deps-bound :
    (n : ℕ) (deps : List ℕ) (vs : List Value)
    → All (λ d. d < n) deps
    → All (λ d. d < n) (backward_deps n deps vs)
unfolding backward_deps
backward_deps-bound n deps [] b = b
backward_deps-bound n deps (v ∷ vs) b =
    backward_deps-bound n (add_dep n deps (py_int v)) vs (add_dep-bound n deps _ b)

-- A step that may stand at an index of a fresh plan.
abbrev IsFresh : ℕ → PlanStep → Type 0
IsFresh idx s = (s.index ≡ idx) × All (λ d. d < idx) s.depends_on × (s.status ≡ pending)

unless_blank_elim :
    (text : Text) (o : Option (Option PlanStep)) (s : PlanStep)
    → unless_blank text o ≡ some (some s)
    → o ≡ some (some s)
unless_blank_elim [] o s h = cc
unless_blank_elim (c ∷ text) o s h = h

module _ (repr : Value → Text) where
  made-IsFresh :
      (idx : ℕ) (text : Text) (item : Fields) (needs : Option (List Text)) (s : PlanStep)
      → made repr idx text item needs ≡ some (some s)
      → IsFresh idx s
  made-IsFresh idx text item none s h = cc
  made-IsFresh idx text item (some needs) s h =
      let p = some-injective _ _ (some-injective _ _ h) in
      rw⁻¹ p (refl, backward_deps-bound idx [] _ tt, refl)

  step_of-IsFresh :
      (idx : ℕ) (v : Value) (s : PlanStep) → step_of repr idx v ≡ some (some s) → IsFresh idx s
  unfolding step_of
  step_of-IsFresh idx (Value.object item) s h =
      made-IsFresh idx _ item _ s (unless_blank_elim _ _ s h)
  step_of-IsFresh idx Value.null s h = cc
  step_of-IsFresh idx (Value.bool b) s h = cc
  step_of-IsFresh idx (Value.int n) s h = cc
  step_of-IsFresh idx (Value.text t) s h = cc
  step_of-IsFresh idx (Value.array vs) s h = cc

  parse_from_sound :
      (idx : ℕ) (items : List Value) (steps : List PlanStep)
      → parse_from repr idx items ≡ some steps
      → IsBackward idx steps × All (λ s. s.status ≡ pending) steps
  unfolding parse_from
  parse_from_sound idx [] steps h = rw⁻¹ (some-injective _ _ h) (tt, tt)
  parse_from_sound idx (v ∷ items) steps h =
      go (step_of repr idx v) (λ n rest r. parse_from_sound n items rest r) refl
    where
      Later : Type 0
      Later =
          (n : ℕ) (rest : List PlanStep)
          → parse_from repr n items ≡ some rest
          → IsBackward n rest × All (λ s. s.status ≡ pending) rest

      finish :
          (later : Later) (s : PlanStep) (rest : Option (List PlanStep))
          → step_of repr idx v ≡ some (some s)
          → parse_from repr (idx + 1) items ≡ rest
          → and_then s rest ≡ some steps
          → IsBackward idx steps × All (λ s. s.status ≡ pending) steps
      finish later s none e r h = cc
      finish later s (some rest) e r h =
          let (i, deps, p) = step_of-IsFresh idx v s e in
          let (b, a) = later (idx + 1) rest r in rw⁻¹ (some-injective _ _ h) ((i, deps, b), (p, a))

      go :
          (o : Option (Option PlanStep))
          → Later
          → step_of repr idx v ≡ o
          → IsBackward idx steps × All (λ s. s.status ≡ pending) steps
      go none later e = cc (rw (e, parse_from) at h)
      go (some none) later e = later idx steps (rw (e, parse_from) at h)
      go (some (some s)) later e = finish later s _ e refl (rw (e, parse_from) at h)

  -- A parsed plan is numbered from the offset, depends backward only, and waits in every step.
  pub parse_steps-IsBackward :
      (max_steps offset : ℕ) (content : Option Value) (steps : List PlanStep)
      → parse_steps repr max_steps offset content ≡ some steps
      → IsBackward offset steps × All (λ s. s.status ≡ pending) steps
  unfolding parse_steps
  parse_steps-IsBackward max_steps offset content steps h =
      elim (Option-cases (raw_steps content)) [
        | inl no_steps ↦ rw⁻¹ (some-injective _ _ (rw (no_steps, parse_steps) at h)) (tt, tt)
        | inr (raw, found) ↦ parse_from_sound offset _ steps (rw (found, parse_steps) at h)
      ]

-- A plan of which the steps at some indices are done and the others wait.
unfoldable pub advance : (ℕ → Bool) → List PlanStep → List PlanStep
advance is_finished [] = []
advance is_finished (s ∷ steps) =
    record s { status = if is_finished s.index then done else pending } ∷ advance is_finished steps

advance-IsBackward :
    (is_finished : ℕ → Bool) (n : ℕ) (steps : List PlanStep)
    → IsBackward n steps
    → IsBackward n (advance is_finished steps)
unfolding advance
advance-IsBackward is_finished n [] b = tt
advance-IsBackward is_finished n (s ∷ steps) (i, deps, b) =
    (i, deps, advance-IsBackward is_finished (n + 1) steps b)

advance-IsOpen :
    (is_finished : ℕ → Bool) (steps : List PlanStep) → IsOpen (advance is_finished steps)
unfolding advance
advance-IsOpen is_finished [] = tt
advance-IsOpen is_finished (s ∷ steps) =
    (go (is_finished s.index), advance-IsOpen is_finished steps)
  where
    go :
        (b : Bool)
        → ((if b then done else pending) ≡ pending) ⊎ ((if b then done else pending) ≡ done)
    go true = inr refl
    go false = inl refl

advance-ne-nil :
    (is_finished : ℕ → Bool) (steps : List PlanStep) → steps ≢ [] → advance is_finished steps ≢ []
unfolding advance
advance-ne-nil is_finished [] n e = n refl
advance-ne-nil is_finished (s ∷ steps) n e = cc

-- A plan that is parsed from what the model proposes, cyclic or dangling dependencies included,
-- never deadlocks: whichever of its steps are done, some step is ready unless all are done.
pub parse_steps-progress :
    (repr : Value → Text) (max_steps : ℕ) (content : Option Value) (steps : List PlanStep)
    (is_finished : ℕ → Bool)
    → parse_steps repr max_steps 0 content ≡ some steps
    → steps ≢ []
    → is_complete (advance is_finished steps) ≡ false
    → ready_indices (advance is_finished steps) ≢ []
parse_steps-progress repr max_steps content steps is_finished h n incomplete =
    ready_indices-ne-nil (advance is_finished steps)
      (advance-IsBackward is_finished 0 steps
        (parse_steps-IsBackward repr max_steps 0 content steps h).0)
      (advance-IsOpen is_finished steps) (advance-ne-nil is_finished steps n) incomplete
