-- ===== src/Operator/Recovery/Progress.antt =====
-- A run that is recovered has something to do.
use flowers_oss.Base.{
  ℕ, ◌+◌, ◌≡◌, ◌≢◌, refl, true, false, Option, none, some, List, [], ◌∷◌, map, any, all, All,
  nat_eq, arith, Bool-cases, Option-cases, inl, inr, ◌⊎◌,
}
use flowers_oss.Base.Text.{Text}
use flowers_oss.Types.Plan.{
  Plan, PlanStep, running, pending, done, IsBackward, IsOpen, is_over, is_complete, ready_indices,
  ready_indices-ne-nil,
}
use flowers_oss.Types.Run.{RunState}
use flowers_oss.Store.Plans.{plan_to_dict}
use flowers_oss.Store.Tables.{Codec, Store}
use flowers_oss.Store.Roundtrip.Plans.{restored_step, restored_plan, is_storable, plan_to_dict_iff}
use flowers_oss.Store.RunTable.Laws.{get_plan-save_plan}
use flowers_oss.Store.RunTable.{get_run, save_plan, get_plan}
use flowers_oss.Operator.Recovery.{
  Recovery, drives, is_interrupted, is_running, reset_step, reset, recover_plan, recover_run,
  recover,
}

-- Every step waits, was being driven, or is done.
abbrev pub IsDriven : List PlanStep → Type 0
IsDriven steps = All (λ s. (s.status ≡ pending) ⊎ (s.status ≡ running) ⊎ (s.status ≡ done)) steps

-- A step that is reset and stored.
abbrev stored : PlanStep → PlanStep
stored s = restored_step (reset_step s)

stored_index : (s : PlanStep) → (stored s).index ≡ s.index
stored_index s = elim (Bool-cases (is_running s.status)) [ inl e ↦ rw e refl | inr e ↦ rw e refl ]

stored_depends_on : (s : PlanStep) → (stored s).depends_on ≡ s.depends_on
stored_depends_on s = elim (Bool-cases (is_running s.status)) [
  | inl e ↦ rw e refl
  | inr e ↦ rw e refl
]

stored-IsBackward :
    (n : ℕ) (steps : List PlanStep)
    → IsBackward n steps
    → IsBackward n (map restored_step (map reset_step steps))
stored-IsBackward n [] b = tt
stored-IsBackward n (s ∷ steps) (e, deps, b) =
    (rw (stored_index s) e, rw (stored_depends_on s) deps, stored-IsBackward (n + 1) steps b)

stored-IsOpen :
    (steps : List PlanStep) → IsDriven steps → IsOpen (map restored_step (map reset_step steps))
stored-IsOpen [] d = tt
stored-IsOpen (s ∷ steps) (inl p, d) = (inl (rw p refl), stored-IsOpen steps d)
stored-IsOpen (s ∷ steps) (inr (inl p), d) = (inl (rw p refl), stored-IsOpen steps d)
stored-IsOpen (s ∷ steps) (inr (inr p), d) = (inr (rw p refl), stored-IsOpen steps d)

is_over-reset_step : (s : PlanStep) → is_over (reset_step s).status ≡ is_over s.status
is_over-reset_step s = ground arith

done_criteria-reset_step : (s : PlanStep) → (reset_step s).done_criteria ≡ s.done_criteria
done_criteria-reset_step s = elim (Bool-cases (is_running s.status)) [
  | inl e ↦ rw e refl
  | inr e ↦ rw e refl
]

stored-unfinished :
    (steps : List PlanStep)
    → all (λ s. is_over s.status) (map restored_step (map reset_step steps))
      ≡ all (λ s. is_over s.status) steps
stored-unfinished [] = refl
stored-unfinished (s ∷ steps) = rw (is_over-reset_step s, stored-unfinished steps) refl

stored-IsStorable :
    (steps : List PlanStep)
    → all is_storable steps ≡ true
    → all is_storable (map reset_step steps) ≡ true
stored-IsStorable [] h = refl
stored-IsStorable (s ∷ steps) h =
    ground (arith, done_criteria-reset_step s, stored-IsStorable steps)

-- Where no step was being driven, all wait or are done.
none_running-IsOpen :
    (steps : List PlanStep)
    → IsDriven steps
    → any (λ x. is_running x.status) steps ≡ false
    → IsOpen steps
none_running-IsOpen [] d h = tt
none_running-IsOpen (s ∷ steps) (inl p, d) h = (inl p, none_running-IsOpen steps d (ground arith))
none_running-IsOpen (s ∷ steps) (inr (inl p), d) h = absurd (ground arith)
none_running-IsOpen (s ∷ steps) (inr (inr p), d) h =
    (inr p, none_running-IsOpen steps d (ground arith))

stored-ne-nil : (steps : List PlanStep) → steps ≢ [] → map restored_step (map reset_step steps) ≢ []
stored-ne-nil [] some_step = absurd (some_step refl)
stored-ne-nil (s ∷ steps) some_step = λ p. cc

stored-is_complete :
    (steps : List PlanStep)
    → is_complete (map restored_step (map reset_step steps)) ≡ is_complete steps
unfolding is_complete
stored-is_complete [] = refl
stored-is_complete (s ∷ steps) = rw (stored-unfinished (s ∷ steps)) refl

stored_ready :
    (steps : List PlanStep)
    → IsBackward 0 steps
    → IsDriven steps
    → steps ≢ []
    → is_complete steps ≡ false
    → ready_indices (map restored_step (map reset_step steps)) ≢ []
stored_ready steps b d some_step incomplete =
    ready_indices-ne-nil (map restored_step (map reset_step steps)) (stored-IsBackward 0 steps b)
      (stored-IsOpen steps d) (stored-ne-nil steps some_step)
      (rw (stored-is_complete steps) incomplete)

module _ {Json : Type 0} (c : Codec Json) where
  -- What is stored of a run that is driven again has a step that is ready.
  abbrev pub IsUnderWay : Text → Option (Recovery × Store Json) → Type 0
  IsUnderWay run_id none = ⊥
  IsUnderWay run_id (some (r, s)) =
      (q : Plan) × (r ≡ drives)
      × (get_plan c run_id s ≡ some (some q))
      × (ready_indices q.steps ≢ [])

  save_plan_total :
      (s : Store Json) (run_id : Text) (p : Plan)
      → all is_storable p.steps ≡ true
      → save_plan c run_id p s ≢ none
  unfolding save_plan
  save_plan_total s run_id p storable failed = elim (Option-cases (plan_to_dict p)) [
    | inl e ↦ ground (arith, plan_to_dict_iff p)
    | inr (d, e) ↦ ground arith
  ]

  recover_plan-IsUnderWay :
      (s : Store Json) (run_id : Text) (p : Plan)
      → get_plan c run_id s ≡ some (some p)
      → IsBackward 0 p.steps
      → IsDriven p.steps
      → all is_storable p.steps ≡ true
      → p.steps ≢ []
      → is_complete p.steps ≡ false
      → IsUnderWay run_id (recover_plan c run_id (some p) s)
  unfolding recover_plan
  recover_plan-IsUnderWay s run_id p planned b d storable some_step incomplete =
      elim (Bool-cases (any (λ x. is_running x.status) p.steps)) [
        | inl e ↦ elim (Option-cases (save_plan c run_id (reset p) s)) [
          | inl failed ↦
              absurd
                (save_plan_total s run_id (reset p) (stored-IsStorable p.steps storable) failed)
          | inr (s', saved) ↦
              rw (e, saved)
                (
                  restored_plan (reset p),
                  refl,
                  ground (arith, get_plan-save_plan c run_id run_id (reset p) s s' saved),
                  stored_ready p.steps b d some_step incomplete,
                )
        ]
        | inr e ↦ rw e (
          p,
          refl,
          planned,
          ready_indices-ne-nil p.steps b (none_running-IsOpen p.steps d e) some_step incomplete,
        )
      ]

  -- A run that was interrupted, and whose stored plan can be stored again, is driven again, with a step
  -- that is ready in its stored plan, if that plan is neither empty nor complete, its steps depend on
  -- earlier ones only, and each of them waited, was being driven or was done.
  pub recover_progress :
      (s : Store Json) (run_id : Text) (run : RunState) (p : Plan)
      → get_run c run_id s ≡ some (some run)
      → is_interrupted run.status ≡ true
      → get_plan c run_id s ≡ some (some p)
      → IsBackward 0 p.steps
      → IsDriven p.steps
      → all is_storable p.steps ≡ true
      → p.steps ≢ []
      → is_complete p.steps ≡ false
      → IsUnderWay run_id (recover c run_id s)
  unfolding recover recover_run
  recover_progress s run_id run p known stopped planned b d storable some_step incomplete =
      rw (known, stopped, planned)
        (recover_plan-IsUnderWay s run_id p planned b d storable some_step incomplete)
