-- ===== src/Operator/Ladder/Bounds.antt =====
-- The work on a step ends, after at most thirteen attempts.
use flowers_oss.Base.{
  ℕ, zero, suc, ◌+◌, ◌≤◌, ◌≡◌, refl, Bool, true, false, not, ◌||◌, Option, none, some,
  if◌then◌else◌, arith, Bool-cases, inl, inr,
}
use flowers_oss.Base.Text.{leb}
use flowers_oss.Types.Run.{RunState}
use flowers_oss.Operator.Ladder.{
  has_headroom, Attempt, accepted, parked, escalated, refused, StepEnd, advanced, replanned,
  waiting, given_up, Ended, replan_remaining, give_up, after_attempt, climb, ladder_hard_cap,
  max_replans,
}

abbrev is_replanned : StepEnd → Bool
is_replanned replanned = true
is_replanned _ = false

-- The replans of a run stay within their cap, and the work on a step adds one at most: exactly one
-- where the rest of the plan was replaced.
abbrev pub KeepsCap : {W : Type 0} → RunState → Ended W → Type 0
KeepsCap run (end, run', w) =
    (run'.dag_replans ≤ max_replans)
    × (run'.dag_replans ≤ run.dag_replans + 1)
    × ((if is_replanned end then run.dag_replans + 1 else run.dag_replans) ≤ run'.dag_replans)

module _ {W : Type 0} (attempt : ℕ → RunState → W → Attempt × ℕ × W)
    (replan : RunState → W → Bool × W) (now : W → ℕ) where
  give_up-KeepsCap :
      (run : RunState) (w : W)
      → run.dag_replans ≤ max_replans
      → KeepsCap run (give_up attempt replan now run w)
  unfolding give_up replan_remaining
  give_up-KeepsCap run w cap = (ground arith, ground arith, ground arith)

  after_attempt_total :
      (a : Attempt) (run : RunState) (w : W) (again : Option (Ended W)) (rung : ℕ)
      → run.dag_replans ≤ max_replans
      → (leb ladder_hard_cap rung ≡ false → (r : Ended W) × (again ≡ some r) × KeepsCap run r)
      → (r : Ended W) × (after_attempt attempt replan now a run w again rung ≡ some r)
        × KeepsCap run r
  unfolding after_attempt
  after_attempt_total accepted run w again rung cap h =
      ((advanced, run, w), refl, (cap, omega arith, omega arith))
  after_attempt_total parked run w again rung cap h =
      ((waiting, run, w), refl, (cap, omega arith, omega arith))
  after_attempt_total escalated run w again rung cap h =
      ((given_up, run, w), refl, (cap, omega arith, omega arith))
  after_attempt_total refused run w again rung cap h =
      elim (Bool-cases (not (has_headroom run (now w)) || leb ladder_hard_cap rung)) [
        | inl spent ↦
            let keeps = give_up-KeepsCap run w cap in
            (give_up attempt replan now run w, rw spent refl, keeps)
        | inr more ↦ let (r, e, keeps) = h (ground arith) in (r, rw more e, keeps)
      ]

  -- The work on a step ends whatever the attempts come to: with the fuel for all rungs up to the
  -- cap, thirteen from the lowest, it never runs out. Where the number of replans is within its cap
  -- it stays there; one is added at most, and one is if the rest of the plan was replaced.
  pub climb_total :
      (rung : ℕ) (run : RunState) (w : W) (k : ℕ)
      → ladder_hard_cap ≤ rung + k
      → run.dag_replans ≤ max_replans
      → (r : Ended W) × (climb attempt replan now (suc k) rung run w ≡ some r) × KeepsCap run r
  unfolding climb
  climb_total rung run w zero h cap =
      let (a, spent, w') = attempt rung run w in
      after_attempt_total a (record run { spent_usd = spent }) w' none rung cap
        (λ e. absurd (ground arith))
  climb_total rung run w (suc k) h cap =
      let (a, spent, w') = attempt rung run w in
      let run' = record run { spent_usd = spent } in
      after_attempt_total a run' w' (climb attempt replan now (suc k) (rung + 1) run' w') rung cap
        (λ e. climb_total (rung + 1) run' w' k (omega arith) cap)
