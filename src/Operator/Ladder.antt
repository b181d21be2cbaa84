-- ===== src/Operator/Ladder.antt =====
-- How often a step is tried again: `_has_headroom`, `_climb_ladder` and `_replan_remaining` of
-- flowers/engine/operator.py.
pub mod Bounds
use flowers_oss.Base.{
  ℕ, zero, suc, ◌+◌, Bool, true, false, not, ◌&&◌, ◌||◌, Option, none, some, if◌then◌else◌,
}
use flowers_oss.Base.Text.{leb, ltb}
use flowers_oss.Types.Run.{RunState}

abbrev pub ladder_hard_cap : ℕ
ladder_hard_cap = 12

abbrev pub max_replans : ℕ
max_replans = 8

-- A deadline of zero is none.
abbrev is_past : Option ℕ → ℕ → Bool
is_past none now = false
is_past (some zero) now = false
is_past (some (suc d)) now = leb (suc d) now

unfoldable pub has_headroom : RunState → ℕ → Bool
has_headroom run now =
    if ltb run.budget_usd run.spent_usd then false else not (is_past run.deadline_ts now)

-- What one run of the executor, the checks that follow it and the gate make of a step: it is done,
-- the run is parked or escalated, or the gate refuses with a reason that another try may mend.
pub data Attempt : Type 0 where
  accepted parked escalated refused : Attempt

-- How the work on a step ends, or that the rest of the plan was replaced.
pub data StepEnd : Type 0 where
  advanced replanned waiting given_up : StepEnd

-- The end, the run and the world after it.
abbrev pub Ended : Type 0 → Type 0
Ended W = StepEnd × RunState × W

-- An attempt at a step, given its rung, tells what it came to and what the run has spent; the planner
-- tells whether its new plan holds more than the steps that are done.
module _ {W : Type 0} (attempt : ℕ → RunState → W → Attempt × ℕ × W)
    (replan : RunState → W → Bool × W) (now : W → ℕ) where
  -- `_replan_remaining`; the attempt to replan counts also when the plan holds nothing new.
  unfoldable pub replan_remaining : RunState → W → Ended W
  unfolding has_headroom
  replan_remaining run w =
      if has_headroom run (now w) && ltb run.dag_replans max_replans
      then (let counted = record run { dag_replans = run.dag_replans + 1 } in
          let answer = replan counted w in
          (if answer.0 then replanned else given_up, counted, answer.1))
      else (given_up, run, w)

  -- The ladder of the step is spent, or the run is.
  unfoldable pub give_up : RunState → W → Ended W
  unfolding replan_remaining has_headroom
  give_up run w = if has_headroom run (now w) then replan_remaining run w else (given_up, run, w)

  unfoldable pub after_attempt : Attempt → RunState → W → Option (Ended W) → ℕ → Option (Ended W)
  unfolding give_up has_headroom
  after_attempt accepted run w again rung = some (advanced, run, w)
  after_attempt parked run w again rung = some (waiting, run, w)
  after_attempt escalated run w again rung = some (given_up, run, w)
  after_attempt refused run w again rung =
      if not (has_headroom run (now w)) || leb ladder_hard_cap rung
      then some (give_up run w)
      else again

  -- `_run_generic_step` and `_climb_ladder`, which call one another; none is fuel that ran out.
  unfoldable pub climb : ℕ → ℕ → RunState → W → Option (Ended W)
  unfolding after_attempt
  climb zero rung run w = none
  climb (suc fuel) rung run w =
      let (a, spent, w') = attempt rung run w in
      let run' = record run { spent_usd = spent } in
      let again = climb fuel (rung + 1) run' w' in after_attempt a run' w' again rung
