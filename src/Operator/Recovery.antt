-- ===== src/Operator/Recovery.antt =====
-- What a restart does with a run that was being driven: `_recover` of flowers/engine/operator.py up to the
-- drive, over the store. The grants that it reads back, and the messages to the owner, are left out.
pub mod Progress
use flowers_oss.Base.{Bool, true, false, Option, none, some, List, map, any, if◌then◌else◌}
use flowers_oss.Base.Text.{Text}
use flowers_oss.Types.Plan.{Plan, PlanStep, StepStatus, running, pending}
use flowers_oss.Types.Run.{RunState, RunStatus, planning}
use flowers_oss.Store.Json.{◌>>=◌}
use flowers_oss.Store.Tables.{Codec, Store}
use flowers_oss.Store.RunTable.{get_run, save_plan, get_plan}

-- What comes of it: an error, nothing, an escalation, or another drive.
pub data Recovery : Type 0 where
  unknown untouched asks_owner drives : Recovery

abbrev pub is_interrupted : RunStatus → Bool
is_interrupted RunStatus.running = true
is_interrupted planning = true
is_interrupted _ = false

abbrev pub is_running : StepStatus → Bool
is_running running = true
is_running _ = false

abbrev pub reset_step : PlanStep → PlanStep
reset_step s = if is_running s.status then record s { status = pending } else s

abbrev pub reset : Plan → Plan
reset p = record p { steps = map reset_step p.steps }

module _ {Json : Type 0} (c : Codec Json) where
  -- The steps that were interrupted are to be driven again.
  unfoldable pub recover_plan : Text → Option Plan → Store Json → Option (Recovery × Store Json)
  recover_plan run_id none s = some (asks_owner, s)
  recover_plan run_id (some p) s =
      if any (λ x. is_running x.status) p.steps
      then (save_plan c run_id (reset p) s >>= λ s'. some (drives, s'))
      else some (drives, s)

  unfoldable pub recover_run : Text → Option RunState → Store Json → Option (Recovery × Store Json)
  unfolding recover_plan
  recover_run run_id none s = some (unknown, s)
  recover_run run_id (some run) s =
      if is_interrupted run.status
      then (get_plan c run_id s >>= λ p. recover_plan run_id p s)
      else some (untouched, s)

  -- `_recover`; none is a row that cannot be read or written.
  unfoldable pub recover : Text → Store Json → Option (Recovery × Store Json)
  unfolding recover_run
  recover run_id s = get_run c run_id s >>= λ run. recover_run run_id run s
