-- ===== src/Operator/RecoveryTests.antt =====
-- A run that was interrupted while one of its steps was being driven.
use flowers_oss.Base.{
  ℕ, ◌≡◌, ◌≢◌, refl, false, true, Option, none, some, List, [], ◌∷◌, all, list_eq, nat_eq, inl, inr,
  arith,
}
use flowers_oss.Base.Dict.{lookup}
use flowers_oss.Base.Text.{str}
use flowers_oss.Base.Value.{Fields}
use flowers_oss.Types.Plan.{
  Plan, PlanStep, StepStatus, generic, pending, running, done, is_complete, IsBackward,
}
use flowers_oss.Types.Run.{RunState, RunStatus}
use flowers_oss.Store.Json
use flowers_oss.Store.Plans
use flowers_oss.Store.Runs
use flowers_oss.Store.Roundtrip.Runs.{run_from_dict-run_to_dict}
use flowers_oss.Store.Roundtrip.Plans.{is_storable}
use flowers_oss.Store.Tables.{Codec, Store, new_store, load_row}
use flowers_oss.Store.RunTable.{get_run, get_plan}
use flowers_oss.Operator.Recovery.{recover}
use flowers_oss.Operator.Recovery.Progress.{IsDriven, IsUnderWay, recover_progress}

abbrev plain : Codec Fields
plain = record { dumps = λ d. d; loads = λ d. d; loads-dumps = λ d. refl }

abbrev step : ℕ → StepStatus → List ℕ → PlanStep
step i status deps = record {
  index = i;
  text = str "send it";
  kind = generic;
  depends_on = deps;
  needs = [];
  params = Fields.end;
  done_criteria = [];
  status = status;
  result = none;
}

-- The first step is done, and the second was being driven.
abbrev plan : Plan
plan = record {
  steps = step 0 done [] ∷ step 1 running (0 ∷ []) ∷ step 2 pending (1 ∷ []) ∷ [];
  goal_text = str "g";
  mandate = Fields.end;
}

abbrev run : RunState
run = record {
  run_id = str "r";
  goal_text = str "g";
  budget_usd = 2;
  status = RunStatus.running;
  replans = 0;
  dag_replans = 0;
  spent_usd = 0;
  pending_approval = none;
  mandate = Fields.end;
  mandate_counts = Fields.end;
  mandate_auto = false;
  fast_path = false;
  deadline_ts = none;
  created_at = 0;
  updated_at = 0;
}

abbrev or_end : Option Fields → Fields
or_end none = Fields.end
or_end (some d) = d

abbrev disk : Store Fields
disk = record new_store {
  runs = (str "r", Runs.run_to_dict run) ∷ [];
  plans = (str "r", or_end (Plans.plan_to_dict plan)) ∷ [];
}

known : get_run plain (str "r") disk ≡ some (some run)
unfolding get_run load_row lookup list_eq nat_eq
known = rw (run_from_dict-run_to_dict run) refl

planned : get_plan plain (str "r") disk ≡ some (some plan)
unfolding get_plan load_row lookup list_eq nat_eq Plans.plan_to_dict Plans.plan_from_dict
    Plans.steps_to_array Plans.step_to_dict Plans.step_from_dict Plans.dicts_of
    Plans.coerce_step_kind Plans.step_status_of Json.find Json.as_text Json.as_nat Json.as_array
    Json.as_object Json.as_fields Json.as_optional Json.to_optional Json.to_array Json.of_array
planned = refl

plan-IsBackward : IsBackward 0 plan.steps
plan-IsBackward = (refl, tt, (refl, (omega arith, tt), (refl, (omega arith, tt), tt)))

plan-IsDriven : IsDriven plan.steps
plan-IsDriven = (inr (inr refl), (inr (inl refl), (inl refl, tt)))

storable : all is_storable plan.steps ≡ true
storable = refl

some_step : plan.steps ≢ []
some_step p = cc

incomplete : is_complete plan.steps ≡ false
unfolding is_complete
incomplete = refl

recover_progress_example : IsUnderWay plain (str "r") (recover plain (str "r") disk)
recover_progress_example =
    recover_progress plain disk (str "r") run plan known refl planned plan-IsBackward plan-IsDriven
      storable some_step incomplete
