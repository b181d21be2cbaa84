-- ===== src/Store/Tests.antt =====
-- The store over a codec that keeps its dicts, and its theorems there.
use flowers_oss.Base.{
  ◌≡◌, refl, ◌+◌, Bool, true, false, none, some, List, [], ◌∷◌, ◌++◌, list_eq, nat_eq, map, keep,
  length,
}
use flowers_oss.Base.Text.{Text, str}
use flowers_oss.Base.Dict.{keys, lookup, values}
use flowers_oss.Base.Value.{ℤ, Value, Values, Fields}
use flowers_oss.Types.Effect.{StampedEffect, no_detail}
use flowers_oss.Types.Plan
use flowers_oss.Types.Plan.{Plan, PlanStep}
use flowers_oss.Types.Run
use flowers_oss.Types.Run.{RunState, RunStatus, Question}
use flowers_oss.Store.Criteria
use flowers_oss.Store.Json.{of_nat}
use flowers_oss.Store.Effects.{effect_to_dict, effect_from_dict}
use flowers_oss.Store.Plans.{plan_to_dict, plan_from_dict, plan_fields, step_fields}
use flowers_oss.Store.Roundtrip.Effects.{restored_effect, effect_from_dict-effect_to_dict}
use flowers_oss.Store.Roundtrip.Plans
use flowers_oss.Store.Roundtrip.Plans.{restored_plan, is_storable}
use flowers_oss.Store.Tables.{Codec, Store, new_store}
use flowers_oss.Store.RunTable
use flowers_oss.Store.EffectLog
use flowers_oss.Store.EventLog
use flowers_oss.Store.Notes
use flowers_oss.Store.Approvals

abbrev plain : Codec Fields
plain = record { dumps = λ d. d; loads = λ d. d; loads-dumps = λ d. refl }

abbrev effect : Text → StampedEffect
effect phase = record {
  effect = record {
    toolkit = str "gmail";
    action = str "GMAIL_SEND_EMAIL";
    side_effecting = some true;
    mutating = false;
    phase = phase;
    drift_present = none;
    expected_present = some true;
    effect_kind = str "composio";
    verification = none;
    observer = none;
    actor = some (str "worker");
    action_id = str "eff_1";
    label = str "gmail:GMAIL_SEND_EMAIL";
    detail = no_detail;
  };
  ts = 7;
}

abbrev question : Question
question = record {
  run_id = str "run_1";
  kind = str "preview";
  prompt = str "send it?";
  options = str "yes" ∷ str "no" ∷ [];
  tier = none;
  effect_label = str "gmail:GMAIL_SEND_EMAIL";
  reason_code = [];
  subject_keys = [];
  id = str "apr_1";
  ts = 5;
}

abbrev run : RunStatus → RunState
run status = record {
  run_id = str "run_1";
  goal_text = str "send the report";
  budget_usd = 2;
  status = status;
  replans = 0;
  dag_replans = 1;
  spent_usd = 0;
  pending_approval = some question;
  mandate = Fields.end;
  mandate_counts = Fields.end;
  mandate_auto = false;
  fast_path = true;
  deadline_ts = some 90;
  created_at = 5;
  updated_at = 6;
}

abbrev step : List Value → PlanStep
step criteria = record {
  index = 0;
  text = str "send the report";
  kind = Plan.generic;
  depends_on = [];
  needs = str "gmail" ∷ [];
  params = Fields.end;
  done_criteria = criteria;
  status = Plan.done;
  result = some (record {
    claimed_done = true;
    ok = true;
    text = str "sent";
    effects = effect (str "forwarded") ∷ [];
    events = [];
    signals = Fields.end;
    searches = 0;
    tool_failures = 0;
  });
}

abbrev pair : Value → Text → Value
pair k v = Value.array (Values.cons k (Values.cons (Value.text v) Values.nil))

abbrev plan : List Value → Plan
plan criteria = record { steps = step criteria ∷ []; goal_text = []; mandate = Fields.end }

-- The model may propose a criterion that is a text; the plan is then kept, but cannot be stored.
text_criterion : plan_to_dict (plan (Value.text (str "sent") ∷ [])) ≡ none
unfolding plan_to_dict list_eq nat_eq
text_criterion = refl

abbrev stored_plan : Fields
stored_plan =
    plan_fields (plan []) (Values.cons (Value.object (step_fields (step []) [])) Values.nil)

stored : plan_to_dict (plan []) ≡ some stored_plan
unfolding plan_to_dict list_eq nat_eq
stored = refl

plan_from_dict-plan_to_dict_example : plan_from_dict stored_plan ≡ some (restored_plan (plan []))
plan_from_dict-plan_to_dict_example = Plans.plan_from_dict-plan_to_dict (plan []) stored_plan stored

-- A criterion that is a list of pairs is stored as a dict; of equal keys the first stays, and the last
-- value.
pairs_criterion :
    Criteria.dict_of (
      Value.array (
        Values.cons (pair (Value.int (ℤ.pos 1)) (str "a")) (
          Values.cons
            (Value.text (str "xy"))
            (Values.cons (pair (Value.bool true) (str "b")) Values.nil))))
    ≡ some (
        Fields.field
          (str "1")
          (Value.text (str "b"))
          (Fields.field (str "x") (Value.text (str "y")) Fields.end))
unfolding Criteria.dict_of
pairs_criterion = refl

effect_from_dict-effect_to_dict_example :
    effect_from_dict (effect_to_dict (effect (str "failed")))
    ≡ some (restored_effect (effect (str "failed")))
effect_from_dict-effect_to_dict_example = effect_from_dict-effect_to_dict (effect (str "failed"))

abbrev run_ops : List RunTable.Laws.RunOp
run_ops =
    RunTable.Laws.create (run Run.pending)
    ∷ RunTable.Laws.save (run Run.running)
    ∷ RunTable.Laws.create (run Run.done)
    ∷ []

exec_all-refines-update_all_example :
    (RunTable.get_run plain (str "run_1") (RunTable.Laws.exec_all plain run_ops new_store)
      ≡ some (lookup (str "run_1") (RunTable.Laws.update_all run_ops [])))
    × (RunTable.list_runs plain (RunTable.Laws.exec_all plain run_ops new_store)
        ≡ some (values (RunTable.Laws.update_all run_ops [])))
    × (RunTable.running_runs plain (RunTable.Laws.exec_all plain run_ops new_store)
        ≡ some (keep RunTable.Laws.is_driven (values (RunTable.Laws.update_all run_ops []))))
exec_all-refines-update_all_example =
    RunTable.Laws.exec_all-refines-update_all plain run_ops (str "run_1")

-- A run that exists is not created again, so it stays as it was saved.
updated : RunTable.Laws.update_all run_ops [] ≡ (str "run_1", run Run.running) ∷ []
unfolding RunTable.Laws.update_all list_eq nat_eq keys
updated = refl

abbrev effect_ops : List EffectLog.Laws.EffectOp
effect_ops =
    EffectLog.Laws.append (str "run_1") (effect (str "forwarded"))
    ∷ EffectLog.Laws.update (str "run_1") (effect (str "failed"))
    ∷ []

amended :
    EffectLog.Laws.effects_of (str "run_1") (EffectLog.Laws.amend_all effect_ops [])
    ≡ effect (str "failed") ∷ []
unfolding EffectLog.Laws.effects_of EffectLog.Laws.amend_all list_eq nat_eq
amended = refl

get_effects-exec_all_example :
    EffectLog.get_effects plain (str "run_1") (EffectLog.Laws.exec_all plain effect_ops new_store)
    ≡ some (
        map restored_effect
          (EffectLog.Laws.effects_of (str "run_1") (EffectLog.Laws.amend_all effect_ops [])))
get_effects-exec_all_example = EffectLog.Laws.get_effects-exec_all plain effect_ops (str "run_1")

abbrev corrected : Store Fields × Bool
corrected =
    EffectLog.update_effect plain (str "run_1") (effect (str "failed"))
      (EffectLog.Laws.exec_all plain effect_ops new_store)

abbrev events : List EventLog.Laws.Occurrence
events =
    (str "run_1", Fields.field (str "kind") (Value.text (str "progress")) Fields.end)
    ∷ (str "run_2", Fields.end)
    ∷ (str "run_1", Fields.field (str "kind") (Value.text (str "done")) Fields.end)
    ∷ []

replayed :
    EventLog.Laws.replay 1 0 (EventLog.Laws.events_of (str "run_1") events)
    ≡ Fields.field
        (str "kind")
        (Value.text (str "done"))
        (Fields.field (str "id") (of_nat 2) Fields.end)
      ∷ []
unfolding EventLog.Laws.replay EventLog.Laws.events_of list_eq nat_eq
replayed = refl

get_events-append_all_example :
    (EventLog.get_events plain (str "run_1") 1 (EventLog.Laws.append_all plain events new_store)
      ≡ EventLog.Laws.replay 1 0 (EventLog.Laws.events_of (str "run_1") events))
    × ((EventLog.append_event plain
          (str "run_1")
          Fields.end
          (EventLog.Laws.append_all plain events new_store)).1
        ≡ length (EventLog.Laws.events_of (str "run_1") events) + 1)
get_events-append_all_example =
    EventLog.Replay.get_events-append_all plain events (str "run_1") 1 Fields.end

abbrev note_ops : List Notes.NoteOp
note_ops =
    Notes.add (str "run_1") (str "use the new address")
    ∷ Notes.take (str "run_1")
    ∷ Notes.take (str "run_1")
    ∷ Notes.add (str "run_1") (str "and copy Ann")
    ∷ []

taken_notes :
    Notes.taken (str "run_1") note_ops (new_store {Json = Fields}) ≡ str "use the new address" ∷ []
unfolding Notes.taken list_eq nat_eq
taken_notes = refl

taken_once_example :
    Notes.taken (str "run_1") note_ops (new_store {Json = Fields})
      ++ Notes.waiting_notes
          (str "run_1")
          (Notes.exec_all note_ops (new_store {Json = Fields})).run_notes
    ≡ Notes.added (str "run_1") note_ops
taken_once_example = Notes.taken_once Fields (str "run_1") note_ops

abbrev asked : Store Fields
asked = Approvals.save_approval plain question new_store
