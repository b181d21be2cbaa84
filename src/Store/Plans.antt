-- ===== src/Store/Plans.antt =====
-- Plans of flowers/seams/store.py as dicts, and back.
use flowers_oss.Base.{Option, none, some, List, [], ◌∷◌, list_eq, nat_eq, ◌==◌, if◌then◌else◌}
use flowers_oss.Base.Text.{Text, str}
use flowers_oss.Base.Value.{Value, Values, Fields}
use flowers_oss.Types.Plan.{
  Plan, PlanStep, StepResult, StepKind, generic, await_replies, monitor, recurring, StepStatus,
  pending, running, waiting, done, failed, skipped,
}
use flowers_oss.Store.Json.{
  ◌>>=◌, find, as_text, as_nat, as_fields, as_array, or_else, of_nat, to_array, of_array,
  to_optional, as_optional, read_text, read_nat, read_fields,
}
use flowers_oss.Store.Criteria.{dict_of}
use flowers_oss.Store.Effects.{step_result_to_dict, step_result_from_dict}

-- `s.kind.value`
abbrev pub kind_word : StepKind → Text
kind_word generic = str "generic"
kind_word await_replies = str "await_replies"
kind_word monitor = str "monitor"
kind_word recurring = str "recurring"

-- `s.status.value`
abbrev pub status_word : StepStatus → Text
status_word pending = str "pending"
status_word running = str "running"
status_word waiting = str "waiting"
status_word done = str "done"
status_word failed = str "failed"
status_word skipped = str "skipped"

-- `_coerce_step_kind`: any other value is generic.
unfoldable pub coerce_step_kind : Value → StepKind
unfolding list_eq nat_eq
coerce_step_kind (Value.text s) =
    if s == str "await_replies"
    then await_replies
    else if s == str "monitor"
    then monitor
    else if s == str "recurring"
    then recurring
    else generic
coerce_step_kind _ = generic

-- `StepStatus(value)`, which raises a ValueError for any other text.
unfoldable pub step_status_of : Text → Option StepStatus
unfolding list_eq nat_eq
step_status_of s =
    if s == str "pending"
    then some pending
    else if s == str "running"
    then some running
    else if s == str "waiting"
    then some waiting
    else if s == str "done"
    then some done
    else if s == str "failed"
    then some failed
    else if s == str "skipped"
    then some skipped
    else none

unfoldable pub dicts_of : List Value → Option (List Fields)
unfolding dict_of
dicts_of [] = some []
dicts_of (v ∷ vs) = dict_of v >>= λ d. (dicts_of vs >>= λ ds. some (d ∷ ds))

abbrev pub step_fields : PlanStep → List Fields → Fields
step_fields s criteria = Fields.field (str "index") (of_nat s.index) (
    Fields.field (str "text") (Value.text s.text) (
      Fields.field (str "kind") (Value.text (kind_word s.kind)) (
        Fields.field (str "depends_on") (Value.array (to_array of_nat s.depends_on)) (
          Fields.field (str "needs") (Value.array (to_array Value.text s.needs)) (
            Fields.field (str "params") (Value.object s.params) (
              Fields.field (str "done_criteria") (Value.array (to_array Value.object criteria)) (
                Fields.field (str "status") (Value.text (status_word s.status)) (
                  Fields.field (str "result")
                    (to_optional (λ r. Value.object (step_result_to_dict r)) s.result)
                    Fields.end))))))))

-- `_step_to_dict`
unfoldable pub step_to_dict : PlanStep → Option Fields
unfolding to_array to_optional dicts_of step_result_to_dict
step_to_dict s = do criteria ← dicts_of s.done_criteria; some (step_fields s criteria)

abbrev pub read_result : Option Value → Option StepResult
read_result (some (Value.object d)) = step_result_from_dict d
read_result _ = none

-- A criterion that was read is a dict.
unfoldable pub read_criterion : Value → Option Value
read_criterion v = dict_of v >>= λ d. some (Value.object d)

-- `_step_from_dict`
unfoldable pub step_from_dict : Fields → Option PlanStep
unfolding find as_text as_nat as_fields as_array of_array as_optional read_criterion
    step_result_from_dict coerce_step_kind step_status_of
step_from_dict d = do
  index ← as_nat (find (str "index") d)
  text ← as_text (find (str "text") d)
  kind ← or_else (Value.text (str "generic")) (find (str "kind") d)
  dep_values ← as_array (or_else (Value.array Values.nil) (find (str "depends_on") d))
  depends_on ← of_array read_nat dep_values
  need_values ← as_array (or_else (Value.array Values.nil) (find (str "needs") d))
  needs ← of_array read_text need_values
  params ← as_fields (find (str "params") d)
  criterion_values ← as_array (or_else (Value.array Values.nil) (find (str "done_criteria") d))
  done_criteria ← of_array read_criterion criterion_values
  status_text ← as_text (or_else (Value.text (str "pending")) (find (str "status") d))
  status ← step_status_of status_text
  result ← as_optional read_result (find (str "result") d)
  some (record {
    index = index;
    text = text;
    kind = coerce_step_kind kind;
    depends_on = depends_on;
    needs = needs;
    params = params;
    done_criteria = done_criteria;
    status = status;
    result = result;
  })

unfoldable pub steps_to_array : List PlanStep → Option Values
unfolding step_to_dict
steps_to_array [] = some Values.nil
steps_to_array (s ∷ steps) =
    step_to_dict s >>= λ d. (steps_to_array steps >>= λ vs. some (Values.cons (Value.object d) vs))

abbrev pub plan_fields : Plan → Values → Fields
plan_fields p steps = Fields.field (str "steps") (Value.array steps) (
    Fields.field (str "goal_text") (Value.text p.goal_text)
      (Fields.field (str "mandate") (Value.object p.mandate) Fields.end))

-- `_plan_to_dict`
unfoldable pub plan_to_dict : Plan → Option Fields
unfolding steps_to_array
plan_to_dict p = do steps ← steps_to_array p.steps; some (plan_fields p steps)

abbrev pub read_step : Value → Option PlanStep
read_step v = read_fields v >>= step_from_dict

-- `_plan_from_dict`
unfoldable pub plan_from_dict : Fields → Option Plan
unfolding find as_text as_fields as_array of_array
plan_from_dict d = do
  step_values ← as_array (or_else (Value.array Values.nil) (find (str "steps") d))
  steps ← of_array read_step step_values
  goal_text ← as_text (or_else (Value.text []) (find (str "goal_text") d))
  mandate ← as_fields (find (str "mandate") d)
  some (record { steps = steps; goal_text = goal_text; mandate = mandate })
