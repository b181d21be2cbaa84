-- ===== src/Store/Runs.antt =====
-- Questions to the owner and runs of flowers/seams/store.py as dicts, and back.
use flowers_oss.Base.{Option, none, some, [], false, list_eq, nat_eq, ◌==◌, if◌then◌else◌}
use flowers_oss.Base.Text.{Text, str}
use flowers_oss.Base.Value.{Value, Values, Fields, truthy}
use flowers_oss.Types.Run.{
  RunStatus, pending, clarifying, planning, awaiting_go, running, waiting, awaiting_approval,
  awaiting_connect, done, escalated, stopped, Question, RunState,
}
use flowers_oss.Store.Json.{
  ◌>>=◌, find, as_text, as_nat, as_fields, as_array, or_else, of_nat, to_array, of_array,
  to_optional, as_optional, read_text,
}

-- `r.status.value`
abbrev pub run_status_word : RunStatus → Text
run_status_word pending = str "pending"
run_status_word clarifying = str "clarifying"
run_status_word planning = str "planning"
run_status_word awaiting_go = str "awaiting_go"
run_status_word running = str "running"
run_status_word waiting = str "waiting"
run_status_word awaiting_approval = str "awaiting_approval"
run_status_word awaiting_connect = str "awaiting_connect"
run_status_word done = str "done"
run_status_word escalated = str "escalated"
run_status_word stopped = str "stopped"

-- `RunStatus(value)`, which raises a ValueError for any other text.
unfoldable pub run_status_of : Text → Option RunStatus
unfolding list_eq nat_eq
run_status_of s =
    if s == str "pending"
    then some pending
    else if s == str "clarifying"
    then some clarifying
    else if s == str "planning"
    then some planning
    else if s == str "awaiting_go"
    then some awaiting_go
    else if s == str "running"
    then some running
    else if s == str "waiting"
    then some waiting
    else if s == str "awaiting_approval"
    then some awaiting_approval
    else if s == str "awaiting_connect"
    then some awaiting_connect
    else if s == str "done"
    then some done
    else if s == str "escalated"
    then some escalated
    else if s == str "stopped"
    then some stopped
    else none

abbrev blank : Value
blank = Value.text []

-- `_approval_to_dict`
unfoldable pub approval_to_dict : Question → Fields
unfolding to_array to_optional
approval_to_dict a = Fields.field (str "run_id") (Value.text a.run_id) (
    Fields.field (str "kind") (Value.text a.kind) (
      Fields.field (str "prompt") (Value.text a.prompt) (
        Fields.field (str "options") (Value.array (to_array Value.text a.options)) (
          Fields.field (str "tier") (to_optional Value.text a.tier) (
            Fields.field (str "effect_label") (Value.text a.effect_label) (
              Fields.field (str "reason_code") (Value.text a.reason_code) (
                Fields.field (str "subject_keys") (Value.array (to_array Value.text a.subject_keys))
                  (Fields.field (str "id") (Value.text a.id)
                    (Fields.field (str "ts") (of_nat a.ts) Fields.end)))))))))

-- `_approval_from_dict`
unfoldable pub approval_from_dict : Fields → Option Question
unfolding find as_text as_nat as_array of_array as_optional
approval_from_dict d = do
  run_id ← as_text (find (str "run_id") d)
  kind ← as_text (find (str "kind") d)
  prompt ← as_text (find (str "prompt") d)
  option_values ← as_array (or_else (Value.array Values.nil) (find (str "options") d))
  options ← of_array read_text option_values
  tier ← as_optional as_text (find (str "tier") d)
  effect_label ← as_text (or_else blank (find (str "effect_label") d))
  reason_code ← as_text (or_else blank (find (str "reason_code") d))
  key_values ← as_array (or_else (Value.array Values.nil) (find (str "subject_keys") d))
  subject_keys ← of_array read_text key_values
  id ← as_text (find (str "id") d)
  ts ← as_nat (find (str "ts") d)
  some (record {
    run_id = run_id;
    kind = kind;
    prompt = prompt;
    options = options;
    tier = tier;
    effect_label = effect_label;
    reason_code = reason_code;
    subject_keys = subject_keys;
    id = id;
    ts = ts;
  })

-- `_run_to_dict`
unfoldable pub run_to_dict : RunState → Fields
unfolding to_optional approval_to_dict
run_to_dict r = Fields.field (str "run_id") (Value.text r.run_id) (
    Fields.field (str "goal_text") (Value.text r.goal_text) (
      Fields.field (str "budget_usd") (of_nat r.budget_usd) (
        Fields.field (str "status") (Value.text (run_status_word r.status)) (
          Fields.field (str "replans") (of_nat r.replans) (
            Fields.field (str "dag_replans") (of_nat r.dag_replans) (
              Fields.field (str "spent_usd") (of_nat r.spent_usd) (
                Fields.field (str "pending_approval")
                  (to_optional (λ a. Value.object (approval_to_dict a)) r.pending_approval)
                  (Fields.field (str "mandate") (Value.object r.mandate) (
                    Fields.field (str "mandate_counts") (Value.object r.mandate_counts) (
                      Fields.field (str "mandate_auto") (Value.bool r.mandate_auto) (
                        Fields.field (str "fast_path") (Value.bool r.fast_path) (
                          Fields.field (str "deadline_ts") (to_optional of_nat r.deadline_ts) (
                            Fields.field (str "created_at") (of_nat r.created_at) (
                              Fields.field (str "updated_at") (of_nat r.updated_at)
                                Fields.end))))))))))))))

abbrev pub read_question : Option Value → Option Question
read_question (some (Value.object d)) = approval_from_dict d
read_question _ = none

-- `_run_from_dict`
unfoldable pub run_from_dict : Fields → Option RunState
unfolding find as_text as_nat as_fields as_optional run_status_of approval_from_dict
run_from_dict d = do
  run_id ← as_text (find (str "run_id") d)
  goal_text ← as_text (find (str "goal_text") d)
  budget_usd ← as_nat (find (str "budget_usd") d)
  status_text ← as_text (or_else (Value.text (str "pending")) (find (str "status") d))
  status ← run_status_of status_text
  replans ← as_nat (or_else (of_nat 0) (find (str "replans") d))
  dag_replans ← as_nat (or_else (of_nat 0) (find (str "dag_replans") d))
  spent_usd ← as_nat (or_else (of_nat 0) (find (str "spent_usd") d))
  pending_approval ← as_optional read_question (find (str "pending_approval") d)
  mandate ← as_fields (find (str "mandate") d)
  mandate_counts ← as_fields (find (str "mandate_counts") d)
  mandate_auto ← or_else (Value.bool false) (find (str "mandate_auto") d)
  fast_path ← or_else (Value.bool false) (find (str "fast_path") d)
  deadline_ts ← as_optional as_nat (find (str "deadline_ts") d)
  created_at ← as_nat (find (str "created_at") d)
  updated_at ← as_nat (find (str "updated_at") d)
  some (record {
    run_id = run_id;
    goal_text = goal_text;
    budget_usd = budget_usd;
    status = status;
    replans = replans;
    dag_replans = dag_replans;
    spent_usd = spent_usd;
    pending_approval = pending_approval;
    mandate = mandate;
    mandate_counts = mandate_counts;
    mandate_auto = truthy mandate_auto;
    fast_path = truthy fast_path;
    deadline_ts = deadline_ts;
    created_at = created_at;
    updated_at = updated_at;
  })
