-- ===== src/Operator/Lifecycle.antt =====
-- How an escalated run is closed or goes on: `_escalate`, `fail`, `reap`, `_stop_escalated` and
-- `_replan_from_escalation` of flowers/engine/operator.py, over what the store and the timers hold of
-- one run. Messages to the owner and the release of resources are left out.
pub mod Reaper
pub mod Zombies
use flowers_oss.Base.{
  ℕ, ◌+◌, ◌*◌, Bool, true, false, not, ◌&&◌, ◌||◌, Option, none, some, List, [], ◌∷◌, ◌++◌, ◌==◌,
  list_eq, nat_eq, if◌then◌else◌,
}
use flowers_oss.Base.Text.{Text, str}
use flowers_oss.Base.Dict.{Dict, lookup, insert}
use flowers_oss.Base.Value.{Value, Fields, get}
use flowers_oss.Types.Run.{
  RunState, RunStatus, Question, pending, clarifying, planning, awaiting_go, running, waiting,
  awaiting_approval, awaiting_connect, done, escalated, stopped,
}
use flowers_oss.Timers.{Row, Timer, schedule, cancel_for_run}
use flowers_oss.Operator.Ladder.{has_headroom}

-- The stored run, the rows of the timers, and the answers by the id of the question.
pub record Desk : Type 0 where
  pub run : RunState
  pub timers : List Row
  pub answers : Dict Text Text

abbrev pub reaper_payload : Text → Fields
reaper_payload apr_id = Fields.field (str "apr_id") (Value.text apr_id) Fields.end

-- A review question, with the defaults.
abbrev pub review : Text → Text → Text → Text → List Text → ℕ → Question
review run_id id prompt reason_code subject_keys now = record {
  run_id = run_id;
  kind = str "review";
  prompt = prompt;
  options = [];
  tier = none;
  effect_label = [];
  reason_code = reason_code;
  subject_keys = subject_keys;
  id = id;
  ts = now;
}

abbrev pub reaper : Text → Text → Text → ℕ → Timer
reaper id run_id apr_id wake_at = record {
  id = id;
  run_id = run_id;
  wake_at = wake_at;
  kind = str "reap";
  payload = reaper_payload apr_id;
}

-- The ids that are made anew for a question and for its timer, the time, and the hours to live.
pub record Fresh : Type 0 where
  pub apr_id : Text
  pub timer_id : Text
  pub now : ℕ
  pub ttl_h : ℕ

-- `_escalate`; none is the violation of the primary key of the timers.
unfoldable pub escalate : Fresh → Text → Text → List Text → Desk → Option Desk
escalate f reason reason_code keys d =
    let run' = record d.run {
      pending_approval = some (review d.run.run_id f.apr_id reason reason_code keys f.now);
      status = escalated;
      updated_at = f.now;
    } in
    elim (schedule (reaper f.timer_id d.run.run_id f.apr_id (f.now + f.ttl_h * 3600)) d.timers) [
      | none ↦ none
      | some timers ↦ some (record d { run = run'; timers = timers })
    ]

abbrev is_in_flight : RunStatus → Bool
is_in_flight running = true
is_in_flight planning = true
is_in_flight pending = true
is_in_flight _ = false

abbrev pub is_escalated : RunStatus → Bool
is_escalated escalated = true
is_escalated _ = false

-- `fail`
unfoldable pub fail : Fresh → Text → Desk → Option Desk
unfolding escalate
fail f reason d =
    if is_in_flight d.run.status then escalate f reason (str "internal_error") [] d else some d

-- What closes a run.
unfoldable pub closed : ℕ → Desk → Desk
closed now d = record d {
  run = record d.run { status = stopped; pending_approval = none; updated_at = now };
  timers = cancel_for_run d.run.run_id d.timers;
}

-- `_stop_escalated`
unfoldable pub stop_escalated : ℕ → Desk → Desk
unfolding closed
stop_escalated now d = closed now d

abbrev is_id : Text → Value → Bool
is_id id (Value.text s) = id == s
is_id id _ = false

abbrev has_answer : Option Text → Bool
has_answer none = false
has_answer (some _) = true

abbrev reap_question : Option Question → ℕ → Fields → Desk → Option Desk
reap_question none now payload d = none
reap_question (some a) now payload d =
    if is_id a.id (get (str "apr_id") payload) && not (has_answer (lookup a.id d.answers))
    then some (closed now d)
    else none

-- `_reap`; none is that nothing is done.
unfoldable pub reap : ℕ → Fields → Desk → Option Desk
unfolding closed get lookup list_eq nat_eq
reap now payload d =
    if is_escalated d.run.status then reap_question d.run.pending_approval now payload d else none

-- `answer` of flowers/controlplane.py, before the run is resumed.
unfoldable pub record_answer : Text → Desk → Desk
unfolding insert list_eq nat_eq
record_answer answer d = elim d.run.pending_approval [
  | none ↦ d
  | some a ↦ record d { answers = insert a.id answer d.answers }
]

-- `_replan_from_escalation` up to the planner, given the run's spend and the time; without headroom the
-- stored run stays as it is.
unfoldable pub continue_escalated : ℕ → ℕ → Desk → Desk × Bool
unfolding has_headroom
continue_escalated spent now d =
    let run' = record d.run { spent_usd = spent } in
    if has_headroom run' now
    then (
      record d {
        run = record run' { pending_approval = none; status = running; updated_at = now };
      },
      true,
    )
    else (d, false)
