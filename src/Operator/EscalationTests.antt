-- ===== src/Operator/EscalationTests.antt =====
-- Replies to an escalation, corrections and retries, on small inputs.
use flowers_oss.Base.{
  List, ℕ, ◌≡◌, refl, Bool, true, false, Option, none, some, [], ◌∷◌, ◌⊎◌, arith, list_eq, nat_eq,
  ◌+◌,
}
use flowers_oss.Base.Text.{
  Text, str, strip, is_alnum, starts_with, ends_with, runs, lower, drop_while,
}
use flowers_oss.Base.Value.{Fields}
use flowers_oss.Channels.{without_modifiers, rstrip}
use flowers_oss.Types.Effect.{EffectRecord, no_detail}
use flowers_oss.Types.Run.{RunState, running}
use flowers_oss.Operator.Intents.{
  Next, wait, close, attest, resend, replan, is_send_confirm, resume_escalated,
  resume_escalated_safe,
}
use flowers_oss.Types.Plan.{PlanStep, StepResult, generic, done}
use flowers_oss.Operator.Deliverable.{
  run_deliverable, final_deliverable, with_result, last_text, run_deliverable-final,
}
use flowers_oss.Operator.Ladder.{Attempt, refused, Ended, climb}
use flowers_oss.Operator.Ladder.Bounds.{KeepsCap, climb_total}

run : Text → Text → Next
unfolding resume_escalated strip lower rstrip drop_while starts_with ends_with runs
    without_modifiers list_eq nat_eq
run ans code = resume_escalated is_alnum (some ans) code none

-- What a bare reply means depends on the question.
replies :
    (run (str "No.") (str "needs_owner_confirm") ≡ resend true)
    × (run (str "no") (str "budget_exhausted") ≡ close)
    × (run (str "Yes!") (str "needs_owner_confirm") ≡ attest)
    × (run (str "yes") (str "reverify_proven_missing") ≡ replan)
    × (run (str "try again") (str "tool_failed") ≡ replan)
    × (run (str "no, use the other address") (str "needs_owner_confirm") ≡ replan)
unfolding run
replies = (refl, refl, refl, refl, refl, refl)

abbrev money : Text
money = str "budget_exhausted"

abbrev reply : Text
reply = str "it was sent"

reply_is_short : is_send_confirm money ≡ false
unfolding is_send_confirm
reply_is_short = refl

resume_escalated_safe_example :
    (resume_escalated is_alnum (some reply) money none ≡ wait)
    ⊎ (resume_escalated is_alnum (some reply) money none ≡ close)
    ⊎ (resume_escalated is_alnum (some reply) money none ≡ replan)
resume_escalated_safe_example = resume_escalated_safe is_alnum reply money none reply_is_short

abbrev send : EffectRecord
send = record {
  toolkit = str "gmail";
  action = str "SEND";
  side_effecting = some true;
  mutating = true;
  phase = str "forwarded";
  drift_present = none;
  expected_present = none;
  effect_kind = str "composio";
  verification = none;
  observer = none;
  actor = some (str "worker");
  action_id = str "a";
  label = str "gmail:SEND";
  detail = record no_detail { grant_key = some (str "k") };
}

abbrev stubborn : ℕ → RunState → ℕ → Attempt × ℕ × ℕ
stubborn rung run tries = (refused, 0, tries + 1)

abbrev no_new_steps : RunState → ℕ → Bool × ℕ
no_new_steps run tries = (false, tries)

abbrev a_run : RunState
a_run = record {
  run_id = str "r";
  goal_text = str "g";
  budget_usd = 2;
  status = running;
  replans = 0;
  dag_replans = 7;
  spent_usd = 0;
  pending_approval = none;
  mandate = Fields.end;
  mandate_counts = Fields.end;
  mandate_auto = false;
  fast_path = false;
  deadline_ts = none;
  created_at = 0;
  updated_at = 0;
}

abbrev tries_of : Option (Ended ℕ) → ℕ
tries_of none = 0
tries_of (some (end, run, w)) = w

-- With a gate that always refuses, the executor runs thirteen times.
thirteen : tries_of (climb stubborn no_new_steps (λ w. w) 13 0 a_run 0) ≡ 13
unfolding climb
thirteen = refl

climb_total_example :
    (r : Ended ℕ) × (climb stubborn no_new_steps (λ w. w) 13 0 a_run 0 ≡ some r) × KeepsCap a_run r
climb_total_example =
    climb_total stubborn no_new_steps (λ w. w) 0 a_run 0 12 (omega arith) (omega arith)

abbrev found : Text → StepResult
found text = record {
  claimed_done = true;
  ok = true;
  text = text;
  effects = [];
  events = [];
  signals = Fields.end;
  searches = 0;
  tool_failures = 0;
}

abbrev a_step : ℕ → Option StepResult → PlanStep
a_step i r = record {
  index = i;
  text = str "find it";
  kind = generic;
  depends_on = [];
  needs = [];
  params = Fields.end;
  done_criteria = [];
  status = done;
  result = r;
}

-- The last step gives only blanks, so the answer of the first one is handed over.
two_steps : List PlanStep
two_steps = a_step 0 (some (found (str " at 5 pm "))) ∷ a_step 1 none ∷ []

handed_over : run_deliverable two_steps (a_step 1 none) (found (str " ")) ≡ str "at 5 pm"
unfolding two_steps run_deliverable last_text strip drop_while nat_eq
handed_over = refl

run_deliverable-final_example :
    run_deliverable two_steps (a_step 1 none) (found (str "at 6 pm"))
    ≡ final_deliverable (with_result 1 (found (str "at 6 pm")) two_steps)
run_deliverable-final_example =
    run_deliverable-final two_steps (a_step 1 none) (found (str "at 6 pm"))
