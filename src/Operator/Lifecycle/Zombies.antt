-- ===== src/Operator/Lifecycle/Zombies.antt =====
-- What closes an escalated run that nobody answers, and what does not.
use flowers_oss.Base.{
  ℕ, ◌≡◌, refl, true, false, none, some, list_eq, nat_eq, List, arith, Option-cases, inl, inr, ◌+◌,
  Option, [], ◌∷◌, not, ◌||◌, ◌==◌, all, keep, ◌*◌,
}
use flowers_oss.Base.Text.{Text}
use flowers_oss.Base.Dict.{lookup, insert, lookup-insert}
use flowers_oss.Base.Value.{Fields}
use flowers_oss.Types.Run.{Question, stopped}
use flowers_oss.Timers.{Row, schedule, cancel_for_run}
use flowers_oss.Operator.Ladder.{has_headroom}
use flowers_oss.Operator.Lifecycle.{
  Desk, Fresh, review, reaper, reaper_payload, escalate, closed, reap, record_answer,
  continue_escalated, is_escalated,
}

-- The question that an escalated run waits for.
IsAsked : Text → Desk → Type 0
IsAsked id e =
    (a : Question) × (e.run.pending_approval ≡ some a)
    × (a.id ≡ id)
    × (is_escalated e.run.status ≡ true)

escalate-IsAsked :
    (f : Fresh) (reason code : Text) (keys : List Text) (d e : Desk)
    → escalate f reason code keys d ≡ some e
    → IsAsked f.apr_id e × (e.answers ≡ d.answers)
unfolding escalate IsAsked
escalate-IsAsked f reason code keys d e h =
    elim (Option-cases
      (schedule (reaper f.timer_id d.run.run_id f.apr_id (f.now + f.ttl_h * 3600)) d.timers)) [
        | inl p ↦ absurd (ground arith)
        | inr (rows, p) ↦ (
          (review d.run.run_id f.apr_id reason code keys f.now, ground arith, refl, ground arith),
          ground arith,
        )
      ]

reap_unanswered :
    (now : ℕ) (id : Text) (e : Desk)
    → IsAsked id e
    → lookup id e.answers ≡ none
    → reap now (reaper_payload id) e ≡ some (closed now e)
unfolding reap IsAsked
reap_unanswered now id e (a, q, same, s) silent = ground arith

reap_answered :
    (now : ℕ) (payload : Fields) (answer : Text) (a : Question) (e : Desk)
    → e.run.pending_approval ≡ some a
    → lookup a.id e.answers ≡ some answer
    → reap now payload e ≡ none
unfolding reap
reap_answered now payload answer a e q given = ground arith

record_answer_lem :
    (answer : Text) (a : Question) (e : Desk)
    → e.run.pending_approval ≡ some a
    → record_answer answer e ≡ record e { answers = insert a.id answer e.answers }
unfolding record_answer
record_answer_lem answer a e q = ground arith

continue_escalated_broke :
    (spent at : ℕ) (d : Desk)
    → has_headroom (record d.run { spent_usd = spent }) at ≡ false
    → (continue_escalated spent at d).0 ≡ d
unfolding continue_escalated
continue_escalated_broke spent at d broke = rw broke refl

answered_escalation :
    (now at spent : ℕ) (payload : Fields) (answer id : Text) (e : Desk)
    → IsAsked id e
    → has_headroom (record e.run { spent_usd = spent }) at ≡ false
    → let left = (continue_escalated spent at (record_answer answer e)).0 in
      (is_escalated left.run.status ≡ true) × (reap now payload left ≡ none)
unfolding IsAsked
answered_escalation now at spent payload answer id e (a, q, same, s) broke =
    let noted : Desk = record e { answers = insert a.id answer e.answers } in
    let given : lookup a.id noted.answers ≡ some answer =
      ground (arith, lookup-insert a.id a.id answer e.answers) in
    let left_is : (continue_escalated spent at (record_answer answer e)).0 ≡ noted =
      rw (record_answer_lem answer a e q) (continue_escalated_broke spent at noted broke) in
    rw left_is (s, reap_answered now payload answer a noted q given)

cancel_for_run_cancels :
    (run_id : Text) (rows : List Row)
    → all (λ r. not (r.run_id == run_id) || r.cancelled) (cancel_for_run run_id rows) ≡ true
unfolding cancel_for_run
cancel_for_run_cancels run_id [] = refl
cancel_for_run_cancels run_id (r ∷ rows) = ground (arith, cancel_for_run_cancels run_id rows)

cancel_for_run_keeps :
    (run_id : Text) (rows : List Row)
    → keep (λ r. not (r.run_id == run_id)) (cancel_for_run run_id rows)
      ≡ keep (λ r. not (r.run_id == run_id)) rows
unfolding cancel_for_run
cancel_for_run_keeps run_id [] = refl
cancel_for_run_keeps run_id (r ∷ rows) = ground (arith, cancel_for_run_keeps run_id rows)

-- A run that its reaper closed: it is stopped and asks nothing any more, its timers are cancelled, and
-- the timers of the other runs and the answers are what they were.
abbrev pub IsReaped : Desk → Option Desk → Type 0
IsReaped d none = ⊥
IsReaped d (some r) =
    (r.run.status ≡ stopped)
    × (r.run.pending_approval ≡ none)
    × (all (λ t. not (t.run_id == d.run.run_id) || t.cancelled) r.timers ≡ true)
    × (keep (λ t. not (t.run_id == d.run.run_id)) r.timers
        ≡ keep (λ t. not (t.run_id == d.run.run_id)) d.timers)
    × (r.answers ≡ d.answers)

closed-IsReaped : (now : ℕ) (d : Desk) → IsReaped d (some (closed now d))
unfolding closed
closed-IsReaped now d = (
  refl,
  refl,
  cancel_for_run_cancels d.run.run_id d.timers,
  cancel_for_run_keeps d.run.run_id d.timers,
  refl,
)

-- If no answer is recorded to the question of a run that was just escalated, its reaper stops the run,
-- which then asks nothing any more, and cancels all its timers; the timers of the other runs and the
-- answers stay as they were.
pub escalate-reap :
    (f : Fresh) (reason code : Text) (keys : List Text) (d e : Desk) (now : ℕ)
    → escalate f reason code keys d ≡ some e
    → lookup f.apr_id d.answers ≡ none
    → IsReaped e (reap now (reaper_payload f.apr_id) e)
escalate-reap f reason code keys d e now h silent =
    let (asked, same) = escalate-IsAsked f reason code keys d e h in
    rw (reap_unanswered now f.apr_id e asked (rw same silent)) (closed-IsReaped now e)

-- If an answer is recorded that leads to a replan, while the budget or the time of the run is spent, the
-- run stays escalated, and no reaper ever closes it.
pub escalate-continue_escalated :
    (f : Fresh) (reason code : Text) (keys : List Text) (d e : Desk)
    → (now at spent : ℕ) (payload : Fields) (answer : Text) → escalate f reason code keys d ≡ some e
    → has_headroom (record e.run { spent_usd = spent }) at ≡ false
    → let left = (continue_escalated spent at (record_answer answer e)).0 in
      (is_escalated left.run.status ≡ true) × (reap now payload left ≡ none)
escalate-continue_escalated f reason code keys d e now at spent payload answer h broke =
    let (asked, same) = escalate-IsAsked f reason code keys d e h in
    answered_escalation now at spent payload answer f.apr_id e asked broke
