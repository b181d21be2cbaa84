-- ===== src/Operator/Lifecycle/Reaper.antt =====
-- Every escalated run has a timer that closes it, until it is answered.
use flowers_oss.Base.{
  ℕ, ◌+◌, ◌*◌, ◌≡◌, refl, Bool, true, false, not, ◌&&◌, ◌||◌, Option, none, some, List, [], ◌∷◌,
  ◌++◌, ◌==◌, list_eq, nat_eq, any, arith, Option-cases, Bool-cases, inl, inr,
}
use flowers_oss.Base.Text.{Text, str}
use flowers_oss.Base.Value.{Value, Fields, get}
use flowers_oss.Types.Run.{RunState, RunStatus, Question}
use flowers_oss.Timers.{Row, Timer, schedule, mark_fired, due}
use flowers_oss.Operator.Lifecycle.{
  Desk, Fresh, reaper, escalate, fail, closed, stop_escalated, reap, record_answer,
  continue_escalated, is_escalated,
}

abbrev names : Text → Value → Bool
names id (Value.text s) = id == s
names id _ = false

-- A row that reaps the given question of the run, and is not cancelled; it may have fired.
unfoldable pub is_reaper : Text → Text → Row → Bool
unfolding list_eq nat_eq get
is_reaper run_id apr_id r =
    r.run_id == run_id
    && r.kind == str "reap"
    && not r.cancelled
    && names apr_id (get (str "apr_id") r.payload)

abbrev has_reaper : RunState → Option Question → List Row → Bool
has_reaper run none rows = false
has_reaper run (some a) rows = any (is_reaper run.run_id a.id) rows

-- An escalated run holds a question, and a timer for it.
unfoldable pub is_armed : Desk → Bool
unfolding is_reaper
is_armed d = not (is_escalated d.run.status) || has_reaper d.run d.run.pending_approval d.timers

-- What can happen to a run: the operations of its escalations, the timers, and all that leaves it
-- in another state.
pub data Step : Desk → Desk → Type 0 where
  escalates :
      {d d' : Desk} (f : Fresh) (reason code : Text) (keys : List Text)
      → escalate f reason code keys d ≡ some d'
      → Step d d'
  fails : {d d' : Desk} (f : Fresh) (reason : Text) → fail f reason d ≡ some d' → Step d d'
  stops : {d d' : Desk} (now : ℕ) → stop_escalated now d ≡ d' → Step d d'
  reaped : {d d' : Desk} (now : ℕ) (payload : Fields) → reap now payload d ≡ some d' → Step d d'
  answered : {d d' : Desk} (answer : Text) → record_answer answer d ≡ d' → Step d d'
  continued : {d d' : Desk} (spent now : ℕ) → (continue_escalated spent now d).0 ≡ d' → Step d d'
  fired :
      {d d' : Desk} (cutoff : ℕ) → record d { timers = (due cutoff d.timers).1 } ≡ d' → Step d d'
  scheduled :
      {d d' : Desk} (t : Timer) (rows : List Row)
      → schedule t d.timers ≡ some rows
      → record d { timers = rows } ≡ d'
      → Step d d'
  settled :
      {d d' : Desk} (status : RunStatus) (question : Option Question) (rows : List Row)
      → is_escalated status ≡ false
      → record d {
        run = record d.run { status = status; pending_approval = question };
        timers = rows;
      }
        ≡ d'
      → Step d d'

any-append_one {ℓ} :
    {A : Type ℓ} (p : A → Bool) (xs : List A) (x : A) → any p (xs ++ (x ∷ [])) ≡ (any p xs || p x)
any-append_one p [] x = ground arith
any-append_one p (y ∷ xs) x = ground (arith, any-append_one p xs x)

row_of : Timer → Row
row_of t = record {
  id = t.id;
  run_id = t.run_id;
  wake_at = t.wake_at;
  kind = t.kind;
  payload = t.payload;
  cancelled = false;
  fired = false;
}

any-schedule :
    (p : Row → Bool) (t : Timer) (rows rows' : List Row)
    → schedule t rows ≡ some rows'
    → any p rows' ≡ (any p rows || p (row_of t))
unfolding schedule row_of
any-schedule p t rows rows' h = ground (arith, any-append_one p rows (row_of t))

any-mark_fired :
    (run_id apr_id : Text) (ids : List Text) (rows : List Row)
    → any (is_reaper run_id apr_id) (mark_fired ids rows) ≡ any (is_reaper run_id apr_id) rows
unfolding mark_fired is_reaper
any-mark_fired run_id apr_id ids [] = refl
any-mark_fired run_id apr_id ids (r ∷ rows) = ground (arith, any-mark_fired run_id apr_id ids rows)

has_reaper-due :
    (run : RunState) (q : Option Question) (cutoff : ℕ) (rows : List Row)
    → has_reaper run q (due cutoff rows).1 ≡ has_reaper run q rows
unfolding due
has_reaper-due run none cutoff rows = refl
has_reaper-due run (some a) cutoff rows = any-mark_fired run.run_id a.id _ rows

has_reaper-schedule :
    (run : RunState) (q : Option Question) (t : Timer) (rows rows' : List Row)
    → schedule t rows ≡ some rows'
    → has_reaper run q rows ≡ true
    → has_reaper run q rows' ≡ true
has_reaper-schedule run none t rows rows' h armed = cc
has_reaper-schedule run (some a) t rows rows' h armed =
    ground (arith, any-schedule (is_reaper run.run_id a.id) t rows rows')

is_reaper-reaper :
    (id run_id apr_id : Text) (wake_at : ℕ)
    → is_reaper run_id apr_id (row_of (reaper id run_id apr_id wake_at)) ≡ true
unfolding is_reaper row_of
is_reaper-reaper id run_id apr_id wake_at = ground arith

escalate-is_armed :
    (f : Fresh) (reason code : Text) (keys : List Text) (d d' : Desk)
    → escalate f reason code keys d ≡ some d'
    → is_armed d' ≡ true
unfolding escalate is_armed
escalate-is_armed f reason code keys d d' h =
    let t : Timer = reaper f.timer_id d.run.run_id f.apr_id (f.now + f.ttl_h * 3600) in
    elim (Option-cases (schedule t d.timers)) [
      | inl e ↦ absurd (ground arith)
      | inr (rows, e) ↦ ground (
        arith,
        any-schedule (is_reaper d.run.run_id f.apr_id) t d.timers rows e,
        is_reaper-reaper f.timer_id d.run.run_id f.apr_id (f.now + f.ttl_h * 3600),
      )
    ]

fail-is_armed :
    (f : Fresh) (reason : Text) (d d' : Desk)
    → is_armed d ≡ true
    → fail f reason d ≡ some d'
    → is_armed d' ≡ true
unfolding fail
fail-is_armed f reason d d' armed h =
    ground (arith, escalate-is_armed f reason (str "internal_error") [] d d')

closed-is_armed : (now : ℕ) (d : Desk) → is_armed (closed now d) ≡ true
unfolding closed is_armed
closed-is_armed now d = refl

reap-closed :
    (now : ℕ) (payload : Fields) (d d' : Desk) → reap now payload d ≡ some d' → closed now d ≡ d'
unfolding reap
reap-closed now payload d d' h = elim (Option-cases d.run.pending_approval) [
  | inl e ↦ absurd (ground arith)
  | inr (a, e) ↦ ground arith
]

answered-is_armed :
    (answer : Text) (d : Desk) → is_armed d ≡ true → is_armed (record_answer answer d) ≡ true
unfolding record_answer is_armed
answered-is_armed answer d armed = elim (Option-cases d.run.pending_approval) [
  | inl e ↦ ground arith
  | inr (a, e) ↦ ground arith
]

continued-is_armed :
    (spent now : ℕ) (d : Desk)
    → is_armed d ≡ true
    → is_armed (continue_escalated spent now d).0 ≡ true
unfolding continue_escalated is_armed
continued-is_armed spent now d armed = ground arith

due-is_armed :
    (cutoff : ℕ) (d : Desk)
    → is_armed d ≡ true
    → is_armed (record d { timers = (due cutoff d.timers).1 }) ≡ true
unfolding is_armed
due-is_armed cutoff d armed = rw (has_reaper-due d.run d.run.pending_approval cutoff d.timers) armed

schedule-is_armed :
    (t : Timer) (rows : List Row) (d : Desk)
    → schedule t d.timers ≡ some rows
    → is_armed d ≡ true
    → is_armed (record d { timers = rows }) ≡ true
unfolding is_armed
schedule-is_armed t rows d e armed = elim (Bool-cases (is_escalated d.run.status)) [
  | inl yes_escalated ↦ rw yes_escalated (
      has_reaper-schedule d.run d.run.pending_approval t d.timers rows e
        (rw yes_escalated at armed))
  | inr other ↦ rw other refl
]

Step-is_armed : {d d' : Desk} → Step d d' → is_armed d ≡ true → is_armed d' ≡ true
unfolding is_armed stop_escalated
Step-is_armed {d} {d'} (escalates f reason code keys h) armed =
    escalate-is_armed f reason code keys d d' h
Step-is_armed {d} {d'} (fails f reason h) armed = fail-is_armed f reason d d' armed h
Step-is_armed {d} (stops now h) armed = rw (← h) (closed-is_armed now d)
Step-is_armed {d} {d'} (reaped now payload h) armed =
    rw (← reap-closed now payload d d' h) (closed-is_armed now d)
Step-is_armed {d} (answered answer h) armed = rw (← h) (answered-is_armed answer d armed)
Step-is_armed {d} (continued spent now h) armed = rw (← h) (continued-is_armed spent now d armed)
Step-is_armed {d} (fired cutoff h) armed = rw (← h) (due-is_armed cutoff d armed)
Step-is_armed {d} (scheduled t rows e h) armed = rw (← h) (schedule-is_armed t rows d e armed)
Step-is_armed {d} (settled status question rows e h) armed = rw (← h, e) refl

pub data Reach (d : Desk) : Desk → Type 0 where
  here : Reach d d
  next : {d' d'' : Desk} → Reach d d' → Step d' d'' → Reach d d''

-- From a run that is not escalated on, whatever happens to it, an escalated run holds the question that it
-- waits for, and among the timers of the run there is one that reaps this very question and is not
-- cancelled.
pub Reach-is_armed :
    {d d' : Desk} → Reach d d' → is_escalated d.run.status ≡ false → is_armed d' ≡ true
unfolding is_armed
Reach-is_armed here fresh = rw fresh refl
Reach-is_armed (next r s) fresh = Step-is_armed s (Reach-is_armed r fresh)
