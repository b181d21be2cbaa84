-- ===== src/ControlPlane/Tests.antt =====
-- Messages and timers as they come in.
use flowers_oss.Base.{
  ℕ, ◌≡◌, refl, Option, none, some, List, [], ◌∷◌, keep, map, any, if◌then◌else◌, list_eq, nat_eq,
}
use flowers_oss.Base.Text.{Text, str, strip, lower, drop_while, is_alnum}
use flowers_oss.Base.Value.{ℤ, Value, Fields}
use flowers_oss.Channels.{rstrip}
use flowers_oss.Timers.{Timer}
use flowers_oss.ControlPlane.Route.{
  Route, Answer, Number, whole, real, task, reply, chat, is_ack, classify,
}
use flowers_oss.ControlPlane.Tick.{is_kind, reverify, resume, calls_of}
use flowers_oss.ControlPlane.Chosen.{drives, ends_window}
use flowers_oss.ControlPlane.Once.{
  resumes, is_reverify, is_reap, reverify_call, reap_call, calls_of_once,
}

run : Text → List ℕ → Option Answer → Route
unfolding classify is_ack strip lower rstrip drop_while list_eq nat_eq
run = classify is_alnum

abbrev answer : Text → Number → Option Answer
answer intent n = some (record { intent = Value.text intent; n = n })

routes :
    (run (str "yes, do it") (1 ∷ 2 ∷ []) (answer (str "reply") (whole (ℤ.pos 2)))
      ≡ record { intent = reply; n = some (ℤ.pos 2) })
    × (run (str "Thanks!") (1 ∷ []) (answer (str "reply") (whole (ℤ.pos 4)))
        ≡ record { intent = chat; n = none })
    × (run (str "email mom") (1 ∷ []) (answer (str "reply") (whole (ℤ.pos 4)))
        ≡ record { intent = task; n = none })
    × (run (str "ok") [] none ≡ record { intent = chat; n = none })
    × (run (str "yes") (1 ∷ []) (answer (str "reply") (real (some (ℤ.pos 1))))
        ≡ record { intent = reply; n = none })
unfolding run
routes = (refl, refl, refl, refl, refl)

abbrev timer : Text → Text → Timer
timer run_id kind = record {
  id = str "t";
  run_id = run_id;
  wake_at = 9;
  kind = kind;
  payload = Fields.end;
}

-- A check and then the deadline of one run, a re-verification of it, and a check of another run.
abbrev due : List Timer
due =
    timer (str "run_1") (str "await_check")
    ∷ timer (str "run_1") (str "reverify")
    ∷ timer (str "run_1") (str "await_deadline")
    ∷ timer (str "run_2") (str "await_check")
    ∷ []

calls :
    calls_of due
    ≡ reverify (str "run_1") Fields.end
      ∷ resume (str "run_1") (str "timer")
      ∷ resume (str "run_2") (str "check")
      ∷ []
unfolding calls_of list_eq nat_eq
calls = refl

calls_of_once_example :
    (keep (resumes (str "run_1")) (calls_of due) ≡ (
      if any (drives (str "run_1")) due
      then resume
          (str "run_1")
          (if any (ends_window (str "run_1")) due then str "timer" else str "check")
        ∷ []
      else []))
    × (keep is_reverify (calls_of due) ≡ map reverify_call (keep (is_kind "reverify") due))
    × (keep is_reap (calls_of due) ≡ map reap_call (keep (is_kind "reap") due))
calls_of_once_example = calls_of_once (str "run_1") due
