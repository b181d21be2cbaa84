-- ===== src/Timers/Tests.antt =====
-- The theorems on flowers/seams/timers.py at a short sequence of operations, and runs of it.
use flowers_oss.Base.{ℕ, ◌≡◌, refl, ◌≤◌, Bool, true, false, List, [], ◌∷◌, list_eq, nat_eq}
use flowers_oss.Base.Text.{Text, str, text_lt}
use flowers_oss.Base.Value.{Fields}
use flowers_oss.Mandate.Counts.{occurrences}
use flowers_oss.Timers.{
  Row, Timer, row_to_timer, row_ids, schedule, is_due, insert_row, sort_rows, mark_fired, due,
  cancel, cancel_for_run, Op, schedule_op, due_op, cancel_op, step, fired_by,
}
use flowers_oss.Timers.Once.{timer_ids, fired_by_once}

abbrev timer : Text → ℕ → Timer
timer id wake_at = record {
  id = id;
  run_id = str "r1";
  wake_at = wake_at;
  kind = str "undo";
  payload = Fields.end;
}

abbrev ops : List Op
ops =
    schedule_op (timer (str "a") 20)
    ∷ schedule_op (timer (str "b") 10)
    ∷ schedule_op (timer (str "c") 10)
    ∷ cancel_op (str "c")
    ∷ due_op 5
    ∷ due_op 20
    ∷ due_op 30
    ∷ []

fires : timer_ids (fired_by ops []) ≡ str "b" ∷ str "a" ∷ []
unfolding timer_ids fired_by step schedule due cancel cancel_for_run mark_fired sort_rows insert_row
    is_due row_ids row_to_timer text_lt list_eq nat_eq
fires = refl

fired_by_once_example : occurrences (str "a") (timer_ids (fired_by ops [])) ≤ 1
fired_by_once_example = fired_by_once ops (str "a")

abbrev row : Text → Bool → Row
row id fired = record {
  id = id;
  run_id = str "r1";
  wake_at = 10;
  kind = str "undo";
  payload = Fields.end;
  cancelled = false;
  fired = fired;
}

abbrev rows : List Row
rows = row (str "a") true ∷ row (str "b") false ∷ []
