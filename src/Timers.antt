-- ===== src/Timers.antt =====
-- flowers/seams/timers.py: the durable timers, as the rows of their table. Times are whole numbers.
pub mod Once
mod Tests
use flowers_oss.Base.{
  ℕ, Bool, true, false, not, ◌&&◌, ◌||◌, Option, none, some, List, [], ◌∷◌, ◌++◌, ◌==◌, contains,
  list_eq, nat_eq, any, keep, map, if◌then◌else◌,
}
use flowers_oss.Base.Text.{Text, leb, ltb, text_lt}
use flowers_oss.Base.Value.{Fields}

pub record Row : Type 0 where
  pub id : Text
  pub run_id : Text
  pub wake_at : ℕ
  pub kind : Text
  pub payload : Fields
  pub cancelled : Bool
  pub fired : Bool

pub record Timer : Type 0 where
  pub id : Text
  pub run_id : Text
  pub wake_at : ℕ
  pub kind : Text
  pub payload : Fields

-- `_row_to_timer`
unfoldable pub row_to_timer : Row → Timer
row_to_timer r = record {
  id = r.id;
  run_id = r.run_id;
  wake_at = r.wake_at;
  kind = r.kind;
  payload = r.payload;
}

unfoldable pub row_ids : List Row → List Text
row_ids rows = map (λ r. r.id) rows

-- `schedule`, given the new id; none is the violation of the primary key.
unfoldable pub schedule : Timer → List Row → Option (List Row)
schedule t rows =
    if contains (row_ids rows) t.id
    then none
    else some (
        rows
        ++ (record {
          id = t.id;
          run_id = t.run_id;
          wake_at = t.wake_at;
          kind = t.kind;
          payload = t.payload;
          cancelled = false;
          fired = false;
        }
            ∷ []))

unfoldable pub is_due : ℕ → Row → Bool
is_due cutoff r = leb r.wake_at cutoff && not r.cancelled && not r.fired

-- The order of `ORDER BY wake_at ASC, id ASC`.
abbrev comes_before : Row → Row → Bool
comes_before r q = ltb r.wake_at q.wake_at || r.wake_at == q.wake_at && text_lt r.id q.id

unfoldable pub insert_row : Row → List Row → List Row
insert_row r [] = r ∷ []
insert_row r (q ∷ rows) =
    let rest = insert_row r rows in if comes_before q r then q ∷ rest else r ∷ q ∷ rows

unfoldable pub sort_rows : List Row → List Row
sort_rows [] = []
sort_rows (r ∷ rows) = insert_row r (sort_rows rows)

-- `UPDATE timers SET fired = 1` on the given ids
unfoldable pub mark_fired : List Text → List Row → List Row
mark_fired ids rows = map (λ r. if contains ids r.id then record r { fired = true } else r) rows

-- `due`, at a given time
unfoldable pub due : ℕ → List Row → List Timer × List Row
due cutoff rows =
    let found = sort_rows (keep (is_due cutoff) rows) in
    (map row_to_timer found, mark_fired (row_ids found) rows)

unfoldable pub cancel : Text → List Row → List Row
cancel timer_id rows = map (λ r. if r.id == timer_id then record r { cancelled = true } else r) rows

unfoldable pub cancel_for_run : Text → List Row → List Row
cancel_for_run run_id rows =
    map (λ r. if r.run_id == run_id then record r { cancelled = true } else r) rows

-- An operation, and what it returns to its caller: the timers that are due.
pub data Op : Type 0 where
  schedule_op : Timer → Op
  due_op : ℕ → Op
  cancel_op : Text → Op
  cancel_for_run_op : Text → Op

-- A schedule that fails leaves the table.
abbrev pub or_same : Option (List Row) → List Row → List Row
or_same none rows = rows
or_same (some rows') rows = rows'

unfoldable pub step : Op → List Row → List Timer × List Row
step (schedule_op t) rows = ([], or_same (schedule t rows) rows)
step (due_op cutoff) rows = due cutoff rows
step (cancel_op timer_id) rows = ([], cancel timer_id rows)
step (cancel_for_run_op run_id) rows = ([], cancel_for_run run_id rows)

-- All the timers that a sequence of operations returns.
unfoldable pub fired_by : List Op → List Row → List Timer
fired_by [] rows = []
fired_by (op ∷ ops) rows = let (timers, rows') = step op rows in timers ++ fired_by ops rows'
