-- ===== src/Timers/Once.antt =====
-- How often the timers of flowers/seams/timers.py are due.
use flowers_oss.Base.{
  ℕ, suc, ◌+◌, ◌-◌, ◌≤◌, ◌≡◌, refl, ◌∙◌, false, not, ◌&&◌, List, [], ◌∷◌, ◌++◌, ◌==◌, contains,
  list_eq, nat_eq, keep, map, arith, if◌then◌else◌, Bool-cases, inl, inr,
}
use flowers_oss.Base.Text.{Text}
use flowers_oss.Mandate.Counts.{occurrences}
use flowers_oss.Timers.{
  Row, Timer, row_to_timer, row_ids, schedule, is_due, insert_row, sort_rows, mark_fired, due,
  cancel, cancel_for_run, Op, schedule_op, due_op, cancel_op, cancel_for_run_op, or_same, step,
  fired_by,
}

unfoldable pub timer_ids : List Timer → List Text
timer_ids ts = map (λ t. t.id) ts

-- The number of rows with an id, and of those that have not fired.
unfoldable pub count : Text → List Row → ℕ
count id [] = 0
count id (r ∷ rows) = let rest = count id rows in if id == r.id then suc rest else rest

unfoldable pub unfired : Text → List Row → ℕ
unfired id [] = 0
unfired id (r ∷ rows) =
    let rest = unfired id rows in if id == r.id && not r.fired then suc rest else rest

unfired-le-count : (id : Text) (rows : List Row) → unfired id rows ≤ count id rows
unfolding unfired count
unfired-le-count id [] = omega arith
unfired-le-count id (r ∷ rows) = ground (arith, unfired-le-count id rows)

occurrences-timer_ids :
    (id : Text) (rows : List Row)
    → occurrences id (timer_ids (map row_to_timer rows)) ≡ count id rows
unfolding occurrences timer_ids row_to_timer count
occurrences-timer_ids id [] = refl
occurrences-timer_ids id (r ∷ rows) = ground (arith, occurrences-timer_ids id rows)

count-insert_row :
    (id : Text) (r : Row) (rows : List Row) → count id (insert_row r rows) ≡ count id (r ∷ rows)
unfolding count insert_row
count-insert_row id r [] = refl
count-insert_row id r (q ∷ rows) = ground (arith, count-insert_row id r rows)

count-sort_rows : (id : Text) (rows : List Row) → count id (sort_rows rows) ≡ count id rows
unfolding count sort_rows
count-sort_rows id [] = refl
count-sort_rows id (r ∷ rows) =
    ground (arith, count-sort_rows id rows, count-insert_row id r (sort_rows rows))

count-keep-is_due :
    (cutoff : ℕ) (id : Text) (rows : List Row)
    → count id (keep (is_due cutoff) rows) ≤ unfired id rows
unfolding count unfired is_due
count-keep-is_due cutoff id [] = omega arith
count-keep-is_due cutoff id (r ∷ rows) = ground (arith, count-keep-is_due cutoff id rows)

contains-row_ids :
    (id : Text) (rows : List Row) → count id rows ≡ 0 → contains (row_ids rows) id ≡ false
unfolding count row_ids
contains-row_ids id [] h = refl
contains-row_ids id (r ∷ rows) h = ground (arith, contains-row_ids id rows)

count_of_absent :
    (id : Text) (rows : List Row) → contains (row_ids rows) id ≡ false → count id rows ≡ 0
unfolding count row_ids
count_of_absent id [] h = refl
count_of_absent id (r ∷ rows) h = ground (arith, count_of_absent id rows)

count-mark_fired :
    (ids : List Text) (id : Text) (rows : List Row) → count id (mark_fired ids rows) ≡ count id rows
unfolding count mark_fired
count-mark_fired ids id [] = refl
count-mark_fired ids id (r ∷ rows) = ground (arith, count-mark_fired ids id rows)

unfired-mark_fired :
    (ids : List Text) (id : Text) (rows : List Row)
    → unfired id (mark_fired ids rows) ≡ (if contains ids id then 0 else unfired id rows)
unfolding unfired mark_fired
unfired-mark_fired ids id [] = ground arith
unfired-mark_fired ids id (r ∷ rows) = ground (arith, unfired-mark_fired ids id rows)

count-append :
    (id : Text) (rows more : List Row) → count id (rows ++ more) ≡ count id rows + count id more
unfolding count
count-append id [] more = omega arith
count-append id (r ∷ rows) more = ground (arith, count-append id rows more)

unfired-append :
    (id : Text) (rows more : List Row)
    → unfired id (rows ++ more) ≡ unfired id rows + unfired id more
unfolding unfired
unfired-append id [] more = omega arith
unfired-append id (r ∷ rows) more = ground (arith, unfired-append id rows more)

cancel-keeps :
    (timer_id id : Text) (rows : List Row)
    → (count id (cancel timer_id rows) ≡ count id rows)
      × (unfired id (cancel timer_id rows) ≡ unfired id rows)
unfolding count unfired cancel
cancel-keeps timer_id id [] = (refl, refl)
cancel-keeps timer_id id (r ∷ rows) =
    (ground (arith, cancel-keeps timer_id id rows), ground (arith, cancel-keeps timer_id id rows))

cancel_for_run-keeps :
    (run_id id : Text) (rows : List Row)
    → (count id (cancel_for_run run_id rows) ≡ count id rows)
      × (unfired id (cancel_for_run run_id rows) ≡ unfired id rows)
unfolding count unfired cancel_for_run
cancel_for_run-keeps run_id id [] = (refl, refl)
cancel_for_run-keeps run_id id (r ∷ rows) = (
  ground (arith, cancel_for_run-keeps run_id id rows),
  ground (arith, cancel_for_run-keeps run_id id rows),
)

-- How often a timer can still be due: once if it has not fired, or is not there yet.
unfoldable pub remaining : Text → List Row → ℕ
remaining id rows = unfired id rows + (1 - count id rows)

schedule-remaining :
    (id : Text) (t : Timer) (rows : List Row)
    → count id rows ≤ 1
    → (count id (or_same (schedule t rows) rows) ≤ 1)
      × (remaining id (or_same (schedule t rows) rows) ≤ remaining id rows)
unfolding schedule remaining count unfired
schedule-remaining id t rows u = elim (Bool-cases (contains (row_ids rows) t.id)) [
  | inl taken ↦ rw taken (u, omega arith)
  | inr free ↦
      let row : Row = record {
        id = t.id;
        run_id = t.run_id;
        wake_at = t.wake_at;
        kind = t.kind;
        payload = t.payload;
        cancelled = false;
        fired = false;
      } in
      rw free (
        ground (arith, count-append id rows (row ∷ []), count_of_absent t.id rows free),
        ground (
          arith,
          count-append id rows (row ∷ []),
          unfired-append id rows (row ∷ []),
          count_of_absent t.id rows free,
        ),
      )
]

cancel-remaining :
    (timer_id id : Text) (rows : List Row)
    → count id rows ≤ 1
    → (count id (cancel timer_id rows) ≤ 1)
      × (remaining id (cancel timer_id rows) ≤ remaining id rows)
unfolding remaining
cancel-remaining timer_id id rows u =
    let (c, f) = cancel-keeps timer_id id rows in (omega (arith, c), rw (c, f) (omega arith))

cancel_for_run-remaining :
    (run_id id : Text) (rows : List Row)
    → count id rows ≤ 1
    → (count id (cancel_for_run run_id rows) ≤ 1)
      × (remaining id (cancel_for_run run_id rows) ≤ remaining id rows)
unfolding remaining
cancel_for_run-remaining run_id id rows u =
    let (c, f) = cancel_for_run-keeps run_id id rows in (omega (arith, c), rw (c, f) (omega arith))

due-remaining :
    (cutoff : ℕ) (id : Text) (rows : List Row)
    → count id rows ≤ 1
    → let (ts, rows') = due cutoff rows in
      (count id rows' ≤ 1)
      × (occurrences id (timer_ids ts) + remaining id rows' ≤ remaining id rows)
unfolding due remaining
due-remaining cutoff id rows u =
    let found = sort_rows (keep (is_due cutoff) rows) in
    (
      ground (arith, count-mark_fired (row_ids found) id rows),
      ground (
        arith,
        count-mark_fired (row_ids found) id rows,
        unfired-mark_fired (row_ids found) id rows,
        occurrences-timer_ids id found,
        count-sort_rows id (keep (is_due cutoff) rows),
        count-keep-is_due cutoff id rows,
        unfired-le-count id rows,
        count_of_absent id found,
      ),
    )

step-remaining :
    (op : Op) (id : Text) (rows : List Row)
    → count id rows ≤ 1
    → let (ts, rows') = step op rows in
      (count id rows' ≤ 1)
      × (occurrences id (timer_ids ts) + remaining id rows' ≤ remaining id rows)
unfolding step occurrences timer_ids
step-remaining (schedule_op t) id rows u =
    let (c, f) = schedule-remaining id t rows u in (c, omega (arith, f))
step-remaining (due_op cutoff) id rows u = due-remaining cutoff id rows u
step-remaining (cancel_op timer_id) id rows u =
    let (c, f) = cancel-remaining timer_id id rows u in (c, omega (arith, f))
step-remaining (cancel_for_run_op run_id) id rows u =
    let (c, f) = cancel_for_run-remaining run_id id rows u in (c, omega (arith, f))

occurrences-append :
    (id : Text) (ts us : List Timer)
    → occurrences id (timer_ids (ts ++ us))
      ≡ occurrences id (timer_ids ts) + occurrences id (timer_ids us)
unfolding occurrences timer_ids
occurrences-append id [] us = omega arith
occurrences-append id (t ∷ ts) us = ground (arith, occurrences-append id ts us)

fired_by-remaining :
    (ops : List Op) (id : Text) (rows : List Row)
    → count id rows ≤ 1
    → occurrences id (timer_ids (fired_by ops rows)) ≤ remaining id rows
unfolding fired_by occurrences timer_ids
fired_by-remaining [] id rows u = omega arith
fired_by-remaining (op ∷ ops) id rows u =
    let (ts, rows') = step op rows in
    let (u', spent) = step-remaining op id rows u in
    rw (occurrences-append id ts (fired_by ops rows'))
      (omega (arith, fired_by-remaining ops id rows' u', spent))

-- Over any sequence of operations on an empty table, no timer is handed out twice.
pub fired_by_once : (ops : List Op) (id : Text) → occurrences id (timer_ids (fired_by ops [])) ≤ 1
unfolding remaining unfired count
fired_by_once ops id = omega (arith, fired_by-remaining ops id [] (omega arith))

-- A look at the timers hands out each timer as often as there are rows with its id that are past
-- their time, not cancelled and not fired: none is missed and none is handed out beyond them.
pub occurrences-due :
    (cutoff : ℕ) (rows : List Row) (id : Text)
    → occurrences id (timer_ids (due cutoff rows).0) ≡ count id (keep (is_due cutoff) rows)
unfolding due
occurrences-due cutoff rows id =
    let found = sort_rows (keep (is_due cutoff) rows) in
    occurrences-timer_ids id found ∙ count-sort_rows id (keep (is_due cutoff) rows)
