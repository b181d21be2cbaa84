-- ===== src/Store/EventLog/Laws.antt =====
-- The events of a run are numbered without a gap, and replayed from any of them on.
use flowers_oss.Base.{
  ℕ, suc, ◌+◌, ◌≡◌, ◌<◌, ap, List, [], ◌∷◌, ◌++◌, ◌==◌, list_eq, nat_eq, if◌then◌else◌, arith,
  length,
}
use flowers_oss.Base.Text.{Text, str, ltb}
use flowers_oss.Base.Value.{Fields}
use flowers_oss.Store.Json.{of_nat}
use flowers_oss.Store.Tables.{Codec, Store, EventRow}
use flowers_oss.Store.EventLog.{put, max_eid, append_event}

-- A run's id with an event.
abbrev pub Occurrence : Type 0
Occurrence = Text × Fields

-- The events of a run, in order.
unfoldable pub events_of : Text → List Occurrence → List Fields
unfolding list_eq nat_eq
events_of run_id [] = []
events_of run_id ((i, d) ∷ log) =
    if i == run_id then d ∷ events_of run_id log else events_of run_id log

-- The events after the first `after`, each with its number; `n` are before the list.
unfoldable pub replay : ℕ → ℕ → List Fields → List Fields
unfolding put
replay after n [] = []
replay after n (d ∷ ds) =
    if ltb after (suc n)
    then put (str "id") (of_nat (suc n)) d ∷ replay after (suc n) ds
    else replay after (suc n) ds

unfoldable pub one_more : Text → (Text → ℕ) → Text → ℕ
unfolding list_eq nat_eq
one_more i n j = if i == j then suc (n j) else n j

abbrev pub none_before : Text → ℕ
none_before _ = 0

module _ {Json : Type 0} (c : Codec Json) where
  unfoldable pub append_all : List Occurrence → Store Json → Store Json
  unfolding append_event
  append_all [] s = s
  append_all ((i, d) ∷ log) s = append_all log (append_event c i d s).0

  -- The rows that a list of events is stored as; `n` tells how many each run has before it.
  unfoldable pub rows_after : (Text → ℕ) → List Occurrence → List (EventRow Json)
  unfolding one_more
  rows_after n [] = []
  rows_after n ((i, d) ∷ log) =
      record { run_id = i; eid = n i + 1; content = c.dumps d } ∷ rows_after (one_more i n) log

  max_eid-rows_after :
      (i : Text) (n : Text → ℕ) (log : List Occurrence)
      → (length (events_of i log) ≡ 0 → max_eid i (rows_after n log) ≡ 0)
        × (0 < length (events_of i log)
            → max_eid i (rows_after n log) ≡ n i + length (events_of i log))
  unfolding rows_after max_eid events_of one_more
  max_eid-rows_after i n [] = ground arith
  max_eid-rows_after i n ((j, d) ∷ log) = (
    ground (arith, max_eid-rows_after i (one_more j n) log),
    ground (arith, max_eid-rows_after i (one_more j n) log),
  )

  max_eid_lem :
      (i : Text) (log : List Occurrence)
      → max_eid i (rows_after none_before log) ≡ length (events_of i log)
  max_eid_lem i log = ground (arith, max_eid-rows_after i none_before log)

  rows_after-append_one :
      (n : Text → ℕ) (log : List Occurrence) (i : Text) (d : Fields)
      → rows_after n (log ++ ((i, d) ∷ []))
        ≡ rows_after n log
          ++ (record { run_id = i; eid = n i + length (events_of i log) + 1; content = c.dumps d }
              ∷ [])
  unfolding rows_after events_of one_more
  rows_after-append_one n [] i d = ground arith
  rows_after-append_one n ((j, x) ∷ log) i d =
      ground (arith, rows_after-append_one (one_more j n) log i d)

  pub append_event_refines :
      (i : Text) (d : Fields) (s : Store Json) (log : List Occurrence)
      → s.events ≡ rows_after none_before log
      → ((append_event c i d s).0.events ≡ rows_after none_before (log ++ ((i, d) ∷ [])))
        × ((append_event c i d s).1 ≡ length (events_of i log) + 1)
  unfolding append_event
  append_event_refines i d s log held =
      ground
        (arith, max_eid_lem i log, ap (max_eid i) held, rows_after-append_one none_before log i d)
