-- ===== src/Store/EventLog/Replay.antt =====
-- The replay of a run's events from any of them on.
use flowers_oss.Base.{
  ℕ, ◌+◌, ◌≡◌, ◌<◌, ◌≤◌, refl, List, [], ◌∷◌, ◌++◌, list_eq, nat_eq, keep, map, arith, length, All,
}
use mathlib.Core.List.{append-nil, append_assoc}
use flowers_oss.Base.Text.{Text, str}
use flowers_oss.Base.Value.{Fields}
use flowers_oss.Store.Json.{of_nat}
use flowers_oss.Store.Tables.{Codec, Store, EventRow, new_store}
use flowers_oss.Store.EventLog.{
  put, insert_by_eid, order_by_eid, selected, append_event, get_events,
}
use flowers_oss.Store.EventLog.Laws.{
  Occurrence, events_of, replay, append_all, rows_after, one_more, none_before,
  append_event_refines,
}

insert_by_eid_least :
    {Json : Type 0} (r : EventRow Json) (rows : List (EventRow Json))
    → All (λ q. r.eid < q.eid) rows
    → insert_by_eid r rows ≡ r ∷ rows
insert_by_eid_least r [] h = refl
insert_by_eid_least r (q ∷ rows) h = ground arith

module _ {Json : Type 0} (c : Codec Json) where
  keep-rows_after_above :
      (i : Text) (after b : ℕ) (n : Text → ℕ) (log : List Occurrence)
      → b ≤ n i
      → All (λ r. b < r.eid) (keep (selected i after) (rows_after c n log))
  unfolding rows_after one_more
  keep-rows_after_above i after b n [] h = tt
  keep-rows_after_above i after b n ((j, d) ∷ log) h =
      ground (arith, keep-rows_after_above i after b (one_more j n) log)

  order-keep-rows_after :
      (i : Text) (after : ℕ) (n : Text → ℕ) (log : List Occurrence)
      → order_by_eid (keep (selected i after) (rows_after c n log))
        ≡ keep (selected i after) (rows_after c n log)
  unfolding rows_after one_more order_by_eid
  order-keep-rows_after i after n [] = refl
  order-keep-rows_after i after n ((j, d) ∷ log) = ground (
    arith,
    order-keep-rows_after i after (one_more j n) log,
    keep-rows_after_above i after (n j + 1) (one_more j n) log,
    insert_by_eid_least (record { run_id = j; eid = n j + 1; content = c.dumps d })
        (keep (selected i after) (rows_after c (one_more j n) log)),
  )

  map-keep-rows_after :
      (i : Text) (after : ℕ) (n : Text → ℕ) (log : List Occurrence)
      → map
          (λ r. put (str "id") (of_nat r.eid) (c.loads r.content))
          (keep (selected i after) (rows_after c n log))
        ≡ replay after (n i) (events_of i log)
  unfolding rows_after one_more replay events_of
  map-keep-rows_after i after n [] = refl
  map-keep-rows_after i after n ((j, d) ∷ log) =
      ground (arith, c.loads-dumps d, map-keep-rows_after i after (one_more j n) log)

  append_all_refines :
      (log before : List Occurrence) (s : Store Json)
      → s.events ≡ rows_after c none_before before
      → (append_all c log s).events ≡ rows_after c none_before (before ++ log)
  unfolding append_all append_event
  append_all_refines [] before s held = rw (append-nil before) held
  append_all_refines ((i, d) ∷ log) before s held = rw (← append_assoc before ((i, d) ∷ []) log) (
      append_all_refines log (before ++ ((i, d) ∷ [])) (append_event c i d s).0
        ((append_event_refines c i d s before held).0))

  -- After any events were appended, for any runs, to a new store, a run's events come back from any
  -- of them on, all of them, in order and numbered from one on without a gap; and a further event
  -- gets the next number.
  pub get_events-append_all :
      (log : List Occurrence) (i : Text) (after : ℕ) (d : Fields)
      → (get_events c i after (append_all c log new_store) ≡ replay after 0 (events_of i log))
        × ((append_event c i d (append_all c log new_store)).1 ≡ length (events_of i log) + 1)
  unfolding get_events rows_after
  get_events-append_all log i after d =
      let held : (append_all c log new_store).events ≡ rows_after c none_before log =
        append_all_refines log [] new_store refl in
      (
        rw (held, order-keep-rows_after i after none_before log)
            (map-keep-rows_after i after none_before log),
        (append_event_refines c i d _ log held).1,
      )
