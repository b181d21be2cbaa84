-- ===== src/Store/EventLog.antt =====
-- The durable log of the events of a run, which the dashboard replays after any event that it knows.
pub mod Laws
pub mod Replay
use flowers_oss.Base.{
  ℕ, suc, ◌+◌, Bool, true, false, ◌&&◌, List, [], ◌∷◌, ◌++◌, ◌==◌, list_eq, nat_eq, keep, map,
  if◌then◌else◌,
}
use flowers_oss.Base.Text.{Text, str, ltb, leb}
use flowers_oss.Base.Value.{Value, Fields}
use flowers_oss.Store.Json.{of_nat}
use flowers_oss.Store.Tables.{Codec, Store, EventRow}

-- `{**d, key: v}`
unfoldable pub put : Text → Value → Fields → Fields
unfolding list_eq nat_eq
put key v Fields.end = Fields.field key v Fields.end
put key v (Fields.field k w d) =
    if key == k then Fields.field k v d else Fields.field k w (put key v d)

-- `COALESCE(MAX(eid), 0)` of a run
unfoldable pub max_eid : {Json : Type 0} → Text → List (EventRow Json) → ℕ
unfolding list_eq nat_eq
max_eid run_id [] = 0
max_eid run_id (r ∷ rows) =
    let rest = max_eid run_id rows in if r.run_id == run_id && ltb rest r.eid then r.eid else rest

-- `ORDER BY eid`
abbrev pub insert_by_eid :
    {Json : Type 0} → EventRow Json → List (EventRow Json) → List (EventRow Json)
insert_by_eid r [] = r ∷ []
insert_by_eid r (q ∷ rows) =
    let rest = insert_by_eid r rows in if leb r.eid q.eid then r ∷ q ∷ rows else q ∷ rest

unfoldable pub order_by_eid : {Json : Type 0} → List (EventRow Json) → List (EventRow Json)
order_by_eid [] = []
order_by_eid (r ∷ rows) = insert_by_eid r (order_by_eid rows)

-- `run_id = ? AND eid > ?`
abbrev pub selected : {Json : Type 0} → Text → ℕ → EventRow Json → Bool
selected run_id after r = r.run_id == run_id && ltb after r.eid

module _ {Json : Type 0} (c : Codec Json) where
  unfoldable pub append_event : Text → Fields → Store Json → Store Json × ℕ
  append_event run_id event s =
      let eid = max_eid run_id s.events + 1 in
      (
        record s {
          events =
              s.events ++ (record { run_id = run_id; eid = eid; content = c.dumps event } ∷ []);
        },
        eid,
      )

  unfoldable pub get_events : Text → ℕ → Store Json → List Fields
  unfolding put list_eq nat_eq
  get_events run_id after s =
      map (λ r. put (str "id") (of_nat r.eid) (c.loads r.content))
        (order_by_eid (keep (selected run_id after) s.events))
