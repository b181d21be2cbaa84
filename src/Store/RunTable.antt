-- ===== src/Store/RunTable.antt =====
-- The runs and the plans of the store.
pub mod Laws
use flowers_oss.Base.{
  Bool, false, Option, none, some, List, [], ◌∷◌, ◌==◌, contains, list_eq, nat_eq, keep,
  if◌then◌else◌,
}
use flowers_oss.Base.Text.{Text, str}
use flowers_oss.Base.Dict.{keys, values, lookup, insert}
use flowers_oss.Base.Value.{Value, Fields}
use flowers_oss.Types.Plan.{Plan}
use flowers_oss.Types.Run.{RunState, RunStatus, running, planning}
use flowers_oss.Store.Json.{◌>>=◌, find}
use flowers_oss.Store.Plans.{plan_to_dict, plan_from_dict}
use flowers_oss.Store.Runs.{run_to_dict, run_from_dict, run_status_word}
use flowers_oss.Store.Tables.{Codec, Store, load_row, load_rows}

-- `json_extract(data, '$.status') IN ('running', 'planning')`
abbrev pub has_status : List Text → Option Value → Bool
has_status words (some (Value.text s)) = contains words s
has_status words _ = false

abbrev pub in_flight_words : List Text
in_flight_words = run_status_word running ∷ run_status_word planning ∷ []

module _ {Json : Type 0} (c : Codec Json) where
  -- none is the violation of the primary key.
  unfoldable pub create_run : RunState → Store Json → Option (Store Json)
  create_run r s =
      if contains (keys s.runs) r.run_id
      then none
      else some (record s { runs = insert r.run_id (c.dumps (run_to_dict r)) s.runs })

  unfoldable pub get_run : Text → Store Json → Option (Option RunState)
  get_run run_id s = load_row c run_from_dict (lookup run_id s.runs)

  unfoldable pub save_run : RunState → Store Json → Store Json
  save_run r s = record s { runs = insert r.run_id (c.dumps (run_to_dict r)) s.runs }

  unfoldable pub list_runs : Store Json → Option (List RunState)
  list_runs s = load_rows c run_from_dict (values s.runs)

  unfoldable pub is_in_flight : Json → Bool
  unfolding find list_eq nat_eq
  is_in_flight j = has_status in_flight_words (find (str "status") (c.loads j))

  unfoldable pub running_runs : Store Json → Option (List RunState)
  running_runs s = load_rows c run_from_dict (keep is_in_flight (values s.runs))

  -- none where the plan cannot be written.
  unfoldable pub save_plan : Text → Plan → Store Json → Option (Store Json)
  save_plan run_id p s = do
    d ← plan_to_dict p
    some (record s { plans = insert run_id (c.dumps d) s.plans })

  unfoldable pub get_plan : Text → Store Json → Option (Option Plan)
  get_plan run_id s = load_row c plan_from_dict (lookup run_id s.plans)
