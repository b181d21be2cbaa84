-- ===== src/Store/RunTable/Laws.antt =====
-- The tables of runs and plans as dicts.
use flowers_oss.Base.{
  ◌≡◌, refl, ap, Bool, true, false, none, some, List, [], ◌∷◌, ◌==◌, contains, list_eq, nat_eq,
  keep, if◌then◌else◌, arith, Option-cases, inl, inr,
}
use flowers_oss.Base.Text.{Text}
use flowers_oss.Base.Dict.{Dict, keys, values, lookup, insert, lookup-insert}
use flowers_oss.Types.Plan.{Plan}
use flowers_oss.Types.Run.{RunState, RunStatus, running, planning}
use flowers_oss.Store.Plans.{plan_to_dict}
use flowers_oss.Store.Runs.{run_to_dict, run_from_dict, run_status_word}
use flowers_oss.Store.Roundtrip.Runs.{run_from_dict-run_to_dict}
use flowers_oss.Store.Roundtrip.Plans.{plan_from_dict-plan_to_dict, restored_plan}
use flowers_oss.Store.Tables.{Codec, Store, new_store, load_row, load_rows}
use flowers_oss.Store.RunTable.{
  create_run, get_run, save_run, list_runs, is_in_flight, in_flight_words, running_runs, save_plan,
  get_plan,
}

-- A run that is being driven or planned.
abbrev is_under_way : RunStatus → Bool
is_under_way running = true
is_under_way planning = true
is_under_way _ = false

unfoldable pub is_driven : RunState → Bool
is_driven r = is_under_way r.status

in_flight_words_lem :
    (status : RunStatus) → contains in_flight_words (run_status_word status) ≡ is_under_way status
unfolding list_eq nat_eq
in_flight_words_lem RunStatus.pending = refl
in_flight_words_lem RunStatus.clarifying = refl
in_flight_words_lem planning = refl
in_flight_words_lem RunStatus.awaiting_go = refl
in_flight_words_lem running = refl
in_flight_words_lem RunStatus.waiting = refl
in_flight_words_lem RunStatus.awaiting_approval = refl
in_flight_words_lem RunStatus.awaiting_connect = refl
in_flight_words_lem RunStatus.done = refl
in_flight_words_lem RunStatus.escalated = refl
in_flight_words_lem RunStatus.stopped = refl

pub data RunOp : Type 0 where
  create : RunState → RunOp
  save : RunState → RunOp

-- What an operation does to a dict of runs.
unfoldable pub update : RunOp → Dict Text RunState → Dict Text RunState
unfolding insert list_eq nat_eq
update (create r) d = if contains (keys d) r.run_id then d else insert r.run_id r d
update (save r) d = insert r.run_id r d

unfoldable pub update_all : List RunOp → Dict Text RunState → Dict Text RunState
unfolding update
update_all [] d = d
update_all (op ∷ ops) d = update_all ops (update op d)

module _ {Json : Type 0} (c : Codec Json) where
  -- The rows that a dict of runs is stored as.
  abbrev pub rows_of : Dict Text RunState → Dict Text Json
  rows_of [] = []
  rows_of ((k, r) ∷ d) = (k, c.dumps (run_to_dict r)) ∷ rows_of d

  insert-rows_of :
      (k : Text) (r : RunState) (d : Dict Text RunState)
      → insert k (c.dumps (run_to_dict r)) (rows_of d) ≡ rows_of (insert k r d)
  unfolding insert
  insert-rows_of k r [] = refl
  insert-rows_of k r ((j, q) ∷ d) = ground (arith, insert-rows_of k r d)

  read_back : (r : RunState) → run_from_dict (c.loads (c.dumps (run_to_dict r))) ≡ some r
  read_back r = rw (c.loads-dumps, run_from_dict-run_to_dict r) refl

  load_row-lookup :
      (k : Text) (d : Dict Text RunState)
      → load_row c run_from_dict (lookup k (rows_of d)) ≡ some (lookup k d)
  unfolding load_row lookup
  load_row-lookup k [] = refl
  load_row-lookup k ((j, r) ∷ d) = ground (arith, read_back r, load_row-lookup k d)

  load_rows-values :
      (d : Dict Text RunState) → load_rows c run_from_dict (values (rows_of d)) ≡ some (values d)
  unfolding load_rows values
  load_rows-values [] = refl
  load_rows-values ((j, r) ∷ d) = rw (read_back r, load_rows-values d) refl

  is_in_flight_lem : (r : RunState) → is_in_flight c (c.dumps (run_to_dict r)) ≡ is_driven r
  unfolding is_in_flight is_driven run_to_dict
  is_in_flight_lem r = rw (c.loads-dumps) (in_flight_words_lem r.status)

  load_rows-keep :
      (d : Dict Text RunState)
      → load_rows c run_from_dict (keep (is_in_flight c) (values (rows_of d)))
        ≡ some (keep is_driven (values d))
  unfolding load_rows values
  load_rows-keep [] = refl
  load_rows-keep ((j, r) ∷ d) = ground (arith, read_back r, is_in_flight_lem r, load_rows-keep d)

  keys-rows_of : (d : Dict Text RunState) → keys (rows_of d) ≡ keys d
  unfolding keys
  keys-rows_of [] = refl
  keys-rows_of ((j, r) ∷ d) = rw (keys-rows_of d) refl

  -- One operation on the table; a violation of the primary key leaves it as it is.
  unfoldable pub exec : RunOp → Store Json → Store Json
  unfolding create_run save_run
  exec (create r) s = elim (create_run c r s) [ none ↦ s | some s' ↦ s' ]
  exec (save r) s = save_run c r s

  unfoldable pub exec_all : List RunOp → Store Json → Store Json
  unfolding exec
  exec_all [] s = s
  exec_all (op ∷ ops) s = exec_all ops (exec op s)

  module _ (s : Store Json) (d : Dict Text RunState) (held : s.runs ≡ rows_of d) where
    -- A saved run takes its place in the dict.
    pub save_run_refines : (r : RunState) → (save_run c r s).runs ≡ rows_of (insert r.run_id r d)
    unfolding save_run
    save_run_refines r = rw (held, insert-rows_of r.run_id r d) refl

    pub get_run_refines : (k : Text) → get_run c k s ≡ some (lookup k d)
    unfolding get_run
    get_run_refines k = rw (held, load_row-lookup k d) refl

    pub list_runs_refines : list_runs c s ≡ some (values d)
    unfolding list_runs
    list_runs_refines = rw (held, load_rows-values d) refl

    -- The runs that a restart must recover are those of the dict that are driven or planned.
    pub running_runs_refines : running_runs c s ≡ some (keep is_driven (values d))
    unfolding running_runs
    running_runs_refines = rw (held, load_rows-keep d) refl

  exec_refines :
      (op : RunOp) (s : Store Json) (d : Dict Text RunState)
      → s.runs ≡ rows_of d
      → (exec op s).runs ≡ rows_of (update op d)
  unfolding exec update create_run save_run
  exec_refines (create r) s d held =
      ground (arith, ap keys held, keys-rows_of d, save_run_refines s d held r)
  exec_refines (save r) s d held = save_run_refines s d held r

  exec_all_refines :
      (ops : List RunOp) (s : Store Json) (d : Dict Text RunState)
      → s.runs ≡ rows_of d
      → (exec_all ops s).runs ≡ rows_of (update_all ops d)
  unfolding exec_all update_all
  exec_all_refines [] s d held = held
  exec_all_refines (op ∷ ops) s d held =
      exec_all_refines ops (exec op s) (update op d) (exec_refines op s d held)

  -- After any runs were created and saved, from a new store on, the store answers as a dict of runs
  -- would: each run is read back as it was last saved, the runs are listed in the order of their
  -- creation, and those listed for recovery are the ones that are driven or planned.
  pub exec_all-refines-update_all :
      (ops : List RunOp) (k : Text)
      → (get_run c k (exec_all ops new_store) ≡ some (lookup k (update_all ops [])))
        × (list_runs c (exec_all ops new_store) ≡ some (values (update_all ops [])))
        × (running_runs c (exec_all ops new_store)
            ≡ some (keep is_driven (values (update_all ops []))))
  exec_all-refines-update_all ops k =
      let held : (exec_all ops new_store).runs ≡ rows_of (update_all ops []) =
        exec_all_refines ops new_store [] refl in
      (get_run_refines _ _ held k, list_runs_refines _ _ held, running_runs_refines _ _ held)

  -- A plan that can be written is read back for its run, with its step results and criteria
  -- restored, and the plans of the other runs stay as they were.
  pub get_plan-save_plan :
      (i j : Text) (p : Plan) (s s' : Store Json)
      → save_plan c i p s ≡ some s'
      → get_plan c j s' ≡ (if j == i then some (some (restored_plan p)) else get_plan c j s)
  unfolding save_plan get_plan load_row
  get_plan-save_plan i j p s s' h = elim (Option-cases (plan_to_dict p)) [
    | inl e ↦ absurd (ground arith)
    | inr (d, e) ↦
        let same : record s { plans = insert i (c.dumps d) s.plans } ≡ s' = ground arith in
        rw (← same, lookup-insert j i (c.dumps d) s.plans)
          (ground (arith, c.loads-dumps d, plan_from_dict-plan_to_dict p d e))
  ]
