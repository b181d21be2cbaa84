-- ===== src/Store/Roundtrip/Runs.antt =====
-- Questions and runs, written and read back.
use flowers_oss.Base.{◌≡◌, refl, Option, none, some, list_eq, nat_eq}
use flowers_oss.Base.Value.{Value}
use flowers_oss.Types.Run.{RunStatus, Question, RunState}
use flowers_oss.Types.Run
use flowers_oss.Store.Json.{
  as_fields, to_optional, as_optional, as_optional-text, as_optional-nat, of_array-to_array_same,
  read_text,
}
use flowers_oss.Store.Runs.{
  run_status_word, run_status_of, approval_to_dict, approval_from_dict, read_question, run_to_dict,
  run_from_dict,
}

run_status_of-run_status_word : (s : RunStatus) → run_status_of (run_status_word s) ≡ some s
unfolding run_status_of list_eq nat_eq
run_status_of-run_status_word Run.pending = refl
run_status_of-run_status_word Run.clarifying = refl
run_status_of-run_status_word Run.planning = refl
run_status_of-run_status_word Run.awaiting_go = refl
run_status_of-run_status_word Run.running = refl
run_status_of-run_status_word Run.waiting = refl
run_status_of-run_status_word Run.awaiting_approval = refl
run_status_of-run_status_word Run.awaiting_connect = refl
run_status_of-run_status_word Run.done = refl
run_status_of-run_status_word Run.escalated = refl
run_status_of-run_status_word Run.stopped = refl

-- A stored question comes back.
pub approval_from_dict-approval_to_dict :
    (a : Question) → approval_from_dict (approval_to_dict a) ≡ some a
unfolding approval_from_dict approval_to_dict list_eq nat_eq
approval_from_dict-approval_to_dict a =
    rw
      (
        of_array-to_array_same Value.text read_text (λ x. refl) a.options,
        of_array-to_array_same Value.text read_text (λ x. refl) a.subject_keys,
        as_optional-text a.tier,
      )
      refl

as_optional-question :
    (o : Option Question)
    → as_optional read_question (some (to_optional (λ a. Value.object (approval_to_dict a)) o))
      ≡ some o
unfolding as_optional to_optional
as_optional-question none = refl
as_optional-question (some a) =
    rw (as_optional, read_question, approval_from_dict-approval_to_dict a) refl

-- A stored run comes back.
pub run_from_dict-run_to_dict : (r : RunState) → run_from_dict (run_to_dict r) ≡ some r
unfolding run_from_dict run_to_dict list_eq nat_eq as_fields
run_from_dict-run_to_dict r =
    rw
      (
        run_status_of-run_status_word r.status,
        as_optional-question r.pending_approval,
        as_optional-nat r.deadline_ts,
      )
      refl
