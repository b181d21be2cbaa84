-- ===== src/ControlPlane/Tick.antt =====
-- `tick` of flowers/controlplane.py.
use flowers_oss.Base.{
  Bool, true, not, ◌&&◌, Option, none, some, List, [], ◌∷◌, ◌++◌, ◌==◌, list_eq, nat_eq, map,
  if◌then◌else◌,
}
use Prim.Native.String.{String}
use flowers_oss.Base.Text.{Text, str}
use flowers_oss.Base.Dict.{Dict, values, lookup, insert}
use flowers_oss.Base.Value.{Fields}
use flowers_oss.Timers.{Timer}

abbrev pub is_kind : String → Timer → Bool
is_kind kind t = t.kind == str kind

-- Whether a timer drives its run, as a deadline or as a check.
abbrev pub is_drive : Timer → Bool
is_drive t = not (is_kind "reverify" t) && not (is_kind "reap" t)

abbrev pub is_check : Timer → Bool
is_check t = is_kind "await_check" t

-- Whether a timer takes the place of the one that is chosen for its run.
abbrev pub wins : Timer → Option Timer → Bool
wins t none = true
wins t (some cur) = is_check cur && not (is_check t)

unfoldable pub choose : Timer → Dict Text Timer → Dict Text Timer
unfolding lookup insert list_eq nat_eq
choose t chosen = if wins t (lookup t.run_id chosen) then insert t.run_id t chosen else chosen

pub record Batch : Type 0 where
  pub chosen : Dict Text Timer
  pub reverifies : List Timer
  pub reaps : List Timer

-- The body of the first loop.
unfoldable pub sort_one : Timer → Batch → Batch
unfolding choose list_eq nat_eq
sort_one t b =
    if is_kind "reverify" t
    then record b { reverifies = b.reverifies ++ (t ∷ []) }
    else if is_kind "reap" t
    then record b { reaps = b.reaps ++ (t ∷ []) }
    else record b { chosen = choose t b.chosen }

-- The first loop: one timer for each run, and those that are handled apart from it.
unfoldable pub sort_due : List Timer → Batch → Batch
unfolding sort_one
sort_due [] b = b
sort_due (t ∷ ts) b = sort_due ts (sort_one t b)

-- A call of the operator.
pub data OperatorCall : Type 0 where
  reverify : Text → Fields → OperatorCall
  reap : Text → Fields → OperatorCall
  resume : Text → Text → OperatorCall

abbrev pub resume_call : Timer → OperatorCall
resume_call t = resume t.run_id (if is_check t then str "check" else str "timer")

abbrev pub no_batch : Batch
no_batch = record { chosen = []; reverifies = []; reaps = [] }

-- The calls that the timers that are due lead to, in order.
unfoldable pub calls_of : List Timer → List OperatorCall
unfolding sort_due values list_eq nat_eq
calls_of due =
    let b = sort_due due no_batch in
    map (λ t. reverify t.run_id t.payload) b.reverifies
    ++ (map (λ t. reap t.run_id t.payload) b.reaps ++ map resume_call (values b.chosen))

-- A call may raise, or may give no run; the world changes either way.
module _ {W : Type 0} {Run : Type 0} (call : OperatorCall → W → Option (Option Run) × W) where
  abbrev given : Option (Option Run) → List Run
  given (some (some r)) = r ∷ []
  given _ = []

  unfoldable pub run_calls : List OperatorCall → W → List Run × W
  run_calls [] w = ([], w)
  run_calls (c ∷ cs) w =
      let answer = call c w in
      let rest = run_calls cs answer.1 in (given answer.0 ++ rest.0, rest.1)

  -- `tick`, given the timers that are due
  unfoldable pub tick : List Timer → W → List Run × W
  unfolding calls_of run_calls
  tick due w = run_calls (calls_of due) w
