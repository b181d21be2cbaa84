-- ===== src/TrustGate/Verdict.antt =====
-- `gate_verdict` of flowers/trustgate.py.
use flowers_oss.Base.{
  ◌≡◌, ◌↔◌, Bool, true, false, not, List, [], ◌++◌, if◌then◌else◌, is_empty, arith,
}
use flowers_oss.Base.Text.{Text, str, join}
use flowers_oss.Base.Sorted.{sorted, sorted_set, sorted_set-eq-nil}

pub record Finish : Type 0 where
  pub claimed_done : Bool
  pub ok : Bool
  pub stale_files : List Text
  pub gate_breaking : List Text
  pub unverified_external : List Text
  pub unverifiable_external : List Text
  pub objective_unmet : List Text

abbrev listed : List Text → Text
listed xs = join (str ", ") xs

unfoldable pub gate_verdict : Finish → Bool × Text
gate_verdict f =
    let stale = sorted f.stale_files in
    let breaking = sorted_set f.gate_breaking in
    let unmet = sorted_set f.objective_unmet in
    let unver = sorted_set f.unverified_external in
    let unverifiable = sorted_set f.unverifiable_external in
    if not f.claimed_done
    then (false, str "the worker did not claim completion")
    else if not f.ok
    then (false, str "the worker did not finish cleanly (it errored)")
    else if not (is_empty f.stale_files)
    then (
      false,
      str "the result rests on stale reads — "
          ++ (listed stale
              ++ str
                  " changed since the worker last read it; the finished work may be out of date"),
    )
    else if not (is_empty breaking)
    then (false, str "a reliability detector contradicts the completion claim: " ++ listed breaking)
    else if not (is_empty unmet)
    then (
      false,
      str
            "a required objective check did not pass — the deliverable does not yet meet the frozen definition of done: "
          ++ listed unmet,
    )
    else if not (is_empty unver)
    then (
      false,
      str
            "a claimed external effect is not reflected by the external state (read-back shows no such effect): "
          ++ listed unver,
    )
    else if not (is_empty unverifiable)
    then (
      false,
      str
            "a claimed external effect could not be verified (no reliable read-back) — needs your confirmation: "
          ++ listed unverifiable,
    )
    else (true, str "no reliability flags; the completion claim is supported by the record")

-- The gate accepts exactly when the worker claims completion and finished cleanly, and nothing is
-- listed as stale, breaking, unmet, unverified or unverifiable.
pub gate_verdict_iff :
    (f : Finish)
    → ((gate_verdict f).0 ≡ true) ↔ (
        (f.claimed_done ≡ true)
        × (f.ok ≡ true)
        × (f.stale_files ≡ [])
        × (f.gate_breaking ≡ [])
        × (f.objective_unmet ≡ [])
        × (f.unverified_external ≡ [])
        × (f.unverifiable_external ≡ []))
unfolding gate_verdict
gate_verdict_iff f = ground (
  arith,
  sorted_set-eq-nil f.gate_breaking,
  sorted_set-eq-nil f.objective_unmet,
  sorted_set-eq-nil f.unverified_external,
  sorted_set-eq-nil f.unverifiable_external,
)
