-- ===== src/ControlPlane/Once.antt =====
-- A tick resumes each run once at most, and a deadline is never lost to a check.
use flowers_oss.Base.{
  ◌≡◌, refl, Bool, true, false, none, List, [], ◌∷◌, ◌++◌, ◌==◌, list_eq, nat_eq, map,
  if◌then◌else◌, arith, any, keep, Option-cases, inl, inr,
}
use mathlib.Core.List.{append-nil}
use flowers_oss.Base.Text.{Text, str}
use flowers_oss.Base.Dict.{Dict, values, lookup}
use flowers_oss.Timers.{Timer}
use flowers_oss.ControlPlane.Tick.{
  is_kind, no_batch, sort_due, OperatorCall, reverify, reap, resume, resume_call, calls_of,
}
use flowers_oss.ControlPlane.Chosen.{
  of_run, option_list, drives, ends_window, keep-values, sort_due-IsKeyed, is_some-sort_due,
  is_deadline-sort_due, sort_due_apart, lookup-IsKeyed,
}

abbrev pub resumes : Text → OperatorCall → Bool
resumes j (resume i event) = i == j
resumes j _ = false

abbrev pub is_reverify : OperatorCall → Bool
is_reverify (reverify i payload) = true
is_reverify _ = false

abbrev pub is_reap : OperatorCall → Bool
is_reap (reap i payload) = true
is_reap _ = false

keep-append {ℓ} :
    {A : Type ℓ} (p : A → Bool) (xs ys : List A) → keep p (xs ++ ys) ≡ keep p xs ++ keep p ys
keep-append p [] ys = refl
keep-append p (x ∷ xs) ys = ground (arith, keep-append p xs ys)

-- Which calls of a list that are all of one form are kept.
keep-map_none {ℓ} :
    {A : Type ℓ} (p : OperatorCall → Bool) (f : A → OperatorCall)
    → ((a : A) → p (f a) ≡ false)
    → (xs : List A) → keep p (map f xs) ≡ []
keep-map_none p f h [] = refl
keep-map_none p f h (x ∷ xs) = ground (arith, h x, keep-map_none p f h xs)

keep-map_all {ℓ} :
    {A : Type ℓ} (p : OperatorCall → Bool) (f : A → OperatorCall)
    → ((a : A) → p (f a) ≡ true)
    → (xs : List A) → keep p (map f xs) ≡ map f xs
keep-map_all p f h [] = refl
keep-map_all p f h (x ∷ xs) = ground (arith, h x, keep-map_all p f h xs)

keep-map_resume :
    (j : Text) (ts : List Timer)
    → keep (resumes j) (map resume_call ts) ≡ map resume_call (keep (of_run j) ts)
keep-map_resume j [] = refl
keep-map_resume j (t ∷ ts) = ground (arith, keep-map_resume j ts)

abbrev pub reverify_call : Timer → OperatorCall
reverify_call t = reverify t.run_id t.payload

abbrev pub reap_call : Timer → OperatorCall
reap_call t = reap t.run_id t.payload

resumes-calls_of :
    (j : Text) (due : List Timer)
    → keep (resumes j) (calls_of due)
      ≡ map resume_call (option_list (lookup j (sort_due due no_batch).chosen))
unfolding calls_of
resumes-calls_of j due =
    let b = sort_due due no_batch in
    rw
      (
        keep-append (resumes j) (map reverify_call b.reverifies)
            (map reap_call b.reaps ++ map resume_call (values b.chosen)),
        keep-append (resumes j) (map reap_call b.reaps) (map resume_call (values b.chosen)),
        keep-map_none (resumes j) reverify_call (λ t. refl) b.reverifies,
        keep-map_none (resumes j) reap_call (λ t. refl) b.reaps,
        keep-map_resume j (values b.chosen),
        keep-values j b.chosen (sort_due-IsKeyed due no_batch tt),
      )
      refl

lookup-no_batch : (j : Text) → lookup j no_batch.chosen ≡ none
unfolding lookup
lookup-no_batch j = refl

calls_of_resume :
    (j : Text) (due : List Timer)
    → keep (resumes j) (calls_of due) ≡ (
        if any (drives j) due
        then resume j (if any (ends_window j) due then str "timer" else str "check") ∷ []
        else [])
calls_of_resume j due =
    let chosen : Dict Text Timer = (sort_due due no_batch).chosen in
    rw (resumes-calls_of j due) (elim (Option-cases (lookup j chosen)) [
      | inl e ↦ ground (arith, lookup-no_batch j, is_some-sort_due j due no_batch)
      | inr (t, e) ↦ ground (
        arith,
        lookup-no_batch j,
        lookup-IsKeyed j chosen t (sort_due-IsKeyed due no_batch tt) e,
        is_some-sort_due j due no_batch,
        is_deadline-sort_due j due no_batch,
      )
    ])

-- The calls of a tick: a run is resumed exactly once if some timer that drives it is due, and
-- otherwise not at all; as for a deadline if any of these is not a check, and as for a check
-- otherwise; and every timer that re-verifies or reaps is handled, in order.
pub calls_of_once :
    (j : Text) (due : List Timer)
    → (keep (resumes j) (calls_of due) ≡ (
        if any (drives j) due
        then resume j (if any (ends_window j) due then str "timer" else str "check") ∷ []
        else []))
      × (keep is_reverify (calls_of due) ≡ map reverify_call (keep (is_kind "reverify") due))
      × (keep is_reap (calls_of due) ≡ map reap_call (keep (is_kind "reap") due))
unfolding calls_of
calls_of_once j due =
    let b = sort_due due no_batch in
    let apart = sort_due_apart due no_batch in
    (
      calls_of_resume j due,
      rw
          (
            keep-append is_reverify (map reverify_call b.reverifies)
                (map reap_call b.reaps ++ map resume_call (values b.chosen)),
            keep-append is_reverify (map reap_call b.reaps) (map resume_call (values b.chosen)),
            keep-map_all is_reverify reverify_call (λ t. refl) b.reverifies,
            keep-map_none is_reverify reap_call (λ t. refl) b.reaps,
            keep-map_none is_reverify resume_call (λ t. refl) (values b.chosen),
            apart.0,
            append-nil (map reverify_call (keep (is_kind "reverify") due)),
          )
          refl,
      rw
          (
            keep-append is_reap (map reverify_call b.reverifies)
                (map reap_call b.reaps ++ map resume_call (values b.chosen)),
            keep-append is_reap (map reap_call b.reaps) (map resume_call (values b.chosen)),
            keep-map_none is_reap reverify_call (λ t. refl) b.reverifies,
            keep-map_all is_reap reap_call (λ t. refl) b.reaps,
            keep-map_none is_reap resume_call (λ t. refl) (values b.chosen),
            apart.1,
            append-nil (map reap_call (keep (is_kind "reap") due)),
          )
          refl,
    )
