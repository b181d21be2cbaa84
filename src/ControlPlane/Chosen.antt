-- ===== src/ControlPlane/Chosen.antt =====
-- The timer that is chosen for each run.
use flowers_oss.Base.{
  ◌≡◌, refl, ap, Bool, false, not, ◌&&◌, ◌||◌, Option, none, some, List, [], ◌∷◌, ◌++◌, ◌==◌,
  list_eq, nat_eq, if◌then◌else◌, arith, any, keep, contains, Bool-cases, inl, inr,
}
use mathlib.Core.List.{append-nil, append_assoc}
use flowers_oss.Base.Text.{Text}
use flowers_oss.Base.Dict.{
  Dict, keys, values, lookup, insert, lookup-insert, contains-keys, is_some,
}
use flowers_oss.Timers.{Timer}
use flowers_oss.ControlPlane.Tick.{is_kind, is_drive, is_check, choose, Batch, sort_one, sort_due}

-- Each entry stands under its run, and each run has one entry.
abbrev pub IsKeyed : Dict Text Timer → Type 0
IsKeyed [] = Unit
IsKeyed ((k, t) ∷ d) = (t.run_id ≡ k) × (contains (keys d) k ≡ false) × IsKeyed d

abbrev pub of_run : Text → Timer → Bool
of_run j t = t.run_id == j

abbrev pub option_list : Option Timer → List Timer
option_list none = []
option_list (some t) = t ∷ []

pub keep-values :
    (j : Text) (d : Dict Text Timer)
    → IsKeyed d
    → keep (of_run j) (values d) ≡ option_list (lookup j d)
unfolding values lookup keys
keep-values j [] h = refl
keep-values j ((k, t) ∷ d) h = ground (arith, keep-values j d h.2, contains-keys d k)

contains-keys-insert :
    (j k : Text) (t : Timer) (d : Dict Text Timer)
    → contains (keys (insert k t d)) j ≡ (j == k || contains (keys d) j)
contains-keys-insert j k t d =
    ground (arith, contains-keys (insert k t d) j, contains-keys d j, lookup-insert j k t d)

insert-IsKeyed : (t : Timer) (d : Dict Text Timer) → IsKeyed d → IsKeyed (insert t.run_id t d)
unfolding insert keys
insert-IsKeyed t [] h = (refl, refl, tt)
insert-IsKeyed t ((k, q) ∷ d) h =
    ground (arith, insert-IsKeyed t d h.2, contains-keys-insert k t.run_id t d)

choose-IsKeyed : (t : Timer) (d : Dict Text Timer) → IsKeyed d → IsKeyed (choose t d)
unfolding choose
choose-IsKeyed t d h = ground (arith, insert-IsKeyed t d h)

abbrev pub drives : Text → Timer → Bool
drives j t = of_run j t && is_drive t

-- A timer that drives the run and is no check.
abbrev pub ends_window : Text → Timer → Bool
ends_window j t = drives j t && not (is_check t)

abbrev pub is_deadline : Option Timer → Bool
is_deadline none = false
is_deadline (some t) = not (is_check t)

is_some-choose :
    (j : Text) (t : Timer) (d : Dict Text Timer)
    → is_some (lookup j (choose t d)) ≡ (of_run j t || is_some (lookup j d))
unfolding choose
is_some-choose j t d = ground (arith, lookup-insert j t.run_id t d)

is_deadline-choose :
    (j : Text) (t : Timer) (d : Dict Text Timer)
    → is_deadline (lookup j (choose t d))
      ≡ (of_run j t && not (is_check t) || is_deadline (lookup j d))
unfolding choose
is_deadline-choose j t d = ground (arith, lookup-insert j t.run_id t d)

-- What the first loop does to the timer that is chosen for a run.
sort_one_chosen :
    (t : Timer) (b : Batch)
    → (sort_one t b).chosen ≡ (if is_drive t then choose t b.chosen else b.chosen)
unfolding sort_one
sort_one_chosen t b = ground arith

sort_one-IsKeyed : (t : Timer) (b : Batch) → IsKeyed b.chosen → IsKeyed (sort_one t b).chosen
sort_one-IsKeyed t b h = elim (Bool-cases (is_drive t)) [
  | inl e ↦ rw (sort_one_chosen t b, e) (choose-IsKeyed t b.chosen h)
  | inr e ↦ rw (sort_one_chosen t b, e) h
]

pub sort_due-IsKeyed :
    (ts : List Timer) (b : Batch) → IsKeyed b.chosen → IsKeyed (sort_due ts b).chosen
unfolding sort_due
sort_due-IsKeyed [] b h = h
sort_due-IsKeyed (t ∷ ts) b h = sort_due-IsKeyed ts (sort_one t b) (sort_one-IsKeyed t b h)

pub is_some-sort_due :
    (j : Text) (ts : List Timer) (b : Batch)
    → is_some (lookup j (sort_due ts b).chosen) ≡ (is_some (lookup j b.chosen) || any (drives j) ts)
unfolding sort_due
is_some-sort_due j [] b = ground arith
is_some-sort_due j (t ∷ ts) b = ground (
  arith,
  is_some-sort_due j ts (sort_one t b),
  ap (lookup j) (sort_one_chosen t b),
  is_some-choose j t b.chosen,
)

pub is_deadline-sort_due :
    (j : Text) (ts : List Timer) (b : Batch)
    → is_deadline (lookup j (sort_due ts b).chosen)
      ≡ (is_deadline (lookup j b.chosen) || any (ends_window j) ts)
unfolding sort_due
is_deadline-sort_due j [] b = ground arith
is_deadline-sort_due j (t ∷ ts) b = ground (
  arith,
  is_deadline-sort_due j ts (sort_one t b),
  ap (lookup j) (sort_one_chosen t b),
  is_deadline-choose j t b.chosen,
)

reverify-ne-reap : (t : Timer) → (is_kind "reverify" t && is_kind "reap" t) ≡ false
reverify-ne-reap t = elim (Bool-cases (is_kind "reverify" t)) [
  | inl e ↦ ground arith
  | inr e ↦ ground arith
]

sort_one_reverifies :
    (t : Timer) (b : Batch)
    → (sort_one t b).reverifies
      ≡ (if is_kind "reverify" t then b.reverifies ++ (t ∷ []) else b.reverifies)
unfolding sort_one
sort_one_reverifies t b = ground arith

sort_one_reaps :
    (t : Timer) (b : Batch)
    → (sort_one t b).reaps ≡ (if is_kind "reap" t then b.reaps ++ (t ∷ []) else b.reaps)
unfolding sort_one
sort_one_reaps t b = ground (arith, reverify-ne-reap t)

pub sort_due_apart :
    (ts : List Timer) (b : Batch)
    → ((sort_due ts b).reverifies ≡ b.reverifies ++ keep (is_kind "reverify") ts)
      × ((sort_due ts b).reaps ≡ b.reaps ++ keep (is_kind "reap") ts)
unfolding sort_due
sort_due_apart [] b = (rw (append-nil b.reverifies) refl, rw (append-nil b.reaps) refl)
sort_due_apart (t ∷ ts) b = (
  ground (
    arith,
    sort_due_apart ts (sort_one t b),
    sort_one_reverifies t b,
    append_assoc b.reverifies (t ∷ []) (keep (is_kind "reverify") ts),
  ),
  ground (
    arith,
    sort_due_apart ts (sort_one t b),
    sort_one_reaps t b,
    append_assoc b.reaps (t ∷ []) (keep (is_kind "reap") ts),
  ),
)

pub lookup-IsKeyed :
    (j : Text) (d : Dict Text Timer) (t : Timer) → IsKeyed d → lookup j d ≡ some t → t.run_id ≡ j
unfolding lookup
lookup-IsKeyed j [] t h e = cc
lookup-IsKeyed j ((k, q) ∷ d) t h e = elim (Bool-cases (j == k)) [
  | inl here ↦ ground (arith, h.0)
  | inr later ↦ lookup-IsKeyed j d t h.2 (ground arith)
]
