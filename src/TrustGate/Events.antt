-- ===== src/TrustGate/Events.antt =====
-- The signatures of flowers/trustgate.py that are confirmed after the run, from its event stream.
use flowers_oss.Base.{
  ◌≡◌, refl, Bool, true, false, not, ◌&&◌, ◌||◌, Option, none, some, List, [], ◌∷◌, ◌++◌, ◌==◌,
  contains, list_eq, nat_eq, any, is_empty, arith, Option-cases, inl, inr, if◌then◌else◌,
}
use flowers_oss.Base.Text.{Text, str}
use flowers_oss.Base.Dict
use flowers_oss.Base.Dict.{Dict}

-- An event of the stream; `none` is a missing key.
pub record Event : Type 0 where
  pub kind : Option Text
  pub ok : Option Bool
  pub path : Option Text
  pub hash : Option Text

abbrev succeeded : Event → Bool
succeeded ev = elim ev.ok [ none ↦ true | some b ↦ b ]

abbrev is_kind : Text → Option Text → Bool
is_kind k none = false
is_kind k (some s) = s == k

-- The path and the hash of a successful write of a flagged path, or nothing.
unfoldable pub flagged_write : List Text → Event → Option (Text × Text)
flagged_write flagged ev =
    if not (is_kind (str "write") ev.kind) || not (succeeded ev) then none else elim ev.path [
      | none ↦ none
      | some path ↦
          if is_empty path || not (contains flagged path)
          then none
          else elim ev.hash [ none ↦ none | some h ↦ some (path, h) ]
    ]

abbrev hashes_of : Text → Dict Text (List Text) → List Text
hashes_of path seen = elim (Dict.lookup path seen) [ none ↦ [] | some hashes ↦ hashes ]

-- The loop, with the hashes seen so far for each path.
unfoldable pub redo_from : List Text → Dict Text (List Text) → List Event → Bool
redo_from flagged seen [] = false
redo_from flagged seen (ev ∷ events) = elim (flagged_write flagged ev) [
  | none ↦ redo_from flagged seen events
  | some (path, h) ↦
      if contains (hashes_of path seen) h
      then true
      else redo_from flagged (Dict.insert path (h ∷ hashes_of path seen) seen) events
]

unfoldable pub has_identical_redo : List Event → List Text → Bool
has_identical_redo events flagged = redo_from flagged [] events

abbrev or_run : Option Text → Text
or_run none = str "(run)"
or_run (some []) = str "(run)"
or_run (some (c ∷ s)) = c ∷ s

-- The loop: for each flagged command, whether its last run succeeded.
unfoldable pub final_runs : List Text → Dict Text Bool → List Event → Dict Text Bool
final_runs flagged final_ok [] = final_ok
final_runs flagged final_ok (ev ∷ events) =
    final_runs flagged
      (if is_kind (str "run") ev.kind && contains flagged (or_run ev.path)
        then Dict.insert (or_run ev.path) (succeeded ev) final_ok
        else final_ok)
      events

unfoldable pub final_retry_failed : List Event → List Text → Bool
final_retry_failed events flagged = any not (Dict.values (final_runs flagged [] events))

abbrev signature : Bool → Text → List Text
signature holds name = if holds then name ∷ [] else []

unfoldable pub confirm_gate_breaking : List Text → List Event → List Text → List Text → List Text
confirm_gate_breaking sigs events flagged_rewrites flagged_retries =
    signature (contains sigs (str "unsupported-completion")) (str "unsupported-completion")
    ++ (signature
          (contains sigs (str "forgot-own-edit") && has_identical_redo events flagged_rewrites)
          (str "forgot-own-edit")
        ++ signature
            (contains sigs (str "failed-retry") && final_retry_failed events flagged_retries)
            (str "failed-retry"))

-- The writes that can confirm a redo, in order.
unfoldable pub flagged_writes : List Text → List Event → List (Text × Text)
flagged_writes flagged [] = []
flagged_writes flagged (ev ∷ events) =
    let rest = flagged_writes flagged events in
    elim (flagged_write flagged ev) [ none ↦ rest | some w ↦ w ∷ rest ]

abbrev same_write : Text × Text → Text × Text → Bool
same_write w v = w.0 == v.0 && w.1 == v.1

-- Some write occurs again later, with the same path and the same hash.
unfoldable pub has_repeat : List (Text × Text) → Bool
has_repeat [] = false
has_repeat (w ∷ ws) = any (same_write w) ws || has_repeat ws

-- Some write of the list was already seen.
abbrev any_seen : Dict Text (List Text) → List (Text × Text) → Bool
any_seen seen [] = false
any_seen seen ((path, h) ∷ ws) = contains (hashes_of path seen) h || any_seen seen ws

any_seen-insert :
    (path h : Text) (seen : Dict Text (List Text)) (ws : List (Text × Text))
    → any_seen (Dict.insert path (h ∷ hashes_of path seen) seen) ws
      ≡ (any (same_write (path, h)) ws || any_seen seen ws)
any_seen-insert path h seen [] = refl
any_seen-insert path h seen ((p, g) ∷ ws) = ground (
  arith,
  any_seen-insert path h seen ws,
  Dict.lookup-insert p path (h ∷ hashes_of path seen) seen,
)

redo_from_lem :
    (flagged : List Text) (events : List Event) (seen : Dict Text (List Text))
    → redo_from flagged seen events ≡ (
        any_seen seen (flagged_writes flagged events) || has_repeat (flagged_writes flagged events))
unfolding redo_from flagged_writes has_repeat
redo_from_lem flagged [] seen = refl
redo_from_lem flagged (ev ∷ events) seen = elim (Option-cases (flagged_write flagged ev)) [
  | inl skipped ↦ rw (skipped, redo_from, flagged_writes) (redo_from_lem flagged events seen)
  | inr ((path, h), found) ↦
      let seen' = Dict.insert path (h ∷ hashes_of path seen) seen in
      let ws = flagged_writes flagged events in
      rw (found, redo_from, flagged_writes)
        (ground (arith, redo_from_lem flagged events seen', any_seen-insert path h seen ws))
]

any_seen-nil : (ws : List (Text × Text)) → any_seen [] ws ≡ false
unfolding Dict.lookup
any_seen-nil [] = refl
any_seen-nil (w ∷ ws) = any_seen-nil ws

-- An identical redo is found exactly when, among the successful writes of flagged paths that carry
-- a hash, one occurs again later with the same path and the same hash.
pub has_identical_redo_lem :
    (events : List Event) (flagged : List Text)
    → has_identical_redo events flagged ≡ has_repeat (flagged_writes flagged events)
unfolding has_identical_redo
has_identical_redo_lem events flagged =
    ground (arith, redo_from_lem flagged events [], any_seen-nil (flagged_writes flagged events))
