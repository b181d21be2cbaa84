-- ===== src/TrustGate/Labels.antt =====
-- The labels that a run reports as verified and as landed, against the verdict on its records.
use flowers_oss.Base.{
  ◌≡◌, refl, sym, ap, Bool, true, false, not, ◌&&◌, ◌||◌, Option, none, some, List, [], ◌∷◌, ◌==◌,
  contains, list_eq, nat_eq, any, all, keep, map, arith, if◌then◌else◌,
}
use flowers_oss.Base.Text.{Text}
use flowers_oss.Base.Sorted.{sorted_set, contains-sorted_set}
use flowers_oss.Base.Dict
use flowers_oss.Base.Dict.{Dict}
use flowers_oss.TrustGate.Record.{GateRecord, record_key, record_label}
use flowers_oss.TrustGate.Effects.{
  terminal_onto, terminal_records, classify_effects, counts_as_forwarded, forwarded_labels,
  verified_effects, landed_effects,
}
use flowers_oss.TrustGate.Settled.{is_verified, is_settled, verified_keys, classify_effects_iff}

-- The last record of a log with a given key.
pub last_with : Text → List GateRecord → Option GateRecord
last_with k [] = none
last_with k (r ∷ rs) =
    let later = last_with k rs in
    elim later [ some s ↦ some s | none ↦ if k == record_key r then some r else none ]

abbrev pub later_or : Option GateRecord → Option GateRecord → Option GateRecord
later_or none o = o
later_or (some r) _ = some r

-- The table of terminal records holds under each key the last record with that key.
pub lookup-terminal_onto :
    (k : Text) (actions : List GateRecord) (terminal : Dict Text GateRecord)
    → Dict.lookup k (terminal_onto terminal actions)
      ≡ later_or (last_with k actions) (Dict.lookup k terminal)
unfolding terminal_onto last_with
lookup-terminal_onto k [] terminal = refl
lookup-terminal_onto k (r ∷ actions) terminal = ground (
  arith,
  lookup-terminal_onto k actions (Dict.insert (record_key r) r terminal),
  Dict.lookup-insert k (record_key r) r terminal,
)

contains-map-keep :
    (p : GateRecord → Bool) (rs : List GateRecord) (l : Text)
    → contains (map record_label (keep p rs)) l ≡ any (λ r. p r && l == record_label r) rs
contains-map-keep p [] l = refl
contains-map-keep p (r ∷ rs) l = ground (arith, contains-map-keep p rs l)

counts_as_forwarded_strict : (r : GateRecord) → counts_as_forwarded true r ≡ is_verified r
unfolding counts_as_forwarded is_verified
counts_as_forwarded_strict r = ground arith

any_congr :
    (p q : GateRecord → Bool) (rs : List GateRecord)
    → ((r : GateRecord) → p r ≡ q r)
    → any p rs ≡ any q rs
any_congr p q [] h = refl
any_congr p q (r ∷ rs) h = ground (arith, any_congr p q rs h, h r)

-- A label is reported as verified exactly when some terminal record with that label claims an
-- effect that was forwarded and that an independent read-back confirmed.
pub contains-verified_effects :
    (actions : List GateRecord) (l : Text)
    → contains (verified_effects actions) l
      ≡ any (λ r. is_verified r && l == record_label r) (terminal_records actions)
unfolding verified_effects forwarded_labels
contains-verified_effects actions l =
    let rs = terminal_records actions in
    ground (
      arith,
      contains-sorted_set (map record_label (keep (counts_as_forwarded true) rs)) l,
      contains-map-keep (counts_as_forwarded true) rs l,
      any_congr (λ r. counts_as_forwarded true r && l == record_label r)
          (λ r. is_verified r && l == record_label r) rs
          (λ r. ap (λ b. b && l == record_label r) (counts_as_forwarded_strict r)),
    )

keep_congr :
    (p q : GateRecord → Bool) (rs : List GateRecord)
    → ((r : GateRecord) → p r ≡ true → q r ≡ true)
    → all (λ r. not (q r) || p r) rs ≡ true
    → keep p rs ≡ keep q rs
keep_congr p q [] h a = refl
keep_congr p q (r ∷ rs) h a = ground (arith, keep_congr p q rs h, h r)

counts_strict_relaxed :
    (r : GateRecord) → counts_as_forwarded true r ≡ true → counts_as_forwarded false r ≡ true
unfolding counts_as_forwarded
counts_strict_relaxed r h = ground arith

settled-counts :
    (gks : List Text) (r : GateRecord)
    → is_settled gks r ≡ true
    → (not (counts_as_forwarded false r) || counts_as_forwarded true r) ≡ true
unfolding is_settled is_verified counts_as_forwarded
settled-counts gks r h = ground arith

all-settled-counts :
    (gks : List Text) (rs : List GateRecord)
    → all (is_settled gks) rs ≡ true
    → all (λ r. not (counts_as_forwarded false r) || counts_as_forwarded true r) rs ≡ true
all-settled-counts gks [] h = refl
all-settled-counts gks (r ∷ rs) h = ground (arith, all-settled-counts gks rs, settled-counts gks r)

-- Where a claimed completion passes, every effect that counts as landed is a verified one: the
-- relaxed report and the strict report agree.
pub landed_effects-eq-verified_effects :
    (actions : List GateRecord)
    → classify_effects actions true ≡ ([], [])
    → landed_effects actions ≡ verified_effects actions
unfolding landed_effects verified_effects forwarded_labels
landed_effects-eq-verified_effects actions h =
    let rs = terminal_records actions in
    ap (λ kept. sorted_set (map record_label kept))
      (sym (
        keep_congr (counts_as_forwarded true) (counts_as_forwarded false) rs counts_strict_relaxed
          (all-settled-counts (verified_keys rs) rs ((classify_effects_iff actions).0 h))))

labelled_mono :
    (l : Text) (r : GateRecord)
    → (counts_as_forwarded true r && l == record_label r) ≡ true
    → (counts_as_forwarded false r && l == record_label r) ≡ true
labelled_mono l r h = ground (arith, counts_strict_relaxed r)

any_mono :
    (p q : GateRecord → Bool) (rs : List GateRecord)
    → ((r : GateRecord) → p r ≡ true → q r ≡ true)
    → any p rs ≡ true
    → any q rs ≡ true
any_mono p q [] h a = a
any_mono p q (r ∷ rs) h a = ground (arith, any_mono p q rs h, h r)

-- Every verified label also counts as landed.
pub verified_effects-subset-landed_effects :
    (actions : List GateRecord) (l : Text)
    → contains (verified_effects actions) l ≡ true
    → contains (landed_effects actions) l ≡ true
unfolding landed_effects verified_effects forwarded_labels
verified_effects-subset-landed_effects actions l h =
    let rs = terminal_records actions in
    ground (
      arith,
      contains-sorted_set (map record_label (keep (counts_as_forwarded true) rs)) l,
      contains-map-keep (counts_as_forwarded true) rs l,
      contains-sorted_set (map record_label (keep (counts_as_forwarded false) rs)) l,
      contains-map-keep (counts_as_forwarded false) rs l,
      any_mono (λ r. counts_as_forwarded true r && l == record_label r)
          (λ r. counts_as_forwarded false r && l == record_label r) rs (labelled_mono l),
    )
