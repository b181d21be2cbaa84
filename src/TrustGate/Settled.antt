-- ===== src/TrustGate/Settled.antt =====
-- What it takes for `classify_effects` to let a claimed completion pass.
use flowers_oss.Base.{
  ◌≡◌, refl, ◌↔◌, Bool, true, false, not, ◌&&◌, ◌||◌, List, [], ◌∷◌, ◌++◌, ◌==◌, contains, list_eq,
  nat_eq, is_empty, all, all-append, is_empty-append_one, arith, if◌then◌else◌,
}
use flowers_oss.Base.Text.{Text}
use flowers_oss.Base.Sorted.{sorted_set-eq-nil}
use flowers_oss.TrustGate.Record.{
  GateRecord, observed, text_or, is_true, is_false, is_self_sourced, requires_provenance,
  has_independent_provenance, claims_effect,
}
use flowers_oss.TrustGate.Effects.{
  Ruling, passed, landed, unverified, unverifiable, retryable, Phase, failed, attempted, phase_of,
  rule_on, rule_on_forwarded, Tally, note, tally, terminal_records, is_superseded, unforgiven,
  empty_tally, classify_effects, is_forwarded,
}

-- A claimed effect that was forwarded, whose own expected effect an independent read-back saw.
unfoldable pub is_verified : GateRecord → Bool
is_verified r =
    claims_effect r
    && is_forwarded (phase_of r.phase)
    && is_true (observed r.expected_present)
    && not (is_self_sourced r)
    && (not (requires_provenance r) || has_independent_provenance r)

-- The grant keys of the verified records: the identities of the actions that landed.
unfoldable pub verified_keys : List GateRecord → List Text
verified_keys [] = []
verified_keys (r ∷ rs) =
    let rest = verified_keys rs in if is_verified r then text_or r.grant_key [] ∷ rest else rest

abbrev is_failed : Phase → Bool
is_failed failed = true
is_failed _ = false

abbrev is_retryable : Phase → Bool
is_retryable failed = true
is_retryable attempted = true
is_retryable _ = false

-- A record that does not contradict a completion, given the identities that landed: it claims no
-- effect, or is verified, or is a failure that cannot have left an effect, or an attempt whose own
-- identity landed.
unfoldable pub is_settled : List Text → GateRecord → Bool
is_settled gks r =
    not (claims_effect r)
    || is_verified r
    || is_failed (phase_of r.phase) && is_false r.mutating
    || is_retryable (phase_of r.phase) && is_superseded gks (text_or r.grant_key [])

abbrev is_allowed : List Text → Ruling → Bool
is_allowed gks passed = true
is_allowed gks (landed _) = true
is_allowed gks (retryable _ gk) = is_superseded gks gk
is_allowed gks _ = false

rule_on-is_allowed :
    (gks : List Text) (r : GateRecord) → is_allowed gks (rule_on r) ≡ is_settled gks r
unfolding rule_on rule_on_forwarded is_settled is_verified
rule_on-is_allowed gks r = ground arith

-- The keys that the loop collects are those of the verified records.
module _ (gk : Text) (named : is_empty gk ≡ false) where
  contains-note-rule_on :
      (t : Tally) (r : GateRecord)
      → contains (note t (rule_on r)).landed_gks gk
        ≡ (is_verified r && gk == text_or r.grant_key [] || contains t.landed_gks gk)
  unfolding note rule_on rule_on_forwarded is_verified
  contains-note-rule_on t r = ground arith

  contains-tally :
      (rs : List GateRecord) (t : Tally)
      → contains (tally t rs).landed_gks gk
        ≡ (contains t.landed_gks gk || contains (verified_keys rs) gk)
  unfolding tally verified_keys
  contains-tally [] t = ground arith
  contains-tally (r ∷ rs) t =
      ground (arith, contains-tally rs (note t (rule_on r)), contains-note-rule_on t r)

module _ (gks : List Text) where
  abbrev is_clear : Tally → Bool
  is_clear t =
      is_empty t.unverified
      && is_empty t.unverifiable
      && all (λ (a : Text × Text). is_superseded gks a.1) t.retryable_attempts

  is_clear-note :
      (t : Tally) (ruling : Ruling)
      → is_clear (note t ruling) ≡ (is_clear t && is_allowed gks ruling)
  unfolding note
  is_clear-note t passed = ground arith
  is_clear-note t (landed gk) = ground arith
  is_clear-note t (unverified l) = ground (arith, is_empty-append_one t.unverified l)
  is_clear-note t (unverifiable l) = ground (arith, is_empty-append_one t.unverifiable l)
  is_clear-note t (retryable l gk) = ground (
    arith,
    all-append (λ (a : Text × Text). is_superseded gks a.1) t.retryable_attempts ((l, gk) ∷ []),
  )

  is_clear-tally :
      (rs : List GateRecord) (t : Tally)
      → is_clear (tally t rs) ≡ (is_clear t && all (is_settled gks) rs)
  unfolding tally
  is_clear-tally [] t = ground arith
  is_clear-tally (r ∷ rs) t = ground (
    arith,
    is_clear-tally rs (note t (rule_on r)),
    is_clear-note t (rule_on r),
    rule_on-is_allowed gks r,
  )

  unforgiven-eq-nil :
      (attempts : List (Text × Text))
      → (unforgiven gks attempts ≡ [])
        ↔ (all (λ (a : Text × Text). is_superseded gks a.1) attempts ≡ true)
  unfolding unforgiven
  unforgiven-eq-nil [] = ground arith
  unforgiven-eq-nil ((label, gk) ∷ attempts) = ground (arith, unforgiven-eq-nil attempts)

-- Only the named keys matter.
is_settled_congr :
    (gks gks' : List Text) (r : GateRecord)
    → ((gk : Text) → is_empty gk ≡ false → contains gks gk ≡ contains gks' gk)
    → is_settled gks r ≡ is_settled gks' r
unfolding is_settled
is_settled_congr gks gks' r h = ground (arith, h (text_or r.grant_key []))

all-is_settled_congr :
    (gks gks' : List Text) (rs : List GateRecord)
    → ((gk : Text) → is_empty gk ≡ false → contains gks gk ≡ contains gks' gk)
    → all (is_settled gks) rs ≡ all (is_settled gks') rs
all-is_settled_congr gks gks' [] h = refl
all-is_settled_congr gks gks' (r ∷ rs) h =
    ground (arith, all-is_settled_congr gks gks' rs h, is_settled_congr gks gks' r h)

-- A claimed completion passes with nothing unverified and nothing unverifiable exactly when every
-- terminal record is settled by the identities that verifiably landed.
pub classify_effects_iff :
    (actions : List GateRecord)
    → (classify_effects actions true ≡ ([], [])) ↔ (
        all (is_settled (verified_keys (terminal_records actions))) (terminal_records actions)
        ≡ true)
unfolding classify_effects
classify_effects_iff actions =
    let rs = terminal_records actions in
    let t = tally empty_tally rs in
    let gks = t.landed_gks in
    ground (
      arith,
      sorted_set-eq-nil (t.unverified ++ unforgiven gks t.retryable_attempts),
      sorted_set-eq-nil t.unverifiable,
      unforgiven-eq-nil gks t.retryable_attempts,
      is_clear-tally gks rs empty_tally,
      all-is_settled_congr gks (verified_keys rs) rs
          (λ gk named. contains-tally gk named rs empty_tally),
    )
