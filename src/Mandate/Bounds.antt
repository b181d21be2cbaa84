-- ===== src/Mandate/Bounds.antt =====
-- The caps of flowers/mandate.py over sequences of requests.
use flowers_oss.Base.{
  ℕ, suc, ◌+◌, ◌≤◌, ◌≡◌, refl, Bool, true, false, Option, none, some, List, [], ◌∷◌, ◌==◌, contains,
  list_eq, nat_eq, any, contains-append, arith, if◌then◌else◌, Bool-cases, inl, inr,
}
use flowers_oss.Base.Text.{Text, str, ltb}
use flowers_oss.Base.Dict
use flowers_oss.Base.Dict.{Dict}
use flowers_oss.Base.Value
use flowers_oss.Base.Value.{Value, Fields, ℤ}
use flowers_oss.Policy.{Tier}
use flowers_oss.Mandate.Scope.{extract_recipients}
use flowers_oss.Mandate.Counts.{
  Mandate, Counts, new_counts, Caps, caps, cap, clamp_cap, py_int, count_at, count_all, occurrences,
  domains, bump, exceeds, covers, covers_mandate,
}

pub count_at-insert :
    (j k : Text) (n : ℕ) (d : Dict Text ℕ)
    → count_at j (Dict.insert k n d) ≡ (if j == k then n else count_at j d)
unfolding count_at
count_at-insert j k n d = ground (arith, Dict.lookup-insert j k n d)

count_at-count_all :
    (k : Text) (ks : List Text) (d : Dict Text ℕ)
    → count_at k (count_all ks d) ≡ count_at k d + occurrences k ks
unfolding count_all occurrences
count_at-count_all k [] d = omega arith
count_at-count_all k (j ∷ ks) d = ground (
  arith,
  count_at-count_all k ks (Dict.insert j (count_at j d + 1) d),
  count_at-insert k j (count_at j d + 1) d,
)

occurrences_of_absent : (k : Text) (xs : List Text) → contains xs k ≡ false → occurrences k xs ≡ 0
unfolding occurrences
occurrences_of_absent k [] h = refl
occurrences_of_absent k (x ∷ xs) h = ground (arith, occurrences_of_absent k xs)

clamp_cap_bounds :
    (dflt hard : ℕ) (n : Option ℤ)
    → 1 ≤ dflt
    → dflt ≤ hard
    → (1 ≤ clamp_cap dflt hard n) × (clamp_cap dflt hard n ≤ hard)
clamp_cap_bounds dflt hard none p q = ground arith
clamp_cap_bounds dflt hard (some (ℤ.negsuc _)) p q = ground arith
clamp_cap_bounds dflt hard (some (ℤ.pos n)) p q = ground arith

cap_bounds :
    (key : Text) (dflt hard : ℕ) (raw : Fields)
    → 1 ≤ dflt
    → dflt ≤ hard
    → (1 ≤ cap key dflt hard raw) × (cap key dflt hard raw ≤ hard)
unfolding cap
cap_bounds key dflt hard raw p q = clamp_cap_bounds dflt hard (py_int (Value.get key raw)) p q

-- The caps of any mandate, whatever it asks for, are at least one and never above the hard limits.
pub caps_bounds :
    (raw : Fields)
    → (1 ≤ (caps raw).max_sends)
      × ((caps raw).max_sends ≤ 200)
      × (1 ≤ (caps raw).per_domain)
      × ((caps raw).per_domain ≤ 100)
      × (1 ≤ (caps raw).per_recipient)
      × ((caps raw).per_recipient ≤ 20)
unfolding caps
caps_bounds raw = ground (
  arith,
  cap_bounds (str "max_sends") 20 200 raw,
  cap_bounds (str "per_domain") 10 100 raw,
  cap_bounds (str "per_recipient") 2 20 raw,
)

any-false_elim :
    (p : Text → Bool) (xs : List Text) (k : Text)
    → any p xs ≡ false
    → contains xs k ≡ true
    → p k ≡ false
any-false_elim p [] k h m = cc
any-false_elim p (x ∷ xs) k h m = ground (arith, any-false_elim p xs k)

count_all-le :
    (limit : ℕ) (ks : List Text) (d : Dict Text ℕ) (k : Text)
    → exceeds limit ks d ≡ false
    → count_at k d ≤ limit
    → count_at k (count_all ks d) ≤ limit
unfolding exceeds
count_all-le limit ks d k h old = elim (Bool-cases (contains ks k)) [
  | inl listed ↦ ground (
    arith,
    count_at-count_all k ks d,
    any-false_elim (λ j. ltb limit (count_at j d + occurrences j ks)) ks k h listed,
  )
  | inr absent ↦ ground (arith, count_at-count_all k ks d, occurrences_of_absent k ks absent)
]

-- The counts are within the caps: in all, for each recipient, and for each domain.
pub record IsWithin (limits : Caps) (c : Counts) : Type 0 where
  pub total : c.sends_total ≤ limits.max_sends
  pub recipients : (k : Text) → count_at k c.by_recipient ≤ limits.per_recipient
  pub domain_sends : (k : Text) → count_at k c.by_domain ≤ limits.per_domain

-- A request for an action.
pub record Request : Type 0 where
  pub toolkit : Text
  pub action : Text
  pub params : Fields
  pub tier : Tier

module _ (repr : Value → Text) (params_digest : Fields → Text) where
  -- A covered action that is then counted keeps every count within its cap.
  pub bump-IsWithin :
      (m : Mandate) (toolkit action : Text) (params : Fields) (tier : Tier) (c : Counts)
      → IsWithin (caps m.magnitude_caps) c
      → covers repr params_digest (some m) toolkit action params tier c ≡ true
      → IsWithin (caps m.magnitude_caps) (bump repr params_digest c toolkit params)
  unfolding covers covers_mandate bump
  bump-IsWithin m toolkit action params tier c w h =
      let limits = caps m.magnitude_caps in
      let recips = extract_recipients repr toolkit params in
      record {
        total = ground arith;
        recipients = λ k.
            count_all-le limits.per_recipient recips c.by_recipient k (ground arith)
              (w.recipients k);
        domain_sends = λ k.
            count_all-le limits.per_domain (domains recips) c.by_domain k (ground arith)
              (w.domain_sends k);
      }

  -- An action that was covered and counted is not covered again: a repeat asks the owner.
  pub covers-bump_self :
      (m : Mandate) (toolkit action : Text) (params : Fields) (tier : Tier) (c : Counts)
      → covers repr params_digest
          (some m)
          toolkit
          action
          params
          tier
          (bump repr params_digest c toolkit params)
        ≡ false
  unfolding covers covers_mandate bump
  covers-bump_self m toolkit action params tier c =
      ground
        (arith, contains-append c.sent_digests (params_digest params ∷ []) (params_digest params))

  -- How many of the requests a mandate lets through, each being counted, and the counts after them.
  unfoldable pub grant_all : Mandate → List Request → Counts → ℕ × Counts
  grant_all m [] c = (0, c)
  grant_all m (r ∷ rs) c =
      let covered = covers repr params_digest (some m) r.toolkit r.action r.params r.tier c in
      let next = if covered then bump repr params_digest c r.toolkit r.params else c in
      let (n, end) = grant_all m rs next in (if covered then suc n else n, end)

  grant_all-IsWithin :
      (m : Mandate) (rs : List Request) (c : Counts)
      → IsWithin (caps m.magnitude_caps) c
      → IsWithin (caps m.magnitude_caps) (grant_all m rs c).1
  unfolding grant_all
  grant_all-IsWithin m [] c w = w
  grant_all-IsWithin m (r ∷ rs) c w =
      elim (Bool-cases (covers repr params_digest (some m) r.toolkit r.action r.params r.tier c)) [
        | inl covered ↦ rw covered (
            grant_all-IsWithin m rs _
              (bump-IsWithin m r.toolkit r.action r.params r.tier c w covered))
        | inr parked ↦ rw parked (grant_all-IsWithin m rs c w)
      ]

  grant_all_total :
      (m : Mandate) (rs : List Request) (c : Counts)
      → (grant_all m rs c).1.sends_total ≡ c.sends_total + (grant_all m rs c).0
  unfolding grant_all bump
  grant_all_total m [] c = omega arith
  grant_all_total m (r ∷ rs) c =
      elim (Bool-cases (covers repr params_digest (some m) r.toolkit r.action r.params r.tier c)) [
        | inl covered ↦
            rw covered
              (omega (arith, grant_all_total m rs (bump repr params_digest c r.toolkit r.params)))
        | inr parked ↦ rw parked (omega (arith, grant_all_total m rs c))
      ]

  pub new_counts-IsWithin : (limits : Caps) → IsWithin limits new_counts
  unfolding count_at Dict.lookup
  new_counts-IsWithin limits = record {
    total = omega arith;
    recipients = λ k. omega arith;
    domain_sends = λ k. omega arith;
  }

  pub grant_all_bounded :
      (m : Mandate) (rs : List Request)
      → let (n, c) = grant_all m rs new_counts in
        (n ≤ (caps m.magnitude_caps).max_sends)
        × ((k : Text) → count_at k c.by_recipient ≤ (caps m.magnitude_caps).per_recipient)
        × ((k : Text) → count_at k c.by_domain ≤ (caps m.magnitude_caps).per_domain)
  grant_all_bounded m rs =
      let w : IsWithin (caps m.magnitude_caps) (grant_all m rs new_counts).1 =
        grant_all-IsWithin m rs new_counts (new_counts-IsWithin (caps m.magnitude_caps)) in
      (omega (arith, w.total, grant_all_total m rs new_counts), w.recipients, w.domain_sends)
