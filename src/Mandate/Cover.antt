-- ===== src/Mandate/Cover.antt =====
-- What the answers of `covers` and `learned_covers` of flowers/mandate.py entail, condition by condition.
use flowers_oss.Base.{
  ℕ, suc, ◌+◌, ◌≤◌, ◌≡◌, refl, true, false, ◌&&◌, some, none, List, [], ◌∷◌, contains, list_eq,
  nat_eq, all, any, All, map, is_empty, arith, if◌then◌else◌,
}
use flowers_oss.Base.Text.{Text, ltb, leb}
use flowers_oss.Base.Dict.{Dict}
use flowers_oss.Base.Value.{Value, Fields}
use flowers_oss.Policy.{Tier, ask, tier_eq, is_refused, action_label}
use flowers_oss.Mandate.Scope.{norm_label, on_allowlist, extract_recipients, has_recipient_intent}
use flowers_oss.Mandate.Counts.{
  Mandate, Counts, caps, count_at, occurrences, domains, exceeds, lists_action, covers,
  covers_mandate, learned_covers,
}

-- With these keys, each counter stays within the limit.
abbrev pub AreWithin : ℕ → List Text → Dict Text ℕ → List Text → Type 0
AreWithin limit all_keys d keys = All (λ k. count_at k d + occurrences k all_keys ≤ limit) keys

exceeds-AreWithin :
    (limit : ℕ) (all_keys : List Text) (d : Dict Text ℕ) (keys : List Text)
    → any (λ k. ltb limit (count_at k d + occurrences k all_keys)) keys ≡ false
    → AreWithin limit all_keys d keys
exceeds-AreWithin limit all_keys d [] h = tt
exceeds-AreWithin limit all_keys d (k ∷ keys) h =
    (ground arith, exceeds-AreWithin limit all_keys d keys (ground arith))

at_least :
    (threshold n : ℕ)
    → leb (if leb threshold 1 then 1 else threshold) n ≡ true
    → (1 ≤ n) × (threshold ≤ n)
at_least threshold n h = ground arith

module _ (repr : Value → Text) (params_digest : Fields → Text) where
  -- The action is reversible and not refused; the mandate lists it and admits all its recipients, and
  -- there is one if the action is meant for some; it was not sent before; and no cap is passed.
  pub record IsCovered (m : Mandate) (toolkit action : Text) (params : Fields) (tier : Tier)
      (c : Counts) : Type 0 where
    pub reversible : tier ≡ ask
    pub admissible : is_refused toolkit action ≡ false
    pub is_listed :
        contains (map norm_label m.action_types) (norm_label (action_label toolkit action)) ≡ true
    pub on_list :
        all (λ r. on_allowlist r m.recipient_scope) (extract_recipients repr toolkit params) ≡ true
    pub addressed :
        (has_recipient_intent repr toolkit action params
          && is_empty (extract_recipients repr toolkit params))
        ≡ false
    pub is_new : contains c.sent_digests (params_digest params) ≡ false
    pub sends : suc c.sends_total ≤ (caps m.magnitude_caps).max_sends
    pub by_recipient :
        AreWithin
          (caps m.magnitude_caps).per_recipient
          (extract_recipients repr toolkit params)
          c.by_recipient
          (extract_recipients repr toolkit params)
    pub by_domain :
        AreWithin
          (caps m.magnitude_caps).per_domain
          (domains (extract_recipients repr toolkit params))
          c.by_domain
          (domains (extract_recipients repr toolkit params))

  -- The action is reversible and not refused, it has no recipient, and the owner has approved it at
  -- least once and as often as the threshold says.
  pub record IsTrusted (trust : Dict Text ℕ) (toolkit action : Text) (params : Fields) (tier : Tier)
      (threshold : ℕ) : Type 0 where
    pub reversible : tier ≡ ask
    pub admissible : is_refused toolkit action ≡ false
    pub unaddressed : has_recipient_intent repr toolkit action params ≡ false
    pub no_recipient : extract_recipients repr toolkit params ≡ []
    pub approved : 1 ≤ count_at (norm_label (action_label toolkit action)) trust
    pub often : threshold ≤ count_at (norm_label (action_label toolkit action)) trust

  covers_facts :
      (m : Mandate) (toolkit action : Text) (params : Fields) (tier : Tier) (c : Counts)
      → covers repr params_digest (some m) toolkit action params tier c ≡ true
      → let rs = extract_recipients repr toolkit params in
        let limits = caps m.magnitude_caps in
        (tier ≡ ask)
        × (is_refused toolkit action ≡ false)
        × (contains (map norm_label m.action_types) (norm_label (action_label toolkit action))
            ≡ true)
        × (all (λ r. on_allowlist r m.recipient_scope) rs ≡ true)
        × ((has_recipient_intent repr toolkit action params && is_empty rs) ≡ false)
        × (contains c.sent_digests (params_digest params) ≡ false)
        × (suc c.sends_total ≤ limits.max_sends)
        × (exceeds limits.per_recipient rs c.by_recipient ≡ false)
        × (exceeds limits.per_domain (domains rs) c.by_domain ≡ false)
  unfolding covers covers_mandate lists_action
  covers_facts m toolkit action params tier c h = ground arith

  pub covers-IsCovered :
      (m : Mandate) (toolkit action : Text) (params : Fields) (tier : Tier) (c : Counts)
      → covers repr params_digest (some m) toolkit action params tier c ≡ true
      → IsCovered m toolkit action params tier c
  unfolding exceeds
  covers-IsCovered m toolkit action params tier c h =
      let (t, r, l, a, i, n, s, by_r, by_d) = covers_facts m toolkit action params tier c h in
      record {
        reversible = t;
        admissible = r;
        is_listed = l;
        on_list = a;
        addressed = i;
        is_new = n;
        sends = s;
        by_recipient = exceeds-AreWithin _ _ _ _ by_r;
        by_domain = exceeds-AreWithin _ _ _ _ by_d;
      }

  pub covers-none :
      (toolkit action : Text) (params : Fields) (tier : Tier) (c : Counts)
      → covers repr params_digest none toolkit action params tier c ≡ false
  unfolding covers
  covers-none toolkit action params tier c = refl

  learned_facts :
      (trust : Dict Text ℕ) (toolkit action : Text) (params : Fields) (tier : Tier) (threshold : ℕ)
      → learned_covers repr params_digest trust toolkit action params tier threshold ≡ true
      → (tier ≡ ask)
        × (is_refused toolkit action ≡ false)
        × (has_recipient_intent repr toolkit action params ≡ false)
        × (leb
              (if leb threshold 1 then 1 else threshold)
              (count_at (norm_label (action_label toolkit action)) trust)
            ≡ true)
  unfolding learned_covers
  learned_facts trust toolkit action params tier threshold h = ground arith

  no_intent :
      (toolkit action : Text) (params : Fields)
      → has_recipient_intent repr toolkit action params ≡ false
      → extract_recipients repr toolkit params ≡ []
  unfolding has_recipient_intent
  no_intent toolkit action params h = ground arith

  pub learned_covers-IsTrusted :
      (trust : Dict Text ℕ) (toolkit action : Text) (params : Fields) (tier : Tier) (threshold : ℕ)
      → learned_covers repr params_digest trust toolkit action params tier threshold ≡ true
      → IsTrusted trust toolkit action params tier threshold
  learned_covers-IsTrusted trust toolkit action params tier threshold h =
      let (t, r, i, enough) = learned_facts trust toolkit action params tier threshold h in
      let counted =
        at_least threshold (count_at (norm_label (action_label toolkit action)) trust) enough in
      record {
        reversible = t;
        admissible = r;
        unaddressed = i;
        no_recipient = no_intent toolkit action params i;
        approved = counted.0;
        often = counted.1;
      }
