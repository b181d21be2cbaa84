-- ===== src/Broker/Safety.antt =====
-- The authorization of what `call_integration` of flowers/broker.py does.
use flowers_oss.Base.{
  ◌≡◌, refl, ◌≢◌, inl, inr, Bool, true, false, not, ◌&&◌, ◌||◌, some, Eq, contains, list_eq, nat_eq,
  arith, Bool-cases, Option-cases,
}
use flowers_oss.Base.Text.{Text}
use flowers_oss.Base.Value.{Value, Fields}
use flowers_oss.Policy.{ask, never, is_refused, tier_eq}
use flowers_oss.Readback.{Item}
use flowers_oss.Mandate.Counts.{Mandate, lists_action}
use flowers_oss.Mandate.Cover.{
  IsCovered, IsTrusted, covers-IsCovered, covers-none, learned_covers-IsTrusted,
}
use flowers_oss.Broker.Backend.{Integrations, Config, Session}
use flowers_oss.Broker.Decision.{
  Call, Decision, refuse_it, replay, preview, ask_owner, queue_undo, proceed, must_approve,
  grant_key_for, tier_of, is_verified_kind, is_authed, is_mandate_covered, is_learned_covered,
  decide,
}
use flowers_oss.Broker.Integration.{act_on, call_integration}

abbrev pub is_proceed : Decision → Bool
is_proceed (proceed _ _) = true
is_proceed _ = false

module _ {W : Type 0} (repr : Value → Text) (params_digest : Fields → Text) ⦃items : Eq Item⦄
    (backend : Integrations W) (cfg : Config) where
  -- The grounds on which an action that needs approval may run: the caller or one of the owner's
  -- grants authorizes it, the mandate covers it, or learned trust covers it and no mandate lists it.
  pub data Grounds (c : Call) (s : Session W) : Type 0 where
    authorized : c.authorized ≡ true → Grounds c s
    granted :
        contains c.grants (grant_key_for repr params_digest backend cfg c) ≡ true → Grounds c s
    mandate :
        (m : Mandate)
        → cfg.mandate ≡ some m
        → IsCovered repr params_digest m c.toolkit c.action c.params
            (tier_of repr params_digest backend cfg c)
            s.counts
        → Grounds c s
    trust :
        lists_action cfg.mandate c.toolkit c.action ≡ false
        → IsTrusted repr params_digest cfg.trust c.toolkit c.action c.params
            (tier_of repr params_digest backend cfg c)
            cfg.trust_threshold
        → Grounds c s

  -- What must hold for a call to reach the backend.
  pub decide-proceed_elim :
      (c : Call) (s : Session W) (covered learned : Bool)
      → decide repr params_digest backend cfg c s ≡ proceed covered learned
      → (is_refused c.toolkit c.action ≡ false)
        × ((is_verified_kind repr params_digest backend cfg c
              && contains s.forwarded_gks (grant_key_for repr params_digest backend cfg c))
            ≡ false)
        × (covered ≡ is_mandate_covered repr params_digest backend cfg c s)
        × (learned ≡ is_learned_covered repr params_digest backend cfg c s)
        × ((not (must_approve (tier_of repr params_digest backend cfg c))
              || is_authed repr params_digest backend cfg c
              || covered
              || learned)
            ≡ true)
  unfolding decide
  decide-proceed_elim c s covered learned h = ground arith

  owner_Grounds :
      (c : Call) (s : Session W) → is_authed repr params_digest backend cfg c ≡ true → Grounds c s
  unfolding is_authed
  owner_Grounds c s h = elim (Bool-cases c.authorized) [
    | inl given ↦ authorized given
    | inr other ↦ granted (ground arith)
  ]

  mandate_Grounds :
      (c : Call) (s : Session W)
      → is_mandate_covered repr params_digest backend cfg c s ≡ true
      → Grounds c s
  unfolding is_mandate_covered
  mandate_Grounds c s h = elim (Option-cases cfg.mandate) [
    | inl absent ↦ absurd (
        ground (
          arith,
          covers-none repr params_digest c.toolkit c.action c.params
              (tier_of repr params_digest backend cfg c) s.counts,
        ))
    | inr (m, given) ↦ mandate m given (
        covers-IsCovered repr params_digest m c.toolkit c.action c.params
          (tier_of repr params_digest backend cfg c) s.counts (ground arith))
  ]

  trust_Grounds :
      (c : Call) (s : Session W)
      → is_learned_covered repr params_digest backend cfg c s ≡ true
      → Grounds c s
  unfolding is_learned_covered
  trust_Grounds c s h = trust (ground arith) (
      learned_covers-IsTrusted repr params_digest cfg.trust c.toolkit c.action c.params
        (tier_of repr params_digest backend cfg c) cfg.trust_threshold (ground arith))

  pub act_on_stays :
      (d : Decision) (c : Call) (s : Session W)
      → is_proceed d ≡ false
      → (act_on repr params_digest backend cfg d c s).1 ≡ s
  act_on_stays refuse_it c s h = refl
  act_on_stays replay c s h = refl
  act_on_stays preview c s h = refl
  act_on_stays ask_owner c s h = refl
  act_on_stays (queue_undo undo) c s h = refl
  act_on_stays (proceed covered learned) c s h = cc

  proceed-Grounds :
      (c : Call) (s : Session W) (covered learned : Bool)
      → must_approve (tier_of repr params_digest backend cfg c) ≡ true
      → decide repr params_digest backend cfg c s ≡ proceed covered learned
      → Grounds c s
  proceed-Grounds c s covered learned needs e =
      let f = decide-proceed_elim c s covered learned e in
      elim (Bool-cases covered) [
        | inl by_mandate ↦ mandate_Grounds c s (ground arith)
        | inr no_mandate ↦ elim (Bool-cases learned) [
          | inl by_trust ↦ trust_Grounds c s (ground arith)
          | inr no_trust ↦ owner_Grounds c s (ground arith)
        ]
      ]

  -- A call that changes anything, in the world or in the broker, of an action that needs approval,
  -- has grounds: the caller or one of the owner's grants authorizes it; or the mandate covers it, so it
  -- is reversible, not refused, listed, addressed to recipients on the allow-list only, not sent before
  -- and within every cap; or no mandate lists it and learned trust covers it, so it is reversible, not
  -- refused, without recipients, and approved by the owner as often as the threshold says.
  pub call_integration-Grounds :
      (c : Call) (s : Session W)
      → must_approve (tier_of repr params_digest backend cfg c) ≡ true
      → (call_integration repr params_digest backend cfg c s).1 ≢ s
      → Grounds c s
  unfolding call_integration
  call_integration-Grounds c s needs touched = go (decide repr params_digest backend cfg c s) refl
    where
      go : (d : Decision) → decide repr params_digest backend cfg c s ≡ d → Grounds c s
      go (proceed covered learned) e = proceed-Grounds c s covered learned needs e
      go refuse_it e = absurd (touched (act_on_stays _ c s (rw e refl)))
      go replay e = absurd (touched (act_on_stays _ c s (rw e refl)))
      go preview e = absurd (touched (act_on_stays _ c s (rw e refl)))
      go ask_owner e = absurd (touched (act_on_stays _ c s (rw e refl)))
      go (queue_undo undo) e = absurd (touched (act_on_stays _ c s (rw e refl)))

  -- What neither the caller nor a grant authorizes is reversible, if it has grounds.
  Grounds_reversible :
      (c : Call) (s : Session W)
      → is_authed repr params_digest backend cfg c ≡ false
      → Grounds c s
      → tier_of repr params_digest backend cfg c ≡ ask
  unfolding is_authed
  Grounds_reversible c s unauthorized (authorized a) = absurd (ground arith)
  Grounds_reversible c s unauthorized (granted g) = absurd (ground arith)
  Grounds_reversible c s unauthorized (mandate m given covered) = covered.reversible
  Grounds_reversible c s unauthorized (trust unlisted trusted) = trusted.reversible

  no_Grounds :
      (c : Call) (s : Session W)
      → tier_of repr params_digest backend cfg c ≡ never
      → is_authed repr params_digest backend cfg c ≡ false
      → Grounds c s
      → ⊥
  no_Grounds c s irreversible unauthorized g =
      let reversible = Grounds_reversible c s unauthorized g in cc

  -- An irreversible action that the owner has not authorized changes nothing, neither in the world
  -- nor in the broker, whatever the mandate and the learned trust say.
  pub call_integration_never :
      (c : Call) (s : Session W)
      → tier_of repr params_digest backend cfg c ≡ never
      → is_authed repr params_digest backend cfg c ≡ false
      → (call_integration repr params_digest backend cfg c s).1 ≡ s
  unfolding call_integration
  call_integration_never c s irreversible unauthorized =
      go (decide repr params_digest backend cfg c s) refl
    where
      go :
          (d : Decision)
          → decide repr params_digest backend cfg c s ≡ d
          → (call_integration repr params_digest backend cfg c s).1 ≡ s
      go (proceed covered learned) e = absurd (
          no_Grounds c s irreversible unauthorized
            (proceed-Grounds c s covered learned (rw irreversible refl) e))
      go refuse_it e = act_on_stays _ c s (rw e refl)
      go replay e = act_on_stays _ c s (rw e refl)
      go preview e = act_on_stays _ c s (rw e refl)
      go ask_owner e = act_on_stays _ c s (rw e refl)
      go (queue_undo undo) e = act_on_stays _ c s (rw e refl)
