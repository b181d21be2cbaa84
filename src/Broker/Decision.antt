-- ===== src/Broker/Decision.antt =====
-- `call_integration` of flowers/broker.py up to the first use of the backend: what it decides.
use flowers_oss.Base.{
  ℕ, Bool, true, false, not, ◌&&◌, ◌||◌, Option, none, some, List, [], ◌∷◌, ◌++◌, Eq, ◌==◌,
  contains, list_eq, nat_eq, if◌then◌else◌,
}
use flowers_oss.Base.Text.{Text, str, ltb}
use flowers_oss.Base.Value.{Value, Fields}
use flowers_oss.Policy.{
  Tier, ask, never, classify, is_refused, is_side_effecting, action_label, tier_eq,
}
use flowers_oss.Readback.{Item}
use flowers_oss.Mandate.Scope.{is_recipient_bearing}
use flowers_oss.Mandate.Counts.{Mandate, covers, learned_covers, lists_action, undo_seconds}
use flowers_oss.Broker.Backend.{Integrations, Config, Session}

-- One call: the action, its parameters, whether the caller authorizes it, the owner's grants, and
-- the id that `new_id` gives to the record that the call makes.
pub record Call : Type 0 where
  pub toolkit : Text
  pub action : Text
  pub params : Fields
  pub authorized : Bool
  pub grants : List Text
  pub id : Text

-- What the call comes to before it reaches the backend. `proceed` says whether the mandate, and
-- whether learned trust, covers the action.
pub data Decision : Type 0 where
  refuse_it replay preview ask_owner : Decision
  queue_undo : ℕ → Decision
  proceed : Bool → Bool → Decision

abbrev pub undo_of : Option Mandate → ℕ
undo_of none = 0
undo_of (some m) = undo_seconds m.undo_seconds

abbrev pub must_approve : Tier → Bool
must_approve ask = true
must_approve never = true
must_approve _ = false

abbrev pub call_label : Call → Text
call_label c = action_label c.toolkit c.action

-- The parameters: `str` of a list or a dict, the digest of the parameters, Python's equality of
-- items, the backend, and the broker's configuration.
module _ {W : Type 0} (repr : Value → Text) (params_digest : Fields → Text) ⦃items : Eq Item⦄
    (backend : Integrations W) (cfg : Config) where
  -- `grant_key_for`
  unfoldable pub grant_key_for : Call → Text
  grant_key_for c = call_label c ++ (b'|' ∷ params_digest c.params)

  unfoldable pub tier_of : Call → Tier
  tier_of c = classify c.toolkit c.action cfg.overrides

  -- Whether the effect is to be verified: by the natural tier, which no override reaches.
  unfoldable pub is_verified_kind : Call → Bool
  is_verified_kind c = is_side_effecting c.toolkit c.action []

  unfoldable pub is_authed : Call → Bool
  is_authed c = c.authorized || contains c.grants (grant_key_for c)

  unfoldable pub is_mandate_covered : Call → Session W → Bool
  is_mandate_covered c s =
      is_verified_kind c
      && covers repr params_digest cfg.mandate c.toolkit c.action c.params (tier_of c) s.counts

  unfoldable pub is_learned_covered : Call → Session W → Bool
  is_learned_covered c s =
      is_verified_kind c
      && not (is_mandate_covered c s)
      && not (lists_action cfg.mandate c.toolkit c.action)
      && learned_covers repr params_digest cfg.trust c.toolkit c.action c.params (tier_of c)
          cfg.trust_threshold

  -- The branches of the call up to the first use of the backend, in their order.
  unfoldable pub decide : Call → Session W → Decision
  decide c s =
      let covered = is_mandate_covered c s in
      let learned = is_learned_covered c s in
      let undo = undo_of cfg.mandate in
      if is_refused c.toolkit c.action
      then refuse_it
      else if is_verified_kind c && contains s.forwarded_gks (grant_key_for c)
      then replay
      else if covered
          && cfg.mandate_auto
          && not (is_authed c)
          && not (cfg.send_preview == str "never")
          && is_recipient_bearing c.toolkit c.action
      then preview
      else if covered && ltb 0 undo && not (is_authed c)
      then queue_undo undo
      else if must_approve (tier_of c) && not (is_authed c || covered || learned)
      then ask_owner
      else proceed covered learned
