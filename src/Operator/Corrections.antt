-- ===== src/Operator/Corrections.antt =====
-- How the owner's word corrects the records of a send: `_pending_send_effects`, and the loops of
-- `_confirm_escalated` and `_resend_escalated` in flowers/engine/operator.py.
use flowers_oss.Base.{
  Bool, true, false, not, ◌&&◌, Option, none, some, List, [], ◌∷◌, ◌==◌, contains, list_eq, nat_eq,
  option_eq, is_empty, keep, if◌then◌else◌,
}
use flowers_oss.Base.Text.{Text, str}
use flowers_oss.TrustGate.Record.{is_true}
use flowers_oss.TrustGate.Effects
use flowers_oss.Types.Effect.{EffectRecord, StampedEffect}
use flowers_oss.Store.Tables.{Codec, Store}
use flowers_oss.Store.EffectLog.{get_effects, update_effect}
use flowers_oss.Store.Json.{◌>>=◌}

abbrev has_text : Option Text → Bool
has_text none = false
has_text (some s) = not (is_empty s)

abbrev is_unknown : Option Bool → Bool
is_unknown none = true
is_unknown (some _) = false

-- A send whose outcome is not known, and whose read-back did not break.
unfoldable pub is_unverifiable_send : EffectRecord → Bool
unfolding list_eq nat_eq
is_unverifiable_send e =
    is_true e.side_effecting
    && e.phase == str "forwarded"
    && is_unknown e.expected_present
    && has_text e.detail.grant_key
    && not (has_text e.detail.readback_error)

-- The records that an escalation is about, among the effects of the run.
unfoldable pub is_subject : List Text → EffectRecord → Bool
unfolding is_unverifiable_send list_eq nat_eq
is_subject keys e = if is_empty keys then is_unverifiable_send e else contains keys e.action_id

-- The owner attests that the effect landed.
unfoldable pub attested : EffectRecord → EffectRecord
attested e = record e { detail = record e.detail { verification = some (str "owner-confirmed") } }

-- The owner reports that it did not, or asks for another attempt.
unfoldable pub reported_missing : Bool → EffectRecord → EffectRecord
reported_missing denied e = record e {
  phase = str "failed";
  expected_present = some false;
  detail = record e.detail {
    correction =
        some (if denied then str "owner-reported-missing" else str "owner-requested-retry");
  };
}

abbrev on_effect : (EffectRecord → EffectRecord) → StampedEffect → StampedEffect
on_effect f s = record s { effect = f s.effect }

module _ {Json : Type 0} (c : Codec Json) where
  -- `_pending_send_effects`; none is a record that cannot be read.
  unfoldable pub pending_send_effects : Text → List Text → Store Json → Option (List StampedEffect)
  unfolding get_effects is_subject
  pending_send_effects run_id keys s =
      get_effects c run_id s >>= λ es. some (keep (λ e. is_subject keys e.effect) es)

  unfoldable pub update_all :
      Text → (EffectRecord → EffectRecord) → List StampedEffect → Store Json → Store Json
  unfolding update_effect
  update_all run_id f [] s = s
  update_all run_id f (e ∷ es) s =
      update_all run_id f es (update_effect c run_id (on_effect f e) s).0

  -- The loop of `_confirm_escalated`
  unfoldable pub confirm_effects : Text → List Text → Store Json → Option (Store Json)
  unfolding pending_send_effects update_all attested
  confirm_effects run_id keys s =
      pending_send_effects run_id keys s >>= λ es. some (update_all run_id attested es s)

  -- The loop of `_resend_escalated`
  unfoldable pub resend_effects : Text → List Text → Bool → Store Json → Option (Store Json)
  unfolding pending_send_effects update_all reported_missing
  resend_effects run_id keys denied s = pending_send_effects run_id keys s >>= λ es.
      some (update_all run_id (reported_missing denied) es s)
