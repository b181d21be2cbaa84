-- ===== src/Broker/Resume.antt =====
-- The resumption of actions that flowers/broker.py parked.
use flowers_oss.Base.{◌≢◌, Bool, true, false, Option, Eq, list_eq, nat_eq}
use flowers_oss.Base.Text.{Text}
use flowers_oss.Base.Value.{Value, Fields}
use flowers_oss.Readback.{Item}
use flowers_oss.Broker.Results.{needs_approval, BrokerResult}
use flowers_oss.Broker.Backend.{Integrations, Config}
use flowers_oss.Broker.Decision.{Decision, preview, ask_owner, queue_undo}

module _ {W : Type 0} (repr : Value → Text) (params_digest : Fields → Text) ⦃items : Eq Item⦄
    (backend : Integrations W) (cfg : Config) where
  abbrev IsAnswered : BrokerResult → Type 0
  IsAnswered r = r.status ≢ needs_approval

  -- The decisions that park the action.
  abbrev is_parking : Decision → Bool
  is_parking preview = true
  is_parking (queue_undo _) = true
  is_parking ask_owner = true
  is_parking _ = false
