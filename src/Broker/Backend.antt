-- ===== src/Broker/Backend.antt =====
-- What the broker reaches: the integrations backend over an unknown world, the broker's own state,
-- and the read-back loop of flowers/broker.py.
use flowers_oss.Base.{
  ℕ, zero, suc, Bool, true, false, ◌&&◌, ◌||◌, Option, none, some, List, Eq, if◌then◌else◌,
}
use flowers_oss.Base.Text.{Text}
use flowers_oss.Base.Dict.{Dict}
use flowers_oss.Base.Value.{Value, Fields}
use flowers_oss.Policy.{Overrides}
use flowers_oss.Readback.{Item, snapshot_diff, has_effect, has_expected_effect}
use flowers_oss.TrustGate.Record.{is_true}
use flowers_oss.Mandate.Counts.{Mandate, Counts}
use flowers_oss.Broker.Spend.{nonretryable_readback}

abbrev pub Snapshot : Type 0
Snapshot = Dict Text Item

-- A call that returns, or raises with a text.
pub data Outcome {ℓ} (A : Type ℓ) : Type ℓ where
  returned : A → Outcome A
  raised : Text → Outcome A

pub record Execution : Type 0 where
  pub ok : Bool
  pub result : Value
  pub error : Option Text

-- The `Integrations` seam for the one local user: each call may look at and change the world. A
-- read-back gives a surface, or none, and an error. A backend may lack `authorize`, and
-- `created_key` gives nothing for an action that is not bound to an id.
pub record Integrations (W : Type 0) : Type 0 where
  pub execute : Text → Text → Fields → W → Outcome Execution × W
  pub snapshot_probe : Text → Text → Fields → W → Outcome (Option Snapshot × Option Text) × W
  pub fingerprint : Text → Text → Fields → Option Item
  pub created_key : Text → Text → Value → Option Text
  pub authorize : Option (Text → W → (Text × Text) × W)

-- The fields of a broker that no call changes.
pub record Config : Type 0 where
  pub overrides : Overrides
  pub mandate : Option Mandate
  pub mandate_auto : Bool
  pub send_preview : Text
  pub trust : Dict Text ℕ
  pub trust_threshold : ℕ
  pub actor : Text
  pub run_id : Text
  pub verify_attempts : ℕ

-- The fields that calls change, and the world.
pub record Session (W : Type 0) : Type 0 where
  pub counts : Counts
  pub forwarded_gks : List Text
  pub verified_gks : List Text
  pub world : W

-- What a read-back shows: whether anything changed, whether the expected effect is there, and the
-- error of a read-back tool that is broken.
pub record Observation : Type 0 where
  pub drift : Option Bool
  pub expected : Option Bool
  pub broken : Option Text

abbrev pub nothing_seen : Observation
nothing_seen = record { drift = none; expected = none; broken = none }

abbrev broken_by : Option Text → Observation
broken_by err = record { drift = none; expected = none; broken = err }

-- An error is there and cannot be cured by a retry.
abbrev is_broken : Option Text → Bool
is_broken none = false
is_broken (some e) = nonretryable_readback (some e)

abbrev pub expected_in : (Value → Text) → Snapshot → Snapshot → Option Item → Option Bool
expected_in repr before after none = none
expected_in repr before after (some fp) = has_expected_effect repr before after fp

abbrev lacks : Option Item → Bool
lacks none = true
lacks (some _) = false

-- `str` of a list or a dict is a parameter, and so is Python's equality of items.
module _ (repr : Value → Text) ⦃items : Eq Item⦄ where
  unfoldable pub compare_surfaces : Snapshot → Snapshot → Option Item → Observation
  compare_surfaces before after fp = record {
    drift = some (has_effect (snapshot_diff before after));
    expected = expected_in repr before after fp;
    broken = none;
  }

  -- The loop over the attempts that are left, with what was seen last. The pauses between the
  -- attempts are not modelled.
  unfoldable pub poll :
      {W : Type 0}
      → ℕ
      → Snapshot
      → (W → (Option Snapshot × Option Text) × W)
      → Option Item
      → Observation
      → W
      → Observation × W
  poll zero before take_after fp seen w = (seen, w)
  poll (suc n) before take_after fp seen w =
      let (found, w') = take_after w in
      let (surface, err) = found in
      elim surface [
        | none ↦
            let again = poll n before take_after fp nothing_seen w' in
            if is_broken err then (broken_by err, w') else again
        | some after ↦
            let now = compare_surfaces before after fp in
            let again = poll n before take_after fp now w' in
            if is_true now.expected || lacks fp && is_true now.drift then (now, w') else again
      ]

  -- `_verify_readback`
  unfoldable pub verify_readback :
      {W : Type 0}
      → Option Snapshot
      → Option Text
      → (W → (Option Snapshot × Option Text) × W)
      → Option Item
      → ℕ
      → W
      → Observation × W
  verify_readback none before_err take_after fp attempts w =
      (if is_broken before_err then broken_by before_err else nothing_seen, w)
  verify_readback (some before) before_err take_after fp zero w =
      poll 1 before take_after fp nothing_seen w
  verify_readback (some before) before_err take_after fp (suc n) w =
      poll (suc n) before take_after fp nothing_seen w
