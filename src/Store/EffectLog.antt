-- ===== src/Store/EffectLog.antt =====
-- The log of effects and the metering of the store.
pub mod Laws
pub mod Correct
use flowers_oss.Base.{
  ℕ, ◌+◌, Bool, true, false, ◌&&◌, Option, none, some, List, [], ◌∷◌, ◌++◌, ◌==◌, list_eq, nat_eq,
  keep, map, if◌then◌else◌,
}
use flowers_oss.Base.Text.{Text, str}
use flowers_oss.Base.Value.{Value, Fields}
use flowers_oss.Types.Effect.{StampedEffect}
use flowers_oss.Store.Json.{find}
use flowers_oss.Store.Effects.{effect_to_dict, effect_from_dict}
use flowers_oss.Store.Tables.{Codec, Store, EffectRow, UsageRow, load_rows}

abbrev pub is_text_entry : Text → Option Value → Bool
is_text_entry t (some (Value.text s)) = s == t
is_text_entry t _ = false

-- The rows of a run
abbrev pub rows_for : {Json : Type 0} → Text → List (EffectRow Json) → List (EffectRow Json)
rows_for run_id rows = keep (λ r. r.run_id == run_id) rows

-- `SUM(cost_usd)` of a run
unfoldable pub spend_of : {Json : Type 0} → Text → List (UsageRow Json) → ℕ
unfolding list_eq nat_eq
spend_of run_id [] = 0
spend_of run_id (r ∷ rows) =
    if r.run_id == run_id then r.cost_usd + spend_of run_id rows else spend_of run_id rows

unfoldable pub run_spend : {Json : Type 0} → Text → Store Json → ℕ
run_spend run_id s = spend_of run_id s.usage

module _ {Json : Type 0} (c : Codec Json) where
  unfoldable pub append_effect : Text → StampedEffect → Store Json → Store Json
  append_effect run_id e s = record s {
    effects = s.effects ++ (record { run_id = run_id; content = c.dumps (effect_to_dict e) } ∷ []);
  }

  unfoldable pub get_effects : Text → Store Json → Option (List StampedEffect)
  get_effects run_id s =
      load_rows c effect_from_dict (map (λ r. r.content) (rows_for run_id s.effects))

  -- Whether a row is that of the run's action.
  abbrev pub is_row_of : Text → Text → EffectRow Json → Bool
  is_row_of run_id action_id r =
      r.run_id == run_id && is_text_entry action_id (find (str "action_id") (c.loads r.content))

  -- The loop of `update_effect` over the rows, and whether it found one.
  unfoldable pub correct_row :
      Text → StampedEffect → List (EffectRow Json) → List (EffectRow Json) × Bool
  unfolding find list_eq nat_eq
  correct_row run_id e [] = ([], false)
  correct_row run_id e (r ∷ rows) =
      let rest = correct_row run_id e rows in
      if is_row_of run_id e.effect.action_id r
      then (record r { content = c.dumps (effect_to_dict e) } ∷ rows, true)
      else (r ∷ rest.0, rest.1)

  unfoldable pub update_effect : Text → StampedEffect → Store Json → Store Json × Bool
  update_effect run_id e s =
      let found = correct_row run_id e s.effects in (record s { effects = found.0 }, found.1)

  unfoldable pub record_usage : Text → Text → ℕ → Fields → Store Json → Store Json
  record_usage run_id kind cost_usd detail s = record s {
    usage =
        s.usage
        ++ (record { run_id = run_id; kind = kind; cost_usd = cost_usd; detail = c.dumps detail }
            ∷ []);
  }
