-- ===== src/Store/EffectLog/Correct.antt =====
-- What a correction of an effect leaves as it was.
use flowers_oss.Base.{
  ◌≡◌, refl, sym, ◌∙◌, Option, some, List, [], ◌∷◌, contains, list_eq, nat_eq, map, arith,
}
use flowers_oss.Base.Text.{Text}
use flowers_oss.Types.Effect.{StampedEffect}
use flowers_oss.Store.Json.{◌>>=◌}
use flowers_oss.Store.Roundtrip.Effects.{restored_effect}
use flowers_oss.Store.Tables.{Codec, Store, new_store}
use flowers_oss.Store.EffectLog.{get_effects, update_effect}
use flowers_oss.Store.EffectLog.Laws.{
  Entry, EffectOp, effects_of, correct, amend_all, row_of, exec_all, exec_all_refines,
  correct_row_lem, load_rows_lem,
}

abbrev pub ids : List StampedEffect → List Text
ids es = map (λ e. e.effect.action_id) es

ids-restored : (es : List StampedEffect) → ids (map restored_effect es) ≡ ids es
ids-restored [] = refl
ids-restored (e ∷ es) = rw (ids-restored es) refl

ids-correct :
    (i j : Text) (e : StampedEffect) (log : List Entry)
    → ids (effects_of j (correct i e log).0) ≡ ids (effects_of j log)
unfolding effects_of correct
ids-correct i j e [] = refl
ids-correct i j e ((k, f) ∷ log) = ground (arith, ids-correct i j e log)

ids_of_correct :
    (i j : Text) (e : StampedEffect) (log : List Entry)
    → ◌≡◌ {A = Option (List Text)}
        (some (ids (effects_of j (correct i e log).0)))
        (some (ids (effects_of j log)))
ids_of_correct i j e log = rw (ids-correct i j e log) refl

correct_iff :
    (i : Text) (e : StampedEffect) (log : List Entry)
    → (correct i e log).1 ≡ contains (ids (effects_of i log)) e.effect.action_id
unfolding effects_of correct
correct_iff i e [] = refl
correct_iff i e ((k, f) ∷ log) = ground (arith, correct_iff i e log)

-- The ids of the actions of a run's effects.
abbrev pub action_ids : {Json : Type 0} → Codec Json → Text → Store Json → Option (List Text)
action_ids c i s = get_effects c i s >>= λ es. some (ids es)

module _ {Json : Type 0} (c : Codec Json) where
  get_effects_held :
      (j : Text) (s : Store Json) (log : List Entry)
      → s.effects ≡ map (row_of c) log
      → get_effects c j s ≡ some (map restored_effect (effects_of j log))
  unfolding get_effects
  get_effects_held j s log held = rw (held, load_rows_lem c j log) refl

  action_ids_held :
      (j : Text) (s : Store Json) (log : List Entry)
      → s.effects ≡ map (row_of c) log
      → action_ids c j s ≡ some (ids (effects_of j log))
  action_ids_held j s log held =
      rw (get_effects_held j s log held, ids-restored (effects_of j log)) refl

  -- After any effects were appended and corrected, for any runs, from a new store on, a further
  -- correction keeps one row for each action: no run gains, loses or reorders an action; and it
  -- answers true exactly when the run has an effect of that action.
  pub update_effect-action_ids :
      (ops : List EffectOp) (i j : Text) (e : StampedEffect)
      → (action_ids c j (update_effect c i e (exec_all c ops new_store)).0
          ≡ action_ids c j (exec_all c ops new_store))
        × ((action_ids c i (exec_all c ops new_store) >>= λ held.
              some (contains held e.effect.action_id))
            ≡ some (update_effect c i e (exec_all c ops new_store)).1)
  unfolding update_effect
  update_effect-action_ids ops i j e =
      let s : Store Json = exec_all c ops new_store in
      let log : List Entry = amend_all ops [] in
      let held : s.effects ≡ map (row_of c) log = exec_all_refines c ops new_store [] refl in
      let after : (update_effect c i e s).0.effects ≡ map (row_of c) (correct i e log).0 =
        rw (held, correct_row_lem c i e log) refl in
      let found : (update_effect c i e s).1 ≡ (correct i e log).1 =
        rw (held, correct_row_lem c i e log) refl in
      (
        action_ids_held j _ _ after
            ∙ (ids_of_correct i j e log ∙ sym (action_ids_held j s log held)),
        rw (action_ids_held i s log held, found, correct_iff i e log) refl,
      )
