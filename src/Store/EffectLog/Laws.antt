-- ===== src/Store/EffectLog/Laws.antt =====
-- The log of effects as a list of records, each with its run.
use flowers_oss.Base.{
  ◌≡◌, refl, Bool, true, false, ◌&&◌, some, List, [], ◌∷◌, ◌++◌, ◌==◌, list_eq, nat_eq, map,
  if◌then◌else◌, arith,
}
use flowers_oss.Base.Text.{Text}
use flowers_oss.Types.Effect.{StampedEffect}
use flowers_oss.Store.Json.{find}
use flowers_oss.Store.Effects.{effect_to_dict, effect_from_dict}
use flowers_oss.Store.Roundtrip.Effects.{restored_effect, effect_from_dict-effect_to_dict}
use flowers_oss.Store.Tables.{Codec, Store, EffectRow, load_rows, new_store}
use flowers_oss.Store.EffectLog.{
  rows_for, append_effect, get_effects, is_row_of, correct_row, update_effect,
}

-- A run's id with one of its effects.
abbrev pub Entry : Type 0
Entry = Text × StampedEffect

-- The effects of a run, in order.
unfoldable pub effects_of : Text → List Entry → List StampedEffect
unfolding list_eq nat_eq
effects_of run_id [] = []
effects_of run_id ((i, e) ∷ log) =
    if i == run_id then e ∷ effects_of run_id log else effects_of run_id log

-- The first effect of the run with the same action is replaced; and whether there was one.
unfoldable pub correct : Text → StampedEffect → List Entry → List Entry × Bool
unfolding list_eq nat_eq
correct run_id e [] = ([], false)
correct run_id e ((i, f) ∷ log) =
    let rest = correct run_id e log in
    if i == run_id && f.effect.action_id == e.effect.action_id
    then ((i, e) ∷ log, true)
    else ((i, f) ∷ rest.0, rest.1)

pub data EffectOp : Type 0 where
  append : Text → StampedEffect → EffectOp
  update : Text → StampedEffect → EffectOp

unfoldable pub amend : EffectOp → List Entry → List Entry
unfolding correct
amend (append i e) log = log ++ ((i, e) ∷ [])
amend (update i e) log = (correct i e log).0

unfoldable pub amend_all : List EffectOp → List Entry → List Entry
unfolding amend
amend_all [] log = log
amend_all (op ∷ ops) log = amend_all ops (amend op log)

module _ {Json : Type 0} (c : Codec Json) where
  abbrev pub row_of : Entry → EffectRow Json
  row_of e = record { run_id = e.0; content = c.dumps (effect_to_dict e.1) }

  -- One operation on the log, and what it answers.
  unfoldable pub exec : EffectOp → Store Json → Store Json
  unfolding append_effect update_effect
  exec (append i e) s = append_effect c i e s
  exec (update i e) s = (update_effect c i e s).0

  unfoldable pub exec_all : List EffectOp → Store Json → Store Json
  unfolding exec
  exec_all [] s = s
  exec_all (op ∷ ops) s = exec_all ops (exec op s)

  is_row_of_lem :
      (i t : Text) (e : Entry)
      → is_row_of c i t (row_of e) ≡ (e.0 == i && e.1.effect.action_id == t)
  unfolding effect_to_dict find list_eq nat_eq
  is_row_of_lem i t e = rw (c.loads-dumps) refl

  pub correct_row_lem :
      (i : Text) (e : StampedEffect) (log : List Entry)
      → correct_row c i e (map row_of log) ≡ (map row_of (correct i e log).0, (correct i e log).1)
  unfolding correct_row correct
  correct_row_lem i e [] = refl
  correct_row_lem i e (f ∷ log) =
      ground (arith, is_row_of_lem i e.effect.action_id f, correct_row_lem i e log)

  map-append_one :
      (log : List Entry) (e : Entry)
      → map row_of (log ++ (e ∷ [])) ≡ map row_of log ++ (row_of e ∷ [])
  map-append_one [] e = refl
  map-append_one (f ∷ log) e = rw (map-append_one log e) refl

  exec_refines :
      (op : EffectOp) (s : Store Json) (log : List Entry)
      → s.effects ≡ map row_of log
      → (exec op s).effects ≡ map row_of (amend op log)
  unfolding exec amend append_effect update_effect
  exec_refines (append i e) s log held = rw (held, map-append_one log (i, e)) refl
  exec_refines (update i e) s log held = rw (held, correct_row_lem i e log) refl

  pub exec_all_refines :
      (ops : List EffectOp) (s : Store Json) (log : List Entry)
      → s.effects ≡ map row_of log
      → (exec_all ops s).effects ≡ map row_of (amend_all ops log)
  unfolding exec_all amend_all
  exec_all_refines [] s log held = held
  exec_all_refines (op ∷ ops) s log held =
      exec_all_refines ops (exec op s) (amend op log) (exec_refines op s log held)

  pub load_rows_lem :
      (i : Text) (log : List Entry)
      → load_rows c effect_from_dict (map (λ r. r.content) (rows_for i (map row_of log)))
        ≡ some (map restored_effect (effects_of i log))
  unfolding load_rows effects_of
  load_rows_lem i [] = refl
  load_rows_lem i (e ∷ log) = ground (
    arith,
    c.loads-dumps (effect_to_dict e.1),
    effect_from_dict-effect_to_dict e.1,
    load_rows_lem i log,
  )

  -- After any effects were appended and corrected, for any runs, from a new store on, the effects of
  -- a run are read back in the order they were appended, each as it was last corrected, and always
  -- as mutating.
  pub get_effects-exec_all :
      (ops : List EffectOp) (i : Text)
      → get_effects c i (exec_all ops new_store)
        ≡ some (map restored_effect (effects_of i (amend_all ops [])))
  unfolding get_effects
  get_effects-exec_all ops i =
      rw (exec_all_refines ops new_store [] refl, load_rows_lem i (amend_all ops [])) refl
