-- ===== src/Broker/Integration.antt =====
-- `call_integration` of flowers/broker.py, with the results that it parks and replays.
use flowers_oss.Base.{
  ℕ, Bool, true, false, not, ◌&&◌, Option, none, some, List, [], ◌∷◌, Eq, ◌==◌, contains, list_eq,
  nat_eq, is_empty, if◌then◌else◌,
}
use flowers_oss.Base.Text.{Text, str}
use flowers_oss.Base.Value.{Value, Fields}
use flowers_oss.Base.Dict
use flowers_oss.Policy.{never, is_mutating, tier_eq}
use flowers_oss.Readback.{Item}
use flowers_oss.TrustGate.Record.{is_true, is_false}
use flowers_oss.Types.Effect.{EffectRecord}
use flowers_oss.Mandate.Scope.{extract_recipients}
use flowers_oss.Mandate.Counts.{bump}
use flowers_oss.Broker.Spend.{is_auth_required}
use flowers_oss.Broker.Results.{
  ok, needs_approval, needs_auth, refused, error, ApprovalRequest, Pending, BrokerResult, result_of,
  effect_of, ask_prompt, preview_prompt, undo_prompt,
}
use flowers_oss.Broker.Backend.{
  Snapshot, Outcome, returned, raised, Execution, Integrations, Config, Session, Observation,
  verify_readback,
}
use flowers_oss.Broker.Decision.{
  Call, Decision, refuse_it, replay, preview, ask_owner, queue_undo, proceed, call_label,
  grant_key_for, tier_of, is_verified_kind, decide,
}

abbrev pub parked : Call → Pending
parked c = record { browser = false; toolkit = c.toolkit; action = c.action; params = c.params }

abbrev pub with_key : Text → EffectRecord → EffectRecord
with_key gk e = record e { detail = record e.detail { grant_key = some gk } }

abbrev probe_result :
    {W : Type 0} → Outcome (Option Snapshot × Option Text) × W → (Option Snapshot × Option Text) × W
probe_result (returned found, w) = (found, w)
probe_result (raised e, w) = ((none, some e), w)

-- The fingerprint, bound to the id of a record that the action created.
abbrev bind_created : Option Text → Option Item → Option Item
bind_created none fp = fp
bind_created (some id) fp =
    let text = if is_empty id then 0 ∷ str ":flowers-no-created-id" else id in
    some (Dict.insert (str "id") (Value.text text) (elim fp [ none ↦ [] | some f ↦ f ]))

abbrev pub add_if : Bool → Text → List Text → List Text
add_if b gk gks = if b then gk ∷ gks else gks

abbrev replay_note : Value
replay_note = Value.object (
    Fields.field (str "idempotent") (Value.bool true) (
      Fields.field (str "note")
        (Value.text (str "already completed earlier in this run — not re-sent")) Fields.end))

-- The parameters: `str` of a list or a dict, the digest of the parameters, Python's equality of
-- items, the backend, and the broker's configuration.
module _ {W : Type 0} (repr : Value → Text) (params_digest : Fields → Text) ⦃items : Eq Item⦄
    (backend : Integrations W) (cfg : Config) where
  abbrev pub effect : Call → Bool → Text → EffectRecord
  effect c side phase = effect_of c.toolkit c.action cfg.actor c.id side phase

  -- `_refuse`
  unfoldable pub refusal : Call → BrokerResult
  refusal c = record (result_of refused (effect c true (str "refused"))) {
    error = some (str "money/payment is not a capability of this agent");
  }

  -- `_already_done`
  unfoldable pub already_done : Call → Session W → BrokerResult
  already_done c s =
      let seen =
        if contains s.verified_gks (grant_key_for repr params_digest backend cfg c)
        then some true
        else none in
      let e =
        with_key (grant_key_for repr params_digest backend cfg c)
          (effect c true (str "forwarded")) in
      record (result_of ok (record e {
        drift_present = seen;
        expected_present = seen;
        detail = record e.detail { idempotent_replay = true };
      })) { result = replay_note }

  abbrev pub approval : Call → Text → Text → List Text → ApprovalRequest
  approval c kind prompt options = record {
    run_id = cfg.run_id;
    kind = kind;
    prompt = prompt;
    options = options;
    tier = tier_of repr params_digest backend cfg c;
    effect_label = call_label c;
  }

  -- A parked action, with the request that the owner answers.
  abbrev pub park : Call → ApprovalRequest → BrokerResult
  park c apr = record (result_of needs_approval (effect c true (str "deferred"))) {
    approval = some apr;
    grant_key = grant_key_for repr params_digest backend cfg c;
    pending = some (parked c);
  }

  -- `_preview_send`
  unfoldable pub preview_send : Call → BrokerResult
  preview_send c = park c (
      approval c (str "preview")
        (preview_prompt repr (extract_recipients repr c.toolkit c.params) c.params)
        (str "yes" ∷ str "no" ∷ []))

  -- `_queue_undo`
  unfoldable pub queued : Call → ℕ → BrokerResult
  queued c undo =
      record (park c (approval c (str "undo") (undo_prompt repr c.params undo) (str "stop" ∷ []))) {
        auto_release_seconds = undo;
      }

  unfoldable pub asked : Call → BrokerResult
  asked c = park c (
      approval c
        (if tier_of repr params_digest backend cfg c == never
          then str "never"
          else str "side_effect")
        (ask_prompt repr c.toolkit c.action c.params (tier_of repr params_digest backend cfg c))
        (str "yes" ∷ str "no" ∷ []))

  -- `_readback_probe`
  unfoldable pub readback_probe : Call → W → (Option Snapshot × Option Text) × W
  readback_probe c w = probe_result (backend.snapshot_probe c.toolkit c.action c.params w)

  -- A call of the backend that failed, with its error in the ledger.
  unfoldable pub failure : Call → Option Text → BrokerResult
  failure c err =
      let e =
        with_key (grant_key_for repr params_digest backend cfg c)
          (effect c (is_verified_kind repr params_digest backend cfg c) (str "failed")) in
      record (result_of error (record e {
        mutating = is_mutating c.toolkit c.action;
        detail = record e.detail { error = err };
      })) { error = err }

  -- An account that is not connected: the consent address, if the backend gives one.
  unfoldable pub connect : Call → Option Text → W → BrokerResult × W
  connect c err w = elim backend.authorize [
    | none ↦ (failure c err, w)
    | some authorize ↦
        let (answer, w') = authorize c.toolkit w in
        let (status, url) = answer in
        if not (is_empty url) && not (status == str "completed")
        then (
          record (result_of needs_auth
              (effect c (is_verified_kind repr params_digest backend cfg c) (str "deferred"))) {
                auth_url = url;
                pending = some (parked c);
                error = err;
              },
          w',
        )
        else (failure c err, w')
  ]

  abbrev authorized_by : Bool → Bool → Option Text
  authorized_by covered learned =
      if covered then some (str "mandate") else if learned then some (str "learned") else none

  -- The record of a forwarded effect, from what the read-back shows.
  unfoldable pub forwarded_effect : Call → Bool → Bool → Observation → EffectRecord
  forwarded_effect c covered learned seen =
      let e =
        with_key (grant_key_for repr params_digest backend cfg c)
          (effect c true (str "forwarded")) in
      record e {
        drift_present = seen.drift;
        expected_present = seen.expected;
        detail = record e.detail {
          readback_error = seen.broken;
          readback_params = elim seen.broken [ none ↦ none | some _ ↦ some c.params ];
          authorized_by = authorized_by covered learned;
        };
      }

  -- What the call writes into the broker after a forwarded effect.
  unfoldable pub settle : Call → Bool → Observation → Session W → W → Session W
  settle c covered seen s w = record {
    counts = if covered then bump repr params_digest s.counts c.toolkit c.params else s.counts;
    forwarded_gks =
        add_if (not (is_false seen.expected)) (grant_key_for repr params_digest backend cfg c)
          s.forwarded_gks;
    verified_gks =
        add_if (is_true seen.expected) (grant_key_for repr params_digest backend cfg c)
          s.verified_gks;
    world = w;
  }

  -- After a successful execution: the read-back of a side effect.
  unfoldable pub finish :
      Call
      → Bool
      → Bool
      → Option Snapshot × Option Text
      → Execution
      → Session W
      → W
      → BrokerResult × Session W
  finish c covered learned (before, before_err) ex s w =
      let fp =
        bind_created (backend.created_key c.toolkit c.action ex.result)
          (backend.fingerprint c.toolkit c.action c.params) in
      let (seen, w') =
        verify_readback repr before before_err (readback_probe c) fp cfg.verify_attempts w in
      let settled = settle c covered seen s w' in
      let plain = result_of ok (effect c false (str "forwarded")) in
      if is_verified_kind repr params_digest backend cfg c
      then (
        record (result_of ok (forwarded_effect c covered learned seen)) { result = ex.result },
        settled,
      )
      else (record plain { result = ex.result }, record s { world = w })

  -- What the answer of the backend's `execute` leads to.
  unfoldable pub conclude :
      Call
      → Bool
      → Bool
      → Option Snapshot × Option Text
      → Session W
      → Outcome Execution
      → W
      → BrokerResult × Session W
  conclude c covered learned before s (raised e) w = (failure c (some e), record s { world = w })
  conclude c covered learned before s (returned ex) w =
      let (unconnected, asked_world) = connect c ex.error w in
      if ex.ok
      then finish c covered learned before ex s w
      else if is_auth_required ex.error
      then (unconnected, record s { world = asked_world })
      else (failure c ex.error, record s { world = w })

  -- The execution of an action that may run.
  unfoldable pub perform : Call → Bool → Bool → Session W → BrokerResult × Session W
  perform c covered learned s =
      let (before, probed) =
        if is_verified_kind repr params_digest backend cfg c
        then readback_probe c s.world
        else ((none, none), s.world) in
      let (outcome, executed) = backend.execute c.toolkit c.action c.params probed in
      conclude c covered learned before s outcome executed

  abbrev pub act_on : Decision → Call → Session W → BrokerResult × Session W
  act_on refuse_it c s = (refusal c, s)
  act_on replay c s = (already_done c s, s)
  act_on preview c s = (preview_send c, s)
  act_on (queue_undo undo) c s = (queued c undo, s)
  act_on ask_owner c s = (asked c, s)
  act_on (proceed covered learned) c s = perform c covered learned s

  unfoldable pub call_integration : Call → Session W → BrokerResult × Session W
  call_integration c s = act_on (decide repr params_digest backend cfg c s) c s
