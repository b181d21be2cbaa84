-- ===== src/Broker/Browser.antt =====
-- `call_browser` and `perform_pending` of flowers/broker.py, of a broker that has a browser. The call's
-- toolkit is "browser".
use flowers_oss.Base.{
  Bool, true, false, not, ◌&&◌, ◌||◌, Option, none, some, List, [], ◌∷◌, ◌++◌, Eq, ◌==◌, contains,
  list_eq, nat_eq, is_empty, map, if◌then◌else◌,
}
use flowers_oss.Base.Text.{Text, str, words, lower, strip, ltb, join}
use flowers_oss.Base.Value
use flowers_oss.Base.Value.{Value, Fields, truthy, py_str, py_str_or_blank}
use flowers_oss.Policy.{never, is_refused, is_disallowed_text, tier_eq}
use flowers_oss.Readback.{Item}
use flowers_oss.TrustGate.Record.{or_text}
use flowers_oss.Types.Effect.{EffectRecord}
use flowers_oss.Broker.Spend.{browser_spend_attempt, page_is_payment_form}
use flowers_oss.Broker.Results.{ok, error, Pending, BrokerResult, result_of, friendly_ask}
use flowers_oss.Broker.Backend.{
  Snapshot, Outcome, returned, raised, Integrations, Config, Session, Observation, verify_readback,
}
use flowers_oss.Broker.Decision.{
  Call, Decision, refuse_it, replay, preview, ask_owner, queue_undo, proceed, undo_of, must_approve,
  grant_key_for, tier_of, is_verified_kind, is_authed, is_mandate_covered,
}
use flowers_oss.Broker.Integration.{
  effect, with_key, refusal, already_done, queued, asked, settle, call_integration,
}

-- What a browser action gives; `elements` is null where the backend lists none.
pub record Page : Type 0 where
  pub ok : Bool
  pub text : Text
  pub url : Text
  pub actor : Text
  pub elements : Value
  pub error : Option Text

-- The browser backend for the one local user, which looks at and changes the same world.
pub record BrowserBackend (W : Type 0) : Type 0 where
  pub act : Text → Fields → W → Outcome Page × W
  pub observe : Text → Fields → W → Outcome Snapshot × W
  pub fingerprint : Text → Fields → Option Item
  pub observer_id : Text

abbrev click_family : List Text
click_family =
    words (
      "click" ∷ "press" ∷ "tap" ∷ "submit" ∷ "confirm" ∷ "book" ∷ "reserve" ∷ "order" ∷ "post" ∷ [])

abbrev as_cua : EffectRecord → EffectRecord
as_cua e = record e { effect_kind = str "cua" }

-- A parked browser action names no toolkit.
abbrev as_browser_pending : Option Pending → Option Pending
as_browser_pending none = none
as_browser_pending (some p) = some (record p { browser = true; toolkit = [] })

abbrev as_browser : BrokerResult → BrokerResult
as_browser r = record r { effect = as_cua r.effect; pending = as_browser_pending r.pending }

abbrev shows_payment_form : {W : Type 0} → Outcome Page × W → Bool × W
shows_payment_form (returned pg, w) = (pg.ok && page_is_payment_form pg.text, w)
shows_payment_form (raised _, w) = (false, w)

-- `_safe_snapshot`
abbrev safe_snapshot : {W : Type 0} → Outcome Snapshot × W → Option Snapshot × W
safe_snapshot (returned found, w) = (some found, w)
safe_snapshot (raised _, w) = (none, w)

abbrev without_error : {W : Type 0} → Option Snapshot × W → (Option Snapshot × Option Text) × W
without_error (found, w) = ((found, none), w)

abbrev page_fields : Page → Fields → Fields
page_fields pg more =
    Fields.field (str "text") (Value.text pg.text)
      (Fields.field (str "url") (Value.text pg.url) more)

abbrev elements_field : Value → Fields
elements_field v = if truthy v then Fields.field (str "elements") v Fields.end else Fields.end

module _ {W : Type 0} (repr : Value → Text) (params_digest : Fields → Text) ⦃items : Eq Item⦄
    (backend : Integrations W) (cfg : Config) (browser : BrowserBackend W) where
  -- The target that the illegal-content floor reads.
  abbrev target_text : Call → Text
  target_text c =
      c.action
      ++ (b' '
          ∷ join (str " ") (
              map (λ key. py_str_or_blank repr (Value.get key c.params))
                (str "url" ∷ str "target" ∷ str "selector" ∷ str "query" ∷ str "text" ∷ [])))

  unfoldable pub is_spend : Call → Bool
  is_spend c = is_refused (str "browser") c.action || browser_spend_attempt repr c.action c.params

  unfoldable pub is_illegal : Call → Bool
  is_illegal c = is_disallowed_text (target_text c)

  -- Whether the current page is read, and found to be a payment form.
  unfoldable pub look : Call → W → Bool × W
  look c w =
      let seen = shows_payment_form (browser.act (str "extract") Fields.end w) in
      if contains click_family (lower (strip c.action))
        && not (truthy (Value.get (str "url") c.params))
      then seen
      else (false, w)

  -- The branches after the floors, up to the action itself.
  unfoldable pub decide_browser : Call → Session W → Decision
  decide_browser c s =
      let authed = is_authed repr params_digest backend cfg c in
      let covered = is_mandate_covered repr params_digest backend cfg c s in
      let undo = undo_of cfg.mandate in
      if is_verified_kind repr params_digest backend cfg c
        && contains s.forwarded_gks (grant_key_for repr params_digest backend cfg c)
      then replay
      else if covered && ltb 0 undo && not authed
      then queue_undo undo
      else if must_approve (tier_of repr params_digest backend cfg c) && not (authed || covered)
      then ask_owner
      else proceed covered false

  unfoldable pub floor_refusal : Call → Text → BrokerResult
  floor_refusal c reason = record (refusal repr params_digest backend cfg c) { error = some reason }

  -- The prompt that asks for a browser action.
  unfoldable pub browser_prompt : Call → Text
  browser_prompt c =
      let described = strip (py_str_or_blank repr (Value.get (str "describe") c.params)) in
      let question =
        if is_empty described
        then friendly_ask repr (str "browser") c.action c.params
            (tier_of repr params_digest backend cfg c == never)
        else described in
      let via = Value.get (str "observe_via") c.params in
      let channel = Value.get (str "observe_url") c.params in
      if truthy channel
      then question
        ++ (10 ∷ 10 ∷ str "(I'll confirm it via "
            ++ ((if truthy via then py_str repr via else str "the page")
                ++ (str ": " ++ (py_str repr channel ++ str ")"))))
      else question

  unfoldable pub asked_browser : Call → BrokerResult
  asked_browser c =
      let r = as_browser (asked repr params_digest backend cfg c) in
      record r {
        approval = elim r.approval [
          | none ↦ none
          | some apr ↦ some (record apr { prompt = browser_prompt c })
        ];
      }

  unfoldable pub observe_page : Call → W → Option Snapshot × W
  observe_page c w = safe_snapshot (browser.observe c.action c.params w)

  unfoldable pub browser_failure : Call → Text → Option Text → BrokerResult
  browser_failure c actor err =
      let e = as_cua (
        effect repr params_digest backend cfg c (is_verified_kind repr params_digest backend cfg c)
          (str "failed")) in
      record (result_of error (
        with_key (grant_key_for repr params_digest backend cfg c)
          (record e { actor = some actor }))) { error = err }

  -- The record of a browser effect, which an independent observer looked for.
  unfoldable pub browser_effect : Call → Bool → Text → Observation → EffectRecord
  browser_effect c covered actor seen =
      let e =
        with_key (grant_key_for repr params_digest backend cfg c)
          (as_cua (effect repr params_digest backend cfg c true (str "forwarded"))) in
      record e {
        drift_present = seen.drift;
        expected_present = seen.expected;
        actor = some actor;
        observer = some browser.observer_id;
        detail = record e.detail { authorized_by = if covered then some (str "mandate") else none };
      }

  -- What the answer of the browser leads to.
  unfoldable pub conclude_browser :
      Call → Bool → Option Snapshot → Session W → Outcome Page → W → BrokerResult × Session W
  conclude_browser c covered before s (raised e) w =
      (browser_failure c cfg.actor (some e), record s { world = w })
  conclude_browser c covered before s (returned pg) w =
      let (seen, w') =
        verify_readback repr before none (λ now. without_error (observe_page c now))
          (browser.fingerprint c.action c.params) cfg.verify_attempts w in
      let read = record (as_cua (effect repr params_digest backend cfg c false (str "forwarded"))) {
        actor = some pg.actor;
      } in
      if not pg.ok
      then (browser_failure c (or_text (some pg.actor) cfg.actor) pg.error, record s { world = w })
      else if not (is_verified_kind repr params_digest backend cfg c)
      then (
        record (result_of ok read) {
          result = Value.object (page_fields pg (elements_field pg.elements));
        },
        record s { world = w },
      )
      else (
        record (result_of ok (browser_effect c covered pg.actor seen)) {
          result = Value.object (page_fields pg Fields.end);
        },
        settle repr params_digest backend cfg c covered seen s w',
      )

  unfoldable pub perform_browser : Call → Bool → Session W → BrokerResult × Session W
  perform_browser c covered s =
      let (before, observed_world) =
        if is_verified_kind repr params_digest backend cfg c
        then observe_page c s.world
        else (none, s.world) in
      let (outcome, w) = browser.act c.action c.params observed_world in
      conclude_browser c covered before s outcome w

  -- Neither a refusal nor a preview is decided on for the browser.
  abbrev pub act_on_browser : Decision → Call → Session W → BrokerResult × Session W
  act_on_browser refuse_it c s = (refusal repr params_digest backend cfg c, s)
  act_on_browser replay c s = (as_browser (already_done repr params_digest backend cfg c s), s)
  act_on_browser preview c s = (asked_browser c, s)
  act_on_browser (queue_undo undo) c s =
      (as_browser (queued repr params_digest backend cfg c undo), s)
  act_on_browser ask_owner c s = (asked_browser c, s)
  act_on_browser (proceed covered learned) c s = perform_browser c covered s

  unfoldable pub call_browser : Call → Session W → BrokerResult × Session W
  call_browser c s =
      let (is_form, w) = look c s.world in
      let glanced = record s { world = w } in
      if is_spend c
      then (
        floor_refusal c
            (str "this is a payment / checkout / card action, which flowers cannot perform"),
        s,
      )
      else if is_illegal c
      then (
        floor_refusal c
            (str "this is a disallowed / illegal-content action, which flowers cannot perform"),
        s,
      )
      else if is_form
      then (
        floor_refusal c (str "this page is a payment/checkout form, which flowers cannot submit"),
        glanced,
      )
      else act_on_browser (decide_browser c glanced) c glanced

  -- The resumption of a parked action, with the owner's grants.
  unfoldable pub perform_pending : Pending → List Text → Text → Session W → BrokerResult × Session W
  perform_pending p grants id s =
      let c : Call = record {
        toolkit = if p.browser then str "browser" else p.toolkit;
        action = p.action;
        params = p.params;
        authorized = false;
        grants = grants;
        id = id;
      } in
      if is_refused c.toolkit c.action
      then (refusal repr params_digest backend cfg c, s)
      else if p.browser
      then call_browser c s
      else call_integration repr params_digest backend cfg c s
