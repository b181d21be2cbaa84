-- ===== src/Broker/Tests.antt =====
-- Runs of the broker over a small mailbox, and its theorems there.
use flowers_oss.Base.{
  ◌≡◌, refl, ap, ◌≢◌, true, false, none, some, [], ◌∷◌, Eq, list_eq, nat_eq, is_empty,
}
use native.Mathlib.Decide.{ℕ_discrete}
use flowers_oss.Base.Text.{
  Text, str, lower, upper, strip, starts_with, ends_with, occurs, has_char, partition, split_when,
  replace_char, drop_while, runs, join,
}
use flowers_oss.Base.Dict
use flowers_oss.Base.Dict.{Dict}
use flowers_oss.Base.Sorted.{sorted, sorted_set}
use flowers_oss.Base.Value
use flowers_oss.Base.Value.{Value, Fields}
use flowers_oss.Policy.{
  classify, is_money_action, natural_tier, verb_tier, browser_tier, tier_word, find_override,
  normalize_overrides, is_refused, norm_action, norm_toolkit, action_tokens, is_disallowed_content,
  is_side_effecting, is_mutating, tier_eq,
}
use flowers_oss.Readback.{
  Item, has_expected_effect, fingerprint_values, id_values, text_values, item_at, carries_effect,
  added_keys, item_matches, value_matches, word_tokens, norm, snapshot_diff, has_effect,
}
use flowers_oss.Mandate.Emails.{find_emails, dedup_lower, emails_from}
use flowers_oss.Mandate.Scope.{
  tokens, norm_label, after_last, domain, host, netloc, take_until, entry_admits, on_allowlist,
  is_recipient_bearing, extract_recipients, has_recipient_intent,
}
use flowers_oss.Mandate.Counts.{
  Mandate, new_counts, py_int, cap, caps, count_at, occurrences, count_all, domains, exceeds,
  lists_action, bump, covers, covers_mandate, learned_covers, undo_seconds,
}
use flowers_oss.Broker.Spend.{is_auth_required, nonretryable_readback}
use flowers_oss.Broker.Results.{BrokerResult}
use flowers_oss.Broker.Backend.{
  Integrations, Config, Session, Snapshot, returned, compare_surfaces, poll, verify_readback,
}
use flowers_oss.Broker.Decision.{
  Call, tier_of, is_authed, is_verified_kind, is_mandate_covered, is_learned_covered, decide,
  grant_key_for,
}
use flowers_oss.Broker.Integration.{
  refusal, already_done, preview_send, queued, asked, readback_probe, failure, connect,
  forwarded_effect, settle, finish, conclude, perform, call_integration,
}
use flowers_oss.Broker.Safety.{Grounds, call_integration-Grounds, call_integration_never}
use flowers_oss.Broker.Repeat.{after_calls, call_integration-once}

instance abbrev pub item_eq : Eq Item
item_eq = record { dec = hlevel ℕ_discrete }

abbrev pub repr : Value → Text
repr v = str "[...]"

abbrev pub params_digest : Fields → Text
params_digest params = Value.py_str repr (Value.get (str "subject") params)

abbrev item_of : Fields → Item
item_of params =
    (str "to", Value.get (str "to") params) ∷ (str "subject", Value.get (str "subject") params) ∷ []

-- A mailbox that keeps what is sent.
abbrev pub backend : Integrations Snapshot
backend = record {
  execute = λ toolkit action params w. (
    returned (record { ok = true; result = Value.null; error = none }),
    (str "m1", item_of params) ∷ w,
  );
  snapshot_probe = λ toolkit action params w. (returned (some w, none), w);
  fingerprint = λ toolkit action params. some (item_of params);
  created_key = λ toolkit action answer. none;
  authorize = none;
}

abbrev outreach : Mandate
outreach = record {
  action_types = str "gmail:GMAIL_SEND_EMAIL" ∷ [];
  recipient_scope = str "acme.com" ∷ [];
  magnitude_caps = Fields.end;
  done_definition = str "sent";
  undo_seconds = Value.null;
}

abbrev pub cfg : Config
cfg = record {
  overrides = [];
  mandate = some outreach;
  mandate_auto = false;
  send_preview = str "auto";
  trust = [];
  trust_threshold = 3;
  actor = str "worker";
  run_id = str "r1";
  verify_attempts = 1;
}

abbrev pub fresh : Session Snapshot
fresh = record { counts = new_counts; forwarded_gks = []; verified_gks = []; world = [] }

abbrev pub call : Text → Text → Call
call action to = record {
  toolkit = str "gmail";
  action = action;
  params =
      Fields.field (str "to") (Value.text to)
        (Fields.field (str "subject") (Value.text (str "hello")) Fields.end);
  authorized = false;
  grants = [];
  id = str "e1";
}

abbrev pub send : Call
send = call (str "GMAIL_SEND_EMAIL") (str "Bob@acme.com")

unfoldable pub run : Call → Session Snapshot → BrokerResult × Session Snapshot
unfolding call_integration decide is_mandate_covered is_learned_covered is_verified_kind is_authed
    grant_key_for tier_of refusal already_done preview_send queued asked readback_probe failure
    connect forwarded_effect settle finish conclude perform compare_surfaces poll verify_readback
    is_auth_required nonretryable_readback undo_seconds py_int cap caps count_at occurrences
    count_all domains exceeds lists_action bump covers covers_mandate learned_covers tokens
    norm_label after_last domain host netloc take_until entry_admits on_allowlist
    is_recipient_bearing extract_recipients has_recipient_intent find_emails dedup_lower emails_from
    has_expected_effect fingerprint_values id_values text_values item_at carries_effect added_keys
    item_matches value_matches word_tokens norm snapshot_diff has_effect classify is_money_action
    natural_tier verb_tier browser_tier tier_word find_override normalize_overrides is_refused
    norm_action norm_toolkit action_tokens is_disallowed_content is_side_effecting is_mutating lower
    upper strip starts_with ends_with occurs has_char partition split_when replace_char drop_while
    runs join Dict.lookup Dict.insert Dict.keys Dict.values sorted sorted_set Value.get Value.py_str
    Value.fields_list list_eq nat_eq tier_eq
run = call_integration repr params_digest backend cfg

sends : is_empty (run send fresh).1.world ≡ false
unfolding run
sends = refl

changes : (call_integration repr params_digest backend cfg send fresh).1 ≢ fresh
unfolding run
changes same_session = cc (ap (λ s. is_empty s.world) same_session)

call_integration-Grounds_example : Grounds repr params_digest backend cfg send fresh
unfolding run
call_integration-Grounds_example =
    call_integration-Grounds repr params_digest backend cfg send fresh refl changes

abbrev delete : Call
delete = call (str "GMAIL_DELETE_MESSAGE") (str "Bob@acme.com")

call_integration_never_example :
    (call_integration repr params_digest backend cfg delete fresh).1 ≡ fresh
unfolding run
call_integration_never_example =
    call_integration_never repr params_digest backend cfg delete fresh refl refl

abbrev charge : Call
charge = record send { toolkit = str "stripe"; action = str "CREATE_CHARGE" }

-- A second call with another grant and another id.
abbrev again : Call
again = record send { authorized = true; id = str "e2" }

abbrev session_of_send : Session Snapshot
session_of_send = (call_integration repr params_digest backend cfg send fresh).1

call_integration-once_example :
    (call_integration repr params_digest backend cfg again
      (after_calls repr params_digest backend cfg (delete ∷ []) session_of_send)).1
    ≡ after_calls repr params_digest backend cfg (delete ∷ []) session_of_send
unfolding run
call_integration-once_example =
    call_integration-once repr params_digest backend cfg send again fresh (delete ∷ []) refl refl
      refl refl refl refl
