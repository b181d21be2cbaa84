-- ===== src/Broker/BrowserTests.antt =====
-- The theorems on the browser path of flowers/broker.py and on resumption, at a small mailbox.
use flowers_oss.Base.{◌≡◌, refl, true, false, none, []}
use flowers_oss.Base.Text.{Text, str, join}
use flowers_oss.Base.Value
use flowers_oss.Base.Value.{Value, Fields}
use flowers_oss.Policy.{is_disallowed_text, alnum_tokens}
use flowers_oss.Broker.Spend.{looks_like_card_number, browser_spend_attempt, page_is_payment_form}
use flowers_oss.Broker.Results.{BrokerResult, refused, needs_approval, ask_prompt, friendly_ask}
use flowers_oss.Broker.Backend.{Session, Snapshot, returned}
use flowers_oss.Broker.Decision.{Call}
use flowers_oss.Broker.Integration.{call_integration}
use flowers_oss.Broker.Browser.{
  BrowserBackend, is_spend, is_illegal, look, decide_browser, floor_refusal, browser_prompt,
  asked_browser, observe_page, browser_failure, browser_effect, conclude_browser, perform_browser,
  call_browser,
}
use flowers_oss.Broker.Clicks.{glance, call_browser_unauthorized}
use flowers_oss.Broker.Tests.{item_eq, repr, params_digest, backend, cfg, fresh, call, run}

-- A browser that shows one page.
abbrev browser : BrowserBackend Snapshot
browser = record {
  act = λ action params w. (
    returned (record {
      ok = true;
      text = str "Reserve a table";
      url = str "https://bistro.com";
      actor = str "worker";
      elements = Value.null;
      error = none;
    }),
    w,
  );
  observe = λ action params w. (returned w, w);
  fingerprint = λ action params. none;
  observer_id = str "observer";
}

browse : Call → Session Snapshot → BrokerResult × Session Snapshot
unfolding run call_browser is_spend is_illegal look decide_browser floor_refusal browser_prompt
    asked_browser observe_page browser_failure browser_effect conclude_browser perform_browser
    looks_like_card_number browser_spend_attempt page_is_payment_form is_disallowed_text
    alnum_tokens friendly_ask ask_prompt Value.fields_list join
browse = call_browser repr params_digest backend cfg browser

abbrev click : Text → Call
click target = record {
  toolkit = str "browser";
  action = str "submit";
  params = Fields.field (str "selector") (Value.text target) Fields.end;
  authorized = false;
  grants = [];
  id = str "e1";
}

statuses :
    ((browse (click (str "#place-order")) fresh).0.status ≡ refused)
    × ((browse (click (str "#book")) fresh).0.status ≡ needs_approval)
unfolding browse
statuses = (refl, refl)

call_browser_unauthorized_example :
    (call_browser repr params_digest backend cfg browser (click (str "#book")) fresh).1
    ≡ glance repr params_digest backend cfg browser (click (str "#book")) fresh
unfolding browse
call_browser_unauthorized_example =
    call_browser_unauthorized repr params_digest backend cfg browser (click (str "#book")) fresh
      refl refl refl

-- A send to somebody out of the mandate's scope, which waits for the owner.
abbrev outside : Call
outside = call (str "GMAIL_SEND_EMAIL") (str "eve@evil.com")

abbrev grant_of_outside : Text
grant_of_outside = (call_integration repr params_digest backend cfg outside fresh).0.grant_key
