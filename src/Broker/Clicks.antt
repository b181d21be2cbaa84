-- ===== src/Broker/Clicks.antt =====
-- The authorization of what `call_browser` of flowers/broker.py does.
use flowers_oss.Base.{◌≡◌, refl, ◌∙◌, true, false, ◌||◌, Eq, list_eq, nat_eq, arith, if◌then◌else◌}
use flowers_oss.Base.Text.{Text}
use flowers_oss.Base.Value.{Value, Fields}
use flowers_oss.Readback.{Item}
use flowers_oss.Broker.Backend.{Integrations, Config, Session}
use flowers_oss.Broker.Decision.{
  Call, Decision, refuse_it, replay, preview, ask_owner, queue_undo, proceed, must_approve, tier_of,
  is_authed, is_mandate_covered,
}
use flowers_oss.Broker.Browser.{
  BrowserBackend, is_spend, is_illegal, look, decide_browser, act_on_browser, call_browser,
}
use flowers_oss.Broker.Safety.{is_proceed}

module _ {W : Type 0} (repr : Value → Text) (params_digest : Fields → Text) ⦃items : Eq Item⦄
    (backend : Integrations W) (cfg : Config) (browser : BrowserBackend W) where
  -- The session after the browser looked at the current page, where it does.
  unfoldable pub glance : Call → Session W → Session W
  glance c s =
      if is_spend repr params_digest backend cfg browser c
        || is_illegal repr params_digest backend cfg browser c
      then s
      else record s { world = (look repr params_digest backend cfg browser c s.world).1 }

  act_on_browser_stays :
      (d : Decision) (c : Call) (s : Session W)
      → is_proceed d ≡ false
      → (act_on_browser repr params_digest backend cfg browser d c s).1 ≡ s
  act_on_browser_stays refuse_it c s h = refl
  act_on_browser_stays replay c s h = refl
  act_on_browser_stays preview c s h = refl
  act_on_browser_stays ask_owner c s h = refl
  act_on_browser_stays (queue_undo undo) c s h = refl
  act_on_browser_stays (proceed covered learned) c s h = cc

  decide_browser_parked :
      (c : Call) (s : Session W)
      → must_approve (tier_of repr params_digest backend cfg c) ≡ true
      → is_authed repr params_digest backend cfg c ≡ false
      → is_mandate_covered repr params_digest backend cfg c s ≡ false
      → is_proceed (decide_browser repr params_digest backend cfg browser c s) ≡ false
  unfolding decide_browser
  decide_browser_parked c s needs unauthorized uncovered = ground arith

  covered_elsewhere :
      (c : Call) (s : Session W) (w : W)
      → is_mandate_covered repr params_digest backend cfg c (record s { world = w })
        ≡ is_mandate_covered repr params_digest backend cfg c s
  unfolding is_mandate_covered
  covered_elsewhere c s w = refl

  -- A browser action that needs approval, that the owner has not authorized and that the mandate
  -- does not cover, does no more than look at the current page.
  pub call_browser_unauthorized :
      (c : Call) (s : Session W)
      → must_approve (tier_of repr params_digest backend cfg c) ≡ true
      → is_authed repr params_digest backend cfg c ≡ false
      → is_mandate_covered repr params_digest backend cfg c s ≡ false
      → (call_browser repr params_digest backend cfg browser c s).1 ≡ glance c s
  unfolding call_browser glance
  call_browser_unauthorized c s needs unauthorized uncovered =
      let w = (look repr params_digest backend cfg browser c s.world).1 in
      let glanced : Session W = record s { world = w } in
      ground (
        arith,
        act_on_browser_stays (decide_browser repr params_digest backend cfg browser c glanced) c
            glanced
            (decide_browser_parked c glanced needs unauthorized
              (covered_elsewhere c s w ∙ uncovered)),
      )
