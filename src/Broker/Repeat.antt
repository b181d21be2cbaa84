-- ===== src/Broker/Repeat.antt =====
-- Repeated calls of `call_integration` of flowers/broker.py in one run.
use flowers_oss.Base.{
  ℕ, ◌≡◌, refl, ◌≢◌, true, false, List, [], ◌∷◌, Eq, contains, list_eq, nat_eq, arith,
}
use flowers_oss.Base.Text.{Text}
use flowers_oss.Base.Value.{Value, Fields}
use flowers_oss.Readback.{Item}
use flowers_oss.TrustGate.Record.{is_false}
use flowers_oss.Broker.Results.{ok}
use flowers_oss.Broker.Backend.{Integrations, Config, Session}
use flowers_oss.Broker.Decision.{
  Call, Decision, refuse_it, replay, preview, ask_owner, queue_undo, proceed, grant_key_for,
  is_verified_kind, decide,
}
use flowers_oss.Broker.Integration.{act_on, call_integration, refusal, preview_send, asked, queued}
use flowers_oss.Broker.Safety.{act_on_stays, is_proceed}
use flowers_oss.Broker.Forwarded.{perform-keeps, perform-adds}

module _ {W : Type 0} (repr : Value → Text) (params_digest : Fields → Text) ⦃items : Eq Item⦄
    (backend : Integrations W) (cfg : Config) where
  -- A key that is on the list of forwarded effects stays there.
  call_integration-keeps :
      (c : Call) (s : Session W) (k : Text)
      → contains s.forwarded_gks k ≡ true
      → contains (call_integration repr params_digest backend cfg c s).1.forwarded_gks k ≡ true
  unfolding call_integration
  call_integration-keeps c s k h = go (decide repr params_digest backend cfg c s)
    where
      go :
          (d : Decision)
          → contains (act_on repr params_digest backend cfg d c s).1.forwarded_gks k ≡ true
      go (proceed covered learned) =
          perform-keeps repr params_digest backend cfg c covered learned s k h
      go refuse_it = h
      go replay = h
      go preview = h
      go ask_owner = h
      go (queue_undo undo) = h

  -- The session after some calls.
  unfoldable pub after_calls : List Call → Session W → Session W
  after_calls [] s = s
  after_calls (c ∷ cs) s = after_calls cs (call_integration repr params_digest backend cfg c s).1

  after_calls-keeps :
      (cs : List Call) (s : Session W) (k : Text)
      → contains s.forwarded_gks k ≡ true
      → contains (after_calls cs s).forwarded_gks k ≡ true
  unfolding after_calls
  after_calls-keeps [] s k h = h
  after_calls-keeps (c ∷ cs) s k h = after_calls-keeps cs _ k (call_integration-keeps c s k h)

  refusal-fails : (c : Call) → (refusal repr params_digest backend cfg c).status ≢ ok
  unfolding refusal
  refusal-fails c h = cc

  preview-fails : (c : Call) → (preview_send repr params_digest backend cfg c).status ≢ ok
  unfolding preview_send
  preview-fails c h = cc

  asked-fails : (c : Call) → (asked repr params_digest backend cfg c).status ≢ ok
  unfolding asked
  asked-fails c h = cc

  queued-fails : (c : Call) (undo : ℕ) → (queued repr params_digest backend cfg c undo).status ≢ ok
  unfolding queued
  queued-fails c undo h = cc

  replay_elim :
      (c : Call) (s : Session W)
      → decide repr params_digest backend cfg c s ≡ replay
      → contains s.forwarded_gks (grant_key_for repr params_digest backend cfg c) ≡ true
  unfolding decide
  replay_elim c s e = ground arith

  stops :
      (c : Call) (s : Session W)
      → is_verified_kind repr params_digest backend cfg c ≡ true
      → contains s.forwarded_gks (grant_key_for repr params_digest backend cfg c) ≡ true
      → is_proceed (decide repr params_digest backend cfg c s) ≡ false
  unfolding decide
  stops c s verified sent = ground arith

  -- A call of a side effect that is on the list of forwarded effects changes nothing.
  stays_of_sent :
      (c : Call) (s : Session W)
      → is_verified_kind repr params_digest backend cfg c ≡ true
      → contains s.forwarded_gks (grant_key_for repr params_digest backend cfg c) ≡ true
      → (call_integration repr params_digest backend cfg c s).1 ≡ s
  unfolding call_integration
  stays_of_sent c s verified sent =
      act_on_stays repr params_digest backend cfg _ c s (stops c s verified sent)

  verified_of_same :
      (c again : Call)
      → is_verified_kind repr params_digest backend cfg c ≡ true
      → again.toolkit ≡ c.toolkit
      → again.action ≡ c.action
      → is_verified_kind repr params_digest backend cfg again ≡ true
  unfolding is_verified_kind
  verified_of_same c again verified t a = rw (t, a) verified

  key_of_same :
      (c again : Call)
      → again.toolkit ≡ c.toolkit
      → again.action ≡ c.action
      → again.params ≡ c.params
      → grant_key_for repr params_digest backend cfg again
        ≡ grant_key_for repr params_digest backend cfg c
  unfolding grant_key_for
  key_of_same c again t a p = rw (t, a, p) refl

  -- A call that succeeded and that no read-back disproved has its key on the list.
  call_integration-adds :
      (c : Call) (s : Session W)
      → let (r, s') = call_integration repr params_digest backend cfg c s in
        is_verified_kind repr params_digest backend cfg c ≡ true
        → r.status ≡ ok
        → is_false r.effect.expected_present ≡ false
        → contains s'.forwarded_gks (grant_key_for repr params_digest backend cfg c) ≡ true
  unfolding call_integration
  call_integration-adds c s verified good h =
      go (decide repr params_digest backend cfg c s) refl good h
    where
      go :
          (d : Decision)
          → let (r, s') = act_on repr params_digest backend cfg d c s in
            decide repr params_digest backend cfg c s ≡ d
            → r.status ≡ ok
            → is_false r.effect.expected_present ≡ false
            → contains s'.forwarded_gks (grant_key_for repr params_digest backend cfg c) ≡ true
      go (proceed covered learned) e good h =
          perform-adds repr params_digest backend cfg c covered learned s verified good h
      go replay e good h = replay_elim c s e
      go refuse_it e good h = absurd (refusal-fails c good)
      go preview e good h = absurd (preview-fails c good)
      go ask_owner e good h = absurd (asked-fails c good)
      go (queue_undo undo) e good h = absurd (queued-fails c undo good)

  -- Once a side effect was sent and no read-back disproved it, a call with the same toolkit, action
  -- and parameters changes nothing any more, whatever calls are made in between.
  pub call_integration-once :
      (c again : Call) (s : Session W) (between : List Call)
      → let (r, sent) = call_integration repr params_digest backend cfg c s in
        let later = after_calls between sent in
        is_verified_kind repr params_digest backend cfg c ≡ true
        → r.status ≡ ok
        → is_false r.effect.expected_present ≡ false
        → again.toolkit ≡ c.toolkit
        → again.action ≡ c.action
        → again.params ≡ c.params
        → (call_integration repr params_digest backend cfg again later).1 ≡ later
  call_integration-once c again s between verified good h t a p =
      stays_of_sent again _ (verified_of_same c again verified t a) (
        rw (key_of_same c again t a p)
          (after_calls-keeps between _ _ (call_integration-adds c s verified good h)))
