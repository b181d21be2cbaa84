-- ===== src/Broker/Forwarded.antt =====
-- What an execution of flowers/broker.py leaves on the list of forwarded effects.
use flowers_oss.Base.{
  ◌≡◌, ap, ◌≢◌, Bool, true, false, not, Option, some, List, Eq, contains, list_eq, nat_eq, arith,
  Bool-cases, Option-cases, inl, inr,
}
use flowers_oss.Base.Text.{Text}
use flowers_oss.Base.Value.{Value, Fields}
use flowers_oss.Readback.{Item}
use flowers_oss.TrustGate.Record.{is_false}
use flowers_oss.Broker.Spend.{is_auth_required}
use flowers_oss.Broker.Results.{ok}
use flowers_oss.Broker.Backend.{
  Integrations, Config, Session, Snapshot, Execution, Outcome, returned, raised,
}
use flowers_oss.Broker.Decision.{Call, grant_key_for, is_verified_kind}
use flowers_oss.Broker.Integration.{
  perform, conclude, forwarded_effect, finish, settle, connect, failure, add_if,
}

contains-add_if :
    (b : Bool) (gk : Text) (gks : List Text) (k : Text)
    → contains gks k ≡ true
    → contains (add_if b gk gks) k ≡ true
contains-add_if true gk gks k h = ground arith
contains-add_if false gk gks k h = h

contains-add_if_new :
    (b : Bool) (gk : Text) (gks : List Text) → b ≡ true → contains (add_if b gk gks) gk ≡ true
contains-add_if_new b gk gks h = ground arith

module _ {W : Type 0} (repr : Value → Text) (params_digest : Fields → Text) ⦃items : Eq Item⦄
    (backend : Integrations W) (cfg : Config) where
  finish-keeps :
      (c : Call) (covered learned : Bool) (before : Option Snapshot × Option Text) (ex : Execution)
      (s : Session W) (w : W) (k : Text)
      → contains s.forwarded_gks k ≡ true
      → contains
          (finish repr params_digest backend cfg c covered learned before ex s w).1.forwarded_gks
          k
        ≡ true
  unfolding finish settle
  finish-keeps c covered learned (before, before_err) ex s w k h =
      elim (Bool-cases (is_verified_kind repr params_digest backend cfg c)) [
        | inl verified ↦ rw verified (contains-add_if _ _ s.forwarded_gks k h)
        | inr plain ↦ rw plain h
      ]

  conclude-keeps :
      (c : Call) (covered learned : Bool) (before : Option Snapshot × Option Text) (s : Session W)
      (outcome : Outcome Execution) (w : W) (k : Text)
      → contains s.forwarded_gks k ≡ true
      → contains
          (conclude repr params_digest backend cfg c covered learned before s outcome
            w).1.forwarded_gks
          k
        ≡ true
  unfolding conclude
  conclude-keeps c covered learned before s (raised e) w k h = h
  conclude-keeps c covered learned before s (returned ex) w k h = elim (Bool-cases ex.ok) [
    | inl good ↦ simp good (finish-keeps c covered learned before ex s w k h)
    | inr bad ↦ elim (Bool-cases (is_auth_required ex.error)) [
      | inl unconnected ↦ simp (bad, unconnected) h
      | inr connected ↦ simp (bad, connected) h
    ]
  ]

  pub perform-keeps :
      (c : Call) (covered learned : Bool) (s : Session W) (k : Text)
      → contains s.forwarded_gks k ≡ true
      → contains (perform repr params_digest backend cfg c covered learned s).1.forwarded_gks k
        ≡ true
  unfolding perform
  perform-keeps c covered learned s k h = conclude-keeps c covered learned _ s _ _ k h

  -- A success that no read-back disproved leaves the key on the list.
  finish-adds :
      (c : Call) (covered learned : Bool) (before : Option Snapshot × Option Text) (ex : Execution)
      (s : Session W) (w : W)
      → is_verified_kind repr params_digest backend cfg c ≡ true
      → is_false
          (finish repr params_digest backend cfg c covered learned before ex s
            w).0.effect.expected_present
        ≡ false
      → contains
          (finish repr params_digest backend cfg c covered learned before ex s w).1.forwarded_gks
          (grant_key_for repr params_digest backend cfg c)
        ≡ true
  unfolding finish settle forwarded_effect
  finish-adds c covered learned (before, before_err) ex s w verified h =
      let kept = rw verified at h in
      rw verified (
        contains-add_if_new _ (grant_key_for repr params_digest backend cfg c) s.forwarded_gks
          (ap not kept))

  failure-fails :
      (c : Call) (err : Option Text) → (failure repr params_digest backend cfg c err).status ≢ ok
  unfolding failure
  failure-fails c err h = cc

  connect-fails :
      (c : Call) (err : Option Text) (w : W)
      → (connect repr params_digest backend cfg c err w).0.status ≢ ok
  unfolding connect failure
  connect-fails c err w h = elim (Option-cases backend.authorize) [
    | inl none_given ↦ ground arith
    | inr (authorize, given) ↦ ground arith
  ]

  conclude-adds :
      (c : Call) (covered learned : Bool) (before : Option Snapshot × Option Text) (s : Session W)
      (outcome : Outcome Execution) (w : W)
      → let (r, s') =
          conclude repr params_digest backend cfg c covered learned before s outcome w in
        is_verified_kind repr params_digest backend cfg c ≡ true
        → r.status ≡ ok
        → is_false r.effect.expected_present ≡ false
        → contains s'.forwarded_gks (grant_key_for repr params_digest backend cfg c) ≡ true
  unfolding conclude
  conclude-adds c covered learned before s (raised e) w verified good h =
      absurd (failure-fails c (some e) good)
  conclude-adds c covered learned before s (returned ex) w verified good h =
      elim (Bool-cases ex.ok) [
        | inl g ↦ simp g (finish-adds c covered learned before ex s w verified (simp g at h))
        | inr bad ↦ elim (Bool-cases (is_auth_required ex.error)) [
          | inl unconnected ↦ absurd (connect-fails c ex.error w (simp (bad, unconnected) at good))
          | inr connected ↦ absurd (failure-fails c ex.error (simp (bad, connected) at good))
        ]
      ]

  pub perform-adds :
      (c : Call) (covered learned : Bool) (s : Session W)
      → let (r, s') = perform repr params_digest backend cfg c covered learned s in
        is_verified_kind repr params_digest backend cfg c ≡ true
        → r.status ≡ ok
        → is_false r.effect.expected_present ≡ false
        → contains s'.forwarded_gks (grant_key_for repr params_digest backend cfg c) ≡ true
  unfolding perform
  perform-adds c covered learned s verified good h =
      conclude-adds c covered learned _ s _ _ verified good h
