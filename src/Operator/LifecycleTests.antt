-- ===== src/Operator/LifecycleTests.antt =====
-- An escalation, and what becomes of it.
use flowers_oss.Base.{◌≡◌, refl, true, false, none, some, [], ◌∷◌, list_eq, nat_eq}
use flowers_oss.Base.Text.{str}
use flowers_oss.Base.Dict.{lookup}
use flowers_oss.Base.Value.{Fields}
use flowers_oss.Types.Run.{running, escalated}
use flowers_oss.Timers.{schedule, row_ids}
use flowers_oss.Operator.Ladder.{has_headroom}
use flowers_oss.Operator.Lifecycle.{
  Desk, Fresh, review, reaper_payload, escalate, reap, record_answer, continue_escalated,
  is_escalated,
}
use flowers_oss.Operator.Lifecycle.Reaper.{escalates, Reach, here, next, is_armed, Reach-is_armed}
use flowers_oss.Operator.Lifecycle.Zombies.{IsReaped, escalate-reap, escalate-continue_escalated}

abbrev desk : Desk
desk = record {
  run = record {
    run_id = str "r";
    goal_text = str "g";
    budget_usd = 2;
    status = running;
    replans = 0;
    dag_replans = 0;
    spent_usd = 0;
    pending_approval = none;
    mandate = Fields.end;
    mandate_counts = Fields.end;
    mandate_auto = false;
    fast_path = false;
    deadline_ts = none;
    created_at = 0;
    updated_at = 0;
  };
  timers = [];
  answers = [];
}

abbrev fresh : Fresh
fresh = record { apr_id = str "apr"; timer_id = str "t"; now = 10; ttl_h = 24 }

abbrev after : Desk
after = record desk {
  run = record desk.run {
    status = escalated;
    pending_approval = some (review (str "r") (str "apr") (str "why") [] [] 10);
    updated_at = 10;
  };
  timers =
      record {
        id = str "t";
        run_id = str "r";
        wake_at = 86410;
        kind = str "reap";
        payload = reaper_payload (str "apr");
        cancelled = false;
        fired = false;
      }
      ∷ [];
}

done_so : escalate fresh (str "why") [] [] desk ≡ some after
unfolding escalate schedule row_ids
done_so = refl

nobody : lookup (str "apr") desk.answers ≡ none
unfolding lookup
nobody = refl

broke : has_headroom (record after.run { spent_usd = 3 }) 20 ≡ false
unfolding has_headroom
broke = refl

escalate-reap_example : IsReaped after (reap 90000 (reaper_payload (str "apr")) after)
escalate-reap_example = escalate-reap fresh (str "why") [] [] desk after 90000 done_so nobody

escalate-continue_escalated_example :
    (is_escalated (continue_escalated 3 20 (record_answer (str "try Ann") after)).0.run.status
      ≡ true)
    × (reap 90000
          (reaper_payload (str "apr"))
          (continue_escalated 3 20 (record_answer (str "try Ann") after)).0
        ≡ none)
escalate-continue_escalated_example =
    escalate-continue_escalated fresh (str "why") [] [] desk after 90000 20 3
      (reaper_payload (str "apr")) (str "try Ann") done_so broke

history : Reach desk after
history = next here (escalates fresh (str "why") [] [] done_so)

Reach-is_armed_example : is_armed after ≡ true
Reach-is_armed_example = Reach-is_armed history refl
