-- ===== src/Pacing.antt =====
-- flowers/engine/scheduler.py: the circuit breaker of a tool, and the caps of a step.
mod Tests
use flowers_oss.Base.{
  ℕ, zero, suc, ◌+◌, ◌≤◌, ◌≡◌, refl, ◌↔◌, Bool, true, false, not, ◌&&◌, List, [], ◌∷◌, ◌==◌,
  list_eq, nat_eq, all, keep, length, take, map, arith, if◌then◌else◌,
}
use flowers_oss.Base.Text.{Text, leb}
use flowers_oss.Base.Dict
use flowers_oss.Base.Dict.{Dict}
use flowers_oss.Mandate.Counts.{count_at}
use flowers_oss.Mandate.Bounds.{count_at-insert}

-- `CircuitBreaker`
pub record CircuitBreaker : Type 0 where
  pub threshold : ℕ
  pub consecutive : Dict Text ℕ
  pub total_failures : Dict Text ℕ

-- `CircuitBreaker(threshold)`, for a threshold that is not negative
unfoldable pub new_breaker : ℕ → CircuitBreaker
new_breaker threshold = record {
  threshold = if leb 1 threshold then threshold else 1;
  consecutive = [];
  total_failures = [];
}

-- A call of a tool, and whether it succeeded.
pub record Use : Type 0 where
  pub tool : Text
  pub ok : Bool

-- `record`
unfoldable pub record_use : CircuitBreaker → Use → CircuitBreaker
record_use b u =
    if u.ok then record b { consecutive = Dict.insert u.tool 0 b.consecutive } else record b {
      consecutive = Dict.insert u.tool (count_at u.tool b.consecutive + 1) b.consecutive;
      total_failures = Dict.insert u.tool (count_at u.tool b.total_failures + 1) b.total_failures;
    }

unfoldable pub failures_of : CircuitBreaker → Text → ℕ
failures_of b tool = count_at tool b.total_failures

unfoldable pub tripped : CircuitBreaker → Text → Bool
tripped b tool = leb b.threshold (count_at tool b.consecutive)

-- The breaker after a history of calls, the newest first.
unfoldable pub after_uses : ℕ → List Use → CircuitBreaker
after_uses threshold [] = new_breaker threshold
after_uses threshold (u ∷ older) = record_use (after_uses threshold older) u

-- The calls of one tool.
unfoldable pub uses_of : Text → List Use → List Use
uses_of tool history = keep (λ u. tool == u.tool) history

-- The number of calls at the beginning that failed.
unfoldable pub run_of_failures : List Use → ℕ
run_of_failures [] = 0
run_of_failures (u ∷ us) = let rest = run_of_failures us in if u.ok then 0 else suc rest

count_at_nil : (tool : Text) → count_at tool [] ≡ 0
unfolding count_at Dict.lookup
count_at_nil tool = refl

threshold-after_uses :
    (threshold : ℕ) (history : List Use)
    → (after_uses threshold history).threshold ≡ (if leb 1 threshold then threshold else 1)
unfolding after_uses record_use new_breaker
threshold-after_uses threshold [] = refl
threshold-after_uses threshold (u ∷ older) = ground (arith, threshold-after_uses threshold older)

count_at-consecutive :
    (threshold : ℕ) (history : List Use) (tool : Text)
    → count_at tool (after_uses threshold history).consecutive
      ≡ run_of_failures (uses_of tool history)
unfolding after_uses record_use new_breaker run_of_failures uses_of
count_at-consecutive threshold [] tool = count_at_nil tool
count_at-consecutive threshold (u ∷ older) tool =
    let b = after_uses threshold older in
    ground (
      arith,
      count_at-consecutive threshold older tool,
      count_at-insert tool u.tool 0 b.consecutive,
      count_at-insert tool u.tool (count_at u.tool b.consecutive + 1) b.consecutive,
    )

count_at-total_failures :
    (threshold : ℕ) (history : List Use) (tool : Text)
    → count_at tool (after_uses threshold history).total_failures
      ≡ length (keep (λ u. not u.ok) (uses_of tool history))
unfolding after_uses record_use new_breaker uses_of
count_at-total_failures threshold [] tool = count_at_nil tool
count_at-total_failures threshold (u ∷ older) tool =
    let b = after_uses threshold older in
    ground (
      arith,
      count_at-total_failures threshold older tool,
      count_at-insert tool u.tool (count_at u.tool b.total_failures + 1) b.total_failures,
    )

-- A run of failures is at least as long as a bound exactly when that many latest calls are there and
-- all failed.
le-run_of_failures_iff :
    (n : ℕ) (us : List Use)
    → (n ≤ run_of_failures us) ↔ ((n ≤ length us) × (all (λ u. not u.ok) (take n us) ≡ true))
unfolding run_of_failures
le-run_of_failures_iff zero us = ground arith
le-run_of_failures_iff (suc n) [] = ground arith
le-run_of_failures_iff (suc n) (u ∷ us) = ground (arith, le-run_of_failures_iff n us)

-- After any history of calls, a tool is tripped exactly when its latest calls, as many as the
-- threshold and at least one, all failed, whatever was called in between; and the failures that are
-- counted for it are all of its failed calls.
pub tripped_iff :
    (threshold : ℕ) (history : List Use) (tool : Text)
    → let b = after_uses threshold history in
      let us = uses_of tool history in
      let n = if leb 1 threshold then threshold else 1 in
      ((tripped b tool ≡ true) ↔ ((n ≤ length us) × (all (λ u. not u.ok) (take n us) ≡ true)))
      × (failures_of b tool ≡ length (keep (λ u. not u.ok) us))
unfolding tripped failures_of
tripped_iff threshold history tool =
    let n = if leb 1 threshold then threshold else 1 in
    (
      ground (
        arith,
        threshold-after_uses threshold history,
        count_at-consecutive threshold history tool,
        le-run_of_failures_iff n (uses_of tool history),
      ),
      count_at-total_failures threshold history tool,
    )
