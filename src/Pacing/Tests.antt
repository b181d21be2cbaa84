-- ===== src/Pacing/Tests.antt =====
-- The theorem on the circuit breaker of flowers/engine/scheduler.py at a short history.
use flowers_oss.Base.{
  ◌≡◌, refl, ◌≤◌, ◌↔◌, Bool, true, false, not, List, [], ◌∷◌, all, keep, length, take, list_eq,
  nat_eq,
}
use flowers_oss.Base.Text.{Text, str}
use flowers_oss.Base.Dict
use flowers_oss.Mandate.Counts.{count_at}
use flowers_oss.Pacing.{
  Use, new_breaker, record_use, after_uses, uses_of, tripped, failures_of, tripped_iff,
}

abbrev call : Text → Bool → Use
call tool ok = record { tool = tool; ok = ok }

-- The newest call is the first.
abbrev history : List Use
history =
    call (str "search") false
    ∷ call (str "fetch") true
    ∷ call (str "search") false
    ∷ call (str "search") true
    ∷ []

trips :
    (tripped (after_uses 2 history) (str "search") ≡ true)
    × (tripped (after_uses 3 history) (str "search") ≡ false)
    × (tripped (after_uses 0 history) (str "fetch") ≡ false)
unfolding tripped after_uses record_use new_breaker count_at Dict.insert Dict.lookup list_eq nat_eq
trips = (refl, refl, refl)

tripped_iff_example :
    ((tripped (after_uses 2 history) (str "search") ≡ true) ↔ (
      (2 ≤ length (uses_of (str "search") history))
      × (all (λ u. not u.ok) (take 2 (uses_of (str "search") history)) ≡ true)))
    × (failures_of (after_uses 2 history) (str "search")
        ≡ length (keep (λ u. not u.ok) (uses_of (str "search") history)))
tripped_iff_example = tripped_iff 2 history (str "search")
