-- ===== src/Mandate/Authority.antt =====
-- The grants and the parsed mandates of flowers/mandate.py, against what they are made from.
use flowers_oss.Base.{
  ℕ, ◌≤◌, ◌≡◌, ◌≢◌, Bool, true, not, ◌&&◌, ◌==◌, some, List, [], list_eq, nat_eq, all, length,
  arith,
}
use flowers_oss.Base.Text.{Text, partition}
use flowers_oss.Policy.{never, classify, is_refused, tier_eq}
use flowers_oss.Base.Value
use flowers_oss.Base.Value.{ℤ, Value, Fields}
use flowers_oss.Mandate.Scope.{is_recipient_bearing}
use flowers_oss.Mandate.Counts.{Mandate, new_counts, caps, cap, py_int}
use flowers_oss.Mandate.Bounds.{Request, grant_all, grant_all_bounded}
use flowers_oss.Mandate.Goal.{Goal}
use flowers_oss.Mandate.Grant.{owner_grant, caps_of}

max_sends-caps_of : (n k : ℕ) → 1 ≤ n → (caps (caps_of n n k)).max_sends ≤ n
unfolding caps cap py_int Value.get list_eq nat_eq
max_sends-caps_of n k h = ground arith

-- An action, as `toolkit:action`, that is neither refused nor irreversible.
abbrev pub is_admissible : Text → Bool
is_admissible label =
    let (tk, act) = partition b':' label in
    not (is_refused tk act) && not (classify tk act [] == never)

-- An action, as `toolkit:action`, that delivers a message.
abbrev pub is_delivery : Text → Bool
is_delivery label = let (tk, act) = partition b':' label in is_recipient_bearing tk act

module _ (repr : Value → Text) where
  owner_grant-caps :
      (proposed m : Mandate) (goal : Goal)
      → owner_grant repr (some proposed) goal ≡ some m
      → (caps m.magnitude_caps).max_sends ≤ length m.recipient_scope
  unfolding owner_grant
  owner_grant-caps proposed m goal h =
      ground (arith, max_sends-caps_of (length m.recipient_scope) 1)

  -- Whatever requests are made under a mandate that the owner's words grant, it lets through no more
  -- sends than the owner named addresses in its scope.
  pub owner_grant_bounded :
      (params_digest : Fields → Text) (proposed m : Mandate) (goal : Goal) (rs : List Request)
      → owner_grant repr (some proposed) goal ≡ some m
      → (grant_all repr params_digest m rs new_counts).0 ≤ length m.recipient_scope
  owner_grant_bounded params_digest proposed m goal rs h =
      omega
        (arith, owner_grant-caps proposed m goal h, (grant_all_bounded repr params_digest m rs).0)

  -- What `parse_mandate` promises of a mandate.
  pub record IsSound (m : Mandate) : Type 0 where
    pub some_action : m.action_types ≢ []
    pub all_admissible : all is_admissible m.action_types ≡ true
    pub actions_bound : length m.action_types ≤ 32
    pub scope_bound : length m.recipient_scope ≤ 128
