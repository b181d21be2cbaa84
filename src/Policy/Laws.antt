-- ===== src/Policy/Laws.antt =====
-- `classify` of flowers/policy.py under the owner's overrides.
use flowers_oss.Base.{◌≡◌, refl, ◌≢◌, ◌↔◌, true, none, some, [], arith}
use flowers_oss.Base.Text.{Text}
use flowers_oss.Base.Dict
use flowers_oss.Policy.{
  auto, ask, never, refuse, Overrides, classify, is_refused, natural_tier, verb_tier, browser_tier,
  norm_toolkit, norm_action, find_override, normalize_overrides, tier_word, is_side_effecting,
}

verb_tier-ne-refuse : (action : Text) → verb_tier action ≢ refuse
unfolding verb_tier
verb_tier-ne-refuse action = ground arith

browser_tier-ne-refuse : (action : Text) → browser_tier action ≢ refuse
unfolding browser_tier
browser_tier-ne-refuse action = ground arith

pub natural_tier-ne-refuse : (toolkit action : Text) → natural_tier toolkit action ≢ refuse
unfolding natural_tier Dict.lookup
natural_tier-ne-refuse toolkit action =
    ground (arith, verb_tier-ne-refuse action, browser_tier-ne-refuse action)

tier_word-ne-refuse : (word : Text) → tier_word word ≢ some refuse
unfolding tier_word
tier_word-ne-refuse word = ground arith

find_override-ne-refuse :
    (overrides : Overrides) (toolkit action : Text)
    → find_override overrides toolkit action ≢ some refuse
unfolding find_override
find_override-ne-refuse overrides toolkit action = grind (arith, tier_word-ne-refuse)

-- An action is classified as refused exactly when its normalized form is a categorical refusal,
-- whatever the owner has configured.
pub classify-eq-refuse_iff :
    (toolkit action : Text) (overrides : Overrides)
    → (classify toolkit action overrides ≡ refuse)
      ↔ (is_refused (norm_toolkit toolkit) (norm_action action) ≡ true)
unfolding classify
classify-eq-refuse_iff toolkit action overrides = ground (
  arith,
  natural_tier-ne-refuse (norm_toolkit toolkit) (norm_action action),
  find_override-ne-refuse (normalize_overrides overrides) (norm_toolkit toolkit)
      (norm_action action),
)

-- An action that is irreversible without overrides stays so under any overrides.
pub classify_never_floor :
    (toolkit action : Text) (overrides : Overrides)
    → classify toolkit action [] ≡ never
    → classify toolkit action overrides ≡ never
unfolding classify normalize_overrides find_override Dict.lookup
classify_never_floor toolkit action overrides h = ground arith

find_override-nil :
    (toolkit action : Text) → find_override (normalize_overrides []) toolkit action ≡ none
unfolding normalize_overrides find_override Dict.lookup
find_override-nil toolkit action = refl

-- If the overrides change the tier of an action, the new tier is the one that the owner's entry
-- for the action names, or else the one that the entry for its toolkit names.
pub classify_changed :
    (toolkit action : Text) (overrides : Overrides)
    → classify toolkit action overrides ≢ classify toolkit action []
    → find_override (normalize_overrides overrides) (norm_toolkit toolkit) (norm_action action)
      ≡ some (classify toolkit action overrides)
unfolding classify
classify_changed toolkit action overrides h =
    ground (arith, find_override-nil (norm_toolkit toolkit) (norm_action action))

-- An action that needs verification without overrides either needs it under them too, or is one
-- that an owner's entry declares automatic; and then it was not irreversible.
pub is_side_effecting_waived :
    (toolkit action : Text) (overrides : Overrides)
    → is_side_effecting toolkit action [] ≡ true
    → is_side_effecting toolkit action overrides ≢ true
    → (find_override (normalize_overrides overrides) (norm_toolkit toolkit) (norm_action action)
        ≡ some auto)
      × (classify toolkit action [] ≡ ask)
unfolding is_side_effecting classify
is_side_effecting_waived toolkit action overrides h w = ground (
  arith,
  find_override-nil (norm_toolkit toolkit) (norm_action action),
  natural_tier-ne-refuse (norm_toolkit toolkit) (norm_action action),
)
