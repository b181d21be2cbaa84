-- ===== src/Policy/Tests.antt =====
-- Runs of the policy at concrete actions, and its theorems at concrete data.
use flowers_oss.Policy.Laws.{classify_never_floor, classify-eq-refuse_iff}
use flowers_oss.Base.{◌≡◌, refl, ◌≢◌, ◌↔◌, true, false, [], ◌∷◌, list_eq, nat_eq}
use flowers_oss.Base.Text.{Text, str, has_char, partition}
use flowers_oss.Base.Dict
use flowers_oss.Policy.{
  is_side_effecting, auto, ask, never, refuse, Overrides, classify, is_money_action,
  is_disallowed_text, verb_tier, browser_tier, natural_tier, tier_word, find_override,
  normalize_overrides, is_refused, norm_action, norm_toolkit, action_tokens, is_disallowed_content,
  Tier,
}

tier_of : Text → Text → Overrides → Tier
unfolding classify is_refused natural_tier verb_tier browser_tier tier_word find_override
    normalize_overrides is_money_action is_disallowed_content norm_action norm_toolkit action_tokens
    has_char partition Dict.lookup Dict.insert list_eq nat_eq
tier_of = classify

tiers :
    (tier_of (str "Gmail ") (str "gmail_send_email") [] ≡ ask)
    × (tier_of (str "gmail") (str "GMAIL_DELETE_MESSAGE") [] ≡ never)
    × (tier_of (str "stripe") (str "GET_CHARGE") [] ≡ refuse)
    × (tier_of (str "github") (str "LIST_REPOS") [] ≡ auto)
    × (tier_of (str "browser") (str "click") [] ≡ auto)
    × (tier_of (str "github") (str "LIST_REPOS") ((str "GitHub:list_repos", str "never") ∷ [])
        ≡ never)
unfolding tier_of
tiers = (refl, refl, refl, refl, refl, refl)

money :
    (is_money_action (str "x") (str "PAY_INVOICE") ≡ true)
    × (is_money_action (str "x") (str "GET_PAYLOAD") ≡ false)
    × (is_money_action (str "x") (str "check-out") ≡ true)
    × (is_money_action (str "x") (str "CHARGE_CARD") ≡ true)
    × (is_money_action (str "x") (str "TRANSFER_FILE") ≡ false)
unfolding is_money_action
money = (refl, refl, refl, refl, refl)

content :
    (is_disallowed_text (str "research the dark web") ≡ false)
    × (is_disallowed_text (str "Visit abc.ONION") ≡ true)
    × (is_disallowed_text (str "buy some cocaine") ≡ true)
unfolding is_disallowed_text
content = (refl, refl, refl)

abbrev lowered : Overrides
lowered = (str "gmail", str "auto") ∷ []

delete_never : classify (str "gmail") (str "DELETE_MESSAGE") [] ≡ never
unfolding tier_of
delete_never = refl

classify_never_floor_example : classify (str "gmail") (str "DELETE_MESSAGE") lowered ≡ never
classify_never_floor_example =
    classify_never_floor (str "gmail") (str "DELETE_MESSAGE") lowered delete_never

classify-eq-refuse_iff_example :
    (classify (str "Stripe") (str "list_charges") lowered ≡ refuse)
    ↔ (is_refused (norm_toolkit (str "Stripe")) (norm_action (str "list_charges")) ≡ true)
classify-eq-refuse_iff_example = classify-eq-refuse_iff (str "Stripe") (str "list_charges") lowered

send_changed :
    classify (str "gmail") (str "SEND_EMAIL") lowered ≢ classify (str "gmail") (str "SEND_EMAIL") []
unfolding tier_of
send_changed p = cc

send_side : is_side_effecting (str "gmail") (str "SEND_EMAIL") [] ≡ true
unfolding is_side_effecting tier_of
send_side = refl

send_waived : is_side_effecting (str "gmail") (str "SEND_EMAIL") lowered ≢ true
unfolding is_side_effecting tier_of
send_waived p = cc
