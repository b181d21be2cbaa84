-- ===== src/Policy.antt =====
-- flowers/policy.py: the tiers of actions, and the two categorical refusals.
mod Vocabulary
mod Money
mod Content
pub mod Laws
mod Tests
pub use Vocabulary.{Tier, auto, ask, never, refuse}
unfoldable pub use Vocabulary.{tier_eq}
unfoldable pub use Money.{norm_action, norm_toolkit, action_tokens, is_money_action}
unfoldable pub use Content.{alnum_tokens, is_disallowed_text, is_disallowed_content}
use flowers_oss.Base.{
  Bool, true, false, not, ◌||◌, Option, none, some, List, [], ◌∷◌, ◌++◌, ◌==◌, contains, list_eq,
  nat_eq, if◌then◌else◌, meets,
}
use flowers_oss.Base.Text.{Text, str, has_char, partition}
use flowers_oss.Base.Dict
use flowers_oss.Base.Dict.{Dict}
use Vocabulary.{
  read_verbs, egress_verbs, never_verbs, ask_verbs, browser_read_actions, policy_table,
}

-- f"{toolkit}:{action}"
abbrev pub action_label : Text → Text → Text
action_label toolkit action = toolkit ++ (b':' ∷ action)

-- Owner overrides: a toolkit, or a toolkit and an action, to a word.
abbrev pub Overrides : Type 0
Overrides = Dict Text Text

abbrev norm_key : Text → Text
norm_key key =
    let (toolkit, action) = partition b':' key in
    if has_char b':' key
    then action_label (norm_toolkit toolkit) (norm_action action)
    else norm_toolkit key

normalize_onto : Overrides → Overrides → Overrides
normalize_onto norm [] = norm
normalize_onto norm ((key, word) ∷ overrides) =
    normalize_onto (Dict.insert (norm_key key) word norm) overrides

-- `_normalize_overrides`
unfoldable pub normalize_overrides : Overrides → Overrides
unfolding normalize_onto
normalize_overrides overrides = normalize_onto [] overrides

unfoldable pub is_refused : Text → Text → Bool
is_refused toolkit action = is_money_action toolkit action || is_disallowed_content toolkit action

-- `_verb_tier`
unfoldable pub verb_tier : Text → Tier
verb_tier action =
    let tokens = action_tokens action in
    if is_money_action [] action
    then never
    else if meets tokens never_verbs
    then never
    else if meets tokens egress_verbs
    then ask
    else if meets tokens ask_verbs
    then ask
    else if meets tokens read_verbs
    then auto
    else ask

-- `_browser_tier`
unfoldable pub browser_tier : Text → Tier
browser_tier action =
    if is_money_action (str "browser") action || meets (action_tokens action) never_verbs
    then never
    else if contains browser_read_actions (norm_action action)
    then auto
    else ask

abbrev or_else : Option Tier → Tier → Tier
or_else none t = t
or_else (some t) _ = t

-- The tier that the built-in rules give to a normalized action that is not refused.
unfoldable pub natural_tier : Text → Text → Tier
natural_tier toolkit action =
    or_else (Dict.lookup (toolkit ∷ action ∷ []) policy_table)
      (if toolkit == str "browser" then browser_tier action else verb_tier action)

-- Whether a word is one of `_TIERS`, and which.
unfoldable pub tier_word : Text → Option Tier
tier_word word =
    if word == str "auto"
    then some auto
    else if word == str "ask"
    then some ask
    else if word == str "never"
    then some never
    else none

abbrev configured : Option Text → Option Tier
configured none = none
configured (some word) = tier_word word

abbrev first_of_two : Option Tier → Option Tier → Option Tier
first_of_two (some t) _ = some t
first_of_two none o = o

-- The override that applies: that of the action, or else that of the toolkit.
unfoldable pub find_override : Overrides → Text → Text → Option Tier
find_override overrides toolkit action =
    first_of_two (configured (Dict.lookup (action_label toolkit action) overrides))
      (configured (Dict.lookup toolkit overrides))

abbrev apply_override : Tier → Option Tier → Tier
apply_override natural none = natural
apply_override never (some _) = never
apply_override _ (some override) = override

unfoldable pub classify : Text → Text → Overrides → Tier
classify toolkit action overrides =
    let tk = norm_toolkit toolkit in
    let act = norm_action action in
    if is_refused tk act
    then refuse
    else apply_override (natural_tier tk act) (find_override (normalize_overrides overrides) tk act)

unfoldable pub is_side_effecting : Text → Text → Overrides → Bool
unfolding tier_eq
is_side_effecting toolkit action overrides = not (classify toolkit action overrides == auto)

-- `_NONMUTATING_ACTIONS` is empty, so every action that is side-effecting is mutating.
unfoldable pub is_mutating : Text → Text → Bool
is_mutating toolkit action = is_side_effecting toolkit action []
