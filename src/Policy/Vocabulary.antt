-- ===== src/Policy/Vocabulary.antt =====
-- The tiers and the word lists of flowers/policy.py.
use flowers_oss.Base.{List, [], ◌∷◌, Eq}
use flowers_oss.Base.Text.{Text, words}
use flowers_oss.Base.Dict.{Dict}

pub data Tier : Type 0 where
  auto ask never refuse : Tier

Tier-discrete : Discrete Tier
Tier-discrete = hlevel

instance unfoldable pub tier_eq : Eq Tier
unfolding Tier-discrete
tier_eq = record { dec = Tier-discrete }

abbrev pub read_verbs : List Text
read_verbs = words (
    "get" ∷ "list" ∷ "fetch" ∷ "read" ∷ "search" ∷ "find" ∷ "retrieve" ∷ "view" ∷ "describe"
    ∷ "count" ∷ "check" ∷ "lookup" ∷ "query" ∷ "status" ∷ "info" ∷ "show" ∷ "analyze" ∷ "inspect"
    ∷ [])

abbrev pub egress_verbs : List Text
egress_verbs = words (
    "export" ∷ "download" ∷ "sync" ∷ "dump" ∷ "backup" ∷ "scrape" ∷ "crawl" ∷ "bulk" ∷ "extract"
    ∷ [])

abbrev pub never_verbs : List Text
never_verbs = words (
    "delete" ∷ "remove" ∷ "destroy" ∷ "drop" ∷ "purge" ∷ "erase" ∷ "wipe" ∷ "pay" ∷ "charge"
    ∷ "purchase" ∷ "buy" ∷ "refund" ∷ "transfer" ∷ "wire" ∷ "payout" ∷ "checkout" ∷ "deactivate"
    ∷ "revoke" ∷ "terminate" ∷ "uninstall" ∷ "unsubscribe" ∷ [])

abbrev pub ask_verbs : List Text
ask_verbs = words (
    "send" ∷ "create" ∷ "update" ∷ "post" ∷ "write" ∷ "add" ∷ "insert" ∷ "modify" ∷ "edit" ∷ "set"
    ∷ "move" ∷ "archive" ∷ "reply" ∷ "forward" ∷ "share" ∷ "invite" ∷ "assign" ∷ "close" ∷ "merge"
    ∷ "publish" ∷ "upload" ∷ "schedule" ∷ "trigger" ∷ "execute" ∷ "approve" ∷ "comment" ∷ "label"
    ∷ "mark" ∷ "star" ∷ "react" ∷ "draft" ∷ "enable" ∷ "disable" ∷ "rename" ∷ [])

abbrev pub browser_read_actions : List Text
browser_read_actions = words (
    "NAVIGATE" ∷ "GOTO" ∷ "GO" ∷ "OPEN" ∷ "VISIT" ∷ "CLICK" ∷ "TYPE" ∷ "FILL" ∷ "SELECT" ∷ "CHECK"
    ∷ "SCROLL" ∷ "HOVER" ∷ "WAIT" ∷ "READ" ∷ "EXTRACT" ∷ "FIND" ∷ "SEARCH" ∷ "SCREENSHOT" ∷ "GET"
    ∷ "VIEW" ∷ "BACK" ∷ "INSPECT" ∷ "OBSERVE" ∷ "ELEMENTS" ∷ "CANDIDATES" ∷ [])

-- The pinned actions, keyed by toolkit and action.
abbrev pub policy_table : Dict (List Text) Tier
policy_table =
    (words ("gmail" ∷ "GMAIL_DELETE_MESSAGE" ∷ []), never)
    ∷ (words ("gmail" ∷ "GMAIL_DELETE_DRAFT" ∷ []), ask)
    ∷ (words ("gmail" ∷ "GMAIL_TRASH_MESSAGE" ∷ []), ask)
    ∷ (words ("gmail" ∷ "GMAIL_ADD_LABEL" ∷ []), ask)
    ∷ (words ("gmail" ∷ "GMAIL_SEND_EMAIL" ∷ []), ask)
    ∷ []

abbrev pub money_phrases : List (List Text)
money_phrases =
    words ("wire" ∷ "transfer" ∷ [])
    ∷ words ("bank" ∷ "transfer" ∷ [])
    ∷ words ("transfer" ∷ "funds" ∷ [])
    ∷ words ("transfer" ∷ "money" ∷ [])
    ∷ words ("transfer" ∷ "balance" ∷ [])
    ∷ words ("send" ∷ "money" ∷ [])
    ∷ words ("charge" ∷ "card" ∷ [])
    ∷ words ("charge" ∷ "payment" ∷ [])
    ∷ []

abbrev pub money_toolkits : List Text
money_toolkits = words (
    "stripe" ∷ "paypal" ∷ "plaid" ∷ "wise" ∷ "venmo" ∷ "square" ∷ "cashapp" ∷ "braintree" ∷ "adyen"
    ∷ "dwolla" ∷ "coinbase" ∷ [])

abbrev pub disallowed_markers : List Text
disallowed_markers = words (".onion" ∷ "child porn" ∷ "child sexual abuse" ∷ "csam" ∷ [])

abbrev pub illicit_verbs : List Text
illicit_verbs = words (
    "buy" ∷ "order" ∷ "purchase" ∷ "acquire" ∷ "procure" ∷ "source" ∷ "obtain" ∷ "sell" ∷ "resell"
    ∷ "traffic" ∷ "smuggle" ∷ "access" ∷ "browse" ∷ "enter" ∷ "reach" ∷ "navigate" ∷ "visit"
    ∷ "connect" ∷ "login" ∷ "build" ∷ "make" ∷ "synthesize" ∷ "manufacture" ∷ "produce" ∷ "assemble"
    ∷ "hire" ∷ "launder" ∷ [])

abbrev pub illicit_objects : List Text
illicit_objects = words (
    "cocaine" ∷ "heroin" ∷ "fentanyl" ∷ "meth" ∷ "methamphetamine" ∷ "mdma" ∷ "ecstasy" ∷ "lsd"
    ∷ "ketamine" ∷ "narcotics" ∷ "darknet" ∷ "darkweb" ∷ "bomb" ∷ "explosive" ∷ "explosives"
    ∷ "grenade" ∷ "dynamite" ∷ "hitman" ∷ "hitmen" ∷ [])

abbrev pub illicit_phrases : List (List Text)
illicit_phrases =
    words ("dark" ∷ "web" ∷ [])
    ∷ words ("silk" ∷ "road" ∷ [])
    ∷ words ("ghost" ∷ "gun" ∷ [])
    ∷ words ("untraceable" ∷ "firearm" ∷ [])
    ∷ words ("fake" ∷ "passport" ∷ [])
    ∷ words ("counterfeit" ∷ "money" ∷ [])
    ∷ words ("stolen" ∷ "cards" ∷ [])
    ∷ words ("stolen" ∷ "identities" ∷ [])
    ∷ words ("hire" ∷ "hitman" ∷ [])
    ∷ words ("launder" ∷ "money" ∷ [])
    ∷ []
