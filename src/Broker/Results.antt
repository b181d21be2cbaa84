-- ===== src/Broker/Results.antt =====
-- The results of flowers/broker.py, and the requests for approval that it makes.
use flowers_oss.Base.{
  Bool, true, Option, none, some, List, [], ◌∷◌, ◌++◌, ◌==◌, ◌||◌, ◌&&◌, ℕ, list_eq, nat_eq,
  if◌then◌else◌, is_empty, take, length, not,
}
use flowers_oss.Base.Text.{Text, str, upper, lower, strip, occurs, replace_char, join, ltb}
use flowers_oss.Base.Value
use flowers_oss.Base.Value.{Value, Fields, py_str, py_str_or_blank, or_value, truthy, decimal}
use flowers_oss.Policy.{Tier, never, tier_eq, action_label}
use flowers_oss.Types.Effect.{EffectRecord, no_detail}

pub data Status : Type 0 where
  ok needs_approval needs_auth refused error : Status

-- `ApprovalRequest`; its id, its time and its fields for escalations are not modelled.
pub record ApprovalRequest : Type 0 where
  pub run_id : Text
  pub kind : Text
  pub prompt : Text
  pub options : List Text
  pub tier : Tier
  pub effect_label : Text

-- A parked action, to be resumed.
pub record Pending : Type 0 where
  pub browser : Bool
  pub toolkit : Text
  pub action : Text
  pub params : Fields

-- `BrokerResult`, without the cost, which no integration call sets.
pub record BrokerResult : Type 0 where
  pub status : Status
  pub result : Value
  pub effect : EffectRecord
  pub approval : Option ApprovalRequest
  pub grant_key : Text
  pub pending : Option Pending
  pub auto_release_seconds : ℕ
  pub auth_url : Text
  pub error : Option Text

-- A result with a status and an effect, and the defaults.
abbrev pub result_of : Status → EffectRecord → BrokerResult
result_of status effect = record {
  status = status;
  result = Value.null;
  effect = effect;
  approval = none;
  grant_key = [];
  pending = none;
  auto_release_seconds = 0;
  auth_url = [];
  error = none;
}

-- An effect record of an integration action, with the defaults.
abbrev pub effect_of : Text → Text → Text → Text → Bool → Text → EffectRecord
effect_of toolkit action actor id side phase = record {
  toolkit = toolkit;
  action = action;
  side_effecting = some side;
  mutating = true;
  phase = phase;
  drift_present = none;
  expected_present = none;
  effect_kind = str "composio";
  verification = none;
  observer = none;
  actor = some actor;
  action_id = id;
  label = action_label toolkit action;
  detail = no_detail;
}

-- `str` of a list or a dict is a parameter.
module _ (repr : Value → Text) where
  -- `p.get(a) or p.get(b) or …`
  abbrev first_given : Fields → List Text → Value
  first_given params [] = Value.null
  first_given params (key ∷ []) = Value.get key params
  first_given params (key ∷ k ∷ keys) =
      or_value (Value.get key params) (first_given params (k ∷ keys))

  abbrev ask_with : Text → Value → Text → Text → Text
  ask_with before v after otherwise =
      if truthy v then before ++ (py_str repr v ++ after) else otherwise

  abbrev generic_ask : Text → Text
  generic_ask a =
      let verb = lower (strip (replace_char b'_' b' ' a)) in
      str "want me to go ahead and " ++ ((if is_empty verb then str "do that" else verb) ++ str "?")

  abbrev gmail_ask : Text → Fields → Text
  gmail_ask a params =
      if occurs (str "SEND") a
      then ask_with (str "want me to send this email to ")
          (first_given params
            (str "to" ∷ str "recipient" ∷ str "recipient_email" ∷ str "email" ∷ []))
          (str "?") (str "want me to send this email?")
      else if occurs (str "TRASH") a
      then str "want me to move that email to the trash?"
      else if occurs (str "LABEL") a
      then str "want me to label that email?"
      else generic_ask a

  abbrev calendar_ask : Text → Fields → Text
  calendar_ask a params =
      if occurs (str "CREATE") a || occurs (str "ADD") a
      then ask_with (str "want me to put '") (first_given params (str "summary" ∷ str "title" ∷ []))
          (str "' on your calendar?") (str "want me to add that to your calendar?")
      else if occurs (str "DELETE") a || occurs (str "REMOVE") a
      then str "want me to delete that calendar event?"
      else generic_ask a

  -- `_friendly_ask`
  unfoldable pub friendly_ask : Text → Text → Fields → Bool → Text
  friendly_ask toolkit action params irreversible =
      let a = upper action in
      let tk = lower toolkit in
      let question =
        if tk == str "gmail"
        then gmail_ask a params
        else if tk == str "googlecalendar" || tk == str "calendar"
        then calendar_ask a params
        else if tk == str "browser"
        then str "want me to go ahead and submit that on the site?"
        else generic_ask a in
      if irreversible then question ++ str " (heads up — this one can't be undone)" else question

  -- The text of an outbound message.
  abbrev body_of : Fields → Text
  body_of params =
      strip
        (py_str_or_blank repr (first_given params (str "body" ∷ str "text" ∷ str "message" ∷ [])))

  abbrev cut : ℕ → Text → Text
  cut n s = if ltb n (length s) then take n s ++ str "…" else s

  -- The prompt that asks for an action, with the message that would go out.
  unfoldable pub ask_prompt : Text → Text → Fields → Tier → Text
  ask_prompt toolkit action params tier =
      let question = friendly_ask toolkit action params (tier == never) in
      let body = body_of params in
      if is_empty body
      then question
      else question ++ (b'\n' ∷ b'\n' ∷ b'"' ∷ (cut 600 body ++ str "\""))

  abbrev draft_of : Text → Text → Text
  draft_of subject body =
      if not (is_empty subject) && not (is_empty body)
      then str "Subject: " ++ (subject ++ (b'\n' ∷ b'\n' ∷ body))
      else if not (is_empty body)
      then body
      else if not (is_empty subject)
      then subject
      else str "(an empty message)"

  -- The prompt of `_preview_send`, given the recipients.
  unfoldable pub preview_prompt : List Text → Fields → Text
  preview_prompt recipients params =
      let named = py_str_or_blank repr (first_given params (str "to" ∷ str "recipient" ∷ [])) in
      let to =
        if not (is_empty recipients)
        then join (str ", ") recipients
        else if is_empty named
        then str "them"
        else named in
      let subject = strip (py_str_or_blank repr (Value.get (str "subject") params)) in
      str "Here's what I'll send to "
      ++ (to
          ++ (str ":\n\n"
              ++ (cut 1200 (draft_of subject (body_of params)) ++ str "\n\n— send it?")))

  -- The prompt of `_queue_undo`.
  unfoldable pub undo_prompt : Fields → ℕ → Text
  undo_prompt params seconds =
      let target =
        py_str_or_blank repr (first_given params (str "to" ∷ str "target" ∷ str "url" ∷ [])) in
      str "heads up — sending this"
      ++ ((if is_empty target then [] else str " to " ++ target)
          ++ (str " in " ++ (decimal seconds ++ str "s. reply STOP to hold off.")))
