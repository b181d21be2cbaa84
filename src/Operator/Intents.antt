-- ===== src/Operator/Intents.antt =====
-- What the owner's reply to an escalation leads to: `_deterministic_intent`,
-- `_classify_escalation_reply` and `_resume_escalated` of flowers/engine/operator.py.
use flowers_oss.Base.{
  ℕ, ◌≡◌, refl, Bool, true, false, not, ◌&&◌, ◌||◌, Option, none, some, List, [], ◌∷◌, ◌==◌,
  contains, list_eq, nat_eq, length, is_empty, if◌then◌else◌, Bool-cases, ◌⊎◌, inl, inr,
}
use flowers_oss.Base.Text.{Text, str, words, strip, lower, is_space, runs, same, leb}
use flowers_oss.Base.Value.{Value, get}
use flowers_oss.Channels.{Decision, no_reply, parse_answer, rstrip}

pub data Intent : Type 0 where
  confirmed denied retry stop guidance : Intent

-- `_STOP_WORDS`
abbrev stop_words : List Text
stop_words = words ("stop" ∷ "leave it" ∷ "nevermind" ∷ "never mind" ∷ "drop it" ∷ "forget it" ∷ [])

-- `_RETRY_WORDS`
abbrev retry_words : List Text
retry_words =
    words ("retry" ∷ "try again" ∷ "resend" ∷ "re-send" ∷ "send it again" ∷ "send again" ∷ [])

-- `_CONFIRM_WORDS`, with two check marks and a thumbs-up
abbrev confirm_words : List Text
confirm_words =
    (0x2713 ∷ [])
    ∷ (0x2714 ∷ [])
    ∷ (0x1F44D ∷ [])
    ∷ words (
        "it was sent" ∷ "sent" ∷ "it sent" ∷ "got it" ∷ "it worked" ∷ "worked" ∷ "all good"
        ∷ "yes it went through" ∷ "it went through" ∷ "went through" ∷ "received" ∷ "it arrived"
        ∷ [])

-- `_DENY_WORDS`
abbrev deny_words : List Text
deny_words = words (
    "nothing arrived" ∷ "didn't get it" ∷ "didnt get it" ∷ "no email here" ∷ "never arrived"
    ∷ "didn't arrive" ∷ "didnt arrive" ∷ "nothing here" ∷ "never got it" ∷ "didn't come through"
    ∷ "didnt come through" ∷ [])

-- `_YES_WORDS`
abbrev yes_words : List Text
yes_words = words ("yes" ∷ "yep" ∷ "yeah" ∷ "yup" ∷ "ya" ∷ [])

-- `_NO_WORDS`
abbrev no_words : List Text
no_words = words ("no" ∷ "nope" ∷ "nah" ∷ "n" ∷ [])

abbrev is_no : Decision → Bool
is_no no_reply = true
is_no _ = false

abbrev pub asks_owner : Text → Bool
asks_owner reason_code = reason_code == str "needs_owner_confirm"

-- The escalations that are about a send.
unfoldable pub is_send_confirm : Text → Bool
unfolding list_eq nat_eq
is_send_confirm reason_code =
    reason_code == str "needs_owner_confirm" || reason_code == str "reverify_proven_missing"

abbrev intent_of : Value → Option Intent
intent_of (Value.text s) =
    if s == str "confirmed"
    then some confirmed
    else if s == str "denied"
    then some denied
    else if s == str "retry"
    then some retry
    else if s == str "stop"
    then some stop
    else if s == str "guidance"
    then some guidance
    else none
intent_of _ = none

-- The intent that the model answered; none is an exception, of the call or of the parser.
abbrev modelled_intent : Option Value → Option Intent
modelled_intent (some (Value.object d)) = intent_of (get (str "intent") d)
modelled_intent _ = none

abbrev intent_or : Option Intent → Intent → Intent
intent_or none other = other
intent_or (some i) other = i

-- What `_resume_escalated` does next.
pub data Next : Type 0 where
  wait : Next
  close : Next
  attest : Next
  resend : Bool → Next
  replan : Next

abbrev dispatch : Bool → Intent → Next
dispatch send stop = close
dispatch true confirmed = attest
dispatch true denied = resend true
dispatch true retry = resend false
dispatch send _ = replan

dispatch_no_send : (i : Intent) → (dispatch false i ≡ close) ⊎ (dispatch false i ≡ replan)
dispatch_no_send stop = inl refl
dispatch_no_send confirmed = inr refl
dispatch_no_send denied = inr refl
dispatch_no_send retry = inr refl
dispatch_no_send guidance = inr refl

dispatch_guidance : (send : Bool) → dispatch send guidance ≡ replan
dispatch_guidance true = refl
dispatch_guidance false = refl

-- `str.isalnum` of a character is a parameter.
module _ (isalnum : ℕ → Bool) where
  -- `_deterministic_intent`
  unfoldable pub deterministic_intent : Text → Text → Option Intent
  unfolding strip lower rstrip parse_answer runs list_eq nat_eq
  deterministic_intent ans reason_code =
      let t = rstrip (λ c. same c b'.' || same c b'!') (lower (strip ans)) in
      if is_empty t
      then none
      else if contains retry_words t
      then some retry
      else if contains confirm_words t
      then some confirmed
      else if contains deny_words t
      then some denied
      else if asks_owner reason_code && contains no_words t
      then some denied
      else if contains stop_words t
          || is_no (parse_answer isalnum ans) && leb (length (runs (λ c. not (is_space c)) ans)) 3
      then some stop
      else if contains yes_words t && asks_owner reason_code
      then some confirmed
      else none

  -- `_classify_escalation_reply`, given what the model answers.
  unfoldable pub classify_reply : Text → Text → Option Value → Intent
  unfolding deterministic_intent get list_eq nat_eq
  classify_reply ans reason_code answer =
      intent_or (deterministic_intent ans reason_code) (intent_or (modelled_intent answer) guidance)

  -- `_resume_escalated` up to what it calls.
  unfoldable pub resume_escalated : Option Text → Text → Option Value → Next
  unfolding classify_reply is_send_confirm strip
  resume_escalated none reason_code answer = wait
  resume_escalated (some ans) reason_code answer =
      if is_empty (strip ans)
      then wait
      else dispatch (is_send_confirm reason_code) (classify_reply ans reason_code answer)

  -- Whatever the owner wrote and the model answered, an escalation that is not about a send leads to
  -- more waiting, to closing the run or to a replan, and never to an attestation or a resend.
  pub resume_escalated_safe :
      (ans : Text) (reason_code : Text) (answer : Option Value)
      → is_send_confirm reason_code ≡ false
      → (resume_escalated (some ans) reason_code answer ≡ wait)
        ⊎ (resume_escalated (some ans) reason_code answer ≡ close)
        ⊎ (resume_escalated (some ans) reason_code answer ≡ replan)
  unfolding resume_escalated
  resume_escalated_safe ans reason_code answer other = elim (Bool-cases (is_empty (strip ans))) [
    | inl e ↦ inl (rw e refl)
    | inr e ↦ inr (rw (e, other) (dispatch_no_send (classify_reply ans reason_code answer)))
  ]

  -- Where no shortcut fits and the model fails, any escalation leads to a replan.
  resume_escalated_default :
      (ans : Text) (reason_code : Text)
      → deterministic_intent ans reason_code ≡ none
      → is_empty (strip ans) ≡ false
      → resume_escalated (some ans) reason_code none ≡ replan
  unfolding resume_escalated classify_reply
  resume_escalated_default ans reason_code e given =
      rw (given, e) (dispatch_guidance (is_send_confirm reason_code))
