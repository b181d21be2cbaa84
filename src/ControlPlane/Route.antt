-- ===== src/ControlPlane/Route.antt =====
-- `_is_ack` and `classify` of flowers/controlplane.py.
use flowers_oss.Base.{
  ℕ, ◌≡◌, Bool, true, false, not, ◌&&◌, ◌||◌, Option, none, some, List, [], ◌∷◌, ◌==◌, contains,
  list_eq, nat_eq, any, is_empty, if◌then◌else◌, arith,
}
use flowers_oss.Base.Text.{Text, str, words, strip, lower, drop_while, same}
use flowers_oss.Base.Value.{ℤ, Value}
use flowers_oss.Channels.{rstrip}

-- `_ACK_WORDS`
abbrev pub ack_words : List Text
ack_words = words (
    "thanks" ∷ "thank you" ∷ "thank u" ∷ "thanks so much" ∷ "thx" ∷ "ty" ∷ "tysm" ∷ "ok" ∷ "okay"
    ∷ "k" ∷ "kk" ∷ "cool" ∷ "got it" ∷ "gotit" ∷ "gotcha" ∷ "nice" ∷ "great" ∷ "awesome" ∷ "sweet"
    ∷ "perfect" ∷ "sounds good" ∷ "good" ∷ "np" ∷ "no worries" ∷ "cheers" ∷ "word" ∷ "bet" ∷ "roger"
    ∷ "aight" ∷ "alright" ∷ "love it" ∷ "amazing" ∷ [])

pub data Intent : Type 0 where
  task reply chat : Intent

-- What `classify` returns; the number is that of the task that a reply answers.
pub record Route : Type 0 where
  pub intent : Intent
  pub n : Option ℤ

abbrev pub default_route : Route
default_route = record { intent = task; n = none }

-- What the model gives for the number: nothing or null; an int, or a bool, which counts as one; a float,
-- with the int that it equals, if any; or a value that equals no number.
pub data Number : Type 0 where
  absent : Number
  whole : ℤ → Number
  real : Option ℤ → Number
  no_number : Number

-- The dict that the model answered, at the two keys that are read.
pub record Answer : Type 0 where
  pub intent : Value
  pub n : Number

-- `n if isinstance(n, int) else None`
abbrev as_int : Number → Option ℤ
as_int (whole z) = some z
as_int _ = none

abbrev equal_int : Number → Option ℤ
equal_int (whole z) = some z
equal_int (real z) = z
equal_int _ = none

-- `n in valid_ns`; a list or a dict raises there, which leads to the same fallback.
abbrev listed : List ℕ → Option ℤ → Bool
listed ns (some (ℤ.pos k)) = contains ns k
listed ns _ = false

abbrev intent_of : Value → Option Intent
intent_of (Value.text s) =
    if s == str "task"
    then some task
    else if s == str "reply"
    then some reply
    else if s == str "chat"
    then some chat
    else none
intent_of _ = none

-- `str.isalnum` of a character is a parameter.
module _ (isalnum : ℕ → Bool) where
  -- `_is_ack`
  unfoldable pub is_ack : Text → Bool
  unfolding strip lower rstrip drop_while list_eq nat_eq
  is_ack text =
      let t = strip (rstrip (λ c. same c b'!' || same c b'.') (lower (strip text))) in
      if is_empty t then false else if not (any isalnum t) then true else contains ack_words t

  -- The two fallbacks: an acknowledgment never starts a task.
  abbrev fallback : Text → Route
  fallback text = if is_ack text then record { intent = chat; n = none } else default_route

  abbrev routed : Text → List ℕ → Number → Option Intent → Route
  routed text ns n none = default_route
  routed text ns n (some reply) =
      if listed ns (equal_int n) then record { intent = reply; n = as_int n } else fallback text
  routed text ns n (some i) = record { intent = i; n = as_int n }

  abbrev answered : Text → List ℕ → Option Answer → Route
  answered text ns (some a) = routed text ns a.n (intent_of a.intent)
  answered text ns none = fallback text

  -- `classify`: the numbers of the active tasks, and what the model answered; none is an exception,
  -- of the call or of the parser, and an answer that is no dict raises one too.
  unfoldable pub classify : Text → List ℕ → Option Answer → Route
  unfolding is_ack strip list_eq nat_eq
  classify text ns answer = if is_empty (strip text) then default_route else answered text ns answer

  -- Where the model fails, a message that is not blank becomes a chat if it is an acknowledgment, and
  -- any other message a task.
  classify_fallback :
      (text : Text) (ns : List ℕ)
      → (classify text ns none).intent
        ≡ (if not (is_empty (strip text)) && is_ack text then chat else task)
  unfolding classify
  classify_fallback text ns = ground arith
