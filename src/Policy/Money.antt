-- ===== src/Policy/Money.antt =====
-- Money detection of flowers/policy.py: a payment toolkit, a spend verb, or a financial phrase.
use flowers_oss.Base.{
  ℕ, Bool, true, false, not, ◌&&◌, ◌||◌, List, [], ◌∷◌, ◌++◌, contains, list_eq, nat_eq,
  if◌then◌else◌, any, subset, map,
}
use flowers_oss.Base.Text.{
  Text, str, lower, upper, strip, lower_char, is_letter, is_space, same, replace_char, split_when,
}
use flowers_oss.Policy.Vocabulary.{money_phrases, money_toolkits}
use Prim.Native.String.{String}

-- `_norm_action`
unfoldable pub norm_action : Text → Text
unfolding strip upper
norm_action action = upper (strip action)

-- `_norm_toolkit`
unfoldable pub norm_toolkit : Text → Text
unfolding strip lower
norm_toolkit toolkit = lower (strip toolkit)

-- `_action_tokens`
unfoldable pub action_tokens : Text → List Text
unfolding norm_action replace_char lower split_when
action_tokens action =
    split_when (λ c. same c b'_') (lower (replace_char b'-' b'_' (norm_action action)))

-- The pieces of a spend verb: a letter, or a separator that may be left out.
pub data Piece : Type 0 where
  letter : ℕ → Piece
  optional_separator : Piece

abbrev letters : String → List Piece
letters word = map letter (str word)

-- The alternatives of `_MONEY_VERB_RE`, spelled out.
abbrev spend_verbs : List (List Piece)
spend_verbs =
    letters "pay"
    ∷ letters "payment"
    ∷ letters "payments"
    ∷ letters "payout"
    ∷ letters "paynow"
    ∷ letters "purchase"
    ∷ letters "checkout"
    ∷ (letters "check" ++ (optional_separator ∷ letters "out"))
    ∷ letters "refund"
    ∷ letters "buy"
    ∷ (letters "buy" ++ (optional_separator ∷ letters "now"))
    ∷ letters "remit"
    ∷ []

abbrev is_separator : ℕ → Bool
is_separator c = is_space c || same c b'_' || same c b'-'

-- `(?![a-z])` and `(?<![a-z])`, with case ignored
abbrev is_word_char : ℕ → Bool
is_word_char c = is_letter (lower_char c)

abbrev ends_word : Text → Bool
ends_word [] = true
ends_word (c ∷ _) = not (is_word_char c)

-- Whether a verb stands at the beginning of a text, as a whole word.
matches : List Piece → Text → Bool
matches [] s = ends_word s
matches (letter d ∷ pieces) [] = false
matches (letter d ∷ pieces) (c ∷ s) = same (lower_char c) d && matches pieces s
matches (optional_separator ∷ pieces) [] = matches pieces []
matches (optional_separator ∷ pieces) (c ∷ s) =
    matches pieces (c ∷ s) || is_separator c && matches pieces s

-- `_MONEY_VERB_RE.search`; the flag says whether a letter stands just before.
has_spend_verb : Bool → Text → Bool
unfolding matches
has_spend_verb after_letter [] = false
has_spend_verb after_letter (c ∷ s) =
    not after_letter && any (λ verb. matches verb (c ∷ s)) spend_verbs
    || has_spend_verb (is_word_char c) s

-- `re.sub(r"[_\-]+", " ", s)`
blank_separators : Bool → Text → Text
blank_separators in_run [] = []
blank_separators in_run (c ∷ s) =
    let is_mark = same c b'_' || same c b'-' in
    let rest = blank_separators is_mark s in
    if is_mark then (if in_run then rest else b' ' ∷ rest) else c ∷ rest

unfoldable pub is_money_action : Text → Text → Bool
unfolding norm_toolkit has_spend_verb blank_separators action_tokens list_eq nat_eq
is_money_action toolkit action =
    contains money_toolkits (norm_toolkit toolkit)
    || has_spend_verb false (blank_separators false action)
    || any (λ phrase. subset phrase (action_tokens action)) money_phrases
