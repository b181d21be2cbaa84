-- ===== src/Mandate/Goal.antt =====
-- What the owner wrote, of flowers/mandate.py: the goal without quoted text, its addresses and words.
use flowers_oss.Base.{
  ℕ, Bool, false, not, ◌&&◌, ◌||◌, Option, none, some, List, [], ◌∷◌, ◌++◌, any, map, is_empty,
  if◌then◌else◌,
}
use mathlib.Core.List.{reverse}
use flowers_oss.Base.Text.{
  words, Text, str, lower, strip, leb, same, is_space, is_letter, is_alnum, drop_while, starts_with,
  split_when, runs, join,
}
use flowers_oss.Base.Value.{Value, Fields, py_str, fields_list}
use flowers_oss.Mandate.Emails.{find_emails, is_any_letter}
use flowers_oss.Mandate.Scope.{delivering_verbs}

-- The fields of a `Goal` that are read here.
pub record Goal : Type 0 where
  pub text : Text
  pub constraints : Fields

abbrev pub is_line_break : ℕ → Bool
is_line_break c = leb 10 c && leb c 13 || leb 28 c && leb c 30

-- A carriage return and a line feed count as one break.
unfoldable pub join_breaks : Text → Text
join_breaks [] = []
join_breaks (c ∷ []) = c ∷ []
join_breaks (c ∷ d ∷ s) =
    let rest = join_breaks (d ∷ s) in if same c 13 && same d 10 then rest else c ∷ rest

-- A break at the end begins no line.
unfoldable pub drop_blank_end : List Text → List Text
drop_blank_end [] = []
drop_blank_end (line ∷ []) = if is_empty line then [] else line ∷ []
drop_blank_end (line ∷ l ∷ lines) = line ∷ drop_blank_end (l ∷ lines)

-- `splitlines`
unfoldable pub splitlines : Text → List Text
unfolding join_breaks drop_blank_end split_when
splitlines s = drop_blank_end (split_when is_line_break (join_breaks s))

-- What follows a prefix, if the text begins with it.
unfoldable pub after_prefix : Text → Text → Option Text
after_prefix [] s = some s
after_prefix (c ∷ p) [] = none
after_prefix (c ∷ p) (d ∷ s) = let rest = after_prefix p s in if same c d then rest else none

abbrev begins_with_colon : Option Text → Bool
begins_with_colon none = false
begins_with_colon (some s) = starts_with (drop_while is_space s) (str ":")

-- `_QUOTE_HEADER_RE.match`, on a line without white space around it
unfoldable pub is_quote_header : Text → Bool
is_quote_header s =
    any (λ name. begins_with_colon (after_prefix name (lower s)))
      (words ("from" ∷ "to" ∷ "cc" ∷ "bcc" ∷ "sent" ∷ "date" ∷ "subject" ∷ "reply-to" ∷ []))

abbrev is_dash : ℕ → Bool
is_dash c = same c b'-'

abbrev dashes_only : Option Text → Bool
dashes_only none = false
dashes_only (some s) =
    let rest = drop_while is_space s in
    starts_with rest (str "-") && is_empty (drop_while is_space (drop_while is_dash rest))

abbrev is_dashed_marker : Text → Bool
is_dashed_marker low =
    starts_with low (str "-")
    && dashes_only
        (after_prefix (str "forwarded message") (drop_while is_space (drop_while is_dash low)))

-- A character outside of words at the beginning.
abbrev begins_outside : Text → Bool
begins_outside [] = false
begins_outside (c ∷ _) = not (is_any_letter c || is_alnum c || same c b'_')

abbrev closes_outside : Option Text → Bool
closes_outside none = false
closes_outside (some reversed) = begins_outside reversed && begins_outside (reverse reversed)

abbrev is_wrote_line : Option Text → Bool
is_wrote_line none = false
is_wrote_line (some rest) = closes_outside (after_prefix (reverse (str "wrote:")) (reverse rest))

abbrev is_blank_rest : Option Text → Bool
is_blank_rest none = false
is_blank_rest (some s) = is_empty (drop_while is_space s)

-- `_FORWARD_MARKER_RE.match`, on a line without white space around it
unfoldable pub is_forward_marker : Text → Bool
is_forward_marker s =
    let low = lower s in
    is_dashed_marker low
    || is_blank_rest (after_prefix (str "begin forwarded message:") low)
    || is_wrote_line (after_prefix (str "on") low)

-- The lines that `_strip_quoted` keeps.
unfoldable pub own_lines : List Text → List Text
own_lines [] = []
own_lines (line ∷ lines) =
    let rest = own_lines lines in
    let s = strip line in
    if is_forward_marker s
    then []
    else if starts_with s (str ">") || starts_with s (str "|")
    then rest
    else if is_quote_header s
    then rest
    else line ∷ rest

-- `_strip_quoted`
unfoldable pub strip_quoted : Text → Text
strip_quoted s = join (10 ∷ []) (own_lines (splitlines s))

abbrev pub send_imperatives : List Text
send_imperatives =
    delivering_verbs
    ++ words (
        "email" ∷ "emails" ∷ "emailed" ∷ "message" ∷ "messaged" ∷ "msg" ∷ "text" ∷ "write"
        ∷ "respond" ∷ "notify" ∷ "tell" ∷ "contact" ∷ "ping" ∷ "let" ∷ [])

-- `str` of a list or a dict is a parameter. A set is a list, in the order of appearance.
module _ (repr : Value → Text) where
  abbrev goal_parts : Goal → List Text
  goal_parts g = g.text ∷ map (λ e. py_str repr e.1) (fields_list g.constraints)

  unfoldable pub goal_named_recipients : Goal → List Text
  goal_named_recipients g = map lower (find_emails (strip_quoted (join (10 ∷ []) (goal_parts g))))

  -- `_goal_words`
  unfoldable pub goal_words : Goal → List Text
  goal_words g = runs is_letter (lower (join (str " ") (goal_parts g)))
