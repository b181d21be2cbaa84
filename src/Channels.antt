-- ===== src/Channels.antt =====
-- flowers/channels/base.py: what an owner's reply in free text decides.
pub mod Shape
pub mod Edits
mod Tests
use flowers_oss.Base.{
  ℕ, Bool, true, false, not, ◌&&◌, ◌||◌, List, [], ◌∷◌, ◌++◌, ◌==◌, contains, list_eq, nat_eq, any,
  all, is_empty, length, take, if◌then◌else◌,
}
use mathlib.Core.List.{reverse}
use flowers_oss.Base.Text.{
  Text, str, words, strip, lower, starts_with, ends_with, drop_while, is_space, same,
}

-- `_YES`
abbrev pub yes_words : List Text
yes_words = words (
    "yes" ∷ "y" ∷ "yeah" ∷ "yep" ∷ "yup" ∷ "ok" ∷ "okay" ∷ "sure" ∷ "approve" ∷ "approved"
    ∷ "confirm" ∷ "confirmed" ∷ "go" ∷ "do it" ∷ "please do" ∷ "send it" ∷ "sounds good"
    ∷ "looks good" ∷ "looks great" ∷ "perfect" ∷ "great" ∷ "ship it" ∷ "lgtm" ∷ "go for it"
    ∷ "all good" ∷ [])

-- `_NO`
abbrev pub no_words : List Text
no_words = words (
    "deny" ∷ "denied" ∷ "cancel" ∷ "stop" ∷ "dont" ∷ "don't" ∷ "do not" ∷ "decline" ∷ "declined"
    ∷ "abort" ∷ [])

-- `_NO_FAMILY`
abbrev pub no_family : List Text
no_family = words ("no" ∷ "n" ∷ "nope" ∷ "nah" ∷ [])

-- `_NO_THANKS`
abbrev pub no_thanks : List Text
no_thanks = words ("no thanks" ∷ "no thank you" ∷ "no thank u" ∷ "nope thanks" ∷ "nah thanks" ∷ [])

-- `_NO_CHANGE_IDIOMS`
abbrev pub no_change_idioms : List Text
no_change_idioms = words (
    "no change" ∷ "no changes" ∷ "no changes needed" ∷ "no need to change it"
    ∷ "no need to change anything" ∷ "no edits" ∷ "no tweaks" ∷ "nothing to change" ∷ "no, as is"
    ∷ "no as is" ∷ [])

abbrev thumbs_up : ℕ
thumbs_up = 0x1F44D

-- `_EMOJI_MODIFIERS`
abbrev emoji_modifiers : List ℕ
emoji_modifiers = 0x1F3FB ∷ 0x1F3FC ∷ 0x1F3FD ∷ 0x1F3FE ∷ 0x1F3FF ∷ 0xFE0F ∷ []

unfoldable pub without_modifiers : Text → Text
unfolding nat_eq
without_modifiers [] = []
without_modifiers (ch ∷ t) =
    if contains emoji_modifiers ch then without_modifiers t else ch ∷ without_modifiers t

-- `s.rstrip(chars)`
unfoldable pub rstrip : (ℕ → Bool) → Text → Text
unfolding drop_while
rstrip p t = reverse (drop_while p (reverse t))

-- The characters of `,;—–-`
abbrev pub is_dash : ℕ → Bool
is_dash ch = same ch b',' || same ch b';' || same ch 0x2014 || same ch 0x2013 || same ch b'-'

abbrev pub is_separator : ℕ → Bool
is_separator ch = is_space ch || is_dash ch

-- `reverse(t)` without a suffix that is given reversed
abbrev pub cut_prefix : Text → Text → Text
cut_prefix [] t = t
cut_prefix (d ∷ p) [] = []
cut_prefix (d ∷ p) (ch ∷ t) = cut_prefix p t

abbrev pub last_newline_dropped : Text → Text
last_newline_dropped [] = []
last_newline_dropped (ch ∷ t) = if same ch b'\n' then t else ch ∷ t

-- `$` also stands before a last new line.
abbrev pub without_newline : Text → Text
without_newline t = reverse (last_newline_dropped (reverse t))

pub data Decision : Type 0 where
  yes_reply no_reply other_reply : Decision

-- `str.isalnum` of a character is a parameter.
module _ (isalnum : ℕ → Bool) where
  -- `\b` before a word, given the text before it, reversed
  abbrev pub at_boundary : Text → Bool
  at_boundary [] = true
  at_boundary (ch ∷ t) = not (isalnum ch || same ch b'_')

  abbrev pub cut_word : Text → Text → Text
  cut_word word t =
      let before = cut_prefix (reverse word) (reverse t) in
      if at_boundary before then reverse (drop_while is_separator before) else t

  -- `_SEND_TAIL_RE.sub("", t)`, where a last new line is dropped, which the code strips next.
  unfoldable pub without_send_tail : Text → Text
  unfolding drop_while ends_with
  without_send_tail t =
      if ends_with t (str "send it")
      then cut_word (str "send it") t
      else if ends_with t (str "send")
      then cut_word (str "send") t
      else t

  -- `_no_change_approval`
  unfoldable pub is_no_change_approval : Text → Bool
  unfolding without_send_tail strip rstrip list_eq nat_eq drop_while
  is_no_change_approval t =
      contains no_change_idioms (
        strip (rstrip is_dash (drop_while is_dash (strip (without_send_tail (without_newline t))))))

  abbrev starts_with_word : List Text → Text → Bool
  starts_with_word ws t = any (λ w. starts_with t (w ++ str " ")) ws

  -- What a reply decides once it is stripped, in lower case and without its last marks.
  unfoldable pub decide_reply : Text → Decision
  unfolding is_no_change_approval without_modifiers starts_with list_eq nat_eq
  decide_reply t =
      let tn = without_modifiers t in
      if not (is_empty tn) && all (λ ch. same ch thumbs_up) tn
      then yes_reply
      else if contains yes_words t || starts_with_word yes_words t
      then yes_reply
      else if is_no_change_approval t
      then yes_reply
      else if contains no_family t
          || contains no_thanks t
          || contains no_words t
          || starts_with_word no_words t
      then no_reply
      else other_reply

  -- `parse_answer`, whose result also holds the text.
  unfoldable pub parse_answer : Text → Decision
  unfolding decide_reply strip lower rstrip
  parse_answer text =
      decide_reply (rstrip (λ ch. same ch b'.' || same ch b'!') (lower (strip text)))
