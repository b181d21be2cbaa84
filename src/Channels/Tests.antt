-- ===== src/Channels/Tests.antt =====
-- Replies as an owner would write them.
use flowers_oss.Base.{ℕ, ◌≡◌, refl, true, Bool, [], ◌∷◌, ◌||◌, ◌&&◌, list_eq, nat_eq}
use flowers_oss.Base.Text.{
  Text, str, strip, lower, drop_while, starts_with, ends_with, is_alnum, leb,
}
use flowers_oss.Channels.{
  Decision, yes_reply, no_reply, other_reply, parse_answer, without_modifiers, rstrip,
  without_send_tail,
}
use flowers_oss.Channels.Edits.{Fits, parse_answer-Fits}

abbrev isalnum : ℕ → Bool
isalnum c = is_alnum c || leb b'A' c && leb c b'Z'

run : Text → Decision
unfolding parse_answer strip lower rstrip drop_while starts_with ends_with without_modifiers
    without_send_tail list_eq nat_eq
run = parse_answer isalnum

approvals :
    (run (str "Yes please!") ≡ yes_reply)
    × (run (0x1F44D ∷ 0x1F3FD ∷ []) ≡ yes_reply)
    × (run (str "no need to change it, send") ≡ yes_reply)
    × (run (str "No changes needed.") ≡ yes_reply)
unfolding run
approvals = (refl, refl, refl, refl)

edits :
    (run (str "no, make it shorter and send it") ≡ other_reply)
    × (run (str "yes, but change the date") ≡ other_reply)
    × (run (str "no changes, edit the date and send it") ≡ other_reply)
    × (run (str "no ") ≡ no_reply)
    × (run (str "no thanks") ≡ no_reply)
    × (run (str "stop everything") ≡ no_reply)
unfolding run
edits = (refl, refl, refl, refl, refl, refl)

edit : Text
edit = str " No, make it shorter and send it."

edit_begins : starts_with (lower (strip edit)) (str "no") ≡ true
unfolding edit strip lower drop_while starts_with
edit_begins = refl

parse_answer-Fits_example : Fits (parse_answer isalnum edit) (lower edit)
parse_answer-Fits_example = parse_answer-Fits isalnum edit edit_begins
