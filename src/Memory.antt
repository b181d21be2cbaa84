-- ===== src/Memory.antt =====
-- The notes about the owner: flowers/memory.py. Strip and Clean prove what the white space functions
-- leave, Rendered that a rendered text is read back, Notes and Kept what a sequence of appends comes to.
pub mod Strip
pub mod Rendered
pub mod Clean
pub mod Notes
pub mod Kept
pub mod Tests
use flowers_oss.Base.{
  ℕ, Bool, not, ◌&&◌, List, [], ◌∷◌, ◌++◌, ◌==◌, list_eq, nat_eq, map, any, is_empty, length, take,
  if◌then◌else◌,
}
use flowers_oss.Base.Text.{Text, str, ltb, is_space, lower, strip, starts_with, runs, join}
use flowers_oss.Mandate.Goal.{splitlines}

-- `MEMORY_CHAR_CAP`
abbrev pub memory_char_cap : ℕ
memory_char_cap = 6000

-- `MAX_NOTE_LEN`
abbrev pub max_note_len : ℕ
max_note_len = 600

abbrev pub header : Text
header = str "# What flowers knows about this user"

abbrev pub bullet : Text
bullet = str "- "

-- `_clean`
unfoldable pub clean : Text → Text
unfolding strip runs join
clean note = strip (take max_note_len (join (str " ") (runs (λ c. not (is_space c)) note)))

-- What follows the bullet of a line, without white space around it.
abbrev pub after_bullet : Text → Text
after_bullet (_ ∷ _ ∷ s) = strip s
after_bullet _ = []

-- The loop of `existing_notes`
unfoldable pub notes_of : List Text → List Text
unfolding strip starts_with
notes_of [] = []
notes_of (line ∷ lines) =
    let rest = notes_of lines in
    let s = strip line in
    if starts_with s bullet && not (is_empty (after_bullet s)) then after_bullet s ∷ rest else rest

unfoldable pub existing_notes : Text → List Text
unfolding notes_of splitlines
existing_notes md = notes_of (splitlines md)

unfoldable pub render : List Text → Text
unfolding join
render [] = []
render (n ∷ notes) =
    header ++ (str "\n" ++ (join (str "\n") (map (λ n. bullet ++ n) (n ∷ notes)) ++ str "\n"))

-- The loop that drops the oldest notes, but never the last one.
unfoldable pub trim : List Text → List Text
unfolding render
trim [] = []
trim (n ∷ notes) =
    let rest = trim notes in
    if ltb memory_char_cap (length (render (n ∷ notes))) && not (is_empty notes)
    then rest
    else n ∷ notes

unfoldable pub append_note : Text → Text → Text
unfolding clean existing_notes render trim lower list_eq nat_eq
append_note md note =
    let notes = existing_notes md in
    let c = clean note in
    if is_empty c
    then render notes
    else if any (λ n. lower c == lower n) notes
    then render notes
    else render (trim (notes ++ (c ∷ [])))

unfoldable pub append_notes : Text → List Text → Text
unfolding append_note
append_notes md [] = md
append_notes md (n ∷ notes) = append_notes (append_note md n) notes
