-- ===== src/Memory/Tests.antt =====
-- Notes appended to an empty text.
use flowers_oss.Base.{◌≤◌, ◌≡◌, refl, true, List, [], ◌∷◌, length, list_eq, nat_eq}
use flowers_oss.Base.Text.{
  Text, words, strip, drop_while, lower, runs, split_when, join, starts_with,
}
use flowers_oss.Mandate.Goal.{splitlines, join_breaks, drop_blank_end}
use flowers_oss.Memory.{
  clean, notes_of, existing_notes, render, trim, append_note, append_notes, memory_char_cap,
}
use flowers_oss.Memory.Notes.{remember_all, append_notes-refines-remember_all}
use flowers_oss.Memory.Kept.{is_distinct, append_notes_kept}

abbrev told : List Text
told = words (" likes  tea" ∷ "" ∷ "Likes Tea" ∷ "lives in Rome" ∷ [])

-- A repeated note and an empty one change nothing.
read_back : List Text → List Text
unfolding existing_notes append_notes append_note clean notes_of render trim splitlines join_breaks
    drop_blank_end strip drop_while lower runs split_when join starts_with list_eq nat_eq
read_back notes = existing_notes (append_notes [] notes)

told_twice : read_back told ≡ words ("likes tea" ∷ "lives in Rome" ∷ [])
unfolding read_back
told_twice = refl

append_notes-refines-remember_all_example :
    (append_notes [] told ≡ render (remember_all [] told))
    × (existing_notes (append_notes [] told) ≡ remember_all [] told)
append_notes-refines-remember_all_example = append_notes-refines-remember_all told

append_notes_kept_example :
    (length (append_notes [] told) ≤ memory_char_cap)
    × (is_distinct (existing_notes (append_notes [] told)) ≡ true)
append_notes_kept_example = append_notes_kept told
