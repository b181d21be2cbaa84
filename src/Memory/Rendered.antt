-- ===== src/Memory/Rendered.antt =====
-- A rendered text, read back.
use flowers_oss.Base.{
  ℕ, ◌≡◌, refl, ◌≤◌, Bool, true, false, not, ◌||◌, List, [], ◌∷◌, ◌++◌, all, All, is_empty, length,
  map, arith, all-append,
}
use mathlib.Core.List.{append_assoc}
use flowers_oss.Base.Text.{
  Text, str, same, is_space, drop_while, strip, starts_with, split_when, join,
}
use flowers_oss.Mandate.Goal.{is_line_break, join_breaks, drop_blank_end, splitlines}
use flowers_oss.Memory.{max_note_len, header, bullet, notes_of, existing_notes, render}
use flowers_oss.Memory.Strip.{rstrip, strip_lem}

-- A character of a cleaned note: the only white space is the blank.
abbrev pub is_plain : ℕ → Bool
is_plain c = not (is_space c) || same c 32

-- A cleaned note that is not empty.
abbrev pub IsNote : Text → Type 0
IsNote n =
    (is_empty n ≡ false)
    × (all is_plain n ≡ true)
    × (drop_while is_space n ≡ n)
    × (rstrip n ≡ n)
    × (length n ≤ max_note_len)

abbrev in_line : ℕ → Bool
in_line c = not (is_line_break c)

-- The text of some lines, each with its end.
unfoldable unlines : List Text → Text
unlines [] = []
unlines (l ∷ ls) = l ++ (10 ∷ unlines ls)

plain_in_line : (s : Text) → all is_plain s ≡ true → all in_line s ≡ true
plain_in_line [] h = refl
plain_in_line (c ∷ s) h = ground (arith, plain_in_line s)

abbrev no_return : ℕ → Bool
no_return c = not (same c 13)

join_breaks_lem : (s : Text) → all no_return s ≡ true → join_breaks s ≡ s
unfolding join_breaks
join_breaks_lem [] h = refl
join_breaks_lem (c ∷ []) h = refl
join_breaks_lem (c ∷ d ∷ s) h = ground (arith, join_breaks_lem (d ∷ s))

in_line-no_return : (s : Text) → all in_line s ≡ true → all no_return s ≡ true
in_line-no_return [] h = refl
in_line-no_return (c ∷ s) h = ground (arith, in_line-no_return s)

unlines-no_return :
    (ls : List Text) → All (λ l. all in_line l ≡ true) ls → all no_return (unlines ls) ≡ true
unfolding unlines
unlines-no_return [] h = refl
unlines-no_return (l ∷ ls) h = ground (
  arith,
  all-append no_return l (10 ∷ unlines ls),
  in_line-no_return l h.0,
  unlines-no_return ls h.1,
)

split_when_line :
    (l : Text) (s : Text)
    → all in_line l ≡ true
    → split_when is_line_break (l ++ (10 ∷ s)) ≡ l ∷ split_when is_line_break s
unfolding split_when
split_when_line [] s h = refl
split_when_line (c ∷ l) s h = ground (arith, split_when_line l s)

split_when-unlines :
    (ls : List Text)
    → All (λ l. all in_line l ≡ true) ls
    → split_when is_line_break (unlines ls) ≡ ls ++ ([] ∷ [])
unfolding unlines split_when
split_when-unlines [] h = refl
split_when-unlines (l ∷ ls) h =
    rw (split_when_line l (unlines ls) h.0, split_when-unlines ls h.1) refl

drop_blank_end_lem : (ls : List Text) → drop_blank_end (ls ++ ([] ∷ [])) ≡ ls
unfolding drop_blank_end
drop_blank_end_lem [] = refl
drop_blank_end_lem (l ∷ []) = refl
drop_blank_end_lem (l ∷ k ∷ ls) = rw (drop_blank_end_lem (k ∷ ls)) refl

splitlines-unlines :
    (ls : List Text) → All (λ l. all in_line l ≡ true) ls → splitlines (unlines ls) ≡ ls
unfolding splitlines
splitlines-unlines ls h =
    rw
      (
        join_breaks_lem (unlines ls) (unlines-no_return ls h),
        split_when-unlines ls h,
        drop_blank_end_lem ls,
      )
      refl

join-unlines : (l : Text) (ls : List Text) → join (str "\n") (l ∷ ls) ++ str "\n" ≡ unlines (l ∷ ls)
unfolding unlines join
join-unlines l [] = refl
join-unlines l (k ∷ ls) =
    rw (append_assoc l (str "\n" ++ join (str "\n") (k ∷ ls)) (str "\n"), join-unlines k ls) refl

-- A character before a text that ends in no white space.
rstrip_cons : (d : ℕ) (n : Text) → is_empty n ≡ false → rstrip n ≡ n → rstrip (d ∷ n) ≡ d ∷ n
unfolding rstrip
rstrip_cons d n some_left ended = rw (ended, some_left) refl

-- A line with a bullet is read as its note.
strip-bullet : (n : Text) → IsNote n → strip (bullet ++ n) ≡ bullet ++ n
unfolding drop_while
strip-bullet n h =
    let (some_left, plain, begun, ended, short) = h in
    rw (strip_lem (bullet ++ n)) (rstrip_cons b'-' (32 ∷ n) refl (rstrip_cons 32 n some_left ended))

strip_note : (n : Text) → IsNote n → strip n ≡ n
strip_note n h =
    let (some_left, plain, begun, ended, short) = h in rw (strip_lem n, begun, ended) refl

notes_of_bullets :
    (notes : List Text) → All IsNote notes → notes_of (map (λ n. bullet ++ n) notes) ≡ notes
unfolding notes_of starts_with
notes_of_bullets [] h = refl
notes_of_bullets (n ∷ notes) h =
    let (some_left, plain, begun, ended, short) = h.0 in
    rw (strip-bullet n h.0, strip_note n h.0, some_left, notes_of_bullets notes h.1) refl

notes_of-header : (lines : List Text) → notes_of (header ∷ lines) ≡ notes_of lines
unfolding notes_of strip drop_while starts_with
notes_of-header lines = refl

bullets_in_line :
    (notes : List Text)
    → All IsNote notes
    → All (λ l. all in_line l ≡ true) (map (λ n. bullet ++ n) notes)
bullets_in_line [] h = tt
bullets_in_line (n ∷ notes) h =
    let (some_left, plain, begun, ended, short) = h.0 in
    (plain_in_line n plain, bullets_in_line notes h.1)

render_lines :
    (n : Text) (notes : List Text)
    → render (n ∷ notes) ≡ unlines (header ∷ map (λ m. bullet ++ m) (n ∷ notes))
unfolding render unlines
render_lines n notes = rw (join-unlines (bullet ++ n) (map (λ m. bullet ++ m) notes)) refl

existing_notes-nil : existing_notes (render []) ≡ []
unfolding existing_notes render notes_of splitlines join_breaks drop_blank_end split_when
existing_notes-nil = refl

-- Cleaned notes are read back from their text.
pub existing_notes-render :
    (notes : List Text) → All IsNote notes → existing_notes (render notes) ≡ notes
unfolding existing_notes
existing_notes-render [] h = existing_notes-nil
existing_notes-render (n ∷ notes) h =
    let lines = map (λ m. bullet ++ m) (n ∷ notes) in
    rw
      (
        render_lines n notes,
        splitlines-unlines (header ∷ lines) (refl, bullets_in_line (n ∷ notes) h),
        notes_of-header lines,
        notes_of_bullets (n ∷ notes) h,
      )
      refl
