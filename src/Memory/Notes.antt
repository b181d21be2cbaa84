-- ===== src/Memory/Notes.antt =====
-- What a sequence of appended notes comes to, as a list.
use flowers_oss.Base.{
  ◌≡◌, refl, Bool, true, false, not, ◌&&◌, ◌||◌, List, [], ◌∷◌, ◌++◌, ◌==◌, list_eq, nat_eq, any,
  All, is_empty, length, if◌then◌else◌, Bool-cases, inl, inr,
}
use flowers_oss.Base.Text.{Text, ltb, lower}
use flowers_oss.Memory.{
  memory_char_cap, clean, existing_notes, render, trim, append_note, append_notes,
}
use flowers_oss.Memory.Rendered.{IsNote, existing_notes-render}
use flowers_oss.Memory.Clean.{clean-IsNote}

-- What an append does to the list of the notes.
unfoldable pub remember : List Text → Text → List Text
unfolding clean trim lower list_eq nat_eq
remember notes note =
    let c = clean note in
    if is_empty c || any (λ n. lower c == lower n) notes then notes else trim (notes ++ (c ∷ []))

unfoldable pub remember_all : List Text → List Text → List Text
unfolding remember
remember_all notes [] = notes
remember_all notes (n ∷ ns) = remember_all (remember notes n) ns

pub append_one-All {ℓ} :
    {A : Type ℓ} (P : A → Type 0) (xs : List A) (x : A) → All P xs → P x → All P (xs ++ (x ∷ []))
append_one-All P [] x h p = (p, tt)
append_one-All P (y ∷ xs) x h p = (h.0, append_one-All P xs x h.1 p)

trim-All : (notes : List Text) → All IsNote notes → All IsNote (trim notes)
unfolding trim
trim-All [] h = tt
trim-All (n ∷ notes) h =
    elim (Bool-cases (ltb memory_char_cap (length (render (n ∷ notes))) && not (is_empty notes))) [
      | inl e ↦ rw e (trim-All notes h.1)
      | inr e ↦ rw e h
    ]

pub remember-All :
    (notes : List Text) (note : Text) → All IsNote notes → All IsNote (remember notes note)
unfolding remember
remember-All notes note h = elim (Bool-cases (is_empty (clean note))) [
  | inl e ↦ rw e h
  | inr e ↦ elim (Bool-cases (any (λ n. lower (clean note) == lower n) notes)) [
    | inl known ↦ rw (e, known) h
    | inr new ↦
        rw (e, new)
          (trim-All (notes ++ (clean note ∷ []))
            (append_one-All IsNote notes (clean note) h (clean-IsNote note e)))
  ]
]

if_or {ℓ κ} :
    {A : Type ℓ} {B : Type κ} (f : A → B) (a b : Bool) (x y : A)
    → (if a then f x else if b then f x else f y) ≡ f (if a || b then x else y)
if_or f true b x y = refl
if_or f false true x y = refl
if_or f false false x y = refl

append_note_lem :
    (notes : List Text) (note : Text)
    → All IsNote notes
    → append_note (render notes) note ≡ render (remember notes note)
unfolding append_note remember
append_note_lem notes note h =
    let c = clean note in
    rw (existing_notes-render notes h) (
      if_or render (is_empty c) (any (λ n. lower c == lower n) notes) notes
        (trim (notes ++ (c ∷ []))))

remember_all-All : (notes ns : List Text) → All IsNote notes → All IsNote (remember_all notes ns)
unfolding remember_all
remember_all-All notes [] h = h
remember_all-All notes (n ∷ ns) h = remember_all-All (remember notes n) ns (remember-All notes n h)

append_notes_lem :
    (notes ns : List Text)
    → All IsNote notes
    → append_notes (render notes) ns ≡ render (remember_all notes ns)
unfolding append_notes remember_all
append_notes_lem notes [] h = refl
append_notes_lem notes (n ∷ ns) h =
    rw (append_note_lem notes n h) (append_notes_lem (remember notes n) ns (remember-All notes n h))

from_empty :
    (ns : List Text)
    → append_notes (render []) ns ≡ render (remember_all [] ns)
    → append_notes [] ns ≡ render (remember_all [] ns)
unfolding render
from_empty ns h = h

-- The text that any notes are appended to, an empty text at first, is the rendering of the list that
-- they are remembered in, and that list is what is read back from it.
pub append_notes-refines-remember_all :
    (ns : List Text)
    → (append_notes [] ns ≡ render (remember_all [] ns))
      × (existing_notes (append_notes [] ns) ≡ remember_all [] ns)
append_notes-refines-remember_all ns =
    let e : append_notes [] ns ≡ render (remember_all [] ns) =
      from_empty ns (append_notes_lem [] ns tt) in
    (e, rw e (existing_notes-render (remember_all [] ns) (remember_all-All [] ns tt)))
