-- ===== src/Memory/Kept.antt =====
-- What holds of the notes after any appends: the cap, and that none is there twice.
use flowers_oss.Base.{
  ◌+◌, ◌≡◌, refl, ◌≤◌, Bool, true, false, not, ◌&&◌, ◌||◌, List, [], ◌∷◌, ◌++◌, ◌==◌, list_eq,
  nat_eq, any, All, is_empty, length, arith, Bool-cases, inl, inr,
}
use flowers_oss.Base.Text.{Text, str, ltb, lower, join}
use flowers_oss.Memory.{
  memory_char_cap, max_note_len, clean, existing_notes, render, trim, append_notes,
}
use flowers_oss.Memory.Rendered.{IsNote}
use flowers_oss.Memory.Clean.{clean-IsNote}
use flowers_oss.Memory.Notes.{
  remember, remember_all, append_one-All, remember-All, append_notes-refines-remember_all,
}

-- No later note is an earlier one, but for its case.
unfoldable pub is_distinct : List Text → Bool
unfolding lower list_eq nat_eq
is_distinct [] = true
is_distinct (n ∷ notes) = not (any (λ m. lower m == lower n) notes) && is_distinct notes

any-append_one {ℓ} :
    {A : Type ℓ} (p : A → Bool) (xs : List A) (x : A) → any p (xs ++ (x ∷ [])) ≡ (any p xs || p x)
any-append_one p [] x = ground arith
any-append_one p (y ∷ xs) x = ground (arith, any-append_one p xs x)

is_distinct-append_one :
    (notes : List Text) (c : Text)
    → is_distinct notes ≡ true
    → any (λ n. lower c == lower n) notes ≡ false
    → is_distinct (notes ++ (c ∷ [])) ≡ true
unfolding is_distinct
is_distinct-append_one [] c d new = refl
is_distinct-append_one (n ∷ notes) c d new =
    ground (arith, any-append_one (λ m. lower m == lower n) notes c, is_distinct-append_one notes c)

is_distinct-trim : (notes : List Text) → is_distinct notes ≡ true → is_distinct (trim notes) ≡ true
unfolding trim is_distinct
is_distinct-trim [] h = refl
is_distinct-trim (n ∷ notes) h =
    elim (Bool-cases (ltb memory_char_cap (length (render (n ∷ notes))) && not (is_empty notes))) [
      | inl e ↦ rw e (is_distinct-trim notes (ground arith))
      | inr e ↦ rw e h
    ]

is_distinct-remember :
    (notes : List Text) (note : Text)
    → is_distinct notes ≡ true
    → is_distinct (remember notes note) ≡ true
unfolding remember
is_distinct-remember notes note h = elim (Bool-cases (is_empty (clean note))) [
  | inl e ↦ rw e h
  | inr e ↦ elim (Bool-cases (any (λ n. lower (clean note) == lower n) notes)) [
    | inl known ↦ rw (e, known) h
    | inr new ↦
        rw (e, new)
          (is_distinct-trim (notes ++ (clean note ∷ []))
            (is_distinct-append_one notes (clean note) h new))
  ]
]

length-append : (s r : Text) → length (s ++ r) ≡ length s + length r
length-append [] r = omega arith
length-append (c ∷ s) r = omega (arith, length-append s r)

-- One note is never too long.
length-render_one :
    (n : Text) → length n ≤ max_note_len → length (render (n ∷ [])) ≤ memory_char_cap
unfolding render join
length-render_one n h = omega (arith, length-append n (str "\n"))

render-trim_short :
    (notes : List Text) → All IsNote notes → length (render (trim notes)) ≤ memory_char_cap
unfolding trim
render-trim_short [] h = omega arith
render-trim_short (n ∷ []) h =
    let (some_left, plain, begun, ended, short) = h.0 in
    elim (Bool-cases (ltb memory_char_cap (length (render (n ∷ []))))) [
      | inl e ↦ rw e (length-render_one n short)
      | inr e ↦ rw e (length-render_one n short)
    ]
render-trim_short (n ∷ m ∷ notes) h =
    elim (Bool-cases (ltb memory_char_cap (length (render (n ∷ m ∷ notes))))) [
      | inl e ↦ rw e (render-trim_short (m ∷ notes) h.1)
      | inr e ↦ rw e (ground arith)
    ]

remember_short :
    (notes : List Text) (note : Text)
    → All IsNote notes
    → length (render notes) ≤ memory_char_cap
    → length (render (remember notes note)) ≤ memory_char_cap
unfolding remember
remember_short notes note h short = elim (Bool-cases (is_empty (clean note))) [
  | inl e ↦ rw e short
  | inr e ↦ elim (Bool-cases (any (λ n. lower (clean note) == lower n) notes)) [
    | inl known ↦ rw (e, known) short
    | inr new ↦
        rw (e, new)
          (render-trim_short (notes ++ (clean note ∷ []))
            (append_one-All IsNote notes (clean note) h (clean-IsNote note e)))
  ]
]

remember_all_kept :
    (notes ns : List Text)
    → All IsNote notes
    → length (render notes) ≤ memory_char_cap
    → is_distinct notes ≡ true
    → (length (render (remember_all notes ns)) ≤ memory_char_cap)
      × (is_distinct (remember_all notes ns) ≡ true)
unfolding remember_all
remember_all_kept notes [] h short apart = (short, apart)
remember_all_kept notes (n ∷ ns) h short apart =
    remember_all_kept (remember notes n) ns (remember-All notes n h)
      (remember_short notes n h short) (is_distinct-remember notes n apart)

no_notes : (length (render []) ≤ memory_char_cap) × (is_distinct [] ≡ true)
unfolding render is_distinct
no_notes = (omega arith, refl)

-- Whatever notes are appended to an empty text, the text stays within its cap, and no two notes that
-- are read back from it are the same but for their case.
pub append_notes_kept :
    (ns : List Text)
    → (length (append_notes [] ns) ≤ memory_char_cap)
      × (is_distinct (existing_notes (append_notes [] ns)) ≡ true)
append_notes_kept ns =
    let (rendered, read) = append_notes-refines-remember_all ns in
    let (short, apart) = remember_all_kept [] ns tt no_notes.0 no_notes.1 in
    (rw rendered short, rw read apart)
