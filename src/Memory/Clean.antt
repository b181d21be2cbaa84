-- ===== src/Memory/Clean.antt =====
-- A cleaned note is one line without white space around it, and not too long.
use flowers_oss.Base.{
  ℕ, ◌≡◌, refl, ◌≤◌, Bool, true, false, not, List, [], ◌∷◌, ◌++◌, list_eq, nat_eq, all, All,
  is_empty, keep, length, take, arith, all-append, Bool-cases, inl, inr,
}
use flowers_oss.Base.Text.{Text, str, is_space, cons_part, split_when, runs, join}
use flowers_oss.Memory.{max_note_len, clean}
use flowers_oss.Memory.Strip.{
  drop_while-strip, rstrip-strip, strip-all, take-all, length-strip, length-take,
}
use flowers_oss.Memory.Rendered.{is_plain, IsNote}

abbrev is_other : ℕ → Bool
is_other c = not (not (is_space c))

cons_part_plain :
    (c : ℕ) (parts : List Text)
    → is_plain c ≡ true
    → All (λ w. all is_plain w ≡ true) parts
    → All (λ w. all is_plain w ≡ true) (cons_part false c parts)
cons_part_plain c [] p h = (rw p refl, tt)
cons_part_plain c (part ∷ parts) p h = (rw (p, h.0) refl, h.1)

cons_part-all :
    (c : ℕ) (parts : List Text)
    → All (λ w. all is_plain w ≡ true) parts
    → All (λ w. all is_plain w ≡ true) (cons_part (is_other c) c parts)
cons_part-all c parts h = elim (Bool-cases (is_other c)) [
  | inl e ↦ rw e (refl, h)
  | inr e ↦ rw e (cons_part_plain c parts (ground arith) h)
]

split_when_plain : (s : Text) → All (λ w. all is_plain w ≡ true) (split_when is_other s)
unfolding split_when
split_when_plain [] = (refl, tt)
split_when_plain (c ∷ s) = cons_part-all c (split_when is_other s) (split_when_plain s)

keep-All {ℓ} :
    {A : Type ℓ} (P : A → Type 0) (p : A → Bool) (xs : List A) → All P xs → All P (keep p xs)
keep-All P p [] h = tt
keep-All P p (x ∷ xs) h = elim (Bool-cases (p x)) [
  | inl e ↦ rw e (h.0, keep-All P p xs h.1)
  | inr e ↦ rw e (keep-All P p xs h.1)
]

join_plain :
    (ws : List Text) → All (λ w. all is_plain w ≡ true) ws → all is_plain (join (str " ") ws) ≡ true
unfolding join
join_plain [] h = refl
join_plain (w ∷ []) h = h.0
join_plain (w ∷ v ∷ ws) h =
    rw (all-append is_plain w (str " " ++ join (str " ") (v ∷ ws)), h.0, join_plain (v ∷ ws) h.1)
      refl

clean_plain : (note : Text) → all is_plain (clean note) ≡ true
unfolding clean runs
clean_plain note =
    let words = runs (λ c. not (is_space c)) note in
    let s = join (str " ") words in
    strip-all is_plain (take max_note_len s) (
      take-all is_plain max_note_len s (
        join_plain words (
          keep-All (λ w. all is_plain w ≡ true) (λ w. not (is_empty w)) (split_when is_other note)
            (split_when_plain note))))

clean_short : (note : Text) → length (clean note) ≤ max_note_len
unfolding clean
clean_short note =
    let s = join (str " ") (runs (λ c. not (is_space c)) note) in
    omega (arith, length-strip (take max_note_len s), length-take max_note_len s)

pub clean-IsNote : (note : Text) → is_empty (clean note) ≡ false → IsNote (clean note)
unfolding clean
clean-IsNote note some_left =
    let s = take max_note_len (join (str " ") (runs (λ c. not (is_space c)) note)) in
    (some_left, clean_plain note, drop_while-strip s, rstrip-strip s, clean_short note)
