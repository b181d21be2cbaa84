-- ===== src/Memory/Strip.antt =====
-- What stripping and cutting a text leaves.
use flowers_oss.Base.{
  ℕ, zero, suc, ◌≡◌, refl, ◌≤◌, Bool, true, false, ◌&&◌, [], ◌∷◌, ◌++◌, all, is_empty, length, take,
  is_empty-append_one, Bool-cases, inl, inr, if◌then◌else◌, arith,
}
use mathlib.Core.List.{reverse, reverse-cons, reverse-append}
use flowers_oss.Base.Cut.{drop_while-append_one}
use flowers_oss.Base.Text.{Text, is_space, drop_while, strip}

-- A text without the white space at its end.
unfoldable pub rstrip : Text → Text
rstrip [] = []
rstrip (c ∷ s) = let rest = rstrip s in if is_empty rest && is_space c then [] else c ∷ rest

is_empty-reverse : (s : Text) → is_empty (reverse s) ≡ is_empty s
is_empty-reverse [] = refl
is_empty-reverse (c ∷ s) = rw (reverse-cons c s) (is_empty-append_one (reverse s) c)

reverse_end :
    (t : Text) (c : ℕ)
    → reverse (if is_empty t then (if is_space c then [] else c ∷ []) else t ++ (c ∷ []))
      ≡ (if is_empty t && is_space c then [] else c ∷ reverse t)
reverse_end [] c = elim (Bool-cases (is_space c)) [ inl e ↦ rw e refl | inr e ↦ rw e refl ]
reverse_end (d ∷ t) c = reverse-append (d ∷ t) (c ∷ [])

reverse-drop_while : (s : Text) → reverse (drop_while is_space (reverse s)) ≡ rstrip s
unfolding rstrip drop_while
reverse-drop_while [] = refl
reverse-drop_while (c ∷ s) =
    let t = drop_while is_space (reverse s) in
    rw
      (
        reverse-cons c s,
        drop_while-append_one is_space (reverse s) c,
        ← reverse-drop_while s,
        is_empty-reverse t,
      )
      (reverse_end t c)

pub strip_lem : (s : Text) → strip s ≡ rstrip (drop_while is_space s)
unfolding strip
strip_lem s = reverse-drop_while (drop_while is_space s)

-- What is left of a text has no white space at either end.
drop_while_idem : (s : Text) → drop_while is_space (drop_while is_space s) ≡ drop_while is_space s
unfolding drop_while
drop_while_idem [] = refl
drop_while_idem (c ∷ s) = ground (arith, drop_while_idem s)

rstrip_idem : (s : Text) → rstrip (rstrip s) ≡ rstrip s
unfolding rstrip
rstrip_idem [] = refl
rstrip_idem (c ∷ s) = ground (arith, rstrip_idem s)

pub rstrip-strip : (s : Text) → rstrip (strip s) ≡ strip s
rstrip-strip s = rw (strip_lem s) (rstrip_idem (drop_while is_space s))

starts_clean :
    (c : ℕ) (s : Text) → is_space c ≡ false → drop_while is_space (rstrip (c ∷ s)) ≡ rstrip (c ∷ s)
unfolding rstrip drop_while
starts_clean c s h = ground arith

drop_while-rstrip :
    (s : Text)
    → drop_while is_space (rstrip (drop_while is_space s)) ≡ rstrip (drop_while is_space s)
unfolding drop_while rstrip
drop_while-rstrip [] = refl
drop_while-rstrip (c ∷ s) = elim (Bool-cases (is_space c)) [
  | inl e ↦ rw e (drop_while-rstrip s)
  | inr e ↦ rw e (starts_clean c s e)
]

pub drop_while-strip : (s : Text) → drop_while is_space (strip s) ≡ strip s
drop_while-strip s = rw (strip_lem s) (drop_while-rstrip s)

-- Stripping and cutting keep a test of every character, and make no text longer.
rstrip-all : (p : ℕ → Bool) (s : Text) → all p s ≡ true → all p (rstrip s) ≡ true
unfolding rstrip
rstrip-all p [] h = refl
rstrip-all p (c ∷ s) h = ground (arith, rstrip-all p s)

drop_while-all : (p q : ℕ → Bool) (s : Text) → all p s ≡ true → all p (drop_while q s) ≡ true
unfolding drop_while
drop_while-all p q [] h = refl
drop_while-all p q (c ∷ s) h = ground (arith, drop_while-all p q s)

pub strip-all : (p : ℕ → Bool) (s : Text) → all p s ≡ true → all p (strip s) ≡ true
strip-all p s h =
    rw (strip_lem s) (rstrip-all p (drop_while is_space s) (drop_while-all p is_space s h))

pub take-all : (p : ℕ → Bool) (n : ℕ) (s : Text) → all p s ≡ true → all p (take n s) ≡ true
take-all p zero s h = refl
take-all p (suc n) [] h = refl
take-all p (suc n) (c ∷ s) h = ground (arith, take-all p n s)

length-rstrip : (s : Text) → length (rstrip s) ≤ length s
unfolding rstrip
length-rstrip [] = omega arith
length-rstrip (c ∷ s) = ground (arith, length-rstrip s)

length-drop_while : (q : ℕ → Bool) (s : Text) → length (drop_while q s) ≤ length s
unfolding drop_while
length-drop_while q [] = omega arith
length-drop_while q (c ∷ s) = ground (arith, length-drop_while q s)

pub length-strip : (s : Text) → length (strip s) ≤ length s
length-strip s =
    rw (strip_lem s)
      (omega (arith, length-rstrip (drop_while is_space s), length-drop_while is_space s))

pub length-take : (n : ℕ) (s : Text) → length (take n s) ≤ n
length-take zero s = omega arith
length-take (suc n) [] = omega arith
length-take (suc n) (c ∷ s) = omega (arith, length-take n s)
