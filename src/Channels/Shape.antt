-- ===== src/Channels/Shape.antt =====
-- What an approval without a change looks like: the text around an idiom.
use flowers_oss.Base.{
  ℕ, ◌≡◌, refl, sym, ◌∙◌, ap, Bool, true, ◌||◌, List, [], ◌∷◌, ◌++◌, contains, list_eq, nat_eq, all,
  Bool-cases, inl, inr, arith,
}
use mathlib.Core.List.{reverse, reverse-append, reverse-reverse, append_assoc, append-nil}
use flowers_oss.Base.Text.{
  Text, str, words, strip, ends_with, starts_with, drop_while, is_space, same,
}
use flowers_oss.Base.Cut.{
  IsWithin, IsWithin-trans, IsWithin-wider, drop_while-IsWithin, cut_end-IsWithin, strip-IsWithin,
  dropped, all-reverse,
}
use flowers_oss.Channels.{
  rstrip, is_dash, is_separator, cut_prefix, cut_word, at_boundary, last_newline_dropped,
  without_newline, without_send_tail,
}

-- What may follow an idiom as a word.
abbrev pub send_tails : List Text
send_tails = [] ∷ words ("send" ∷ "send it" ∷ [])

-- White space, and the marks that end a reply.
abbrev pub is_end : ℕ → Bool
is_end ch = is_space ch || same ch b'.' || same ch b'!'

pub cut_prefix_lem : (p t : Text) → starts_with t p ≡ true → t ≡ p ++ cut_prefix p t
unfolding starts_with
cut_prefix_lem [] t h = refl
cut_prefix_lem (d ∷ p) [] h = cc
cut_prefix_lem (d ∷ p) (c ∷ t) h = ground (arith, cut_prefix_lem p t)

-- What stands before a word at the end, reversed.
word_before :
    (word t : Text)
    → ends_with t word ≡ true
    → t ≡ reverse (cut_prefix (reverse word) (reverse t)) ++ word
unfolding ends_with
word_before word t h =
    let before = cut_prefix (reverse word) (reverse t) in
    sym (reverse-reverse t)
    ∙ ap reverse (cut_prefix_lem (reverse word) (reverse t) h)
    ∙ reverse-append (reverse word) before
    ∙ ap (λ w. reverse before ++ w) (reverse-reverse word)

separated :
    (before word : Text)
    → (a : Text) × (all is_separator a ≡ true)
      × (reverse before ++ word ≡ reverse (drop_while is_separator before) ++ (a ++ word))
separated before word =
    let (a, pa, e) = dropped is_separator before in
    let rest = drop_while is_separator before in
    (
      reverse a,
      all-reverse is_separator a pa,
      ap (λ s. reverse s ++ word) e
          ∙ ap (λ s. s ++ word) (reverse-append a rest)
          ∙ append_assoc (reverse rest) (reverse a) word,
    )

-- The text before a tail: separators, and a word to send, or nothing.
abbrev pub HasTail : Text → Text → Type 0
HasTail x t =
    (a : Text) × (k : Text) × (all is_separator a ≡ true)
    × (contains send_tails k ≡ true)
    × (t ≡ x ++ (a ++ k))

no_tail : (t : Text) → HasTail t t
unfolding list_eq nat_eq
no_tail t = ([], [], refl, refl, sym (append-nil t))

module _ (isalnum : ℕ → Bool) where
  cut_word-HasTail :
      (word t : Text)
      → ends_with t word ≡ true
      → contains send_tails word ≡ true
      → HasTail (cut_word isalnum word t) t
  cut_word-HasTail word t h sends =
      let before = cut_prefix (reverse word) (reverse t) in
      elim (Bool-cases (at_boundary isalnum before)) [
        | inl e ↦
            let (a, pa, cut) = separated before word in
            rw e (a, word, pa, sends, word_before word t h ∙ cut)
        | inr e ↦ rw e (no_tail t)
      ]

  pub without_send_tail-HasTail : (t : Text) → HasTail (without_send_tail isalnum t) t
  unfolding without_send_tail list_eq nat_eq
  without_send_tail-HasTail t = elim (Bool-cases (ends_with t (str "send it"))) [
    | inl e ↦ rw e (cut_word-HasTail (str "send it") t e refl)
    | inr e ↦ elim (Bool-cases (ends_with t (str "send"))) [
      | inl f ↦ rw (e, f) (cut_word-HasTail (str "send") t f refl)
      | inr f ↦ rw (e, f) (no_tail t)
    ]
  ]

newline_dropped :
    (s : Text) → (b : Text) × (all is_end b ≡ true) × (s ≡ b ++ last_newline_dropped s)
newline_dropped [] = ([], refl, refl)
newline_dropped (c ∷ s) = elim (Bool-cases (same c b'\n')) [
  | inl e ↦ (c ∷ [], ground arith, rw e refl)
  | inr e ↦ ([], refl, rw e refl)
]

pub without_newline_end :
    (t : Text) → (b : Text) × (all is_end b ≡ true) × (t ≡ without_newline t ++ b)
without_newline_end t =
    let (b, pb, e) = newline_dropped (reverse t) in
    (
      reverse b,
      all-reverse is_end b pb,
      sym (reverse-reverse t) ∙ ap reverse e ∙ reverse-append b (last_newline_dropped (reverse t)),
    )

-- The text that is compared with the idioms.
abbrev pub core : Text → Text
core t = strip (rstrip is_dash (drop_while is_dash (strip t)))

space_separates : (c : ℕ) → is_space c ≡ true → is_separator c ≡ true
space_separates c h = ground arith

dash_separates : (c : ℕ) → is_dash c ≡ true → is_separator c ≡ true
dash_separates c h = ground arith

pub core-IsWithin : (t : Text) → IsWithin is_separator (core t) t
unfolding rstrip
core-IsWithin t =
    let s = strip t in
    let d = drop_while is_dash s in
    let r = rstrip is_dash d in
    IsWithin-trans is_separator (core t) r t
      (IsWithin-trans is_separator r d t
        (IsWithin-trans is_separator d s t
          (IsWithin-wider is_space is_separator s t space_separates (strip-IsWithin t))
          (IsWithin-wider is_dash is_separator d s dash_separates (drop_while-IsWithin is_dash s)))
        (IsWithin-wider is_dash is_separator r d dash_separates (cut_end-IsWithin is_dash d)))
      (IsWithin-wider is_space is_separator (core t) r space_separates (strip-IsWithin r))
