-- ===== src/Base/Cut.antt =====
-- What is cut from the ends of a text: the text is what is left between what was cut.
use mathlib.Core.Path.{◌≡◌, refl, sym, ◌∙◌, ap}
use mathlib.Core.Bool.{Bool, true}
use mathlib.Core.List.{
  [], ◌∷◌, ◌++◌, reverse, append_assoc, reverse-cons, reverse-append, reverse-reverse, append-nil,
}
use mathlib.Core.Logic.{inl, inr}
use native.Mathlib.Omega.{arith}
use Prim.Native.Nat.{ℕ}
use flowers_oss.Base.Equality.{if◌then◌else◌, Bool-cases}
use flowers_oss.Base.Lists.{all, all-append, is_empty}
use flowers_oss.Base.Text.{Text, is_space, drop_while, strip}

pub drop_while-append_one :
    (p : ℕ → Bool) (s : Text) (c : ℕ)
    → drop_while p (s ++ (c ∷ [])) ≡ (
        if is_empty (drop_while p s)
        then (if p c then [] else c ∷ [])
        else drop_while p s ++ (c ∷ []))
unfolding drop_while
drop_while-append_one p [] c = refl
drop_while-append_one p (d ∷ s) c = ground (arith, drop_while-append_one p s c)

-- A text within another one, between characters that meet a test.
abbrev pub IsWithin : (ℕ → Bool) → Text → Text → Type 0
IsWithin p x s = (u : Text) × (v : Text) × (all p u ≡ true) × (all p v ≡ true) × (s ≡ u ++ (x ++ v))

pub all_both : (p : ℕ → Bool) (u v : Text) → all p u ≡ true → all p v ≡ true → all p (u ++ v) ≡ true
all_both p u v h k = rw (all-append p u v, h, k) refl

pub IsWithin-trans :
    (p : ℕ → Bool) (x y s : Text) → IsWithin p y s → IsWithin p x y → IsWithin p x s
IsWithin-trans p x y s (u, v, pu, pv, e) (w, z, pw, pz, f) = (
  u ++ w,
  z ++ v,
  all_both p u w pu pw,
  all_both p z v pz pv,
  rw (e, f, append_assoc u w (x ++ (z ++ v)), append_assoc w (x ++ z) v, append_assoc x z v) refl,
)

pub IsWithin-wider :
    (p q : ℕ → Bool) (x s : Text)
    → ((c : ℕ) → p c ≡ true → q c ≡ true)
    → IsWithin p x s
    → IsWithin q x s
IsWithin-wider p q x s h (u, v, pu, pv, e) = (u, v, wider u pu, wider v pv, e)
  where
    wider : (s : Text) → all p s ≡ true → all q s ≡ true
    wider [] k = refl
    wider (c ∷ s) k = ground (arith, h c, wider s)

pub all-reverse : (p : ℕ → Bool) (s : Text) → all p s ≡ true → all p (reverse s) ≡ true
all-reverse p [] h = refl
all-reverse p (c ∷ s) h =
    rw (reverse-cons c s)
      (all_both p (reverse s) (c ∷ []) (all-reverse p s (ground arith)) (ground arith))

-- What is dropped from the front.
pub dropped : (p : ℕ → Bool) (s : Text) → (a : Text) × (all p a ≡ true) × (s ≡ a ++ drop_while p s)
unfolding drop_while
dropped p [] = ([], refl, refl)
dropped p (c ∷ s) =
    let (a, pa, e) = dropped p s in
    elim (Bool-cases (p c)) [
      | inl h ↦ (c ∷ a, rw (h, pa) refl, rw h (ap (λ r. c ∷ r) e))
      | inr h ↦ ([], refl, rw h refl)
    ]

pub drop_while-IsWithin : (p : ℕ → Bool) (s : Text) → IsWithin p (drop_while p s) s
drop_while-IsWithin p s =
    let (a, pa, e) = dropped p s in
    (a, [], pa, refl, e ∙ ap (λ r. a ++ r) (sym (append-nil (drop_while p s))))

-- What is cut from the end.
pub cut_end :
    (p : ℕ → Bool) (s : Text)
    → (b : Text) × (all p b ≡ true) × (s ≡ reverse (drop_while p (reverse s)) ++ b)
cut_end p s =
    let (a, pa, e) = dropped p (reverse s) in
    (
      reverse a,
      all-reverse p a pa,
      sym (reverse-reverse s) ∙ ap reverse e ∙ reverse-append a (drop_while p (reverse s)),
    )

pub cut_end-IsWithin : (p : ℕ → Bool) (s : Text) → IsWithin p (reverse (drop_while p (reverse s))) s
cut_end-IsWithin p s = let (b, pb, e) = cut_end p s in ([], b, refl, pb, e)

pub strip-IsWithin : (s : Text) → IsWithin is_space (strip s) s
unfolding strip
strip-IsWithin s =
    IsWithin-trans is_space (reverse (drop_while is_space (reverse (drop_while is_space s))))
      (drop_while is_space s) s (drop_while-IsWithin is_space s)
      (cut_end-IsWithin is_space (drop_while is_space s))
