-- ===== src/Base/Sorted.antt =====
-- `sorted(xs)` and `sorted(set(xs))` of texts.
use mathlib.Core.Path.{◌≡◌, refl}
use mathlib.Core.Logic.{◌↔◌, ◌≢◌}
use mathlib.Core.Bool.{◌||◌}
use mathlib.Core.List.{List, [], ◌∷◌}
use native.Mathlib.Omega.{arith}
use flowers_oss.Base.Equality.{◌==◌, contains, list_eq, nat_eq, if◌then◌else◌}
use flowers_oss.Base.Text.{Text, text_lt}

abbrev insert_in_order : Text → List Text → List Text
insert_in_order x [] = x ∷ []
insert_in_order x (y ∷ ys) =
    let rest = insert_in_order x ys in if text_lt y x then y ∷ rest else x ∷ y ∷ ys

unfoldable pub sorted : List Text → List Text
unfolding text_lt
sorted [] = []
sorted (x ∷ xs) = insert_in_order x (sorted xs)

abbrev insert_sorted : Text → List Text → List Text
insert_sorted x [] = x ∷ []
insert_sorted x (y ∷ ys) =
    let rest = insert_sorted x ys in
    if x == y then y ∷ ys else if text_lt x y then x ∷ y ∷ ys else y ∷ rest

unfoldable pub sorted_set : List Text → List Text
unfolding text_lt nat_eq list_eq
sorted_set [] = []
sorted_set (x ∷ xs) = insert_sorted x (sorted_set xs)

contains-insert_sorted :
    (x a : Text) (ys : List Text) → contains (insert_sorted x ys) a ≡ (a == x || contains ys a)
contains-insert_sorted x a [] = refl
contains-insert_sorted x a (y ∷ ys) = ground (arith, contains-insert_sorted x a ys)

-- The same elements.
pub contains-sorted_set : (xs : List Text) (a : Text) → contains (sorted_set xs) a ≡ contains xs a
unfolding sorted_set
contains-sorted_set [] a = refl
contains-sorted_set (x ∷ xs) a =
    rw (contains-insert_sorted x a (sorted_set xs), contains-sorted_set xs a) refl

insert_sorted-ne-nil : (x : Text) (ys : List Text) → insert_sorted x ys ≢ []
insert_sorted-ne-nil x [] = λ p. cc
insert_sorted-ne-nil x (y ∷ ys) = ground arith

pub sorted_set-eq-nil : (xs : List Text) → (sorted_set xs ≡ []) ↔ (xs ≡ [])
unfolding sorted_set
sorted_set-eq-nil [] = (λ p. refl, λ p. refl)
sorted_set-eq-nil (x ∷ xs) = (λ p. absurd (insert_sorted-ne-nil x (sorted_set xs) p), λ p. cc)
