-- ===== src/Base/Text.antt =====
-- Python's `str`, as the list of its code points. Case and white space are those of ASCII.
use Prim.Native.Nat.{ℕ, ◌+◌, ◌-◌, compare, Ordering}
use Prim.Native.Char.{code}
use Prim.Native.String.{String}
use mathlib.Core.Bool.{Bool, true, false, ◌&&◌, ◌||◌, not}
use mathlib.Core.List.{List, [], ◌∷◌, ◌++◌, map, reverse}
use flowers_oss.Base.Equality.{if◌then◌else◌}
use flowers_oss.Base.Lists.{keep, is_empty}

abbrev pub Text : Type 0
Text = List ℕ

-- A literal.
abbrev pub str : String → Text
str String.[] = []
str (String.◌∷◌ c s) = code c ∷ str s

abbrev pub words : List String → List Text
words = map str

abbrev pub leb : ℕ → ℕ → Bool
leb a b = elim (compare a b) [ Ordering.gt ↦ false | _ ↦ true ]

abbrev pub ltb : ℕ → ℕ → Bool
ltb a b = elim (compare a b) [ Ordering.lt ↦ true | _ ↦ false ]

abbrev pub same : ℕ → ℕ → Bool
same a b = elim (compare a b) [ Ordering.eq ↦ true | _ ↦ false ]

abbrev pub lower_char : ℕ → ℕ
lower_char c = if leb b'A' c && leb c b'Z' then c + 32 else c

abbrev pub upper_char : ℕ → ℕ
upper_char c = if leb b'a' c && leb c b'z' then c - 32 else c

-- The white space of `str.strip` and of `\s`.
abbrev pub is_space : ℕ → Bool
is_space c = leb 9 c && leb c 13 || leb 28 c && leb c 32

abbrev pub is_digit : ℕ → Bool
is_digit c = leb b'0' c && leb c b'9'

-- `[a-z]`
abbrev pub is_letter : ℕ → Bool
is_letter c = leb b'a' c && leb c b'z'

-- `[a-z0-9]`
abbrev pub is_alnum : ℕ → Bool
is_alnum c = is_letter c || is_digit c

unfoldable pub lower : Text → Text
lower = map lower_char

unfoldable pub upper : Text → Text
upper = map upper_char

unfoldable pub drop_while : (ℕ → Bool) → Text → Text
drop_while p [] = []
drop_while p (c ∷ s) = let rest = drop_while p s in if p c then rest else c ∷ s

unfoldable pub strip : Text → Text
unfolding drop_while
strip s = reverse (drop_while is_space (reverse (drop_while is_space s)))

unfoldable pub starts_with : Text → Text → Bool
starts_with s [] = true
starts_with [] (d ∷ p) = false
starts_with (c ∷ s) (d ∷ p) = same c d && starts_with s p

unfoldable pub ends_with : Text → Text → Bool
unfolding starts_with
ends_with s p = starts_with (reverse s) (reverse p)

-- `sub in s`
unfoldable pub occurs : Text → Text → Bool
unfolding starts_with
occurs sub [] = starts_with [] sub
occurs sub (c ∷ s) = starts_with (c ∷ s) sub || occurs sub s

-- `s.replace(a, b)` for two characters
unfoldable pub replace_char : ℕ → ℕ → Text → Text
replace_char a b = map (λ c. if same c a then b else c)

abbrev pub cons_part : Bool → ℕ → List Text → List Text
cons_part true c parts = [] ∷ parts
cons_part false c [] = (c ∷ []) ∷ []
cons_part false c (part ∷ parts) = (c ∷ part) ∷ parts

-- The parts between the characters that meet the test, as `s.split` gives them.
unfoldable pub split_when : (ℕ → Bool) → Text → List Text
split_when p [] = [] ∷ []
split_when p (c ∷ s) = cons_part (p c) c (split_when p s)

-- The maximal runs of characters that meet the test, as `re.findall` gives them.
unfoldable pub runs : (ℕ → Bool) → Text → List Text
unfolding split_when
runs p s = keep (λ w. not (is_empty w)) (split_when (λ c. not (p c)) s)

-- `s.partition(c)`: what stands before the first `c`, and after it.
unfoldable pub partition : ℕ → Text → Text × Text
partition c [] = ([], [])
partition c (d ∷ s) = let rest = partition c s in if same d c then ([], s) else (d ∷ rest.0, rest.1)

-- `c in s`
unfoldable pub has_char : ℕ → Text → Bool
has_char c [] = false
has_char c (d ∷ s) = same d c || has_char c s

-- `sep.join(parts)`
unfoldable pub join : Text → List Text → Text
join sep [] = []
join sep (s ∷ []) = s
join sep (s ∷ t ∷ r) = s ++ (sep ++ join sep (t ∷ r))

-- The order by code points.
unfoldable pub text_lt : Text → Text → Bool
text_lt s [] = false
text_lt [] (d ∷ t) = true
text_lt (c ∷ s) (d ∷ t) = ltb c d || same c d && text_lt s t
