-- ===== src/Mandate/Emails.antt =====
-- Addresses in text, as `_EMAIL_RE` of flowers/mandate.py finds them.
use flowers_oss.Base.{
  ℕ, zero, suc, Bool, true, false, ◌&&◌, ◌||◌, Option, none, some, List, [], ◌∷◌, ◌++◌, contains,
  list_eq, nat_eq, map, length, if◌then◌else◌, is_empty,
}
use flowers_oss.Base.Text.{Text, lower, strip, is_letter, is_digit, lower_char, same, leb}
use flowers_oss.Base.Value
use flowers_oss.Base.Value.{Value, Values}

-- `[A-Za-z]`
abbrev pub is_any_letter : ℕ → Bool
is_any_letter c = is_letter (lower_char c)

-- `[A-Za-z0-9.\-]`
abbrev pub is_domain_char : ℕ → Bool
is_domain_char c = is_any_letter c || is_digit c || same c b'.' || same c b'-'

-- `[A-Za-z0-9._%+\-]`
abbrev is_local_char : ℕ → Bool
is_local_char c = is_domain_char c || same c b'_' || same c b'%' || same c b'+'

-- The longest run at the beginning whose characters meet the test, and the rest.
unfoldable pub span : (ℕ → Bool) → Text → Text × Text
span p [] = ([], [])
span p (c ∷ s) = let rest = span p s in if p c then (c ∷ rest.0, rest.1) else ([], c ∷ s)

-- A top-level label at the beginning: a dot and two letters at least; and what follows it.
unfoldable pub top_level : Text → Option (Text × Text)
unfolding span
top_level [] = none
top_level (c ∷ s) =
    let (letters, rest) = span is_any_letter s in
    if same c b'.' && leb 2 (length letters) then some (c ∷ letters, rest) else none

abbrev prepend : ℕ → Option (Text × Text) → Option (Text × Text)
prepend c none = none
prepend c (some (s, rest)) = some (c ∷ s, rest)

abbrev first_found : Option (Text × Text) → Option (Text × Text) → Option (Text × Text)
first_found (some m) _ = some m
first_found none o = o

-- The longest domain at the beginning: domain characters, as many as leave a top-level label. The
-- flag says whether one domain character was taken already.
unfoldable pub domain_at : Bool → Text → Option (Text × Text)
domain_at started [] = none
domain_at started (c ∷ s) =
    let here = if started then top_level (c ∷ s) else none in
    let later = domain_at true s in
    if is_domain_char c then first_found (prepend c later) here else here

abbrev with_local : Text → Option (Text × Text) → Option (Text × Text)
with_local name none = none
with_local name (some (domain, rest)) = some (name ++ (b'@' ∷ domain), rest)

abbrev after_local : Text → Text → Option (Text × Text)
after_local [] _ = none
after_local (c ∷ name) [] = none
after_local (c ∷ name) (d ∷ rest) =
    if same d b'@' then with_local (c ∷ name) (domain_at false rest) else none

-- An address at the beginning of a text, and what follows it.
unfoldable pub email_at : Text → Option (Text × Text)
unfolding domain_at top_level span
email_at s = let (name, rest) = span is_local_char s in after_local name rest

-- The matches from left to right; the fuel is more than the length of the text.
unfoldable pub find_from : ℕ → Text → List Text
find_from zero s = []
find_from (suc fuel) [] = []
find_from (suc fuel) (c ∷ s) = elim (email_at (c ∷ s)) [
  | none ↦ find_from fuel s
  | some (email, rest) ↦ email ∷ find_from fuel rest
]

-- `_EMAIL_RE.findall`
unfoldable pub find_emails : Text → List Text
unfolding find_from email_at
find_emails s = find_from (suc (length s)) s

-- `_dedup_lower` on texts
unfoldable pub dedup_onto : List Text → List Text → List Text
dedup_onto out [] = out
dedup_onto out (item ∷ items) =
    let s = lower (strip item) in
    dedup_onto (if is_empty s || contains out s then out else out ++ (s ∷ [])) items

unfoldable pub dedup_lower : List Text → List Text
unfolding dedup_onto
dedup_lower items = dedup_onto [] items

-- `emails_in`
unfoldable pub emails_in : Text → List Text
emails_in s = dedup_lower (find_emails s)

-- `_emails_from`
unfoldable mutual
  unfolding Value.py_str

  pub emails_from : (Value → Text) → Value → List Text
  emails_from repr Value.null = []
  emails_from repr (Value.bool b) = map lower (find_emails (Value.py_str repr (Value.bool b)))
  emails_from repr (Value.int n) = map lower (find_emails (Value.py_str repr (Value.int n)))
  emails_from repr (Value.text s) = map lower (find_emails s)
  emails_from repr (Value.array vs) = emails_from_all repr vs
  emails_from repr (Value.object d) = map lower (find_emails (repr (Value.object d)))

  emails_from_all : (Value → Text) → Values → List Text
  emails_from_all repr Values.nil = []
  emails_from_all repr (Values.cons v vs) = emails_from repr v ++ emails_from_all repr vs
