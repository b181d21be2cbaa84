-- ===== src/Store/Json.antt =====
-- What the serializers of flowers/seams/store.py do with a dict: they read a field, give a missing one
-- its default, and list the items of an array.
use flowers_oss.Base.{
  ℕ, ◌≡◌, refl, ap, Bool, Option, none, some, List, [], ◌∷◌, ◌==◌, list_eq, nat_eq, if◌then◌else◌,
  map,
}
use flowers_oss.Base.Text.{Text}
use flowers_oss.Base.Value.{ℤ, Value, Values, Fields}

infixl 5 ◌>>=◌
abbrev pub ◌>>=◌ {ℓ κ} : {A : Type ℓ} {B : Type κ} → Option A → (A → Option B) → Option B
none >>= f = none
some a >>= f = f a

-- The entry of a key, if there is one.
unfoldable pub find : Text → Fields → Option Value
unfolding list_eq nat_eq
find key Fields.end = none
find key (Fields.field k v d) = if key == k then some v else find key d

-- Each `as_` reads an entry as a field of the record. None is an exception: a missing key without a
-- default, or a value that is not of the field's type, where Python would carry the value on.
unfoldable pub as_text : Option Value → Option Text
as_text (some (Value.text s)) = some s
as_text _ = none

unfoldable pub as_nat : Option Value → Option ℕ
as_nat (some (Value.int (ℤ.pos n))) = some n
as_nat _ = none

unfoldable pub as_bool : Option Value → Option Bool
as_bool (some (Value.bool b)) = some b
as_bool _ = none

unfoldable pub as_array : Option Value → Option Values
as_array (some (Value.array vs)) = some vs
as_array _ = none

unfoldable pub as_object : Option Value → Option Fields
as_object (some (Value.object d)) = some d
as_object _ = none

-- `dict(d.get(key) or {})`
unfoldable pub as_fields : Option Value → Option Fields
as_fields (some (Value.object d)) = some d
as_fields (some Value.null) = some Fields.end
as_fields none = some Fields.end
as_fields _ = none

-- A missing key with a default.
abbrev pub or_else : Value → Option Value → Option Value
or_else default none = some default
or_else default (some v) = some v

-- A field that may be None, also where the key is missing.
unfoldable pub as_optional {ℓ} :
    {A : Type ℓ} → (Option Value → Option A) → Option Value → Option (Option A)
as_optional read none = some none
as_optional read (some Value.null) = some none
as_optional read (some v) = read (some v) >>= λ a. some (some a)

unfoldable pub to_optional {ℓ} : {A : Type ℓ} → (A → Value) → Option A → Value
to_optional write none = Value.null
to_optional write (some a) = write a

abbrev pub of_nat : ℕ → Value
of_nat n = Value.int (ℤ.pos n)

unfoldable pub to_array {ℓ} : {A : Type ℓ} → (A → Value) → List A → Values
to_array write [] = Values.nil
to_array write (x ∷ xs) = Values.cons (write x) (to_array write xs)

unfoldable pub of_array {ℓ} : {A : Type ℓ} → (Value → Option A) → Values → Option (List A)
of_array read Values.nil = some []
of_array read (Values.cons v vs) = read v >>= λ x. (of_array read vs >>= λ xs. some (x ∷ xs))

abbrev pub read_text : Value → Option Text
read_text v = as_text (some v)

abbrev pub read_nat : Value → Option ℕ
read_nat v = as_nat (some v)

abbrev pub read_fields : Value → Option Fields
read_fields (Value.object d) = some d
read_fields _ = none

pub as_optional-text :
    (o : Option Text) → as_optional as_text (some (to_optional Value.text o)) ≡ some o
unfolding as_optional to_optional as_text
as_optional-text none = refl
as_optional-text (some s) = refl

pub as_optional-nat : (o : Option ℕ) → as_optional as_nat (some (to_optional of_nat o)) ≡ some o
unfolding as_optional to_optional as_nat
as_optional-nat none = refl
as_optional-nat (some n) = refl

pub as_optional-bool :
    (o : Option Bool) → as_optional as_bool (some (to_optional Value.bool o)) ≡ some o
unfolding as_optional to_optional as_bool
as_optional-bool none = refl
as_optional-bool (some b) = refl

pub as_optional-object :
    (o : Option Fields) → as_optional as_object (some (to_optional Value.object o)) ≡ some o
unfolding as_optional to_optional as_object
as_optional-object none = refl
as_optional-object (some d) = refl

-- Where reading what was written gives `restore x`, so it is for lists.
pub of_array-to_array {ℓ} :
    {A : Type ℓ} (write : A → Value) (read : Value → Option A) (restore : A → A)
    → ((x : A) → read (write x) ≡ some (restore x))
    → (xs : List A) → of_array read (to_array write xs) ≡ some (map restore xs)
unfolding to_array of_array
of_array-to_array write read restore h [] = refl
of_array-to_array write read restore h (x ∷ xs) =
    rw (h x, of_array-to_array write read restore h xs) refl

map_id {ℓ} : {A : Type ℓ} (xs : List A) → map (λ x. x) xs ≡ xs
map_id [] = refl
map_id (x ∷ xs) = ap (λ r. x ∷ r) (map_id xs)

pub of_array-to_array_same {ℓ} :
    {A : Type ℓ} (write : A → Value) (read : Value → Option A)
    → ((x : A) → read (write x) ≡ some x)
    → (xs : List A) → of_array read (to_array write xs) ≡ some xs
of_array-to_array_same write read h xs =
    rw (of_array-to_array write read (λ x. x) h xs, map_id xs) refl
