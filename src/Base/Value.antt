-- ===== src/Base/Value.antt =====
-- The JSON values that parameters, snapshots and plans hold. Numbers are Python's integers.
use Prim.Native.Nat.{ℕ, zero, suc, ◌+◌, ◌/◌, ◌%◌}
use mathlib.Core.Bool.{Bool, true, false}
use mathlib.Core.List.{List, [], ◌∷◌}
use flowers_oss.Base.Equality.{◌==◌, list_eq, nat_eq, if◌then◌else◌}
use flowers_oss.Base.Text.{Text, str, ltb}

-- `negsuc n` is -(n + 1).
pub data ℤ : Type 0 where
  pos : ℕ → ℤ
  negsuc : ℕ → ℤ

mutual
  pub data Value : Type 0 where
    null : Value
    bool : Bool → Value
    int : ℤ → Value
    text : Text → Value
    array : Values → Value
    object : Fields → Value

  pub data Values : Type 0 where
    nil : Values
    cons : Value → Values → Values

  pub data Fields : Type 0 where
    end : Fields
    field : Text → Value → Fields → Fields

-- `d.get(key)`, where a missing key gives `None`; of two entries the first is the one in force.
unfoldable pub get : Text → Fields → Value
unfolding list_eq nat_eq
get key end = null
get key (field k v d) = if key == k then v else get key d

unfoldable pub values_list : Values → List Value
values_list nil = []
values_list (cons v vs) = v ∷ values_list vs

unfoldable pub fields_list : Fields → List (Text × Value)
fields_list end = []
fields_list (field k v d) = (k, v) ∷ fields_list d

-- `bool(value)`
abbrev pub truthy : Value → Bool
truthy null = false
truthy (bool b) = b
truthy (int (pos zero)) = false
truthy (int _) = true
truthy (text []) = false
truthy (text _) = true
truthy (array nil) = false
truthy (array _) = true
truthy (object end) = false
truthy (object _) = true

-- The digits of a number, most significant first; the fuel is the number itself.
digits_onto : ℕ → ℕ → Text → Text
digits_onto zero n s = (b'0' + n % 10) ∷ s
digits_onto (suc fuel) n s =
    let more = digits_onto fuel (n / 10) ((b'0' + n % 10) ∷ s) in
    if ltb n 10 then (b'0' + n) ∷ s else more

unfoldable pub decimal : ℕ → Text
unfolding digits_onto
decimal n = digits_onto n n []

-- `str(value)`; what it gives for a list or a dict is the argument.
unfoldable pub py_str : (Value → Text) → Value → Text
unfolding decimal
py_str repr null = str "None"
py_str repr (bool true) = str "True"
py_str repr (bool false) = str "False"
py_str repr (int (pos n)) = decimal n
py_str repr (int (negsuc n)) = b'-' ∷ decimal (suc n)
py_str repr (text s) = s
py_str repr (array vs) = repr (array vs)
py_str repr (object d) = repr (object d)

-- `str(value or "")`
abbrev pub py_str_or_blank : (Value → Text) → Value → Text
py_str_or_blank repr v = if truthy v then py_str repr v else []

-- `a or b`
abbrev pub or_value : Value → Value → Value
or_value v w = if truthy v then v else w
