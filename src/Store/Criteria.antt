-- ===== src/Store/Criteria.antt =====
-- `dict(value)` of a criterion, in `_step_to_dict` and `_step_from_dict` of flowers/seams/store.py.
use flowers_oss.Base.{
  Bool, true, false, Option, none, some, List, [], ◌∷◌, ◌==◌, list_eq, nat_eq, if◌then◌else◌,
}
use flowers_oss.Base.Text.{Text, str}
use flowers_oss.Base.Value.{ℤ, Value, Values, Fields, py_str}
use flowers_oss.Store.Json.{◌>>=◌}

-- What gives a pair: a list of two, a text of two characters, or a dict with two keys.
abbrev pub pair_of : Value → Option (Value × Value)
pair_of (Value.array (Values.cons k (Values.cons v Values.nil))) = some (k, v)
pair_of (Value.text (c ∷ d ∷ [])) = some (Value.text (c ∷ []), Value.text (d ∷ []))
pair_of (Value.object (Fields.field k _ (Fields.field j _ Fields.end))) =
    some (Value.text k, Value.text j)
pair_of _ = none

-- A list or a dict is no key.
abbrev pub is_hashable : Value → Bool
is_hashable (Value.array _) = false
is_hashable (Value.object _) = false
is_hashable _ = true

-- Equality of keys, for which True is 1 and False is 0.
abbrev as_number : Value → Value
as_number (Value.bool true) = Value.int (ℤ.pos 1)
as_number (Value.bool false) = Value.int (ℤ.pos 0)
as_number v = v

abbrev is_same : Value → Value → Bool
is_same Value.null Value.null = true
is_same (Value.int (ℤ.pos n)) (Value.int (ℤ.pos m)) = n == m
is_same (Value.int (ℤ.negsuc n)) (Value.int (ℤ.negsuc m)) = n == m
is_same (Value.text s) (Value.text t) = s == t
is_same _ _ = false

-- `d[key] = value`: a key that is there stays, with the new value.
unfoldable pub put_pair : Value → Value → List (Value × Value) → List (Value × Value)
unfolding list_eq nat_eq
put_pair k v [] = (k, v) ∷ []
put_pair k v ((j, w) ∷ d) =
    let rest = put_pair k v d in
    if is_same (as_number j) (as_number k) then (j, v) ∷ d else (j, w) ∷ rest

unfoldable pub dict_of_pairs : Values → List (Value × Value) → Option (List (Value × Value))
unfolding put_pair
dict_of_pairs Values.nil d = some d
dict_of_pairs (Values.cons v vs) d =
    pair_of v >>= λ p. if is_hashable p.0 then dict_of_pairs vs (put_pair p.0 p.1 d) else none

-- The text that json writes for a key.
abbrev pub key_name : Value → Text
key_name Value.null = str "null"
key_name (Value.bool true) = str "true"
key_name (Value.bool false) = str "false"
key_name v = py_str (λ _. []) v

-- Of two keys with one name the later value is read back.
unfoldable pub put_field : Text → Value → Fields → Fields
unfolding list_eq nat_eq
put_field k v Fields.end = Fields.field k v Fields.end
put_field k v (Fields.field j w d) =
    let rest = put_field k v d in if k == j then Fields.field j v d else Fields.field j w rest

unfoldable pub fields_of : List (Value × Value) → Fields → Fields
unfolding put_field py_str
fields_of [] d = d
fields_of ((k, v) ∷ pairs) d = fields_of pairs (put_field (key_name k) v d)

-- `dict(value)`, with its keys as json writes them; none is an exception.
unfoldable pub dict_of : Value → Option Fields
unfolding dict_of_pairs fields_of
dict_of (Value.object d) = some d
dict_of (Value.array vs) = dict_of_pairs vs [] >>= λ pairs. some (fields_of pairs Fields.end)
dict_of (Value.text []) = some Fields.end
dict_of _ = none
