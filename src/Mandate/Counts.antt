-- ===== src/Mandate/Counts.antt =====
-- The magnitude counter, the caps and `covers` of flowers/mandate.py.
use flowers_oss.Base.{
  ℕ, zero, suc, ◌+◌, ◌-◌, ◌*◌, Bool, false, not, ◌&&◌, ◌||◌, Option, none, some, List, [], ◌∷◌,
  ◌++◌, ◌==◌, contains, list_eq, nat_eq, any, all, map, keep, is_empty, if◌then◌else◌,
}
use flowers_oss.Base.Text.{Text, str, strip, leb, ltb, same, is_digit}
use flowers_oss.Base.Dict
use flowers_oss.Base.Dict.{Dict}
use flowers_oss.Base.Value
use flowers_oss.Base.Value.{Value, Fields, ℤ}
use flowers_oss.Policy.{Tier, ask, tier_eq, is_refused, action_label}
use flowers_oss.Mandate.Scope.{
  norm_label, domain, on_allowlist, extract_recipients, has_recipient_intent,
}

-- The mandate's dict; `{}`, which grants nothing, is `none` of an option.
pub record Mandate : Type 0 where
  pub action_types : List Text
  pub recipient_scope : List Text
  pub magnitude_caps : Fields
  pub done_definition : Text
  pub undo_seconds : Value

pub record Counts : Type 0 where
  pub sends_total : ℕ
  pub by_domain : Dict Text ℕ
  pub by_recipient : Dict Text ℕ
  pub sent_digests : List Text

-- `new_counts()`
abbrev pub new_counts : Counts
new_counts = record { sends_total = 0; by_domain = []; by_recipient = []; sent_digests = [] }

digits_value : ℕ → Text → ℕ
digits_value n [] = n
digits_value n (c ∷ s) = digits_value (n * 10 + (c - b'0')) s

abbrev natural : Text → Option ℕ
natural s = if is_empty s || not (all is_digit s) then none else some (digits_value 0 s)

abbrev negative : Option ℕ → Option ℤ
negative none = none
negative (some zero) = some (ℤ.pos 0)
negative (some (suc n)) = some (ℤ.negsuc n)

abbrev positive : Option ℕ → Option ℤ
positive none = none
positive (some n) = some (ℤ.pos n)

abbrev signed : Text → Option ℤ
signed [] = none
signed (c ∷ s) =
    if same c b'-'
    then negative (natural s)
    else if same c b'+'
    then positive (natural s)
    else positive (natural (c ∷ s))

-- `int(value)`; `none` is a `TypeError` or a `ValueError`. The underscores that Python admits
-- between digits are not.
unfoldable pub py_int : Value → Option ℤ
unfolding digits_value strip
py_int (Value.bool b) = some (ℤ.pos (if b then 1 else 0))
py_int (Value.int n) = some n
py_int (Value.text s) = signed (strip s)
py_int _ = none

abbrev pub clamp_cap : ℕ → ℕ → Option ℤ → ℕ
clamp_cap dflt hard none = dflt
clamp_cap dflt hard (some (ℤ.negsuc _)) = 1
clamp_cap dflt hard (some (ℤ.pos n)) = if leb n 1 then 1 else if leb n hard then n else hard

-- `raw.get(k, dflt)` differs from a missing key only at an explicit null, where `int` fails.
unfoldable pub cap : Text → ℕ → ℕ → Fields → ℕ
cap key dflt hard raw = clamp_cap dflt hard (py_int (Value.get key raw))

pub record Caps : Type 0 where
  pub max_sends : ℕ
  pub per_domain : ℕ
  pub per_recipient : ℕ

-- `_caps`
unfoldable pub caps : Fields → Caps
caps raw = record {
  max_sends = cap (str "max_sends") 20 200 raw;
  per_domain = cap (str "per_domain") 10 100 raw;
  per_recipient = cap (str "per_recipient") 2 20 raw;
}

-- `int(d.get(k, 0))`
unfoldable pub count_at : Text → Dict Text ℕ → ℕ
count_at k d = elim (Dict.lookup k d) [ none ↦ 0 | some n ↦ n ]

-- A `Counter`, at one key.
unfoldable pub occurrences : Text → List Text → ℕ
occurrences k [] = 0
occurrences k (x ∷ xs) = let rest = occurrences k xs in if k == x then suc rest else rest

unfoldable pub count_all : List Text → Dict Text ℕ → Dict Text ℕ
count_all [] d = d
count_all (k ∷ ks) d = count_all ks (Dict.insert k (count_at k d + 1) d)

-- The domains of recipients, without the blank ones.
unfoldable pub domains : List Text → List Text
domains recipients = keep (λ d. not (is_empty d)) (map domain recipients)

-- Whether one more send to the recipients would pass a cap.
unfoldable pub exceeds : ℕ → List Text → Dict Text ℕ → Bool
exceeds limit keys d = any (λ k. ltb limit (count_at k d + occurrences k keys)) keys

-- `lists_action`
unfoldable pub lists_action : Option Mandate → Text → Text → Bool
lists_action none toolkit action = false
lists_action (some m) toolkit action =
    contains (map norm_label m.action_types) (norm_label (action_label toolkit action))

-- `str` of a list or a dict, and the digest of the parameters, are parameters.
module _ (repr : Value → Text) (params_digest : Fields → Text) where
  unfoldable pub bump : Counts → Text → Fields → Counts
  bump c toolkit params =
      let recipients = extract_recipients repr toolkit params in
      let digest = params_digest params in
      record {
        sends_total = c.sends_total + 1;
        by_domain = count_all (domains recipients) c.by_domain;
        by_recipient = count_all recipients c.by_recipient;
        sent_digests =
            if contains c.sent_digests digest
            then c.sent_digests
            else c.sent_digests ++ (digest ∷ []);
      }

  unfoldable pub covers_mandate : Mandate → Text → Text → Fields → Tier → Counts → Bool
  covers_mandate m toolkit action params tier c =
      let recipients = extract_recipients repr toolkit params in
      let limits = caps m.magnitude_caps in
      if not (tier == ask)
      then false
      else if is_refused toolkit action
      then false
      else if not (lists_action (some m) toolkit action)
      then false
      else if not (all (λ r. on_allowlist r m.recipient_scope) recipients)
      then false
      else if has_recipient_intent repr toolkit action params && is_empty recipients
      then false
      else if contains c.sent_digests (params_digest params)
      then false
      else if leb limits.max_sends c.sends_total
      then false
      else if exceeds limits.per_recipient recipients c.by_recipient
      then false
      else not (exceeds limits.per_domain (domains recipients) c.by_domain)

  unfoldable pub covers : Option Mandate → Text → Text → Fields → Tier → Counts → Bool
  covers none toolkit action params tier c = false
  covers (some m) toolkit action params tier c = covers_mandate m toolkit action params tier c

  -- `learned_covers`
  unfoldable pub learned_covers : Dict Text ℕ → Text → Text → Fields → Tier → ℕ → Bool
  learned_covers trust toolkit action params tier threshold =
      if not (tier == ask) || is_refused toolkit action
      then false
      else if has_recipient_intent repr toolkit action params
      then false
      else leb (if leb threshold 1 then 1 else threshold)
          (count_at (norm_label (action_label toolkit action)) trust)

-- `undo_seconds`
unfoldable pub undo_seconds : Value → ℕ
undo_seconds v = elim (py_int v) [
  | none ↦ 0
  | some (ℤ.negsuc _) ↦ 0
  | some (ℤ.pos n) ↦ if leb n 3600 then n else 3600
]
