-- ===== src/Mandate/Grant.antt =====
-- `owner_grant` and `parse_mandate` of flowers/mandate.py.
use flowers_oss.Base.{
  ℕ, Bool, not, ◌&&◌, ◌||◌, Option, none, some, List, [], ◌∷◌, ◌++◌, ◌==◌, contains, list_eq,
  nat_eq, any, all, keep, map, meets, length, take, is_empty, if◌then◌else◌,
}
use flowers_oss.Base.Text.{Text, str, strip, leb, has_char, partition}
use flowers_oss.Base.Value
use flowers_oss.Base.Value.{
  ℤ, Value, Values, Fields, values_list, fields_list, py_str, py_str_or_blank, or_value, truthy,
}
use flowers_oss.Policy.{never, classify, is_refused, tier_eq}
use flowers_oss.Mandate.Emails.{dedup_lower}
use flowers_oss.Mandate.Scope.{norm_label, sanitize_scope_entry, is_recipient_bearing}
use flowers_oss.Mandate.Counts.{Mandate, caps, undo_seconds}
use flowers_oss.Mandate.Goal.{Goal, goal_named_recipients, goal_words, send_imperatives}

abbrev number : ℕ → Value
number n = Value.int (ℤ.pos n)

abbrev pub caps_of : ℕ → ℕ → ℕ → Fields
caps_of max_sends per_domain per_recipient = Fields.field (str "max_sends") (number max_sends) (
    Fields.field (str "per_domain") (number per_domain)
      (Fields.field (str "per_recipient") (number per_recipient) Fields.end))

-- `_caps`, as the dict that it builds
abbrev clamped : Fields → Fields
clamped raw = let c = caps raw in caps_of c.max_sends c.per_domain c.per_recipient

-- Whether the label names a toolkit and an action that deliver a message.
unfoldable pub is_delivering : Text → Bool
is_delivering label =
    let (tk, act) = partition b':' label in
    not (is_empty tk) && not (is_empty act) && is_recipient_bearing tk act

-- The entries that can be used.
unfoldable pub sanitized : List Text → List Text
sanitized [] = []
sanitized (r ∷ rs) =
    let rest = sanitized rs in
    elim (sanitize_scope_entry r) [ none ↦ rest | some s ↦ if is_empty s then rest else s ∷ rest ]

-- What an iteration over `value or []` visits; none is a `TypeError`.
unfoldable pub iterate : Value → Option (List Value)
iterate Value.null = some []
iterate (Value.bool b) = if b then none else some []
iterate (Value.int n) = if truthy (Value.int n) then none else some []
iterate (Value.text s) = some (map (λ c. Value.text (c ∷ [])) s)
iterate (Value.array vs) = some (values_list vs)
iterate (Value.object d) = some (map (λ e. Value.text e.0) (fields_list d))

-- Whether a mandate may list the label: not a refused action, and not an irreversible one.
unfoldable pub is_grantable : Text → Bool
is_grantable label =
    let (tk, act) = partition b':' label in
    has_char b':' label
    && not (is_empty tk)
    && not (is_empty act)
    && not (is_refused tk act)
    && not (classify tk act [] == never)

-- `str` of a list or a dict is a parameter.
module _ (repr : Value → Text) where
  -- The proposal is what `parse_mandate` gave; an empty one is `none`.
  unfoldable pub owner_grant : Option Mandate → Goal → Option Mandate
  owner_grant none goal = none
  owner_grant (some proposed) goal =
      let types = keep (has_char b':') (map norm_label proposed.action_types) in
      let named = goal_named_recipients repr goal in
      let scope = dedup_lower (sanitized proposed.recipient_scope) in
      let n = length scope in
      if is_empty types
      then none
      else if not (all is_delivering types)
      then none
      else if not (meets (goal_words repr goal) send_imperatives)
      then none
      else if is_empty named
      then none
      else if is_empty scope || any (λ s. not (contains named s)) scope
      then none
      else some (record {
        action_types = types;
        recipient_scope = scope;
        magnitude_caps = caps_of n n 1;
        done_definition = take 500 (strip proposed.done_definition);
        undo_seconds = number 0;
      })

  -- The loop over the proposed action types, with the labels found so far.
  unfoldable pub collect_types : List Text → List Value → List Text
  collect_types out [] = out
  collect_types out (a ∷ proposed) =
      let label = norm_label (py_str repr a) in
      let out' = if contains out label then out else out ++ (label ∷ []) in
      let skipped = collect_types out proposed in
      let more = collect_types out' proposed in
      if not (is_grantable label) then skipped else if leb 32 (length out') then out' else more

  unfoldable pub add_new : List Text → List Text → List Text
  add_new out [] = out
  add_new out (s ∷ ss) = add_new (if contains out s then out else out ++ (s ∷ [])) ss

  -- The proposed scope and the recipients that the owner named, at most 128.
  unfoldable pub scope_of : List Value → Goal → List Text
  scope_of proposed goal = take 128 (
      add_new (add_new [] (sanitized (map (py_str repr) proposed)))
        (goal_named_recipients repr goal))

  -- The caps of `value or {}`; none is an `AttributeError`.
  unfoldable pub proposed_caps : Value → Option Fields
  proposed_caps v =
      if not (truthy v)
      then some (clamped Fields.end)
      else elim v [ Value.object d ↦ some (clamped d) | _ ↦ none ]

  abbrev pub with_caps :
      List Text → Fields → Goal → List Value → Option Fields → Option (Option Mandate)
  with_caps types raw goal proposed none = none
  with_caps types raw goal proposed (some limits) = some (
      some (record {
        action_types = types;
        recipient_scope = scope_of proposed goal;
        magnitude_caps = limits;
        done_definition =
            take 500 (strip (py_str_or_blank repr (Value.get (str "done_definition") raw)));
        undo_seconds = number (undo_seconds (Value.get (str "undo_seconds") raw));
      }))

  abbrev pub with_scope : List Text → Fields → Goal → Option (List Value) → Option (Option Mandate)
  with_scope types raw goal none = none
  with_scope types raw goal (some proposed) =
      with_caps types raw goal proposed (proposed_caps (Value.get (str "magnitude_caps") raw))

  abbrev pub with_types : Fields → Goal → List Text → Option (Option Mandate)
  with_types raw goal types =
      if is_empty types
      then some none
      else with_scope types raw goal (iterate (Value.get (str "recipient_scope") raw))

  -- The part of `parse_mandate` on the mandate's dict.
  unfoldable pub validate : Fields → Goal → Option (Option Mandate)
  validate raw goal = elim (iterate (Value.get (str "action_types") raw)) [
    | none ↦ none
    | some proposed ↦ with_types raw goal (collect_types [] proposed)
  ]

  -- `parse_mandate` on the parsed content. The outer none is an exception, the inner one is no
  -- mandate.
  unfoldable pub parse_mandate : Option Value → Goal → Option (Option Mandate)
  parse_mandate (some (Value.object content)) goal = elim (Value.get (str "mandate") content) [
    | Value.object raw ↦ validate raw goal
    | _ ↦ some none
  ]
  parse_mandate _ goal = some none
