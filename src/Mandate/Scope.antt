-- ===== src/Mandate/Scope.antt =====
-- The recipients of an action and the allow-list, of flowers/mandate.py.
use flowers_oss.Base.{
  ℕ, Bool, true, false, not, ◌&&◌, ◌||◌, Option, none, some, List, [], ◌∷◌, ◌++◌, ◌==◌, list_eq,
  nat_eq, any, all, map, meets, is_empty, if◌then◌else◌,
}
use flowers_oss.Base.Text.{
  Text, str, lower, strip, upper, starts_with, ends_with, occurs, has_char, partition, split_when,
  replace_char, same, drop_while, is_digit,
}
use flowers_oss.Base.Value
use flowers_oss.Base.Value.{Value, Fields, py_str_or_blank, or_value, truthy}
use flowers_oss.Policy.{classify, auto, tier_eq, action_label}
use flowers_oss.Mandate.Emails.{
  find_emails, dedup_lower, emails_from, is_any_letter, is_domain_char,
}

-- `_tokens`
unfoldable pub tokens : Text → List Text
tokens action = split_when (λ c. same c b'_') (lower (replace_char b'-' b'_' (upper action)))

-- `_norm_label`
unfoldable pub norm_label : Text → Text
norm_label label =
    let s = strip label in
    let (toolkit, action) = partition b':' s in
    if has_char b':' s then action_label (lower (strip toolkit)) (upper (strip action)) else lower s

-- What follows the last of the given characters.
unfoldable pub after_last : ℕ → Text → Text
after_last c [] = []
after_last c (d ∷ s) =
    let rest = after_last c s in if has_char c s then rest else if same c d then s else d ∷ s

-- `_domain`
unfoldable pub domain : Text → Text
domain recipient =
    let r = lower (strip recipient) in if has_char b'@' r then after_last b'@' r else r

abbrev is_scheme_char : ℕ → Bool
is_scheme_char c = is_any_letter c || is_digit c || same c b'+' || same c b'-' || same c b'.'

abbrev starts_with_letter : Text → Bool
starts_with_letter [] = false
starts_with_letter (c ∷ _) = is_any_letter c

-- What stands before the first character that meets the test.
unfoldable pub take_until : (ℕ → Bool) → Text → Text
take_until p [] = []
take_until p (c ∷ s) = let rest = take_until p s in if p c then [] else c ∷ rest

abbrev authority : Text → Text
authority (c ∷ d ∷ s) =
    if same c b'/' && same d b'/'
    then take_until (λ x. same x b'/' || same x b'?' || same x b'#') s
    else []
authority _ = []

-- `urlparse(s).netloc`. A bracket in it, which belongs to a numeric address, gives nothing.
unfoldable pub netloc : Text → Text
netloc s =
    let (scheme, rest) = partition b':' s in
    let found =
      if has_char b':' s && starts_with_letter scheme && all is_scheme_char scheme
      then authority rest
      else authority s in
    if has_char b'[' found || has_char b']' found then [] else found

-- `_host`
unfoldable pub host : Text → Text
host url =
    let s = lower (strip url) in
    let full = if occurs (str "://") s then s else str "http://" ++ s in
    if is_empty s then [] else strip (partition b':' (after_last b'@' (netloc full))).0

abbrev has_two : Text → Bool
has_two (_ ∷ _ ∷ _) = true
has_two _ = false

-- `_DOMAIN_RE.match`: domain characters, the last of them a top-level label behind a dot.
unfoldable pub is_domain : Text → Bool
is_domain s =
    let label = after_last b'.' s in
    all is_domain_char s
    && has_char b'.' s
    && not (s == b'.' ∷ label)
    && all is_any_letter label
    && has_two label

abbrev first_of : List Text → Option Text
first_of [] = none
first_of (s ∷ _) = some s

-- `_sanitize_scope_entry`
unfoldable pub sanitize_scope_entry : Text → Option Text
sanitize_scope_entry entry =
    let s = lower (strip entry) in
    let dom = drop_while (λ c. same c b'@') s in
    if is_empty s
    then none
    else if has_char b'@' s && not (starts_with s (str "@"))
    then first_of (find_emails s)
    else if is_domain dom
    then some dom
    else none

-- `_on_allowlist`, one entry of the scope: the recipient is the entry, or its domain or host is the
-- entry or lies below it.
unfoldable pub entry_admits : Text → Text → Bool
entry_admits recipient entry =
    let r = lower (strip recipient) in
    let e = drop_while (λ c. same c b'@') (lower (strip entry)) in
    let dom = domain r in
    if is_empty e
    then false
    else r == e
      || not (is_empty dom) && (dom == e || ends_with dom (b'.' ∷ e))
      || not (has_char b'@' r) && (r == e || ends_with r (b'.' ∷ e))

unfoldable pub on_allowlist : Text → List Text → Bool
on_allowlist recipient scope =
    if is_empty (lower (strip recipient)) then false else any (entry_admits recipient) scope

abbrev pub delivering_verbs : List Text
delivering_verbs =
    str "send"
    ∷ str "reply"
    ∷ str "forward"
    ∷ str "post"
    ∷ str "dm"
    ∷ str "submit"
    ∷ str "apply"
    ∷ str "publish"
    ∷ str "share"
    ∷ str "invite"
    ∷ []

unfoldable pub is_recipient_bearing : Text → Text → Bool
is_recipient_bearing toolkit action =
    let tk = lower (strip toolkit) in
    if tk == str "browser"
    then not (classify (str "browser") action [] == auto)
    else if tk == str "gmail" || tk == str "slack"
    then meets (tokens action) delivering_verbs
    else false

abbrev recipient_keys : List Text
recipient_keys =
    str "to"
    ∷ str "cc"
    ∷ str "bcc"
    ∷ str "recipient"
    ∷ str "recipients"
    ∷ str "attendees"
    ∷ str "attendee_emails"
    ∷ str "guests"
    ∷ str "participants"
    ∷ str "invitees"
    ∷ str "members"
    ∷ str "users"
    ∷ str "user"
    ∷ str "invited"
    ∷ []

abbrev flat : List (List Text) → List Text
flat [] = []
flat (xs ∷ xss) = xs ++ flat xss

-- `str` of a list or a dict is a parameter.
module _ (repr : Value → Text) where
  abbrev channel : Text → Fields → List Text
  channel tk params =
      let ch = lower (strip (py_str_or_blank repr (Value.get (str "channel") params))) in
      if tk == str "slack" && not (is_empty ch) then ch ∷ [] else []

  -- The texts that `_host` is given; an address that is no text is written by `str`.
  unfoldable pub extract_recipients : Text → Fields → List Text
  extract_recipients toolkit params =
      let tk = lower (strip toolkit) in
      let target = host (
        py_str_or_blank repr
          (or_value (Value.get (str "url") params) (Value.get (str "target") params))) in
      if tk == str "browser"
      then (if is_empty target then [] else target ∷ [])
      else dedup_lower (
          flat (map (λ key. emails_from repr (Value.get key params)) recipient_keys)
          ++ channel tk params)

  unfoldable pub has_recipient_intent : Text → Text → Fields → Bool
  has_recipient_intent toolkit action params =
      is_recipient_bearing toolkit action
      || not (is_empty (extract_recipients toolkit params))
      || any (λ key. truthy (Value.get key params)) recipient_keys
