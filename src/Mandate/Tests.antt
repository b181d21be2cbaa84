-- ===== src/Mandate/Tests.antt =====
-- The theorems on the caps of flowers/mandate.py at a small mandate, and runs of it.
use flowers_oss.Base.{ℕ, ◌≡◌, refl, none, some, List, [], ◌∷◌, list_eq, nat_eq}
use flowers_oss.Base.Text.{
  Text, str, lower, upper, strip, starts_with, ends_with, occurs, has_char, partition, split_when,
  replace_char, drop_while,
}
use flowers_oss.Base.Dict
use flowers_oss.Base.Value
use flowers_oss.Base.Value.{Value, Fields, ℤ}
use flowers_oss.Policy.{
  ask, is_refused, is_money_action, is_disallowed_content, norm_action, norm_toolkit, action_tokens,
  tier_eq,
}
use flowers_oss.Mandate.Emails.{find_emails, emails_in, dedup_lower, emails_from}
use flowers_oss.Mandate.Scope.{
  tokens, norm_label, after_last, domain, host, netloc, take_until, is_domain, sanitize_scope_entry,
  entry_admits, on_allowlist, is_recipient_bearing, extract_recipients, has_recipient_intent,
}
use flowers_oss.Mandate.Counts.{
  Mandate, new_counts, py_int, cap, caps, count_at, occurrences, count_all, domains, exceeds,
  lists_action, bump, covers, covers_mandate,
}
use flowers_oss.Mandate.Bounds.{Request, grant_all}

abbrev repr : Value → Text
repr v = str "[...]"

abbrev params_digest : Fields → Text
params_digest params = Value.py_str repr (Value.get (str "subject") params)

-- Two sends in all.
abbrev limits : Fields
limits = Fields.field (str "max_sends") (Value.int (ℤ.pos 2)) Fields.end

abbrev outreach : Mandate
outreach = record {
  action_types = str "gmail:GMAIL_SEND_EMAIL" ∷ [];
  recipient_scope = str "acme.com" ∷ [];
  magnitude_caps = limits;
  done_definition = str "sent";
  undo_seconds = Value.null;
}

abbrev mail : Text → Text → Fields
mail to subject =
    Fields.field (str "to") (Value.text to)
      (Fields.field (str "subject") (Value.text subject) Fields.end)

abbrev send : Text → Text → Request
send to subject = record {
  toolkit = str "gmail";
  action = str "GMAIL_SEND_EMAIL";
  params = mail to subject;
  tier = ask;
}

-- Two that are in scope, a repeat, one that is out of scope, and one above the cap.
abbrev requests : List Request
requests =
    send (str "Bob <bob@acme.com>") (str "a")
    ∷ send (str "bob@acme.com") (str "a")
    ∷ send (str "eve@evil-acme.com") (str "b")
    ∷ send (str "kim@eu.acme.com") (str "c")
    ∷ send (str "lee@acme.com") (str "d")
    ∷ []

granted : List Request → ℕ
unfolding grant_all covers covers_mandate bump caps cap py_int count_at occurrences count_all
    domains exceeds lists_action tokens norm_label after_last domain host netloc take_until
    entry_admits on_allowlist is_recipient_bearing extract_recipients has_recipient_intent
    find_emails dedup_lower emails_from is_refused is_money_action is_disallowed_content norm_action
    norm_toolkit action_tokens lower upper strip starts_with ends_with occurs has_char partition
    split_when replace_char drop_while Dict.lookup Dict.insert Value.get Value.py_str list_eq nat_eq
    tier_eq
granted rs = (grant_all repr params_digest outreach rs new_counts).0

grants : granted requests ≡ 2
unfolding granted
grants = refl

scopes :
    (emails_in (str "Ann <Ann@Acme.com>, bob@x.co.uk.")
      ≡ str "ann@acme.com" ∷ str "bob@x.co.uk" ∷ [])
    × (sanitize_scope_entry (str "@Acme.com") ≡ some (str "acme.com"))
    × (sanitize_scope_entry (str "acme") ≡ none)
    × (host (str "https://u@Www.Acme.com:8080/a?b") ≡ str "www.acme.com")
unfolding emails_in sanitize_scope_entry is_domain find_emails dedup_lower host netloc after_last
    take_until lower strip starts_with occurs has_char partition drop_while list_eq nat_eq
scopes = (refl, refl, refl, refl)
