-- ===== src/Mandate/Admission.antt =====
-- Which recipients an allow-list of addresses admits, and which addresses a fetched page admits.
use flowers_oss.Base.{
  ℕ, ◌≡◌, refl, Bool, true, false, not, ◌&&◌, ◌||◌, List, [], ◌∷◌, ◌++◌, ◌==◌, contains, list_eq,
  nat_eq, any, all, keep, map, is_empty, arith, contains-append,
}
use mathlib.Core.List.{reverse, reverse-cons}
use flowers_oss.Base.Text.{
  Text, str, lower, strip, same, has_char, starts_with, ends_with, drop_while,
}
use flowers_oss.Mandate.Scope.{after_last, domain, host, entry_admits, on_allowlist}
use flowers_oss.Mandate.Hosts.{
  registrable, host_admits, FetchEvent, admitted_from, admitted_from_fetch,
}

-- The page of the event is one that was fetched, and its host and the address have one registrable
-- domain.
unfoldable pub is_provenance : Text → FetchEvent → Text → Bool
is_provenance email e raw =
    let of_email = registrable (domain (lower (strip raw))) in
    e.kind == str "fetch"
    && e.ok
    && not (is_empty e.url)
    && lower (strip raw) == email
    && not (is_empty of_email)
    && of_email == registrable (lower (strip (host e.url)))

contains-map_hosts :
    (url : Text) (emails : List Text) (email : Text)
    → contains (map (λ em. lower (strip em)) (keep (λ em. host_admits em (host url)) emails)) email
      ≡ any (λ em. host_admits em (host url) && email == lower (strip em)) emails
contains-map_hosts url [] email = refl
contains-map_hosts url (em ∷ emails) email = ground (arith, contains-map_hosts url emails email)

any-is_provenance :
    (email : Text) (e : FetchEvent) (emails : List Text)
    → any (is_provenance email e) emails ≡ (
        e.kind == str "fetch"
        && e.ok
        && not (is_empty e.url)
        && any (λ em. host_admits em (host e.url) && email == lower (strip em)) emails)
unfolding is_provenance host_admits
any-is_provenance email e [] = ground arith
any-is_provenance email e (em ∷ emails) = ground (arith, any-is_provenance email e emails)

-- An address is admitted exactly when some page that was fetched lists it and has its registrable
-- domain.
pub contains-admitted_from_fetch :
    (events : List FetchEvent) (email : Text)
    → contains (admitted_from_fetch events) email
      ≡ any (λ e. any (is_provenance email e) e.emails) events
unfolding admitted_from_fetch
contains-admitted_from_fetch [] email = refl
contains-admitted_from_fetch (e ∷ events) email = ground (
  arith,
  contains-admitted_from_fetch events email,
  contains-append (admitted_from e) (admitted_from_fetch events) email,
  contains-map_hosts e.url e.emails email,
  any-is_provenance email e e.emails,
)

-- An entry as `_on_allowlist` reads it.
abbrev pub normal_entry : Text → Text
normal_entry entry = drop_while (λ c. same c b'@') (lower (strip entry))

has_char-after_last : (c : ℕ) (s : Text) → has_char c (after_last c s) ≡ false
unfolding has_char after_last
has_char-after_last c [] = refl
has_char-after_last c (d ∷ s) = ground (arith, has_char-after_last c s)

has_char-domain : (r : Text) → has_char b'@' (domain r) ≡ false
unfolding domain
has_char-domain r = ground (arith, has_char-after_last b'@' (lower (strip r)))

has_char-append : (c : ℕ) (s t : Text) → has_char c (s ++ t) ≡ (has_char c s || has_char c t)
unfolding has_char
has_char-append c [] t = refl
has_char-append c (d ∷ s) t = ground (arith, has_char-append c s t)

has_char-starts_with :
    (c : ℕ) (s p : Text) → starts_with s p ≡ true → has_char c p ≡ true → has_char c s ≡ true
unfolding has_char starts_with
has_char-starts_with c s [] h m = cc
has_char-starts_with c [] (d ∷ p) h m = cc
has_char-starts_with c (e ∷ s) (d ∷ p) h m = ground (arith, has_char-starts_with c s p)

has_char-reverse : (c : ℕ) (s : Text) → has_char c (reverse s) ≡ has_char c s
unfolding has_char
has_char-reverse c [] = refl
has_char-reverse c (d ∷ s) =
    rw (reverse-cons d s, has_char-append c (reverse s) (d ∷ []))
      (ground (arith, has_char-reverse c s))

has_char-ends_with :
    (c : ℕ) (s p : Text) → ends_with s p ≡ true → has_char c p ≡ true → has_char c s ≡ true
unfolding ends_with
has_char-ends_with c s p h m =
    rw⁻¹ (has_char-reverse c s)
      (has_char-starts_with c (reverse s) (reverse p) h (rw (has_char-reverse c p) m))

-- An entry that is an address admits that address only.
entry_admits_address :
    (r entry : Text)
    → has_char b'@' (normal_entry entry) ≡ true
    → entry_admits r entry ≡ true
    → (lower (strip r) == normal_entry entry) ≡ true
unfolding entry_admits has_char
entry_admits_address r entry address h =
    let low = lower (strip r) in
    let e = normal_entry entry in
    ground (
      arith,
      has_char-domain low,
      has_char-ends_with b'@' (domain low) (b'.' ∷ e),
      has_char-ends_with b'@' low (b'.' ∷ e),
    )

any_addresses :
    (r : Text) (scope : List Text)
    → all (λ entry. has_char b'@' (normal_entry entry)) scope ≡ true
    → any (entry_admits r) scope ≡ true
    → contains (map normal_entry scope) (lower (strip r)) ≡ true
any_addresses r [] addresses h = cc
any_addresses r (entry ∷ scope) addresses h =
    ground (arith, any_addresses r scope, entry_admits_address r entry)

-- An allow-list of addresses, none of them a domain, admits a recipient only if the recipient is
-- one of those addresses.
pub on_allowlist_addresses :
    (r : Text) (scope : List Text)
    → all (λ entry. has_char b'@' (normal_entry entry)) scope ≡ true
    → on_allowlist r scope ≡ true
    → contains (map normal_entry scope) (lower (strip r)) ≡ true
unfolding on_allowlist
on_allowlist_addresses r scope addresses h = any_addresses r scope addresses (ground arith)
