-- ===== src/Mandate/Hosts.antt =====
-- Discovered recipients of flowers/mandate.py: the registrable domain of a page admits an address.
use flowers_oss.Base.{
  ◌+◌, ℕ, Bool, not, ◌&&◌, ◌||◌, List, [], ◌∷◌, ◌++◌, ◌==◌, contains, list_eq, nat_eq, keep, map,
  length, take, is_empty, if◌then◌else◌,
}
use mathlib.Core.List.{reverse}
use flowers_oss.Base.Text.{words, Text, str, lower, strip, leb, same, runs, join}
use flowers_oss.Mandate.Scope.{domain, host}

abbrev public_suffixes : List Text
public_suffixes = words (
    "co.uk" ∷ "org.uk" ∷ "me.uk" ∷ "ltd.uk" ∷ "plc.uk" ∷ "net.uk" ∷ "sch.uk" ∷ "ac.uk" ∷ "gov.uk"
    ∷ "nhs.uk" ∷ "com.au" ∷ "net.au" ∷ "org.au" ∷ "edu.au" ∷ "gov.au" ∷ "id.au" ∷ "co.jp" ∷ "or.jp"
    ∷ "ne.jp" ∷ "ac.jp" ∷ "go.jp" ∷ "co.nz" ∷ "net.nz" ∷ "org.nz" ∷ "govt.nz" ∷ "ac.nz" ∷ "co.za"
    ∷ "org.za" ∷ "com.br" ∷ "net.br" ∷ "gov.br" ∷ "com.cn" ∷ "net.cn" ∷ "org.cn" ∷ "gov.cn"
    ∷ "co.in" ∷ "net.in" ∷ "org.in" ∷ "gov.in" ∷ "co.kr" ∷ "or.kr" ∷ "com.mx" ∷ "com.sg" ∷ "com.hk"
    ∷ "com.tw" ∷ "co.il" ∷ "org.il" ∷ "com.tr" ∷ "gov.tr" ∷ "com.ua" ∷ "com.ar" ∷ "co.id" ∷ "or.id"
    ∷ "github.io" ∷ "herokuapp.com" ∷ "web.app" ∷ "firebaseapp.com" ∷ "netlify.app" ∷ "vercel.app"
    ∷ "pages.dev" ∷ "blogspot.com" ∷ "wordpress.com" ∷ "s3.amazonaws.com" ∷ "azurewebsites.net"
    ∷ "cloudfront.net" ∷ [])

-- `".".join(parts[-n:])`, for at least `n` parts
abbrev last_parts : ℕ → List Text → Text
last_parts n parts = join (str ".") (reverse (take n (reverse parts)))

abbrev ends_in_suffix : ℕ → List Text → Bool
ends_in_suffix n parts = leb n (length parts) && contains public_suffixes (last_parts n parts)

-- One part more than the public suffix of `n` parts.
abbrev below_suffix : ℕ → List Text → Text
below_suffix n parts = if leb (n + 1) (length parts) then last_parts (n + 1) parts else []

-- `_registrable`; the dots at the ends add no part.
unfoldable pub registrable : Text → Text
registrable d =
    let parts = runs (λ c. not (same c b'.')) (lower (strip d)) in
    if not (leb 2 (length parts))
    then []
    else if ends_in_suffix 3 parts
    then below_suffix 3 parts
    else if ends_in_suffix 2 parts
    then below_suffix 2 parts
    else last_parts 2 parts

unfoldable pub host_admits : Text → Text → Bool
host_admits email page_host =
    let of_email = registrable (domain (lower (strip email))) in
    let of_host = registrable (lower (strip page_host)) in
    not (is_empty of_email) && of_email == of_host

-- An event of a step; a missing key is blank, false or empty.
pub record FetchEvent : Type 0 where
  pub kind : Text
  pub ok : Bool
  pub url : Text
  pub emails : List Text

abbrev pub admitted_from : FetchEvent → List Text
admitted_from e =
    if not (e.kind == str "fetch") || not e.ok || is_empty e.url
    then []
    else map (λ em. lower (strip em)) (keep (λ em. host_admits em (host e.url)) e.emails)

-- `admitted_from_fetch`, whose set is a list
unfoldable pub admitted_from_fetch : List FetchEvent → List Text
admitted_from_fetch [] = []
admitted_from_fetch (e ∷ events) = admitted_from e ++ admitted_from_fetch events
