-- ===== src/Readback/Tests.antt =====
-- Runs of the read-back comparison.
use flowers_oss.Readback.Laws.{has_expected_effect_sound}
use flowers_oss.Base.{
  ℕ, ◌≡◌, refl, ◌≢◌, ◌==◌, all, Bool, true, false, Option, none, some, [], ◌∷◌, list_eq, nat_eq,
}
use flowers_oss.Base.Text.{Text, str, strip, lower, runs, has_char}
use flowers_oss.Base.Dict
use flowers_oss.Base.Dict.{Dict}
use flowers_oss.Base.Value
use flowers_oss.Base.Value.{Value}
use flowers_oss.Readback.{
  Item, has_expected_effect, fingerprint_values, id_values, text_values, item_at, carries_effect,
  identity, added_keys, item_matches, value_matches, word_tokens, norm,
}

abbrev repr : Value → Text
repr v = str "[...]"

expected : Dict Text Item → Dict Text Item → Item → Option Bool
unfolding has_expected_effect fingerprint_values id_values text_values item_at carries_effect
    added_keys item_matches value_matches word_tokens norm strip lower runs has_char Dict.lookup
    Dict.keys Dict.values Value.py_str list_eq nat_eq
expected = has_expected_effect repr

abbrev mail : Text → Text → Item
mail to subject = (str "to", Value.text to) ∷ (str "subject", Value.text subject) ∷ []

runs_of_match :
    (expected []
        ((str "m1", mail (str "Bob@acme.com") (str "Re: Fix it")) ∷ [])
        (mail (str "bob@acme.com") (str "fix"))
      ≡ some true)
    × (expected []
          ((str "m1", mail (str "eve@acme.com") (str "bob@acme.com fix")) ∷ [])
          (mail (str "bob@acme.com") (str "fix"))
        ≡ some false)
    × (expected []
          ((str "m1", mail (str "bob@acme.com") (str "Prefix")) ∷ [])
          (mail (str "bob@acme.com") (str "fix"))
        ≡ some false)
    × (expected [] ((str "m1", []) ∷ []) ((str "email_id", Value.text (str "M1")) ∷ []) ≡ some true)
    × (expected [] [] [] ≡ none)
unfolding expected
runs_of_match = (refl, refl, refl, refl, refl)

abbrev empty : Dict Text Item
empty = []

abbrev inbox : Dict Text Item
inbox = (str "m1", mail (str "Bob@acme.com") (str "Re: Fix it")) ∷ []

has_expected_effect_sound_example :
    let fp = mail (str "bob@acme.com") (str "fix") in
    (key : Text) × (Dict.lookup key empty ≡ none)
    × (Dict.lookup key inbox ≢ none)
    × (all (λ v. v == identity repr key (item_at repr key inbox)) (id_values repr fp) ≡ true)
    × (item_matches repr (item_at repr key inbox) (text_values repr fp) ≡ true)
unfolding expected
has_expected_effect_sound_example =
    has_expected_effect_sound repr [] inbox (mail (str "bob@acme.com") (str "fix")) refl

abbrev old : Dict Text ℕ
old = (str "a", 1) ∷ (str "b", 2) ∷ []

abbrev new : Dict Text ℕ
new = (str "b", 2) ∷ (str "a", 1) ∷ []
