-- ===== src/Readback/Laws.antt =====
-- What a read-back comparison can and cannot conclude.
use flowers_oss.Base.{
  ◌≡◌, refl, ◌≢◌, ◌↔◌, Bool, true, false, not, ◌&&◌, none, some, List, [], ◌∷◌, Eq, ◌==◌, contains,
  list_eq, nat_eq, option_eq, all, keep, is_empty, contains-keep, any_elim_contains, arith,
}
use flowers_oss.Base.Text.{Text}
use flowers_oss.Base.Sorted.{sorted_set, sorted_set-eq-nil}
use flowers_oss.Base.Dict
use flowers_oss.Base.Dict.{Dict}
use flowers_oss.Base.Value.{Value}
use flowers_oss.Readback.{
  snapshot_diff, has_effect, Item, id_values, text_values, item_at, item_matches, identity,
  carries_effect, added_keys, has_expected_effect,
}

is_empty-sorted_set : (xs : List Text) → is_empty (sorted_set xs) ≡ is_empty xs
is_empty-sorted_set xs = ground (arith, sorted_set-eq-nil xs)

is_empty-keep_elim :
    (p : Text → Bool) (xs : List Text) (k : Text)
    → is_empty (keep p xs) ≡ true
    → contains xs k ≡ true
    → p k ≡ false
is_empty-keep_elim p [] k h m = cc
is_empty-keep_elim p (x ∷ xs) k h m = ground (arith, is_empty-keep_elim p xs k)

is_empty-keep_intro :
    (p : Text → Bool) (xs : List Text)
    → ((k : Text) → contains xs k ≡ true → p k ≡ false)
    → is_empty (keep p xs) ≡ true
is_empty-keep_intro p [] h = refl
is_empty-keep_intro p (x ∷ xs) h =
    ground (arith, h x, is_empty-keep_intro p xs (λ k m. h k (ground arith)))

module _ {ℓ} {V : Type ℓ} ⦃e : Eq V⦄ where
  abbrev is_absent : Dict Text V → Text → Bool
  is_absent d k = not (contains (Dict.keys d) k)

  abbrev is_altered : Dict Text V → Dict Text V → Text → Bool
  is_altered before after k =
      contains (Dict.keys after) k && not (Dict.lookup k before == Dict.lookup k after)

  agree_of_no_effect :
      (before after : Dict Text V)
      → has_effect (snapshot_diff before after) ≡ false
      → (k : Text) → Dict.lookup k before ≡ Dict.lookup k after
  unfolding has_effect snapshot_diff
  agree_of_no_effect before after h k =
      let old = Dict.keys before in
      let new = Dict.keys after in
      ground (
        arith,
        is_empty-keep_elim (is_absent before) new k,
        is_empty-keep_elim (is_altered before after) old k,
        is_empty-keep_elim (is_absent after) old k,
        is_empty-sorted_set (keep (is_absent before) new),
        is_empty-sorted_set (keep (is_altered before after) old),
        is_empty-sorted_set (keep (is_absent after) old),
        Dict.contains-keys before k,
        Dict.contains-keys after k,
      )

  no_effect_of_agree :
      (before after : Dict Text V)
      → ((k : Text) → Dict.lookup k before ≡ Dict.lookup k after)
      → has_effect (snapshot_diff before after) ≡ false
  unfolding has_effect snapshot_diff
  no_effect_of_agree before after h =
      let old = Dict.keys before in
      let new = Dict.keys after in
      ground (
        arith,
        is_empty-keep_intro (is_absent before) new
            (λ k m. ground (arith, h k, Dict.contains-keys before k, Dict.contains-keys after k)),
        is_empty-keep_intro (is_altered before after) old
            (λ k m. ground (arith, h k, Dict.contains-keys before k, Dict.contains-keys after k)),
        is_empty-keep_intro (is_absent after) old
            (λ k m. ground (arith, h k, Dict.contains-keys before k, Dict.contains-keys after k)),
        is_empty-sorted_set (keep (is_absent before) new),
        is_empty-sorted_set (keep (is_altered before after) old),
        is_empty-sorted_set (keep (is_absent after) old),
      )

  -- A comparison shows no effect exactly when both snapshots hold the same item at every key.
  pub has_effect-snapshot_diff_iff :
      (before after : Dict Text V)
      → (has_effect (snapshot_diff before after) ≡ false)
        ↔ ((k : Text) → Dict.lookup k before ≡ Dict.lookup k after)
  has_effect-snapshot_diff_iff before after =
      (agree_of_no_effect before after, no_effect_of_agree before after)

module _ (repr : Value → Text) (before after : Dict Text Item) (fp : Item) where
  -- An expected effect is only ever confirmed by an item that is new in the second snapshot, whose
  -- identity is every id that the fingerprint names, and that matches all its other values.
  pub has_expected_effect_sound :
      has_expected_effect repr before after fp ≡ some true
      → (key : Text) × (Dict.lookup key before ≡ none)
        × (Dict.lookup key after ≢ none)
        × (all (λ v. v == identity repr key (item_at repr key after)) (id_values repr fp) ≡ true)
        × (item_matches repr (item_at repr key after) (text_values repr fp) ≡ true)
  unfolding has_expected_effect carries_effect added_keys
  has_expected_effect_sound h =
      let (key, new, carried) =
        any_elim_contains (carries_effect repr fp after) (added_keys before after) (ground arith) in
      let fresh = contains-keep (λ k. not (contains (Dict.keys before) k)) (Dict.keys after) key in
      (
        key,
        ground (arith, fresh, Dict.contains-keys before key),
        ground (arith, fresh, Dict.contains-keys after key),
        ground arith,
        ground arith,
      )
