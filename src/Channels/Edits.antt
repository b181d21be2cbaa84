-- ===== src/Channels/Edits.antt =====
-- Replies that begin with "no": which of them approve the draft that they answer, and which decline it.
use flowers_oss.Base.{
  ℕ, ◌≡◌, refl, ◌∙◌, ap, Bool, true, false, ◌||◌, List, [], ◌∷◌, ◌++◌, contains, list_eq, nat_eq,
  all, is_empty, contains-append, if◌then◌else◌, Bool-cases, inl, inr, arith,
}
use mathlib.Core.List.{reverse, reverse-cons, reverse-append, append_assoc, map-append}
use flowers_oss.Base.Text.{
  Text, str, lower, lower_char, strip, starts_with, drop_while, is_space, same,
}
use flowers_oss.Base.Cut.{IsWithin, drop_while-append_one, cut_end, strip-IsWithin, all_both}
use flowers_oss.Channels.{
  cut_prefix, Decision, yes_reply, no_reply, other_reply, no_change_idioms, no_family, no_thanks,
  is_separator, rstrip, without_newline, without_send_tail, is_no_change_approval, decide_reply,
  parse_answer,
}
use flowers_oss.Channels.Shape.{
  send_tails, is_end, core, core-IsWithin, without_send_tail-HasTail, without_newline_end,
  cut_prefix_lem,
}

-- An idiom that asks for no change, between white space and separators, perhaps with "send" or "send it"
-- after it, and at the end white space and the marks that end a reply.
pub record IsNoChange (x : Text) : Type 0 where
  pub before : Text
  pub idiom : Text
  pub between : Text
  pub tail : Text
  pub after : Text
  pub begins : all is_separator before ≡ true
  pub is_idiom : contains no_change_idioms idiom ≡ true
  pub goes_on : all is_separator between ≡ true
  pub is_tail : contains send_tails tail ≡ true
  pub ends : all is_end after ≡ true
  pub reads : x ≡ before ++ (idiom ++ (between ++ (tail ++ after)))

-- A bare no, or a thanks that declines, and nothing but white space and end marks around it.
pub record IsBareNo (x : Text) : Type 0 where
  pub before : Text
  pub word : Text
  pub after : Text
  pub begins : all is_space before ≡ true
  pub is_no : contains (no_family ++ no_thanks) word ≡ true
  pub ends : all is_end after ≡ true
  pub reads : x ≡ before ++ (word ++ after)

-- What a reply that begins with "no" must be to have been read as it was.
abbrev pub Fits : Decision → Text → Type 0
Fits yes_reply x = IsNoChange x
Fits no_reply x = IsBareNo x
Fits other_reply x = Unit

abbrev is_mark : ℕ → Bool
is_mark ch = same ch b'.' || same ch b'!'

space_is_separator : (u : Text) → all is_space u ≡ true → all is_separator u ≡ true
space_is_separator [] h = refl
space_is_separator (c ∷ u) h = ground (arith, space_is_separator u)

space_is_end : (u : Text) → all is_space u ≡ true → all is_end u ≡ true
space_is_end [] h = refl
space_is_end (c ∷ u) h = ground (arith, space_is_end u)

mark_is_end : (u : Text) → all is_mark u ≡ true → all is_end u ≡ true
mark_is_end [] h = refl
mark_is_end (c ∷ u) h = ground (arith, mark_is_end u)

lower-space : (u : Text) → all is_space u ≡ true → all is_space (lower u) ≡ true
unfolding lower
lower-space [] h = refl
lower-space (c ∷ u) h = ground (arith, lower-space u)

-- The stripped reply in lower case, and what was stripped.
lower-IsWithin : (text : Text) → IsWithin is_space (lower (strip text)) (lower text)
unfolding lower
lower-IsWithin text =
    let (u, v, pu, pv, e) = strip-IsWithin text in
    (
      lower u,
      lower v,
      lower-space u pu,
      lower-space v pv,
      ap lower e
          ∙ map-append lower_char u (strip text ++ v)
          ∙ ap (λ r. lower u ++ r) (map-append lower_char (strip text) v),
    )

-- The reply that is decided on, and what was cut after it.
marks_cut : (s : Text) → (m : Text) × (all is_mark m ≡ true) × (s ≡ rstrip is_mark s ++ m)
unfolding rstrip
marks_cut s = cut_end is_mark s

reverse_kept :
    (t : Text) (c : ℕ) → reverse (if is_empty t then c ∷ [] else t ++ (c ∷ [])) ≡ c ∷ reverse t
reverse_kept [] c = refl
reverse_kept (d ∷ t) c = reverse-append (d ∷ t) (c ∷ [])

rstrip-cons : (c : ℕ) (s : Text) → is_mark c ≡ false → rstrip is_mark (c ∷ s) ≡ c ∷ rstrip is_mark s
unfolding rstrip
rstrip-cons c s h =
    rw (reverse-cons c s, drop_while-append_one is_mark (reverse s) c, h)
      (reverse_kept (drop_while is_mark (reverse s)) c)

or_falses : (b c : Bool) → (((b || c) || false) || false) ≡ (b || c)
or_falses true c = refl
or_falses false true = refl
or_falses false false = refl

contains-append_text :
    (xs ys : List Text) (x : Text) → contains (xs ++ ys) x ≡ (contains xs x || contains ys x)
unfolding list_eq nat_eq
contains-append_text xs ys x = contains-append xs ys x

assembled :
    (x p t m q t1 b t2 a k u w v : Text)
    → x ≡ p ++ ((t ++ m) ++ q)
    → t ≡ t1 ++ b
    → t1 ≡ t2 ++ (a ++ k)
    → t2 ≡ u ++ (w ++ v)
    → x ≡ (p ++ u) ++ (w ++ ((v ++ a) ++ (k ++ (b ++ (m ++ q)))))
assembled x p t m q t1 b t2 a k u w v e e1 e2 e3 = rw (e, e1, e2, e3) (simp append_assoc)

module _ (isalnum : ℕ → Bool) where
  -- What a reply decides that begins with "no".
  decide_no :
      (r : Text)
      → let t = str "no" ++ r in
        decide_reply isalnum t ≡ (
          if is_no_change_approval isalnum t
          then yes_reply
          else if contains no_family t || contains no_thanks t
          then no_reply
          else other_reply)
  unfolding decide_reply list_eq nat_eq
  decide_no r =
      let t = str "no" ++ r in
      ap
        (λ b.
          if is_no_change_approval isalnum t
          then yes_reply
          else if b
          then no_reply
          else other_reply)
        (or_falses (contains no_family t) (contains no_thanks t))

  -- An approved text, with what the reply had around it.
  approved :
      (t p m q x : Text)
      → is_no_change_approval isalnum t ≡ true
      → all is_space p ≡ true
      → all is_mark m ≡ true
      → all is_space q ≡ true
      → x ≡ p ++ ((t ++ m) ++ q)
      → IsNoChange x
  unfolding is_no_change_approval
  approved t p m q x h pp pm pq e =
      let t1 = without_newline t in
      let t2 = without_send_tail isalnum t1 in
      let (b, pb, e1) = without_newline_end t in
      let (a, k, pa, pk, e2) = without_send_tail-HasTail isalnum t1 in
      let (u, v, pu, pv, e3) = core-IsWithin t2 in
      record {
        before = p ++ u;
        idiom = core t2;
        between = v ++ a;
        tail = k;
        after = b ++ (m ++ q);
        begins = all_both is_separator p u (space_is_separator p pp) pu;
        is_idiom = h;
        goes_on = all_both is_separator v a pv pa;
        is_tail = pk;
        ends =
            all_both is_end b (m ++ q) pb
              (all_both is_end m q (mark_is_end m pm) (space_is_end q pq));
        reads = assembled x p t m q t1 b t2 a k u (core t2) v e e1 e2 e3;
      }

  declined :
      (t p m q x : Text)
      → (contains no_family t || contains no_thanks t) ≡ true
      → all is_space p ≡ true
      → all is_mark m ≡ true
      → all is_space q ≡ true
      → x ≡ p ++ ((t ++ m) ++ q)
      → IsBareNo x
  declined t p m q x h pp pm pq e = record {
    before = p;
    word = t;
    after = m ++ q;
    begins = pp;
    is_no = contains-append no_family no_thanks t ∙ h;
    ends = all_both is_end m q (mark_is_end m pm) (space_is_end q pq);
    reads = rw (e, append_assoc t m q) refl;
  }

  decide_no_of :
      (t r : Text)
      → t ≡ str "no" ++ r
      → decide_reply isalnum t ≡ (
          if is_no_change_approval isalnum t
          then yes_reply
          else if contains no_family t || contains no_thanks t
          then no_reply
          else other_reply)
  decide_no_of t r e = rw e (decide_no r)

  decided :
      (t p m q x : Text)
      → starts_with t (str "no") ≡ true
      → all is_space p ≡ true
      → all is_mark m ≡ true
      → all is_space q ≡ true
      → x ≡ p ++ ((t ++ m) ++ q)
      → Fits (decide_reply isalnum t) x
  decided t p m q x starts pp pm pq e =
      let verdict = decide_no_of t (cut_prefix (str "no") t) (cut_prefix_lem (str "no") t starts) in
      elim (Bool-cases (is_no_change_approval isalnum t)) [
        | inl same_draft ↦ rw (verdict, same_draft) (approved t p m q x same_draft pp pm pq e)
        | inr edit ↦ elim (Bool-cases (contains no_family t || contains no_thanks t)) [
          | inl bare ↦ rw (verdict, edit, bare) (declined t p m q x bare pp pm pq e)
          | inr more ↦ rw (verdict, edit, more) tt
        ]
      ]

  starts_no : (s r : Text) → s ≡ str "no" ++ r → starts_with (rstrip is_mark s) (str "no") ≡ true
  unfolding starts_with
  starts_no s r e = rw (e, rstrip-cons b'n' (b'o' ∷ r) refl, rstrip-cons b'o' r refl) refl

  starts-rstrip :
      (s : Text)
      → starts_with s (str "no") ≡ true
      → starts_with (rstrip is_mark s) (str "no") ≡ true
  starts-rstrip s h = starts_no s (cut_prefix (str "no") s) (cut_prefix_lem (str "no") s h)

  -- A reply that begins with "no", but for its case and the white space before it, is read as approval only
  -- if it is an idiom that asks for no change, with separators around it and perhaps "send" or "send it"
  -- after it; and as a refusal only if it is a bare no or a thanks that declines; but for white space and
  -- the marks at its end. Any other such reply is neither, so the draft is revised.
  pub parse_answer-Fits :
      (text : Text)
      → starts_with (lower (strip text)) (str "no") ≡ true
      → Fits (parse_answer isalnum text) (lower text)
  unfolding parse_answer
  parse_answer-Fits text h =
      let s = lower (strip text) in
      let (p, q, pp, pq, e) = lower-IsWithin text in
      let (m, pm, cut) = marks_cut s in
      decided (rstrip is_mark s) p m q (lower text) (starts-rstrip s h) pp pm pq
        (e ∙ ap (λ r. p ++ (r ++ q)) cut)
