-- ===== src/Etag/Lists.antt =====
-- src/etag.rs: a header that lists etags, quoted or not.
use knievel.Base.{
  eqb, if◌then◌else◌, nat_eq, ◌==◌, int_eq, All, any, is_empty, All-append, Text, text, eqb_text,
  text_eq, ℕ, ◌≡◌, refl, sym, ap, ◌∙◌, Bool, true, false, ◌&&◌, ◌||◌, some, List, [], ◌∷◌, ◌++◌,
  map, arith,
}
use mathlib.Core.List.{append-nil}
use knievel.Base.Result.{ok, err}
use knievel.Etag.{
  mismatch, is_blank, trim_start_by, trim_end_by, trim_by, put_in_first, split, is_quote, tag_is,
  check_if_match_value,
}

pub data Tag : Type 0 where
  bare quoted : (etag : Text) → Tag

abbrev pub etag_of : Tag → Text
etag_of (bare etag) = etag
etag_of (quoted etag) = etag

-- An etag is not empty, and has no blanks, commas, quotes and asterisks.
abbrev pub IsEtagChar : ℕ → Type 0
IsEtagChar c = (is_blank c ≡ false) × (eqb c 44 ≡ false) × (is_quote c ≡ false) × (eqb c 42 ≡ false)

abbrev pub IsTag : Tag → Type 0
IsTag tag = (is_empty (etag_of tag) ≡ false) × All IsEtagChar (etag_of tag)

abbrev pub tag_text : Tag → Text
tag_text (bare etag) = etag
tag_text (quoted etag) = 34 ∷ (etag ++ 34 ∷ [])

abbrev pub header_rest : List Tag → Text
header_rest [] = []
header_rest (tag ∷ tags) = 44 ∷ 32 ∷ (tag_text tag ++ header_rest tags)

-- `"a", b, "c"`
abbrev pub header_of : Tag → List Tag → Text
header_of tag tags = tag_text tag ++ header_rest tags

kept : (b : Bool) (s : Text) → (if b && false then [] else s) ≡ s
kept true s = refl
kept false s = refl

append-full : (s r : Text) → is_empty r ≡ false → is_empty (s ++ r) ≡ false
append-full [] r h = h
append-full (c ∷ s) r h = refl

full-append : (s r : Text) → is_empty s ≡ false → is_empty (s ++ r) ≡ false
full-append [] r h = ground (arith, h)
full-append (c ∷ s) r h = refl

trim_start_by-solid :
    (test : ℕ → Bool) (s r : Text)
    → is_empty s ≡ false
    → All (λ c. test c ≡ false) s
    → trim_start_by test (s ++ r) ≡ s ++ r
unfolding trim_start_by
trim_start_by-solid test [] r full h = ground (arith, full)
trim_start_by-solid test (c ∷ s) r full h = rw (h.0, trim_start_by) refl

trim_end_by-solid :
    (test : ℕ → Bool) (s : Text) → All (λ c. test c ≡ false) s → trim_end_by test s ≡ s
unfolding trim_end_by
trim_end_by-solid test [] h = refl
trim_end_by-solid test (c ∷ s) h =
    rw (h.0, trim_end_by-solid test s h.1, trim_end_by) (kept (is_empty s) (c ∷ s))

trim_end_by-append :
    (test : ℕ → Bool) (s r : Text)
    → trim_end_by test r ≡ r
    → is_empty r ≡ false
    → trim_end_by test (s ++ r) ≡ s ++ r
unfolding trim_end_by
trim_end_by-append test [] r h full = h
trim_end_by-append test (c ∷ s) r h full =
    rw (trim_end_by-append test s r h full, append-full s r full, trim_end_by) refl

split-last : (s : Text) → All (λ c. eqb c 44 ≡ false) s → split 44 s ≡ s ∷ []
unfolding split
split-last [] h = refl
split-last (c ∷ s) h = rw (h.0, split-last s h.1, split) refl

split-append :
    (s r : Text) → All (λ c. eqb c 44 ≡ false) s → split 44 (s ++ 44 ∷ r) ≡ s ∷ split 44 r
unfolding split
split-append [] r h = refl
split-append (c ∷ s) r h = rw (h.0, split-append s r h.1, split) refl

-- A text that has no such characters is not trimmed.
trim_by-solid :
    (test : ℕ → Bool) (s : Text)
    → is_empty s ≡ false
    → All (λ c. test c ≡ false) s
    → trim_by test s ≡ s
trim_by-solid test s full h =
    ap (λ t. trim_end_by test (trim_start_by test t)) (sym (append-nil s))
    ∙ ap (trim_end_by test) (trim_start_by-solid test s [] full h ∙ append-nil s)
    ∙ trim_end_by-solid test s h

-- A quote behind a text that has none.
trim_end_by-quote :
    (s : Text) → All (λ c. is_quote c ≡ false) s → trim_end_by is_quote (s ++ 34 ∷ []) ≡ s
unfolding trim_end_by
trim_end_by-quote [] h = refl
trim_end_by-quote (c ∷ s) h =
    rw (h.0, trim_end_by-quote s h.1, trim_end_by) (kept (is_empty s) (c ∷ s))

All-map {ℓ κ} :
    {P : ℕ → Type ℓ} {Q : ℕ → Type κ} (s : Text) → ((c : ℕ) → P c → Q c) → All P s → All Q s
All-map [] f h = tt
All-map (c ∷ s) f h = (f c h.0, All-map s f h.1)

-- What a tag's characters satisfy, if a quote does.
tag_text-All :
    (test : ℕ → Bool) (tag : Tag)
    → IsTag tag
    → ((c : ℕ) → IsEtagChar c → test c ≡ false)
    → test 34 ≡ false
    → All (λ c. test c ≡ false) (tag_text tag)
tag_text-All test (bare etag) h f q = All-map etag f h.1
tag_text-All test (quoted etag) h f q =
    (q, All-append (λ c. test c ≡ false) etag (34 ∷ []) (All-map etag f h.1) (q, tt))

tag_text-full : (tag : Tag) → IsTag tag → is_empty (tag_text tag) ≡ false
tag_text-full (bare etag) h = h.0
tag_text-full (quoted etag) h = refl

no_blanks : (tag : Tag) → IsTag tag → All (λ c. is_blank c ≡ false) (tag_text tag)
no_blanks tag h = tag_text-All is_blank tag h (λ c d. d.0) refl

no_commas : (tag : Tag) → IsTag tag → All (λ c. eqb c 44 ≡ false) (tag_text tag)
no_commas tag h = tag_text-All (λ c. eqb c 44) tag h (λ c d. d.1) refl

unquoted : (tag : Tag) → IsTag tag → trim_by is_quote (tag_text tag) ≡ etag_of tag
unfolding trim_start_by
unquoted (bare etag) h = trim_by-solid is_quote etag h.0 (All-map etag (λ c d. d.2) h.1)
unquoted (quoted etag) h =
    ap (trim_end_by is_quote)
      (trim_start_by-solid is_quote etag (34 ∷ []) h.0 (All-map etag (λ c d. d.2) h.1))
    ∙ trim_end_by-quote etag (All-map etag (λ c d. d.2) h.1)

tag_is-text :
    (current : Text) (tag : Tag)
    → IsTag tag
    → tag_is current (tag_text tag) ≡ (etag_of tag == current)
tag_is-text current tag h =
    ap (λ t. trim_by is_quote t == current)
      (trim_by-solid is_blank (tag_text tag) (tag_text-full tag h) (no_blanks tag h))
    ∙ ap (λ t. t == current) (unquoted tag h)

header-trimmed :
    (tag : Tag) (tags : List Tag)
    → IsTag tag
    → All IsTag tags
    → trim_end_by is_blank (header_of tag tags) ≡ header_of tag tags
header-trimmed tag [] h hs =
    ap (trim_end_by is_blank) (append-nil (tag_text tag))
    ∙ trim_end_by-solid is_blank (tag_text tag) (no_blanks tag h)
    ∙ sym (append-nil (tag_text tag))
header-trimmed tag (t ∷ tags) h hs =
    trim_end_by-append is_blank (tag_text tag) (header_rest (t ∷ tags))
      (trim_end_by-append is_blank (44 ∷ 32 ∷ []) (header_of t tags)
        (header-trimmed t tags hs.0 hs.1)
        (full-append (tag_text t) (header_rest tags) (tag_text-full t hs.0)))
      refl

split-header :
    (tag : Tag) (tags : List Tag)
    → IsTag tag
    → All IsTag tags
    → split 44 (header_of tag tags) ≡ tag_text tag ∷ map (λ t. 32 ∷ tag_text t) tags
unfolding split
split-header tag [] h hs =
    ap (split 44) (append-nil (tag_text tag)) ∙ split-last (tag_text tag) (no_commas tag h)
split-header tag (t ∷ tags) h hs =
    split-append (tag_text tag) (32 ∷ header_of t tags) (no_commas tag h)
    ∙ ap (λ ss. tag_text tag ∷ put_in_first 32 ss) (split-header t tags hs.0 hs.1)

abbrev pub has_etag : Text → Tag → Bool
has_etag current tag = etag_of tag == current

any-tags :
    (current : Text) (tags : List Tag)
    → All IsTag tags
    → any (tag_is current) (map (λ t. 32 ∷ tag_text t) tags) ≡ any (has_etag current) tags
unfolding any trim_start_by
any-tags current [] h = refl
any-tags current (t ∷ tags) h = λ i. tag_is-text current t h.0 i || any-tags current tags h.1 i

not_star : (tag : Tag) (tags : List Tag) → IsTag tag → (header_of tag tags == text "*") ≡ false
not_star (quoted etag) tags h = refl
not_star (bare []) tags h = ground (arith, h.0)
not_star (bare (c ∷ etag)) tags h = ap (λ b. b && eqb_text (etag ++ header_rest tags) []) h.1.0.3

-- A header that lists etags, each quoted or not, with a comma and a space between them, passes
-- exactly when the row's etag is one of them. The listed etags are not empty and have no blanks,
-- commas, quotes and asterisks.
pub check_if_match_value-listed :
    (current : Text) (tag : Tag) (tags : List Tag)
    → All IsTag (tag ∷ tags)
    → check_if_match_value (some (header_of tag tags)) current
      ≡ (if any (has_etag current) (tag ∷ tags) then ok tt else err mismatch)
unfolding check_if_match_value any
check_if_match_value-listed current tag tags (h, hs) =
    let whole : trim_by is_blank (header_of tag tags) ≡ header_of tag tags =
      ap (trim_end_by is_blank) (
        trim_start_by-solid is_blank (tag_text tag) (header_rest tags) (tag_text-full tag h)
          (no_blanks tag h))
      ∙ header-trimmed tag tags h hs in
    let full = full-append (tag_text tag) (header_rest tags) (tag_text-full tag h) in
    rw
      (
        whole,
        full,
        not_star tag tags h,
        split-header tag tags h hs,
        tag_is-text current tag h,
        any-tags current tags hs,
        check_if_match_value,
      )
      refl
