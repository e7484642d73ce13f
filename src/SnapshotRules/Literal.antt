-- ===== src/SnapshotRules/Literal.antt =====
-- What a pattern without wildcards matches.
use mathlib.Core.List.{reverse, reverse-append, reverse-reverse}
use majutsu.Base.{
  ◌≡◌, ◌==◌, refl, ap, ◌∙◌, Bool, true, false, not, ◌||◌, none, [], ◌∷◌, ◌++◌, is_empty, arith,
}
use majutsu.Base.Text.{
  Str, codes, str_eq, starts_with, strip_prefix, trim, trim_start_matches, trim_end_matches,
  skip_while, split,
}
use majutsu.SnapshotRules.{
  slash, trim_matches, strip_suffix, is_meta, pattern_has_glob_meta, is_below,
  is_catch_all_include_pattern, before_meta, literal_prefix, touches, first_of,
  include_pattern_can_descend_excluded_dir, match_trimmed, path_pattern_match,
  include_pattern_may_match_inside_dir,
}

-- A pattern that is a path: not empty, trimmed, with no wildcard and no slash at its ends.
pub record IsPlain (p : Str) : Type 0 where
  pub trimmed : trim p ≡ p
  pub literal : pattern_has_glob_meta p ≡ false
  pub full : is_empty p ≡ false
  pub front : starts_with (slash ∷ []) p ≡ false
  pub back : starts_with (slash ∷ []) (reverse p) ≡ false

skip_plain : (s : Str) → starts_with (slash ∷ []) s ≡ false → skip_while (λ d. d == slash) s ≡ s
unfolding skip_while starts_with
skip_plain [] h = refl
skip_plain (c ∷ s) h = ground (arith, h)

trim_start_plain : (p : Str) → starts_with (slash ∷ []) p ≡ false → trim_start_matches slash p ≡ p
unfolding trim_start_matches
trim_start_plain p h = skip_plain p h

trim_end_plain :
    (p : Str) → starts_with (slash ∷ []) (reverse p) ≡ false → trim_end_matches slash p ≡ p
unfolding trim_end_matches
trim_end_plain p h = ap reverse (skip_plain (reverse p) h) ∙ reverse-reverse p

pub trim_plain : {p : Str} → IsPlain p → trim_start_matches slash (trim p) ≡ p
trim_plain {p} h = ap (trim_start_matches slash) h.trimmed ∙ trim_start_plain p h.front

pub trim_matches_plain :
    (p : Str)
    → starts_with (slash ∷ []) p ≡ false
    → starts_with (slash ∷ []) (reverse p) ≡ false
    → trim_matches slash p ≡ p
unfolding trim_matches
trim_matches_plain p f b = ap (trim_end_matches slash) (trim_start_plain p f) ∙ trim_end_plain p b

meta-append :
    (s t : Str)
    → pattern_has_glob_meta (s ++ t) ≡ (pattern_has_glob_meta s || pattern_has_glob_meta t)
unfolding pattern_has_glob_meta
meta-append [] t = refl
meta-append (c ∷ s) t = ground (arith, meta-append s t)

meta-reverse : (s : Str) → pattern_has_glob_meta (reverse s) ≡ pattern_has_glob_meta s
unfolding pattern_has_glob_meta
meta-reverse [] = refl
meta-reverse (c ∷ s) =
    ap pattern_has_glob_meta (reverse-append (c ∷ []) s)
    ∙ (meta-append (reverse s) (c ∷ []) ∙ ground (arith, meta-reverse s))

-- A text that starts with a wildcard has one.
no_star : (p s : Str) → pattern_has_glob_meta s ≡ false → strip_prefix (42 ∷ p) s ≡ none
unfolding strip_prefix pattern_has_glob_meta is_meta
no_star p [] h = refl
no_star p (c ∷ s) h = ground (arith, h)

no_star_eq : (p s : Str) → pattern_has_glob_meta s ≡ false → str_eq s (42 ∷ p) ≡ false
unfolding str_eq pattern_has_glob_meta is_meta
no_star_eq p [] h = refl
no_star_eq p (c ∷ s) h = ground (arith, h)

no_star_start : (p s : Str) → pattern_has_glob_meta s ≡ false → starts_with (42 ∷ p) s ≡ false
unfolding starts_with pattern_has_glob_meta is_meta
no_star_start p [] h = refl
no_star_start p (c ∷ s) h = ground (arith, h)

no_star_end : (s : Str) → pattern_has_glob_meta s ≡ false → strip_suffix (codes "/**") s ≡ none
unfolding strip_suffix
no_star_end s h = rw (no_star (42 ∷ 47 ∷ []) (reverse s) (meta-reverse s ∙ h), strip_suffix)

catch_all_plain : {p : Str} → IsPlain p → is_catch_all_include_pattern p ≡ false
unfolding is_catch_all_include_pattern
catch_all_plain {p} h =
    rw (trim_plain h, no_star_eq (42 ∷ []) p h.literal, no_star_eq [] p h.literal)

match_trimmed_plain :
    (glob : Str → Str → Bool) {p : Str} (rel : Str)
    → IsPlain p
    → match_trimmed glob p rel ≡ is_below p rel
unfolding match_trimmed
match_trimmed_plain glob {p} rel h = rw (
  h.full,
  no_star_eq (42 ∷ []) p h.literal,
  no_star_eq [] p h.literal,
  no_star_end p h.literal,
  no_star (46 ∷ []) p h.literal,
  h.literal,
  no_star (42 ∷ 47 ∷ []) p h.literal,
)

-- A plain pattern matches its path and what is below it.
pub path_pattern_match_plain :
    (glob : Str → Str → Bool) {p : Str} (rel : Str)
    → IsPlain p
    → path_pattern_match glob p rel ≡ is_below p rel
unfolding path_pattern_match
path_pattern_match_plain glob {p} rel h =
    ap (λ q. match_trimmed glob q rel) (trim_plain h) ∙ match_trimmed_plain glob rel h

before_meta_plain : (s : Str) → pattern_has_glob_meta s ≡ false → before_meta s ≡ s
unfolding before_meta pattern_has_glob_meta is_meta
before_meta_plain [] h = refl
before_meta_plain (c ∷ s) h = ground (arith, h, before_meta_plain s)

literal_prefix_plain : {p : Str} → IsPlain p → literal_prefix p ≡ p
unfolding literal_prefix
literal_prefix_plain {p} h =
    ap (λ q. trim_end_matches slash (trim_start_matches slash q)) (before_meta_plain p h.literal)
    ∙ (ap (trim_end_matches slash) (trim_start_plain p h.front) ∙ trim_end_plain p h.back)

-- A plain pattern may match inside each directory that it touches.
pub may_match_plain :
    (glob : Str → Str → Bool) {p : Str} (dir : Str)
    → IsPlain p
    → touches p dir ≡ true
    → include_pattern_may_match_inside_dir glob p dir ≡ true
unfolding include_pattern_may_match_inside_dir
may_match_plain glob {p} dir h t =
    rw (trim_plain h, literal_prefix_plain h, h.full) (ground (arith, t))

split_some : (s : Str) → (elim (split slash s) [ [] ↦ true | part ∷ parts ↦ false ]) ≡ false
unfolding split
split_some [] = refl
split_some (c ∷ s) = ground (arith, split_some s)

head_plain :
    (s : Str)
    → pattern_has_glob_meta s ≡ false
    → (elim (split slash s) [ [] ↦ true | part ∷ parts ↦ not (pattern_has_glob_meta part) ]) ≡ true
unfolding split pattern_has_glob_meta
head_plain [] h = refl
head_plain (c ∷ s) h = ground (arith, h, head_plain s)

first_at :
    (p : Str)
    → is_empty p ≡ false
    → starts_with (slash ∷ []) p ≡ false
    → pattern_has_glob_meta p ≡ false
    → (is_empty (first_of (split slash p)) ≡ false)
      × (pattern_has_glob_meta (first_of (split slash p)) ≡ false)
unfolding split first_of starts_with pattern_has_glob_meta
first_at [] f b l = absurd (cc f)
first_at (c ∷ s) f b l = ground (arith, b, l, head_plain s, split_some s)

first_plain :
    {p : Str}
    → IsPlain p
    → (is_empty (first_of (split slash p)) ≡ false)
      × (pattern_has_glob_meta (first_of (split slash p)) ≡ false)
first_plain {p} h = first_at p h.full h.front h.literal

-- A plain pattern lets the walk descend into each directory that it touches, excluded or not.
pub can_descend_plain :
    {p : Str} (dir : Str)
    → IsPlain p
    → touches p dir ≡ true
    → include_pattern_can_descend_excluded_dir p dir ≡ true
unfolding include_pattern_can_descend_excluded_dir
can_descend_plain {p} dir h t =
    let (f, m) = first_plain h in
    let no_stars = no_star_eq (42 ∷ []) (first_of (split slash p)) m in
    rw (trim_plain h, literal_prefix_plain h, h.full, catch_all_plain h, f, m, no_stars) t

-- Both of two texts that a path starts with, at its slashes: one is the other or is below it.
touches_at : (p d s : Str) → is_below p (d ++ slash ∷ s) ≡ true → touches p d ≡ true
unfolding is_below touches str_eq starts_with
touches_at [] [] s h = refl
touches_at [] (c ∷ d) s h = ground (arith, h)
touches_at (x ∷ p) [] s h = ground (arith, h)
touches_at (x ∷ p) (c ∷ d) s h = ground (arith, h, touches_at p d s)

pub touches_below : (p d s : Str) → is_below p (d ++ slash ∷ s) ≡ true → touches p d ≡ true
touches_below p d s h = touches_at p d s h
