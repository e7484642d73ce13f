-- ===== src/SnapshotRules.antt =====
-- Which paths of a root a snapshot takes, and which directories its walk enters: src/snapshot_rules.rs. A path
-- is its text with slashes, relative to the root. What the third-party crates decide is a parameter: whether a
-- glob matches a path, and whether the ignore rules match a path or a parent of it.
pub mod Rules
pub mod Literal
pub mod Walk
mod Tests
use mathlib.Core.List.{reverse}
use majutsu.Base.{
  ℕ, ◌+◌, ◌≡◌, ◌==◌, Bool, true, false, not, ◌&&◌, ◌||◌, Option, none, some, List, [], ◌∷◌, ◌++◌,
  if◌then◌else◌, leb, any, all, is_empty, is_some, map,
}
use majutsu.Base.Text.{
  Str, codes, str_eq, starts_with, ends_with, has_infix, strip_prefix, trim, trim_start_matches,
  trim_end_matches, split,
}

pub record RootVolatileConfig : Type 0 where
  pub mode : Str
  pub patterns : List Str

-- The fields of `RootConfig` that the rules read.
pub record RootConfig : Type 0 where
  pub include : List Str
  pub explicit_track : List Str
  pub explicit_untrack : List Str
  pub volatile : Option RootVolatileConfig

abbrev pub slash : ℕ
slash = 47

unfoldable pub trim_matches : ℕ → Str → Str
unfolding trim_start_matches trim_end_matches
trim_matches c s = trim_end_matches c (trim_start_matches c s)

unfoldable pub strip_suffix : Str → Str → Option Str
unfolding strip_prefix
strip_suffix p s = elim (strip_prefix (reverse p) (reverse s)) [
  | none ↦ none
  | some r ↦ some (reverse r)
]

pub to_ascii_lowercase : Str → Str
to_ascii_lowercase s = map (λ c. if leb 65 c && leb c 90 then c + 32 else c) s

unfoldable pub is_meta : ℕ → Bool
is_meta c = c == 42 || (c == 63 || (c == 91 || c == 123))

unfoldable pub pattern_has_glob_meta : Str → Bool
unfolding is_meta
pattern_has_glob_meta s = any is_meta s

-- `rel == prefix || rel.starts_with(prefix + "/")`.
unfoldable pub is_below : Str → Str → Bool
is_below prefix rel = str_eq rel prefix || starts_with (prefix ++ slash ∷ []) rel

unfoldable pub is_catch_all_include_pattern : Str → Bool
is_catch_all_include_pattern pattern =
    let p = trim_start_matches slash (trim pattern) in str_eq p (codes "**") || str_eq p (codes "*")

-- The part before the first of `*`, `?` and `[`.
unfoldable pub before_meta : Str → Str
before_meta [] = []
before_meta (c ∷ s) = if c == 42 || (c == 63 || c == 91) then [] else c ∷ before_meta s

unfoldable pub literal_prefix : Str → Str
unfolding before_meta trim_matches
literal_prefix pattern = trim_end_matches slash (trim_start_matches slash (before_meta pattern))

-- The prefix and the directory are one, or one is below the other.
unfoldable pub touches : Str → Str → Bool
touches prefix dir =
    str_eq prefix dir
    || (starts_with (dir ++ slash ∷ []) prefix || starts_with (prefix ++ slash ∷ []) dir)

pub first_of : List Str → Str
first_of [] = []
first_of (part ∷ parts) = if is_empty part then first_of parts else part

unfoldable pub include_pattern_can_override_exclude : Str → Bool
unfolding is_catch_all_include_pattern pattern_has_glob_meta
include_pattern_can_override_exclude pattern =
    let p = trim_start_matches slash (trim pattern) in
    if is_empty p || is_catch_all_include_pattern p
    then false
    else if not (pattern_has_glob_meta p)
    then true
    else (elim (split slash p) [
      | [] ↦ false
      | first ∷ rest ↦ if is_empty rest then false else not (pattern_has_glob_meta first)
    ])

unfoldable pub include_pattern_can_descend_excluded_dir : Str → Str → Bool
unfolding is_catch_all_include_pattern pattern_has_glob_meta literal_prefix touches first_of
include_pattern_can_descend_excluded_dir pattern dir =
    let p = trim_start_matches slash (trim pattern) in
    let first = first_of (split slash p) in
    if is_empty p || is_catch_all_include_pattern p
    then false
    else if is_empty first || str_eq first (codes "**") || pattern_has_glob_meta first
    then false
    else not (is_empty (literal_prefix p)) && touches (literal_prefix p) dir

-- The proper parents of a path that are not empty.
unfoldable pub parents : Str → List Str
parents [] = []
parents (c ∷ s) =
    if c == slash then [] ∷ map (λ p. c ∷ p) (parents s) else map (λ p. c ∷ p) (parents s)

module _ (glob_path_match : Str → Str → Bool) where
  -- `path_pattern_match` behind the trimming of the pattern.
  unfoldable pub match_trimmed : Str → Str → Bool
  unfolding pattern_has_glob_meta is_below strip_suffix to_ascii_lowercase
  match_trimmed p rel =
      if is_empty p
      then false
      else if str_eq p (codes "**") || str_eq p (codes "*")
      then true
      else (elim (strip_suffix (codes "/**") p) [
        | some prefix ↦
            if pattern_has_glob_meta prefix then glob_path_match p rel else is_below prefix rel
        | none ↦ elim (strip_prefix (codes "*.") p) [
          | some ext ↦ ends_with (codes "." ++ to_ascii_lowercase ext) (to_ascii_lowercase rel)
          | none ↦
              if pattern_has_glob_meta p && glob_path_match p rel
              then true
              else (elim (strip_prefix (codes "**/") p) [
                | none ↦ is_below p rel
                | some suffix ↦ elim (strip_suffix (codes "/**") suffix) [
                  | some middle ↦
                      is_below middle rel || has_infix (slash ∷ middle ++ slash ∷ []) rel
                  | none ↦ str_eq rel suffix || ends_with (slash ∷ suffix) rel
                ]
              ])
        ]
      ])

  unfoldable pub path_pattern_match : Str → Str → Bool
  unfolding match_trimmed
  path_pattern_match pattern rel = match_trimmed (trim_start_matches slash (trim pattern)) rel

  -- The parts of a pattern and of a directory, one by one.
  pub parts_match : List Str → List Str → Bool
  parts_match [] ds = true
  parts_match (p ∷ ps) [] = true
  parts_match (p ∷ ps) (d ∷ ds) =
      if str_eq p (codes "**")
      then true
      else if glob_path_match p d
      then parts_match ps ds
      else false

  pub has_more : List Str → List Str → Bool
  has_more [] ds = false
  has_more (p ∷ ps) [] = true
  has_more (p ∷ ps) (d ∷ ds) = has_more ps ds

  pub full_parts : List Str → List Str
  full_parts [] = []
  full_parts (p ∷ ps) = if is_empty p then full_parts ps else p ∷ full_parts ps

  pub glob_pattern_may_match_inside_dir : Str → Str → Bool
  unfolding parts_match has_more full_parts
  glob_pattern_may_match_inside_dir pattern dir =
      let ps = full_parts (split slash pattern) in
      let ds = full_parts (split slash dir) in has_more ps ds && parts_match ps ds

  unfoldable pub include_pattern_may_match_inside_dir : Str → Str → Bool
  unfolding path_pattern_match pattern_has_glob_meta glob_pattern_may_match_inside_dir
      literal_prefix touches
  include_pattern_may_match_inside_dir pattern dir =
      let p = trim_start_matches slash (trim pattern) in
      if is_empty p
      then false
      else if str_eq p (codes "**") || str_eq p (codes "*") || starts_with (codes "**/") p
      then true
      else if path_pattern_match p dir
      then true
      else if pattern_has_glob_meta p && glob_pattern_may_match_inside_dir p dir
      then true
      else if is_empty (literal_prefix p)
      then true
      else touches (literal_prefix p) dir
