-- ===== src/SnapshotRules/Rules.antt =====
-- The rules of a root over its lists of patterns, of src/snapshot_rules.rs.
use majutsu.Base.{
  Bool, true, false, not, ◌&&◌, ◌||◌, Option, none, some, List, [], ◌∷◌, if◌then◌else◌, any, all,
  is_empty,
}
use majutsu.Base.Text.{Str, codes, str_eq, starts_with, strip_prefix, trim}
use majutsu.SnapshotRules.{
  RootVolatileConfig, RootConfig, slash, trim_matches, is_catch_all_include_pattern, parents,
  include_pattern_can_override_exclude, include_pattern_can_descend_excluded_dir,
  path_pattern_match, include_pattern_may_match_inside_dir,
}

-- `suffix.starts_with('/')` of what follows a prefix.
unfoldable pub follows : Str → Str → Bool
follows prefix s = elim (strip_prefix prefix s) [
  | none ↦ false
  | some r ↦ starts_with (slash ∷ []) r
]

module _ (glob_path_match : Str → Str → Bool) where
  unfoldable pub is_included : List Str → Str → Bool
  is_included patterns rel =
      if is_empty patterns
      then true
      else any (λ pattern. path_pattern_match glob_path_match pattern rel) patterns

  unfoldable pub include_may_match_inside_dir : List Str → Str → Bool
  include_may_match_inside_dir patterns rel =
      if is_empty patterns || all is_catch_all_include_pattern patterns
      then false
      else if is_empty (trim_matches slash rel)
      then true
      else any
          (λ pattern.
            include_pattern_may_match_inside_dir glob_path_match pattern (trim_matches slash rel))
          patterns

  unfoldable pub include_allows_descend : List Str → Str → Bool
  unfolding is_included include_may_match_inside_dir
  include_allows_descend patterns rel =
      if is_empty patterns || all is_catch_all_include_pattern patterns
      then true
      else is_included patterns rel || include_may_match_inside_dir patterns rel

  unfoldable pub covers : Str → Str → Bool
  unfolding follows
  covers rel pattern =
      let p = trim_matches slash (trim pattern) in
      not (is_empty p)
      && (str_eq p rel || (follows p rel || path_pattern_match glob_path_match p rel))

  unfoldable pub path_list_covers : List Str → Str → Bool
  unfolding covers
  path_list_covers patterns rel = any (covers (trim_matches slash rel)) patterns

  unfoldable pub may_cover_inside : Str → Str → Bool
  unfolding follows
  may_cover_inside dir pattern =
      let p = trim_matches slash (trim pattern) in
      not (is_empty p)
      && (follows dir p || include_pattern_may_match_inside_dir glob_path_match p dir)

  unfoldable pub path_list_may_match_inside_dir : List Str → Str → Bool
  unfolding may_cover_inside
  path_list_may_match_inside_dir patterns rel =
      any (may_cover_inside (trim_matches slash rel)) patterns

  unfoldable pub include_override_matches_path : List Str → Str → Bool
  include_override_matches_path patterns rel =
      any
        (λ pattern.
          include_pattern_can_override_exclude pattern
          && path_pattern_match glob_path_match pattern rel)
        patterns

  unfoldable pub explicit_non_catchall_include_matches_path : List Str → Str → Bool
  explicit_non_catchall_include_matches_path patterns rel =
      any
        (λ pattern.
          not (is_catch_all_include_pattern pattern)
          && path_pattern_match glob_path_match pattern rel)
        patterns

  unfoldable pub include_override_may_match_inside_dir : List Str → Str → Bool
  include_override_may_match_inside_dir patterns rel =
      not (is_empty (trim_matches slash rel))
      && any
          (λ pattern.
            include_pattern_can_descend_excluded_dir pattern (trim_matches slash rel)
            && include_pattern_may_match_inside_dir glob_path_match pattern
                (trim_matches slash rel))
          patterns

  unfoldable pub volatile_matches : Option RootVolatileConfig → Str → Bool
  volatile_matches none rel = false
  volatile_matches (some v) rel =
      any (λ pattern. path_pattern_match glob_path_match pattern rel) v.patterns

  unfoldable pub is_volatile : RootConfig → Str → Bool
  unfolding volatile_matches
  is_volatile root rel = volatile_matches root.volatile rel

  unfoldable pub volatile_excludes : Option RootVolatileConfig → Str → Bool
  unfolding volatile_matches
  volatile_excludes none rel = false
  volatile_excludes (some v) rel = str_eq v.mode (codes "exclude") && volatile_matches (some v) rel

  unfoldable pub is_volatile_excluded : RootConfig → Str → Bool
  unfolding volatile_excludes
  is_volatile_excluded root rel = volatile_excludes root.volatile rel

  module _ (ignored : Str → Bool → Bool) where
    unfoldable pub has_ignored_parent : Str → Bool
    has_ignored_parent rel = any (λ p. not (is_empty p) && ignored p true) (parents rel)

    unfoldable pub root_record_is_managed : RootConfig → Str → Bool → Bool
    unfolding has_ignored_parent
    root_record_is_managed root rel is_dir =
        if path_list_covers root.explicit_untrack rel
        then false
        else if path_list_covers root.explicit_track rel
        then true
        else if not (is_included root.include rel)
        then false
        else if is_volatile_excluded root rel
        then false
        else if ignored rel is_dir
        then include_override_matches_path root.include rel
          || (not (has_ignored_parent rel)
              && explicit_non_catchall_include_matches_path root.include rel)
        else true

    unfoldable pub root_dir_allows_descend : RootConfig → Str → Bool
    root_dir_allows_descend root rel =
        if path_list_covers root.explicit_untrack rel
        then false
        else if path_list_may_match_inside_dir root.explicit_track rel
        then true
        else if ignored rel true
        then not (is_volatile_excluded root rel)
          && include_override_may_match_inside_dir root.include rel
        else if include_allows_descend root.include rel && not (is_volatile_excluded root rel)
        then true
        else not (is_empty root.explicit_track)
