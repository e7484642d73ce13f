-- ===== src/SnapshotRules/Tests.antt =====
-- The rules of a root at concrete patterns and paths.
use majutsu.Base.{inl, inr, ◌≡◌, refl, Bool, true, false, none, [], ◌∷◌, ◌&&◌}
use majutsu.Base.Text.{
  Str, codes, split, str_eq, starts_with, strip_prefix, trim, trim_start_matches, skip_while,
  is_whitespace,
}
use majutsu.SnapshotRules.{
  RootConfig, trim_matches, is_below, is_meta, pattern_has_glob_meta, path_pattern_match,
  include_pattern_can_override_exclude, include_pattern_can_descend_excluded_dir,
}
use majutsu.SnapshotRules.Rules.{
  root_record_is_managed, root_dir_allows_descend, path_list_covers, is_included,
  is_volatile_excluded, include_override_matches_path, path_list_may_match_inside_dir,
  include_override_may_match_inside_dir,
}
use majutsu.SnapshotRules.Literal.{IsPlain}
use majutsu.SnapshotRules.Walk.{root_record_is_managed_descends}

abbrev root : RootConfig
root = record {
  include = codes "**" ∷ codes "src" ∷ [];
  explicit_track = codes "tmp/keep" ∷ [];
  explicit_untrack = codes "tmp/drop" ∷ [];
  volatile = none;
}

-- No glob matches, and all below `tmp` is ignored.
abbrev no_glob : Str → Str → Bool
no_glob p rel = false

abbrev below_tmp : Str → Bool → Bool
below_tmp p is_dir = is_below (codes "tmp") p

src-IsPlain : IsPlain (codes "src")
unfolding trim skip_while is_whitespace pattern_has_glob_meta is_meta starts_with
src-IsPlain = record { trimmed = refl; literal = refl; full = refl; front = refl; back = refl }

keep-IsPlain : IsPlain (codes "tmp/keep")
unfolding trim skip_while is_whitespace pattern_has_glob_meta is_meta starts_with
keep-IsPlain = record { trimmed = refl; literal = refl; full = refl; front = refl; back = refl }

drop-IsPlain : IsPlain (codes "tmp/drop")
unfolding trim skip_while is_whitespace pattern_has_glob_meta is_meta starts_with
drop-IsPlain = record { trimmed = refl; literal = refl; full = refl; front = refl; back = refl }

managed : root_record_is_managed no_glob below_tmp root (codes "tmp/keep/x") false ≡ true
unfolding root_record_is_managed path_list_covers trim_matches trim str_eq strip_prefix
    path_pattern_match starts_with
managed = refl

root_record_is_managed_descends_example :
    root_dir_allows_descend no_glob below_tmp root (codes "tmp") ≡ true
unfolding trim_matches is_below str_eq starts_with
root_record_is_managed_descends_example =
    root_record_is_managed_descends no_glob below_tmp root (codes "tmp") (codes "keep/x") false
      (inr refl, (inl src-IsPlain, tt)) (keep-IsPlain, tt) (drop-IsPlain, tt) tt refl refl refl
      (λ h. h) managed

-- An include with a wildcard inside a part.
abbrev wild : RootConfig
wild = record {
  include = codes "a/b*/c" ∷ [];
  explicit_track = [];
  explicit_untrack = [];
  volatile = none;
}

abbrev one_glob : Str → Str → Bool
one_glob p rel = str_eq p (codes "a/b*/c") && str_eq rel (codes "a/bx/c")

abbrev below_a : Str → Bool → Bool
below_a p is_dir = is_below (codes "a") p

wild_managed : root_record_is_managed one_glob below_a wild (codes "a/bx/c") false ≡ true
unfolding root_record_is_managed path_list_covers is_included path_pattern_match trim_start_matches
    trim str_eq is_volatile_excluded starts_with include_override_matches_path
    include_pattern_can_override_exclude split
wild_managed = refl

wild_not_entered : root_dir_allows_descend one_glob below_a wild (codes "a/bx") ≡ false
unfolding root_dir_allows_descend path_list_covers path_list_may_match_inside_dir is_below str_eq
    starts_with is_volatile_excluded include_override_may_match_inside_dir trim_matches
    include_pattern_can_descend_excluded_dir trim split
wild_not_entered = refl
