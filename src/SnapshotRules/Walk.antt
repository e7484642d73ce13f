-- ===== src/SnapshotRules/Walk.antt =====
-- The directories that the walk of a root enters against the paths that its rules manage, of src/snapshot_rules.rs.
use majutsu.Base.{
  ℕ, ◌≡◌, ◌⊎◌, ◌==◌, refl, sym, ap, ◌∙◌, Bool, true, false, not, ◌&&◌, Option, none, some, List, [],
  ◌∷◌, ◌++◌, any, All, is_empty, map, arith, inl, inr, Bool-cases,
}
use majutsu.Base.Text.{
  Str, codes, str_eq, str_eq_iff, starts_with, strip_prefix, trim, trim_start_matches, skip_while,
  is_whitespace,
}
use majutsu.SnapshotRules.{
  RootVolatileConfig, RootConfig, slash, trim_matches, is_below, touches, parents,
  is_catch_all_include_pattern, include_pattern_can_override_exclude,
  include_pattern_can_descend_excluded_dir, path_pattern_match,
  include_pattern_may_match_inside_dir,
}
use majutsu.SnapshotRules.Rules.{
  follows, is_included, include_may_match_inside_dir, include_allows_descend, covers,
  path_list_covers, may_cover_inside, path_list_may_match_inside_dir, include_override_matches_path,
  include_override_may_match_inside_dir, is_volatile_excluded, volatile_matches, volatile_excludes,
  has_ignored_parent, root_record_is_managed, root_dir_allows_descend,
}
use majutsu.SnapshotRules.Literal.{
  IsPlain, trim_matches_plain, path_pattern_match_plain, may_match_plain, can_descend_plain,
  touches_below,
}

any_lem :
    {A : Type 0} (P : A → Type 0) (f g : A → Bool) (xs : List A)
    → ((x : A) → P x → f x ≡ true → g x ≡ true)
    → All P xs
    → any f xs ≡ true
    → any g xs ≡ true
any_lem P f g [] step plain h = h
any_lem P f g (x ∷ xs) step plain h = elim (Bool-cases (f x)) [
  | inl e ↦ rw (step x plain.0 e)
  | inr e ↦ let rest = any_lem P f g xs step plain.1 (sym (rw e) ∙ h) in ground (arith, rest)
]

follows_below : (p s : Str) → follows p s ≡ true → starts_with (p ++ slash ∷ []) s ≡ true
unfolding follows strip_prefix starts_with
follows_below [] s h = h
follows_below (c ∷ p) [] h = cc
follows_below (c ∷ p) (x ∷ s) h = ground (arith, h, follows_below p s)

below_child : (p d s : Str) → is_below p d ≡ true → is_below p (d ++ slash ∷ s) ≡ true
unfolding is_below str_eq starts_with
below_child [] [] s h = refl
below_child [] (c ∷ d) s h = ground (arith, h)
below_child (x ∷ p) [] s h = ground (arith, h)
below_child (x ∷ p) (c ∷ d) s h = ground (arith, h, below_child p d s)

trim_pattern : {p : Str} → IsPlain p → trim_matches slash (trim p) ≡ p
trim_pattern {p} h = ap (trim_matches slash) h.trimmed ∙ trim_matches_plain p h.front h.back

-- A pattern of the includes: a plain one, or the one of everything, which is the default.
abbrev pub IsIncludable : Str → Type 0
IsIncludable p = IsPlain p ⊎ (p ≡ codes "**")

override_all : include_pattern_can_override_exclude (codes "**") ≡ false
unfolding include_pattern_can_override_exclude is_catch_all_include_pattern trim trim_start_matches
    skip_while is_whitespace str_eq
override_all = refl

module _ (glob : Str → Str → Bool) where
  covers_below : (p rel : Str) → IsPlain p → covers glob rel p ≡ true → is_below p rel ≡ true
  unfolding covers is_below
  covers_below p rel h e = ground (
    arith,
    e,
    trim_pattern h,
    path_pattern_match_plain glob rel h,
    follows_below p rel,
    str_eq_iff p rel,
    str_eq_iff rel p,
  )

  below_covers : (p rel : Str) → IsPlain p → is_below p rel ≡ true → covers glob rel p ≡ true
  unfolding covers
  below_covers p rel h e =
      rw (trim_pattern h, h.full, path_pattern_match_plain glob rel h, e) (ground arith)

  may_cover : (p dir : Str) → IsPlain p → touches p dir ≡ true → may_cover_inside glob dir p ≡ true
  unfolding may_cover_inside
  may_cover p dir h t = rw (trim_pattern h, h.full, may_match_plain glob dir h t) (ground arith)

  may_match_all : (dir : Str) → include_pattern_may_match_inside_dir glob (codes "**") dir ≡ true
  unfolding include_pattern_may_match_inside_dir trim trim_start_matches skip_while is_whitespace
      str_eq
  may_match_all dir = refl

  -- The rules at a directory and at a path below it.
  module _ (d s : Str) (full : is_empty d ≡ false) (dir : trim_matches slash d ≡ d)
      (path : trim_matches slash (d ++ slash ∷ s) ≡ d ++ slash ∷ s) where
    untracked_below :
        (ps : List Str)
        → All IsPlain ps
        → path_list_covers glob ps d ≡ true
        → path_list_covers glob ps (d ++ slash ∷ s) ≡ true
    unfolding path_list_covers
    untracked_below ps plain h = rw path (
        any_lem IsPlain (covers glob d) (covers glob (d ++ slash ∷ s)) ps
          (λ p i e. below_covers p (d ++ slash ∷ s) i (below_child p d s (covers_below p d i e)))
          plain (sym (rw dir) ∙ h))

    tracked_above :
        (ps : List Str)
        → All IsPlain ps
        → path_list_covers glob ps (d ++ slash ∷ s) ≡ true
        → path_list_may_match_inside_dir glob ps d ≡ true
    unfolding path_list_covers path_list_may_match_inside_dir
    tracked_above ps plain h = rw dir (
        any_lem IsPlain (covers glob (d ++ slash ∷ s)) (may_cover_inside glob d) ps
          (λ p i e. may_cover p d i (touches_below p d s (covers_below p (d ++ slash ∷ s) i e)))
          plain (sym (rw path) ∙ h))

    included_above :
        (ps : List Str)
        → All IsIncludable ps
        → is_included glob ps (d ++ slash ∷ s) ≡ true
        → include_allows_descend glob ps d ≡ true
    unfolding is_included include_allows_descend include_may_match_inside_dir
    included_above [] plain h = refl
    included_above (p ∷ ps) plain h =
        let inside =
          any_lem IsIncludable (λ q. path_pattern_match glob q (d ++ slash ∷ s))
            (λ q. include_pattern_may_match_inside_dir glob q (trim_matches slash d)) (p ∷ ps)
            (λ q i e. rw dir (elim i [
              | inl i ↦
                  may_match_plain glob d i (
                    touches_below q d s
                      (sym (path_pattern_match_plain glob (d ++ slash ∷ s) i) ∙ e))
              | inr i ↦ rw i (may_match_all d)
            ]))
            plain h in
        ground (arith, inside, ap is_empty dir ∙ full)

    overridden_above :
        (ps : List Str)
        → All IsIncludable ps
        → include_override_matches_path glob ps (d ++ slash ∷ s) ≡ true
        → include_override_may_match_inside_dir glob ps d ≡ true
    unfolding include_override_matches_path include_override_may_match_inside_dir
    overridden_above ps plain h =
        let inside =
          any_lem IsIncludable
            (λ q.
              include_pattern_can_override_exclude q && path_pattern_match glob q (d ++ slash ∷ s))
            (λ q.
              include_pattern_can_descend_excluded_dir q (trim_matches slash d)
              && include_pattern_may_match_inside_dir glob q (trim_matches slash d))
            ps
            (λ q i e. elim i [
              | inl i ↦
                  let t =
                    touches_below q d s
                      (sym (path_pattern_match_plain glob (d ++ slash ∷ s) i) ∙ right _ _ e) in
                  rw (dir, can_descend_plain d i t, may_match_plain glob d i t)
              | inr i ↦
                  let k : include_pattern_can_override_exclude q ≡ true = left _ _ e in
                  absurd (cc (override_all, k, i))
            ])
            plain h in
        ground (arith, inside, ap is_empty dir ∙ full)
      where
        right : (a b : Bool) → (a && b) ≡ true → b ≡ true
        right a b e = ground (arith, e)

        left : (a b : Bool) → (a && b) ≡ true → a ≡ true
        left a b e = ground (arith, e)

-- The patterns of the volatile paths, where there are any, are plain.
abbrev pub ArePlain : Option RootVolatileConfig → Type 0
ArePlain none = Unit
ArePlain (some v) = All IsPlain v.patterns

-- A directory is a parent of what is below it.
any-map :
    (f : Str → Bool) (c : ℕ) (xs : List Str) → any f (map (λ p. c ∷ p) xs) ≡ any (λ p. f (c ∷ p)) xs
any-map f c [] = refl
any-map f c (x ∷ xs) = ground (arith, any-map f c xs)

any_parent : (f : Str → Bool) (d s : Str) → f d ≡ true → any f (parents (d ++ slash ∷ s)) ≡ true
unfolding parents
any_parent f [] s h = ground (arith, h)
any_parent f (c ∷ d) s h =
    let rest = any_parent (λ p. f (c ∷ p)) d s h in
    let moved = any-map f c (parents (d ++ slash ∷ s)) ∙ rest in
    elim (Bool-cases (c == slash)) [ inl e ↦ rw e (ground (arith, moved)) | inr e ↦ rw e moved ]

module _ (glob : Str → Str → Bool) (d s : Str) where
  match_below :
      (p : Str)
      → IsPlain p
      → path_pattern_match glob p d ≡ true
      → path_pattern_match glob p (d ++ slash ∷ s) ≡ true
  match_below p i e =
      path_pattern_match_plain glob (d ++ slash ∷ s) i
      ∙ below_child p d s (sym (path_pattern_match_plain glob d i) ∙ e)

  volatile_below :
      (o : Option RootVolatileConfig)
      → ArePlain o
      → volatile_excludes glob o d ≡ true
      → volatile_excludes glob o (d ++ slash ∷ s) ≡ true
  unfolding volatile_excludes volatile_matches
  volatile_below none plain h = absurd (cc h)
  volatile_below (some v) plain h =
      let matches : any (λ p. path_pattern_match glob p (d ++ slash ∷ s)) v.patterns ≡ true =
        any_lem IsPlain (λ p. path_pattern_match glob p d)
          (λ p. path_pattern_match glob p (d ++ slash ∷ s)) v.patterns match_below plain
          (second (str_eq v.mode (codes "exclude")) _ h) in
      rw (first (str_eq v.mode (codes "exclude")) _ h, matches)
    where
      first : (a b : Bool) → (a && b) ≡ true → a ≡ true
      first a b e = ground (arith, e)

      second : (a b : Bool) → (a && b) ≡ true → b ≡ true
      second a b e = ground (arith, e)

-- A snapshot is not cut short above a managed path, for roots without wildcards: each directory that holds a
-- path which the rules of the root manage is one that the walk may enter. Conditions: every pattern of the root
-- is plain (trimmed, not empty, without wildcards and without a slash at either end) or, among the includes, is
-- `**`; the path and the directory have no slash at either end; and no ignore rule takes the path back, as one
-- with `!` does, where the directory is ignored.
pub root_record_is_managed_descends :
    (glob : Str → Str → Bool) (ignored : Str → Bool → Bool) (root : RootConfig) (d s : Str)
    (is_dir : Bool)
    → All IsIncludable root.include
    → All IsPlain root.explicit_track
    → All IsPlain root.explicit_untrack
    → ArePlain root.volatile
    → is_empty d ≡ false
    → trim_matches slash d ≡ d
    → trim_matches slash (d ++ slash ∷ s) ≡ d ++ slash ∷ s
    → (ignored d true ≡ true → ignored (d ++ slash ∷ s) is_dir ≡ true)
    → root_record_is_managed glob ignored root (d ++ slash ∷ s) is_dir ≡ true
    → root_dir_allows_descend glob ignored root d ≡ true
unfolding root_record_is_managed root_dir_allows_descend has_ignored_parent is_volatile_excluded
root_record_is_managed_descends glob ignored root d s is_dir include track untrack volatile full dir
      path below h =
    let rel = d ++ slash ∷ s in
    let u = untracked_below glob d s full dir path root.explicit_untrack untrack in
    let t = tracked_above glob d s full dir path root.explicit_track track in
    let i = included_above glob d s full dir path root.include include in
    let o = overridden_above glob d s full dir path root.include include in
    let v = volatile_below glob d s root.volatile volatile in
    let held = any_parent (λ p. not (is_empty p) && ignored p true) d s in
    ground (arith, h, u, t, i, o, v, below, held, full)
