-- ===== src/Prune/Plan.antt =====
-- What a plan keeps and what it deletes.
use majutsu.Base.{
  ℕ, ◌+◌, ◌≤◌, ◌≡◌, refl, Bool, true, false, not, ◌&&◌, Option, none, some, List, [], ◌∷◌, map, ltb,
  length, filter, arith, Bool-cases, inl, inr,
}
use majutsu.Base.Text.{Str, str_eq_iff, str_eq_refl}
use majutsu.Base.Sets.{
  mem, insert, IsSorted, mem-insert, insert-IsSorted, length-insert, length-insert_new,
  length-le-insert,
}
use majutsu.Prune.{
  Calendar, SnapshotPruneInput, day_key, month_key, Progress, note_period, note_snapshot, note_all,
  first_kept, build_snapshot_prune_plan,
}

pub mem-filter :
    (p : Str → Bool) (a : Str) (xs : List Str) → mem a (filter p xs) ≡ (mem a xs && p a)
unfolding mem
mem-filter p a [] = refl
mem-filter p a (x ∷ xs) = ground (arith, mem-filter p a xs, str_eq_iff a x)

first_kept-IsSorted : (c : Calendar) (current : Option Str) → IsSorted (first_kept c current)
unfolding insert
first_kept-IsSorted c none = tt
first_kept-IsSorted c (some current) = (tt, tt)

length-first_kept :
    (c : Calendar) (current : Option Str) → length (first_kept c current) ≤ 1 + 0 + 0
unfolding insert
length-first_kept c none = omega arith
length-first_kept c (some current) = omega arith

module _ (c : Calendar) where
  note_period-IsSorted :
      (limit : ℕ) (key id : Str) (periods keep : List Str)
      → IsSorted keep
      → IsSorted (note_period c limit key id periods keep).1
  unfolding note_period
  note_period-IsSorted limit key id periods keep h =
      elim (Bool-cases (ltb (length periods) limit)) [
        | inl open_ ↦ elim (Bool-cases (mem key periods)) [
          | inl seen ↦ rw (open_, seen) h
          | inr new ↦ rw (open_, new) (insert-IsSorted id keep h)
        ]
        | inr full ↦ rw full h
      ]

  -- What is kept stays kept.
  pub note_period_keeps :
      (limit : ℕ) (key id a : Str) (periods keep : List Str)
      → mem a keep ≡ true
      → mem a (note_period c limit key id periods keep).1 ≡ true
  unfolding note_period
  note_period_keeps limit key id a periods keep h = ground (arith, mem-insert id a keep)

  -- A kept id takes a new period, and there are no more periods than the limit.
  note_period_bound :
      (limit : ℕ) (key id : Str) (periods keep : List Str)
      → length periods ≤ limit
      → let (periods', keep') = note_period c limit key id periods keep in
        (length periods' ≤ limit) × (length keep' + length periods ≤ length keep + length periods')
  unfolding note_period
  note_period_bound limit key id periods keep h = ground (
    arith,
    length-insert id keep,
    length-insert_new key periods,
    length-insert key periods,
    length-le-insert key periods,
  )

  module _ (keep_daily keep_monthly : ℕ) where
    note_snapshot-IsSorted :
        (s : SnapshotPruneInput) (g : Progress c)
        → IsSorted g.keep
        → IsSorted (note_snapshot c keep_daily keep_monthly s g).keep
    unfolding note_snapshot
    note_snapshot-IsSorted s g h =
        note_period-IsSorted keep_monthly (month_key c s) s.id g.monthly _
          (note_period-IsSorted keep_daily (day_key c s) s.id g.daily g.keep h)

    note_all-IsSorted :
        (snapshots : List SnapshotPruneInput) (g : Progress c)
        → IsSorted g.keep
        → IsSorted (note_all c keep_daily keep_monthly snapshots g).keep
    unfolding note_all
    note_all-IsSorted [] g h = h
    note_all-IsSorted (s ∷ snapshots) g h =
        note_all-IsSorted snapshots (note_snapshot c keep_daily keep_monthly s g)
          (note_snapshot-IsSorted s g h)

    note_snapshot_keeps :
        (s : SnapshotPruneInput) (a : Str) (g : Progress c)
        → mem a g.keep ≡ true
        → mem a (note_snapshot c keep_daily keep_monthly s g).keep ≡ true
    unfolding note_snapshot
    note_snapshot_keeps s a g h =
        note_period_keeps keep_monthly (month_key c s) s.id a g.monthly _
          (note_period_keeps keep_daily (day_key c s) s.id a g.daily g.keep h)

    pub note_all_keeps :
        (snapshots : List SnapshotPruneInput) (a : Str) (g : Progress c)
        → mem a g.keep ≡ true
        → mem a (note_all c keep_daily keep_monthly snapshots g).keep ≡ true
    unfolding note_all
    note_all_keeps [] a g h = h
    note_all_keeps (s ∷ snapshots) a g h =
        note_all_keeps snapshots a (note_snapshot c keep_daily keep_monthly s g)
          (note_snapshot_keeps s a g h)

    note_snapshot_bound :
        (s : SnapshotPruneInput) (g : Progress c) (n : ℕ)
        → length g.daily ≤ keep_daily
        → length g.monthly ≤ keep_monthly
        → length g.keep ≤ n + length g.daily + length g.monthly
        → let g' = note_snapshot c keep_daily keep_monthly s g in
          (length g'.daily ≤ keep_daily)
          × (length g'.monthly ≤ keep_monthly)
          × (length g'.keep ≤ n + length g'.daily + length g'.monthly)
    unfolding note_snapshot
    note_snapshot_bound s g n few few' h =
        let (daily, kept) = note_period c keep_daily (day_key c s) s.id g.daily g.keep in
        omega (
          arith,
          note_period_bound keep_daily (day_key c s) s.id g.daily g.keep few,
          note_period_bound keep_monthly (month_key c s) s.id g.monthly kept few',
        )

    note_all_bound :
        (snapshots : List SnapshotPruneInput) (g : Progress c) (n : ℕ)
        → length g.daily ≤ keep_daily
        → length g.monthly ≤ keep_monthly
        → length g.keep ≤ n + length g.daily + length g.monthly
        → length (note_all c keep_daily keep_monthly snapshots g).keep
          ≤ n + keep_daily + keep_monthly
    unfolding note_all
    note_all_bound [] g n few few' h = omega arith
    note_all_bound (s ∷ snapshots) g n few few' h =
        let (a, b, e) = note_snapshot_bound s g n few few' h in
        note_all_bound snapshots (note_snapshot c keep_daily keep_monthly s g) n a b e

-- The current snapshot is kept and not deleted.
pub plan_keeps_current :
    (c : Calendar) (snapshots : List SnapshotPruneInput) (current : Str)
    (keep_daily keep_monthly : ℕ)
    → let plan = build_snapshot_prune_plan c snapshots (some current) keep_daily keep_monthly in
      (mem current plan.keep ≡ true) × (mem current plan.delete ≡ false)
unfolding build_snapshot_prune_plan
plan_keeps_current c snapshots current keep_daily keep_monthly =
    let start : Progress c = record { keep = insert current []; daily = []; monthly = [] } in
    let first : mem current (insert current []) ≡ true =
      unfold mem insert in ground (arith, str_eq_refl current) in
    let kept = note_all_keeps c keep_daily keep_monthly snapshots current start first in
    (kept, rw mem-filter (ground (arith, kept)))

-- The plan splits the snapshots: an id is deleted exactly when it is that of a snapshot and is not
-- kept. The kept ids are in strictly increasing order, so none is listed twice, and there are at most
-- as many as days and months to keep, and one more for the current snapshot.
pub plan_splits :
    (c : Calendar) (snapshots : List SnapshotPruneInput) (current : Option Str)
    (keep_daily keep_monthly : ℕ)
    → let plan = build_snapshot_prune_plan c snapshots current keep_daily keep_monthly in
      ((id : Str)
        → mem id plan.delete ≡ (mem id (map (λ s. s.id) snapshots) && not (mem id plan.keep)))
      × IsSorted plan.keep
      × (length plan.keep ≤ 1 + keep_daily + keep_monthly)
unfolding build_snapshot_prune_plan
plan_splits c snapshots current keep_daily keep_monthly =
    let start : Progress c = record { keep = first_kept c current; daily = []; monthly = [] } in
    (
      (λ id. mem-filter _ id (map (λ s. s.id) snapshots)),
      note_all-IsSorted c keep_daily keep_monthly snapshots start (first_kept-IsSorted c current),
      note_all_bound c keep_daily keep_monthly snapshots start 1 (omega arith) (omega arith)
          (length-first_kept c current),
    )
