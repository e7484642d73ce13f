-- ===== src/Prune/Retention.antt =====
-- The first snapshot of a day or month, in the order of the list, is kept while days or months are wanted.
use mathlib.Core.Path.{subst}
use majutsu.Base.{
  sym, ap, ◌∙◌, ℕ, ◌≤◌, ◌<◌, ◌≡◌, refl, true, false, ◌||◌, Option, List, [], ◌∷◌, ◌++◌, map, ltb,
  length, arith,
}
use majutsu.Base.Text.{Str, str_eq_refl}
use majutsu.Base.Sets.{mem, insert, mem-insert, length-le-insert}
use majutsu.Prune.{
  Calendar, SnapshotPruneInput, day_key, month_key, Progress, note_period, note_snapshot, note_all,
  first_kept, build_snapshot_prune_plan,
}
use majutsu.Prune.Plan.{mem-filter, note_period_keeps, note_all_keeps}

module _ (c : Calendar) where
  -- A snapshot of a period that is new is kept while the limit is not reached.
  note_period_takes :
      (limit : ℕ) (key id : Str) (periods keep : List Str)
      → length periods < limit
      → mem key periods ≡ false
      → mem id (note_period c limit key id periods keep).1 ≡ true
  unfolding note_period
  note_period_takes limit key id periods keep room new =
      ground (arith, mem-insert id id keep, str_eq_refl id)

  note_period_grows :
      (limit : ℕ) (key id : Str) (periods keep : List Str)
      → length periods < limit
      → (note_period c limit key id periods keep).0 ≡ insert key periods
  unfolding note_period
  note_period_grows limit key id periods keep room =
      let open_ : ltb (length periods) limit ≡ true = ground arith in rw open_

  -- The distinct periods of the snapshots, added to a set of periods.
  unfoldable pub periods_from :
      (SnapshotPruneInput → Str) → List Str → List SnapshotPruneInput → List Str
  unfolding insert
  periods_from key periods [] = periods
  periods_from key periods (s ∷ snapshots) = periods_from key (insert (key s) periods) snapshots

  module _ (key : SnapshotPruneInput → Str) where
    length-periods_from :
        (snapshots : List SnapshotPruneInput) (periods : List Str)
        → length periods ≤ length (periods_from key periods snapshots)
    unfolding periods_from
    length-periods_from [] periods = omega arith
    length-periods_from (s ∷ snapshots) periods = omega (
      arith,
      length-le-insert (key s) periods,
      length-periods_from snapshots (insert (key s) periods),
    )

    mem-periods_from :
        (a : Str) (snapshots : List SnapshotPruneInput) (periods : List Str)
        → mem a (periods_from key periods snapshots) ≡ (mem a periods || mem a (map key snapshots))
    unfolding periods_from mem
    mem-periods_from a [] periods = ground arith
    mem-periods_from a (s ∷ snapshots) periods =
        ground (
          arith,
          mem-periods_from a snapshots (insert (key s) periods),
          mem-insert (key s) a periods,
        )

  module _ (keep_daily keep_monthly : ℕ) where
    note_all-append :
        (before after : List SnapshotPruneInput) (g : Progress c)
        → note_all c keep_daily keep_monthly (before ++ after) g
          ≡ note_all c keep_daily keep_monthly after (note_all c keep_daily keep_monthly before g)
    unfolding note_all
    note_all-append [] after g = refl
    note_all-append (s ∷ before) after g =
        note_all-append before after (note_snapshot c keep_daily keep_monthly s g)

    -- Below the limit the set of days is that of the days seen, and that of months likewise.
    note_all-daily :
        (snapshots : List SnapshotPruneInput) (g : Progress c)
        → length (periods_from (day_key c) g.daily snapshots) < keep_daily
        → (note_all c keep_daily keep_monthly snapshots g).daily
          ≡ periods_from (day_key c) g.daily snapshots
    unfolding note_all note_snapshot periods_from
    note_all-daily [] g room = refl
    note_all-daily (s ∷ snapshots) g room =
        let grown = length-le-insert (day_key c s) g.daily in
        let later = length-periods_from (day_key c) snapshots (insert (day_key c s) g.daily) in
        let e = note_period_grows keep_daily (day_key c s) s.id g.daily g.keep (omega arith) in
        let e' : (note_snapshot c keep_daily keep_monthly s g).daily
            ≡ insert (day_key c s) g.daily =
          e in
        note_all-daily snapshots (note_snapshot c keep_daily keep_monthly s g)
          (subst (λ x. length (periods_from (day_key c) x snapshots) < keep_daily) (sym e') room)
        ∙ ap (λ x. periods_from (day_key c) x snapshots) e'

    note_all-monthly :
        (snapshots : List SnapshotPruneInput) (g : Progress c)
        → length (periods_from (month_key c) g.monthly snapshots) < keep_monthly
        → (note_all c keep_daily keep_monthly snapshots g).monthly
          ≡ periods_from (month_key c) g.monthly snapshots
    unfolding note_all note_snapshot periods_from
    note_all-monthly [] g room = refl
    note_all-monthly (s ∷ snapshots) g room =
        let grown = length-le-insert (month_key c s) g.monthly in
        let later =
          length-periods_from (month_key c) snapshots (insert (month_key c s) g.monthly) in
        let kept = (note_period c keep_daily (day_key c s) s.id g.daily g.keep).1 in
        let e = note_period_grows keep_monthly (month_key c s) s.id g.monthly kept (omega arith) in
        let e' : (note_snapshot c keep_daily keep_monthly s g).monthly
            ≡ insert (month_key c s) g.monthly =
          e in
        note_all-monthly snapshots (note_snapshot c keep_daily keep_monthly s g) (
          subst (λ x. length (periods_from (month_key c) x snapshots) < keep_monthly) (sym e') room)
        ∙ ap (λ x. periods_from (month_key c) x snapshots) e'

  -- The first snapshot of a day in the given order is kept while fewer days than
  -- wanted come before it, and it is not deleted. Condition: no snapshot before it is of its day.
  pub plan_keeps_day :
      (before after : List SnapshotPruneInput) (s : SnapshotPruneInput) (current : Option Str)
      (keep_daily keep_monthly : ℕ)
      → mem (day_key c s) (map (day_key c) before) ≡ false
      → length (periods_from (day_key c) [] before) < keep_daily
      → let plan =
          build_snapshot_prune_plan c (before ++ (s ∷ after)) current keep_daily keep_monthly in
        (mem s.id plan.keep ≡ true) × (mem s.id plan.delete ≡ false)
  unfolding build_snapshot_prune_plan
  plan_keeps_day before after s current keep_daily keep_monthly new room =
      let start : Progress c = record { keep = first_kept c current; daily = []; monthly = [] } in
      let split = note_all-append keep_daily keep_monthly before (s ∷ after) start in
      let g = note_all c keep_daily keep_monthly before start in
      let seen = note_all-daily keep_daily keep_monthly before start room in
      let unseen : mem (day_key c s) g.daily ≡ false =
        rw seen (mem-periods_from (day_key c) (day_key c s) before [] ∙ unfold mem in new) in
      let few : length g.daily < keep_daily = rw seen room in
      let taken : mem s.id (note_snapshot c keep_daily keep_monthly s g).keep ≡ true =
        unfold note_snapshot in
        note_period_keeps c keep_monthly (month_key c s) s.id s.id g.monthly _
          (note_period_takes keep_daily (day_key c s) s.id g.daily g.keep few unseen) in
      let kept =
        note_all_keeps c keep_daily keep_monthly after s.id
          (note_snapshot c keep_daily keep_monthly s g) taken in
      let kept' : mem s.id (note_all c keep_daily keep_monthly (before ++ (s ∷ after)) start).keep
          ≡ true =
        rw split (unfold note_all in kept) in
      (kept', rw mem-filter (ground (arith, kept')))

  -- The first snapshot of a month in the given order is kept while fewer months than
  -- wanted come before it, and it is not deleted. Condition: no snapshot before it is of its month.
  pub plan_keeps_month :
      (before after : List SnapshotPruneInput) (s : SnapshotPruneInput) (current : Option Str)
      (keep_daily keep_monthly : ℕ)
      → mem (month_key c s) (map (month_key c) before) ≡ false
      → length (periods_from (month_key c) [] before) < keep_monthly
      → let plan =
          build_snapshot_prune_plan c (before ++ (s ∷ after)) current keep_daily keep_monthly in
        (mem s.id plan.keep ≡ true) × (mem s.id plan.delete ≡ false)
  unfolding build_snapshot_prune_plan
  plan_keeps_month before after s current keep_daily keep_monthly new room =
      let start : Progress c = record { keep = first_kept c current; daily = []; monthly = [] } in
      let split = note_all-append keep_daily keep_monthly before (s ∷ after) start in
      let g = note_all c keep_daily keep_monthly before start in
      let seen = note_all-monthly keep_daily keep_monthly before start room in
      let unseen : mem (month_key c s) g.monthly ≡ false =
        rw seen (mem-periods_from (month_key c) (month_key c s) before [] ∙ unfold mem in new) in
      let few : length g.monthly < keep_monthly = rw seen room in
      let taken : mem s.id (note_snapshot c keep_daily keep_monthly s g).keep ≡ true =
        unfold note_snapshot in
        note_period_takes keep_monthly (month_key c s) s.id g.monthly _ few unseen in
      let kept =
        note_all_keeps c keep_daily keep_monthly after s.id
          (note_snapshot c keep_daily keep_monthly s g) taken in
      let kept' : mem s.id (note_all c keep_daily keep_monthly (before ++ (s ∷ after)) start).keep
          ≡ true =
        rw split (unfold note_all in kept) in
      (kept', rw mem-filter (ground (arith, kept')))
