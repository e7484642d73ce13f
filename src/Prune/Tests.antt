-- ===== src/Prune/Tests.antt =====
-- Runs of the plan, under a calendar of months of 31 days.
use majutsu.Base.{
  ℕ, ◌+◌, ◌/◌, ◌%◌, ◌≤◌, ◌≡◌, refl, true, false, not, ◌&&◌, none, List, [], ◌∷◌, map, length, arith,
}
use majutsu.Base.Text.{Str, codes, str_eq, str_lt}
use majutsu.Base.Sets.{mem, insert, IsSorted}
use majutsu.Base.Decimal.{padded, decimal, digits_from, zeros}
use majutsu.Prune.{Calendar, SnapshotPruneInput, day_key, month_key, build_snapshot_prune_plan}
use majutsu.Prune.Plan.{plan_splits}
use majutsu.Prune.Retention.{periods_from, plan_keeps_day}

abbrev calendar : Calendar
calendar = record { year = λ t. 2026; month = λ t. 1 + t / 31; day = λ t. 1 + t % 31 }

abbrev taken : Str → ℕ → SnapshotPruneInput
taken id at = record { id = id; created_at = at }

-- Two of one day, and one of the month before.
abbrev late : SnapshotPruneInput
late = taken (codes "late") 40

abbrev early : SnapshotPruneInput
early = taken (codes "early") 40

abbrev old : SnapshotPruneInput
old = taken (codes "old") 3

abbrev snapshots : List SnapshotPruneInput
snapshots = late ∷ early ∷ old ∷ []

plan_splits_example :
    ((id : Str)
      → mem id (build_snapshot_prune_plan calendar snapshots none 1 1).delete ≡ (
          mem id (map (λ s. s.id) snapshots)
          && not (mem id (build_snapshot_prune_plan calendar snapshots none 1 1).keep)))
    × IsSorted (build_snapshot_prune_plan calendar snapshots none 1 1).keep
    × (length (build_snapshot_prune_plan calendar snapshots none 1 1).keep ≤ 3)
plan_splits_example = plan_splits calendar snapshots none 1 1

old_day_new : mem (day_key calendar old) (map (day_key calendar) (late ∷ early ∷ [])) ≡ false
unfolding day_key mem str_eq padded decimal digits_from zeros
old_day_new = refl

one_day_before : length (periods_from calendar (day_key calendar) [] (late ∷ early ∷ [])) ≡ 1
unfolding periods_from insert str_lt day_key padded decimal digits_from zeros
one_day_before = refl

plan_keeps_day_example :
    (mem (codes "old") (build_snapshot_prune_plan calendar snapshots none 2 0).keep ≡ true)
    × (mem (codes "old") (build_snapshot_prune_plan calendar snapshots none 2 0).delete ≡ false)
plan_keeps_day_example =
    plan_keeps_day calendar (late ∷ early ∷ []) [] old none 2 0 old_day_new
      (omega (arith, one_day_before))

old_month_new : mem (month_key calendar old) (map (month_key calendar) (late ∷ early ∷ [])) ≡ false
unfolding month_key mem str_eq padded decimal digits_from zeros
old_month_new = refl

one_month_before : length (periods_from calendar (month_key calendar) [] (late ∷ early ∷ [])) ≡ 1
unfolding periods_from insert str_lt month_key padded decimal digits_from zeros
one_month_before = refl
