-- ===== src/Prune.antt =====
-- The retention plan of snapshots: `build_snapshot_prune_plan` of crates/majutsu-policy/src/lib.rs.
-- The calendar of `chrono` is a parameter; an instant is a number.

pub mod Tests
pub mod Plan
pub mod Retention
use majutsu.Base.{
  ℕ, ◌≡◌, Bool, true, false, not, ◌&&◌, Option, none, some, List, [], ◌∷◌, ◌++◌, map, if◌then◌else◌,
  ltb, length, filter,
}
use majutsu.Base.Text.{Str, codes}
use majutsu.Base.Sets.{mem, insert}
use majutsu.Base.Decimal.{padded}

pub record Calendar : Type 0 where
  pub year : ℕ → ℕ
  pub month : ℕ → ℕ
  pub day : ℕ → ℕ

pub record SnapshotPruneInput : Type 0 where
  pub id : Str
  pub created_at : ℕ

pub record SnapshotPrunePlan : Type 0 where
  pub keep : List Str
  pub delete : List Str

module _ (c : Calendar) where
  pub day_key : SnapshotPruneInput → Str
  unfolding padded
  day_key s =
      padded 4 (c.year s.created_at)
      ++ (codes "-"
          ++ (padded 2 (c.month s.created_at) ++ (codes "-" ++ padded 2 (c.day s.created_at))))

  pub month_key : SnapshotPruneInput → Str
  unfolding padded
  month_key s = padded 4 (c.year s.created_at) ++ (codes "-" ++ padded 2 (c.month s.created_at))

  -- `keep`, `daily` and `monthly` of the loop.
  pub record Progress : Type 0 where
    pub keep : List Str
    pub daily : List Str
    pub monthly : List Str

  -- A period's set and the kept ids, after a snapshot `id` of the period `key`: the set is asked and
  -- extended only below its limit.
  pub note_period : ℕ → Str → Str → List Str → List Str → List Str × List Str
  note_period limit key id periods keep =
      if ltb (length periods) limit
      then (insert key periods, if mem key periods then keep else insert id keep)
      else (periods, keep)

  pub note_snapshot : ℕ → ℕ → SnapshotPruneInput → Progress → Progress
  note_snapshot keep_daily keep_monthly s g =
      let (daily, kept) = note_period keep_daily (day_key s) s.id g.daily g.keep in
      let (monthly, kept') = note_period keep_monthly (month_key s) s.id g.monthly kept in
      record { keep = kept'; daily = daily; monthly = monthly }

  pub note_all : ℕ → ℕ → List SnapshotPruneInput → Progress → Progress
  note_all keep_daily keep_monthly [] g = g
  note_all keep_daily keep_monthly (s ∷ snapshots) g =
      note_all keep_daily keep_monthly snapshots (note_snapshot keep_daily keep_monthly s g)

  abbrev pub first_kept : Option Str → List Str
  first_kept none = []
  first_kept (some current) = insert current []

  -- `binary_search` on the sorted `keep` finds exactly its elements.
  pub build_snapshot_prune_plan : List SnapshotPruneInput → Option Str → ℕ → ℕ → SnapshotPrunePlan
  unfolding note_all note_snapshot
  build_snapshot_prune_plan snapshots current keep_daily keep_monthly =
      let g =
        note_all keep_daily keep_monthly snapshots
          (record { keep = first_kept current; daily = []; monthly = [] }) in
      record {
        keep = g.keep;
        delete = filter (λ id. not (mem id g.keep)) (map (λ s. s.id) snapshots);
      }
