-- ===== src/Journal.antt =====
-- The event journal: `has_pending_journal_events` of crates/majutsu-db/src/lib.rs and the compaction of
-- src/queue_runtime.rs (`event_journal_stats_from_records`, `event_removable_after_snapshot`,
-- `compact_event_journal_inner`). An instant is a number; of a record the fields stand that these
-- functions read. Whether the current snapshot covers an event is an argument, which the strict mode
-- of `MAJUTSU_EVENT_COMPACT_STRICT` alone asks for.
mod Tests
mod Compact
use majutsu.Base.{
  is_some, ℕ, suc, ◌+◌, max, Bool, true, false, not, ◌&&◌, ◌||◌, Option, none, some, List, [], ◌∷◌,
  ◌==◌, ltb, leb, if◌then◌else◌, length, filter, any,
}
use majutsu.Base.Text.{Str, codes, str_eq}

pub record EventJournalRecord : Type 0 where
  pub event_id : Str
  pub kind : Str
  pub observed_at : ℕ
  pub remote_journal_synced_at : Option ℕ

pub is_snapshot_finish : EventJournalRecord → Bool
is_snapshot_finish e = str_eq e.kind (codes "snapshot-finish")

pub is_pending_trigger : EventJournalRecord → Bool
is_pending_trigger e = str_eq e.kind (codes "fs-event") || str_eq e.kind (codes "periodic-rescan")

pub is_remote_journal_pending : EventJournalRecord → Bool
is_remote_journal_pending e = is_pending_trigger e && not (is_some e.remote_journal_synced_at)

-- The times of the snapshots that finished, and the latest of some times.
pub snapshot_finishes : List EventJournalRecord → List ℕ
snapshot_finishes [] = []
snapshot_finishes (e ∷ records) =
    if is_snapshot_finish e
    then e.observed_at ∷ snapshot_finishes records
    else snapshot_finishes records

abbrev pub later_of : ℕ → Option ℕ → Option ℕ
later_of t none = some t
later_of t (some u) = some (max t u)

pub latest : List ℕ → Option ℕ
latest [] = none
latest (t ∷ times) = later_of t (latest times)

pub last_snapshot_finish : List EventJournalRecord → Option ℕ
last_snapshot_finish records = latest (snapshot_finishes records)

-- Behind the last finished snapshot, if there is one.
pub is_pending_after : Option ℕ → EventJournalRecord → Bool
is_pending_after none e = is_pending_trigger e
is_pending_after (some finished_at) e = is_pending_trigger e && ltb finished_at e.observed_at

pub has_pending_journal_events : List EventJournalRecord → Bool
has_pending_journal_events records = any (is_pending_after (last_snapshot_finish records)) records

-- Sorted, without duplicates, the latest first; the second of these.
pub insert_time : ℕ → List ℕ → List ℕ
insert_time t [] = t ∷ []
insert_time t (u ∷ times) =
    if t == u then u ∷ times else if ltb u t then t ∷ u ∷ times else u ∷ insert_time t times

pub newest_first : List ℕ → List ℕ
newest_first [] = []
newest_first (t ∷ times) = insert_time t (newest_first times)

abbrev pub second : List ℕ → Option ℕ
second [] = none
second (t ∷ []) = none
second (t ∷ (u ∷ times)) = some u

pub previous_snapshot_finish : List ℕ → Option ℕ
previous_snapshot_finish finishes = second (newest_first finishes)

abbrev pub is_before : ℕ → Option ℕ → Bool
is_before t none = false
is_before t (some cutoff) = ltb t cutoff

module _ (trust_snapshot_finish : Bool) (covered : EventJournalRecord → Bool) where
  -- `covered` is false where there is no current snapshot.
  pub event_removable_after_snapshot : Option ℕ → Option ℕ → EventJournalRecord → Bool
  event_removable_after_snapshot compact_before none e =
      if is_snapshot_finish e || not (is_pending_trigger e)
      then is_before e.observed_at compact_before
      else false
  event_removable_after_snapshot compact_before (some last) e =
      if is_snapshot_finish e || not (is_pending_trigger e)
      then is_before e.observed_at compact_before
      else if leb last e.observed_at
      then false
      else if not (is_some e.remote_journal_synced_at)
      then false
      else if trust_snapshot_finish
      then true
      else covered e

  -- The records behind a compaction that is not a dry run.
  pub compact_event_journal_inner : Bool → ℕ → List EventJournalRecord → List EventJournalRecord
  compact_event_journal_inner force min_records records =
      if not force && leb (length records) min_records
      then records
      else elim (last_snapshot_finish records) [
        | none ↦ records
        | some last ↦
            filter
              (λ e. not (
                event_removable_after_snapshot
                  (previous_snapshot_finish (snapshot_finishes records)) (some last) e))
              records
      ]
