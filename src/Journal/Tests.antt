-- ===== src/Journal/Tests.antt =====
-- A journal of two snapshots with events around them.
use majutsu.Base.{ℕ, ◌≡◌, refl, true, false, Option, none, some, List, [], ◌∷◌}
use majutsu.Base.Text.{Str, codes, str_eq}
use majutsu.Journal.{
  EventJournalRecord, is_snapshot_finish, is_pending_trigger, snapshot_finishes, latest,
  last_snapshot_finish, insert_time, newest_first, previous_snapshot_finish,
  event_removable_after_snapshot, compact_event_journal_inner,
}
use majutsu.Journal.Compact.{Keeps, compact-Keeps}

abbrev event : Str → ℕ → Option ℕ → EventJournalRecord
event kind at synced = record {
  event_id = codes "e";
  kind = kind;
  observed_at = at;
  remote_journal_synced_at = synced;
}

abbrev journal : List EventJournalRecord
journal =
    event (codes "fs-event") 1 (some 2)
    ∷ event (codes "fs-event") 2 none
    ∷ event (codes "snapshot-finish") 3 none
    ∷ event (codes "snapshot-finish") 5 none
    ∷ event (codes "fs-event") 6 none
    ∷ []

-- The synchronised event in front of the last snapshot goes.
compacted :
    compact_event_journal_inner true (λ e. false) true 1024 journal
    ≡ event (codes "fs-event") 2 none
      ∷ event (codes "snapshot-finish") 3 none
      ∷ event (codes "snapshot-finish") 5 none
      ∷ event (codes "fs-event") 6 none
      ∷ []
unfolding compact_event_journal_inner is_snapshot_finish is_pending_trigger snapshot_finishes latest
    last_snapshot_finish insert_time newest_first previous_snapshot_finish
    event_removable_after_snapshot str_eq
compacted = refl

compact-Keeps_example :
    Keeps journal (compact_event_journal_inner true (λ e. false) true 1024 journal)
compact-Keeps_example = compact-Keeps true (λ e. false) true 1024 journal
