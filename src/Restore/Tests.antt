-- ===== src/Restore/Tests.antt =====
-- A job with one object in the archive, prepared, hydrated and finished.
use majutsu.Base.{◌≡◌, refl, true, false, none, some, [], ◌∷◌}
use majutsu.Base.Text.{codes, str_eq}
use majutsu.Base.Sets.{mem}
use majutsu.Restore.{
  RestoreQueueItem, classify, classify_restore_object_availability, has_valid_status, is_resumable,
  mark_archive_requested, mark_ready_if_archives_hydrated, mark_done, missing_objects_message,
  blocking_resume_message, done_with_pending_objects, pending_objects_outside_required,
  build_restore_job, try_partition, request_archive_restore_for_job, hydrate_restore_job_objects,
}
use majutsu.Restore.Queue.{Life, prepare, hydrate, finish, Life-passes_checks}

abbrev archived_job : RestoreQueueItem
archived_job = record {
  id = codes "j";
  snapshot_id = codes "s";
  target = codes "original-roots";
  required_objects = codes "a" ∷ [];
  archived_objects = codes "a" ∷ [];
  missing_objects = [];
  archive_requested_objects = [];
  status = codes "prepared";
}

abbrev requested_job : RestoreQueueItem
requested_job = record archived_job {
  archive_requested_objects = codes "a" ∷ [];
  status = codes "archive-requested";
}

abbrev ready_job : RestoreQueueItem
ready_job = record requested_job {
  archived_objects = [];
  archive_requested_objects = [];
  status = codes "ready";
}

built :
    build_restore_job
      (λ k. some false)
      (λ k. some true)
      (codes "j")
      (codes "s")
      (codes "original-roots")
      (codes "a" ∷ [])
    ≡ some archived_job
unfolding build_restore_job classify_restore_object_availability classify
built = refl

requested :
    request_archive_restore_for_job (some (λ k. some true)) archived_job ≡ some requested_job
unfolding request_archive_restore_for_job try_partition mark_archive_requested
requested = refl

hydrated : hydrate_restore_job_objects (some (λ k. some true)) requested_job ≡ some ready_job
unfolding hydrate_restore_job_objects try_partition mark_ready_if_archives_hydrated mem
hydrated = refl

resumable : (is_resumable requested_job ≡ true) × (is_resumable ready_job ≡ true)
unfolding is_resumable str_eq
resumable = (refl, refl)

nothing_missing : missing_objects_message requested_job ≡ none
unfolding missing_objects_message
nothing_missing = refl

nothing_blocks : blocking_resume_message ready_job ≡ none
unfolding blocking_resume_message missing_objects_message
nothing_blocks = refl

finished : Life (mark_done ready_job)
finished =
    finish ready_job
      (hydrate (some (λ k. some true)) requested_job ready_job
        (prepare (λ k. some false) (λ k. some true) (some (λ k. some true)) (codes "j") (codes "s")
          (codes "original-roots") (codes "a" ∷ []) archived_job requested_job built requested)
        resumable.0 nothing_missing hydrated)
      resumable.1 nothing_blocks

Life-passes_checks_example :
    (has_valid_status (mark_done ready_job) ≡ true)
    × (done_with_pending_objects (mark_done ready_job) ≡ false)
    × (pending_objects_outside_required (mark_done ready_job) ≡ [])
Life-passes_checks_example = Life-passes_checks (mark_done ready_job) finished
