-- ===== src/Restore/Queue.antt =====
-- The life of a queue item, as a step relation, and what it keeps true.
use mathlib.Core.Path.{subst}
use majutsu.Base.{
  ◌≡◌, refl, sym, ◌∙◌, inl, inr, Bool, true, false, not, ◌&&◌, Option, none, some, List, [], ◌∷◌,
  ◌++◌, is_empty, filter, all, arith, Bool-cases, Option-cases,
}
use majutsu.Base.Text.{Str, codes, str_eq, str_eq_refl}
use majutsu.Base.Sets.{mem}
use majutsu.Restore.{
  RestoreQueueItem, classify, classify_restore_object_availability, has_valid_status, is_resumable,
  mark_archive_requested, mark_ready_if_archives_hydrated, mark_done, missing_objects_message,
  blocking_resume_message, done_with_pending_objects, pending_objects_outside_required,
  build_restore_job, try_partition, request_archive_restore_for_job, hydrate_restore_job_objects,
}

-- What the queue holds for a job: `Prepare` writes it, and a `Resume` that gets behind the two first
-- guards hydrates it, and marks it done if nothing blocks it any more.
pub data Life : RestoreQueueItem → Type 0 where
  prepare :
      (local_exists remote_available : Str → Option Bool) (remote : Option (Str → Option Bool))
      (id snapshot_id target : Str) (required : List Str) (built item : RestoreQueueItem)
      → build_restore_job local_exists remote_available id snapshot_id target required ≡ some built
      → request_archive_restore_for_job remote built ≡ some item
      → Life item
  hydrate :
      (remote : Option (Str → Option Bool)) (item item' : RestoreQueueItem)
      → Life item
      → is_resumable item ≡ true
      → missing_objects_message item ≡ none
      → hydrate_restore_job_objects remote item ≡ some item'
      → Life item'
  finish :
      (item : RestoreQueueItem)
      → Life item
      → is_resumable item ≡ true
      → blocking_resume_message item ≡ none
      → Life (mark_done item)

abbrev within : RestoreQueueItem → Str → Bool
within item key = mem key item.required_objects

-- A known status, no pending object of a job that is done, and no pending object that is not required.
pub record IsConsistent (item : RestoreQueueItem) : Type 0 where
  pub valid : has_valid_status item ≡ true
  pub settled : done_with_pending_objects item ≡ false
  pub archived_within : all (within item) item.archived_objects ≡ true
  pub missing_within : all (within item) item.missing_objects ≡ true
  pub requested_within : all (within item) item.archive_requested_objects ≡ true

all-weaken :
    (p q : Str → Bool) (keys : List Str)
    → ((key : Str) → p key ≡ true → q key ≡ true)
    → all p keys ≡ true
    → all q keys ≡ true
all-weaken p q [] f h = refl
all-weaken p q (key ∷ keys) f h = ground (arith, f key, all-weaken p q keys f)

all-mem : (keys : List Str) → all (λ key. mem key keys) keys ≡ true
unfolding mem
all-mem [] = refl
all-mem (key ∷ keys) =
    let later =
      all-weaken (λ k. mem k keys) (λ k. mem k (key ∷ keys)) keys (λ k h. ground arith)
        (all-mem keys) in
    ground (arith, str_eq_refl key)

-- Both lists, where there are any, have only keys that pass.
abbrev BothWithin : (Str → Bool) → Option (List Str × List Str) → Type 0
BothWithin p none = Unit
BothWithin p (some (xs, ys)) = (all p xs ≡ true) × (all p ys ≡ true)

classify_within :
    (local_exists remote_available : Str → Option Bool) (p : Str → Bool) (keys : List Str)
    → all p keys ≡ true
    → BothWithin p (classify local_exists remote_available keys)
unfolding classify
classify_within local_exists remote_available p [] inside = (refl, refl)
classify_within local_exists remote_available p (key ∷ keys) inside =
    let ih = classify_within local_exists remote_available p keys (ground arith) in
    elim (Option-cases (local_exists key)) [
      | inl failed ↦ rw (failed, classify) tt
      | inr (true, at) ↦ rw (at, classify) ih
      | inr (false, at) ↦ elim (Option-cases (remote_available key)) [
        | inl failed ↦ rw (at, failed, classify) tt
        | inr (available, known) ↦
            elim (Option-cases (classify local_exists remote_available keys)) [
              | inl failed ↦ rw (at, known, failed, classify) tt
              | inr ((archived, missing), e) ↦
                  let ih' : (all p archived ≡ true) × (all p missing ≡ true) =
                    subst (BothWithin p) e ih in
                  elim (Bool-cases available) [
                    | inl there ↦ rw (at, known, e, there, classify) (ground arith)
                    | inr gone ↦ rw (at, known, e, gone, classify) (ground arith)
                  ]
            ]
      ]
    ]

try_partition_within :
    (test : Str → Option Bool) (p : Str → Bool) (keys : List Str)
    → all p keys ≡ true
    → BothWithin p (try_partition test keys)
unfolding try_partition
try_partition_within test p [] inside = (refl, refl)
try_partition_within test p (key ∷ keys) inside =
    let ih = try_partition_within test p keys (ground arith) in
    elim (Option-cases (test key)) [
      | inl failed ↦ rw (failed, try_partition) tt
      | inr (passes, done) ↦ elim (Option-cases (try_partition test keys)) [
        | inl failed ↦ rw (done, failed, try_partition) tt
        | inr ((passed, others), e) ↦
            let ih' : (all p passed ≡ true) × (all p others ≡ true) = subst (BothWithin p) e ih in
            elim (Bool-cases passes) [
              | inl good ↦ rw (done, e, good, try_partition) (ground arith)
              | inr bad ↦ rw (done, e, bad, try_partition) (ground arith)
            ]
      ]
    ]

all-filter : (p q : Str → Bool) (keys : List Str) → all p keys ≡ true → all p (filter q keys) ≡ true
all-filter p q [] h = refl
all-filter p q (key ∷ keys) h = ground (arith, all-filter p q keys)

built-IsConsistent :
    (local_exists remote_available : Str → Option Bool) (id snapshot_id target : Str)
    (required : List Str) (item : RestoreQueueItem)
    → build_restore_job local_exists remote_available id snapshot_id target required ≡ some item
    → IsConsistent item
unfolding build_restore_job classify_restore_object_availability has_valid_status
    done_with_pending_objects str_eq
built-IsConsistent local_exists remote_available id snapshot_id target required item h =
    elim (Option-cases (classify local_exists remote_available required)) [
      | inl failed ↦ absurd (ground arith)
      | inr ((archived, missing), e) ↦
          let both : (all (λ key. mem key required) archived ≡ true)
              × (all (λ key. mem key required) missing ≡ true) =
            subst (BothWithin (λ key. mem key required)) e (
              classify_within local_exists remote_available (λ key. mem key required) required
                (all-mem required)) in
          let built : RestoreQueueItem = record {
            id = id;
            snapshot_id = snapshot_id;
            target = target;
            required_objects = required;
            archived_objects = archived;
            missing_objects = missing;
            archive_requested_objects = [];
            status = codes "prepared";
          } in
          let start : IsConsistent built = record {
            valid = refl;
            settled = refl;
            archived_within = both.0;
            missing_within = both.1;
            requested_within = refl;
          } in
          let same : some built ≡ some item = sym (rw (e, build_restore_job)) ∙ h in
          subst IsConsistent (cc same) start
    ]

marked_requested-IsConsistent :
    (requested : List Str) (job : RestoreQueueItem)
    → all (within job) requested ≡ true
    → IsConsistent job
    → IsConsistent (mark_archive_requested requested job)
unfolding mark_archive_requested has_valid_status done_with_pending_objects str_eq
marked_requested-IsConsistent [] job inside fine = fine
marked_requested-IsConsistent (key ∷ keys) job inside fine = record {
  valid = refl;
  settled = refl;
  archived_within = fine.archived_within;
  missing_within = fine.missing_within;
  requested_within = inside;
}

requested-IsConsistent :
    (remote : Option (Str → Option Bool)) (job item : RestoreQueueItem)
    → request_archive_restore_for_job remote job ≡ some item
    → IsConsistent job
    → IsConsistent item
unfolding request_archive_restore_for_job
requested-IsConsistent none job item h fine = subst IsConsistent (cc h) fine
requested-IsConsistent (some restore_archive) job item h fine =
    elim (Bool-cases (is_empty job.archived_objects)) [
      | inl empty ↦
          let same : some job ≡ some item = sym (rw (empty, request_archive_restore_for_job)) ∙ h in
          subst IsConsistent (cc same) fine
      | inr archived ↦ elim (Option-cases (try_partition restore_archive job.archived_objects)) [
        | inl failed ↦ absurd (ground arith)
        | inr ((requested, others), e) ↦
            let (inside, _) : (all (within job) requested ≡ true)
                × (all (within job) others ≡ true) =
              subst (BothWithin (within job)) e (
                try_partition_within restore_archive (within job) job.archived_objects
                  fine.archived_within) in
            let same : some (mark_archive_requested requested job) ≡ some item =
              sym (rw (archived, e, request_archive_restore_for_job)) ∙ h in
            subst IsConsistent (cc same) (marked_requested-IsConsistent requested job inside fine)
      ]
    ]

marked_ready-IsConsistent :
    (job : RestoreQueueItem) → IsConsistent job → IsConsistent (mark_ready_if_archives_hydrated job)
unfolding mark_ready_if_archives_hydrated has_valid_status done_with_pending_objects str_eq
marked_ready-IsConsistent job fine =
    let inside =
      all-filter (within job) (λ key. mem key job.archived_objects) job.archive_requested_objects
        fine.requested_within in
    elim (Bool-cases (is_empty job.archived_objects)) [
      | inl empty ↦ rw empty (record {
        valid = refl;
        settled = refl;
        archived_within = fine.archived_within;
        missing_within = fine.missing_within;
        requested_within = inside;
      })
      | inr pending ↦ rw pending (record {
        valid = fine.valid;
        settled = fine.settled;
        archived_within = fine.archived_within;
        missing_within = fine.missing_within;
        requested_within = inside;
      })
    ]

hydrated-IsConsistent :
    (remote : Option (Str → Option Bool)) (job item : RestoreQueueItem)
    → hydrate_restore_job_objects remote job ≡ some item
    → IsConsistent job
    → IsConsistent item
unfolding hydrate_restore_job_objects done_with_pending_objects
hydrated-IsConsistent none job item h fine = subst IsConsistent (cc h) fine
hydrated-IsConsistent (some hydrate_key) job item h fine =
    elim (Bool-cases (is_empty job.archived_objects)) [
      | inl empty ↦
          let same : some job ≡ some item = sym (rw (empty, hydrate_restore_job_objects)) ∙ h in
          subst IsConsistent (cc same) fine
      | inr archived ↦ elim (Option-cases (try_partition hydrate_key job.archived_objects)) [
        | inl failed ↦ absurd (ground arith)
        | inr ((hydrated, pending), e) ↦
            let (_, inside) : (all (within job) hydrated ≡ true)
                × (all (within job) pending ≡ true) =
              subst (BothWithin (within job)) e (
                try_partition_within hydrate_key (within job) job.archived_objects
                  fine.archived_within) in
            let settled = fine.settled in
            let after : RestoreQueueItem = record job { archived_objects = pending } in
            let fine' : IsConsistent after = record {
              valid = unfold has_valid_status in fine.valid;
              settled = ground arith;
              archived_within = inside;
              missing_within = fine.missing_within;
              requested_within = fine.requested_within;
            } in
            let same : some (mark_ready_if_archives_hydrated after) ≡ some item =
              sym (rw (archived, e, hydrate_restore_job_objects)) ∙ h in
            subst IsConsistent (cc same) (marked_ready-IsConsistent after fine')
      ]
    ]

done-IsConsistent :
    (job : RestoreQueueItem)
    → blocking_resume_message job ≡ none
    → IsConsistent job
    → IsConsistent (mark_done job)
unfolding blocking_resume_message mark_done has_valid_status done_with_pending_objects str_eq
    missing_objects_message
done-IsConsistent job free fine = record {
  valid = refl;
  settled = ground arith;
  archived_within = fine.archived_within;
  missing_within = fine.missing_within;
  requested_within = fine.requested_within;
}

Life-IsConsistent : (item : RestoreQueueItem) → Life item → IsConsistent item
Life-IsConsistent item
      (prepare local_exists remote_available remote id snapshot_id target required built item' h
        h') =
    requested-IsConsistent remote built item h'
      (built-IsConsistent local_exists remote_available id snapshot_id target required built h)
Life-IsConsistent item (hydrate remote item' item'' life resumable free h) =
    hydrated-IsConsistent remote item' item h (Life-IsConsistent item' life)
Life-IsConsistent item (finish item' life resumable free) =
    done-IsConsistent item' free (Life-IsConsistent item' life)

all-append : (p : Str → Bool) (xs ys : List Str) → all p (xs ++ ys) ≡ (all p xs && all p ys)
all-append p [] ys = refl
all-append p (x ∷ xs) ys = ground (arith, all-append p xs ys)

filter-not :
    (p : Str → Bool) (keys : List Str) → all p keys ≡ true → filter (λ key. not (p key)) keys ≡ []
filter-not p [] h = refl
filter-not p (key ∷ keys) h = ground (arith, filter-not p keys)

-- Whatever the queue holds for a job, from its preparation on and through any number of resumes, has a
-- known status, has no pending object if it is done, and has none pending that is not required.
pub Life-passes_checks :
    (item : RestoreQueueItem)
    → Life item
    → (has_valid_status item ≡ true)
      × (done_with_pending_objects item ≡ false)
      × (pending_objects_outside_required item ≡ [])
unfolding pending_objects_outside_required
Life-passes_checks item life =
    let fine = Life-IsConsistent item life in
    let first = all-append (within item) item.missing_objects item.archive_requested_objects in
    let second =
      all-append (within item) item.archived_objects
        (item.missing_objects ++ item.archive_requested_objects) in
    let a = fine.archived_within in
    let b = fine.missing_within in
    let c = fine.requested_within in
    (
      fine.valid,
      fine.settled,
      filter-not (within item)
          (item.archived_objects ++ (item.missing_objects ++ item.archive_requested_objects))
          (ground arith),
    )
