-- ===== src/Restore.antt =====
-- The queue of restores: `RestoreQueueItem`, `classify_restore_object_availability` and
-- `count_restore_changes` of crates/majutsu-restore/src/lib.rs. A test that fails with an error is
-- `none`. Of an item the fields stand that its operations read or write. Its life is `Prepare` and
-- `Resume` of src/restore_runtime.rs with `build_restore_job`, `request_archive_restore_for_job` and
-- `hydrate_restore_job_objects` of src/main.rs; what a round does for one key is a parameter there.
pub mod Tests
pub mod Queue
pub mod Plan
use majutsu.Base.{
  ℕ, suc, ◌+◌, ◌≡◌, Bool, true, false, not, ◌&&◌, ◌||◌, Option, none, some, List, [], ◌∷◌, ◌++◌,
  ◌==◌, if◌then◌else◌, length, is_empty, filter,
}
use majutsu.Base.Text.{Str, codes, str_eq}
use majutsu.Base.Sets.{mem, insert}

pub record RestoreObjectAvailability : Type 0 where
  pub required_objects : List Str
  pub archived_objects : List Str
  pub missing_objects : List Str

module _ (local_exists remote_available : Str → Option Bool) where
  -- The loop: the archived and the missing objects behind those found so far.
  pub classify : List Str → Option (List Str × List Str)
  classify [] = some ([], [])
  classify (key ∷ keys) = elim (local_exists key) [
    | none ↦ none
    | some true ↦ classify keys
    | some false ↦ elim (remote_available key) [
      | none ↦ none
      | some available ↦ elim (classify keys) [
        | none ↦ none
        | some (archived, missing) ↦
            some (if available then (key ∷ archived, missing) else (archived, key ∷ missing))
      ]
    ]
  ]

  pub classify_restore_object_availability : List Str → Option RestoreObjectAvailability
  unfolding classify
  classify_restore_object_availability required_objects = elim (classify required_objects) [
    | none ↦ none
    | some (archived, missing) ↦ some (record {
      required_objects = required_objects;
      archived_objects = archived;
      missing_objects = missing;
    })
  ]

pub record RestoreQueueItem : Type 0 where
  pub id : Str
  pub snapshot_id : Str
  pub target : Str
  pub required_objects : List Str
  pub archived_objects : List Str
  pub missing_objects : List Str
  pub archive_requested_objects : List Str
  pub status : Str

pub has_valid_status : RestoreQueueItem → Bool
has_valid_status item =
    str_eq item.status (codes "prepared")
    || str_eq item.status (codes "ready")
    || str_eq item.status (codes "archive-requested")
    || str_eq item.status (codes "done")

pub is_resumable : RestoreQueueItem → Bool
is_resumable item =
    str_eq item.status (codes "prepared")
    || str_eq item.status (codes "ready")
    || str_eq item.status (codes "archive-requested")

pub mark_archive_requested : List Str → RestoreQueueItem → RestoreQueueItem
mark_archive_requested requested item =
    if not (is_empty requested)
    then record item { status = codes "archive-requested"; archive_requested_objects = requested }
    else item

pub mark_ready_if_archives_hydrated : RestoreQueueItem → RestoreQueueItem
mark_ready_if_archives_hydrated item =
    let requested = filter (λ key. mem key item.archived_objects) item.archive_requested_objects in
    if is_empty item.archived_objects
    then record item { archive_requested_objects = requested; status = codes "ready" }
    else record item { archive_requested_objects = requested }

pub mark_done : RestoreQueueItem → RestoreQueueItem
mark_done item = record item { status = codes "done" }

abbrev unique : List Str → List Str
unique [] = []
unique (key ∷ keys) = insert key (unique keys)

has_duplicate_required_objects : RestoreQueueItem → Bool
has_duplicate_required_objects item =
    not (length (unique item.required_objects) == length item.required_objects)

pub pending_objects_outside_required : RestoreQueueItem → List Str
pending_objects_outside_required item =
    filter (λ key. not (mem key item.required_objects))
      (item.archived_objects ++ (item.missing_objects ++ item.archive_requested_objects))

pub done_with_pending_objects : RestoreQueueItem → Bool
done_with_pending_objects item =
    str_eq item.status (codes "done")
    && (not (is_empty item.archived_objects) || not (is_empty item.missing_objects))

-- Which message `blocking_resume_message` and `missing_objects_message` make, with its count.
pub data BlockingMessage : Type 0 where
  has_missing_objects still_has_archived_objects : (count : ℕ) → BlockingMessage

pub missing_objects_message : RestoreQueueItem → Option BlockingMessage
missing_objects_message item =
    if is_empty item.missing_objects
    then none
    else some (has_missing_objects (length item.missing_objects))

pub blocking_resume_message : RestoreQueueItem → Option BlockingMessage
unfolding missing_objects_message
blocking_resume_message item = elim (missing_objects_message item) [
  | some message ↦ some message
  | none ↦
      if not (is_empty item.archived_objects)
      then some (still_has_archived_objects (length item.archived_objects))
      else none
]

pub data RestorePathState : Type 0 where
  missing matches differs : RestorePathState

pub record RestoreChangeStats : Type 0 where
  pub restore_files : ℕ
  pub modify_files : ℕ
  pub keep_files : ℕ
  pub delete_files : ℕ

pub count_file : RestorePathState → RestoreChangeStats → RestoreChangeStats
count_file missing stats = record stats { restore_files = stats.restore_files + 1 }
count_file matches stats = record stats { keep_files = stats.keep_files + 1 }
count_file differs stats = record stats { modify_files = stats.modify_files + 1 }

pub count_all {ℓ} :
    {F : Type ℓ}
    → (F → Option RestorePathState)
    → List F
    → RestoreChangeStats
    → Option RestoreChangeStats
unfolding count_file
count_all classify [] stats = some stats
count_all classify (file ∷ files) stats = elim (classify file) [
  | none ↦ none
  | some state ↦ count_all classify files (count_file state stats)
]

pub count_restore_changes {ℓ} :
    {F : Type ℓ} → List F → ℕ → (F → Option RestorePathState) → Option RestoreChangeStats
unfolding count_all
count_restore_changes files delete_count classify =
    count_all classify files
      (record { restore_files = 0; modify_files = 0; keep_files = 0; delete_files = delete_count })

pub build_restore_job :
    (Str → Option Bool) → (Str → Option Bool) → Str → Str → Str → List Str → Option RestoreQueueItem
unfolding classify_restore_object_availability
build_restore_job local_exists remote_available id snapshot_id target required =
    elim (classify_restore_object_availability local_exists remote_available required) [
      | none ↦ none
      | some a ↦ some (record {
        id = id;
        snapshot_id = snapshot_id;
        target = target;
        required_objects = a.required_objects;
        archived_objects = a.archived_objects;
        missing_objects = a.missing_objects;
        archive_requested_objects = [];
        status = codes "prepared";
      })
    ]

-- The keys that pass a test that can fail with an error, and those that do not.
pub try_partition : (Str → Option Bool) → List Str → Option (List Str × List Str)
try_partition test [] = some ([], [])
try_partition test (key ∷ keys) = elim (test key) [
  | none ↦ none
  | some passes ↦ elim (try_partition test keys) [
    | none ↦ none
    | some (passed, others) ↦
        some (if passes then (key ∷ passed, others) else (passed, key ∷ others))
  ]
]

-- With a remote, `restore_archive` asks it for a key and says whether it was requested.
pub request_archive_restore_for_job :
    Option (Str → Option Bool) → RestoreQueueItem → Option RestoreQueueItem
unfolding try_partition mark_archive_requested
request_archive_restore_for_job none job = some job
request_archive_restore_for_job (some restore_archive) job =
    if is_empty job.archived_objects
    then some job
    else elim (try_partition restore_archive job.archived_objects) [
      | none ↦ none
      | some (requested, others) ↦ some (mark_archive_requested requested job)
    ]

-- With a remote, `hydrate` is the round for a key, and says whether its object is now here.
pub hydrate_restore_job_objects :
    Option (Str → Option Bool) → RestoreQueueItem → Option RestoreQueueItem
unfolding try_partition mark_ready_if_archives_hydrated
hydrate_restore_job_objects none job = some job
hydrate_restore_job_objects (some hydrate) job =
    if is_empty job.archived_objects
    then some job
    else elim (try_partition hydrate job.archived_objects) [
      | none ↦ none
      | some (hydrated, still_pending) ↦
          some (mark_ready_if_archives_hydrated (record job { archived_objects = still_pending }))
    ]
