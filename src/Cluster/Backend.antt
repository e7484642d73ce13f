-- ===== src/Cluster/Backend.antt =====
-- What the backend worker and the readers of src/cluster_runtime.rs do with the files of one key:
-- `upload_backend_queue_item` in its three steps, between which other operations may come,
-- `complete_backend_queue_item_without_upload`, `record_backend_queue_failure`, `run_local_gc` for one
-- item, `master_get_optional` and the answer to `BackendCommitted`.
use majutsu.Base.{
  ℕ, ◌+◌, ◌-◌, ◌^◌, min, ◌==◌, Bool, true, false, not, ◌||◌, Option, none, some, if◌then◌else◌, ltb,
  is_some, length,
}
use majutsu.Base.Text.{Str, str_eq}
use majutsu.Cluster.{
  Bytes, BackendQueueOperation, put, delete, BackendQueueItem, LocalGcItem, Upload, Files,
  object_missing, digest_changed, Action, pure, fail, reading, ◌>>=◌, ◌>>◌, Result, ok, err, write,
  next_generation, key_is_logically_deleted, len,
}
use majutsu.Cluster.Puts.{enforce_store_quota, update_store_bytes, put_store, has_digest}

abbrev u32_max : ℕ
u32_max = 2 ^ 32 - 1

-- The queue item is still the one that the worker has read.
unfoldable pub is_current : ℕ → Option BackendQueueItem → Bool
is_current generation none = false
is_current generation (some q) = q.generation == generation

-- What the worker holds in memory changes without a write.
unfoldable pub holding : Option Upload → Action (Unit {0})
holding u c = (ok tt, record c { files = record c.files { upload = u } })

unfoldable pub remove_queue_file : Action (Unit {0})
remove_queue_file = write (λ g. record g { queued = none })

-- The backend's copy after its operation.
unfoldable pub operated : BackendQueueOperation → Option Bytes → Option Bytes → Option Bytes
operated delete payload published = none
operated (put digest size true) payload (some y) = some y
operated (put digest size true) payload none = payload
operated (put digest size false) payload published = payload

-- The second step, without the lock.
unfoldable pub publish : Files → Files
publish f = elim f.upload [
  | none ↦ f
  | some u ↦ record f {
    published = operated u.item.operation u.payload f.published;
    upload = some (record u { done = true });
  }
]

unfoldable pub record_backend_put_receipt : BackendQueueOperation → Action (Unit {0})
record_backend_put_receipt (put digest size conditional) =
    write (λ g. record g { receipt = some digest })
record_backend_put_receipt delete = write (λ g. record g { receipt = none })

unfoldable pub publish_upload : Action (Unit {0})
unfolding publish
publish_upload c = (ok tt, record c { files = publish c.files })

-- A put of a key that the backend lists already.
unfoldable pub complete_backend_queue_item_without_upload : BackendQueueItem → Action Bool
unfolding record_backend_put_receipt
complete_backend_queue_item_without_upload item = reading λ f.
    if is_current item.generation f.queued
    then (do record_backend_put_receipt item.operation; remove_queue_file; pure true)
    else pure false

module _ (hash : Bytes → Str) where
  -- The bytes that a put sends.
  unfoldable pub read_payload : BackendQueueOperation → Action (Option Bytes)
  read_payload delete = pure none
  read_payload (put digest size conditional) = reading λ f. elim f.stored [
    | none ↦ fail object_missing
    | some x ↦ if str_eq (hash x) digest then pure (some x) else fail digest_changed
  ]

  -- The first step, under the lock: `blocked` is the answer of the dependencies of the flush.
  unfoldable pub begin_upload : Bool → BackendQueueItem → Action Bool
  unfolding read_payload
  begin_upload blocked item = reading λ f.
      if not (is_current item.generation f.queued) || blocked then pure false else (do
        payload ← read_payload item.operation
        holding (some (record { item = item; payload = payload; done = false }))
        pure true)

  unfoldable pub retain_stored : BackendQueueItem → ℕ → ℕ → Option Bytes → Action (Unit {0})
  retain_stored item now grace none = write (λ g. record g { retained = none })
  retain_stored item now grace (some x) = do
    generation ← next_generation
    write (λ g. record g {
      retained = some (record {
        generation = generation;
        key = item.key;
        source_host = item.source_host;
        digest = hash x;
        size = length x;
        deleted_from_backend_at = now;
        delete_after = now + grace;
      });
    })

  unfoldable pub retain_local_after_backend_delete : BackendQueueItem → ℕ → ℕ → Action (Unit {0})
  unfolding retain_stored
  retain_local_after_backend_delete item now grace =
      reading λ f. retain_stored item now grace f.stored

  unfoldable pub retain_deleted :
      BackendQueueItem → ℕ → ℕ → BackendQueueOperation → Action (Unit {0})
  unfolding retain_local_after_backend_delete
  retain_deleted item now grace delete = retain_local_after_backend_delete item now grace
  retain_deleted item now grace (put digest size conditional) = pure tt

  -- The last step, under the lock again.
  unfoldable pub complete_uploaded_backend_queue_item : BackendQueueItem → ℕ → ℕ → Action Bool
  unfolding retain_deleted record_backend_put_receipt
  complete_uploaded_backend_queue_item item now grace = reading λ f.
      if is_current item.generation f.queued
      then (do
        retain_deleted item now grace item.operation
        record_backend_put_receipt item.operation
        remove_queue_file
        pure true)
      else pure false

  -- `upload_backend_queue_item` where nothing comes between its steps and the backend takes the operation.
  unfoldable pub upload_backend_queue_item : Bool → BackendQueueItem → ℕ → ℕ → Action Bool
  unfolding begin_upload holding publish complete_uploaded_backend_queue_item
  upload_backend_queue_item blocked item now grace = do
    begun ← begin_upload blocked item
    if begun
        then (do publish_upload; holding none; complete_uploaded_backend_queue_item item now grace)
        else pure false

  -- The local copy of a deleted key goes, unless it is not what was retained; then the tombstone.
  unfoldable pub remove_collected : LocalGcItem → Action Bool
  remove_collected current = reading λ f.
      if has_digest hash current.digest f.stored
      then (do
        write (λ g. record g { stored = none })
        update_store_bytes (len f.stored) 0
        write (λ g. record g { retained = none })
        pure true)
      else (do write (λ g. record g { retained = none }); pure false)

  unfoldable pub collect_current :
      LocalGcItem → ℕ → Option LocalGcItem → Option BackendQueueItem → Action Bool
  unfolding remove_collected
  collect_current item now none queued = pure false
  collect_current item now (some current) queued =
      if not (current.generation == item.generation)
        || ltb now current.delete_after
        || is_some queued
      then pure false
      else remove_collected current

  -- `run_local_gc` for one item of the catalog, which may be older than the file.
  unfoldable pub collect_local_gc : LocalGcItem → ℕ → Action Bool
  unfolding collect_current
  collect_local_gc item now = reading λ f. collect_current item now f.retained f.queued

  -- `BackendCommitted` for one key.
  unfoldable pub is_backend_committed : Files → Bool
  is_backend_committed f =
      if is_some f.queued || is_some f.intent || key_is_logically_deleted f
      then false
      else (elim f.receipt [ none ↦ false | some digest ↦ has_digest hash digest f.stored ])

unfoldable pub retry_queued : BackendQueueItem → ℕ → Option BackendQueueItem → Action (Unit {0})
retry_queued attempted retry_at none = pure tt
retry_queued attempted retry_at (some q) =
    if q.generation == attempted.generation
    then write (λ g. record g {
      queued =
          some (record q { attempts = min (q.attempts + 1) u32_max; retry_after = some retry_at });
    })
    else pure tt

-- The time of the next attempt is given.
unfoldable pub record_backend_queue_failure : BackendQueueItem → ℕ → Action (Unit {0})
unfolding retry_queued
record_backend_queue_failure attempted retry_at =
    reading λ f. retry_queued attempted retry_at f.queued

-- What `master_get_optional` answers, by the files and the backend.
unfoldable pub master_get_optional : Files → Option Bytes
master_get_optional f =
    if key_is_logically_deleted f
    then none
    else (elim f.stored [ some x ↦ some x | none ↦ f.published ])

-- The store takes what was read from the backend, where its quota allows it.
unfoldable pub hydrate_when : Result (Unit {0}) → Bytes → Action (Unit {0})
hydrate_when (err e) bytes = pure tt
hydrate_when (ok _) bytes = do put_store bytes; update_store_bytes 0 (length bytes)

-- What `master_get_optional` does with the bytes that it has read, under the lock, later.
unfoldable pub hydrate_store : Bytes → Action (Unit {0})
unfolding hydrate_when
hydrate_store bytes c =
    (if is_some c.files.stored
        then pure tt
        else hydrate_when (enforce_store_quota 0 (length bytes) c).0 bytes)
      c
