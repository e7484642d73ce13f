-- ===== src/Cluster/Tests.antt =====
-- The theorems on the cluster master at concrete keys, contents and histories.
use majutsu.Base.{◌≡◌, ◌⊎◌, inl, refl, true, false, none, some, List, [], ◌∷◌}
use majutsu.Base.Text.{Str, codes, str_eq}
use majutsu.Cluster.{
  operation_eq, Bytes, ClusterPutItem, BackendQueueItem, Cell, ok, put, ◌>>=◌, when, len, write,
  next_generation,
}
use majutsu.Cluster.Puts.{
  enforce_store_quota, put_store, update_store_bytes, write_backend_queue_item, remove_intent,
  process_put, durable_delete, recover_master_write_intent_for_key,
}
use majutsu.Cluster.Backend.{
  hydrate_store, begin_upload, publish, holding, is_current, upload_backend_queue_item,
  master_get_optional,
}
use majutsu.Cluster.Fine.{
  contents, is_settled, fits_queue, fits_tombstone, is_older, fits_upload, IsFine,
}
use majutsu.Cluster.Life.{
  hydrated, disk, restarted, begun, published, Quietly, AreTimely, IsTimely, here, next,
}
use majutsu.Cluster.Promises.{new_files, get-process_put, get-durable_delete, contents-process_put}
use majutsu.Cluster.Acknowledged.{IsDurable}
use majutsu.Cluster.Flush.{IsFlushed, upload_backend_queue_item-IsFlushed}
use majutsu.Cluster.Worker.{is_snapshot}
use majutsu.Cluster.Fine.{same_item}
use majutsu.Cluster.Late.{remote_only, flushed, get-hydrate_store_late}
use majutsu.Cluster.Batch.{
  Master, load, save, last_put, put_then, with_first, process_puts, process_puts-IsPut,
}
use majutsu.Cluster.Histories.{new_cell, Life, AllTimely, Life-IsFine}

-- The contents stand for their own hash.
abbrev identity : Bytes → Str
identity x = x

abbrev key : Str
key = codes "h/k"

abbrev item : ClusterPutItem
item = record { key = key; bytes = 1 ∷ 2 ∷ []; conditional = false }

abbrev start : Cell
start = new_cell (some (9 ∷ [])) none 20

start-IsFine : IsFine identity start.files start.serial
unfolding is_settled fits_queue fits_tombstone is_older fits_upload
start-IsFine = record { settled = refl; older = refl; uploading = refl }

stored :
    (process_put identity key item 5 start).0
    ≡ ok (record { master_durable = true; newly_stored = true; stored_bytes = 2 })
unfolding process_put ◌>>=◌ when enforce_store_quota len write put_store update_store_bytes
    write_backend_queue_item next_generation remove_intent operation_eq
stored = refl

abbrev after_put : Cell
after_put = (process_put identity key item 5 start).1

abbrev queued : BackendQueueItem
queued = record {
  generation = 0;
  key = key;
  source_host = key;
  operation = put (1 ∷ 2 ∷ []) 2 false;
  created_at = 5;
  updated_at = 5;
  attempts = 0;
  retry_after = none;
}

-- The upload of the put is begun and reaches the backend, and then the process starts again.
went_on : Quietly identity key after_put (record {
  files = record (publish (begin_upload identity false queued after_put).1.files) { upload = none };
  store_bytes = 2;
  store_max_bytes = none;
  serial = 1;
  writes = 3;
})
unfolding process_put ◌>>=◌ when enforce_store_quota len write put_store update_store_bytes
    write_backend_queue_item next_generation remove_intent str_eq begin_upload is_snapshot
    is_current same_item publish holding
went_on =
    next
      (next (next (next here (begun after_put queued false refl refl)) (published _))
        (restarted _ 2))
      (disk _ 3)

get-process_put_example :
    master_get_optional
      (recover_master_write_intent_for_key identity key 7 (record {
        files = record (publish (begin_upload identity false queued after_put).1.files) {
          upload = none;
        };
        store_bytes = 2;
        store_max_bytes = none;
        serial = 1;
        writes = 3;
      })).1.files
    ≡ some (1 ∷ 2 ∷ [])
unfolding process_put ◌>>=◌ when enforce_store_quota len write put_store update_store_bytes
    write_backend_queue_item next_generation remove_intent str_eq begin_upload is_current publish
    holding recover_master_write_intent_for_key
get-process_put_example =
    get-process_put identity (λ x y h. h) key item 5 7 start _ _ start-IsFine stored went_on refl

deleted_returns : (durable_delete identity key key 6 start).0 ≡ ok tt
unfolding durable_delete ◌>>=◌ write write_backend_queue_item next_generation
deleted_returns = refl

get-durable_delete_example :
    master_get_optional
      (recover_master_write_intent_for_key identity key 7
        (record (durable_delete identity key key 6 start).1 { writes = 4 })).1.files
    ≡ none
unfolding durable_delete ◌>>=◌ write write_backend_queue_item next_generation
    recover_master_write_intent_for_key AreTimely IsTimely
get-durable_delete_example =
    get-durable_delete identity (λ x y h. h) key key 6 7 start _ start-IsFine deleted_returns
      (next here (disk _ 4)) (tt, tt) refl

-- The put stops at its second write.
abbrev short : Cell
short = new_cell none none 1

short-IsFine : IsFine identity short.files short.serial
unfolding is_settled fits_queue fits_tombstone is_older fits_upload
short-IsFine = record { settled = refl; older = refl; uploading = refl }

contents-process_put_example :
    IsFine identity
      (process_put identity key item 5 short).1.files
      (process_put identity key item 5 short).1.serial
    × ((contents (process_put identity key item 5 short).1.files ≡ contents short.files)
        ⊎ (contents (process_put identity key item 5 short).1.files ≡ some (1 ∷ 2 ∷ [])))
contents-process_put_example =
    contents-process_put identity (λ x y h. h) key item 5 short short-IsFine

-- A reader stores what it has got from the backend, and a put follows.
abbrev hydrated_start : Cell
hydrated_start = (hydrate_store (9 ∷ []) start).1

Life-IsFine_example :
    IsFine identity
      (record (process_put identity key item 5 hydrated_start).1 { writes = 2 }).files
      (process_put identity key item 5 hydrated_start).1.serial
unfolding AllTimely IsTimely
Life-IsFine_example =
    Life-IsFine identity (λ x y h. h) key
      (Life.went_on _ _ (disk (process_put identity key item 5 hydrated_start).1 2) (
        Life.stored hydrated_start key item 5 refl
          (Life.went_on start _ (hydrated start (9 ∷ [])) (Life.fresh (some (9 ∷ [])) none 20))))
      ((tt, λ e. refl), tt)

-- A put that is to leave a key that the backend has alone, of a key that it has not.
abbrev conditional_item : ClusterPutItem
conditional_item = record item { conditional = true }

abbrev nowhere : Cell
nowhere = new_cell none none 20

nowhere-IsFine : IsFine identity nowhere.files nowhere.serial
unfolding is_settled fits_queue fits_tombstone is_older fits_upload
nowhere-IsFine = record { settled = refl; older = refl; uploading = refl }

abbrev after_conditional : Cell
after_conditional = (process_put identity key conditional_item 5 nowhere).1

after_conditional-IsFine : IsFine identity after_conditional.files after_conditional.serial
after_conditional-IsFine =
    (contents-process_put identity (λ x y h. h) key conditional_item 5 nowhere nowhere-IsFine).0

abbrev conditional_put : BackendQueueItem
conditional_put = record queued { operation = put (1 ∷ 2 ∷ []) 2 true }

upload_backend_queue_item-IsFlushed_example :
    (x : Bytes) × (x ≡ 1 ∷ 2 ∷ [])
    × IsFlushed identity x
        (upload_backend_queue_item identity false conditional_put 8 60 after_conditional)
unfolding process_put ◌>>=◌ when enforce_store_quota len write put_store update_store_bytes
    write_backend_queue_item next_generation remove_intent operation_eq
upload_backend_queue_item-IsFlushed_example =
    upload_backend_queue_item-IsFlushed identity after_conditional conditional_put (1 ∷ 2 ∷ []) 2 8
      60 14 true after_conditional-IsFine refl refl refl refl (λ e. inl refl) refl

get-hydrate_store_late_example :
    (master_get_optional (remote_only identity key key (9 ∷ []) 3 60 0).files ≡ some (9 ∷ []))
    × (master_get_optional (flushed identity key key (9 ∷ []) 3 60 0).files ≡ none)
    × ((flushed identity key key (9 ∷ []) 3 60 0).files.published ≡ none)
    × (master_get_optional
          (hydrate_store (9 ∷ []) (flushed identity key key (9 ∷ []) 3 60 0)).1.files
        ≡ some (9 ∷ []))
    × ((hydrate_store (9 ∷ []) (flushed identity key key (9 ∷ []) 3 60 0)).1.files.queued ≡ none)
get-hydrate_store_late_example = get-hydrate_store_late identity key key (9 ∷ []) 3 60 0

abbrev master : Master
master = record {
  files = λ k. new_files none;
  serials = λ k. 0;
  store_bytes = 0;
  store_max_bytes = none;
  writes = 50;
}

abbrev request : List ClusterPutItem
request =
    item
    ∷ record { key = codes "h/j"; bytes = 7 ∷ []; conditional = true }
    ∷ record { key = key; bytes = 3 ∷ []; conditional = false }
    ∷ []

all-IsFine : (k : Str) → IsFine identity (master.files k) (master.serials k)
unfolding is_settled fits_queue fits_tombstone is_older fits_upload
all-IsFine k = record { settled = refl; older = refl; uploading = refl }

process_puts-IsPut_example :
    IsDurable identity (3 ∷ []) ((process_puts identity key 5 request master).1.files key)
unfolding process_puts load save last_put put_then with_first str_eq process_put ◌>>=◌ when
    enforce_store_quota len write put_store update_store_bytes write_backend_queue_item
    next_generation remove_intent operation_eq
process_puts-IsPut_example =
    process_puts-IsPut identity (λ x y h. h) key 5 request master _ key all-IsFine refl
