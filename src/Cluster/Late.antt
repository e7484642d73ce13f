-- ===== src/Cluster/Late.antt =====
-- A reader of the cluster master whose bytes come from the backend and reach the store late.
use majutsu.Base.{ℕ, suc, ◌≡◌, refl, false, none, some, arith, length}
use majutsu.Base.Text.{Str}
use majutsu.Cluster.{
  Bytes, BackendQueueItem, delete, Files, Cell, ok, ◌>>=◌, write, spend, next_generation,
  key_is_logically_deleted, is_deletion,
}
use majutsu.Cluster.Puts.{
  durable_delete, write_backend_queue_item, new_item, recover_master_write_intent_for_key,
  enforce_store_quota, over_quota, put_store, update_store_bytes,
}
use majutsu.Cluster.Backend.{
  upload_backend_queue_item, begin_upload, is_current, read_payload, holding, publish_upload,
  publish, operated, complete_uploaded_backend_queue_item, retain_deleted,
  record_backend_put_receipt, remove_queue_file, master_get_optional, hydrate_store,
}

-- A store without a limit takes anything.
unlimited :
    (m : ℕ) (f : Files) (bytes serial writes : ℕ)
    → (enforce_store_quota 0 m (record {
      files = f;
      store_bytes = bytes;
      store_max_bytes = none;
      serial = serial;
      writes = writes;
    })).0
      ≡ ok tt
unfolding enforce_store_quota over_quota
unlimited m f bytes serial writes = ground arith

module _ (hash : Bytes → Str) (key host : Str) (x : Bytes) (now grace n : ℕ) where
  -- The key is at the backend only, and the disk takes the writes of what follows.
  abbrev pub remote_only : Cell
  remote_only = record {
    files = record {
      stored = none;
      queued = none;
      intent = none;
      receipt = none;
      retained = none;
      published = some x;
      upload = none;
    };
    store_bytes = 0;
    store_max_bytes = none;
    serial = 0;
    writes = suc (suc (suc (suc (suc n))));
  }

  -- The deletion of the key, and its upload.
  pub deletion : BackendQueueItem
  deletion = new_item key host delete now 0 none

  pub flushed : Cell
  flushed =
      (upload_backend_queue_item hash false deletion now grace
        (durable_delete hash host key now remote_only).1).1

  -- A reader undoes a deletion: for every key that is at the backend only, a reader that has read its bytes
  -- there before the key is deleted, and that stores them after the deletion has been uploaded, makes the
  -- master answer with the bytes again, although a reader before it found nothing and the backend has the key
  -- no more; and the queue holds nothing for the key.
  pub get-hydrate_store_late :
      (master_get_optional remote_only.files ≡ some x)
      × (master_get_optional flushed.files ≡ none)
      × (flushed.files.published ≡ none)
      × (master_get_optional (hydrate_store x flushed).1.files ≡ some x)
      × ((hydrate_store x flushed).1.files.queued ≡ none)
  unfolding flushed deletion new_item master_get_optional durable_delete
      recover_master_write_intent_for_key write_backend_queue_item upload_backend_queue_item
      begin_upload is_current read_payload holding publish_upload publish operated
      complete_uploaded_backend_queue_item retain_deleted record_backend_put_receipt
      remove_queue_file hydrate_store put_store update_store_bytes ◌>>=◌ write spend next_generation
      key_is_logically_deleted is_deletion
  get-hydrate_store_late = (refl, refl, refl, rw (unlimited (length x)), rw (unlimited (length x)))
