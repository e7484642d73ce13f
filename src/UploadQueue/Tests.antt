-- ===== src/UploadQueue/Tests.antt =====
-- A chunk, the metadata and a ref in a queue, with a store that the ref does not reach, and one without fault.
use majutsu.Base.{◌+◌, ◌≤◌, ◌≡◌, refl, Bool, true, false, not, none, some, [], ◌∷◌, arith, All}
use majutsu.Base.Text.{Str, codes, str_eq, starts_with, ends_with, has_infix}
use majutsu.Base.Maps.{contains_key, bind}
use majutsu.RemoteKeys.{prefer_canonical_remote_only}
use majutsu.UploadQueue.{
  next_retry_after, UploadQueueItem, Uploads, Remote, is_ref_key, is_head_key, is_metadata_key,
  upload_publish_priority, record_attempt, remove_file, write_item, put,
  queued_upload_can_be_skipped, payload, has_payload, failed, upload_queue_item, upload_batch,
  upload_batches, chunks, priority_group, batches_of, drain_upload_queue,
}
use majutsu.UploadQueue.Backoff.{next_retry_after-bounds}
use majutsu.UploadQueue.Batches.{is_queued}
use majutsu.UploadQueue.Order.{IsDistinct, drain_upload_queue_in_order}
use majutsu.UploadQueue.Complete.{is_stored, drain_upload_queue_stores}

abbrev item : Str → Str → UploadQueueItem
item id key = record {
  id = id;
  key = key;
  source = none;
  inline = some (1 ∷ []);
  attempts = 0;
  retry_after = none;
  overwrite = false;
}

abbrev chunk_key : Str
chunk_key = codes "o/a"

abbrev metadata_key : Str
metadata_key = codes "journal/e"

abbrev ref_key : Str
ref_key = codes "refs/c"

abbrev uploads : Uploads
uploads = record {
  queue =
      item (codes "u1") metadata_key
      ∷ (item (codes "u2") chunk_key ∷ (item (codes "u3") ref_key ∷ []));
  objects = [];
}

abbrev remote_store : (Str → Bool) → Remote
remote_store reaches = record {
  reaches = reaches;
  conditional_put = true;
  read_source = λ s. none;
  now = 100;
  random = 7;
}

abbrev partial : Remote
partial = remote_store (λ key. not (str_eq key ref_key))

abbrev whole : Remote
whole = remote_store (λ key. true)

priorities :
    (upload_publish_priority metadata_key ≡ 2)
    × (upload_publish_priority chunk_key ≡ 1)
    × (upload_publish_priority ref_key ≡ 3)
unfolding upload_publish_priority is_ref_key is_head_key is_metadata_key starts_with ends_with
    has_infix str_eq
priorities = (refl, refl, refl)

in_groups :
    (is_queued (codes "u2") (priority_group 1 uploads.queue) ≡ true)
    × (is_queued (codes "u1") (priority_group 2 uploads.queue) ≡ true)
unfolding priority_group is_queued upload_publish_priority is_ref_key is_head_key is_metadata_key
    starts_with ends_with has_infix str_eq
in_groups = (refl, refl)

named : IsDistinct uploads.queue
unfolding is_queued str_eq
named = (refl, (refl, (refl, tt)))

metadata_gone : is_queued (codes "u1") (drain_upload_queue partial 2 uploads).1.queue ≡ false
unfolding drain_upload_queue batches_of chunks priority_group upload_batches upload_batch
    upload_queue_item payload has_payload queued_upload_can_be_skipped failed record_attempt put
    remove_file write_item contains_key bind is_queued upload_publish_priority is_ref_key
    is_head_key is_metadata_key starts_with ends_with has_infix str_eq prefer_canonical_remote_only
metadata_gone = refl

all_done : (drain_upload_queue whole 2 uploads).0 ≡ true
unfolding drain_upload_queue batches_of chunks priority_group upload_batches upload_batch
    upload_queue_item payload has_payload queued_upload_can_be_skipped failed record_attempt put
    remove_file write_item contains_key bind is_queued upload_publish_priority is_ref_key
    is_head_key is_metadata_key starts_with ends_with has_infix str_eq prefer_canonical_remote_only
all_done = refl

drain_upload_queue_in_order_example :
    is_queued (codes "u2") (drain_upload_queue partial 2 uploads).1.queue ≡ false
drain_upload_queue_in_order_example =
    drain_upload_queue_in_order partial 2 uploads (codes "u2") (codes "u1") 1 2 (omega arith) named
      (omega arith) in_groups.0 in_groups.1 metadata_gone

drain_upload_queue_stores_example :
    All
      (λ it. is_stored whole it (drain_upload_queue whole 2 uploads).1.objects ≡ true)
      uploads.queue
drain_upload_queue_stores_example = drain_upload_queue_stores whole 2 uploads (omega arith) all_done

next_retry_after-bounds_example :
    (100 + 4 ≤ next_retry_after 100 7 3) × (next_retry_after 100 7 3 ≤ 100 + 360)
next_retry_after-bounds_example = next_retry_after-bounds 100 7 3
