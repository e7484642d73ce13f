-- ===== src/UploadQueue.antt =====
-- The queue of uploads: `drain_upload_queue` and `upload_queue_item` of src/queue_runtime.rs over
-- `UploadQueueItem` of crates/majutsu-db/src/lib.rs. The queue is the list of its files in the order of
-- their keys, a file named by the item's id; the remote store is the list of its objects. Which requests
-- reach the store, the sources that can be read, the clock and the random number of a drain are a
-- `Remote`. The uploads of a batch, which run at the same time, are taken one after the other. Left out:
-- the files of inline payloads, the counts, the progress lines, and the way over a cluster master.
pub mod Batches
pub mod Order
pub mod Complete
pub mod Backoff
mod Tests
use majutsu.Base.{
  ℕ, zero, suc, ◌+◌, ◌≡◌, ◌==◌, Bool, true, false, not, ◌&&◌, ◌||◌, Option, none, some, List, [],
  ◌∷◌, ◌++◌, if◌then◌else◌, any, filter, take, drop, length, min, max, ◌*◌, ◌/◌, ◌^◌, ◌%◌, ◌-◌,
  is_some,
}
use majutsu.Base.Text.{Str, codes, str_eq, starts_with, ends_with, has_infix}
use majutsu.Base.Maps.{contains_key, bind}
use majutsu.RemoteKeys.{
  prefer_canonical_remote_only, canonical_remote_aliases, is_content_addressed_remote_key,
}

-- `created_at`, which nothing here reads, is left out.
pub record UploadQueueItem : Type 0 where
  pub id : Str
  pub key : Str
  pub source : Option Str
  pub inline : Option (List ℕ)
  pub attempts : ℕ
  pub retry_after : Option ℕ
  pub overwrite : Bool

pub record Uploads : Type 0 where
  pub queue : List UploadQueueItem
  pub objects : List (Str × List ℕ)

pub record Remote : Type 0 where
  pub reaches : Str → Bool
  pub conditional_put : Bool
  pub read_source : Str → Option (List ℕ)
  pub now : ℕ
  pub random : ℕ

-- The tests of `upload_publish_priority`.
pub is_ref_key : Str → Bool
unfolding starts_with has_infix
is_ref_key key = starts_with (codes "refs/") key || has_infix (codes "/refs/") key

pub is_head_key : Str → Bool
unfolding ends_with has_infix
is_head_key key =
    ends_with (codes "/current") key
    || has_infix (codes "/refs/current") key
    || ends_with (codes "/head.cbor.zst.enc") key

pub is_metadata_key : Str → Bool
unfolding starts_with ends_with has_infix str_eq
is_metadata_key key =
    has_infix (codes "/journal/") key
    || starts_with (codes "journal/") key
    || starts_with (codes "metadata/") key
    || ends_with (codes "/metadata/export.json.zst") key
    || ends_with (codes "/metadata/export.json") key
    || str_eq key (codes "metadata/export.json")

pub upload_publish_priority : Str → ℕ
upload_publish_priority key =
    if is_ref_key key
    then 3
    else if is_head_key key
    then 3
    else if is_metadata_key key
    then 2
    else 1

-- `attempts.saturating_sub(1).min(6)` doublings of five seconds, five minutes at most.
pub retry_backoff_secs : ℕ → ℕ
retry_backoff_secs attempts = min (5 * 2 ^ min (attempts - 1) 6) 300

-- The jitter, a random number moved down by its bound, stays below the base, so nothing here is negative.
pub next_retry_after : ℕ → ℕ → ℕ → ℕ
unfolding retry_backoff_secs
next_retry_after now random attempts =
    let base = retry_backoff_secs attempts in
    let jitter_bound = max (base / 5) 1 in
    now + max (base + random % (jitter_bound * 2 + 1) - jitter_bound) 1

-- The delay saturates at the largest `u32`, the count wraps.
pub record_attempt : Remote → UploadQueueItem → UploadQueueItem
record_attempt remote item =
    let next_attempt = min (item.attempts + 1) (2 ^ 32 - 1) in
    record item {
      attempts = (item.attempts + 1) % 2 ^ 32;
      retry_after = some (next_retry_after remote.now remote.random next_attempt);
    }

pub remove_file : Str → List UploadQueueItem → List UploadQueueItem
remove_file id [] = []
remove_file id (item ∷ queue) =
    if str_eq item.id id then remove_file id queue else item ∷ remove_file id queue

-- `write_atomic` over the file of an item.
pub write_item : UploadQueueItem → List UploadQueueItem → List UploadQueueItem
write_item item [] = []
write_item item (other ∷ queue) =
    if str_eq other.id item.id then item ∷ write_item item queue else other ∷ write_item item queue

-- `put` and `put_if_absent`.
pub put : Bool → Str → List ℕ → List (Str × List ℕ) → List (Str × List ℕ)
put if_absent key bytes objects =
    if if_absent && contains_key key objects then objects else bind key bytes objects

module _ (remote : Remote) where
  pub queued_upload_can_be_skipped : UploadQueueItem → List (Str × List ℕ) → Bool
  queued_upload_can_be_skipped item objects =
      prefer_canonical_remote_only item.key
      && any (λ alias_. remote.reaches alias_ && contains_key alias_ objects)
          (canonical_remote_aliases item.key)

  pub payload : UploadQueueItem → Option (List ℕ)
  payload item = elim item.inline [
    | some bytes ↦ some bytes
    | none ↦ elim item.source [ none ↦ none | some source ↦ remote.read_source source ]
  ]

  pub has_payload : UploadQueueItem → Bool
  has_payload item = is_some item.inline || is_some item.source

  pub failed : UploadQueueItem → Uploads → Uploads
  failed item s = record s { queue = write_item (record_attempt remote item) s.queue }

  -- An item without a payload is an error of its own, and no attempt.
  pub upload_queue_item : UploadQueueItem → Uploads → Bool × Uploads
  unfolding queued_upload_can_be_skipped payload has_payload failed
  upload_queue_item item s =
      if not item.overwrite && queued_upload_can_be_skipped item s.objects
      then (true, record s { queue = remove_file item.id s.queue })
      else if not (has_payload item)
      then (false, s)
      else elim (payload item) [
        | none ↦ (false, failed item s)
        | some bytes ↦
            if remote.reaches item.key
            then (
              true,
              record {
                queue = remove_file item.id s.queue;
                objects =
                    put
                      (not item.overwrite
                        && is_content_addressed_remote_key item.key
                        && remote.conditional_put)
                      item.key bytes s.objects;
              },
            )
            else (false, failed item s)
      ]

  -- All uploads of a batch are tried; it is an error when one of them is.
  pub upload_batch : List UploadQueueItem → Uploads → Bool × Uploads
  upload_batch [] s = (true, s)
  upload_batch (item ∷ items) s =
      let (done, s') = upload_queue_item item s in
      let (rest, s'') = upload_batch items s' in (done && rest, s'')

  pub upload_batches : List (List UploadQueueItem) → Uploads → Bool × Uploads
  upload_batches [] s = (true, s)
  upload_batches (batch ∷ batches) s =
      let (done, s') = upload_batch batch s in
      let rest = upload_batches batches s' in if done then rest else (false, s')

-- `chunks`; a round takes one item at least.
pub chunks : ℕ → ℕ → List UploadQueueItem → List (List UploadQueueItem)
chunks zero n items = []
chunks (suc fuel) n [] = []
chunks (suc fuel) n (item ∷ items) = take n (item ∷ items) ∷ chunks fuel n (drop n (item ∷ items))

-- The items of one priority, in the order of the queue.
pub priority_group : ℕ → List UploadQueueItem → List UploadQueueItem
priority_group priority queue = filter (λ item. upload_publish_priority item.key == priority) queue

pub batches_of : ℕ → ℕ → List UploadQueueItem → List (List UploadQueueItem)
batches_of parallelism priority queue =
    let group = priority_group priority queue in chunks (length group) parallelism group

pub drain_upload_queue : Remote → ℕ → Uploads → Bool × Uploads
drain_upload_queue remote parallelism s =
    upload_batches remote
      (batches_of parallelism 1 s.queue
        ++ (batches_of parallelism 2 s.queue ++ batches_of parallelism 3 s.queue))
      s
