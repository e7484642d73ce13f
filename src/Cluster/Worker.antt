-- ===== src/Cluster/Worker.antt =====
-- Each write of the worker, of a reader and of the collector keeps the files fine, and what they stand for.
use majutsu.Base.{
  ℕ, ◌≡◌, ◌⊎◌, refl, Bool, true, false, not, ◌||◌, Option, none, some, if◌then◌else◌, is_some,
  arith,
}
use majutsu.Base.Text.{Str, str_eq_refl}
use majutsu.Cluster.{
  Bytes, BackendQueueOperation, put, delete, BackendQueueItem, LocalGcItem, Files, operation_eq,
  key_is_logically_deleted, is_deletion,
}
use majutsu.Cluster.Puts.{has_digest}
use majutsu.Cluster.Backend.{is_current, operated, publish}
use majutsu.Cluster.Fine.{
  contents, same_item, is_older, fits_tombstone, fits_queue, is_settled, fits_upload, Stands,
}

-- The worker's item is one that it has read: under its generation the queue has the same operation.
unfoldable pub is_snapshot : BackendQueueItem → Option BackendQueueItem → Bool
unfolding is_current same_item
is_snapshot item queued = if is_current item.generation queued then same_item item queued else true

-- A put has the bytes of its digest to send.
unfoldable pub is_payload : (Bytes → Str) → BackendQueueOperation → Option Bytes → Bool
unfolding has_digest
is_payload hash (put digest size conditional) payload = has_digest hash digest payload
is_payload hash delete payload = true

module _ (hash : Bytes → Str) (f : Files) (n : ℕ) {v : Option Bytes}
    (fine : Stands hash v f n) where
  -- Nothing is under way.
  pub no_upload-Stands : Stands hash v (record f { upload = none }) n
  unfolding contents is_settled fits_queue fits_tombstone fits_upload key_is_logically_deleted
      is_deletion
  no_upload-Stands = (
    record { settled = ground (arith, fine.0.settled); older = fine.0.older; uploading = refl },
    fine.1,
  )

  pub receipt-Stands : (r : Option Str) → Stands hash v (record f { receipt = r }) n
  unfolding contents is_settled fits_queue fits_tombstone fits_upload key_is_logically_deleted
      is_deletion
  receipt-Stands r = (
    record {
      settled = ground (arith, fine.0.settled);
      older = fine.0.older;
      uploading = ground (arith, fine.0.uploading);
    },
    fine.1,
  )

  pub begin_upload-Stands :
      (item : BackendQueueItem) (payload : Option Bytes)
      → is_current item.generation f.queued ≡ true
      → same_item item f.queued ≡ true
      → is_payload hash item.operation payload ≡ true
      → Stands hash v
          (record f { upload = some (record { item = item; payload = payload; done = false }) })
          n
  unfolding contents is_settled fits_queue fits_upload is_older is_current same_item operation_eq
      is_payload
  begin_upload-Stands item payload cur same sent = (
    record {
      settled = ground (arith, fine.0.settled);
      older = fine.0.older;
      uploading = ground (arith, fine.0.settled, fine.0.older);
    },
    fine.1,
  )

  pub publish-Stands : Stands hash v (publish f) n
  unfolding contents is_settled fits_queue fits_tombstone fits_upload same_item operation_eq publish
      operated key_is_logically_deleted is_deletion has_digest
  publish-Stands = (
    record {
      settled = ground (arith, fine.0.settled, fine.0.uploading);
      older = ground (arith, fine.0.older);
      uploading = ground (arith, fine.0.uploading);
    },
    ground (arith, fine.1, fine.0.settled, fine.0.uploading),
  )

  pub hydrate-Stands :
      (x : Bytes)
      → f.stored ≡ none
      → f.published ≡ some x
      → Stands hash v (record f { stored = some x }) n
  unfolding contents is_settled fits_queue fits_tombstone fits_upload key_is_logically_deleted
      is_deletion has_digest
  hydrate-Stands x e p = (
    record {
      settled = ground (arith, fine.0.settled);
      older = fine.0.older;
      uploading = ground (arith, fine.0.uploading);
    },
    ground (arith, fine.1),
  )

module _ (hash : Bytes → Str) (f : Files) (n : ℕ) {v : Option Bytes}
    (fine : Stands hash v f n) where
  -- The end of a put.
  pub finish_put-Stands :
      is_deletion f.queued ≡ false → f.upload ≡ none → Stands hash v (record f { queued = none }) n
  unfolding contents is_settled fits_queue fits_tombstone fits_upload key_is_logically_deleted
      is_deletion has_digest same_item is_older is_current operation_eq
  finish_put-Stands d u = (
    record {
      settled = ground (arith, fine.0.settled, fine.0.uploading);
      older = ground (arith, fine.0.older);
      uploading = ground (arith, fine.0.uploading);
    },
    ground (arith, fine.1, fine.0.settled),
  )

  -- A deleted key without bytes loses its tombstone, and one with bytes gets one.
  pub untomb-Stands :
      is_deletion f.queued ≡ true → f.upload ≡ none → Stands hash v (record f { retained = none }) n
  unfolding contents is_settled fits_queue fits_tombstone fits_upload key_is_logically_deleted
      is_deletion has_digest same_item is_older is_current operation_eq
  untomb-Stands d u = (
    record {
      settled = ground (arith, fine.0.settled, fine.0.uploading);
      older = ground (arith, fine.0.older);
      uploading = ground (arith, fine.0.uploading);
    },
    ground (arith, fine.1, fine.0.settled),
  )

  pub tomb-Stands :
      (r : LocalGcItem) (x : Bytes)
      → is_deletion f.queued ≡ true
      → f.upload ≡ none
      → f.published ≡ none
      → f.stored ≡ some x
      → r.digest ≡ hash x
      → Stands hash v (record f { retained = some r }) n
  unfolding contents is_settled fits_queue fits_tombstone fits_upload key_is_logically_deleted
      is_deletion has_digest same_item is_older is_current operation_eq
  tomb-Stands r x d u p e k = (
    record {
      settled = ground (arith, fine.0.settled, str_eq_refl (hash x));
      older = ground (arith, fine.0.older);
      uploading = ground (arith, fine.0.uploading);
    },
    ground (arith, fine.1, fine.0.settled),
  )

  -- The end of a deletion.
  pub finish_delete-Stands :
      is_deletion f.queued ≡ true
      → f.upload ≡ none
      → f.published ≡ none
      → (is_some f.retained || not (is_some f.stored)) ≡ true
      → Stands hash v (record f { queued = none }) n
  unfolding contents is_settled fits_queue fits_tombstone fits_upload key_is_logically_deleted
      is_deletion has_digest same_item is_older is_current operation_eq
  finish_delete-Stands d u p t = (
    record {
      settled = ground (arith, fine.0.settled, fine.0.uploading);
      older = ground (arith, fine.0.older);
      uploading = ground (arith, fine.0.uploading);
    },
    ground (arith, fine.1, fine.0.settled),
  )

  pub retry-Stands :
      (q q' : BackendQueueItem)
      → f.queued ≡ some q
      → q'.generation ≡ q.generation
      → q'.operation ≡ q.operation
      → Stands hash v (record f { queued = some q' }) n
  unfolding contents is_settled fits_queue fits_tombstone fits_upload key_is_logically_deleted
      is_deletion has_digest same_item is_older is_current operation_eq
  retry-Stands q q' e g o = (
    record {
      settled = ground (arith, fine.0.settled, fine.0.uploading);
      older = ground (arith, fine.0.older);
      uploading = ground (arith, fine.0.uploading);
    },
    ground (arith, fine.1, fine.0.settled),
  )

module _ (hash : Bytes → Str) (f : Files) (n : ℕ) {v : Option Bytes} (fine : Stands hash v f n)
    (r : LocalGcItem) (tomb : f.retained ≡ some r) (idle : f.queued ≡ none) where
  pub collect_bytes-Stands : Stands hash v (record f { stored = none }) n
  unfolding contents is_settled fits_queue fits_tombstone fits_upload key_is_logically_deleted
      is_deletion has_digest same_item is_older is_current operation_eq
  collect_bytes-Stands = (
    record {
      settled = ground (arith, fine.0.settled, fine.0.uploading);
      older = ground (arith, fine.0.older);
      uploading = ground (arith, fine.0.uploading);
    },
    ground (arith, fine.1, fine.0.settled),
  )

  pub collect_tomb-Stands :
      (f.stored ≡ none) ⊎ (has_digest hash r.digest f.stored ≡ false)
      → Stands hash v (record f { retained = none }) n
  unfolding contents is_settled fits_queue fits_tombstone fits_upload key_is_logically_deleted
      is_deletion has_digest same_item is_older is_current operation_eq
  collect_tomb-Stands h = (
    record {
      settled = ground (arith, fine.0.settled, fine.0.uploading);
      older = ground (arith, fine.0.older);
      uploading = ground (arith, fine.0.uploading);
    },
    ground (arith, fine.1, fine.0.settled),
  )
