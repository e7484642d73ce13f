-- ===== src/Cluster/Moves.antt =====
-- Each write of an operation of the cluster master keeps the files fine.
use majutsu.Base.{ℕ, ◌+◌, ◌≡◌, refl, ap, Bool, true, Option, none, some, is_some, arith}
use majutsu.Base.Text.{Str, str_eq_iff}
use majutsu.Cluster.{
  Bytes, MasterWriteIntent, BackendQueueOperation, put, delete, BackendQueueItem, Files,
  operation_eq, bool_eq, key_is_logically_deleted, is_deletion,
}
use majutsu.Cluster.Puts.{has_digest, holds_operation}
use majutsu.Cluster.Fine.{
  contents, same_item, is_older, fits_tombstone, fits_queue, is_settled, fits_upload, Stands,
}

module _ (hash : Bytes → Str) (f : Files) (n : ℕ) {v : Option Bytes}
    (fine : Stands hash v f n) where
  pub write_intent-Stands :
      (i : MasterWriteIntent) → Stands hash (some i.item.bytes) (record f { intent = some i }) n
  unfolding contents is_settled fits_upload
  write_intent-Stands i = (
    record {
      settled = ground arith;
      older = fine.0.older;
      uploading = ground (arith, fine.0.uploading);
    },
    ground arith,
  )

module _ (hash : Bytes → Str) (f : Files) (n : ℕ) {v : Option Bytes} (fine : Stands hash v f n)
    (pending : is_some f.intent ≡ true) where
  pub put_store-Stands : (x : Bytes) → Stands hash v (record f { stored = some x }) n
  unfolding contents is_settled fits_upload
  put_store-Stands x = (
    record {
      settled = ground arith;
      older = fine.0.older;
      uploading = ground (arith, fine.0.uploading);
    },
    ground (arith, fine.1),
  )

  pub cancel_local_gc-Stands : Stands hash v (record f { retained = none }) n
  unfolding contents is_settled fits_upload
  cancel_local_gc-Stands = (
    record {
      settled = ground arith;
      older = fine.0.older;
      uploading = ground (arith, fine.0.uploading);
    },
    ground (arith, fine.1),
  )

  pub enqueue_pending-Stands :
      (q : BackendQueueItem)
      → q.generation ≡ n
      → Stands hash v (record f { queued = some q }) (n + 1)
  unfolding contents is_settled fits_upload same_item is_older
  enqueue_pending-Stands q e = (
    record {
      settled = ground arith;
      older = ground arith;
      uploading = ground (arith, fine.0.uploading);
    },
    ground (arith, fine.1),
  )

bool_eq_sound : (a b : Bool) → bool_eq a b ≡ true → a ≡ b
unfolding bool_eq
bool_eq_sound a b h = ground arith

operation_eq_sound : (o p : BackendQueueOperation) → operation_eq o p ≡ true → o ≡ p
unfolding operation_eq
operation_eq_sound (put d s c) (put d' s' c') h =
    ground (arith, str_eq_iff d d', bool_eq_sound c c')
operation_eq_sound (put d s c) delete h = cc
operation_eq_sound delete (put d s c) h = cc
operation_eq_sound delete delete h = refl

pub holds_operation_sound :
    (o : BackendQueueOperation) (queued : Option BackendQueueItem)
    → holds_operation o queued ≡ true
    → (q : BackendQueueItem) × (queued ≡ some q) × (q.operation ≡ o)
unfolding holds_operation
holds_operation_sound o none h = cc
holds_operation_sound o (some q) h = (q, refl, operation_eq_sound q.operation o h)

module _ (hash : Bytes → Str) (injective : (x y : Bytes) → hash x ≡ hash y → x ≡ y) where
  pub has_digest_sound :
      (b : Bytes) (s : Option Bytes) → has_digest hash (hash b) s ≡ true → s ≡ some b
  unfolding has_digest
  has_digest_sound b none h = cc
  has_digest_sound b (some x) h = ap some (injective x b ((str_eq_iff (hash x) (hash b)).0 h))

  -- The intent goes once its bytes are stored and queued.
  pub remove_intent-Stands :
      (f : Files) (n : ℕ) (v : Option Bytes) (b : Bytes) (q : BackendQueueItem) (size : ℕ)
      (conditional : Bool)
      → Stands hash v f n
      → v ≡ some b
      → f.retained ≡ none
      → has_digest hash (hash b) f.stored ≡ true
      → f.queued ≡ some q
      → q.operation ≡ put (hash b) size conditional
      → Stands hash v (record f { intent = none }) n
  unfolding contents is_settled fits_queue fits_upload key_is_logically_deleted is_deletion
  remove_intent-Stands f n v b q size conditional fine e r h hq ho = (
    record {
      settled = ground arith;
      older = fine.0.older;
      uploading = ground (arith, fine.0.uploading);
    },
    ground (arith, has_digest_sound b f.stored h),
  )

module _ (hash : Bytes → Str) (f : Files) (n : ℕ) {v : Option Bytes} (fine : Stands hash v f n)
    (idle : f.intent ≡ none) where
  pub enqueue_delete-Stands :
      (q : BackendQueueItem)
      → q.generation ≡ n
      → q.operation ≡ delete
      → Stands hash none (record f { queued = some q }) (n + 1)
  unfolding contents is_settled fits_queue fits_tombstone fits_upload same_item is_older
      key_is_logically_deleted is_deletion
  enqueue_delete-Stands q e o = (
    record {
      settled = ground (arith, fine.0.settled);
      older = ground arith;
      uploading = ground (arith, fine.0.uploading);
    },
    ground arith,
  )

-- A generation that is handed out, and not used, does no harm.
pub next_generation-Stands :
    (hash : Bytes → Str) (f : Files) (n : ℕ) {v : Option Bytes}
    → Stands hash v f n
    → Stands hash v f (n + 1)
unfolding is_older fits_upload
next_generation-Stands hash f n fine = (
  record {
    settled = fine.0.settled;
    older = ground (arith, fine.0.older);
    uploading = ground (arith, fine.0.uploading);
  },
  fine.1,
)

pub contents_pending :
    (f : Files) (i : MasterWriteIntent) {v : Option Bytes}
    → f.intent ≡ some i
    → contents f ≡ v
    → v ≡ some i.item.bytes
unfolding contents
contents_pending f i e h = ground (arith, e, h)
