-- ===== src/Cluster.antt =====
-- The cluster master of src/cluster_runtime.rs: what its directories hold for one key, the backend's copy
-- and the upload of the worker that is under way. Each file is named by the hash of its key, so the files
-- of one key are a record. An operation is a function from the state to a result and a state: what was
-- written before a failure stays written. `writes` is the number of writes that still succeed; the one
-- after them fails, or the process ends there, so that a theorem for every number of writes is one for
-- every point where the operation may stop. The durable lock makes the operations follow one another.
-- Left out: the notices, the metrics and the status file, the list cache, and files that do not decode.
pub mod Puts
pub mod Backend
pub mod Rules
pub mod Fine
pub mod Moves
pub mod Replay
pub mod Acknowledged
pub mod Repeated
pub mod Outcome
pub mod Worker
pub mod Uploading
pub mod Finishing
pub mod Life
pub mod Present
pub mod Promises
pub mod Flush
pub mod Histories
pub mod Late
pub mod Batch
pub mod Dependencies
mod Tests
use majutsu.Base.{
  ℕ, zero, suc, ◌+◌, ◌-◌, ◌==◌, Bool, true, false, not, ◌&&◌, Option, none, some, List,
  if◌then◌else◌, is_some, length,
}
use majutsu.Base.Text.{Str, str_eq}

abbrev pub Bytes : Type 0
Bytes = List ℕ

pub record ClusterPutItem : Type 0 where
  pub key : Str
  pub bytes : Bytes
  pub conditional : Bool

pub record MasterWriteIntent : Type 0 where
  pub version : ℕ
  pub source_host : Str
  pub item : ClusterPutItem

pub data BackendQueueOperation : Type 0 where
  put : (digest : Str) (size : ℕ) (conditional : Bool) → BackendQueueOperation
  delete : BackendQueueOperation

-- A generation is a number that no earlier item had, for a fresh UUID.
pub record BackendQueueItem : Type 0 where
  pub generation : ℕ
  pub key : Str
  pub source_host : Str
  pub operation : BackendQueueOperation
  pub created_at : ℕ
  pub updated_at : ℕ
  pub attempts : ℕ
  pub retry_after : Option ℕ

pub record LocalGcItem : Type 0 where
  pub generation : ℕ
  pub key : Str
  pub source_host : Str
  pub digest : Str
  pub size : ℕ
  pub deleted_from_backend_at : ℕ
  pub delete_after : ℕ

-- The worker's upload between its first reading of the queue item and the end of it: the bytes it has
-- read, and whether the backend has done the operation.
pub record Upload : Type 0 where
  pub item : BackendQueueItem
  pub payload : Option Bytes
  pub done : Bool

pub record Files : Type 0 where
  pub stored : Option Bytes
  pub queued : Option BackendQueueItem
  pub intent : Option MasterWriteIntent
  pub receipt : Option Str
  pub retained : Option LocalGcItem
  pub published : Option Bytes
  pub upload : Option Upload

pub record Cell : Type 0 where
  pub files : Files
  pub store_bytes : ℕ
  pub store_max_bytes : Option ℕ
  pub serial : ℕ
  pub writes : ℕ

pub data Error : Type 0 where
  write_failed quota_exceeded digest_collision invalid_intent intent_conflict : Error
  object_missing digest_changed payload_invariant : Error

pub data Result (A : Type 0) : Type 0 where
  ok : A → Result A
  err : Error → Result A

abbrev pub Action : Type 0 → Type 0
Action A = Cell → Result A × Cell

module _ {A : Type 0} where
  abbrev pub pure : A → Action A
  pure a c = (ok a, c)

  abbrev pub fail : Error → Action A
  fail e c = (err e, c)

-- The files as they are, for what an operation reads.
abbrev pub reading : {A : Type 0} → (Files → Action A) → Action A
reading f c = f c.files c

module _ {A B : Type 0} where
  abbrev pub continue : Result A → (A → Action B) → Action B
  continue (ok a) k c = k a c
  continue (err e) k c = (err e, c)

  infixl 5 ◌>>=◌
  unfoldable pub ◌>>=◌ : Action A → (A → Action B) → Action B
  ◌>>=◌ m k c = let (r, c') = m c in continue r k c'

infixl 5 ◌>>◌
abbrev pub ◌>>◌ : {B : Type 0} → Action (Unit {0}) → Action B → Action B
m >> k = m >>= λ _. k

unfoldable pub when : Bool → Action (Unit {0}) → Action (Unit {0})
when b m = if b then m else pure tt

-- A durable write, or the removal of a file: it changes the files, or fails and changes nothing.
unfoldable pub spend : ℕ → (Files → Files) → Action (Unit {0})
spend zero f c = (err write_failed, c)
spend (suc n) f c = (ok tt, record c { files = f c.files; writes = n })

unfoldable pub write : (Files → Files) → Action (Unit {0})
unfolding spend
write f c = spend c.writes f c

unfoldable pub next_generation : Action ℕ
next_generation c = (ok c.serial, record c { serial = c.serial + 1 })

unfoldable pub bool_eq : Bool → Bool → Bool
bool_eq true b = b
bool_eq false b = not b

unfoldable pub operation_eq : BackendQueueOperation → BackendQueueOperation → Bool
unfolding bool_eq
operation_eq (put d s c) (put d' s' c') = str_eq d d' && (s == s' && bool_eq c c')
operation_eq (put d s c) delete = false
operation_eq delete (put d s c) = false
operation_eq delete delete = true

-- Whether the queue holds a deletion of the key, or a put of it.
unfoldable pub is_deletion : Option BackendQueueItem → Bool
is_deletion none = false
is_deletion (some q) = elim q.operation [ put d s c ↦ false | delete ↦ true ]

unfoldable pub key_is_logically_deleted : Files → Bool
unfolding is_deletion
key_is_logically_deleted f = if is_deletion f.queued then true else is_some f.retained

unfoldable pub len : Option Bytes → ℕ
len none = 0
len (some x) = length x
