-- ===== src/Cluster/Fine.antt =====
-- What holds of the files of one key between any two writes of the cluster master, and the contents that
-- they stand for. Both are computed.
use majutsu.Base.{
  ℕ, ◌≡◌, ◌==◌, Bool, true, false, not, ◌&&◌, ◌||◌, Option, none, some, if◌then◌else◌, ltb, is_some,
}
use majutsu.Base.Text.{Str, str_eq}
use majutsu.Cluster.{
  Bytes, put, delete, BackendQueueItem, LocalGcItem, Upload, Files, operation_eq,
  key_is_logically_deleted,
}
use majutsu.Cluster.Puts.{has_digest}

-- The contents of the key: those of an intent, which is replayed, or what a reader is answered.
unfoldable pub contents : Files → Option Bytes
unfolding key_is_logically_deleted
contents f = elim f.intent [
  | some i ↦ some i.item.bytes
  | none ↦
      if key_is_logically_deleted f
      then none
      else (elim f.stored [ some x ↦ some x | none ↦ f.published ])
]

-- Whether an item that the worker has read is one with the operation that is queued under its generation.
unfoldable pub same_item : BackendQueueItem → Option BackendQueueItem → Bool
unfolding operation_eq
same_item item none = false
same_item item (some q) =
    not (q.generation == item.generation) || operation_eq q.operation item.operation

unfoldable pub is_older : ℕ → Option BackendQueueItem → Bool
is_older serial none = true
is_older serial (some q) = ltb q.generation serial

module _ (hash : Bytes → Str) where
  -- A tombstone is one of bytes that are stored, and of a key that the backend does not have.
  unfoldable pub fits_tombstone : Option LocalGcItem → Option Bytes → Option Bytes → Bool
  fits_tombstone none stored published = true
  fits_tombstone (some r) none published = not (is_some published)
  fits_tombstone (some r) (some x) published = not (is_some published) && str_eq (hash x) r.digest

  -- Where no intent is pending: the bytes of a queued put are stored, and their key has no tombstone.
  unfoldable pub fits_queue : Option BackendQueueItem → Files → Bool
  unfolding fits_tombstone has_digest
  fits_queue none f = fits_tombstone f.retained f.stored f.published
  fits_queue (some q) f = elim q.operation [
    | put digest size conditional ↦ not (is_some f.retained) && has_digest hash digest f.stored
    | delete ↦ fits_tombstone f.retained f.stored f.published
  ]

  unfoldable pub is_settled : Files → Bool
  unfolding fits_queue
  is_settled f = if is_some f.intent then true else fits_queue f.queued f

  -- The upload under way: its item is in the queue or replaced there; the bytes of a put are those of its
  -- digest; a deletion that is done has left nothing.
  unfoldable pub fits_upload : ℕ → Option Upload → Files → Bool
  unfolding same_item has_digest
  fits_upload serial none f = true
  fits_upload serial (some u) f =
      ltb u.item.generation serial
      && (same_item u.item f.queued && (elim u.item.operation [
        | put digest size conditional ↦
            has_digest hash digest u.payload && (is_some f.intent || not (is_some f.retained))
        | delete ↦ not u.done || not (is_some f.published)
      ]))

  pub record IsFine (f : Files) (serial : ℕ) : Type 0 where
    pub settled : is_settled f ≡ true
    pub older : is_older serial f.queued ≡ true
    pub uploading : fits_upload serial f.upload f ≡ true

  -- The files are fine and stand for these contents.
  abbrev pub Stands : Option Bytes → Files → ℕ → Type 0
  Stands v f serial = IsFine f serial × (contents f ≡ v)
