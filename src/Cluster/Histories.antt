-- ===== src/Cluster/Histories.antt =====
-- Every history of a key of the cluster master, from empty directories.
use majutsu.Base.{ℕ, ◌≡◌, refl, Option, none}
use majutsu.Base.Text.{Str}
use majutsu.Cluster.{Bytes, ClusterPutItem, Cell}
use majutsu.Cluster.Puts.{process_put, durable_delete}
use majutsu.Cluster.Fine.{
  contents, is_settled, fits_queue, fits_tombstone, is_older, fits_upload, IsFine,
}
use majutsu.Cluster.Rules.{weaken_rule}
use majutsu.Cluster.Replay.{At}
use majutsu.Cluster.Life.{Quiet, IsTimely, state_of, Quiet-At, durable_delete-Ends}
use majutsu.Cluster.Promises.{new_files, contents-process_put}

-- A state with what the backend holds already.
abbrev pub new_cell : Option Bytes → Option ℕ → ℕ → Cell
new_cell remote limit writes = record {
  files = new_files remote;
  store_bytes = 0;
  store_max_bytes = limit;
  serial = 0;
  writes = writes;
}

module _ (hash : Bytes → Str) (key : Str) where
  pub data Life : Cell → Type 0 where
    fresh :
        (remote : Option Bytes) (limit : Option ℕ) (writes : ℕ)
        → Life (new_cell remote limit writes)
    stored :
        (c : Cell) (host : Str) (item : ClusterPutItem) (now : ℕ)
        → item.key ≡ key
        → Life c
        → Life (process_put hash host item now c).1
    deleted :
        (c : Cell) (host : Str) (now : ℕ) → Life c → Life (durable_delete hash host key now c).1
    went_on : (c d : Cell) → Quiet hash key c d → Life c → Life d

  -- The hydrations of a history are timely.
  unfoldable pub AllTimely : {c : Cell} → Life c → Type 0
  unfolding IsTimely
  AllTimely (fresh remote limit writes) = Unit
  AllTimely (stored c host item now e life) = AllTimely life
  AllTimely (deleted c host now life) = AllTimely life
  AllTimely (went_on c d quiet life) = AllTimely life × IsTimely hash key quiet

module _ (hash : Bytes → Str) (injective : (x y : Bytes) → hash x ≡ hash y → x ≡ y)
    (key : Str) where
  -- In every history of a key in which a reader that finds the store without bytes stores only those that the
  -- backend has at that time, of puts, deletions, uploads in their steps, failures, collections, hydrations,
  -- recoveries and restarts, each of which may stop at any write, the files are fine: where no intent is
  -- pending, the bytes of a queued put are stored under its digest and have no tombstone, and a tombstone is
  -- one of the bytes that are stored and of a key that the backend does not have; and the upload under way is
  -- one of a queued generation or of one that is replaced. No two contents have one hash.
  pub Life-IsFine :
      {c : Cell} (life : Life hash key c) → AllTimely hash key life → IsFine hash c.files c.serial
  unfolding AllTimely is_settled fits_queue fits_tombstone is_older fits_upload
  Life-IsFine (fresh remote limit writes) timely = record {
    settled = refl;
    older = refl;
    uploading = refl;
  }
  Life-IsFine (stored c host item now e life) timely =
      (contents-process_put hash injective host item now c (Life-IsFine life timely)).0
  Life-IsFine (deleted c host now life) timely =
      state_of (λ d. IsFine hash d.files d.serial) (durable_delete hash host key now c)
        (weaken_rule (At hash (contents c.files)) (λ d. IsFine hash d.files d.serial)
          (λ _ d. At hash none d × (d.files.intent ≡ none)) (λ _ d. IsFine hash d.files d.serial)
          (durable_delete hash host key now c)
          (durable_delete-Ends hash injective key (contents c.files) host now c
            (Life-IsFine life timely, refl))
          (λ _ z. z.0) (λ _ _ z. z.0.0))
  Life-IsFine (went_on c d quiet life) timely =
      (Quiet-At hash injective key (contents c.files) quiet timely.1
        (Life-IsFine life timely.0, refl)).0
