-- ===== src/Large/Object.antt =====
-- The chunk store: `store_large_chunk_bytes`, `store_large_bytes_buffered`, `read_large_chunk` and
-- `write_large_chunks_atomic` of src/main.rs, over the object files and the `chunks` table of a state
-- home. The content hash, the storage id (the hash itself or an HMAC of it) and `zstd` are
-- parameters. An error or a panic is `none`; a missing object is not fetched from a remote.

pub mod Tests
pub mod Stored
pub mod Reuse
use majutsu.Base.{
  ℕ, suc, ◌+◌, ◌-◌, ◌≡◌, Bool, true, false, not, ◌&&◌, ◌||◌, Option, none, some, List, [], ◌∷◌,
  ◌++◌, if◌then◌else◌, length, take, drop, ltb,
}
use majutsu.Base.Text.{Str, codes, str_eq}
use majutsu.Base.Maps.{lookup, contains_key, bind}
use majutsu.Crypto.{◌>>=◌}
use majutsu.Crypto.Envelope.{Envelope}
use majutsu.ObjectKey.{slash, validate_local_object_key}
use majutsu.Large.{Range, chunk_ranges_for_bytes}
use majutsu.Large.Tiling.{slice}
use majutsu.Large.Compress.{
  Zstd, CompressionInput, StoredLargeChunk, compress_chunk_if_useful, decode_large_chunk_payload,
}

pub record LargeChunk : Type 0 where
  pub index : ℕ
  pub offset : ℕ
  pub len : ℕ
  pub stored_len : Option ℕ
  pub compression : Str
  pub oid : Str
  pub object_key : Str

-- `media_type` and `binary`, which no function here reads, are left out.
pub record LargeManifest : Type 0 where
  pub version : ℕ
  pub oid : Str
  pub size : ℕ
  pub chunking : Str
  pub chunk_size : ℕ
  pub chunks : List LargeChunk

-- The object files by key, with their encoded bytes, and the rows of `chunks`: oid to object key.
pub record Home : Type 0 where
  pub files : List (Str × List ℕ)
  pub chunks : List (Str × Str)

pub record Platform : Type 0 where
  pub hash : List ℕ → Str
  pub storage_id : Str → Str
  pub zstd : Zstd
  pub envelope : Envelope

pub record LargeConfig : Type 0 where
  pub default_chunking : Str
  pub chunk_size : ℕ
  pub compression : CompressionInput
  pub reuse_remote_chunks : Bool
  pub rebuild_missing : Bool

abbrev large_chunk_base : Str → Str
large_chunk_base chunking =
    if str_eq chunking (codes "fastcdc")
    then codes "objects/large/chunks/fastcdc"
    else codes "objects/large/chunks/fixed"

module _ (p : Platform) (config : LargeConfig) where
  -- `split_at(2)` panics on a shorter id.
  pub object_path : Str → Option Str
  object_path oid =
      let id = p.storage_id oid in
      if ltb (length id) 2
      then none
      else some
          (large_chunk_base config.default_chunking ++ (slash ∷ (take 2 id ++ (slash ∷ drop 2 id))))

  -- An object file that is there is never written again.
  pub store_bytes : Home → Str → List ℕ → Option (Str × Home)
  store_bytes home oid bytes = do
    encoded ← p.envelope.encode bytes
    path ← object_path oid
    some (
      path,
      if contains_key path home.files
          then home
          else record home { files = bind path encoded home.files },
    )

  pub existing_chunk_object_key : Home → Str → Option Str
  existing_chunk_object_key home oid = do
    object_key ← lookup oid home.chunks
    if contains_key object_key home.files
          || (config.reuse_remote_chunks && not config.rebuild_missing)
        then some object_key
        else none

  pub store_large_chunk_bytes : Home → Str → List ℕ → Option (Str × Home)
  store_large_chunk_bytes home chunk_oid bytes = elim (existing_chunk_object_key home chunk_oid) [
    | some object_key ↦ some (object_key, home)
    | none ↦ store_bytes home chunk_oid bytes
  ]

  -- One round of the loop: compress, store, describe, and record the chunk in the table.
  pub store_chunk : Home → ℕ → ℕ → List ℕ → Option (LargeChunk × Home)
  store_chunk home index start chunk = do
    stored ← compress_chunk_if_useful p.zstd config.compression chunk
    let chunk_oid = p.hash chunk
    (object_key, home') ← store_large_chunk_bytes home chunk_oid stored.bytes
    some (
      record {
        index = index;
        offset = start;
        len = length chunk;
        stored_len = some (length stored.bytes);
        compression = stored.compression;
        oid = chunk_oid;
        object_key = object_key;
      },
      record home' { chunks = bind chunk_oid object_key home'.chunks },
    )

  pub store_chunks : List ℕ → Home → ℕ → List Range → Option (List LargeChunk × Home)
  store_chunks bytes home index [] = some ([], home)
  store_chunks bytes home index ((start, end) ∷ ranges) = do
    (chunk, home') ← store_chunk home index start (slice bytes (start, end))
    (rest, home'') ← store_chunks bytes home' (suc index) ranges
    some (chunk ∷ rest, home'')

  -- The manifest that is built, for a file that is not stored yet.
  unfoldable pub store_large_bytes_buffered : Home → List ℕ → Option (LargeManifest × Home)
  store_large_bytes_buffered home bytes = do
    ranges ← chunk_ranges_for_bytes config.default_chunking config.chunk_size bytes
    (chunks, home') ← store_chunks bytes home 0 ranges
    some (
      record {
        version = 1;
        oid = p.hash bytes;
        size = length bytes;
        chunking = config.default_chunking;
        chunk_size = config.chunk_size;
        chunks = chunks;
      },
      home',
    )

module _ (p : Platform) where
  unfoldable pub read_object_raw : Home → Str → Option (List ℕ)
  read_object_raw home key =
      if validate_local_object_key key then lookup key home.files >>= p.envelope.decode else none

  unfoldable pub read_large_chunk : Home → LargeChunk → Option (List ℕ)
  read_large_chunk home chunk = do
    bytes ← read_object_raw home chunk.object_key
    decode_large_chunk_payload p.zstd chunk.compression bytes

  -- What `write_large_chunks_atomic` writes, with one reader.
  unfoldable pub write_large_chunks : Home → List LargeChunk → Option (List ℕ)
  write_large_chunks home [] = some []
  write_large_chunks home (chunk ∷ chunks) = do
    bytes ← read_large_chunk home chunk
    rest ← write_large_chunks home chunks
    some (bytes ++ rest)
