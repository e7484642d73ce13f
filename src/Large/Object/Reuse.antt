-- ===== src/Large/Object/Reuse.antt =====
-- A chunk that is stored already is taken as it is, whatever compression it was stored under.
use majutsu.Base.{ℕ, ◌≡◌, ◌≢◌, length, true, false, some, List}
use majutsu.Base.Text.{Str, codes, str_eq}
use majutsu.Base.Maps.{lookup, bind, contains_key, contains_key-lookup}
use majutsu.ObjectKey.{validate_local_object_key}
use majutsu.Large.Compress.{should_compress, compress_chunk_if_useful, decode_large_chunk_payload}
use majutsu.Large.Object.{
  LargeChunk, Home, Platform, LargeConfig, existing_chunk_object_key, store_large_chunk_bytes,
  store_chunk, read_object_raw, read_large_chunk,
}

compress_skipped :
    (p : Platform) (config : LargeConfig) (chunk : List ℕ)
    → should_compress config.compression.enabled config.compression.algorithm
        config.compression.skip_extensions config.compression.file_name
      ≡ false
    → compress_chunk_if_useful p.zstd config.compression chunk
      ≡ some (record { bytes = chunk; compression = codes "none" })
unfolding compress_chunk_if_useful
compress_skipped p config chunk skip = rw skip

store_reused :
    (p : Platform) (config : LargeConfig) (home : Home) (oid : Str) (bytes : List ℕ) (key : Str)
    → lookup oid home.chunks ≡ some key
    → contains_key key home.files ≡ true
    → store_large_chunk_bytes p config home oid bytes ≡ some (key, home)
unfolding store_large_chunk_bytes existing_chunk_object_key
store_reused p config home oid bytes key known there =
    rw (known, there, store_large_chunk_bytes, existing_chunk_object_key)

-- A chunk whose content is already stored under another compression is not read back. Condition: the
-- file at hand is not to be compressed, and the home holds the chunk as `old`, which is not the chunk
-- itself. The store succeeds, the manifest records "none", and the chunk is read as `old`.
pub read-store_chunk_reused :
    (p : Platform) (config : LargeConfig) (home : Home) (index start : ℕ)
    (chunk encoded old : List ℕ) (key : Str)
    → should_compress config.compression.enabled config.compression.algorithm
        config.compression.skip_extensions config.compression.file_name
      ≡ false
    → lookup (p.hash chunk) home.chunks ≡ some key
    → lookup key home.files ≡ some encoded
    → validate_local_object_key key ≡ true
    → p.envelope.decode encoded ≡ some old
    → old ≢ chunk
    → (c : LargeChunk) × (home' : Home) × (store_chunk p config home index start chunk
        ≡ some (c, home'))
      × (read_large_chunk p home' c ≡ some old)
      × (read_large_chunk p home' c ≢ some chunk)
unfolding store_chunk read_large_chunk read_object_raw decode_large_chunk_payload str_eq
read-store_chunk_reused p config home index start chunk encoded old key skip known found valid
      opened unlike =
    let made = compress_skipped p config chunk skip in
    let reused =
      store_reused p config home (p.hash chunk) chunk key known
        (contains_key-lookup key home.files found) in
    let c : LargeChunk = record {
      index = index;
      offset = start;
      len = length chunk;
      stored_len = some (length chunk);
      compression = codes "none";
      oid = p.hash chunk;
      object_key = key;
    } in
    let home' : Home = record home { chunks = bind (p.hash chunk) key home.chunks } in
    let read : read_large_chunk p home' c ≡ some old = rw (valid, found, opened) in
    (c, home', rw (made, reused), read, λ e. unlike (cc (read, e)))
