-- ===== src/Fuse.antt =====
-- Reads through the FUSE mount: `read_file` of src/fuse_mount.rs for a large file. The reader of a
-- chunk is an argument; a slice out of bounds panics, and is `none` as an error is.

pub mod Tests
pub mod Read
pub mod Stored
use majutsu.Base.{
  ℕ, ◌+◌, ◌-◌, ◌%◌, ◌^◌, ◌≡◌, Bool, true, false, ◌&&◌, ◌||◌, Option, none, some, List, [], ◌∷◌,
  ◌++◌, min, max, leb, if◌then◌else◌, length, take, drop,
}
use majutsu.Crypto.{◌>>=◌}
use majutsu.Large.{u64_mod}
use majutsu.Large.Tiling.{slice}
use majutsu.Large.Object.{LargeChunk}

-- `&data[start..end]`.
pub checked_slice : List ℕ → ℕ → ℕ → Option (List ℕ)
checked_slice bytes start end =
    if leb start end && leb end (length bytes) then some (slice bytes (start, end)) else none

module _ (read_chunk : LargeChunk → Option (List ℕ)) where
  -- The loop over the chunks of the manifest.
  pub read_chunks : ℕ → ℕ → List LargeChunk → Option (List ℕ)
  read_chunks start end [] = some []
  read_chunks start end (chunk ∷ chunks) =
      let chunk_start = chunk.offset in
      let chunk_end = (chunk.offset + chunk.len) % u64_mod in
      let rest = read_chunks start end chunks in
      if leb chunk_end start || leb end chunk_start
      then rest
      else read_chunk chunk >>= (λ bytes.
        checked_slice bytes (start - chunk_start) (min end chunk_end - chunk_start)
        >>= (λ piece. rest >>= λ others. some (piece ++ others)))

  -- The branch of a large payload, for an offset that is not negative.
  pub read_large_file : ℕ → List LargeChunk → ℕ → ℕ → Option (List ℕ)
  unfolding read_chunks
  read_large_file record_size chunks offset size =
      if leb record_size offset
      then some []
      else read_chunks offset (min ((offset + size) % u64_mod) record_size) chunks
