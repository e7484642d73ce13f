-- ===== src/Fuse/Tests.antt =====
-- Reads of a file of two chunks, and of the file that the store's tests write.
use majutsu.Base.{ℕ, ◌+◌, ◌≡◌, Option, some, List, [], ◌∷◌, arith}
use majutsu.Base.Text.{codes}
use majutsu.Large.Object.{
  LargeChunk, LargeManifest, Home, store_large_bytes_buffered, read_large_chunk,
}
use majutsu.Large.Object.Tests.{
  platform, config, empty_home, platform-IsReliable, empty_home-IsConsistent, hello-AllStorable,
}
use majutsu.Fuse.{read_large_file}
use majutsu.Fuse.Stored.{read_large_file-store_large_bytes}

abbrev two_bytes_at : ℕ → LargeChunk
two_bytes_at offset = record {
  index = 0;
  offset = offset;
  len = 2;
  stored_len = some 2;
  compression = codes "none";
  oid = [];
  object_key = [];
}

-- The chunk at `offset` of the file 10, 11, 12, and so on.
abbrev read_counting : LargeChunk → Option (List ℕ)
read_counting chunk = some ((10 + chunk.offset) ∷ ((11 + chunk.offset) ∷ []))

read_large_file-store_large_bytes_example :
    (m : LargeManifest) × (home' : Home) × (store_large_bytes_buffered platform config empty_home
        (codes "hello")
      ≡ some (m, home'))
    × (read_large_file (read_large_chunk platform home') m.size m.chunks 1 3 ≡ some (codes "ell"))
read_large_file-store_large_bytes_example =
    read_large_file-store_large_bytes platform config empty_home (codes "hello") 1 3
      platform-IsReliable empty_home-IsConsistent hello-AllStorable (omega arith) (omega arith)
      (omega arith) (omega arith)
