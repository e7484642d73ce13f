-- ===== src/Fuse/Stored.antt =====
-- Reads through the mount of a file that the chunk store has written.
use majutsu.Base.{
  ℕ, ◌+◌, ◌-◌, ◌^◌, ◌<◌, ◌≡◌, sym, ◌∙◌, some, List, [], ◌∷◌, arith, length, take, drop, length-take,
  length-drop,
}
use mathlib.Core.Path.{subst}
use majutsu.Large.{Range}
use majutsu.Large.Tiling.{Tiles, Tiles-le, slice}
use majutsu.Large.Content.{chunk_ranges_for_bytes-Tiles}
use majutsu.Large.Object.{
  LargeChunk, LargeManifest, Home, Platform, LargeConfig, store_large_bytes_buffered,
  read_large_chunk,
}
use majutsu.Large.Object.Stored.{
  IsReliable, IsConsistent, AllStorable, ReadsAll, store_chunks_lem, read_large_chunk_of_Reads,
}
use majutsu.Fuse.{read_large_file}
use majutsu.Fuse.Read.{Describes, read_large_file-slice}

module _ (p : Platform) (config : LargeConfig) (r : IsReliable p config) (home : Home)
    (bytes : List ℕ) where
  ReadsAll-Describes :
      (a : ℕ) (cs : List LargeChunk) (ranges : List Range)
      → Tiles a (length bytes) ranges
      → ReadsAll p config r home bytes cs ranges
      → Describes (read_large_chunk p home) bytes a (length bytes) cs
  ReadsAll-Describes a [] [] tiles h = tiles
  ReadsAll-Describes a [] (range ∷ ranges) tiles h = absurd h
  ReadsAll-Describes a (c ∷ cs) [] tiles h = absurd h
  ReadsAll-Describes a (c ∷ cs) ((s, e) ∷ ranges) (at, pos, tiles) (reads, from, long, others) =
      let upto = Tiles-le e (length bytes) ranges tiles in
      let size : c.len ≡ e - s =
        omega (arith, length-take (e - s) (drop s bytes), length-drop s bytes) in
      let end : c.offset + c.len ≡ e = omega arith in
      let read = read_large_chunk_of_Reads p config r home c (slice bytes (s, e)) reads in
      (
        from ∙ at,
        omega arith,
        cc (read, from, end),
        subst (λ x. Describes (read_large_chunk p home) bytes x (length bytes) cs) (sym end)
            (ReadsAll-Describes e cs ranges tiles others),
      )

-- A stored file is read through the mount as it was: for every offset and size the result of
-- `read_large_file` on the stored manifest is the part of the file that stands there. Conditions: those
-- of the store, an offset below 2 ^ 63 and a size below 2 ^ 32.
pub read_large_file-store_large_bytes :
    (p : Platform) (config : LargeConfig) (home : Home) (bytes : List ℕ) (offset size : ℕ)
    → IsReliable p config
    → IsConsistent p config home
    → AllStorable p config bytes
    → length bytes < 2 ^ 63
    → config.chunk_size < 2 ^ 61
    → offset < 2 ^ 63
    → size < 2 ^ 32
    → (m : LargeManifest) × (home' : Home) × (store_large_bytes_buffered p config home bytes
        ≡ some (m, home'))
      × (read_large_file (read_large_chunk p home') m.size m.chunks offset size
          ≡ some (take size (drop offset bytes)))
unfolding store_large_bytes_buffered
read_large_file-store_large_bytes p config home bytes offset size r fine kept small fits at wants =
    let (ranges, e, tiles, _) =
      chunk_ranges_for_bytes-Tiles config.default_chunking config.chunk_size bytes small fits in
    let (cs, home', e', fine', _, reads) =
      store_chunks_lem p config r bytes ranges home 0 fine (kept ranges e) in
    let described = ReadsAll-Describes p config r home' bytes 0 cs ranges tiles reads in
    let m : LargeManifest = record {
      version = 1;
      oid = p.hash bytes;
      size = length bytes;
      chunking = config.default_chunking;
      chunk_size = config.chunk_size;
      chunks = cs;
    } in
    (
      m,
      home',
      rw (e, e'),
      read_large_file-slice (read_large_chunk p home') bytes cs offset size described small at
          wants,
    )
