-- ===== src/Large/Object/Stored.antt =====
-- What is stored is read back: the chunk store keeps, for every chunk it knows, the bytes that the
-- configured compression makes of the chunk.
use mathlib.Core.List.{flat_map}
use majutsu.Base.{
  ℕ, suc, ◌^◌, ◌<◌, ◌≡◌, ◌≢◌, refl, ap, sym, ◌∙◌, inl, inr, true, false, Option, none, some, List,
  [], ◌∷◌, All, arith, length, Bool-cases, Option-cases,
}
use majutsu.Base.Text.{Str, str_eq, str_eq_iff}
use majutsu.Base.Maps.{
  lookup, contains_key, bind, contains_key-lookup, lookup-not_contains_key, lookup-bind_ne,
  lookup-bind_self, contains_key-bind_ne,
}
use majutsu.ObjectKey.{validate_local_object_key}
use majutsu.Large.{Range, chunk_ranges_for_bytes}
use majutsu.Large.Tiling.{slice, slices_of_whole}
use majutsu.Large.Content.{chunk_ranges_for_bytes-Tiles}
use majutsu.Large.Compress.{
  StoredLargeChunk, compress_chunk_if_useful, decode-compress_chunk_if_useful,
}
use majutsu.Large.Object.{
  LargeChunk, LargeManifest, Home, Platform, LargeConfig, object_path, store_bytes,
  existing_chunk_object_key, store_large_chunk_bytes, store_chunk, store_chunks,
  store_large_bytes_buffered, read_object_raw, read_large_chunk, write_large_chunks,
}

module _ (p : Platform) (config : LargeConfig) where
  abbrev compress : List ℕ → Option StoredLargeChunk
  compress = compress_chunk_if_useful p.zstd config.compression

  -- What is relied on of the parameters: no error of the compressor and the ciphers, a hash without
  -- collisions on chunks, and storage ids whose object keys are valid and distinct.
  pub record IsReliable : Type 0 where
    pub compresses : (b : List ℕ) → (s : StoredLargeChunk) × (compress b ≡ some s)
    pub encodes : (b : List ℕ) → (e : List ℕ) × (p.envelope.encode b ≡ some e)
    pub hash_injective : (a b : List ℕ) → p.hash a ≡ p.hash b → a ≡ b
    pub path_valid :
        (b : List ℕ)
        → (path : Str) × (object_path p config (p.hash b) ≡ some path)
          × (validate_local_object_key path ≡ true)
    pub path_injective :
        (a b : List ℕ) (path : Str)
        → object_path p config (p.hash a) ≡ some path
        → object_path p config (p.hash b) ≡ some path
        → a ≡ b

  -- The envelope gives back what is stored of the chunk `b`. With encryption off it does so where the stored
  -- bytes begin with neither magic.
  abbrev pub IsStorable : List ℕ → Type 0
  IsStorable b =
      (s : StoredLargeChunk) → compress b ≡ some s → p.envelope.is_storable s.bytes ≡ true

  -- What is stored of every chunk of the file is given back.
  abbrev pub AllStorable : List ℕ → Type 0
  AllStorable bytes =
      (ranges : List Range)
      → chunk_ranges_for_bytes config.default_chunking config.chunk_size bytes ≡ some ranges
      → All (λ range. IsStorable (slice bytes range)) ranges

  -- The object file under `key` holds what the compression makes of the chunk `b`.
  abbrev Holds : Home → Str → List ℕ → Type 0
  Holds home key b =
      (encoded : List ℕ) × (s : StoredLargeChunk) × (lookup key home.files ≡ some encoded)
      × (compress b ≡ some s)
      × (p.envelope.decode encoded ≡ some s.bytes)

  -- Every file and every row of the home comes from a store under this configuration.
  pub record IsConsistent (home : Home) : Type 0 where
    pub filed :
        (b : List ℕ) (path : Str)
        → object_path p config (p.hash b) ≡ some path
        → contains_key path home.files ≡ true
        → Holds home path b
    pub rowed :
        (b : List ℕ) (key : Str)
        → lookup (p.hash b) home.chunks ≡ some key
        → Holds home key b × (validate_local_object_key key ≡ true)

  abbrev Extends : Home → Home → Type 0
  Extends home home' =
      (key : Str) (encoded : List ℕ)
      → lookup key home.files ≡ some encoded
      → lookup key home'.files ≡ some encoded

  module _ (r : IsReliable) where
    Holds-extended :
        (home home' : Home) (key : Str) (b : List ℕ)
        → Extends home home'
        → Holds home key b
        → Holds home' key b
    Holds-extended home home' key b grown (encoded, s, found, made, opened) =
        (encoded, s, grown key encoded found, made, opened)

    -- The home behind a file written for a chunk that had none.
    module _ (home : Home) (b : List ℕ) (s : StoredLargeChunk) (path : Str) (encoded : List ℕ)
        (fine : IsConsistent home) (made : compress b ≡ some s)
        (there : object_path p config (p.hash b) ≡ some path)
        (done : p.envelope.encode s.bytes ≡ some encoded)
        (fits : p.envelope.is_storable s.bytes ≡ true)
        (new : contains_key path home.files ≡ false) where
      abbrev filled : Home
      filled = record home { files = bind path encoded home.files }

      filled-Extends : Extends home filled
      filled-Extends key e h = elim (Bool-cases (str_eq path key)) [
        | inl same ↦
            let fresh : lookup path home.files ≡ none =
              lookup-not_contains_key path home.files new in
            absurd (ground (arith, str_eq_iff path key))
        | inr other ↦
            let apart : path ≢ key = ground (arith, str_eq_iff path key) in
            rw (lookup-bind_ne path key encoded home.files apart) h
      ]

      filled-Holds : Holds filled path b
      filled-Holds = (
        encoded,
        s,
        lookup-bind_self path encoded home.files,
        made,
        p.envelope.decode-encode s.bytes fits done,
      )

      filled_filed :
          (b' : List ℕ) (path' : Str)
          → object_path p config (p.hash b') ≡ some path'
          → contains_key path' filled.files ≡ true
          → Holds filled path' b'
      filled_filed b' path' there' in' = elim (Bool-cases (str_eq path path')) [
        | inl same ↦
            let e : path ≡ path' = ground (arith, str_eq_iff path path') in
            let e' : b ≡ b' = r.path_injective b b' path there (rw e there') in
            rw (← e, ← e') filled-Holds
        | inr other ↦
            let apart : path ≢ path' = ground (arith, str_eq_iff path path') in
            let old : contains_key path' home.files ≡ true =
              sym (contains_key-bind_ne path path' encoded home.files apart) ∙ in' in
            Holds-extended home filled path' b' filled-Extends (fine.filed b' path' there' old)
      ]

      filled-IsConsistent : IsConsistent filled
      filled-IsConsistent = record {
        filed = filled_filed;
        rowed = λ b' key h. (
          Holds-extended home filled key b' filled-Extends (fine.rowed b' key h).0,
          (fine.rowed b' key h).1,
        );
      }

    -- What a store of one text leaves: a consistent home that still has every file, and the text
    -- under the returned key.
    abbrev Stores : Home → List ℕ → Option (Str × Home) → Type 0
    Stores home b result =
        (key : Str) × (home' : Home) × (result ≡ some (key, home'))
        × IsConsistent home'
        × Extends home home'
        × Holds home' key b
        × (validate_local_object_key key ≡ true)

    store_bytes_lem :
        (home : Home) (b : List ℕ) (s : StoredLargeChunk)
        → IsConsistent home
        → compress b ≡ some s
        → IsStorable b
        → Stores home b (store_bytes p config home (p.hash b) s.bytes)
    unfolding store_bytes
    store_bytes_lem home b s fine made fits =
        let (path, there, valid) = r.path_valid b in
        let (encoded, done) = r.encodes s.bytes in
        elim (Bool-cases (contains_key path home.files)) [
          | inl old ↦ (
            path,
            home,
            rw (done, there, old),
            fine,
            (λ key e h. h),
            fine.filed b path there old,
            valid,
          )
          | inr new ↦ (
            path,
            filled home b s path encoded fine made there done (fits s made) new,
            rw (done, there, new),
            filled-IsConsistent home b s path encoded fine made there done (fits s made) new,
            filled-Extends home b s path encoded fine made there done (fits s made) new,
            filled-Holds home b s path encoded fine made there done (fits s made) new,
            valid,
          )
        ]

    store_large_chunk_bytes_lem :
        (home : Home) (b : List ℕ) (s : StoredLargeChunk)
        → IsConsistent home
        → compress b ≡ some s
        → IsStorable b
        → Stores home b (store_large_chunk_bytes p config home (p.hash b) s.bytes)
    unfolding store_large_chunk_bytes existing_chunk_object_key
    store_large_chunk_bytes_lem home b s fine made fits =
        elim (Option-cases (lookup (p.hash b) home.chunks)) [
          | inl unknown ↦
              rw (unknown, store_large_chunk_bytes, existing_chunk_object_key)
                (store_bytes_lem home b s fine made fits)
          | inr (key, known) ↦
              let (held, valid) = fine.rowed b key known in
              let there = contains_key-lookup key home.files held.2 in
              (
                key,
                home,
                rw (known, there, store_large_chunk_bytes, existing_chunk_object_key),
                fine,
                (λ k e h. h),
                held,
                valid,
              )
        ]

    -- The chunk `c` read from the home is `b`.
    abbrev Reads : Home → LargeChunk → List ℕ → Type 0
    Reads home c b =
        Holds home c.object_key b
        × (validate_local_object_key c.object_key ≡ true)
        × ((s : StoredLargeChunk) → compress b ≡ some s → c.compression ≡ s.compression)

    Reads-extended :
        (home home' : Home) (c : LargeChunk) (b : List ℕ)
        → Extends home home'
        → Reads home c b
        → Reads home' c b
    Reads-extended home home' c b grown (held, valid, same) =
        (Holds-extended home home' c.object_key b grown held, valid, same)

    pub read_large_chunk_of_Reads :
        (home : Home) (c : LargeChunk) (b : List ℕ)
        → Reads home c b
        → read_large_chunk p home c ≡ some b
    unfolding read_large_chunk read_object_raw
    read_large_chunk_of_Reads home c b ((encoded, s, found, made, opened), valid, same) =
        rw (valid, found, opened, same s made)
          (decode-compress_chunk_if_useful p.zstd config.compression b made)

    recorded-IsConsistent :
        (home : Home) (b : List ℕ) (key : Str)
        → IsConsistent home
        → Holds home key b
        → validate_local_object_key key ≡ true
        → IsConsistent (record home { chunks = bind (p.hash b) key home.chunks })
    recorded-IsConsistent home b key fine held valid = record {
      filed = fine.filed;
      rowed = λ b' key' h. elim (Bool-cases (str_eq (p.hash b) (p.hash b'))) [
        | inl same ↦
            let e = (str_eq_iff (p.hash b) (p.hash b')).0 same in
            let e' : some key ≡ some key' =
              sym (lookup-bind_self (p.hash b) key home.chunks)
              ∙ (ap (λ k. lookup k (bind (p.hash b) key home.chunks)) e ∙ h) in
            let e'' : key ≡ key' = cc in rw (← r.hash_injective b b' e, ← e'') (held, valid)
        | inr other ↦
            let apart : p.hash b ≢ p.hash b' = ground (arith, str_eq_iff (p.hash b) (p.hash b')) in
            fine.rowed b' key'
              (sym (lookup-bind_ne (p.hash b) (p.hash b') key home.chunks apart) ∙ h)
      ];
    }

    store_chunk_lem :
        (home : Home) (index start : ℕ) (b : List ℕ)
        → IsConsistent home
        → IsStorable b
        → (c : LargeChunk) × (home' : Home) × (store_chunk p config home index start b
            ≡ some (c, home'))
          × IsConsistent home'
          × Extends home home'
          × Reads home' c b
          × (c.offset ≡ start)
          × (c.len ≡ length b)
    unfolding store_chunk
    store_chunk_lem home index start b fine fits =
        let (s, made) = r.compresses b in
        let (key, home', e, fine', grown, held, valid) =
          store_large_chunk_bytes_lem home b s fine made fits in
        let recorded : Home = record home' { chunks = bind (p.hash b) key home'.chunks } in
        let c : LargeChunk = record {
          index = index;
          offset = start;
          len = length b;
          stored_len = some (length s.bytes);
          compression = s.compression;
          oid = p.hash b;
          object_key = key;
        } in
        (
          c,
          recorded,
          rw (made, e),
          recorded-IsConsistent home' b key fine' held valid,
          grown,
          (held, valid, λ s' made'. cc),
          refl,
          refl,
        )

    -- The chunks `cs` describe the slices of `bytes` that `ranges` cut, and read as these.
    abbrev pub ReadsAll : Home → List ℕ → List LargeChunk → List Range → Type 0
    ReadsAll home bytes [] [] = Unit
    ReadsAll home bytes [] (range ∷ ranges) = ⊥
    ReadsAll home bytes (c ∷ cs) [] = ⊥
    ReadsAll home bytes (c ∷ cs) (range ∷ ranges) =
        Reads home c (slice bytes range)
        × (c.offset ≡ range.0)
        × (c.len ≡ length (slice bytes range))
        × ReadsAll home bytes cs ranges

    pub store_chunks_lem :
        (bytes : List ℕ) (ranges : List Range) (home : Home) (index : ℕ)
        → IsConsistent home
        → All (λ range. IsStorable (slice bytes range)) ranges
        → (cs : List LargeChunk) × (home' : Home) × (store_chunks p config bytes home index ranges
            ≡ some (cs, home'))
          × IsConsistent home'
          × Extends home home'
          × ReadsAll home' bytes cs ranges
    unfolding store_chunks
    store_chunks_lem bytes [] home index fine fits = ([], home, refl, fine, (λ key e h. h), tt)
    store_chunks_lem bytes ((start, end) ∷ ranges) home index fine fits =
        let (c, home', e, fine', grown, reads, at, long) =
          store_chunk_lem home index start (slice bytes (start, end)) fine fits.0 in
        let (cs, home'', e', fine'', grown', others) =
          store_chunks_lem bytes ranges home' (suc index) fine' fits.1 in
        (
          c ∷ cs,
          home'',
          rw (e, e', store_chunks),
          fine'',
          (λ key en h. grown' key en (grown key en h)),
          (Reads-extended home' home'' c (slice bytes (start, end)) grown' reads, at, long, others),
        )

    write_large_chunks_of_ReadsAll :
        (home : Home) (bytes : List ℕ) (cs : List LargeChunk) (ranges : List Range)
        → ReadsAll home bytes cs ranges
        → write_large_chunks p home cs ≡ some (flat_map (slice bytes) ranges)
    unfolding write_large_chunks flat_map
    write_large_chunks_of_ReadsAll home bytes [] [] h = refl
    write_large_chunks_of_ReadsAll home bytes [] (range ∷ ranges) h = absurd h
    write_large_chunks_of_ReadsAll home bytes (c ∷ cs) [] h = absurd h
    write_large_chunks_of_ReadsAll home bytes (c ∷ cs) (range ∷ ranges) (reads, at, long, others) =
        rw (
          read_large_chunk_of_Reads home c (slice bytes range) reads,
          write_large_chunks_of_ReadsAll home bytes cs ranges others,
        )

-- A file stored in chunks is restored byte for byte: under any chunking, from a home whose chunks
-- were all stored under the same compression settings, the store succeeds, the home stays so, and
-- writing the chunks of the manifest one after the other gives the file. Conditions: the reliable
-- parameters of `IsReliable`, an envelope that gives back what is stored of each chunk (with encryption off,
-- no chunk is stored as bytes that begin with the magic of an envelope), a file below 2 ^ 63 bytes and a chunk
-- size below 2 ^ 61.
pub write-store_large_bytes :
    (p : Platform) (config : LargeConfig) (home : Home) (bytes : List ℕ)
    → IsReliable p config
    → IsConsistent p config home
    → AllStorable p config bytes
    → length bytes < 2 ^ 63
    → config.chunk_size < 2 ^ 61
    → (m : LargeManifest) × (home' : Home) × (store_large_bytes_buffered p config home bytes
        ≡ some (m, home'))
      × IsConsistent p config home'
      × (m.size ≡ length bytes)
      × (write_large_chunks p home' m.chunks ≡ some bytes)
unfolding store_large_bytes_buffered
write-store_large_bytes p config home bytes r fine kept small fits =
    let (ranges, e, tiles, _) =
      chunk_ranges_for_bytes-Tiles config.default_chunking config.chunk_size bytes small fits in
    let (cs, home', e', fine', _, reads) =
      store_chunks_lem p config r bytes ranges home 0 fine (kept ranges e) in
    let written = write_large_chunks_of_ReadsAll p config r home' bytes cs ranges reads in
    let m : LargeManifest = record {
      version = 1;
      oid = p.hash bytes;
      size = length bytes;
      chunking = config.default_chunking;
      chunk_size = config.chunk_size;
      chunks = cs;
    } in
    (m, home', rw (e, e'), fine', refl, rw (written, slices_of_whole bytes ranges tiles))
