-- ===== src/Fuse/Read.antt =====
-- A read through the mount gives the bytes of the file that stand at the requested place.
use majutsu.Base.{
  ℕ, ◌+◌, ◌-◌, ◌%◌, ◌^◌, ◌≤◌, ◌<◌, ◌≡◌, refl, ap, ◌∙◌, inl, inr, true, ◌&&◌, ◌||◌, Option, some,
  List, [], ◌∷◌, ◌++◌, min, max, leb, arith, length, take, drop, Bool-cases, length-take,
  length-drop, take-take, drop-take, drop-drop, take-append-take-drop, append-nil, take_all,
}
use majutsu.Large.{u64_mod}
use majutsu.Large.Tiling.{slice}
use majutsu.Large.Object.{LargeChunk}
use majutsu.Fuse.{checked_slice, read_chunks, read_large_file}

no_length : (xs : List ℕ) → length xs ≡ 0 → xs ≡ []
no_length [] h = refl
no_length (x ∷ xs) h = absurd (omega arith)

module _ (read_chunk : LargeChunk → Option (List ℕ)) (bytes : List ℕ) where
  -- From `a` to `b` the chunks follow one another, none is empty, and each reads as its slice.
  abbrev pub Describes : ℕ → ℕ → List LargeChunk → Type 0
  Describes a b [] = a ≡ b
  Describes a b (c ∷ cs) =
      (c.offset ≡ a)
      × (0 < c.len)
      × (read_chunk c ≡ some (slice bytes (c.offset, c.offset + c.len)))
      × Describes (c.offset + c.len) b cs

  Describes-le : (a b : ℕ) (cs : List LargeChunk) → Describes a b cs → a ≤ b
  Describes-le a b [] h = omega arith
  Describes-le a b (c ∷ cs) h = omega (arith, Describes-le (c.offset + c.len) b cs h.3)

  -- The part of the chunk from `a` to `m` that a read from `start` to `end` wants.
  piece_lem :
      (a m start end : ℕ)
      → m ≤ length bytes
      → start < m
      → a < end
      → a ≤ m
      → start ≤ end
      → checked_slice (slice bytes (a, m)) (start - a) (min end m - a)
        ≡ some (slice bytes (max start a, min end m))
  unfolding checked_slice
  piece_lem a m start end inside before behind order order' =
      let long : length (slice bytes (a, m)) ≡ m - a =
        omega (arith, length-take (m - a) (drop a bytes), length-drop a bytes) in
      let test : (leb (start - a) (min end m - a)
            && leb (min end m - a) (length (slice bytes (a, m))))
          ≡ true =
        ground (arith, long) in
      let first = drop-take (start - a) (m - a) (drop a bytes) in
      let second =
        take-take (min end m - a - (start - a)) (m - a - (start - a))
          (drop (start - a) (drop a bytes)) in
      let third = drop-drop a (start - a) bytes in
      let from : a + (start - a) ≡ max start a = omega arith in
      let count : min (min end m - a - (start - a)) (m - a - (start - a))
          ≡ min end m - max start a =
        omega arith in
      rw test (cc (first, second, third, from, count))

  -- The piece of a chunk and the pieces of those behind it are one piece of the file.
  join_lem :
      (a m b start end : ℕ)
      → start < m
      → a < end
      → a ≤ m
      → m ≤ b
      → slice bytes (max start a, min end m) ++ slice bytes (max start m, min end b)
        ≡ slice bytes (max start a, min end b)
  join_lem a m b start end before behind order upto = elim (Bool-cases (leb end m)) [
    | inl inside ↦
        let none_left : min end b - max start m ≡ 0 = ground arith in
        let same : min end m - max start a ≡ min end b - max start a = ground arith in
        rw (none_left, same) (append-nil _)
    | inr across ↦
        let k = min end m - max start a in
        let n = min end b - max start m in
        let at : max start a + k ≡ max start m = ground arith in
        let total : k + n ≡ min end b - max start a = ground arith in
        let whole = take-append-take-drop k n (drop (max start a) bytes) in
        let skip = drop-drop (max start a) k bytes in cc (at, total, whole, skip)
  ]

  -- A chunk that the read does not touch adds nothing.
  outside_lem :
      (a m b start end : ℕ)
      → (leb m start || leb end a) ≡ true
      → a ≤ m
      → m ≤ b
      → slice bytes (max start m, min end b) ≡ slice bytes (max start a, min end b)
  outside_lem a m b start end outside order upto = elim (Bool-cases (leb m start)) [
    | inl before ↦ let same : max start m ≡ max start a = ground arith in rw same
    | inr reaches ↦
        let nothing : min end b - max start a ≡ 0 = ground arith in
        let nothing' : min end b - max start m ≡ 0 = ground arith in rw (nothing, nothing')
  ]

  read_chunks-slice :
      (a b start end : ℕ) (cs : List LargeChunk)
      → Describes a b cs
      → b ≤ length bytes
      → b < 2 ^ 64
      → start ≤ end
      → read_chunks read_chunk start end cs ≡ some (slice bytes (max start a, min end b))
  unfolding read_chunks
  read_chunks-slice a b start end [] h inside fits order =
      let nothing : min end b - max start a ≡ 0 = omega arith in rw nothing
  read_chunks-slice a b start end (c ∷ cs) h inside fits order =
      let (at, pos, reads, others) = h in
      let m = c.offset + c.len in
      let upto = Describes-le m b cs others in
      let ih = read_chunks-slice m b start end cs others inside fits order in
      let whole : (c.offset + c.len) % u64_mod ≡ m = omega arith in
      rw (← at, whole)
        (elim (Bool-cases (leb m start || leb end c.offset)) [
          | inl outside ↦
              rw outside
                (ih ∙ ap some (outside_lem c.offset m b start end outside (omega arith) upto))
          | inr overlaps ↦
              let piece =
                piece_lem c.offset m start end (omega arith) (ground arith) (ground arith)
                  (omega arith) order in
              rw (overlaps, reads, piece, ih)
                (ap some (
                  join_lem c.offset m b start end (ground arith) (ground arith) (omega arith) upto))
        ])

  -- A read gives the bytes of the file from the offset on, as many as asked for or as there are. Condition:
  -- the chunks follow one another from 0 to the length of the file, none is empty, and each reads as
  -- its part of it; a file and an offset below 2 ^ 63 and a size below 2 ^ 32.
  pub read_large_file-slice :
      (cs : List LargeChunk) (offset size : ℕ)
      → Describes 0 (length bytes) cs
      → length bytes < 2 ^ 63
      → offset < 2 ^ 63
      → size < 2 ^ 32
      → read_large_file read_chunk (length bytes) cs offset size
        ≡ some (take size (drop offset bytes))
  unfolding read_large_file
  read_large_file-slice cs offset size h small at fits =
      elim (Bool-cases (leb (length bytes) offset)) [
        | inl beyond ↦
            let past : length (drop offset bytes) ≡ 0 = ground (arith, length-drop offset bytes) in
            rw (
              beyond,
              take_all (drop offset bytes) size (omega arith),
              no_length (drop offset bytes) past,
            )
        | inr inside ↦
            let end = min ((offset + size) % u64_mod) (length bytes) in
            let same : min end (length bytes) ≡ end = omega arith in
            let from : max offset 0 ≡ offset = omega arith in
            let read =
              read_chunks-slice 0 (length bytes) offset end cs h (omega arith) (omega arith)
                (ground arith) in
            let cut : min size (length (drop offset bytes)) ≡ end - offset =
              ground (arith, length-drop offset bytes) in
            let all = take_all (drop offset bytes) (length (drop offset bytes)) (omega arith) in
            let short = take-take size (length (drop offset bytes)) (drop offset bytes) in
            rw inside (cc (read, same, from, cut, all, short))
      ]
