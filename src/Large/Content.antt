-- ===== src/Large/Content.antt =====
-- `content_defined_ranges`: whatever the rolling hash does, the loop ends, reads no byte out of
-- bounds, and its chunks tile the file within the size limits.
use majutsu.Base.{
  ℕ, zero, suc, ◌+◌, ◌-◌, ◌%◌, ◌^◌, ◌≤◌, ◌<◌, min, max, ◌≡◌, refl, ◌⊎◌, inl, inr, true, some, [],
  ◌∷◌, List, arith, length, ltb, ltb→lt, Bool-cases, if◌then◌else◌,
}
use majutsu.Base.Text.{Str, codes, str_eq}
use majutsu.Large.{
  Range, u64_mod, Limits, limits, get_elem?, roll, is_boundary, scan, content_from,
  chunk_ranges_for_bytes, fixed_ranges,
}
use majutsu.Large.Tiling.{Tiles, Sized, Sized-cons}
use majutsu.Large.Fixed.{fixed_ranges-Tiles}

get_elem?-some {ℓ} :
    {A : Type ℓ} (xs : List A) (i : ℕ) → i < length xs → (a : A) × (get_elem? xs i ≡ some a)
get_elem?-some [] i h = elim h [ ]
get_elem?-some (x ∷ xs) zero h = (x, refl)
get_elem?-some (x ∷ xs) (suc i) h = get_elem?-some xs i (omega arith)

is_boundary-le :
    (l : Limits) (start i rolling : ℕ)
    → is_boundary l start i rolling ≡ true
    → l.smallest ≤ i + 1 - start
unfolding is_boundary
is_boundary-le l start i rolling h = ground arith

module _ (bytes : List ℕ) (l : Limits) where
  -- The inner loop stops at a byte behind `i`, not beyond `hard_end`, and before it only where the
  -- chunk has the smallest size.
  scan_stops :
      (fuel start hard_end i rolling : ℕ)
      → hard_end ≤ length bytes
      → i ≤ hard_end
      → hard_end < fuel + i
      → (end rolling' : ℕ) × (scan fuel bytes l start hard_end i rolling ≡ some (end, rolling'))
        × (i ≤ end)
        × ((i < hard_end) → i < end)
        × (end ≤ hard_end)
        × ((end ≡ hard_end) ⊎ (l.smallest ≤ end - start))
  unfolding scan
  scan_stops zero start hard_end i rolling inside below enough = absurd (omega arith)
  scan_stops (suc fuel) start hard_end i rolling inside below enough =
      elim (Bool-cases (ltb i hard_end)) [
        | inr stop ↦
            (hard_end, rolling, rw (stop, scan), omega arith, λ h. h, omega arith, inl refl)
        | inl go ↦
            let lt = ltb→lt i hard_end go in
            let (byte, found) = get_elem?-some bytes i (omega arith) in
            elim (Bool-cases (is_boundary l start i (roll rolling byte))) [
              | inl cut ↦ (
                i + 1,
                roll rolling byte,
                rw (go, found, cut, scan),
                omega arith,
                λ h. omega arith,
                omega arith,
                inr (is_boundary-le l start i (roll rolling byte) cut),
              )
              | inr on ↦
                  let (end, rolling', e, above, _, upto, why) =
                    scan_stops fuel start hard_end (i + 1) (roll rolling byte) inside (omega arith)
                      (omega arith) in
                  (
                    end,
                    rolling',
                    rw (go, found, on, scan) e,
                    omega arith,
                    λ h. omega arith,
                    upto,
                    why,
                  )
            ]
      ]

  module _ (small : length bytes < 2 ^ 63)
      (ordered : (0 < l.smallest) × (l.smallest ≤ l.largest) × (l.largest < 2 ^ 63)) where
    content_from-Tiles :
        (fuel start rolling : ℕ)
        → start ≤ length bytes
        → length bytes < fuel + start
        → (rs : List Range) × (content_from fuel bytes l start rolling ≡ some rs)
          × Tiles start (length bytes) rs
          × Sized l.smallest l.largest rs
    unfolding content_from
    content_from-Tiles zero start rolling below enough = absurd (omega arith)
    content_from-Tiles (suc fuel) start rolling below enough =
        elim (Bool-cases (ltb start (length bytes))) [
          | inr stop ↦ ([], rw (stop, content_from), ground arith, tt)
          | inl go ↦
              let lt = ltb→lt start (length bytes) go in
              let hard_end = min ((start + l.largest) % u64_mod) (length bytes) in
              let (end, rolling', e, _, ahead, upto, why) =
                scan_stops (length bytes + 1) start hard_end start rolling (omega arith)
                  (omega arith) (omega arith) in
              let further = ahead (omega arith) in
              let (rest, e', tiles, sized) =
                content_from-Tiles fuel end rolling' (omega arith) (omega arith) in
              (
                (start, end) ∷ rest,
                rw (go, e, e', content_from),
                (refl, further, tiles),
                Sized-cons l.smallest l.largest start end (length bytes) rest tiles sized
                    (omega arith) (omega arith),
              )
        ]

-- The limits computed from a chunk size below 2 ^ 61 are in order and do not overflow.
limits_ordered :
    (target : ℕ)
    → target < 2 ^ 61
    → (0 < (limits target).smallest)
      × ((limits target).smallest ≤ (limits target).largest)
      × ((limits target).largest < 2 ^ 63)
unfolding limits
limits_ordered target h = (omega arith, omega arith, omega arith)

-- `chunk_ranges_for_bytes` terminates without reading out of bounds, for both ways of chunking.
-- The chunks are non-empty, consecutive and cover the file; with `fastcdc` none is longer than the
-- computed maximum and only the last may be shorter than the minimum, otherwise all but the last
-- have the configured size. Condition: a file below 2 ^ 63 bytes and a chunk size below 2 ^ 61.
pub chunk_ranges_for_bytes-Tiles :
    (chunking : Str) (chunk_size : ℕ) (bytes : List ℕ)
    → length bytes < 2 ^ 63
    → chunk_size < 2 ^ 61
    → (rs : List Range) × (chunk_ranges_for_bytes chunking chunk_size bytes ≡ some rs)
      × Tiles 0 (length bytes) rs
      × (if str_eq chunking (codes "fastcdc")
          then Sized (limits chunk_size).smallest (limits chunk_size).largest rs
          else Sized (max chunk_size 1) (max chunk_size 1) rs)
unfolding chunk_ranges_for_bytes
chunk_ranges_for_bytes-Tiles chunking chunk_size bytes small fits =
    elim (Bool-cases (str_eq chunking (codes "fastcdc"))) [
      | inl content ↦
          let (rs, e, tiles, sized) =
            content_from-Tiles bytes (limits chunk_size) small (limits_ordered chunk_size fits)
              (length bytes + 1) 0 0 (omega arith) (omega arith) in
          (rs, rw content e, tiles, rw content sized)
      | inr fixed ↦
          let (tiles, sized) = fixed_ranges-Tiles (length bytes) chunk_size small (omega arith) in
          (fixed_ranges (length bytes) chunk_size, rw fixed, tiles, rw fixed sized)
    ]
