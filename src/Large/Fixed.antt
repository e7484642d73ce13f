-- ===== src/Large/Fixed.antt =====
-- `fixed_ranges`: the chunks tile the file, and all but the last have the chunk size.
use majutsu.Base.{
  ℕ, zero, suc, ◌+◌, ◌%◌, ◌^◌, ◌≤◌, ◌<◌, min, max, ◌≡◌, refl, ◌⊎◌, inl, inr, arith, ltb, Bool-cases,
  ltb→lt,
}
use majutsu.Large.{u64_mod, fixed_from, fixed_ranges}
use majutsu.Large.Tiling.{Tiles, Sized, Sized-cons}

-- A slice has at most `isize::MAX` bytes; the first round aside, `start` is at least the chunk size.
module _ (len chunk_size : ℕ) (small : len < 2 ^ 63) (pos : 0 < chunk_size)
    (fits : chunk_size < 2 ^ 64) where
  fixed_from-Tiles :
      (fuel start : ℕ)
      → (start ≡ 0) ⊎ (chunk_size ≤ start) ⊎ (start ≡ len)
      → start ≤ len
      → len < fuel + start
      → Tiles start len (fixed_from fuel len chunk_size start)
        × Sized chunk_size chunk_size (fixed_from fuel len chunk_size start)
  unfolding fixed_from
  fixed_from-Tiles zero start reached below enough = absurd (omega arith)
  fixed_from-Tiles (suc fuel) start reached below enough = elim (Bool-cases (ltb start len)) [
    | inr stop ↦ rw stop ((ground arith), tt)
    | inl go ↦
        let lt = ltb→lt start len go in
        let end = min ((start + chunk_size) % u64_mod) len in
        let (tiles, sized) = fixed_from-Tiles fuel end (omega arith) (omega arith) (omega arith) in
        rw go (
          (refl, omega arith, tiles),
          Sized-cons chunk_size chunk_size start end len _ tiles sized (omega arith) (omega arith),
        )
  ]

-- `fixed_ranges` cuts a file of `len` bytes into consecutive non-empty chunks that cover it; every
-- chunk has the chunk size (1 if the configured size is 0), but the last may be shorter.
pub fixed_ranges-Tiles :
    (len chunk_size : ℕ)
    → len < 2 ^ 63
    → chunk_size < 2 ^ 64
    → Tiles 0 len (fixed_ranges len chunk_size)
      × Sized (max chunk_size 1) (max chunk_size 1) (fixed_ranges len chunk_size)
unfolding fixed_ranges
fixed_ranges-Tiles len c small fits =
    fixed_from-Tiles len (max c 1) small (omega arith) (omega arith) (len + 1) 0 (inl refl)
      (omega arith) (omega arith)
