-- ===== src/Large.antt =====
-- Chunking of large files: `fixed_ranges`, `content_defined_ranges` and `chunk_ranges_for_bytes`
-- of crates/majutsu-large/src/lib.rs. A `usize` or `u64` is a number below 2 ^ 64, and every
-- operation that could leave that range is reduced modulo 2 ^ 64. A range is the pair (start, end).
pub mod Tests
pub mod Tiling
pub mod Fixed
pub mod Content
pub mod Compress
pub mod Object
pub mod Pipeline
use Prim.Native.Nat.{bit_and}
use majutsu.Base.{
  ℕ, zero, suc, ◌+◌, ◌-◌, ◌*◌, ◌/◌, ◌%◌, ◌^◌, min, max, ◌≡◌, Bool, true, false, ◌&&◌, ◌||◌, Option,
  none, some, List, [], ◌∷◌, ltb, leb, ◌==◌, if◌then◌else◌, length,
}
use majutsu.Base.Text.{Str, codes, str_eq}

abbrev pub u64_mod : ℕ
u64_mod = 2 ^ 64

abbrev pub Range : Type 0
Range = ℕ × ℕ

-- The loop of `fixed_ranges` from `start` on; a round covers at least one byte.
pub fixed_from : ℕ → ℕ → ℕ → ℕ → List Range
fixed_from zero len chunk_size start = []
fixed_from (suc fuel) len chunk_size start =
    let end = min ((start + chunk_size) % u64_mod) len in
    let rest = fixed_from fuel len chunk_size end in
    if ltb start len then (start, end) ∷ rest else []

pub fixed_ranges : ℕ → ℕ → List Range
unfolding fixed_from
fixed_ranges len chunk_size = fixed_from (len + 1) len (max chunk_size 1) 0

-- `usize::next_power_of_two`, which is 0 where the result does not fit.
next_power_from : ℕ → ℕ → ℕ → ℕ
next_power_from zero power n = 0
next_power_from (suc rounds) power n =
    let larger = next_power_from rounds (2 * power) n in if leb n power then power else larger

next_power_of_two : ℕ → ℕ
unfolding next_power_from
next_power_of_two n = next_power_from 64 1 n

-- `rolling.rotate_left(1).wrapping_add(byte).wrapping_mul(0x9E37_79B1_85EB_CA87)`.
pub roll : ℕ → ℕ → ℕ
roll rolling byte =
    let rotated = rolling * 2 % u64_mod + rolling / 2 ^ 63 in
    (rotated + byte) % u64_mod * 0x9E37_79B1_85EB_CA87 % u64_mod

abbrev pub get_elem? {ℓ} : {A : Type ℓ} → List A → ℕ → Option A
get_elem? [] i = none
get_elem? (x ∷ xs) zero = some x
get_elem? (x ∷ xs) (suc i) = get_elem? xs i

pub record Limits : Type 0 where
  pub smallest : ℕ
  pub largest : ℕ
  pub mask : ℕ

-- `min`, `max` and `mask` of `content_defined_ranges`.
pub limits : ℕ → Limits
unfolding next_power_of_two
limits wanted =
    let target = max wanted 1024 in
    let smallest = min (max (target / 4) 1024) target in
    record {
      smallest = smallest;
      largest = max (target * 4 % u64_mod) (smallest + 1);
      mask = max (next_power_of_two target - 1) 1;
    }

-- A byte at `i` ends the chunk.
pub is_boundary : Limits → ℕ → ℕ → ℕ → Bool
is_boundary l start i rolling = leb l.smallest (i + 1 - start) && bit_and rolling l.mask == 0

-- The inner loop: the end of the chunk and the hash after it. `none` is an index out of bounds.
pub scan : ℕ → List ℕ → Limits → ℕ → ℕ → ℕ → ℕ → Option (ℕ × ℕ)
scan zero bytes l start hard_end i rolling = none
scan (suc fuel) bytes l start hard_end i rolling = elim (ltb i hard_end) [
  | false ↦ some (hard_end, rolling)
  | true ↦ elim (get_elem? bytes i) [
    | none ↦ none
    | some byte ↦ elim (is_boundary l start i (roll rolling byte)) [
      | true ↦ some (i + 1, roll rolling byte)
      | false ↦ scan fuel bytes l start hard_end (i + 1) (roll rolling byte)
    ]
  ]
]

-- The outer loop; the hash is carried from chunk to chunk.
pub content_from : ℕ → List ℕ → Limits → ℕ → ℕ → Option (List Range)
content_from zero bytes l start rolling = none
content_from (suc fuel) bytes l start rolling = elim (ltb start (length bytes)) [
  | false ↦ some []
  | true ↦
      let hard_end = min ((start + l.largest) % u64_mod) (length bytes) in
      elim (scan (length bytes + 1) bytes l start hard_end start rolling) [
        | none ↦ none
        | some (end, rolling') ↦ elim (content_from fuel bytes l end rolling') [
          | none ↦ none
          | some rest ↦ some ((start, end) ∷ rest)
        ]
      ]
]

content_defined_ranges : List ℕ → ℕ → Option (List Range)
unfolding content_from scan
content_defined_ranges bytes target = content_from (length bytes + 1) bytes (limits target) 0 0

pub chunk_ranges_for_bytes : Str → ℕ → List ℕ → Option (List Range)
unfolding content_defined_ranges fixed_ranges
chunk_ranges_for_bytes chunking chunk_size bytes =
    if str_eq chunking (codes "fastcdc")
    then content_defined_ranges bytes chunk_size
    else some (fixed_ranges (length bytes) chunk_size)
