-- ===== src/Large/Tests.antt =====
-- Runs of the chunkers and of the compression.
use mathlib.Core.List.{reverse, reverse-reverse}
use majutsu.Base.{ℕ, ◌≡◌, refl, true, some, List, [], ◌∷◌, arith}
use majutsu.Base.Text.{codes, str_eq, ends_with, strip_prefix}
use majutsu.Large.{Range, limits, fixed_ranges, chunk_ranges_for_bytes}
use majutsu.Large.Tiling.{Tiles, Sized}
use majutsu.Large.Content.{chunk_ranges_for_bytes-Tiles}
use majutsu.Large.Compress.{
  Zstd, CompressionInput, should_compress, glob_match, compress_whole, compress_chunk_if_useful,
  decode_large_chunk_payload, decode-compress_chunk_if_useful,
}

pub reversed :
    (bytes : List ℕ) {out : List ℕ}
    → some (reverse bytes) ≡ some out
    → some (reverse out) ≡ some bytes
reversed bytes h = ground (arith, reverse-reverse bytes)

abbrev pub zstd : Zstd
zstd = record {
  encode_all = λ bytes. some (reverse bytes);
  decode_all = λ bytes. some (reverse bytes);
  is_useful = λ original stored. true;
  decode-encode = λ bytes h. reversed bytes h;
}

abbrev pub compression : CompressionInput
compression = record {
  enabled = true;
  algorithm = codes "zstd";
  sample_bytes = 0;
  skip_extensions = codes "*.zip" ∷ [];
  file_name = codes "notes.txt";
}

ten_by_four : fixed_ranges 10 4 ≡ (0, 4) ∷ (4, 8) ∷ (8, 10) ∷ []
unfolding fixed_ranges
ten_by_four = refl

decode-compress_chunk_if_useful_example :
    decode_large_chunk_payload zstd (codes "zstd") (3 ∷ 2 ∷ 1 ∷ []) ≡ some (1 ∷ 2 ∷ 3 ∷ [])
unfolding compress_chunk_if_useful compress_whole should_compress str_eq glob_match strip_prefix
    ends_with
decode-compress_chunk_if_useful_example =
    decode-compress_chunk_if_useful zstd compression (1 ∷ 2 ∷ 3 ∷ [])
      {stored = record { bytes = 3 ∷ 2 ∷ 1 ∷ []; compression = codes "zstd" }} refl

chunk_ranges_for_bytes-Tiles_example :
    (rs : List Range) × (chunk_ranges_for_bytes (codes "fastcdc") 1 (7 ∷ 8 ∷ 9 ∷ []) ≡ some rs)
    × Tiles 0 3 rs
    × Sized (limits 1).smallest (limits 1).largest rs
unfolding str_eq
chunk_ranges_for_bytes-Tiles_example =
    chunk_ranges_for_bytes-Tiles (codes "fastcdc") 1 (7 ∷ 8 ∷ 9 ∷ []) (omega arith) (omega arith)
