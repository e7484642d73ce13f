-- ===== src/Large/Compress.antt =====
-- Compression of a chunk: `compress_chunk_if_useful`, `should_compress` and `glob_match` of
-- crates/majutsu-large/src/lib.rs, and `decode_large_chunk_payload` of src/main.rs. `zstd` is a
-- parameter, and so is the comparison of the floating-point gain with the configured ratio.
use mathlib.Core.List.{reverse}
use majutsu.Base.{
  ℕ, ◌≡◌, refl, Bool, true, not, ◌&&◌, Option, none, some, List, ◌++◌, arith, min, ltb,
  if◌then◌else◌, length, take, any, Option-cases, inl, inr,
}
use majutsu.Base.Text.{Str, codes, str_eq, strip_prefix, starts_with, ends_with}

strip_suffix : Str → Str → Option Str
unfolding strip_prefix
strip_suffix p s = elim (strip_prefix (reverse p) (reverse s)) [
  | none ↦ none
  | some r ↦ some (reverse r)
]

unfoldable pub glob_match : Str → Str → Bool
unfolding strip_prefix strip_suffix
glob_match pattern name =
    if str_eq pattern (codes "*") then true else elim (strip_prefix (codes "*.") pattern) [
      | some suffix ↦ ends_with (codes "." ++ suffix) name
      | none ↦ elim (strip_suffix (codes "*") pattern) [
        | some prefix ↦ starts_with prefix name
        | none ↦ str_eq pattern name
      ]
    ]

unfoldable pub should_compress : Bool → Str → List Str → Str → Bool
should_compress enabled algorithm skip_extensions file_name =
    enabled
    && str_eq algorithm (codes "zstd")
    && not (any (λ pattern. glob_match pattern file_name) skip_extensions)

pub record StoredLargeChunk : Type 0 where
  pub bytes : List ℕ
  pub compression : Str

pub record CompressionInput : Type 0 where
  pub enabled : Bool
  pub algorithm : Str
  pub sample_bytes : ℕ
  pub skip_extensions : List Str
  pub file_name : Str

-- `encode_all` and `decode_all` of the crate `zstd` at the configured level, and the test
-- `compression_gain(original, stored) >= min_gain_ratio`, for a ratio that is a number.
pub record Zstd : Type 0 where
  pub encode_all : List ℕ → Option (List ℕ)
  pub decode_all : List ℕ → Option (List ℕ)
  pub is_useful : ℕ → ℕ → Bool
  pub decode-encode :
      (bytes : List ℕ) {out : List ℕ} → encode_all bytes ≡ some out → decode_all out ≡ some bytes

module _ (z : Zstd) where
  abbrev uncompressed : List ℕ → StoredLargeChunk
  uncompressed bytes = record { bytes = bytes; compression = codes "none" }

  -- The decision on the whole chunk.
  unfoldable pub compress_whole : List ℕ → Option StoredLargeChunk
  compress_whole bytes = elim (z.encode_all bytes) [
    | none ↦ none
    | some compressed ↦ some (
        if z.is_useful (length bytes) (length compressed)
        then record { bytes = compressed; compression = codes "zstd" }
        else uncompressed bytes)
  ]

  unfoldable pub compress_chunk_if_useful : CompressionInput → List ℕ → Option StoredLargeChunk
  compress_chunk_if_useful i bytes =
      let sample_len = min i.sample_bytes (length bytes) in
      let sample = take sample_len bytes in
      if not (should_compress i.enabled i.algorithm i.skip_extensions i.file_name)
      then some (uncompressed bytes)
      else if ltb 0 sample_len && ltb sample_len (length bytes)
      then elim (z.encode_all sample) [
        | none ↦ none
        | some compressed ↦
            if z.is_useful (length sample) (length compressed)
            then compress_whole bytes
            else some (uncompressed bytes)
      ]
      else compress_whole bytes

  unfoldable pub decode_large_chunk_payload : Str → List ℕ → Option (List ℕ)
  decode_large_chunk_payload compression bytes =
      if str_eq compression (codes "none")
      then some bytes
      else if str_eq compression (codes "zstd")
      then z.decode_all bytes
      else none

  decode_uncompressed :
      (bytes : List ℕ)
      → decode_large_chunk_payload (uncompressed bytes).compression (uncompressed bytes).bytes
        ≡ some bytes
  unfolding decode_large_chunk_payload str_eq
  decode_uncompressed bytes = refl

  compress_whole-decode :
      (bytes : List ℕ) {stored : StoredLargeChunk}
      → compress_whole bytes ≡ some stored
      → decode_large_chunk_payload stored.compression stored.bytes ≡ some bytes
  unfolding compress_whole decode_large_chunk_payload str_eq
  compress_whole-decode bytes {stored} h = elim (Option-cases (z.encode_all bytes)) [
    | inl failed ↦ absurd (ground arith)
    | inr (out, done) ↦ ground (arith, z.decode-encode bytes done)
  ]

  -- A stored chunk, decoded by the compression recorded with it, is the chunk, on every path of the
  -- decision: skipped by name or configuration, skipped after the sample, kept or dropped.
  pub decode-compress_chunk_if_useful :
      (i : CompressionInput) (bytes : List ℕ) {stored : StoredLargeChunk}
      → compress_chunk_if_useful i bytes ≡ some stored
      → decode_large_chunk_payload stored.compression stored.bytes ≡ some bytes
  unfolding compress_chunk_if_useful
  decode-compress_chunk_if_useful i bytes {stored} h =
      ground (arith, compress_whole-decode bytes {stored = stored}, decode_uncompressed bytes)
