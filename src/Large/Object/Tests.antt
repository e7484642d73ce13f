-- ===== src/Large/Object/Tests.antt =====
-- A platform on which all that the store relies on holds, and a file stored on it. The toy hash
-- writes every byte as a letter of its own, and the toy ciphers and the toy compressor are invertible.
use mathlib.Core.List.{reverse}
use majutsu.Base.{ℕ, ◌+◌, ◌≡◌, ◌≢◌, refl, true, false, some, List, [], ◌∷◌, ◌++◌, map, arith}
use majutsu.Base.Text.{Str, ends_with, codes, str_eq, has_char, starts_with, split, strip_prefix}
use majutsu.Base.Maps.{lookup, contains_key}
use majutsu.ObjectKey.{slash, backslash, is_unsafe_part, validate_local_object_key}
use majutsu.Crypto.{
  plain, age, enabled, encode_object, decode_object, decode_legacy_envelope,
  decode_legacy_envelope_with_key_hex, encode_legacy_envelope, encode_legacy_envelope_with_key_hex,
}
use majutsu.Crypto.Envelope.{object_envelope}
use majutsu.Crypto.Tests.{ciphers, keys, nonce, ciphers-IsLawful}
use majutsu.Crypto.RoundTrip.{OpensOwn}
use majutsu.Large.{chunk_ranges_for_bytes}
use majutsu.Large.Compress.{
  StoredLargeChunk, should_compress, glob_match, compress_chunk_if_useful, compress_whole,
}
use majutsu.Large.Tests.{zstd, compression}
use majutsu.Large.Object.{
  LargeChunk, LargeManifest, Home, Platform, LargeConfig, object_path, store_chunk,
  store_large_bytes_buffered, read_large_chunk, write_large_chunks,
}
use majutsu.Large.Object.Stored.{
  IsReliable, IsConsistent, IsStorable, AllStorable, write-store_large_bytes,
}
use majutsu.Large.Object.Reuse.{read-store_chunk_reused}

abbrev letters : List ℕ → Str
letters bytes = map (λ b. b + 100) bytes

pub plain_own : plain ≡ age → OpensOwn ciphers-IsLawful.to_public keys
plain_own e = absurd (cc e)

abbrev pub platform : Platform
platform = record {
  hash = λ bytes. codes "hhx" ++ letters bytes;
  storage_id = λ oid. oid;
  zstd = zstd;
  envelope = object_envelope ciphers keys ciphers-IsLawful plain nonce refl plain_own;
}

abbrev pub config : LargeConfig
config = record {
  default_chunking = codes "fixed";
  chunk_size = 2;
  compression = compression;
  reuse_remote_chunks = false;
  rebuild_missing = false;
}

abbrev pub empty_home : Home
empty_home = record { files = []; chunks = [] }

letters_injective : (a b : List ℕ) → letters a ≡ letters b → a ≡ b
letters_injective [] [] h = refl
letters_injective [] (y ∷ ys) h = cc
letters_injective (x ∷ xs) [] h = cc
letters_injective (x ∷ xs) (y ∷ ys) h = ground (arith, letters_injective xs ys)

no_backslash : (bytes : List ℕ) → has_char backslash (letters bytes) ≡ false
unfolding has_char
no_backslash [] = refl
no_backslash (b ∷ bytes) = ground (arith, no_backslash bytes)

one_part : (bytes : List ℕ) → split slash (letters bytes) ≡ letters bytes ∷ []
unfolding split
one_part [] = refl
one_part (b ∷ bytes) = rw (one_part bytes) (ground arith)

abbrev key_of : List ℕ → Str
key_of bytes = codes "objects/large/chunks/fixed/hh/x" ++ letters bytes

key_of_valid : (bytes : List ℕ) → validate_local_object_key (key_of bytes) ≡ true
unfolding validate_local_object_key has_char starts_with split is_unsafe_part str_eq
key_of_valid bytes = ground (arith, no_backslash bytes, one_part bytes)

path_of_letters :
    (bytes : List ℕ) → object_path platform config (platform.hash bytes) ≡ some (key_of bytes)
unfolding object_path str_eq
path_of_letters bytes = ground arith

compressed :
    (bytes : List ℕ)
    → (s : StoredLargeChunk) × (compress_chunk_if_useful zstd compression bytes ≡ some s)
unfolding compress_chunk_if_useful compress_whole should_compress glob_match str_eq ends_with
compressed bytes = (record { bytes = reverse bytes; compression = codes "zstd" }, ground arith)

enveloped : (bytes : List ℕ) → (e : List ℕ) × (platform.envelope.encode bytes ≡ some e)
unfolding object_envelope encode_object encode_legacy_envelope encode_legacy_envelope_with_key_hex
enveloped bytes = (_, refl)

pub platform-IsReliable : IsReliable platform config
platform-IsReliable = record {
  compresses = compressed;
  encodes = enveloped;
  hash_injective = λ a b h. letters_injective a b (ground (arith, h));
  path_valid = λ b. (key_of b, path_of_letters b, key_of_valid b);
  path_injective =
      λ a b path h h'. letters_injective a b (ground (arith, path_of_letters a, path_of_letters b));
}

pub empty_home-IsConsistent : IsConsistent platform config empty_home
unfolding lookup contains_key
empty_home-IsConsistent = record {
  filed = λ b path there h. absurd (ground (arith, h));
  rowed = λ b key h. absurd (ground (arith, h));
}

IsStorable-as :
    (b : List ℕ) (s : StoredLargeChunk)
    → compress_chunk_if_useful zstd compression b ≡ some s
    → platform.envelope.is_storable s.bytes ≡ true
    → IsStorable platform config b
IsStorable-as b s made h other made' = let e : s ≡ other = cc (made, made') in rw (← e) h

hello_ranges :
    chunk_ranges_for_bytes (codes "fixed") 2 (codes "hello") ≡ some ((0, 2) ∷ (2, 4) ∷ (4, 5) ∷ [])
unfolding chunk_ranges_for_bytes str_eq
hello_ranges = refl

compressed_to : List ℕ → StoredLargeChunk
compressed_to b = record { bytes = reverse b; compression = codes "zstd" }

-- The stored forms of the chunks are `eh`, `ll` and `o`.
hello_chunks :
    IsStorable platform config (codes "he")
    × (IsStorable platform config (codes "ll")
        × (IsStorable platform config (codes "o") × Unit {0}))
unfolding compress_chunk_if_useful compress_whole should_compress glob_match str_eq ends_with
    object_envelope starts_with enabled compressed_to
hello_chunks = (
  IsStorable-as (codes "he") (compressed_to (codes "he")) refl refl,
  (
    IsStorable-as (codes "ll") (compressed_to (codes "ll")) refl refl,
    (IsStorable-as (codes "o") (compressed_to (codes "o")) refl refl, tt),
  ),
)

pub hello-AllStorable : AllStorable platform config (codes "hello")
hello-AllStorable ranges h =
    let e : (0, 2) ∷ (2, 4) ∷ (4, 5) ∷ [] ≡ ranges = cc (hello_ranges, h) in rw (← e) hello_chunks

write-store_large_bytes_example :
    (m : LargeManifest) × (home' : Home) × (store_large_bytes_buffered platform config empty_home
        (codes "hello")
      ≡ some (m, home'))
    × IsConsistent platform config home'
    × (m.size ≡ 5)
    × (write_large_chunks platform home' m.chunks ≡ some (codes "hello"))
write-store_large_bytes_example =
    write-store_large_bytes platform config empty_home (codes "hello") platform-IsReliable
      empty_home-IsConsistent hello-AllStorable (omega arith) (omega arith)

-- The same content in a file that is not to be compressed, stored behind its compressed form.
abbrev raw_config : LargeConfig
raw_config = record config { compression = record compression { file_name = codes "a.zip" } }

abbrev pub hi_key : Str
hi_key = codes "objects/large/chunks/fixed/hh/xhi"

abbrev pub hi_home : Home
hi_home = record {
  files = (hi_key, codes "ih") ∷ [];
  chunks = (codes "hhx" ++ letters (codes "hi"), hi_key) ∷ [];
}

hi_skipped : should_compress true (codes "zstd") (codes "*.zip" ∷ []) (codes "a.zip") ≡ false
unfolding should_compress glob_match str_eq ends_with starts_with strip_prefix
hi_skipped = refl

hi_known : lookup (platform.hash (codes "hi")) hi_home.chunks ≡ some hi_key
unfolding lookup str_eq
hi_known = refl

hi_found : lookup hi_key hi_home.files ≡ some (codes "ih")
unfolding lookup str_eq
hi_found = refl

hi_valid : validate_local_object_key hi_key ≡ true
unfolding validate_local_object_key has_char starts_with split is_unsafe_part str_eq
hi_valid = refl

hi_opened : platform.envelope.decode (codes "ih") ≡ some (codes "ih")
unfolding object_envelope decode_object decode_legacy_envelope decode_legacy_envelope_with_key_hex
    starts_with
hi_opened = refl

read-store_chunk_reused_example :
    (c : LargeChunk) × (home' : Home) × (store_chunk platform raw_config hi_home 0 0 (codes "hi")
      ≡ some (c, home'))
    × (read_large_chunk platform home' c ≡ some (codes "ih"))
    × (read_large_chunk platform home' c ≢ some (codes "hi"))
read-store_chunk_reused_example =
    read-store_chunk_reused platform raw_config hi_home 0 0 (codes "hi") (codes "ih") (codes "ih")
      hi_key hi_skipped hi_known hi_found hi_valid hi_opened (λ e. ground (arith, e))
