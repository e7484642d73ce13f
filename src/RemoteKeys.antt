-- ===== src/RemoteKeys.antt =====
-- The keys of objects in a remote store: `canonical_remote_alias` and the keys of a host of
-- crates/majutsu-store/src/lib.rs, and `prefer_canonical_remote_only` of src/object_paths.rs.
pub mod Aliases
pub mod Hosts
mod Tests
use Prim.Native.String.{String}
use mathlib.Core.List.{reverse}
use majutsu.Base.{
  ◌≡◌, Bool, true, false, ◌||◌, Option, none, some, List, [], ◌∷◌, ◌++◌, if◌then◌else◌,
}
use majutsu.Base.Text.{Str, codes, str_eq, starts_with, strip_prefix}

unfoldable pub strip_suffix : Str → Str → Option Str
unfolding strip_prefix
strip_suffix p s = elim (strip_prefix (reverse p) (reverse s)) [
  | none ↦ none
  | some rest ↦ some (reverse rest)
]

-- `rest.strip_suffix(".json").unwrap_or(rest)`.
pub pack_index_stem : Str → Str
unfolding strip_suffix
pack_index_stem rest = elim (strip_suffix (codes ".json") rest) [ none ↦ rest | some stem ↦ stem ]

abbrev format : String → Str → String → Option Str
format before rest after = some (codes before ++ (rest ++ codes after))

-- An `if let` of the chain.
abbrev pub if_let : Option Str → (Str → Option Str) → Option Str → Option Str
if_let none f rest = rest
if_let (some a) f rest = f a

pub canonical_remote_alias : Str → Option Str
unfolding strip_prefix
canonical_remote_alias key =
    if_let (strip_prefix (codes "objects/trees/") key)
      (λ rest. format "trees/" rest ".cbor.zst.enc")
      (if_let (strip_prefix (codes "objects/blobs/") key)
        (λ rest. format "blobs/loose/" rest ".blob.enc")
        (if_let (strip_prefix (codes "objects/packs/small/") key)
          (λ rest. format "packs/small/" rest "")
          (if_let (strip_prefix (codes "objects/packs/normal/") key)
            (λ rest. format "packs/normal/" rest "")
            (if_let (strip_prefix (codes "objects/indexes/pack/") key)
              (λ rest. format "indexes/pack-index/" (pack_index_stem rest) ".cbor.zst.enc")
              (if_let (strip_prefix (codes "objects/large/manifests/") key)
                (λ rest. format "large/manifests/" rest ".cbor.zst.enc")
                (if_let (strip_prefix (codes "objects/large/chunks/fixed/") key)
                  (λ rest. format "large/chunks/fixed-8m/" rest ".chunk.enc")
                  (if_let (strip_prefix (codes "objects/large/chunks/fastcdc/") key)
                    (λ rest. format "large/chunks/fastcdc/" rest ".chunk.enc") none)))))))

pub canonical_remote_aliases : Str → List Str
unfolding canonical_remote_alias
canonical_remote_aliases key = elim (canonical_remote_alias key) [
  | none ↦ []
  | some alias_ ↦ if str_eq alias_ key then [] else alias_ ∷ []
]

pub is_content_addressed_remote_key : Str → Bool
unfolding starts_with
is_content_addressed_remote_key key =
    starts_with (codes "objects/") key
    || starts_with (codes "trees/") key
    || starts_with (codes "blobs/loose/") key
    || starts_with (codes "packs/") key
    || starts_with (codes "indexes/pack-index/") key
    || starts_with (codes "large/") key

unfoldable pub prefer_canonical_remote_only : Str → Bool
unfolding starts_with
prefer_canonical_remote_only key =
    starts_with (codes "objects/large/chunks/fixed/") key
    || starts_with (codes "objects/large/chunks/fastcdc/") key

pub host_remote_key : Str → Str → Str
unfolding starts_with
host_remote_key host_id key =
    if starts_with (host_id ++ codes "/") key then key else host_id ++ (codes "/" ++ key)
