-- ===== src/RemoteKeys/Tests.antt =====
-- Remote keys of a pack index and of two hosts.
use majutsu.Base.{arith, ◌≢◌, ◌≡◌, ◌⊎◌, refl, false, some}
use majutsu.Base.Text.{Str, codes, strip_prefix, has_char}
use majutsu.RemoteKeys.{strip_suffix, pack_index_stem, canonical_remote_alias, host_remote_key}
use majutsu.RemoteKeys.Aliases.{IsOneIndex, canonical_remote_alias_injective}
use majutsu.RemoteKeys.Hosts.{host_remote_key_apart}

abbrev json_key : Str
json_key = codes "objects/indexes/pack/p1.json"

abbrev plain_key : Str
plain_key = codes "objects/indexes/pack/p1"

abbrev index_alias : Str
index_alias = codes "indexes/pack-index/p1.cbor.zst.enc"

json_alias : canonical_remote_alias json_key ≡ some index_alias
unfolding canonical_remote_alias strip_prefix pack_index_stem strip_suffix
json_alias = refl

plain_alias : canonical_remote_alias plain_key ≡ some index_alias
unfolding canonical_remote_alias strip_prefix pack_index_stem strip_suffix
plain_alias = refl

canonical_remote_alias_injective_example : (json_key ≡ plain_key) ⊎ IsOneIndex json_key plain_key
canonical_remote_alias_injective_example =
    canonical_remote_alias_injective json_key plain_key index_alias json_alias plain_alias

no_slash : (has_char b'/' (codes "ab") ≡ false) × (has_char b'/' (codes "cd") ≡ false)
unfolding has_char
no_slash = (refl, refl)

not_one : codes "ab" ≢ codes "cd"
not_one e = ground (arith, e)

host_remote_key_apart_example :
    (host_remote_key (codes "ab") (codes "refs/x")
      ≢ host_remote_key (codes "cd") (codes "ab/refs/x"))
    × (host_remote_key (codes "ab") (host_remote_key (codes "ab") (codes "refs/x"))
        ≡ host_remote_key (codes "ab") (codes "refs/x"))
host_remote_key_apart_example =
    host_remote_key_apart (codes "ab") (codes "cd") (codes "refs/x") (codes "ab/refs/x") no_slash.0
      no_slash.1 not_one
