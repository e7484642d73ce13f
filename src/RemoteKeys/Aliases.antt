-- ===== src/RemoteKeys/Aliases.antt =====
-- No two objects share a remote alias, but for the two names of a pack index.
use mathlib.Core.Path.{subst}
use majutsu.Base.{
  ◌≡◌, ◌⊎◌, inl, inr, refl, sym, ap, ◌∙◌, Option, none, some, [], ◌∷◌, ◌++◌, if◌then◌else◌, arith,
  length, length-append, take, take-append, Option-cases,
}
use majutsu.Base.Text.{Str, codes, starts_with, strip_prefix, strip_prefix_sound}
use majutsu.RemoteKeys.{pack_index_stem, if_let, canonical_remote_alias}

-- The kinds of objects that have an alias.
data Kind : Type 0 where
  tree blob small_pack normal_pack pack_index manifest fixed_chunk fastcdc_chunk : Kind

abbrev from : Kind → Str
from tree = codes "objects/trees/"
from blob = codes "objects/blobs/"
from small_pack = codes "objects/packs/small/"
from normal_pack = codes "objects/packs/normal/"
from pack_index = codes "objects/indexes/pack/"
from manifest = codes "objects/large/manifests/"
from fixed_chunk = codes "objects/large/chunks/fixed/"
from fastcdc_chunk = codes "objects/large/chunks/fastcdc/"

abbrev to : Kind → Str
to tree = codes "trees/"
to blob = codes "blobs/loose/"
to small_pack = codes "packs/small/"
to normal_pack = codes "packs/normal/"
to pack_index = codes "indexes/pack-index/"
to manifest = codes "large/manifests/"
to fixed_chunk = codes "large/chunks/fixed-8m/"
to fastcdc_chunk = codes "large/chunks/fastcdc/"

abbrev suffix : Kind → Str
suffix tree = codes ".cbor.zst.enc"
suffix blob = codes ".blob.enc"
suffix small_pack = []
suffix normal_pack = []
suffix pack_index = codes ".cbor.zst.enc"
suffix manifest = codes ".cbor.zst.enc"
suffix fixed_chunk = codes ".chunk.enc"
suffix fastcdc_chunk = codes ".chunk.enc"

abbrev stem : Kind → Str → Str
stem pack_index rest = pack_index_stem rest
stem tree rest = rest
stem blob rest = rest
stem small_pack rest = rest
stem normal_pack rest = rest
stem manifest rest = rest
stem fixed_chunk rest = rest
stem fastcdc_chunk rest = rest

-- What an alias tells of its key.
abbrev IsAlias : Str → Str → Type 0
IsAlias key a =
    (k : Kind) × (rest : Str) × (key ≡ from k ++ rest) × (a ≡ to k ++ (stem k rest ++ suffix k))

-- One link of the chain.
if_let-IsAlias :
    (k : Kind) (key a : Str) (rest : Option Str)
    → (rest ≡ some a → IsAlias key a)
    → if_let (strip_prefix (from k) key) (λ r. some (to k ++ (stem k r ++ suffix k))) rest ≡ some a
    → IsAlias key a
if_let-IsAlias k key a rest next h = elim (Option-cases (strip_prefix (from k) key)) [
  | inl e ↦ next (sym (rw e) ∙ h)
  | inr (r, e) ↦
      let h' : some (to k ++ (stem k r ++ suffix k)) ≡ some a = sym (rw e) ∙ h in
      (k, r, strip_prefix_sound (from k) key r e, cc h')
]

canonical_remote_alias-IsAlias : (key a : Str) → canonical_remote_alias key ≡ some a → IsAlias key a
unfolding canonical_remote_alias
canonical_remote_alias-IsAlias key a h =
    if_let-IsAlias tree key a _
      (if_let-IsAlias blob key a _ (
        if_let-IsAlias small_pack key a _ (
          if_let-IsAlias normal_pack key a _ (
            if_let-IsAlias pack_index key a _ (
              if_let-IsAlias manifest key a _ (
                if_let-IsAlias fixed_chunk key a _
                  (if_let-IsAlias fastcdc_chunk key a none (λ e. absurd (cc e)))))))))
      h

-- The kind that the front of an alias tells.
kind_of : Str → Kind
unfolding starts_with
kind_of a =
    if starts_with (codes "trees/") a
    then tree
    else if starts_with (codes "blobs/loose/") a
    then blob
    else if starts_with (codes "packs/small/") a
    then small_pack
    else if starts_with (codes "packs/normal/") a
    then normal_pack
    else if starts_with (codes "indexes/pack-index/") a
    then pack_index
    else if starts_with (codes "large/manifests/") a
    then manifest
    else if starts_with (codes "large/chunks/fixed-8m/") a
    then fixed_chunk
    else fastcdc_chunk

kind_of-to : (k : Kind) (s : Str) → kind_of (to k ++ s) ≡ k
unfolding kind_of starts_with
kind_of-to tree s = refl
kind_of-to blob s = refl
kind_of-to small_pack s = refl
kind_of-to normal_pack s = refl
kind_of-to pack_index s = refl
kind_of-to manifest s = refl
kind_of-to fixed_chunk s = refl
kind_of-to fastcdc_chunk s = refl

cancel_left : (p s t : Str) → p ++ s ≡ p ++ t → s ≡ t
cancel_left [] s t h = h
cancel_left (c ∷ p) s t h = cancel_left p s t (cc h)

cancel_right : (s t u : Str) → s ++ u ≡ t ++ u → s ≡ t
cancel_right s t u h =
    let long : length (s ++ u) ≡ length (t ++ u) = ap length h in
    let same : length s ≡ length t = omega (arith, long, length-append s u, length-append t u) in
    sym (take-append s u)
    ∙ (ap (λ xs. take (length s) xs) h ∙ (ap (λ n. take n (t ++ u)) same ∙ take-append t u))

-- Two names of one pack index, of which one may end in `.json`.
abbrev pub IsOneIndex : Str → Str → Type 0
IsOneIndex key other =
    (r : Str) × (r' : Str) × (key ≡ codes "objects/indexes/pack/" ++ r)
    × (other ≡ codes "objects/indexes/pack/" ++ r')
    × (pack_index_stem r ≡ pack_index_stem r')

same_stem :
    (k : Kind) (key other r r' : Str)
    → key ≡ from k ++ r
    → other ≡ from k ++ r'
    → stem k r ≡ stem k r'
    → (key ≡ other) ⊎ IsOneIndex key other
same_stem pack_index key other r r' e e' h = inr (r, r', e, e', h)
same_stem tree key other r r' e e' h = inl (cc (e, e', h))
same_stem blob key other r r' e e' h = inl (cc (e, e', h))
same_stem small_pack key other r r' e e' h = inl (cc (e, e', h))
same_stem normal_pack key other r r' e e' h = inl (cc (e, e', h))
same_stem manifest key other r r' e e' h = inl (cc (e, e', h))
same_stem fixed_chunk key other r r' e e' h = inl (cc (e, e', h))
same_stem fastcdc_chunk key other r r' e e' h = inl (cc (e, e', h))

-- Different objects have different remote aliases: when two keys have one alias, they are one key, or the
-- keys of one pack index with and without `.json`.
pub canonical_remote_alias_injective :
    (key other a : Str)
    → canonical_remote_alias key ≡ some a
    → canonical_remote_alias other ≡ some a
    → (key ≡ other) ⊎ IsOneIndex key other
canonical_remote_alias_injective key other a h h' =
    let (k, r, e, ea) = canonical_remote_alias-IsAlias key a h in
    let (k', r', e', ea') = canonical_remote_alias-IsAlias other a h' in
    let one : k ≡ k' =
      sym (kind_of-to k (stem k r ++ suffix k))
      ∙ (ap kind_of (sym ea ∙ ea') ∙ kind_of-to k' (stem k' r' ++ suffix k')) in
    let d : other ≡ from k ++ r' = subst (λ m. other ≡ from m ++ r') (sym one) e' in
    let da : a ≡ to k ++ (stem k r' ++ suffix k) =
      subst (λ m. a ≡ to m ++ (stem m r' ++ suffix m)) (sym one) ea' in
    same_stem k key other r r' e d (
      cancel_right (stem k r) (stem k r') (suffix k)
        (cancel_left (to k) (stem k r ++ suffix k) (stem k r' ++ suffix k) (sym ea ∙ da)))
