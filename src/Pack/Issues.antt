-- ===== src/Pack/Issues.antt =====
-- A pack without issues: what its index and its object then hold.
use mathlib.Core.Path.{subst}
use majutsu.Base.{
  sym, ap, ◌∙◌, ℕ, ◌+◌, ◌^◌, ◌≤◌, ◌<◌, ◌≡◌, ◌↔◌, refl, true, ◌||◌, Option, none, some, List, [],
  ◌∷◌, ◌++◌, length, All, arith, Option-cases, Bool-cases, inl, inr,
}
use majutsu.Base.Text.{Str, str_eq}
use majutsu.Base.Sets.{mem, insert, mem-insert}
use majutsu.Pack.{
  PackEntry, PackIndex, PackExport, PackedBlobMetadata, find_blob, is_some_of, entry_issues,
  blob_issues, pack_index_issues, checked_add, is_beyond, range_issues, pack_object_issues,
}

-- The blob lies in the first `size` bytes.
abbrev pub InBounds : ℕ → PackedBlobMetadata → Type 0
InBounds size blob =
    (offset : ℕ) × (len : ℕ) × (blob.pack_offset ≡ some offset)
    × (blob.pack_len ≡ some len)
    × (offset + len ≤ size)

range_issues_none :
    (pack : PackExport) (actual_size : ℕ) (blobs : List PackedBlobMetadata)
    → range_issues pack actual_size blobs ≡ []
    → All (InBounds actual_size) blobs
unfolding range_issues checked_add is_beyond
range_issues_none pack actual_size [] h = tt
range_issues_none pack actual_size (blob ∷ blobs) h = elim (Option-cases blob.pack_offset) [
  | inl missing ↦ absurd (ground arith)
  | inr (offset, at) ↦ elim (Option-cases blob.pack_len) [
    | inl missing ↦ absurd (ground arith)
    | inr (len, long) ↦
        let rest : range_issues pack actual_size blobs ≡ [] = ground arith in
        let fits : offset + len ≤ actual_size = ground arith in
        ((offset, len, at, long, fits), range_issues_none pack actual_size blobs rest)
  ]
]

range_issues_nil :
    (pack : PackExport) (actual_size : ℕ) (blobs : List PackedBlobMetadata)
    → pack.size < 2 ^ 64
    → actual_size ≡ pack.size
    → All (InBounds actual_size) blobs
    → range_issues pack actual_size blobs ≡ []
unfolding range_issues checked_add is_beyond
range_issues_nil pack actual_size [] small e h = refl
range_issues_nil pack actual_size (blob ∷ blobs) small e ((offset, len, at, long, fits), others) =
    rw (at, long) (ground (arith, range_issues_nil pack actual_size blobs small e others))

-- The index has the entry that the blob describes.
abbrev Located : List PackedBlobMetadata → PackEntry → Type 0
Located blobs entry =
    (blob : PackedBlobMetadata) × (find_blob entry.oid blobs ≡ some blob)
    × (blob.pack_offset ≡ some entry.offset)
    × (blob.pack_len ≡ some entry.len)

is_some_of_lem : (o : Option ℕ) (n : ℕ) → is_some_of o n ≡ true → o ≡ some n
unfolding is_some_of
is_some_of_lem none n h = cc
is_some_of_lem (some m) n h = ground arith

abbrev pub oids : List PackEntry → List Str
oids [] = []
oids (entry ∷ entries) = entry.oid ∷ oids entries

-- Without issues every entry is located, and the set has gained the oids of the entries.
entry_issues_none :
    (blobs : List PackedBlobMetadata) (entries : List PackEntry) (seen : List Str)
    → (entry_issues blobs entries seen).1 ≡ []
    → All (Located blobs) entries
      × ((oid : Str)
          → mem oid (entry_issues blobs entries seen).0 ≡ (mem oid seen || mem oid (oids entries)))
unfolding entry_issues mem
entry_issues_none blobs [] seen h = (tt, λ oid. ground arith)
entry_issues_none blobs (entry ∷ entries) seen h = elim (Option-cases (find_blob entry.oid blobs)) [
  | inl missing ↦ absurd (ground arith)
  | inr (blob, found) ↦
      let issues = (entry_issues blobs entries (insert entry.oid seen)).1 in
      let rest : issues ≡ [] = ground arith in
      let (others, gained) = entry_issues_none blobs entries (insert entry.oid seen) rest in
      let same : (entry_issues blobs (entry ∷ entries) seen).0
          ≡ (entry_issues blobs entries (insert entry.oid seen)).0 =
        rw (found, entry_issues) in
      let at : is_some_of blob.pack_offset entry.offset ≡ true = ground arith in
      let long : is_some_of blob.pack_len entry.len ≡ true = ground arith in
      (
        (
          (
            blob,
            found,
            is_some_of_lem blob.pack_offset entry.offset at,
            is_some_of_lem blob.pack_len entry.len long,
          ),
          others,
        ),
        λ oid. ap (mem oid) same ∙ ground (arith, gained oid, mem-insert entry.oid oid seen),
      )
]

blob_issues_none :
    (seen : List Str) (blobs : List PackedBlobMetadata)
    → blob_issues seen blobs ≡ []
    → All (λ blob. mem blob.oid seen ≡ true) blobs
unfolding blob_issues
blob_issues_none seen [] h = tt
blob_issues_none seen (blob ∷ blobs) h =
    let rest : blob_issues seen blobs ≡ [] = ground arith in
    (ground arith, blob_issues_none seen blobs rest)

find_blob-All :
    (P : PackedBlobMetadata → Type 0) (oid : Str) (blobs : List PackedBlobMetadata)
    (blob : PackedBlobMetadata)
    → All P blobs
    → find_blob oid blobs ≡ some blob
    → P blob
unfolding find_blob
find_blob-All P oid [] blob h found = cc
find_blob-All P oid (b ∷ blobs) blob h found = elim (Bool-cases (str_eq b.oid oid)) [
  | inl same ↦
      let e : some b ≡ some blob = sym (rw same) ∙ found in
      let e' : b ≡ blob = cc e in subst P e' h.0
  | inr other ↦
      let later : find_blob oid blobs ≡ some blob = sym (rw other) ∙ found in
      find_blob-All P oid blobs blob h.1 later
]

-- The object check reports nothing exactly when the object has the recorded size and every blob
-- has an offset and a length inside it. Condition: a size below 2 ^ 64.
pub pack_object_issues_none :
    (pack : PackExport) (actual_size : ℕ) (blobs : List PackedBlobMetadata)
    → pack.size < 2 ^ 64
    → (pack_object_issues pack actual_size blobs ≡ [])
      ↔ ((actual_size ≡ pack.size) × All (InBounds actual_size) blobs)
unfolding pack_object_issues
pack_object_issues_none pack actual_size blobs small = (
  (λ h.
      let e : actual_size ≡ pack.size = ground arith in
      let none_ : range_issues pack actual_size blobs ≡ [] = ground arith in
      (e, range_issues_none pack actual_size blobs none_)),
  λ (e, inside). ground (arith, range_issues_nil pack actual_size blobs small e inside),
)

both_empty {ℓ} : {A : Type ℓ} (xs ys : List A) → xs ++ ys ≡ [] → (xs ≡ []) × (ys ≡ [])
both_empty [] ys h = (refl, h)
both_empty (x ∷ xs) ys h = cc

All-map {ℓ κ κ'} :
    {A : Type ℓ} (P : A → Type κ) (Q : A → Type κ') (f : (a : A) → P a → Q a) (xs : List A)
    → All P xs
    → All Q xs
All-map P Q f [] h = tt
All-map P Q f (x ∷ xs) h = (f x h.0, All-map P Q f xs h.1)

entry_fits :
    (size : ℕ) (blobs : List PackedBlobMetadata) (entry : PackEntry)
    → All (InBounds size) blobs
    → Located blobs entry
    → entry.offset + entry.len ≤ size
entry_fits size blobs entry inside (blob, found, at, long) =
    let (offset, len, at', long', fits) =
      find_blob-All (InBounds size) entry.oid blobs blob inside found in
    let e : offset ≡ entry.offset = cc (at, at') in
    let e' : len ≡ entry.len = cc (long, long') in omega arith

-- A pack whose two checks report nothing can be read by its index: every entry of the index lies
-- inside the object, every blob of the database has an entry, and there are as many of both.
pub pack_issues_none :
    (pack : PackExport) (index : PackIndex) (actual_size : ℕ) (blobs : List PackedBlobMetadata)
    → pack_index_issues pack index blobs ≡ []
    → pack_object_issues pack actual_size blobs ≡ []
    → All (λ entry. entry.offset + entry.len ≤ actual_size) index.entries
      × All (λ blob. mem blob.oid (oids index.entries) ≡ true) blobs
      × (length index.entries ≡ length blobs)
unfolding pack_index_issues pack_object_issues mem
pack_issues_none pack index actual_size blobs h h' =
    let seen = (entry_issues blobs index.entries []).0 in
    let issues = (entry_issues blobs index.entries []).1 in
    let same : length index.entries ≡ length blobs = ground arith in
    let none_ : issues ++ blob_issues seen blobs ≡ [] = ground arith in
    let (first, second) = both_empty issues (blob_issues seen blobs) none_ in
    let (located, gained) = entry_issues_none blobs index.entries [] first in
    let ranged : range_issues pack actual_size blobs ≡ [] = ground arith in
    let inside = range_issues_none pack actual_size blobs ranged in
    (
      All-map (Located blobs) (λ entry. entry.offset + entry.len ≤ actual_size)
          (λ entry l. entry_fits actual_size blobs entry inside l) index.entries located,
      All-map (λ blob. mem blob.oid seen ≡ true) (λ blob. mem blob.oid (oids index.entries) ≡ true)
          (λ blob m. sym (gained blob.oid) ∙ m) blobs (blob_issues_none seen blobs second),
      same,
    )
