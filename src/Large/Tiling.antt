-- ===== src/Large/Tiling.antt =====
-- What it means that ranges cut an interval into consecutive chunks, and that the chunks of a
-- byte string put together again are the byte string.
use mathlib.Core.List.{flat_map}
use majutsu.Base.{
  ℕ, ◌+◌, ◌-◌, ◌≤◌, ◌<◌, ◌≡◌, ◌⊎◌, inl, inr, List, [], ◌∷◌, arith, length, take, drop,
  take-append-take-drop, drop-drop, take_all, drop,
}
use majutsu.Large.{Range}

-- The ranges are non-empty, start at `a`, follow one another without gap or overlap, and end at `b`.
abbrev pub Tiles : ℕ → ℕ → List Range → Type 0
Tiles a b [] = a ≡ b
Tiles a b ((s, e) ∷ rest) = (s ≡ a) × (s < e) × Tiles e b rest

-- No range is longer than `hi`, and none but the last is shorter than `lo`.
abbrev pub Sized : ℕ → ℕ → List Range → Type 0
Sized lo hi [] = Unit
Sized lo hi ((s, e) ∷ []) = e - s ≤ hi
Sized lo hi ((s, e) ∷ (r ∷ rest)) = (lo ≤ e - s) × (e - s ≤ hi) × Sized lo hi (r ∷ rest)

-- `&bytes[start..end]`.
abbrev pub slice {ℓ} : {A : Type ℓ} → List A → Range → List A
slice bytes (s, e) = take (e - s) (drop s bytes)

pub Tiles-le : (a b : ℕ) (rs : List Range) → Tiles a b rs → a ≤ b
Tiles-le a b [] h = omega arith
Tiles-le a b ((s, e) ∷ rest) h = omega (arith, Tiles-le e b rest h.2)

-- The chunks from `a` to `b`, one after the other, are the bytes from `a` to `b`.
slices_of_Tiles {ℓ} :
    {A : Type ℓ} (xs : List A) (a b : ℕ) (rs : List Range)
    → Tiles a b rs
    → flat_map (slice xs) rs ≡ take (b - a) (drop a xs)
unfolding flat_map
slices_of_Tiles xs a b [] h = let e : b - a ≡ 0 = omega arith in rw e
slices_of_Tiles xs a b ((s, e) ∷ rest) h =
    let piece = slices_of_Tiles xs e b rest h.2 in
    let here : s + (e - s) ≡ e = omega arith in
    let whole : (e - s) + (b - e) ≡ b - a = omega (arith, Tiles-le e b rest h.2) in
    let joined = take-append-take-drop (e - s) (b - e) (drop s xs) in
    let skipped = drop-drop s (e - s) xs in cc (piece, here, whole, joined, skipped, h.0)

-- Chunks that tile a whole byte string, put together again, are the byte string.
pub slices_of_whole {ℓ} :
    {A : Type ℓ} (xs : List A) (rs : List Range)
    → Tiles 0 (length xs) rs
    → flat_map (slice xs) rs ≡ xs
slices_of_whole xs rs h =
    let e : length xs - 0 ≡ length xs = omega arith in
    cc (slices_of_Tiles xs 0 (length xs) rs h, e, take_all xs (length xs) (omega arith))

-- A chunk in front of a tiling: it may be short only if it reaches the end.
pub Sized-cons :
    (lo hi s e b : ℕ) (rest : List Range)
    → Tiles e b rest
    → Sized lo hi rest
    → e - s ≤ hi
    → (e ≡ b) ⊎ (lo ≤ e - s)
    → Sized lo hi ((s, e) ∷ rest)
Sized-cons lo hi s e b [] t z h k = h
Sized-cons lo hi s e b ((s', e') ∷ rest) t z h k =
    let below = Tiles-le e' b rest t.2 in
    (elim k [ inl reached ↦ absurd (omega (arith, below)) | inr long ↦ long ], h, z)
