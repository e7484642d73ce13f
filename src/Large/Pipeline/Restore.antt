-- ===== src/Large/Pipeline/Restore.antt =====
-- The parallel restore of the chunks of the object store.
use majutsu.Base.{
  ℕ, zero, suc, ◌≤◌, ◌<◌, ◌≡◌, ◌≢◌, refl, sym, ap, ◌∙◌, inl, inr, Option, none, some, List, [], ◌∷◌,
  ◌++◌, append-nil, append_assoc, length, arith, Option-cases, true,
}
use majutsu.Large.{get_elem?}
use majutsu.Large.Object.{LargeChunk, Platform, Home, read_large_chunk, write_large_chunks}
use majutsu.Large.Pipeline.{Pipeline, closed, initial, Step, Steps}
use majutsu.Large.Pipeline.Output.{joined, Steps-IsFaithful}
use majutsu.Large.Pipeline.Whole.{Steps-whole}

-- The same chunks, the first before the others.
joined_right : (ℕ → Option (List ℕ)) → ℕ → Option (List ℕ)
joined_right read zero = some []
joined_right read (suc k) = elim (read 0) [
  | none ↦ none
  | some bytes ↦ elim (joined_right (λ i. read (suc i)) k) [
    | none ↦ none
    | some rest ↦ some (bytes ++ rest)
  ]
]

-- One more at the end, of `joined_right`.
joined_right-last :
    (k : ℕ) (read : ℕ → Option (List ℕ))
    → joined_right read (suc k) ≡ elim (joined_right read k) [
      | none ↦ none
      | some bytes ↦ elim (read k) [ none ↦ none | some more ↦ some (bytes ++ more) ]
    ]
unfolding joined_right
joined_right-last zero read = elim (Option-cases (read 0)) [
  | inl e ↦ rw (e, joined_right)
  | inr (bytes, e) ↦ rw (e, joined_right, append-nil)
]
joined_right-last (suc k) read = elim (Option-cases (read 0)) [
  | inl e ↦ rw (e, joined_right)
  | inr (bytes, e) ↦
      rw (e, joined_right, joined_right-last k (λ i. read (suc i)))
        (elim (Option-cases (joined_right (λ i. read (suc i)) k)) [
          | inl e' ↦ rw e'
          | inr (rest, e') ↦ rw e' (elim (Option-cases (read (suc k))) [
            | inl e'' ↦ rw e''
            | inr (more, e'') ↦ rw (e'', append_assoc)
          ])
        ])
]

joined-joined_right : (read : ℕ → Option (List ℕ)) (k : ℕ) → joined read k ≡ joined_right read k
unfolding joined joined_right
joined-joined_right read zero = refl
joined-joined_right read (suc k) =
    sym (joined_right-last k read ∙ rw (sym (joined-joined_right read k)) refl)

module _ (p : Platform) (home : Home) where
  -- `chunks.get(next)`, and what the worker then reads.
  unfoldable pub read_at : List LargeChunk → ℕ → Option (List ℕ)
  read_at chunks i = elim (get_elem? chunks i) [
    | none ↦ none
    | some chunk ↦ read_large_chunk p home chunk
  ]

  joined_right-read_at :
      (chunks : List LargeChunk)
      → joined_right (read_at chunks) (length chunks) ≡ write_large_chunks p home chunks
  unfolding joined_right read_at write_large_chunks
  joined_right-read_at [] = refl
  joined_right-read_at (chunk ∷ chunks) = elim (Option-cases (read_large_chunk p home chunk)) [
    | inl e ↦ rw (e, joined_right)
    | inr (bytes, e) ↦
        rw (e, joined_right, joined_right-read_at chunks)
          (elim (Option-cases (write_large_chunks p home chunks)) [
            | inl e' ↦ rw e'
            | inr (rest, e') ↦ rw e'
          ])
  ]

  -- When the whole is read, so is each chunk.
  write_large_chunks-parts :
      (chunk : LargeChunk) (chunks : List LargeChunk) (whole : List ℕ)
      → write_large_chunks p home (chunk ∷ chunks) ≡ some whole
      → (read_large_chunk p home chunk ≢ none)
        × ((rest : List ℕ) × (write_large_chunks p home chunks ≡ some rest))
  unfolding write_large_chunks
  write_large_chunks-parts chunk chunks whole h =
      elim (Option-cases (read_large_chunk p home chunk)) [
        | inl e ↦
            absurd (let h' : none ≡ some whole = sym (rw (e, write_large_chunks)) ∙ h in cc h')
        | inr (bytes, e) ↦ elim (Option-cases (write_large_chunks p home chunks)) [
          | inl e' ↦
              absurd
                (let h' : none ≡ some whole = sym (rw (e, write_large_chunks, e')) ∙ h in cc h')
          | inr (rest, e') ↦ ((λ gone. cc (e, gone)), (rest, e'))
        ]
      ]

  read_at-fine :
      (chunks : List LargeChunk) (whole : List ℕ)
      → write_large_chunks p home chunks ≡ some whole
      → (i : ℕ) → i < length chunks
      → read_at chunks i ≢ none
  unfolding read_at
  read_at-fine [] whole h i less = absurd (omega (arith, less))
  read_at-fine (chunk ∷ chunks) whole h zero less =
      (write_large_chunks-parts chunk chunks whole h).0
  read_at-fine (chunk ∷ chunks) whole h (suc i) less =
      let (one, (rest, e)) = write_large_chunks-parts chunk chunks whole h in
      read_at-fine chunks rest e i (omega (arith, less))

-- The parallel restore writes what the serial one does: in whatever order the workers take, read and
-- send the chunks, and the receiver takes them, when it has closed the file as written then the bytes
-- are those of the chunks read one after the other.
pub write-Steps :
    (p : Platform) (home : Home) (chunks : List LargeChunk) (capacity parallelism k : ℕ)
    (t : Pipeline)
    → Steps (read_at p home chunks) (length chunks) capacity (initial parallelism) k t
    → t.receiver ≡ closed true
    → write_large_chunks p home chunks ≡ some t.out
write-Steps p home chunks capacity parallelism k t steps done =
    let read = read_at p home chunks in
    let f = Steps-IsFaithful read (length chunks) capacity parallelism k t steps in
    sym (joined_right-read_at p home chunks)
    ∙ sym (joined-joined_right read (length chunks))
    ∙ ap (joined read) (sym (f.whole done))
    ∙ f.written

-- No parallel restore is stuck half-way: when every chunk can be read, with one worker at least and
-- room for one message at least, every run that can go no further has closed the file as written, and
-- the bytes are the whole.
pub Steps-write :
    (p : Platform) (home : Home) (chunks : List LargeChunk) (whole : List ℕ)
    (capacity parallelism k : ℕ) (t : Pipeline)
    → write_large_chunks p home chunks ≡ some whole
    → 1 ≤ capacity
    → 1 ≤ parallelism
    → Steps (read_at p home chunks) (length chunks) capacity (initial parallelism) k t
    → ((u : Pipeline) → ¬ Step (read_at p home chunks) (length chunks) capacity t u)
    → (t.receiver ≡ closed true) × (t.out ≡ whole)
Steps-write p home chunks whole capacity parallelism k t h room some_worker steps stuck =
    let done =
      Steps-whole (read_at p home chunks) (length chunks) capacity
        (read_at-fine p home chunks whole h) parallelism k t some_worker room steps stuck in
    let e = write-Steps p home chunks capacity parallelism k t steps done in (done, cc (h, e))
