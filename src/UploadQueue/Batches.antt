-- ===== src/UploadQueue/Batches.antt =====
-- What an upload, a batch of them and all batches do to the queue.
use majutsu.Base.{
  ℕ, zero, suc, ◌≡◌, refl, sym, ◌∙◌, ◌⊎◌, inl, inr, Bool, true, false, not, ◌&&◌, ◌||◌, List, [],
  ◌∷◌, ◌++◌, take, drop, arith, Bool-cases, Option-cases,
}
use majutsu.Base.Text.{Str, str_eq, str_eq_iff}
use majutsu.UploadQueue.{
  UploadQueueItem, Uploads, Remote, record_attempt, remove_file, write_item,
  queued_upload_can_be_skipped, payload, has_payload, failed, upload_queue_item, upload_batch,
  upload_batches,
}

-- Whether a file of that name is in the queue.
unfoldable pub is_queued : Str → List UploadQueueItem → Bool
is_queued id [] = false
is_queued id (item ∷ queue) = str_eq item.id id || is_queued id queue

is_queued-remove_file :
    (id j : Str) (queue : List UploadQueueItem)
    → is_queued j (remove_file id queue) ≡ (not (str_eq id j) && is_queued j queue)
unfolding is_queued remove_file
is_queued-remove_file id j [] = ground arith
is_queued-remove_file id j (item ∷ queue) = ground (
  arith,
  is_queued-remove_file id j queue,
  str_eq_iff item.id id,
  str_eq_iff item.id j,
  str_eq_iff id j,
)

is_queued-write_item :
    (item : UploadQueueItem) (j : Str) (queue : List UploadQueueItem)
    → is_queued j (write_item item queue) ≡ is_queued j queue
unfolding is_queued write_item
is_queued-write_item item j [] = refl
is_queued-write_item item j (other ∷ queue) = ground (
  arith,
  is_queued-write_item item j queue,
  str_eq_iff other.id item.id,
  str_eq_iff other.id j,
  str_eq_iff item.id j,
)

pub is_queued-append :
    (j : Str) (xs ys : List UploadQueueItem)
    → is_queued j (xs ++ ys) ≡ (is_queued j xs || is_queued j ys)
unfolding is_queued
is_queued-append j [] ys = refl
is_queued-append j (x ∷ xs) ys = ground (arith, is_queued-append j xs ys)

unfoldable pub items_of : List (List UploadQueueItem) → List UploadQueueItem
items_of [] = []
items_of (batch ∷ batches) = batch ++ items_of batches

pub take-append-drop : (n : ℕ) (items : List UploadQueueItem) → take n items ++ drop n items ≡ items
take-append-drop zero items = refl
take-append-drop (suc n) [] = refl
take-append-drop (suc n) (item ∷ items) = rw (take-append-drop n items)

-- An upload takes its own file away, when it succeeds, or none.
abbrev IsTaken : UploadQueueItem → Uploads → Bool × Uploads → Type 0
IsTaken item s (done, s') =
    ((done ≡ true)
      × ((j : Str) → is_queued j s'.queue ≡ (not (str_eq item.id j) && is_queued j s.queue)))
    ⊎ ((done ≡ false) × ((j : Str) → is_queued j s'.queue ≡ is_queued j s.queue))

module _ (remote : Remote) where
  failed-IsTaken :
      (item : UploadQueueItem) (s : Uploads) → IsTaken item s (false, failed remote item s)
  unfolding failed record_attempt
  failed-IsTaken item s =
      inr (refl, λ j. is_queued-write_item (record_attempt remote item) j s.queue)

  upload_queue_item-IsTaken :
      (item : UploadQueueItem) (s : Uploads) → IsTaken item s (upload_queue_item remote item s)
  unfolding upload_queue_item
  upload_queue_item-IsTaken item s =
      elim (Bool-cases (not item.overwrite && queued_upload_can_be_skipped remote item s.objects)) [
        | inl e ↦
            rw (e, upload_queue_item) (inl (refl, λ j. is_queued-remove_file item.id j s.queue))
        | inr e ↦ elim (Bool-cases (has_payload remote item)) [
          | inr e' ↦ rw (e, e', upload_queue_item) (inr (refl, λ j. refl))
          | inl e' ↦ elim (Option-cases (payload remote item)) [
            | inl e'' ↦ rw (e, e', e'', upload_queue_item) (failed-IsTaken item s)
            | inr (bytes, e'') ↦ elim (Bool-cases (remote.reaches item.key)) [
              | inl on ↦
                  rw (e, e', e'', on, upload_queue_item)
                    (inl (refl, λ j. is_queued-remove_file item.id j s.queue))
              | inr off ↦ rw (e, e', e'', off, upload_queue_item) (failed-IsTaken item s)
            ]
          ]
        ]
      ]

  -- A batch leaves the files of others, and none of its own when it succeeds.
  abbrev IsBatched : List UploadQueueItem → Uploads → Bool × Uploads → Type 0
  IsBatched items s (done, s') =
      ((j : Str) → is_queued j items ≡ false → is_queued j s'.queue ≡ is_queued j s.queue)
      × ((j : Str) → is_queued j s.queue ≡ false → is_queued j s'.queue ≡ false)
      × (done ≡ true → (j : Str) → is_queued j items ≡ true → is_queued j s'.queue ≡ false)

  upload_batch-IsBatched :
      (items : List UploadQueueItem) (s : Uploads) → IsBatched items s (upload_batch remote items s)
  unfolding upload_batch is_queued
  upload_batch-IsBatched [] s = ((λ j h. refl), (λ j h. h), (λ d j h. absurd (cc h)))
  upload_batch-IsBatched (item ∷ items) s =
      let s' = (upload_queue_item remote item s).1 in
      let (keep, gone, clear) = upload_batch-IsBatched items s' in
      elim (upload_queue_item-IsTaken item s) [
        | inl (done, own) ↦ (
          (λ j h. (let k = keep j in let o = own j in ground (arith, k, o, h))),
          (λ j h. (let k = gone j in let o = own j in ground (arith, k, o, h))),
          (λ d j h.
              (let k = gone j in
                let c = clear (ground (arith, d)) j in
                let o = own j in ground (arith, k, c, o, h))),
        )
        | inr (fail, own) ↦ (
          (λ j h. (let k = keep j in let o = own j in ground (arith, k, o, h))),
          (λ j h. (let k = gone j in let o = own j in ground (arith, k, o, h))),
          (λ d j h. absurd (ground (arith, d, fail))),
        )
      ]

  -- Batches one after the other, until one fails.
  upload_batches-IsBatched :
      (batches : List (List UploadQueueItem)) (s : Uploads)
      → IsBatched (items_of batches) s (upload_batches remote batches s)
  unfolding upload_batches is_queued items_of
  upload_batches-IsBatched [] s = ((λ j h. refl), (λ j h. h), (λ d j h. absurd (cc h)))
  upload_batches-IsBatched (batch ∷ batches) s =
      let s' = (upload_batch remote batch s).1 in
      let (keep, gone, clear) = upload_batch-IsBatched batch s in
      let (keep', gone', clear') = upload_batches-IsBatched batches s' in
      elim (Bool-cases (upload_batch remote batch s).0) [
        | inr e ↦
            rw (e, upload_batches)
              (
                (λ j h.
                    (let k = is_queued-append j batch (items_of batches) in
                      keep j (ground (arith, k, h)))),
                gone,
                (λ d j h. absurd (cc d)),
              )
        | inl e ↦
            rw (e, upload_batches)
              (
                (λ j h.
                    (let k = is_queued-append j batch (items_of batches) in
                      keep' j (ground (arith, k, h)) ∙ keep j (ground (arith, k, h)))),
                (λ j h. gone' j (gone j h)),
                (λ d j h.
                    (let k = is_queued-append j batch (items_of batches) in
                      elim (Bool-cases (is_queued j batch)) [
                        | inl b ↦ gone' j (clear e j b)
                        | inr b ↦ clear' d j (ground (arith, k, h, b))
                      ])),
              )
      ]

  -- What is in the first batches is done before anything of the others is touched.
  pub upload_batches-append :
      (early late : List (List UploadQueueItem)) (s : Uploads) (i j : Str)
      → is_queued i (items_of early) ≡ true
      → is_queued j (items_of early) ≡ false
      → is_queued j s.queue ≡ true
      → is_queued j (upload_batches remote (early ++ late) s).1.queue ≡ false
      → is_queued i (upload_batches remote (early ++ late) s).1.queue ≡ false
  unfolding upload_batches is_queued items_of
  upload_batches-append [] late s i j hi hj on off = absurd (cc hi)
  upload_batches-append (a ∷ early) late s i j hi hj on off =
      let s' = (upload_batch remote a s).1 in
      let (keep, gone, clear) = upload_batch-IsBatched a s in
      let ki = is_queued-append i a (items_of early) in
      let kj = is_queued-append j a (items_of early) in
      let still : is_queued j s'.queue ≡ true = keep j (ground (arith, kj, hj)) ∙ on in
      elim (Bool-cases (upload_batch remote a s).0) [
        | inr e ↦
            let off' : is_queued j s'.queue ≡ false = sym (rw (e, upload_batches)) ∙ off in
            absurd (cc (still, off'))
        | inl e ↦
            let off' : is_queued j (upload_batches remote (early ++ late) s').1.queue ≡ false =
              sym (rw (e, upload_batches)) ∙ off in
            rw (e, upload_batches)
              (elim (Bool-cases (is_queued i (items_of early))) [
                | inl later ↦
                    upload_batches-append early late s' i j later (ground (arith, kj, hj)) still
                      off'
                | inr here ↦
                    (upload_batches-IsBatched (early ++ late) s').1 i
                      (clear e i (ground (arith, ki, hi, here)))
              ])
      ]
