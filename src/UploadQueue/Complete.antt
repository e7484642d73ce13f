-- ===== src/UploadQueue/Complete.antt =====
-- A drain without an error has stored what was queued.
use mathlib.Core.Path.{subst}
use majutsu.Base.{
  ℕ, ◌≤◌, ◌≡◌, ◌==◌, inl, inr, Bool, true, not, ◌&&◌, ◌||◌, List, [], ◌∷◌, ◌++◌, any, filter, arith,
  All, All-append, Bool-cases, Option-cases,
}
use majutsu.Base.Text.{Str, str_eq_refl}
use majutsu.Base.Maps.{contains_key, bind}
use majutsu.RemoteKeys.{canonical_remote_aliases, is_content_addressed_remote_key}
use majutsu.UploadQueue.{
  UploadQueueItem, Uploads, Remote, upload_publish_priority, put, queued_upload_can_be_skipped,
  payload, has_payload, failed, upload_queue_item, upload_batch, upload_batches, batches_of,
  priority_group, drain_upload_queue,
}
use majutsu.UploadQueue.Batches.{items_of}
use majutsu.UploadQueue.Order.{batches_of-items, items_of-append, upload_publish_priority-bounds}

-- The store has the key of an item, or one of its aliases.
abbrev pub is_stored : Remote → UploadQueueItem → List (Str × List ℕ) → Bool
is_stored remote item objects =
    contains_key item.key objects
    || any (λ alias_. contains_key alias_ objects) (canonical_remote_aliases item.key)

-- No object is ever taken away.
abbrev IsGrown : List (Str × List ℕ) → List (Str × List ℕ) → Type 0
IsGrown old new = (k : Str) → contains_key k old ≡ true → contains_key k new ≡ true

any-grown :
    (old new : List (Str × List ℕ)) (ks : List Str)
    → IsGrown old new
    → any (λ k. contains_key k old) ks ≡ true
    → any (λ k. contains_key k new) ks ≡ true
any-grown old new [] g h = h
any-grown old new (k ∷ ks) g h = let one = g k in ground (arith, h, one, any-grown old new ks g)

module _ (remote : Remote) where
  is_stored-grown :
      (old new : List (Str × List ℕ)) (item : UploadQueueItem)
      → IsGrown old new
      → is_stored remote item old ≡ true
      → is_stored remote item new ≡ true
  is_stored-grown old new item g h =
      let one = g item.key in
      let others = any-grown old new (canonical_remote_aliases item.key) g in
      ground (arith, h, one, others)

  put-IsGrown :
      (if_absent : Bool) (key : Str) (bytes : List ℕ) (objects : List (Str × List ℕ))
      → IsGrown objects (put if_absent key bytes objects)
  unfolding put contains_key bind
  put-IsGrown if_absent key bytes objects k h = ground (arith, h)

  put-stored :
      (if_absent : Bool) (key : Str) (bytes : List ℕ) (objects : List (Str × List ℕ))
      → contains_key key (put if_absent key bytes objects) ≡ true
  unfolding put contains_key bind
  put-stored if_absent key bytes objects = ground (arith, str_eq_refl key)

  reached_alias :
      (objects : List (Str × List ℕ)) (ks : List Str)
      → any (λ k. remote.reaches k && contains_key k objects) ks ≡ true
      → any (λ k. contains_key k objects) ks ≡ true
  reached_alias objects [] h = h
  reached_alias objects (k ∷ ks) h = ground (arith, h, reached_alias objects ks)

  abbrev IsDone : List UploadQueueItem → Uploads → Bool × Uploads → Type 0
  IsDone items s (done, s') =
      IsGrown s.objects s'.objects
      × (done ≡ true → All (λ item. is_stored remote item s'.objects ≡ true) items)

  upload_queue_item-IsDone :
      (item : UploadQueueItem) (s : Uploads)
      → IsDone (item ∷ []) s (upload_queue_item remote item s)
  unfolding upload_queue_item queued_upload_can_be_skipped failed
  upload_queue_item-IsDone item s =
      elim (Bool-cases (not item.overwrite && queued_upload_can_be_skipped remote item s.objects)) [
        | inl e ↦
            let there = reached_alias s.objects (canonical_remote_aliases item.key) in
            rw (e, upload_queue_item) ((λ k h. h), (λ d. (ground (arith, e, there), tt)))
        | inr e ↦ elim (Bool-cases (has_payload remote item)) [
          | inr e' ↦ rw (e, e', upload_queue_item) ((λ k h. h), (λ d. absurd (cc d)))
          | inl e' ↦ elim (Option-cases (payload remote item)) [
            | inl e'' ↦ rw (e, e', e'', upload_queue_item) ((λ k h. h), (λ d. absurd (cc d)))
            | inr (bytes, e'') ↦
                let if_absent =
                  not item.overwrite
                  && is_content_addressed_remote_key item.key
                  && remote.conditional_put in
                elim (Bool-cases (remote.reaches item.key)) [
                  | inl on ↦
                      rw (e, e', e'', on, upload_queue_item)
                        (
                          put-IsGrown if_absent item.key bytes s.objects,
                          (λ d. (
                            (let stored = put-stored if_absent item.key bytes s.objects in
                                ground (arith, stored)),
                            tt,
                          )),
                        )
                  | inr off ↦
                      rw (e, e', e'', off, upload_queue_item) ((λ k h. h), (λ d. absurd (cc d)))
                ]
          ]
        ]
      ]

  All-is_stored-grown :
      (old new : List (Str × List ℕ)) (items : List UploadQueueItem)
      → IsGrown old new
      → All (λ item. is_stored remote item old ≡ true) items
      → All (λ item. is_stored remote item new ≡ true) items
  All-is_stored-grown old new [] g h = tt
  All-is_stored-grown old new (item ∷ items) g h =
      (is_stored-grown old new item g h.0, All-is_stored-grown old new items g h.1)

  upload_batch-IsDone :
      (items : List UploadQueueItem) (s : Uploads) → IsDone items s (upload_batch remote items s)
  unfolding upload_batch
  upload_batch-IsDone [] s = ((λ k h. h), (λ d. tt))
  upload_batch-IsDone (item ∷ items) s =
      let s' = (upload_queue_item remote item s).1 in
      let (grown, own) = upload_queue_item-IsDone item s in
      let (grown', others) = upload_batch-IsDone items s' in
      (
        (λ k h. grown' k (grown k h)),
        (λ d. (
          is_stored-grown s'.objects (upload_batch remote items s').1.objects item grown'
              (own (ground (arith, d))).0,
          others (ground (arith, d)),
        )),
      )

  upload_batches-IsDone :
      (batches : List (List UploadQueueItem)) (s : Uploads)
      → IsDone (items_of batches) s (upload_batches remote batches s)
  unfolding upload_batches items_of
  upload_batches-IsDone [] s = ((λ k h. h), (λ d. tt))
  upload_batches-IsDone (batch ∷ batches) s =
      let s' = (upload_batch remote batch s).1 in
      let (grown, own) = upload_batch-IsDone batch s in
      let (grown', others) = upload_batches-IsDone batches s' in
      elim (Bool-cases (upload_batch remote batch s).0) [
        | inr e ↦ rw (e, upload_batches) (grown, (λ d. absurd (cc d)))
        | inl e ↦
            rw (e, upload_batches)
              (
                (λ k h. grown' k (grown k h)),
                (λ d.
                    All-append
                      (λ item.
                        is_stored remote item (upload_batches remote batches s').1.objects ≡ true)
                      batch (items_of batches)
                      (All-is_stored-grown s'.objects (upload_batches remote batches s').1.objects
                        batch grown' (own e))
                      (others d)),
              )
      ]

-- The three groups are the queue.
abbrev groups : List UploadQueueItem → List UploadQueueItem
groups queue = priority_group 1 queue ++ (priority_group 2 queue ++ priority_group 3 queue)

All-split :
    (P : UploadQueueItem → Type 0) (xs ys : List UploadQueueItem)
    → All P (xs ++ ys)
    → All P xs × All P ys
All-split P [] ys h = (tt, h)
All-split P (x ∷ xs) ys h = let (a, b) = All-split P xs ys h.1 in ((h.0, a), b)

All-filter :
    (P : UploadQueueItem → Type 0) (f : UploadQueueItem → Bool) (item : UploadQueueItem)
    (items : List UploadQueueItem)
    → All P (filter f (item ∷ items))
    → (f item ≡ true → P item) × All P (filter f items)
All-filter P f item items h = elim (Bool-cases (f item)) [
  | inl e ↦ let h' : All P (item ∷ filter f items) = rw e at h in ((λ e'. h'.0), h'.1)
  | inr e ↦ let h' : All P (filter f items) = rw e at h in ((λ e'. absurd (cc (e, e'))), h')
]

All-of-groups :
    (P : UploadQueueItem → Type 0) (queue : List UploadQueueItem)
    → All P (priority_group 1 queue)
    → All P (priority_group 2 queue)
    → All P (priority_group 3 queue)
    → All P queue
unfolding priority_group
All-of-groups P [] a b c = tt
All-of-groups P (item ∷ queue) a b c =
    let is_in = λ (p : ℕ) (it : UploadQueueItem). upload_publish_priority it.key == p in
    let (a', as') = All-filter P (is_in 1) item queue a in
    let (b', bs') = All-filter P (is_in 2) item queue b in
    let (c', cs') = All-filter P (is_in 3) item queue c in
    let (low, high) = upload_publish_priority-bounds item.key in
    let own : P item = elim (Bool-cases (is_in 1 item)) [
      | inl e ↦ a' e
      | inr n ↦ elim (Bool-cases (is_in 2 item)) [
        | inl e ↦ b' e
        | inr n' ↦ c' (ground (arith, low, high, n, n'))
      ]
    ] in
    (own, All-of-groups P queue as' bs' cs')

-- A drain that ends without an error has stored every item of the queue: the store has an object under the
-- item's key, or under one of its aliases. Condition: at least one item to a batch.
pub drain_upload_queue_stores :
    (remote : Remote) (parallelism : ℕ) (s : Uploads)
    → 1 ≤ parallelism
    → (drain_upload_queue remote parallelism s).0 ≡ true
    → All
        (λ item. is_stored remote item (drain_upload_queue remote parallelism s).1.objects ≡ true)
        s.queue
unfolding drain_upload_queue
drain_upload_queue_stores remote n s some_worker done =
    let batches = batches_of n 1 s.queue ++ (batches_of n 2 s.queue ++ batches_of n 3 s.queue) in
    let P = λ (item : UploadQueueItem).
      is_stored remote item (upload_batches remote batches s).1.objects ≡ true in
    let all_ : All P (items_of batches) = (upload_batches-IsDone remote batches s).1 done in
    let e : items_of batches ≡ groups s.queue = rw (
      items_of-append (batches_of n 1 s.queue) (batches_of n 2 s.queue ++ batches_of n 3 s.queue),
      items_of-append (batches_of n 2 s.queue) (batches_of n 3 s.queue),
      batches_of-items n 1 s.queue some_worker,
      batches_of-items n 2 s.queue some_worker,
      batches_of-items n 3 s.queue some_worker,
    ) in
    let (a, rest) =
      All-split P (priority_group 1 s.queue) (priority_group 2 s.queue ++ priority_group 3 s.queue)
        (subst (All P) e all_) in
    let (b, c) = All-split P (priority_group 2 s.queue) (priority_group 3 s.queue) rest in
    All-of-groups P s.queue a b c
