-- ===== src/UploadQueue/Order.antt =====
-- In which order a drain empties the queue.
use mathlib.Core.Path.{subst}
use majutsu.Base.{
  ℕ, zero, suc, ◌≤◌, ◌<◌, ◌≡◌, ◌≢◌, ◌==◌, refl, sym, ap, ◌∙◌, inl, inr, Bool, true, false, List, [],
  ◌∷◌, ◌++◌, if◌then◌else◌, drop, length, arith, Bool-cases, length-drop, append_assoc,
}
use majutsu.Base.Text.{Str, str_eq, str_eq_iff}
use majutsu.UploadQueue.{
  UploadQueueItem, Uploads, Remote, is_ref_key, is_head_key, is_metadata_key,
  upload_publish_priority, upload_batches, chunks, priority_group, batches_of, drain_upload_queue,
}
use majutsu.UploadQueue.Batches.{
  is_queued, is_queued-append, items_of, take-append-drop, upload_batches-append,
}

-- The items of all batches are those of the group.
items_of-chunks :
    (fuel n : ℕ) (items : List UploadQueueItem)
    → 1 ≤ n
    → length items ≤ fuel
    → items_of (chunks fuel n items) ≡ items
unfolding chunks items_of
items_of-chunks zero n [] h enough = refl
items_of-chunks zero n (item ∷ items) h enough = absurd (omega (arith, enough))
items_of-chunks (suc fuel) n [] h enough = refl
items_of-chunks (suc fuel) (suc n) (item ∷ items) h enough =
    let rest =
      items_of-chunks fuel (suc n) (drop n items) h
        (let k = length-drop n items in omega (arith, enough, k)) in
    rw (rest, take-append-drop n items)
items_of-chunks (suc fuel) zero (item ∷ items) h enough = absurd (omega (arith, h))

-- The names of the files of a queue are different.
abbrev pub IsDistinct : List UploadQueueItem → Type 0
IsDistinct [] = Unit
IsDistinct (item ∷ queue) = (is_queued item.id queue ≡ false) × IsDistinct queue

group-queued :
    (j : Str) (p : ℕ) (queue : List UploadQueueItem)
    → is_queued j (priority_group p queue) ≡ true
    → is_queued j queue ≡ true
unfolding is_queued priority_group
group-queued j p [] h = h
group-queued j p (item ∷ queue) h = ground (arith, h, group-queued j p queue)

-- A file has one priority.
one_group :
    (j : Str) (p q : ℕ) (queue : List UploadQueueItem)
    → IsDistinct queue
    → is_queued j (priority_group p queue) ≡ true
    → is_queued j (priority_group q queue) ≡ true
    → p ≡ q
unfolding is_queued priority_group
one_group j p q [] d hp hq = absurd (cc hp)
one_group j p q (item ∷ queue) d hp hq =
    let up = group-queued j p queue in
    let uq = group-queued j q queue in
    let own = d.0 in
    let rest = one_group j p q queue d.1 in
    elim (Bool-cases (str_eq item.id j)) [
      | inl e ↦
          let e' = (str_eq_iff item.id j).0 e in
          let own' : is_queued j queue ≡ false = sym (ap (λ k. is_queued k queue) e') ∙ own in
          ground (arith, hp, hq, up, uq, own')
      | inr e ↦ ground (arith, hp, hq, rest, e)
    ]

bounds :
    (a b c : Bool) (x : ℕ)
    → x ≡ (if a then 3 else if b then 3 else if c then 2 else 1)
    → (1 ≤ x) × (x ≤ 3)
bounds a b c x h = (ground (arith, h), ground (arith, h))

pub upload_publish_priority-bounds :
    (key : Str) → (1 ≤ upload_publish_priority key) × (upload_publish_priority key ≤ 3)
unfolding upload_publish_priority
upload_publish_priority-bounds key =
    bounds (is_ref_key key) (is_head_key key) (is_metadata_key key) (upload_publish_priority key)
      refl

group-bounds :
    (j : Str) (p : ℕ) (queue : List UploadQueueItem)
    → is_queued j (priority_group p queue) ≡ true
    → (1 ≤ p) × (p ≤ 3)
unfolding is_queued priority_group
group-bounds j p [] h = absurd (cc h)
group-bounds j p (item ∷ queue) h =
    let rest = group-bounds j p queue in
    let own = upload_publish_priority-bounds item.key in
    elim (Bool-cases (upload_publish_priority item.key == p)) [
      | inl e ↦ (ground (arith, own.0, e), ground (arith, own.1, e))
      | inr e ↦ rest (ground (arith, h, e))
    ]

pub batches_of-items :
    (n p : ℕ) (queue : List UploadQueueItem)
    → 1 ≤ n
    → items_of (batches_of n p queue) ≡ priority_group p queue
unfolding batches_of
batches_of-items n p queue h =
    items_of-chunks (length (priority_group p queue)) n (priority_group p queue) h (omega arith)

pub items_of-append :
    (xs ys : List (List UploadQueueItem)) → items_of (xs ++ ys) ≡ items_of xs ++ items_of ys
unfolding items_of
items_of-append [] ys = refl
items_of-append (x ∷ xs) ys = rw (items_of-append xs ys, append_assoc)

-- What is published last never comes early: when a drain has taken a file of one priority out of the
-- queue, then every file of a lower number, which goes first, is out of it too, whichever uploads fail.
-- Conditions: the files of the queue have different names, and a batch at least one item.
pub drain_upload_queue_in_order :
    (remote : Remote) (parallelism : ℕ) (s : Uploads) (i j : Str) (p q : ℕ)
    → 1 ≤ parallelism
    → IsDistinct s.queue
    → p < q
    → is_queued i (priority_group p s.queue) ≡ true
    → is_queued j (priority_group q s.queue) ≡ true
    → is_queued j (drain_upload_queue remote parallelism s).1.queue ≡ false
    → is_queued i (drain_upload_queue remote parallelism s).1.queue ≡ false
unfolding drain_upload_queue
drain_upload_queue_in_order remote n s i j p q some_worker distinct less hi hj off =
    let own : (k : ℕ) → p ≡ k → is_queued i (items_of (batches_of n k s.queue)) ≡ true = λ k e.
      ap (is_queued i) (batches_of-items n k s.queue some_worker)
      ∙ (ap (λ m. is_queued i (priority_group m s.queue)) (sym e) ∙ hi) in
    let other : (k : ℕ) → q ≢ k → is_queued j (items_of (batches_of n k s.queue)) ≡ false =
      λ k ne. ap (is_queued j) (batches_of-items n k s.queue some_worker) ∙ absent k ne in
    let on = group-queued j q s.queue hj in
    let (low, high) = group-bounds i p s.queue hi in
    let (low', high') = group-bounds j q s.queue hj in
    elim (Bool-cases (p == 1)) [
      | inl first ↦
          let e : p ≡ 1 = ground (arith, first) in
          let ne : q ≢ 1 = λ k. omega (arith, k, e, less) in
          upload_batches-append remote (batches_of n 1 s.queue)
            (batches_of n 2 s.queue ++ batches_of n 3 s.queue) s i j (own 1 e) (other 1 ne) on off
      | inr later ↦
          let e : p ≡ 2 = ground (arith, later, low, less, high') in
          let ne : q ≢ 1 = λ k. omega (arith, k, e, less) in
          let ne' : q ≢ 2 = λ k. omega (arith, k, e, less) in
          let early = batches_of n 1 s.queue ++ batches_of n 2 s.queue in
          let parts = items_of-append (batches_of n 1 s.queue) (batches_of n 2 s.queue) in
          let split : batches_of n 1 s.queue ++ (batches_of n 2 s.queue ++ batches_of n 3 s.queue)
              ≡ early ++ batches_of n 3 s.queue =
            sym (
              append_assoc (batches_of n 1 s.queue) (batches_of n 2 s.queue)
                (batches_of n 3 s.queue)) in
          let ki =
            is_queued-append i (items_of (batches_of n 1 s.queue))
              (items_of (batches_of n 2 s.queue)) in
          let kj =
            is_queued-append j (items_of (batches_of n 1 s.queue))
              (items_of (batches_of n 2 s.queue)) in
          let oi = own 2 e in
          let o1 = other 1 ne in
          let o2 = other 2 ne' in
          let at_i : is_queued i (items_of early) ≡ true =
            ap (is_queued i) parts ∙ ground (arith, ki, oi) in
          let at_j : is_queued j (items_of early) ≡ false =
            ap (is_queued j) parts ∙ ground (arith, kj, o1, o2) in
          subst (λ b. is_queued i (upload_batches remote b s).1.queue ≡ false) (sym split)
            (upload_batches-append remote early (batches_of n 3 s.queue) s i j at_i at_j on
              (subst (λ b. is_queued j (upload_batches remote b s).1.queue ≡ false) split off))
    ]
  where
    absent : (k : ℕ) → q ≢ k → is_queued j (priority_group k s.queue) ≡ false
    absent k ne = elim (Bool-cases (is_queued j (priority_group k s.queue))) [
      | inr e ↦ e
      | inl e ↦ absurd (ne (one_group j q k s.queue distinct hj e))
    ]
