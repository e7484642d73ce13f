-- ===== src/Cluster/Dependencies/Waiting.antt =====
-- What an item of the backend queue waits for, and what a round takes.
use majutsu.Base.{
  ℕ, zero, suc, ◌≤◌, ◌≡◌, ◌⊎◌, refl, ap, ◌∙◌, Bool, true, false, not, ◌&&◌, ◌||◌, Option, none,
  some, List, [], ◌∷◌, if◌then◌else◌, ltb, leb, any, filter, take, All, arith, inl, inr, Bool-cases,
}
use majutsu.Base.Text.{Str, str_eq, str_eq_iff}
use majutsu.Base.Sets.{mem}
use majutsu.Cluster.{BackendQueueItem}
use majutsu.Cluster.Dependencies.{
  Earliest, is_ref, is_metadata, backend_publish_priority, no_put, earlier, note, note_host,
  find_host, is_put, note_item, note_items, from_items, due, due_below, blocks_by, blocks,
  holds_back, is_retry_due, select_round,
}

backend_publish_priority_le : (key : Str) → backend_publish_priority key ≤ 3
unfolding backend_publish_priority
backend_publish_priority_le key = at (is_ref key) (is_metadata key)
  where
    at : (a b : Bool) → (if a then 3 else if b then 2 else 1) ≤ 3
    at a b = ground arith

due_below-note :
    (p k t u : ℕ) (e : Earliest)
    → p ≤ 3
    → k ≤ 3
    → due_below p t (note k u e) ≡ (due_below p t e || (ltb k p && leb u t))
unfolding due_below note due earlier
due_below-note p k t u e h h' = ground arith

note-no_put : (p k t u : ℕ) → p ≤ 3 → k ≤ 3 → due_below p t (note k u no_put) ≡ (ltb k p && leb u t)
unfolding due_below note due earlier
note-no_put p k t u h h' = ground arith

or_entry : Option Earliest → Earliest
or_entry none = no_put
or_entry (some e) = e

find_host-note_host :
    (h g : Str) (k t : ℕ) (m : List (Str × Earliest))
    → find_host h (note_host g k t m)
      ≡ (if str_eq g h then some (note k t (or_entry (find_host h m))) else find_host h m)
unfolding find_host note_host or_entry
find_host-note_host h g k t [] = refl
find_host-note_host h g k t ((j, e) ∷ m) =
    ground (arith, str_eq_iff j g, str_eq_iff j h, str_eq_iff g h, find_host-note_host h g k t m)

-- One more item in the index.
blocks-note :
    (item other : BackendQueueItem) (o : Option Earliest)
    → is_put other.operation ≡ true
    → str_eq other.source_host item.source_host ≡ true
    → blocks_by item
        (some (note (backend_publish_priority other.key) other.updated_at (or_entry o)))
      ≡ (blocks_by item o || holds_back item other)
unfolding blocks_by holds_back or_entry
blocks-note item other none p e = ground (
  arith,
  note-no_put (backend_publish_priority item.key) (backend_publish_priority other.key)
      item.updated_at other.updated_at,
  backend_publish_priority_le item.key,
  backend_publish_priority_le other.key,
)
blocks-note item other (some x) p e = ground (
  arith,
  due_below-note (backend_publish_priority item.key) (backend_publish_priority other.key)
      item.updated_at other.updated_at x,
  backend_publish_priority_le item.key,
  backend_publish_priority_le other.key,
)

holds_back_not :
    (item other : BackendQueueItem)
    → (is_put other.operation ≡ false) ⊎ (str_eq other.source_host item.source_host ≡ false)
    → holds_back item other ≡ false
unfolding holds_back
holds_back_not item other h = ground arith

or_false : (a b : Bool) → b ≡ false → a ≡ (a || b)
or_false a b h = ground arith

pick {ℓ} :
    {A : Type ℓ} (b : Bool) (x y : A) (c : Bool)
    → b ≡ c
    → (if b then x else y) ≡ (if c then x else y)
pick b x y c h = rw h

blocks-note_item :
    (item other : BackendQueueItem) (m : List (Str × Earliest))
    → blocks (note_item other m) item ≡ (blocks m item || holds_back item other)
unfolding blocks note_item
blocks-note_item item other m =
    let k = backend_publish_priority other.key in
    let noted = note_host other.source_host k other.updated_at m in
    let found = find_host-note_host item.source_host other.source_host k other.updated_at m in
    let o = find_host item.source_host m in
    let new = some (note k other.updated_at (or_entry o)) in
    let look = λ (l : List (Str × Earliest)). blocks_by item (find_host item.source_host l) in
    elim (Bool-cases (is_put other.operation)) [
      | inr p ↦
          ap look (pick (is_put other.operation) noted m false p)
          ∙ or_false (blocks_by item o) (holds_back item other) (holds_back_not item other (inl p))
      | inl p ↦
          ap look (pick (is_put other.operation) noted m true p)
          ∙ (ap (blocks_by item) found
              ∙ elim (Bool-cases (str_eq other.source_host item.source_host)) [
                | inl e ↦
                    ap (blocks_by item)
                      (pick (str_eq other.source_host item.source_host) new o true e)
                    ∙ blocks-note item other o p e
                | inr e ↦
                    ap (blocks_by item)
                      (pick (str_eq other.source_host item.source_host) new o false e)
                    ∙ or_false (blocks_by item o) (holds_back item other)
                        (holds_back_not item other (inr e))
              ])
    ]

blocks-note_items :
    (item : BackendQueueItem) (items : List BackendQueueItem) (m : List (Str × Earliest))
    → blocks (note_items items m) item ≡ (blocks m item || any (holds_back item) items)
unfolding note_items
blocks-note_items item [] m = ground arith
blocks-note_items item (other ∷ items) m =
    ground (arith, blocks-note_items item items (note_item other m), blocks-note_item item other m)

-- The index answers what a search of the queue would: an item waits exactly when the queue holds a put of its
-- host, for a put one of a lower priority whose time is no later.
pub blocks-from_items :
    (items : List BackendQueueItem) (item : BackendQueueItem)
    → blocks (from_items items) item ≡ any (holds_back item) items
unfolding from_items blocks blocks_by find_host
blocks-from_items items item = blocks-note_items item items [] ∙ refl

module _ {A : Type 0} where
  All-take : (P : A → Type 0) (n : ℕ) (xs : List A) → All P xs → All P (take n xs)
  All-take P zero xs h = tt
  All-take P (suc n) [] h = tt
  All-take P (suc n) (x ∷ xs) h = (h.0, All-take P n xs h.1)

  -- What is left of a filter has its test, beside what held before.
  All-filter :
      (P : A → Type 0) (p : A → Bool) (xs : List A)
      → All P xs
      → All (λ x. P x × (p x ≡ true)) (filter p xs)
  All-filter P p [] h = tt
  All-filter P p (x ∷ xs) h = elim (Bool-cases (p x)) [
    | inl e ↦ rw e ((h.0, e), All-filter P p xs h.1)
    | inr e ↦ rw e (All-filter P p xs h.1)
  ]

  All-of : (P Q : A → Type 0) (xs : List A) → ((x : A) → P x → Q x) → All P xs → All Q xs
  All-of P Q [] f h = tt
  All-of P Q (x ∷ xs) f h = (f x h.0, All-of P Q xs f h.1)

  All-unit : (xs : List A) → All (λ _. Unit {0}) xs
  All-unit [] = tt
  All-unit (x ∷ xs) = (tt, All-unit xs)

-- What is taken: nothing that the queue holds back, no deletion of a host that had a put when the drain
-- began, and nothing before the time of its retry unless the drain is forced.
abbrev pub IsReady : Bool → ℕ → List Str → List BackendQueueItem → BackendQueueItem → Type 0
IsReady force now hosts queued item =
    (any (holds_back item) queued ≡ false)
    × ((is_put item.operation || not (mem item.source_host hosts)) ≡ true)
    × ((force || is_retry_due now item.retry_after) ≡ true)

-- A round of a drain takes nothing out of turn: for every item that it takes, the queue of the round holds no
-- put of the same host that is in its way (for a put, one of a lower priority whose time is no later; for a
-- deletion, any), a deletion is not of a host that had a put when the drain began, and the time of its next
-- attempt has come, unless the drain is forced.
pub select_round-IsReady :
    (force : Bool) (now count : ℕ) (hosts : List Str) (queued : List BackendQueueItem)
    → All (IsReady force now hosts queued) (select_round force now count hosts queued)
unfolding select_round
select_round-IsReady force now count hosts queued =
    let free = λ (item : BackendQueueItem). not (blocks (from_items queued) item) in
    let allowed =
      λ (item : BackendQueueItem). is_put item.operation || not (mem item.source_host hosts) in
    let timely = λ (item : BackendQueueItem). force || is_retry_due now item.retry_after in
    let P : BackendQueueItem → Type 0 = λ item. Unit {0} × (free item ≡ true) in
    let Q : BackendQueueItem → Type 0 = λ item. P item × (allowed item ≡ true) in
    let R : BackendQueueItem → Type 0 = λ item. Q item × (timely item ≡ true) in
    let taken = All-take R count _ (
      All-filter Q timely _
        (All-filter P allowed _ (All-filter (λ _. Unit {0}) free queued (All-unit queued)))) in
    All-of R (IsReady force now hosts queued) _ (λ item h. (not_blocked item h.0.0.1, h.0.1, h.1))
      taken
  where
    not_blocked :
        (item : BackendQueueItem)
        → not (blocks (from_items queued) item) ≡ true
        → any (holds_back item) queued ≡ false
    not_blocked item h = ground (arith, h, blocks-from_items queued item)
