-- ===== src/Large/Pipeline/Cover.antt =====
-- Where each chunk that a worker has taken is: with the worker, in the channel, kept, or written.
use majutsu.Base.{
  ℕ, zero, suc, ◌+◌, ◌*◌, ◌≤◌, ◌<◌, ◌≡◌, refl, ap, ◌∙◌, inl, inr, true, Option, none, some, List,
  [], ◌∷◌, ◌++◌, ◌==◌, ltb, if◌then◌else◌, length, all, arith, Bool-cases, Option-cases,
}
use majutsu.Large.Pipeline.{
  Worker, idle, stopped, reading, holding, Pipeline, is_stopped, message, find_pending,
  remove_pending, insert_pending, drain, receive,
}
use majutsu.Large.Pipeline.Progress.{total}

unfoldable pub same : ℕ → ℕ → ℕ
same i j = if i == j then 1 else 0

unfoldable pub below : ℕ → ℕ → ℕ
below i n = if ltb i n then 1 else 0

unfoldable pub present : Option (List ℕ) → ℕ
present none = 0
present (some bytes) = 1

unfoldable pub carries : ℕ → Worker → ℕ
carries i idle = 0
carries i stopped = 0
carries i (reading j) = same i j
carries i (holding j result) = same i j

unfoldable pub in_channel : ℕ → List (Option (ℕ × List ℕ)) → ℕ
in_channel i [] = 0
in_channel i (none ∷ channel) = in_channel i channel
in_channel i (some (j, bytes) ∷ channel) = same i j + in_channel i channel

-- The places of chunk `i` that the receiver has, and all of them.
abbrev pub received : ℕ → Pipeline → ℕ
received i s = below i s.next_write + present (find_pending i s.pending)

abbrev pub places : ℕ → Pipeline → ℕ
places i s = received i s + (in_channel i s.channel + total (carries i) s.workers)

in_channel-append :
    (i : ℕ) (xs ys : List (Option (ℕ × List ℕ)))
    → in_channel i (xs ++ ys) ≡ in_channel i xs + in_channel i ys
unfolding in_channel
in_channel-append i [] ys = omega arith
in_channel-append i (none ∷ xs) ys = in_channel-append i xs ys
in_channel-append i (some (j, bytes) ∷ xs) ys = omega (arith, in_channel-append i xs ys)

find_pending-remove_pending :
    (i j : ℕ) (pending : List (ℕ × List ℕ))
    → present (find_pending i (remove_pending j pending))
        + same i j * present (find_pending i pending)
      ≡ present (find_pending i pending)
unfolding find_pending remove_pending present same
find_pending-remove_pending i j [] = ground arith
find_pending-remove_pending i j ((k, bytes) ∷ pending) =
    ground (arith, find_pending-remove_pending i j pending)

remove_pending-shorter :
    (i : ℕ) (pending : List (ℕ × List ℕ))
    → length (remove_pending i pending) + present (find_pending i pending) ≤ length pending
unfolding find_pending remove_pending present
remove_pending-shorter i [] = omega arith
remove_pending-shorter i ((k, bytes) ∷ pending) = ground (arith, remove_pending-shorter i pending)

-- A round of the loop moves one chunk from those kept to those written.
moved :
    (i n : ℕ) (pending : List (ℕ × List ℕ)) (bytes : List ℕ)
    → find_pending n pending ≡ some bytes
    → below i n + present (find_pending i pending)
      ≤ below i (n + 1) + present (find_pending i (remove_pending n pending))
unfolding below same present
moved i n pending bytes found = elim (Bool-cases (i == n)) [
  | inl same_ ↦
      let e : i ≡ n = ground arith in
      let here : present (find_pending i pending) ≡ 1 =
        ap (λ k. present (find_pending k pending)) e ∙ ap present found in
      ground (arith, here)
  | inr other ↦ ground (arith, find_pending-remove_pending i n pending)
]

received-drain : (i fuel : ℕ) (s : Pipeline) → received i s ≤ received i (drain fuel s)
unfolding drain
received-drain i zero s = omega arith
received-drain i (suc fuel) s = elim (Option-cases (find_pending s.next_write s.pending)) [
  | inl gone ↦ rw (gone, drain) (omega arith)
  | inr (bytes, found) ↦
      let t : Pipeline = record s {
        pending = remove_pending s.next_write s.pending;
        next_write = s.next_write + 1;
        out = s.out ++ bytes;
      } in
      let rest = received-drain i fuel t in
      let first = moved i s.next_write s.pending bytes found in
      rw (found, drain) (omega (arith, rest, first))
]

-- The loop ends with its own test, for it has a round for each entry.
pub drain-settled :
    (fuel : ℕ) (s : Pipeline)
    → length s.pending < fuel
    → find_pending (drain fuel s).next_write (drain fuel s).pending ≡ none
unfolding drain present
drain-settled zero s h = absurd (omega (arith, h))
drain-settled (suc fuel) s h = elim (Option-cases (find_pending s.next_write s.pending)) [
  | inl gone ↦ rw (gone, drain) gone
  | inr (bytes, found) ↦
      let t : Pipeline = record s {
        pending = remove_pending s.next_write s.pending;
        next_write = s.next_write + 1;
        out = s.out ++ bytes;
      } in
      let one : present (find_pending s.next_write s.pending) ≡ 1 = ap present found in
      let shorter = remove_pending-shorter s.next_write s.pending in
      rw (found, drain) (drain-settled fuel t (omega (arith, one, shorter, h)))
]

-- What the receiver leaves to the others.
pub drain-Keeps :
    (fuel : ℕ) (s : Pipeline)
    → ((drain fuel s).next ≡ s.next)
      × ((drain fuel s).workers ≡ s.workers)
      × ((drain fuel s).channel ≡ s.channel)
      × ((drain fuel s).receiver ≡ s.receiver)
unfolding drain
drain-Keeps zero s = (refl, refl, refl, refl)
drain-Keeps (suc fuel) s = elim (Option-cases (find_pending s.next_write s.pending)) [
  | inl gone ↦ rw (gone, drain) (refl, refl, refl, refl)
  | inr (bytes, found) ↦
      let t : Pipeline = record s {
        pending = remove_pending s.next_write s.pending;
        next_write = s.next_write + 1;
        out = s.out ++ bytes;
      } in
      rw (found, drain) (drain-Keeps fuel t)
]

insert_pending-present :
    (i j : ℕ) (bytes : List ℕ) (pending : List (ℕ × List ℕ))
    → 1 ≤ same i j + present (find_pending i pending)
    → 1 ≤ present (find_pending i (insert_pending j bytes pending))
unfolding insert_pending find_pending same present
insert_pending-present i j bytes pending h =
    ground (arith, h, find_pending-remove_pending i j pending)

pub received-receive :
    (i j : ℕ) (bytes : List ℕ) (s : Pipeline)
    → 1 ≤ same i j + received i s
    → 1 ≤ received i (receive (some (j, bytes)) s)
unfolding receive
received-receive i j bytes s h =
    let pending = insert_pending j bytes s.pending in
    let rest = received-drain i (suc (length pending)) (record s { pending = pending }) in
    let kept = insert_pending-present i j bytes s.pending in ground (arith, rest, kept, h)

-- A worker that has read a chunk hands it over, or is the one that has it.
pub in_channel-send :
    (i j : ℕ) (bytes : List ℕ) (channel : List (Option (ℕ × List ℕ)))
    → in_channel i (channel ++ (message j (some bytes) ∷ [])) ≡ in_channel i channel + same i j
unfolding in_channel
in_channel-send i j bytes channel =
    omega (arith, in_channel-append i channel (some (j, bytes) ∷ []))

unfoldable pub stop_count : Worker → ℕ
stop_count idle = 0
stop_count stopped = 1
stop_count (reading i) = 0
stop_count (holding i result) = 0

pub stopped-total :
    (i : ℕ) (workers : List Worker)
    → all is_stopped workers ≡ true
    → (total (carries i) workers ≡ 0) × (total stop_count workers ≡ total (λ w. 1) workers)
unfolding total carries stop_count
stopped-total i [] h = (refl, refl)
stopped-total i (stopped ∷ workers) h =
    let rest = stopped-total i workers h in (omega (arith, rest.0), omega (arith, rest.1))
stopped-total i (idle ∷ workers) h = absurd (cc h)
stopped-total i (reading j ∷ workers) h = absurd (cc h)
stopped-total i (holding j r ∷ workers) h = absurd (cc h)
