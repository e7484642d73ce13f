-- ===== src/Large/Pipeline/Progress.antt =====
-- The parallel restore comes to an end, whatever the order of the steps, and never stops half-way.
use majutsu.Base.{
  ℕ, zero, suc, ◌+◌, ◌-◌, ◌*◌, ◌≤◌, ◌<◌, ◌≡◌, refl, ap, inl, inr, Option, none, some, List, [], ◌∷◌,
  ◌++◌, length, length-append, arith, Option-cases,
}
use majutsu.Large.Pipeline.{
  Worker, idle, stopped, reading, holding, Receiver, running, closed, Pipeline, message, after_send,
  find_pending, remove_pending, insert_pending, drain, receive, idle_workers, initial, Step,
  take_chunk, leave, read_chunk, send, give_up, receive_one, finish, Steps, here, later,
}

-- The steps that a worker and the receiver have left to do, at most.
worker_weight : Worker → ℕ
worker_weight idle = 1
worker_weight stopped = 0
worker_weight (reading i) = 4
worker_weight (holding i result) = 3

-- A sum over the workers.
unfoldable pub total : (Worker → ℕ) → List Worker → ℕ
total f [] = 0
total f (w ∷ workers) = f w + total f workers

total-append : (f : Worker → ℕ) (xs ys : List Worker) → total f (xs ++ ys) ≡ total f xs + total f ys
unfolding total
total-append f [] ys = omega arith
total-append f (x ∷ xs) ys = omega (arith, total-append f xs ys)

-- One worker replaced by another.
pub total-replaced :
    (f : Worker → ℕ) (before after zs : List Worker) (v w : Worker)
    → zs ≡ before ++ (v ∷ after)
    → total f (before ++ (w ∷ after)) + f v ≡ total f zs + f w
unfolding total
total-replaced f before after zs v w e =
    let e' : total f zs ≡ total f (before ++ (v ∷ after)) = ap (total f) e in
    omega (arith, e', total-append f before (v ∷ after), total-append f before (w ∷ after))

receiver_weight : Receiver → ℕ
receiver_weight running = 1
receiver_weight (closed written) = 0

drain-receiver : (fuel : ℕ) (s : Pipeline) → (drain fuel s).receiver ≡ s.receiver
unfolding drain
drain-receiver zero s = refl
drain-receiver (suc fuel) s = elim (Option-cases (find_pending s.next_write s.pending)) [
  | inl gone ↦ rw (gone, drain)
  | inr (bytes, found) ↦
      rw (found, drain)
        (drain-receiver fuel (record s {
          pending = remove_pending s.next_write s.pending;
          next_write = s.next_write + 1;
          out = s.out ++ bytes;
        }))
]

module _ (chunks : ℕ) where
  abbrev weight : Pipeline → ℕ
  weight s =
      4 * (chunks - s.next)
      + total worker_weight s.workers
      + length s.channel
      + receiver_weight s.receiver

  drain-weight : (fuel : ℕ) (s : Pipeline) → weight (drain fuel s) ≡ weight s
  unfolding drain
  drain-weight zero s = refl
  drain-weight (suc fuel) s = elim (Option-cases (find_pending s.next_write s.pending)) [
    | inl gone ↦ rw (gone, drain)
    | inr (bytes, found) ↦
        rw (found, drain)
          (drain-weight fuel (record s {
            pending = remove_pending s.next_write s.pending;
            next_write = s.next_write + 1;
            out = s.out ++ bytes;
          }))
  ]

  receive-weight-le : (m : Option (ℕ × List ℕ)) (s : Pipeline) → weight (receive m s) ≤ weight s
  unfolding receive receiver_weight
  receive-weight-le none s = omega arith
  receive-weight-le (some (i, bytes)) s =
      let pending = insert_pending i bytes s.pending in
      let e = drain-weight (suc (length pending)) (record s { pending = pending }) in
      omega (arith, e)

  after_send-weight : (result : Option (List ℕ)) → worker_weight (after_send result) ≤ 1
  unfolding worker_weight
  after_send-weight none = omega arith
  after_send-weight (some bytes) = omega arith

  module _ (read : ℕ → Option (List ℕ)) (capacity : ℕ) where
    Step-weight : (s t : Pipeline) → Step read chunks capacity s t → weight t < weight s
    unfolding worker_weight receiver_weight
    Step-weight s t (take_chunk before after e room) =
        omega
          (arith, room, total-replaced worker_weight before after s.workers idle (reading s.next) e)
    Step-weight s t (leave before after e done) =
        omega (arith, total-replaced worker_weight before after s.workers idle stopped e)
    Step-weight s t (read_chunk before after i e) = omega (
      arith,
      total-replaced worker_weight before after s.workers (reading i) (holding i (read i)) e,
    )
    Step-weight s t (send before after i result on room e) = omega (
      arith,
      total-replaced worker_weight before after s.workers (holding i result) (after_send result) e,
      after_send-weight result,
      length-append s.channel (message i result ∷ []),
    )
    Step-weight s t (give_up before after i result w off e) =
        omega
          (arith, total-replaced worker_weight before after s.workers (holding i result) stopped e)
    Step-weight s t (receive_one m rest on e) =
        let shorter : length s.channel ≡ suc (length rest) = ap length e in
        omega (arith, shorter, receive-weight-le m (record s { channel = rest }))
    Step-weight s t (finish on e all_) =
        let was : receiver_weight s.receiver ≡ 1 = ap receiver_weight on in omega (arith, was)

    idle_workers-weight : (k : ℕ) → total worker_weight (idle_workers k) ≡ k
    unfolding total worker_weight
    idle_workers-weight zero = refl
    idle_workers-weight (suc k) = omega (arith, idle_workers-weight k)

    Steps-weight :
        (s t : Pipeline) (k : ℕ) → Steps read chunks capacity s k t → k + weight t ≤ weight s
    Steps-weight s t k here = omega arith
    Steps-weight s u k (later {k = j} {t = t} steps step) =
        omega (arith, Steps-weight s t j steps, Step-weight t u step)

    -- Every run of a parallel restore is short, whatever the order of its steps and whether or not the
    -- chunks can be read: four steps for each chunk, one for each worker and one more, at most.
    pub Steps-bounded :
        (parallelism k : ℕ) (t : Pipeline)
        → Steps read chunks capacity (initial parallelism) k t
        → k ≤ 4 * chunks + parallelism + 1
    unfolding receiver_weight
    Steps-bounded parallelism k t steps =
        omega (arith, Steps-weight (initial parallelism) t k steps, idle_workers-weight parallelism)
