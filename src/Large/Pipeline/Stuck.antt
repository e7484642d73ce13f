-- ===== src/Large/Pipeline/Stuck.antt =====
-- No state of a parallel restore is stuck while there is something left to do.
use majutsu.Base.{
  ℕ, ◌≤◌, ◌≡◌, refl, sym, ap, ◌∙◌, ◌⊎◌, inl, inr, Bool, true, false, Option, List, [], ◌∷◌, ◌++◌,
  ltb, length, all, arith, Bool-cases,
}
use majutsu.Large.Pipeline.{
  Worker, idle, stopped, reading, holding, Receiver, running, closed, Pipeline, is_stopped, Step,
  take_chunk, leave, read_chunk, send, give_up, receive_one, finish,
}

-- A worker that is not gone, and where.
busy :
    (workers : List Worker)
    → (all is_stopped workers ≡ true)
      ⊎ ((before : List Worker) × (w : Worker) × (after : List Worker) × (workers
            ≡ before ++ (w ∷ after))
          × (is_stopped w ≡ false))
busy [] = inl refl
busy (w ∷ workers) = elim (Bool-cases (is_stopped w)) [
  | inr on ↦ inr ([], w, workers, refl, on)
  | inl off ↦ elim (busy workers) [
    | inl rest ↦ inl (rw (off, rest))
    | inr (before, v, after, e, on) ↦ inr (w ∷ before, v, after, ap (λ ws. w ∷ ws) e, on)
  ]
]

pub receiver-cases : (r : Receiver) → (r ≡ running) ⊎ ((written : Bool) × (r ≡ closed written))
receiver-cases running = inl refl
receiver-cases (closed written) = inr (written, refl)

module _ (read : ℕ → Option (List ℕ)) (chunks capacity : ℕ) where
  worker-Step :
      (s : Pipeline) (before after : List Worker) (w : Worker)
      → 1 ≤ capacity
      → s.workers ≡ before ++ (w ∷ after)
      → is_stopped w ≡ false
      → (t : Pipeline) × Step read chunks capacity s t
  worker-Step s before after stopped room e on = absurd (cc on)
  worker-Step s before after idle room e on = elim (Bool-cases (ltb s.next chunks)) [
    | inl more ↦ (_, take_chunk before after e (ground arith))
    | inr done ↦ (_, leave before after e (ground arith))
  ]
  worker-Step s before after (reading i) room e on = (_, read_chunk before after i e)
  worker-Step s before after (holding i result) room e on = elim (receiver-cases s.receiver) [
    | inr (written, off) ↦ (_, give_up before after i result written off e)
    | inl run ↦ sending s.channel refl run
  ]
    where
      sending :
          (channel : List (Option (ℕ × List ℕ)))
          → s.channel ≡ channel
          → s.receiver ≡ running
          → (t : Pipeline) × Step read chunks capacity s t
      sending [] c run =
          let empty : length s.channel ≡ 0 = ap length c in
          (_, send before after i result run (omega (arith, empty, room)) e)
      sending (m ∷ rest) c run = (_, receive_one m rest run c)

  pub Step-always :
      (s : Pipeline)
      → 1 ≤ capacity
      → (s.receiver ≡ running) ⊎ (all is_stopped s.workers ≡ false)
      → (t : Pipeline) × Step read chunks capacity s t
  Step-always s room live = elim (busy s.workers) [
    | inr (before, w, after, e, on) ↦ worker-Step s before after w room e on
    | inl gone ↦ elim live [
      | inr some_left ↦ absurd (cc (gone, some_left))
      | inl run ↦ receiving s.channel refl run gone
    ]
  ]
    where
      receiving :
          (channel : List (Option (ℕ × List ℕ)))
          → s.channel ≡ channel
          → s.receiver ≡ running
          → all is_stopped s.workers ≡ true
          → (t : Pipeline) × Step read chunks capacity s t
      receiving [] c run gone = (_, finish run c gone)
      receiving (m ∷ rest) c run gone = (_, receive_one m rest run c)

all-middle :
    (before after : List Worker) (w : Worker) (workers : List Worker)
    → workers ≡ before ++ (w ∷ after)
    → all is_stopped workers ≡ true
    → is_stopped w ≡ true
all-middle before after w workers e h = go before (sym (ap (all is_stopped) e) ∙ h)
  where
    go :
        (before : List Worker) → all is_stopped (before ++ (w ∷ after)) ≡ true → is_stopped w ≡ true
    go [] h = ground (arith, h)
    go (v ∷ before) h = go before (ground (arith, h))

-- Nothing is done once all workers are gone and the receiver has closed.
pub all-stuck :
    (read : ℕ → Option (List ℕ)) (chunks capacity : ℕ) (written : Bool) (s : Pipeline)
    → s.receiver ≡ closed written
    → all is_stopped s.workers ≡ true
    → (u : Pipeline) → ¬ Step read chunks capacity s u
all-stuck read chunks capacity w s off gone u (take_chunk before after e room) =
    let k = all-middle before after idle s.workers e gone in cc k
all-stuck read chunks capacity w s off gone u (leave before after e done) =
    let k = all-middle before after idle s.workers e gone in cc k
all-stuck read chunks capacity w s off gone u (read_chunk before after i e) =
    let k = all-middle before after (reading i) s.workers e gone in cc k
all-stuck read chunks capacity w s off gone u (send before after i r on room e) =
    let k = all-middle before after (holding i r) s.workers e gone in cc k
all-stuck read chunks capacity w s off gone u (give_up before after i r w' on e) =
    let k = all-middle before after (holding i r) s.workers e gone in cc k
all-stuck read chunks capacity w s off gone u (receive_one m rest on e) = cc (on, off)
all-stuck read chunks capacity w s off gone u (finish on e gone') = cc (on, off)
