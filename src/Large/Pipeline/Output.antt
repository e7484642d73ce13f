-- ===== src/Large/Pipeline/Output.antt =====
-- What the receiver has written, whatever the order of the steps.
use mathlib.Core.Path.{subst}
use majutsu.Base.{
  ℕ, zero, suc, ◌+◌, ◌≤◌, ◌<◌, ◌≡◌, refl, sym, ◌∙◌, inl, inr, true, Option, none, some, List, [],
  ◌∷◌, ◌++◌, ◌==◌, length, All, All-append, arith, Bool-cases, Option-cases,
}
use majutsu.Large.Pipeline.{
  Worker, idle, stopped, reading, holding, running, closed, Pipeline, message, after_send,
  find_pending, remove_pending, insert_pending, drain, receive, idle_workers, initial, Step,
  take_chunk, leave, read_chunk, send, give_up, receive_one, finish, Steps, here, later,
}

module _ {ℓ κ} {A : Type ℓ} (P : A → Type κ) where
  All-left : (xs ys : List A) → All P (xs ++ ys) → All P xs
  All-left [] ys h = tt
  All-left (x ∷ xs) ys h = (h.0, All-left xs ys h.1)

  pub All-right : (xs ys : List A) → All P (xs ++ ys) → All P ys
  All-right [] ys h = h
  All-right (x ∷ xs) ys h = All-right xs ys h.1

  -- The element in the middle replaced by another that passes.
  All-replaced :
      (xs ys zs : List A) (x y : A) → zs ≡ xs ++ (x ∷ ys) → All P zs → P y → All P (xs ++ (y ∷ ys))
  All-replaced xs ys zs x y e h p =
      let h' = subst (All P) e h in
      All-append P xs (y ∷ ys) (All-left xs (x ∷ ys) h') (p, (All-right xs (x ∷ ys) h').1)

-- The first `k` chunks, one after the other.
unfoldable pub joined : (ℕ → Option (List ℕ)) → ℕ → Option (List ℕ)
joined read zero = some []
joined read (suc k) = elim (joined read k) [
  | none ↦ none
  | some bytes ↦ elim (read k) [ none ↦ none | some more ↦ some (bytes ++ more) ]
]

module _ (read : ℕ → Option (List ℕ)) (chunks capacity : ℕ) where
  abbrev IsRead : ℕ × List ℕ → Type 0
  IsRead (i, bytes) = (i < chunks) × (read i ≡ some bytes)

  abbrev pub IsReadMessage : Option (ℕ × List ℕ) → Type 0
  IsReadMessage none = (i : ℕ) × (i < chunks) × (read i ≡ none)
  IsReadMessage (some entry) = IsRead entry

  abbrev pub IsReadWorker : Worker → Type 0
  IsReadWorker idle = Unit
  IsReadWorker stopped = Unit
  IsReadWorker (reading i) = i < chunks
  IsReadWorker (holding i result) = (i < chunks) × (read i ≡ result)

  -- Everything on its way is what was read, and what is written is the chunks before `next_write`.
  pub record IsFaithful (s : Pipeline) : Type 0 where
    pub held : All IsReadWorker s.workers
    pub sent : All IsReadMessage s.channel
    pub early : All IsRead s.pending
    pub written : joined read s.next_write ≡ some s.out
    pub bound : s.next_write ≤ chunks
    pub whole : s.receiver ≡ closed true → s.next_write ≡ chunks

  find_pending-IsRead :
      (i : ℕ) (pending : List (ℕ × List ℕ)) (bytes : List ℕ)
      → All IsRead pending
      → find_pending i pending ≡ some bytes
      → (i < chunks) × (read i ≡ some bytes)
  unfolding find_pending
  find_pending-IsRead i [] bytes h found = absurd (cc found)
  find_pending-IsRead i ((j, b) ∷ pending) bytes h found = elim (Bool-cases (i == j)) [
    | inl same ↦
        let e : i ≡ j = ground arith in
        let found' : some b ≡ some bytes = sym (rw (same, find_pending)) ∙ found in
        ((let k = h.0.0 in omega (arith, e, k)), cc (h.0.1, e, found'))
    | inr other ↦ find_pending-IsRead i pending bytes h.1 (sym (rw (other, find_pending)) ∙ found)
  ]

  remove_pending-IsRead :
      (i : ℕ) (pending : List (ℕ × List ℕ))
      → All IsRead pending
      → All IsRead (remove_pending i pending)
  unfolding remove_pending
  remove_pending-IsRead i [] h = tt
  remove_pending-IsRead i ((j, b) ∷ pending) h = elim (Bool-cases (i == j)) [
    | inl same ↦ rw (same, remove_pending) (remove_pending-IsRead i pending h.1)
    | inr other ↦ rw (other, remove_pending) (h.0, remove_pending-IsRead i pending h.1)
  ]

  joined-suc :
      (k : ℕ) (bytes more : List ℕ)
      → joined read k ≡ some bytes
      → read k ≡ some more
      → joined read (k + 1) ≡ some (bytes ++ more)
  unfolding joined
  joined-suc k bytes more h h' = let e : k + 1 ≡ suc k = omega arith in rw e (rw (h, h'))

  drain-IsFaithful :
      (fuel : ℕ) (s : Pipeline) → IsFaithful s → s.receiver ≡ running → IsFaithful (drain fuel s)
  unfolding drain
  drain-IsFaithful zero s f on = f
  drain-IsFaithful (suc fuel) s f on = elim (Option-cases (find_pending s.next_write s.pending)) [
    | inl gone ↦ rw (gone, drain) f
    | inr (bytes, found) ↦
        let more = find_pending-IsRead s.next_write s.pending bytes f.early found in
        let t : Pipeline = record s {
          pending = remove_pending s.next_write s.pending;
          next_write = s.next_write + 1;
          out = s.out ++ bytes;
        } in
        let f' : IsFaithful t = record {
          held = f.held;
          sent = f.sent;
          early = remove_pending-IsRead s.next_write s.pending f.early;
          written = joined-suc s.next_write s.out bytes f.written more.1;
          bound = (let k = more.0 in omega (arith, k));
          whole = λ e. cc (on, e);
        } in
        rw (found, drain) (drain-IsFaithful fuel t f' on)
  ]

  receive-IsFaithful :
      (m : Option (ℕ × List ℕ)) (s : Pipeline)
      → IsFaithful s
      → IsReadMessage m
      → s.receiver ≡ running
      → IsFaithful (receive m s)
  unfolding receive insert_pending
  receive-IsFaithful none s f h on = record {
    held = f.held;
    sent = f.sent;
    early = f.early;
    written = f.written;
    bound = f.bound;
    whole = λ e. cc e;
  }
  receive-IsFaithful (some (i, bytes)) s f h on =
      let pending = insert_pending i bytes s.pending in
      let t : Pipeline = record s { pending = pending } in
      let f' : IsFaithful t = record {
        held = f.held;
        sent = f.sent;
        early = (h, remove_pending-IsRead i s.pending f.early);
        written = f.written;
        bound = f.bound;
        whole = λ e. cc (on, e);
      } in
      drain-IsFaithful (suc (length pending)) t f' on

  after_send-IsReadWorker : (result : Option (List ℕ)) → IsReadWorker (after_send result)
  after_send-IsReadWorker none = tt
  after_send-IsReadWorker (some bytes) = tt

  message-IsReadMessage :
      (i : ℕ) (result : Option (List ℕ))
      → IsReadWorker (holding i result)
      → IsReadMessage (message i result)
  message-IsReadMessage i none h = (i, h.0, h.1)
  message-IsReadMessage i (some bytes) h = h

  middle :
      (before after : List Worker) (w : Worker) (s : Pipeline)
      → s.workers ≡ before ++ (w ∷ after)
      → IsFaithful s
      → IsReadWorker w
  middle before after w s e f =
      (All-right IsReadWorker before (w ∷ after) (subst (All IsReadWorker) e f.held)).0

  pub Step-IsFaithful :
      (s t : Pipeline) → Step read chunks capacity s t → IsFaithful s → IsFaithful t
  Step-IsFaithful s t (take_chunk before after e room) f = record {
    held = All-replaced IsReadWorker before after s.workers idle (reading s.next) e f.held room;
    sent = f.sent;
    early = f.early;
    written = f.written;
    bound = f.bound;
    whole = f.whole;
  }
  Step-IsFaithful s t (leave before after e done) f = record {
    held = All-replaced IsReadWorker before after s.workers idle stopped e f.held tt;
    sent = f.sent;
    early = f.early;
    written = f.written;
    bound = f.bound;
    whole = f.whole;
  }
  Step-IsFaithful s t (read_chunk before after i e) f = record {
    held =
        All-replaced IsReadWorker before after s.workers (reading i) (holding i (read i)) e f.held
          (middle before after (reading i) s e f, refl);
    sent = f.sent;
    early = f.early;
    written = f.written;
    bound = f.bound;
    whole = f.whole;
  }
  Step-IsFaithful s t (send before after i result on room e) f = record {
    held =
        All-replaced IsReadWorker before after s.workers (holding i result) (after_send result) e
          f.held (after_send-IsReadWorker result);
    sent =
        All-append IsReadMessage s.channel (message i result ∷ []) f.sent
          (message-IsReadMessage i result (middle before after (holding i result) s e f), tt);
    early = f.early;
    written = f.written;
    bound = f.bound;
    whole = f.whole;
  }
  Step-IsFaithful s t (give_up before after i result w off e) f = record {
    held = All-replaced IsReadWorker before after s.workers (holding i result) stopped e f.held tt;
    sent = f.sent;
    early = f.early;
    written = f.written;
    bound = f.bound;
    whole = f.whole;
  }
  Step-IsFaithful s t (receive_one m rest on e) f =
      let sent = subst (All IsReadMessage) e f.sent in
      let u : Pipeline = record s { channel = rest } in
      let f' : IsFaithful u = record {
        held = f.held;
        sent = sent.1;
        early = f.early;
        written = f.written;
        bound = f.bound;
        whole = f.whole;
      } in
      receive-IsFaithful m u f' sent.0 on
  Step-IsFaithful s t (finish on e all_) f = record {
    held = f.held;
    sent = f.sent;
    early = f.early;
    written = f.written;
    bound = f.bound;
    whole = λ done. (let full : (s.next_write == chunks) ≡ true = cc done in ground arith);
  }

  idle-held : (k : ℕ) → All IsReadWorker (idle_workers k)
  idle-held zero = tt
  idle-held (suc k) = (tt, idle-held k)

  pub Steps-IsFaithful :
      (parallelism k : ℕ) (t : Pipeline)
      → Steps read chunks capacity (initial parallelism) k t
      → IsFaithful t
  unfolding joined
  Steps-IsFaithful parallelism k t here = record {
    held = idle-held parallelism;
    sent = tt;
    early = tt;
    written = refl;
    bound = omega arith;
    whole = λ e. cc e;
  }
  Steps-IsFaithful parallelism k u (later {k = j} {t = t} steps step) =
      Step-IsFaithful t u step (Steps-IsFaithful parallelism j t steps)
