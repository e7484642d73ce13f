-- ===== src/Large/Pipeline/Whole.antt =====
-- A parallel restore that has stopped has written the whole file, when every chunk can be read.
use mathlib.Core.Path.{subst}
use majutsu.Base.{
  ℕ, zero, suc, ◌+◌, ◌≤◌, ◌<◌, ◌≡◌, ◌≢◌, refl, sym, ap, ◌∙◌, ◌⊎◌, inl, inr, true, false, Option,
  none, some, List, [], ◌∷◌, ◌++◌, ◌==◌, ltb, length, all, All, arith, Bool-cases,
}
use majutsu.Large.Pipeline.{
  Worker, idle, stopped, reading, holding, running, closed, Pipeline, is_stopped, find_pending,
  insert_pending, drain, receive, idle_workers, initial, Step, take_chunk, leave, read_chunk, send,
  give_up, receive_one, finish, Steps, here, later,
}
use majutsu.Large.Pipeline.Output.{
  IsReadMessage, IsReadWorker, IsFaithful, Step-IsFaithful, Steps-IsFaithful, All-right,
}
use majutsu.Large.Pipeline.Cover.{
  same, below, present, carries, in_channel, received, places, drain-settled, drain-Keeps,
  received-receive, in_channel-send, stop_count, stopped-total,
}
use majutsu.Large.Pipeline.Progress.{total, total-replaced}
use majutsu.Large.Pipeline.Stuck.{receiver-cases, Step-always}

module _ (read : ℕ → Option (List ℕ)) (chunks capacity : ℕ)
    (fine : (i : ℕ) → i < chunks → read i ≢ none) where
  -- Every chunk that was taken has a place, somebody left for want of chunks, and nothing failed.
  record IsLive (s : Pipeline) : Type 0 where
    faithful : IsFaithful read chunks capacity s
    staffed : 1 ≤ total (λ w. 1) s.workers
    unfailed : s.receiver ≢ closed false
    settled : find_pending s.next_write s.pending ≡ none
    covered : s.receiver ≡ running → (i : ℕ) → i < s.next → 1 ≤ places i s
    ended : s.receiver ≡ running → 1 ≤ total stop_count s.workers → chunks ≤ s.next

  -- A step of one worker that leaves the rest alone.
  worker-IsLive :
      (s t : Pipeline) (before after : List Worker) (v w : Worker)
      → IsLive s
      → IsFaithful read chunks capacity t
      → s.workers ≡ before ++ (v ∷ after)
      → t.workers ≡ before ++ (w ∷ after)
      → t.receiver ≡ s.receiver
      → t.pending ≡ s.pending
      → t.next_write ≡ s.next_write
      → (s.receiver ≡ running → (i : ℕ) → i < t.next → i < s.next ⊎ (carries i v < carries i w))
      → (s.receiver ≡ running
          → (i : ℕ) → in_channel i s.channel + carries i v ≤ in_channel i t.channel + carries i w)
      → (s.receiver ≡ running → (stop_count w ≤ stop_count v) ⊎ (chunks ≤ s.next))
      → s.next ≤ t.next
      → IsLive t
  worker-IsLive s t before after v w l f e e' r p n taken kept gone grows = record {
    faithful = f;
    staffed = (let k = l.staffed in let k' = count (λ u. 1) in omega (arith, k, k'));
    unfailed = λ off. l.unfailed (sym r ∙ off);
    settled = cc (l.settled, p, n);
    covered = λ run i less. elim (taken (sym r ∙ run) i less) [
      | inl before_ ↦
          let one = l.covered (sym r ∙ run) i before_ in
          let here = kept (sym r ∙ run) i in
          let sum = count (carries i) in
          let same_received : received i t ≡ received i s = cc (p, n) in
          omega (arith, one, here, sum, same_received)
      | inr new ↦ (let sum = count (carries i) in omega (arith, new, sum))
    ];
    ended = λ run some_gone. elim (gone (sym r ∙ run)) [
      | inr done ↦ omega (arith, done, grows)
      | inl fewer ↦
          (let sum = count stop_count in
            let was = l.ended (sym r ∙ run) (omega (arith, fewer, sum, some_gone)) in
            omega (arith, was, grows))
    ];
  }
    where
      count : (g : Worker → ℕ) → total g t.workers + g v ≡ total g s.workers + g w
      count g = rw e' (total-replaced g before after s.workers v w e)

  receive-IsLive :
      (s : Pipeline) (m : Option (ℕ × List ℕ)) (rest : List (Option (ℕ × List ℕ)))
      → IsLive s
      → s.receiver ≡ running
      → s.channel ≡ m ∷ rest
      → IsFaithful read chunks capacity (receive m (record s { channel = rest }))
      → IsLive (receive m (record s { channel = rest }))
  unfolding in_channel receive insert_pending
  receive-IsLive s none rest l run e f =
      let (i, less, failed) =
        (subst (All (IsReadMessage read chunks capacity)) e l.faithful.sent).0 in
      absurd (fine i less failed)
  receive-IsLive s (some (j, bytes)) rest l run e f =
      let u : Pipeline = record s { channel = rest } in
      let pending = insert_pending j bytes s.pending in
      let fuel = suc (length pending) in
      let v : Pipeline = record u { pending = pending } in
      let (n, w, c, r) = drain-Keeps fuel v in
      record {
        faithful = f;
        staffed = rw w l.staffed;
        unfailed = λ off. l.unfailed (sym r ∙ off);
        settled = drain-settled fuel v (omega arith);
        covered = λ run' i less.
            (let one = l.covered run i (rw (sym n) less) in
              let was : in_channel i s.channel ≡ same i j + in_channel i rest =
                ap (in_channel i) e in
              let kept = received-receive i j bytes u in
              let c' : in_channel i (drain fuel v).channel ≡ in_channel i rest =
                ap (in_channel i) c in
              let w' : total (carries i) (drain fuel v).workers ≡ total (carries i) s.workers =
                ap (total (carries i)) w in
              ground (arith, one, was, kept, c', w'));
        ended = λ run' gone.
            (let w' : total stop_count (drain fuel v).workers ≡ total stop_count s.workers =
                ap (total stop_count) w in
              let k = l.ended run (omega (arith, gone, w')) in omega (arith, k, n));
      }

  finish-IsLive :
      (s : Pipeline)
      → IsLive s
      → s.receiver ≡ running
      → s.channel ≡ []
      → all is_stopped s.workers ≡ true
      → (s.next_write == chunks) ≡ true
  unfolding in_channel below present
  finish-IsLive s l run e gone = elim (Bool-cases (s.next_write == chunks)) [
    | inl done ↦ done
    | inr short ↦
        let none_left = stopped-total s.next_write s.workers gone in
        let most = l.ended run (let k = l.staffed in omega (arith, k, none_left.1)) in
        let b = l.faithful.bound in
        let one = l.covered run s.next_write (ground (arith, most, b, short)) in
        let empty : in_channel s.next_write s.channel ≡ 0 = ap (in_channel s.next_write) e in
        let absent : present (find_pending s.next_write s.pending) ≡ 0 = ap present l.settled in
        absurd (ground (arith, one, none_left.0, empty, absent))
  ]

  same_refl : (i : ℕ) → same i i ≡ 1
  unfolding same
  same_refl i = ground arith

  Step-IsLive : (s t : Pipeline) → Step read chunks capacity s t → IsLive s → IsLive t
  unfolding carries stop_count
  Step-IsLive s t step l =
      by_step s t step l (Step-IsFaithful read chunks capacity s t step l.faithful)
    where
      by_step :
          (s t : Pipeline)
          → Step read chunks capacity s t
          → IsLive s
          → IsFaithful read chunks capacity t
          → IsLive t
      by_step s t (take_chunk before after e room) l f =
          worker-IsLive s t before after idle (reading s.next) l f e refl refl refl refl
            (λ run i less.
              (let one = same_refl s.next in
                elim (Bool-cases (ltb i s.next)) [
                  | inl old ↦ inl (ground arith)
                  | inr new ↦ inr (let e' : i ≡ s.next = ground arith in rw (e', one) (omega arith))
                ]))
            (λ run i. omega arith) (λ run. inl (omega arith)) (omega arith)
      by_step s t (leave before after e done) l f =
          worker-IsLive s t before after idle stopped l f e refl refl refl refl
            (λ run i less. inl less) (λ run i. omega arith) (λ run. inr done) (omega arith)
      by_step s t (read_chunk before after i e) l f =
          worker-IsLive s t before after (reading i) (holding i (read i)) l f e refl refl refl refl
            (λ run i less. inl less) (λ run i. omega arith) (λ run. inl (omega arith)) (omega arith)
      by_step s t (send before after i none on room e) l f =
          let held =
            (All-right (IsReadWorker read chunks capacity) before (holding i none ∷ after)
              (subst (All (IsReadWorker read chunks capacity)) e l.faithful.held)).0 in
          absurd (fine i held.0 held.1)
      by_step s t (send before after i (some bytes) on room e) l f =
          worker-IsLive s t before after (holding i (some bytes)) idle l f e refl refl refl refl
            (λ run j less. inl less)
            (λ run j. (let k = in_channel-send j i bytes s.channel in omega (arith, k)))
            (λ run. inl (omega arith)) (omega arith)
      by_step s t (give_up before after i result w off e) l f =
          worker-IsLive s t before after (holding i result) stopped l f e refl refl refl refl
            (λ run j less. inl less) (λ run j. absurd (cc (run, off)))
            (λ run. absurd (cc (run, off))) (omega arith)
      by_step s t (receive_one m rest on e) l f = receive-IsLive s m rest l on e f
      by_step s t (finish on e gone) l f =
          let done = finish-IsLive s l on e gone in
          record {
            faithful = f;
            staffed = l.staffed;
            settled = l.settled;
            unfailed = λ off. absurd (cc (done, off));
            covered = λ run. absurd (cc run);
            ended = λ run. absurd (cc run);
          }

  idle_workers-staff : (k : ℕ) → total (λ w. 1) (idle_workers k) ≡ k
  unfolding total
  idle_workers-staff zero = refl
  idle_workers-staff (suc k) = omega (arith, idle_workers-staff k)

  idle_workers-stop_count : (k : ℕ) → total stop_count (idle_workers k) ≡ 0
  unfolding stop_count total
  idle_workers-stop_count zero = refl
  idle_workers-stop_count (suc k) = omega (arith, idle_workers-stop_count k)

  Steps-IsLive :
      (parallelism k : ℕ) (t : Pipeline)
      → 1 ≤ parallelism
      → Steps read chunks capacity (initial parallelism) k t
      → IsLive t
  unfolding find_pending
  Steps-IsLive parallelism k t some_worker here = record {
    faithful = Steps-IsFaithful read chunks capacity parallelism 0 (initial parallelism) here;
    staffed = omega (arith, some_worker, idle_workers-staff parallelism);
    unfailed = λ e. absurd (cc e);
    settled = refl;
    covered = λ run i less. absurd (omega (arith, less));
    ended = λ run gone. absurd (omega (arith, gone, idle_workers-stop_count parallelism));
  }
  Steps-IsLive parallelism k u some_worker (later {k = j} {t = t} steps step) =
      Step-IsLive t u step (Steps-IsLive parallelism j t some_worker steps)

  -- A state without a step is one where the receiver has closed the file as whole.
  pub Steps-whole :
      (parallelism k : ℕ) (t : Pipeline)
      → 1 ≤ parallelism
      → 1 ≤ capacity
      → Steps read chunks capacity (initial parallelism) k t
      → ((u : Pipeline) → ¬ Step read chunks capacity t u)
      → t.receiver ≡ closed true
  Steps-whole parallelism k t some_worker room steps stuck = elim (receiver-cases t.receiver) [
    | inl run ↦
        (let (u, step) = Step-always read chunks capacity t room (inl run) in absurd (stuck u step))
    | inr (true, off) ↦ off
    | inr (false, off) ↦ absurd ((Steps-IsLive parallelism k t some_worker steps).unfailed off)
  ]
