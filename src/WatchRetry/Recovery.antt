-- ===== src/WatchRetry/Recovery.antt =====
-- What any sequence of runs leaves, and when a pending retry is forgotten.
use mathlib.Core.Path.{subst}
use majutsu.Base.{
  ℕ, zero, suc, ◌+◌, ◌-◌, ◌*◌, ◌^◌, ◌≤◌, ◌<◌, min, ◌≡◌, ◌≢◌, refl, sym, ◌∙◌, ◌⊎◌, inl, inr, Bool,
  true, false, not, ◌&&◌, Option, none, some, List, [], ◌∷◌, arith, Bool-cases, Option-cases,
}
use majutsu.Base.Text.{Str, str_eq_refl}
use majutsu.Base.Sets.{mem}
use majutsu.WatchRetry.{
  RetryState, kinds, first_marked, error_code, is_valid, read, delay, failed_again, defer, Outcome,
  finished, failed, settle, is_waiting, is_pending, run, replay,
}

-- The delay is 5 seconds at first and doubles with every attempt, up to 300 seconds.
pub delay_doubles :
    (attempts : ℕ)
    → 0 < attempts
    → (delay (attempts + 1) ≡ min (2 * delay attempts) 300) × (delay 1 ≡ 5)
unfolding delay
delay_doubles zero some_ = absurd (omega arith)
delay_doubles (suc zero) some_ = (refl, refl)
delay_doubles (suc (suc zero)) some_ = (refl, refl)
delay_doubles (suc (suc (suc zero))) some_ = (refl, refl)
delay_doubles (suc (suc (suc (suc zero)))) some_ = (refl, refl)
delay_doubles (suc (suc (suc (suc (suc zero))))) some_ = (refl, refl)
delay_doubles (suc (suc (suc (suc (suc (suc zero)))))) some_ = (refl, refl)
delay_doubles (suc (suc (suc (suc (suc (suc (suc n))))))) some_ =
    let attempts = (suc (suc (suc (suc (suc (suc (suc n))))))) in
    let a : min (attempts - 1) 6 ≡ 6 = omega arith in
    let b : min (attempts + 1 - 1) 6 ≡ 6 = omega arith in (rw (a, b) refl, refl)

first_marked-mem :
    (detail kind : Str) (ks : List Str) → first_marked detail ks ≡ some kind → mem kind ks ≡ true
unfolding first_marked mem
first_marked-mem detail kind [] h = cc
first_marked-mem detail kind (k ∷ ks) h =
    ground (arith, first_marked-mem detail kind ks, str_eq_refl kind)

-- A file that a run can read, whose next retry is at most five minutes away.
abbrev pub IsFine : ℕ → Option RetryState → Type 0
IsFine now none = Unit
IsFine now (some s) =
    (is_valid s ≡ true)
    × (s.attempts < 2 ^ 32)
    × (s.first_failure_at ≤ s.last_failure_at)
    × (s.last_failure_at ≤ now)
    × (s.next_retry_at ≤ now + 300)

IsFine-read : (now : ℕ) (file : Option RetryState) → IsFine now file → read file ≡ some file
unfolding read
IsFine-read now none fine = refl
IsFine-read now (some s) fine = rw fine.0 refl

delay-le : (attempts : ℕ) → delay attempts ≤ 300
unfolding delay
delay-le attempts = omega arith

failed_again-IsFine :
    (previous : Option RetryState) (earlier now : ℕ) (code : Str)
    → earlier ≤ now
    → mem code kinds ≡ true
    → IsFine earlier previous
    → IsFine now (some (failed_again previous now code))
unfolding failed_again is_valid
failed_again-IsFine none earlier now code order known fine =
    (ground (arith, known), omega arith, omega arith, omega arith, omega (arith, delay-le 1))
failed_again-IsFine (some s) earlier now code order known (valid, few, first, last, next) = (
  ground (arith, known),
  omega arith,
  omega arith,
  omega arith,
  omega (arith, delay-le (min (s.attempts + 1) (2 ^ 32 - 1))),
)

IsFine-later :
    (earlier later : ℕ) (file : Option RetryState)
    → earlier ≤ later
    → IsFine earlier file
    → IsFine later file
IsFine-later earlier later none order fine = tt
IsFine-later earlier later (some s) order (valid, few, first, last, next) =
    (valid, few, first, omega arith, omega arith)

defer-IsFine :
    (previous : Option RetryState) (earlier now : ℕ) (detail : Str) (file : Option RetryState)
    (deferred : Bool)
    → earlier ≤ now
    → IsFine earlier previous
    → defer previous now detail ≡ some (file, deferred)
    → IsFine now file
unfolding defer
defer-IsFine previous earlier now detail file deferred order fine h =
    elim (Option-cases (error_code detail)) [
      | inl unrelated ↦
          let same : some (previous, false) ≡ some (file, deferred) =
            sym (rw (unrelated, defer)) ∙ h in
          let e : previous ≡ file = cc same in
          subst (IsFine now) e (IsFine-later earlier now previous order fine)
      | inr (code, marked) ↦
          let readable = IsFine-read earlier previous fine in
          let same : some (some (failed_again previous now code), true) ≡ some (file, deferred) =
            sym (rw (marked, readable, defer)) ∙ h in
          let e : some (failed_again previous now code) ≡ file = cc same in
          subst (IsFine now) e (
            failed_again-IsFine previous earlier now code order
              (first_marked-mem detail code kinds (unfold error_code in marked)) fine)
    ]

settle-IsFine :
    (once : Bool) (earlier later : ℕ) (pending : Option RetryState) (outcome : Outcome)
    → earlier ≤ later
    → IsFine earlier pending
    → IsFine later (settle once later pending outcome).1
unfolding settle
settle-IsFine once earlier later none (finished captured) order fine = tt
settle-IsFine once earlier later (some s) (finished true) order fine = tt
settle-IsFine once earlier later (some s) (finished false) order (valid, few, first, last, next) =
    (unfold is_valid in valid, few, first, omega arith, omega arith)
settle-IsFine true earlier later pending (failed detail) order fine =
    IsFine-later earlier later pending order fine
settle-IsFine false earlier later pending (failed detail) order fine =
    elim (Option-cases (defer pending later detail)) [
      | inl broken ↦ rw (broken, settle) (IsFine-later earlier later pending order fine)
      | inr ((file, deferred), e) ↦
          rw (e, settle) (defer-IsFine pending earlier later detail file deferred order fine e)
    ]

run-IsFine :
    (once : Bool) (earlier now later : ℕ) (file : Option RetryState) (action : Bool → Outcome)
    → earlier ≤ now
    → now ≤ later
    → IsFine earlier file
    → IsFine later (run once now later file action).1
unfolding run
run-IsFine once earlier now later file action order order' fine =
    let readable = IsFine-read earlier file fine in
    elim (Bool-cases (not once && is_waiting now file)) [
      | inl waits ↦ rw (readable, waits, run) (IsFine-later earlier later file (omega arith) fine)
      | inr goes ↦
          rw (readable, goes, run)
            (settle-IsFine once earlier later file (action (is_pending file)) (omega arith) fine)
    ]

replay-IsFine :
    (once : Bool) (earlier now : ℕ) (file : Option RetryState) (outcome : Outcome)
    → earlier ≤ now
    → IsFine earlier file
    → IsFine now (replay once now file outcome).1
unfolding replay
replay-IsFine once earlier now file (finished replayed) order fine =
    IsFine-later earlier now file order fine
replay-IsFine true earlier now file (failed detail) order fine =
    IsFine-later earlier now file order fine
replay-IsFine false earlier now file (failed detail) order fine =
    elim (Option-cases (defer file now detail)) [
      | inl broken ↦ rw (broken, replay) (IsFine-later earlier now file order fine)
      | inr ((file', deferred), e) ↦
          rw (e, replay) (defer-IsFine file earlier now detail file' deferred order fine e)
    ]

-- The state file over the replays and the runs of the watcher, at the time behind the last one.
pub data Runs : ℕ → Option RetryState → Type 0 where
  start : (now : ℕ) → Runs now none
  next_run :
      (once : Bool) (earlier now later : ℕ) (file : Option RetryState) (action : Bool → Outcome)
      → Runs earlier file
      → earlier ≤ now
      → now ≤ later
      → Runs later (run once now later file action).1
  next_replay :
      (once : Bool) (earlier now : ℕ) (file : Option RetryState) (outcome : Outcome)
      → Runs earlier file
      → earlier ≤ now
      → Runs now (replay once now file outcome).1

-- Whatever the passes and the replays of the journal do, however often they fail and with whatever errors, the state file can be read
-- by the next run, the next retry is at most 300 seconds away, and the failures it names are in order
-- and not in the future. Condition: the clock does not go back.
pub Runs-IsFine :
    (now : ℕ) (file : Option RetryState) → Runs now file → (read file ≡ some file) × IsFine now file
Runs-IsFine now file (start at) = (unfold read in refl, tt)
Runs-IsFine now file (next_run once earlier at later before action runs order order') =
    let (readable, fine) = Runs-IsFine earlier before runs in
    let fine' = run-IsFine once earlier at later before action order order' fine in
    (IsFine-read later (run once at later before action).1 fine', fine')
Runs-IsFine now file (next_replay once earlier at before outcome runs order) =
    let (readable, fine) = Runs-IsFine earlier before runs in
    let fine' = replay-IsFine once earlier at before outcome order fine in
    (IsFine-read at (replay once at before outcome).1 fine', fine')

defer_keeps :
    (s : RetryState) (now : ℕ) (detail : Str) (file : Option RetryState) (deferred : Bool)
    → defer (some s) now detail ≡ some (file, deferred)
    → file ≢ none
unfolding defer
defer_keeps s now detail file deferred h none_ = elim (Option-cases (error_code detail)) [
  | inl unrelated ↦
      let same : some (some s, false) ≡ some (file, deferred) = sym (rw (unrelated, defer)) ∙ h in
      cc (same, none_)
  | inr (code, marked) ↦ elim (Option-cases (read (some s))) [
    | inl unread ↦
        let same : none ≡ some (file, deferred) = sym (rw (marked, unread, defer)) ∙ h in cc same
    | inr (previous, found) ↦
        let same : some (some (failed_again previous now code), true) ≡ some (file, deferred) =
          sym (rw (marked, found, defer)) ∙ h in
        cc (same, none_)
  ]
]

settle_forgets :
    (once : Bool) (later : ℕ) (s : RetryState) (outcome : Outcome)
    → (settle once later (some s) outcome).1 ≡ none
    → outcome ≡ finished true
unfolding settle
settle_forgets once later s (finished true) h = refl
settle_forgets once later s (finished false) h = cc
settle_forgets true later s (failed detail) h = cc
settle_forgets false later s (failed detail) h = elim (Option-cases (defer (some s) later detail)) [
  | inl broken ↦
      let kept : (settle false later (some s) (failed detail)).1 ≡ some s = rw (broken, settle) in
      absurd (ground (arith, kept))
  | inr ((file, deferred), e) ↦
      let left : (settle false later (some s) (failed detail)).1 ≡ file = rw (e, settle) in
      let gone : file ≡ none = sym left ∙ h in
      absurd (defer_keeps s later detail file deferred e gone)
]

-- A pending retry is forgotten only behind a pass that captured a snapshot, and that was made because
-- its time had come or because a single pass was asked for. Condition: a state file that can be read.
pub run_forgets :
    (once : Bool) (now later : ℕ) (s : RetryState) (action : Bool → Outcome)
    → read (some s) ≡ some (some s)
    → (run once now later (some s) action).1 ≡ none
    → (action true ≡ finished true) × ((once ≡ true) ⊎ (s.next_retry_at ≤ now))
unfolding run is_waiting is_pending
run_forgets once now later s action readable h =
    elim (Bool-cases (not once && is_waiting now (some s))) [
      | inl waits ↦
          let kept : (run once now later (some s) action).1 ≡ some s = rw (readable, waits, run) in
          absurd (ground (arith, kept))
      | inr goes ↦
          let ran : (run once now later (some s) action).1
              ≡ (settle once later (some s) (action true)).1 =
            rw (readable, goes, run) in
          (settle_forgets once later s (action true) (sym ran ∙ h), ground arith)
    ]
