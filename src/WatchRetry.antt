-- ===== src/WatchRetry.antt =====
-- Retries of the watcher: src/watch_recovery.rs, with `code` of src/hydration_error.rs. The state file
-- is an optional record that can be read or refused; an instant is a number of seconds. What a pass
-- of the watcher does is an argument; reading and writing the file itself does not fail, and the file is
-- that of this watcher alone, so `defer` behind a pass finds it as the pass did.
mod Tests
mod Recovery
use majutsu.Base.{
  ℕ, suc, ◌+◌, ◌-◌, ◌*◌, ◌^◌, min, Bool, true, false, not, ◌&&◌, ◌||◌, Option, none, some, List, [],
  ◌∷◌, ◌++◌, ◌==◌, ltb, if◌then◌else◌,
}
use majutsu.Base.Text.{Str, codes, has_infix}
use majutsu.Base.Sets.{mem}

pub record RetryState : Type 0 where
  pub version : ℕ
  pub code : Str
  pub attempts : ℕ
  pub first_failure_at : ℕ
  pub last_failure_at : ℕ
  pub next_retry_at : ℕ

abbrev pub kinds : List Str
kinds = codes "transport" ∷ codes "missing" ∷ codes "decode" ∷ codes "config" ∷ codes "remote" ∷ []

pub first_marked : Str → List Str → Option Str
first_marked detail [] = none
first_marked detail (kind ∷ others) =
    let rest = first_marked detail others in
    if has_infix (codes "[mj-object-fetch:" ++ (kind ++ codes "]")) detail then some kind else rest

pub error_code : Str → Option Str
unfolding first_marked
error_code detail = first_marked detail kinds

pub is_valid : RetryState → Bool
is_valid s = s.version == 1 && not (s.attempts == 0) && mem s.code kinds

pub read : Option RetryState → Option (Option RetryState)
unfolding is_valid
read none = some none
read (some s) = if is_valid s then some (some s) else none

pub delay : ℕ → ℕ
delay attempts = min (5 * 2 ^ min (attempts - 1) 6) 300

pub failed_again : Option RetryState → ℕ → Str → RetryState
failed_again none now code = record {
  version = 1;
  code = code;
  attempts = 1;
  first_failure_at = now;
  last_failure_at = now;
  next_retry_at = now + delay 1;
}
failed_again (some s) now code =
    let attempts = min (s.attempts + 1) (2 ^ 32 - 1) in
    record {
      version = 1;
      code = code;
      attempts = attempts;
      first_failure_at = s.first_failure_at;
      last_failure_at = now;
      next_retry_at = now + delay attempts;
    }

-- The file behind it, and whether the error is put off; `none` is an error of `defer` itself.
pub defer : Option RetryState → ℕ → Str → Option (Option RetryState × Bool)
defer file now detail = elim (error_code detail) [
  | none ↦ some (file, false)
  | some code ↦ elim (read file) [
    | none ↦ none
    | some previous ↦ some (some (failed_again previous now code), true)
  ]
]

-- How a pass ended: it says whether it captured a snapshot, or fails with an error's text.
pub data Outcome : Type 0 where
  finished : (captured : Bool) → Outcome
  failed : (detail : Str) → Outcome

-- Whether `run` succeeds, and the file behind it, for the pending state and the end of the pass.
pub settle : Bool → ℕ → Option RetryState → Outcome → Bool × Option RetryState
settle once later none (finished captured) = (true, none)
settle once later (some s) (finished true) = (true, none)
settle once later (some s) (finished false) = (true, some (record s { next_retry_at = later + 5 }))
settle once later pending (failed detail) =
    if once then (false, pending) else elim (defer pending later detail) [
      | none ↦ (false, pending)
      | some (file, deferred) ↦ (deferred, file)
    ]

pub is_waiting : ℕ → Option RetryState → Bool
is_waiting now none = false
is_waiting now (some s) = ltb now s.next_retry_at

pub is_pending : Option RetryState → Bool
is_pending none = false
is_pending (some s) = true

-- `now` is the time of the test, `later` that behind the pass.
pub run : Bool → ℕ → ℕ → Option RetryState → (Bool → Outcome) → Bool × Option RetryState
run once now later file action = elim (read file) [
  | none ↦ (false, file)
  | some pending ↦
      if not once && is_waiting now pending
      then (true, pending)
      else settle once later pending (action (is_pending pending))
]

-- The replay of the pending journal events, of which `outcome` is the end: what it returns, where `none` is an
-- error, and the file behind it.
pub replay : Bool → ℕ → Option RetryState → Outcome → Option Bool × Option RetryState
replay once now file (finished replayed) = (some replayed, file)
replay once now file (failed detail) = if once then (none, file) else elim (defer file now detail) [
  | none ↦ (none, file)
  | some (file', deferred) ↦ (if deferred then some false else none, file')
]
