-- ===== src/WatchRetry/Tests.antt =====
-- A pass that fails to fetch an object, one that is too early, and one that captures.
use majutsu.Base.{◌≤◌, ◌≡◌, ◌⊎◌, refl, Bool, true, false, none, some, arith}
use majutsu.Base.Text.{codes, has_infix, str_eq, starts_with}
use majutsu.Base.Sets.{mem}
use majutsu.WatchRetry.{
  RetryState, first_marked, error_code, is_valid, read, delay, failed_again, defer, Outcome,
  finished, failed, settle, is_waiting, is_pending, run,
}
use majutsu.WatchRetry.Recovery.{IsFine, start, next_run, Runs-IsFine, run_forgets}

abbrev failing : Bool → Outcome
failing pending = failed (codes "[mj-object-fetch:missing] key=k")

abbrev retry : RetryState
retry = record {
  version = 1;
  code = codes "missing";
  attempts = 1;
  first_failure_at = 101;
  last_failure_at = 101;
  next_retry_at = 106;
}

put_off : run false 100 101 none failing ≡ (true, some retry)
unfolding run read settle defer error_code first_marked has_infix starts_with failed_again delay
    is_waiting is_pending
put_off = refl

retry_readable : read (some retry) ≡ some (some retry)
unfolding read is_valid mem str_eq
retry_readable = refl

captured : (run false 106 107 (some retry) (λ pending. finished true)).1 ≡ none
unfolding run read is_valid mem str_eq settle is_waiting is_pending
captured = refl

Runs-IsFine_example :
    (read (run false 100 101 none failing).1 ≡ some (run false 100 101 none failing).1)
    × IsFine 101 (run false 100 101 none failing).1
Runs-IsFine_example =
    Runs-IsFine 101 (run false 100 101 none failing).1
      (next_run false 0 100 101 none failing (start 0) (omega arith) (omega arith))

run_forgets_example : (finished true ≡ finished true) × ((false ≡ true) ⊎ (106 ≤ 106))
run_forgets_example =
    run_forgets false 106 107 retry (λ pending. finished true) retry_readable captured
