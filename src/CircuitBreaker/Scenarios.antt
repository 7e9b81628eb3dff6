-- ===== src/CircuitBreaker/Scenarios.antt =====
-- Runs of a breaker that trips after two failures within a second.
use xerv.Prelude.{ℕ, ◌+◌, ◌≤◌, ◌≡◌, ◌≢◌, ◌⊎◌, ◌↔◌, refl, none, some, List, [], ◌∷◌, arith}
use xerv.CircuitBreaker.{
  CircuitBreaker, CircuitBreakerConfig, closed, open_, half_open, new, allow_request,
  record_failure, record_success, failure_count, evict,
}
use xerv.CircuitBreaker.Window.{record_failure-opens}
use xerv.CircuitBreaker.Invariant.{
  IsValid, Call, failure, allow, success, call, run, run-IsValid, ◌⟶◌, call-⟶,
}

abbrev config : CircuitBreakerConfig
config = record {
  failure_threshold = 2;
  failure_window_secs = 1;
  recovery_timeout_secs = 3;
  success_threshold = 2;
}

abbrev shaken : CircuitBreaker
shaken = record {
  config = config;
  state = closed;
  failures = 100 ∷ 2_000_000_000 ∷ [];
  half_open_successes = 0;
  opened_at = none;
  rejected_count = 0;
}

abbrev tripped : CircuitBreaker
tripped = record shaken { state = open_; opened_at = some 2_500_000_000 }

abbrev testing : CircuitBreaker
testing = record tripped { state = half_open }

record_failure-opens_example :
    ((record_failure 2_500_000_000 shaken).state ≡ open_)
    ↔ ((closed ≢ closed) ⊎ (2 ≤ failure_count 2_500_000_000 shaken + 1))
record_failure-opens_example = record_failure-opens 2_500_000_000 shaken (omega arith)

tripped_by_failure :
    record_failure 2_500_000_000 shaken
    ≡ record tripped { failures = 2_000_000_000 ∷ 2_500_000_000 ∷ [] }
unfolding record_failure evict
tripped_by_failure = refl

abbrev calls : List (ℕ × Call)
calls =
    (5, failure)
    ∷ (6, failure)
    ∷ (7, allow)
    ∷ (4_000_000_000, allow)
    ∷ (1, success)
    ∷ (1, success)
    ∷ []

run_recovers :
    run 0 (new config) calls
    ≡ (4_000_000_020, record shaken { failures = []; half_open_successes = 2; rejected_count = 1 })
unfolding run new call allow_request record_failure record_success evict
run_recovers = refl

run-IsValid_example : IsValid (run 0 (new config) calls).0 (run 0 (new config) calls).1
run-IsValid_example = run-IsValid 0 config calls

call-⟶_example : open_ ⟶ (call 6_000_000_000 tripped allow).state
call-⟶_example = call-⟶ 6_000_000_000 tripped allow (λ e. cc)

tripped-IsValid : IsValid 3_000_000_000 tripped
tripped-IsValid = ground arith
