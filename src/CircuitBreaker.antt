-- ===== src/CircuitBreaker.antt =====
-- xerv-executor/src/circuit_breaker.rs: the circuit breaker of a pipeline. An `Instant` is its
-- nanoseconds on the monotonic clock, passed to each method as `now`; `duration_since` stops at 0.
-- A method is one step: the locks that it takes one after the other are not interleaved.
pub mod Window
pub mod Invariant
pub mod Recovery
mod Scenarios
use xerv.Prelude.{
  ℕ, ◌+◌, ◌-◌, ◌*◌, ◌%◌, ◌^◌, Bool, true, false, Option, none, some, List, [], ◌∷◌, ◌++◌, leb, ltb,
  if◌then◌else◌, length, count_by,
}

pub data CircuitState : Type 0 where
  closed open_ half_open : CircuitState

pub record CircuitBreakerConfig : Type 0 where
  pub failure_threshold : ℕ  -- u32
  pub failure_window_secs : ℕ  -- u64
  pub recovery_timeout_secs : ℕ  -- u64
  pub success_threshold : ℕ  -- u32

abbrev pub default_config : CircuitBreakerConfig
default_config = record {
  failure_threshold = 5;
  failure_window_secs = 60;
  recovery_timeout_secs = 30;
  success_threshold = 3;
}

pub record CircuitBreaker : Type 0 where
  pub config : CircuitBreakerConfig
  pub state : CircuitState
  pub failures : List ℕ
  pub half_open_successes : ℕ  -- AtomicU64
  pub opened_at : Option ℕ
  pub rejected_count : ℕ  -- AtomicU64

-- Duration::from_secs, in nanoseconds.
abbrev pub from_secs : ℕ → ℕ
from_secs s = s * 1_000_000_000

-- An atomic counter wraps.
abbrev pub fetch_add_one : ℕ → ℕ
fetch_add_one n = (n + 1) % 2 ^ 64

pub new : CircuitBreakerConfig → CircuitBreaker
new config = record {
  config = config;
  state = closed;
  failures = [];
  half_open_successes = 0;
  opened_at = none;
  rejected_count = 0;
}

reject : CircuitBreaker → CircuitBreaker × Bool
reject cb = (record cb { rejected_count = fetch_add_one cb.rejected_count }, false)

-- The `Open` arm: `opened_at` is read, and the circuit is half-opened after the timeout.
try_recover : Option ℕ → ℕ → CircuitBreaker → CircuitBreaker × Bool
unfolding reject
try_recover none now cb = reject cb
try_recover (some opened_at) now cb =
    if leb (from_secs cb.config.recovery_timeout_secs) (now - opened_at)
    then (record cb { state = half_open; half_open_successes = 0 }, true)
    else reject cb

allow_in : CircuitState → ℕ → CircuitBreaker → CircuitBreaker × Bool
unfolding try_recover
allow_in closed now cb = (cb, true)
allow_in open_ now cb = try_recover cb.opened_at now cb
allow_in half_open now cb = (cb, true)

pub allow_request : ℕ → CircuitBreaker → CircuitBreaker × Bool
unfolding allow_in
allow_request now cb = allow_in cb.state now cb

success_in : CircuitState → CircuitBreaker → CircuitBreaker
success_in half_open cb =
    let successes = fetch_add_one cb.half_open_successes in
    let counted = record cb { half_open_successes = successes } in
    if leb cb.config.success_threshold successes
    then record counted { state = closed; opened_at = none; failures = [] }
    else counted
success_in _ cb = cb

pub record_success : CircuitBreaker → CircuitBreaker
unfolding success_in
record_success cb = success_in cb.state cb

-- The `while let` loop that drops the failures outside the window from the front.
pub evict : ℕ → ℕ → List ℕ → List ℕ
evict now window [] = []
evict now window (oldest ∷ failures) =
    if ltb window (now - oldest) then evict now window failures else oldest ∷ failures

trip : ℕ → CircuitBreaker → CircuitBreaker
trip now cb = record cb { state = open_; opened_at = some now }

failure_in : CircuitState → ℕ → CircuitBreaker → CircuitBreaker
unfolding trip
failure_in closed now cb =
    if leb cb.config.failure_threshold (length cb.failures) then trip now cb else cb
failure_in half_open now cb = record (trip now cb) { half_open_successes = 0 }
failure_in open_ now cb = cb

abbrev pub window : CircuitBreaker → ℕ
window cb = from_secs cb.config.failure_window_secs

pub record_failure : ℕ → CircuitBreaker → CircuitBreaker
unfolding failure_in
record_failure now cb =
    failure_in cb.state now (record cb { failures = evict now (window cb) cb.failures ++ now ∷ [] })

abbrev pub in_window : ℕ → ℕ → ℕ → Bool
in_window now window t = leb (now - t) window

pub failure_count : ℕ → CircuitBreaker → ℕ
failure_count now cb = count_by (in_window now (window cb)) cb.failures

pub reset : CircuitBreaker → CircuitBreaker
reset cb = record cb { state = closed; opened_at = none; failures = []; half_open_successes = 0 }
