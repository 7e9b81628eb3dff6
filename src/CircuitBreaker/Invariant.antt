-- ===== src/CircuitBreaker/Invariant.antt =====
-- What holds of a breaker between two calls, and the graph of its states.
use xerv.Prelude.{
  ℕ, ◌+◌, ◌≤◌, ◌<◌, ◌≡◌, ◌≢◌, ◌⊎◌, Option, none, some, List, [], ◌∷◌, ◌++◌, arith, length,
}
use xerv.CircuitBreaker.{
  CircuitBreaker, CircuitBreakerConfig, CircuitState, closed, open_, half_open, new, evict, window,
  allow_request, record_failure, record_success, reset,
}
use xerv.CircuitBreaker.Window.{IsOrdered, IsOrdered-le}

-- The circuit was opened, and not after `now`.
abbrev pub OpenedBy : ℕ → Option ℕ → Type 0
OpenedBy now none = ⊥
OpenedBy now (some t) = t ≤ now

pub record IsValid (now : ℕ) (cb : CircuitBreaker) : Type 0 where
  pub ordered : IsOrdered 0 now cb.failures
  pub closed_unopened : cb.state ≡ closed → cb.opened_at ≡ none
  pub opened : cb.state ≢ closed → OpenedBy now cb.opened_at
  pub below_threshold :
      cb.state ≡ closed → (length cb.failures < cb.config.failure_threshold) ⊎ (cb.failures ≡ [])
  pub successes_below :
      cb.state ≡ half_open
      → (cb.half_open_successes < cb.config.success_threshold) ⊎ (cb.half_open_successes ≡ 0)

pub new-IsValid : (now : ℕ) (config : CircuitBreakerConfig) → IsValid now (new config)
unfolding new
new-IsValid now config = ground arith

IsOrdered-later :
    (lo hi now : ℕ) (ts : List ℕ) → hi ≤ now → IsOrdered lo hi ts → IsOrdered lo now ts
IsOrdered-later lo hi now [] h o = omega arith
IsOrdered-later lo hi now (t ∷ ts) h o = (o.0, IsOrdered-later t hi now ts h o.1)

OpenedBy-later : (t now : ℕ) (o : Option ℕ) → t ≤ now → OpenedBy t o → OpenedBy now o
OpenedBy-later t now none h o = o
OpenedBy-later t now (some x) h o = omega arith

pub IsValid-later : (t now : ℕ) (cb : CircuitBreaker) → t ≤ now → IsValid t cb → IsValid now cb
IsValid-later t now cb h v = record {
  ordered = IsOrdered-later 0 t now cb.failures h v.ordered;
  closed_unopened = v.closed_unopened;
  opened = λ s. OpenedBy-later t now cb.opened_at h (v.opened s);
  below_threshold = v.below_threshold;
  successes_below = v.successes_below;
}

IsOrdered-snoc :
    (lo now : ℕ) (ts : List ℕ) → IsOrdered lo now ts → IsOrdered lo now (ts ++ now ∷ [])
IsOrdered-snoc lo now [] o = (o, omega arith)
IsOrdered-snoc lo now (t ∷ ts) o = (o.0, IsOrdered-snoc t now ts o.1)

IsOrdered-lower :
    (lo lo' hi : ℕ) (ts : List ℕ) → lo ≤ lo' → IsOrdered lo' hi ts → IsOrdered lo hi ts
IsOrdered-lower lo lo' hi [] h o = omega arith
IsOrdered-lower lo lo' hi (t ∷ ts) h o = (omega arith, o.1)

evict-IsOrdered :
    (now w lo : ℕ) (ts : List ℕ) → IsOrdered lo now ts → IsOrdered lo now (evict now w ts)
unfolding evict
evict-IsOrdered now w lo [] o = o
evict-IsOrdered now w lo (t ∷ ts) o =
    ground (arith, evict-IsOrdered now w t ts, IsOrdered-lower lo t now (evict now w ts))

pub allow_request-IsValid :
    (now : ℕ) (cb : CircuitBreaker) → IsValid now cb → IsValid now (allow_request now cb).0
unfolding allow_request
allow_request-IsValid now cb v = ground arith

pub record_success-IsValid :
    (now : ℕ) (cb : CircuitBreaker) → IsValid now cb → IsValid now (record_success cb)
unfolding record_success
record_success-IsValid now cb v = ground (arith, IsOrdered-le 0 now cb.failures v.ordered)

pub record_failure-IsValid :
    (now : ℕ) (cb : CircuitBreaker) → IsValid now cb → IsValid now (record_failure now cb)
unfolding record_failure
record_failure-IsValid now cb v = ground (
  arith,
  evict-IsOrdered now (window cb) 0 cb.failures,
  IsOrdered-snoc 0 now (evict now (window cb) cb.failures),
)

pub reset-IsValid : (now : ℕ) (cb : CircuitBreaker) → IsValid now (reset cb)
unfolding reset
reset-IsValid now cb = ground arith

-- One call of a method.
pub data Call : Type 0 where
  allow success failure restart : Call

unfoldable pub call : ℕ → CircuitBreaker → Call → CircuitBreaker
call now cb allow = (allow_request now cb).0
call now cb success = record_success cb
call now cb failure = record_failure now cb
call now cb restart = reset cb

-- Calls with the time that passes before each of them.
unfoldable pub run : ℕ → CircuitBreaker → List (ℕ × Call) → ℕ × CircuitBreaker
run now cb [] = (now, cb)
run now cb ((dt, c) ∷ cs) = run (now + dt) (call (now + dt) cb c) cs

call-IsValid :
    (now : ℕ) (cb : CircuitBreaker) (c : Call) → IsValid now cb → IsValid now (call now cb c)
unfolding call
call-IsValid now cb allow v = allow_request-IsValid now cb v
call-IsValid now cb success v = record_success-IsValid now cb v
call-IsValid now cb failure v = record_failure-IsValid now cb v
call-IsValid now cb restart v = reset-IsValid now cb

run_from-IsValid :
    (now : ℕ) (cb : CircuitBreaker) (cs : List (ℕ × Call))
    → IsValid now cb
    → IsValid (run now cb cs).0 (run now cb cs).1
unfolding run
run_from-IsValid now cb [] v = v
run_from-IsValid now cb ((dt, c) ∷ cs) v =
    run_from-IsValid (now + dt) (call (now + dt) cb c) cs
      (call-IsValid (now + dt) cb c (IsValid-later now (now + dt) cb (omega arith) v))

-- Whatever methods are called on a new breaker, in any order and at any times: its failures are in
-- order of time, `opened_at` is set exactly when the circuit is not closed and not after the
-- present, a closed circuit is below its threshold of failures or has none, and a half-open one
-- below its threshold of successes or has none.
pub run-IsValid :
    (now : ℕ) (config : CircuitBreakerConfig) (cs : List (ℕ × Call))
    → IsValid (run now (new config) cs).0 (run now (new config) cs).1
run-IsValid now config cs = run_from-IsValid now (new config) cs (new-IsValid now config)

infix 40 ◌⟶◌
pub data ◌⟶◌ : CircuitState → CircuitState → Type 0 where
  stay : {s : CircuitState} → s ⟶ s
  trip_ : closed ⟶ open_
  recover : open_ ⟶ half_open
  relapse : half_open ⟶ open_
  close : half_open ⟶ closed

ruleset edges = (stay, trip_, recover, relapse, close)

-- But for a manual reset, every call keeps the state or follows an edge of the diagram: an open
-- circuit closes only through the half-open state.
pub call-⟶ :
    (now : ℕ) (cb : CircuitBreaker) (c : Call) → c ≢ restart → cb.state ⟶ (call now cb c).state
unfolding call allow_request record_success record_failure
call-⟶ now cb c h = grind (arith, edges)
