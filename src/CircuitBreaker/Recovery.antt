-- ===== src/CircuitBreaker/Recovery.antt =====
-- Rejection while the circuit is open, and the way back to the closed state.
use xerv.Prelude.{
  ℕ, nat_beq, if◌then◌else◌, zero, suc, ◌+◌, ◌<◌, ◌^◌, ◌≡◌, ◌≢◌, ◌⊎◌, ◌↔◌, true, false, Option,
  none, some, [], arith,
}
use native.Mathlib.Nat.{add-zero}
use xerv.CircuitBreaker.{
  CircuitBreaker, closed, open_, half_open, allow_request, record_success, from_secs, fetch_add_one,
}
use xerv.CircuitBreaker.Invariant.{IsValid}

-- The instant at which the circuit was opened.
abbrev pub opened_instant : Option ℕ → ℕ
opened_instant none = 0
opened_instant (some t) = t

-- A request is rejected exactly while the circuit is open and its recovery timeout has not passed.
pub allow_request-rejects :
    (now : ℕ) (cb : CircuitBreaker)
    → IsValid now cb
    → ((allow_request now cb).1 ≡ false) ↔ (
        (cb.state ≡ open_)
        × (now < opened_instant cb.opened_at + from_secs cb.config.recovery_timeout_secs))
unfolding allow_request
allow_request-rejects now cb v = ground arith

-- A rejected request changes only the counter of rejections; an allowed one changes nothing,
-- but that it half-opens an open circuit, with no success counted.
pub allow_request-effect :
    (now : ℕ) (cb : CircuitBreaker)
    → (((allow_request now cb).1 ≡ false)
        × ((allow_request now cb).0
            ≡ record cb { rejected_count = fetch_add_one cb.rejected_count }))
      ⊎ ((((allow_request now cb).1 ≡ true) × (cb.state ≢ open_) × ((allow_request now cb).0 ≡ cb))
          ⊎ (((allow_request now cb).1 ≡ true)
              × (cb.state ≡ open_)
              × ((allow_request now cb).0
                  ≡ record cb { state = half_open; half_open_successes = 0 })))
unfolding allow_request
allow_request-effect now cb = ground arith

-- `n` successful requests in a row.
pub successes : ℕ → CircuitBreaker → CircuitBreaker
successes zero cb = cb
successes (suc n) cb = successes n (record_success cb)

step_half_open :
    (cb : CircuitBreaker)
    → cb.state ≡ half_open
    → cb.half_open_successes + 1 < cb.config.success_threshold
    → cb.config.success_threshold < 2 ^ 32
    → record_success cb ≡ record cb { half_open_successes = cb.half_open_successes + 1 }
unfolding record_success
step_half_open cb s h b = ground arith

successes-half_open :
    (n : ℕ) (cb : CircuitBreaker)
    → cb.state ≡ half_open
    → cb.half_open_successes + n < cb.config.success_threshold
    → cb.config.success_threshold < 2 ^ 32
    → successes n cb ≡ record cb { half_open_successes = cb.half_open_successes + n }
unfolding successes
successes-half_open zero cb s h b = ground (arith, add-zero cb.half_open_successes)
successes-half_open (suc n) cb s h b = ground (
  arith,
  step_half_open cb,
  successes-half_open n (record cb { half_open_successes = cb.half_open_successes + 1 }),
)

-- Half-open with no success counted: through fewer than `success_threshold` successes the circuit
-- stays half-open, and the next one closes it, with the failures forgotten, exactly if it is the
-- `success_threshold`-th.
pub successes_close :
    (n : ℕ) (cb : CircuitBreaker)
    → cb.state ≡ half_open
    → cb.half_open_successes ≡ 0
    → n < cb.config.success_threshold
    → cb.config.success_threshold < 2 ^ 32
    → ((successes n cb).state ≡ half_open)
      × (record_success (successes n cb) ≡ (
          if nat_beq (n + 1) cb.config.success_threshold
          then record cb {
            state = closed;
            opened_at = none;
            failures = [];
            half_open_successes = n + 1;
          }
          else record cb { half_open_successes = n + 1 }))
unfolding record_success
successes_close n cb s z h b = ground (arith, successes-half_open n cb)
