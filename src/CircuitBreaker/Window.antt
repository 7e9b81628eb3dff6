-- ===== src/CircuitBreaker/Window.antt =====
-- The sliding window of failures: the loop from the front against the filter over the whole list.
use xerv.Prelude.{
  Bool, ◌≢◌, ◌⊎◌, ℕ, ◌+◌, ◌-◌, ◌≤◌, ◌≡◌, refl, List, [], ◌∷◌, ◌++◌, arith, length, filter_by,
  count_by, ◌↔◌, length-append,
}
use xerv.CircuitBreaker.{
  CircuitBreaker, closed, open_, evict, window, in_window, failure_count, record_failure,
}

-- The instants of a list, oldest first, all of them from `lo` on and at most `hi`.
abbrev pub IsOrdered : ℕ → ℕ → List ℕ → Type 0
IsOrdered lo hi [] = lo ≤ hi
IsOrdered lo hi (t ∷ ts) = (lo ≤ t) × IsOrdered t hi ts

pub IsOrdered-le : (lo hi : ℕ) (ts : List ℕ) → IsOrdered lo hi ts → lo ≤ hi
IsOrdered-le lo hi [] o = o
IsOrdered-le lo hi (t ∷ ts) o = omega (arith, o.0, IsOrdered-le t hi ts o.1)

-- From an instant inside the window on, nothing is dropped.
filter_by-all :
    (now w lo : ℕ) (ts : List ℕ)
    → now - lo ≤ w
    → IsOrdered lo now ts
    → filter_by (in_window now w) ts ≡ ts
filter_by-all now w lo [] h o = refl
filter_by-all now w lo (t ∷ ts) h o = ground (arith, filter_by-all now w t ts)

pub evict-eq-filter :
    (now w lo : ℕ) (ts : List ℕ)
    → IsOrdered lo now ts
    → evict now w ts ≡ filter_by (in_window now w) ts
unfolding evict
evict-eq-filter now w lo [] o = refl
evict-eq-filter now w lo (t ∷ ts) o =
    ground (arith, evict-eq-filter now w t ts, filter_by-all now w t ts)

length-filter_by {ℓ} :
    {A : Type ℓ} (p : A → Bool) (ts : List A) → length (filter_by p ts) ≡ count_by p ts
length-filter_by p [] = refl
length-filter_by p (t ∷ ts) = ground (arith, length-filter_by p ts)

-- After a failure at `now` the list holds the earlier failures at most a window old, and this one:
-- dropping from the front is the filter over the whole list.
pub failures-record_failure :
    (now : ℕ) (cb : CircuitBreaker)
    → IsOrdered 0 now cb.failures
    → (record_failure now cb).failures
      ≡ filter_by (in_window now (window cb)) cb.failures ++ now ∷ []
unfolding record_failure
failures-record_failure now cb o = ground (arith, evict-eq-filter now (window cb) 0 cb.failures)

-- A failure opens the circuit exactly if it is half-open, or open already, or closed with at least
-- `failure_threshold` failures at most a window old, this one counted.
pub record_failure-opens :
    (now : ℕ) (cb : CircuitBreaker)
    → IsOrdered 0 now cb.failures
    → ((record_failure now cb).state ≡ open_)
      ↔ ((cb.state ≢ closed) ⊎ (cb.config.failure_threshold ≤ failure_count now cb + 1))
unfolding record_failure failure_count
record_failure-opens now cb o = ground (
  arith,
  evict-eq-filter now (window cb) 0 cb.failures,
  length-append (filter_by (in_window now (window cb)) cb.failures) (now ∷ []),
  length-filter_by (in_window now (window cb)) cb.failures,
)
