-- ===== src/Dispatch/Memory.antt =====
-- xerv-core/src/dispatch/memory.rs: the in-memory dispatch backend. Each lock is held for one step,
-- so a `dequeue` that waits is two steps, and any others may come between them. Whether a waiting
-- worker is notified before its timeout is the environment's choice.
pub mod Invariant
pub mod Retry
pub mod Priority
pub mod Queue
mod Scenarios
use xerv.Prelude.{
  ℕ, ◌+◌, ◌%◌, ◌^◌, String, Bool, true, false, ◌&&◌, ◌||◌, not, Option, none, some, List, [], ◌∷◌,
  ◌++◌, map, leb, ltb, ◌==◌, nat_eq, string_eq, if◌then◌else◌, length, filter_by, Result, ok, err,
  ◌>>=◌,
}
use xerv.Prelude.Int.{ℤ, leb_int}
use xerv.HashMap
use xerv.HashMap.{HashMap, len}
use xerv.Ids.{PipelineId, pipeline_eq}
use xerv.Dispatch.Request.{TraceRequest, is_exhausted, increment_attempt}

-- The variants of `DispatchError` that this backend returns.
pub data DispatchError : Type 0 where
  queue_full : ℕ → ℕ → DispatchError
  shutting_down : DispatchError

abbrev pub DispatchResult : Type 0 → Type 0
DispatchResult A = Result A DispatchError

pub record MemoryConfig : Type 0 where
  pub max_queue_size : ℕ
  pub priority_queue : Bool

abbrev pub default_config : MemoryConfig
default_config = record { max_queue_size = 10_000; priority_queue = false }

-- A `BinaryHeap` is the list of its requests, in the order in which they were pushed.
pub data QueueInner : Type 0 where
  fifo : List TraceRequest → QueueInner
  heap : List TraceRequest → QueueInner

pub record MemoryDispatch : Type 0 where
  pub config : MemoryConfig
  pub queue : QueueInner
  pub in_flight : HashMap ℕ TraceRequest
  pub is_shutting_down : Bool
  pub total_enqueued : ℕ  -- AtomicUsize
  pub total_dequeued : ℕ  -- AtomicUsize

-- `a < b` in the order of `PrioritizedRequest`: by priority, then the older request is the greater.
abbrev pub less : TraceRequest → TraceRequest → Bool
less a b =
    if not (leb_int b.priority a.priority)
    then true
    else leb_int a.priority b.priority && ltb b.created_at_ms a.created_at_ms

empty_queue : Bool → QueueInner
empty_queue true = heap []
empty_queue false = fifo []

unfoldable pub new : MemoryConfig → MemoryDispatch
unfolding empty_queue
new config = record {
  config = config;
  queue = empty_queue config.priority_queue;
  in_flight = [];
  is_shutting_down = false;
  total_enqueued = 0;
  total_dequeued = 0;
}

abbrev pub requests : QueueInner → List TraceRequest
requests (fifo q) = q
requests (heap q) = q

-- `len`, and `queue_depth`.
abbrev pub queue_len : MemoryDispatch → ℕ
queue_len d = length (requests d.queue)

pub push_back : QueueInner → TraceRequest → QueueInner
push_back (fifo q) r = fifo (q ++ r ∷ [])
push_back (heap q) r = heap (q ++ r ∷ [])

abbrev pub count_one : ℕ → ℕ
count_one n = (n + 1) % 2 ^ 64

unfoldable pub push : MemoryDispatch → TraceRequest → MemoryDispatch × DispatchResult (Unit {0})
unfolding push_back
push d r =
    if leb d.config.max_queue_size (queue_len d)
    then (d, err (queue_full (queue_len d) d.config.max_queue_size))
    else (
      record d { queue = push_back d.queue r; total_enqueued = count_one d.total_enqueued },
      ok tt,
    )

-- `BinaryHeap::pop`: a greatest request is taken out, the one pushed first among equals (the heap
-- takes any of them).
keep_greater :
    TraceRequest → Option (TraceRequest × List TraceRequest) → TraceRequest × List TraceRequest
keep_greater r none = (r, [])
keep_greater r (some (top, rest)) = if less r top then (top, r ∷ rest) else (r, top ∷ rest)

pub pop_greatest : List TraceRequest → Option (TraceRequest × List TraceRequest)
unfolding keep_greater
pop_greatest [] = none
pop_greatest (r ∷ q) = some (keep_greater r (pop_greatest q))

take_fifo : List TraceRequest → Option (TraceRequest × QueueInner)
take_fifo [] = none
take_fifo (r ∷ q) = some (r, fifo q)

take_heap : Option (TraceRequest × List TraceRequest) → Option (TraceRequest × QueueInner)
take_heap none = none
take_heap (some (r, q)) = some (r, heap q)

pub take_queue : QueueInner → Option (TraceRequest × QueueInner)
unfolding pop_greatest take_fifo take_heap
take_queue (fifo q) = take_fifo q
take_queue (heap q) = take_heap (pop_greatest q)

popped : Option (TraceRequest × QueueInner) → MemoryDispatch → MemoryDispatch × Option TraceRequest
popped none d = (d, none)
popped (some (r, q)) d =
    (record d { queue = q; total_dequeued = count_one d.total_dequeued }, some r)

unfoldable pub pop : MemoryDispatch → MemoryDispatch × Option TraceRequest
unfolding take_queue popped
pop d = popped (take_queue d.queue) d

-- What `dequeue` does with a request that it popped.
hand_out : MemoryDispatch → Option TraceRequest → MemoryDispatch × Option TraceRequest
hand_out d none = (d, none)
hand_out d (some r) =
    let r' = increment_attempt r in
    (record d { in_flight = HashMap.insert d.in_flight r'.trace_id r' }, some r')

unfoldable pub try_dequeue : MemoryDispatch → MemoryDispatch × Option TraceRequest
unfolding hand_out
try_dequeue d = let (d', r) = pop d in hand_out d' r

unfoldable pub enqueue : MemoryDispatch → TraceRequest → MemoryDispatch × DispatchResult ℕ
enqueue d r =
    if d.is_shutting_down
    then (d, err shutting_down)
    else (let (d', result) = push d r in (d', (do _ ← result; ok r.trace_id)))

-- The state of a call of `dequeue` after its first step.
pub data Dequeue : Type 0 where
  returned : Option TraceRequest → Dequeue
  waiting : Dequeue

after_try : ℕ → MemoryDispatch → Option TraceRequest → MemoryDispatch × Dequeue
after_try timeout_ms d (some r) = (d, returned (some r))
after_try timeout_ms d none = (d, if ltb 0 timeout_ms then waiting else returned none)

-- `dequeue` up to the wait for a notification.
unfoldable pub dequeue : MemoryDispatch → ℕ → MemoryDispatch × Dequeue
unfolding after_try
dequeue d timeout_ms =
    if d.is_shutting_down
    then (d, returned none)
    else (let (d', r) = try_dequeue d in after_try timeout_ms d' r)

-- `dequeue` from the end of its wait on: notified, or timed out.
unfoldable pub dequeue_after_wait : MemoryDispatch → Bool → MemoryDispatch × Option TraceRequest
dequeue_after_wait d notified = if notified then try_dequeue d else (d, none)

unfoldable pub ack : MemoryDispatch → ℕ → MemoryDispatch
ack d trace_id = record d { in_flight = HashMap.remove d.in_flight trace_id }

-- The result of the second `push` is ignored (`let _ =`).
nack_found : MemoryDispatch → Bool → Option TraceRequest → MemoryDispatch
nack_found d retry none = d
nack_found d retry (some r) = if retry && not (is_exhausted r) then (push d r).0 else d

unfoldable pub nack : MemoryDispatch → ℕ → Bool → MemoryDispatch
unfolding nack_found ack
nack d trace_id retry = nack_found (ack d trace_id) retry (HashMap.get d.in_flight trace_id)

unfoldable pub in_flight_count : MemoryDispatch → ℕ
in_flight_count d = len d.in_flight

unfoldable pub health_check : MemoryDispatch → Bool
health_check d = not d.is_shutting_down

unfoldable pub shutdown : MemoryDispatch → MemoryDispatch
shutdown d = record d { is_shutting_down = true }

unfoldable pub get_pending_by_pipeline : MemoryDispatch → PipelineId → List ℕ
get_pending_by_pipeline d pipeline_id =
    map (λ r. r.trace_id) (filter_by (λ r. r.pipeline_id == pipeline_id) (requests d.queue))
