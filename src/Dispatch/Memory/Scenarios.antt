-- ===== src/Dispatch/Memory/Scenarios.antt =====
-- Runs of a backend with room for two requests.
use xerv.Prelude.{ℕ, ◌≡◌, refl, true, false, some, List, [], ◌∷◌, arith, nat_eq}
use xerv.Prelude.Int.{ℤ, pos, negsuc}
use xerv.HashMap
use xerv.Ids.{PipelineId}
use xerv.Dispatch.Request.{TraceRequest, request}
use xerv.Dispatch.Memory.{
  MemoryDispatch, MemoryConfig, fifo, heap, new, enqueue, dequeue, ack, nack, pop, push,
  try_dequeue,
}
use xerv.Dispatch.Memory.Invariant.{IsValid, Call, enqueue_, dequeue_, call, serve, serve-IsValid}

abbrev orders : PipelineId
orders = record { name = "orders"; version = 1 }

abbrev trace : ℕ → ℤ → TraceRequest
trace id priority = record {
  trace_id = id;
  pipeline_id = orders;
  trigger_id = "webhook";
  payload = [];
  payload_type = xerv.Dispatch.Request.json;
  created_at_ms = 100;
  priority = priority;
  attempt = 0;
  max_attempts = 3;
  metadata = [];
}

abbrev small : MemoryConfig
small = record { max_queue_size = 2; priority_queue = false }

-- A worker takes the first trace and fails, while two others fill the queue.
abbrev calls : List Call
calls =
    enqueue_ (trace 1 (pos 0))
    ∷ dequeue_ 0
    ∷ enqueue_ (trace 2 (pos 0))
    ∷ enqueue_ (trace 3 (pos 0))
    ∷ []

abbrev full : MemoryDispatch
full = serve (new small) calls

serve-IsValid_example : IsValid full
serve-IsValid_example =
    serve-IsValid small calls (refl, omega arith, (refl, omega arith, (refl, omega arith, tt)))

first_in_flight : HashMap.get full.in_flight 1 ≡ some (record (trace 1 (pos 0)) { attempt = 1 })
unfolding serve call new enqueue dequeue push pop try_dequeue HashMap.get HashMap.insert
first_in_flight = refl

-- The retry of trace 1 finds the queue full, and the trace is neither queued nor in flight.
retry_lost :
    ((nack full 1 true).queue ≡ fifo (trace 2 (pos 0) ∷ trace 3 (pos 0) ∷ []))
    × ((nack full 1 true).in_flight ≡ [])
unfolding serve call new enqueue dequeue push pop try_dequeue nack ack HashMap.get HashMap.insert
    HashMap.remove
retry_lost = (refl, refl)

abbrev waiting_heap : List TraceRequest
waiting_heap = trace 1 (negsuc 4) ∷ trace 2 (pos 7) ∷ trace 3 (pos 7) ∷ []

abbrev prioritized : MemoryDispatch
prioritized = record (new small) { queue = heap waiting_heap }

abbrev after_pop : MemoryDispatch
after_pop = record prioritized {
  queue = heap (trace 1 (negsuc 4) ∷ trace 3 (pos 7) ∷ []);
  total_dequeued = 1;
}
