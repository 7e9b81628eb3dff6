-- ===== src/Dispatch/Memory/Invariant.antt =====
-- What holds of the backend after any calls: its capacity, its counters, and the bound on attempts.
use xerv.Prelude.{
  ℕ, ◌+◌, ◌%◌, ◌^◌, ◌≤◌, ◌<◌, ◌≡◌, ◌⊎◌, refl, Bool, true, false, Option, none, some, List, [], ◌∷◌,
  ◌++◌, arith, length-append, Bool-cases, Option-cases, inl, inr, nat_beq_iff, nat_eq, leb, not,
  ◌&&◌,
}
use xerv.HashMap
use xerv.HashMap.{HashMap}
use xerv.HashMap.Laws.{get-insert, get-remove, IsUnique, insert-IsUnique, remove-IsUnique}
use xerv.Dispatch.Request.{TraceRequest, is_exhausted, increment_attempt}
use xerv.Dispatch.Memory.{
  MemoryDispatch, MemoryConfig, QueueInner, fifo, heap, requests, queue_len, new, push_back, push,
  take_queue, popped, pop, hand_out, try_dequeue, enqueue, dequeue, dequeue_after_wait, ack, nack,
  nack_found, shutdown, count_one, after_try,
}
use xerv.Dispatch.Memory.Queue.{All, All-snoc, take_queue-Takes, take_queue-All}

-- A queued request is new, or has attempts left.
abbrev pub HasAttempts : TraceRequest → Type 0
HasAttempts r = (r.max_attempts < 2 ^ 32) × ((r.attempt ≡ 0) ⊎ (r.attempt < r.max_attempts))

-- A request in flight is in its first attempt, or within its attempts.
abbrev pub WithinAttempts : TraceRequest → Type 0
WithinAttempts r =
    (r.max_attempts < 2 ^ 32) × (0 < r.attempt) × ((r.attempt ≡ 1) ⊎ (r.attempt ≤ r.max_attempts))

pub record IsValid (d : MemoryDispatch) : Type 0 where
  pub capacity : queue_len d ≤ d.config.max_queue_size
  pub counted : d.total_enqueued ≡ (d.total_dequeued + queue_len d) % 2 ^ 64
  pub dequeued_fits : d.total_dequeued < 2 ^ 64
  pub queued : All HasAttempts (requests d.queue)
  pub unique : IsUnique d.in_flight
  pub flying :
      (k : ℕ) (r : TraceRequest)
      → HashMap.get d.in_flight k ≡ some r
      → WithinAttempts r × (r.trace_id ≡ k)

pub requests-push_back :
    (q : QueueInner) (r : TraceRequest) → requests (push_back q r) ≡ requests q ++ r ∷ []
unfolding push_back
requests-push_back (fifo q) r = refl
requests-push_back (heap q) r = refl

pub new-IsValid : (config : MemoryConfig) → IsValid (new config)
unfolding new HashMap.get
new-IsValid config = record {
  capacity = ground arith;
  counted = ground arith;
  dequeued_fits = omega arith;
  queued = ground arith;
  unique = tt;
  flying = λ k r q. cc;
}

module _ (d : MemoryDispatch) (v : IsValid d) where
  room-IsValid :
      (r : TraceRequest)
      → HasAttempts r
      → leb d.config.max_queue_size (queue_len d) ≡ false
      → IsValid
          (record d { queue = push_back d.queue r; total_enqueued = count_one d.total_enqueued })
  room-IsValid r h room =
      let pushed = requests-push_back d.queue r in
      record {
        capacity = ground (arith, pushed, length-append (requests d.queue) (r ∷ []));
        counted = ground (arith, pushed, v.counted, length-append (requests d.queue) (r ∷ []));
        dequeued_fits = v.dequeued_fits;
        queued = rw pushed (All-snoc HasAttempts (requests d.queue) r h v.queued);
        unique = v.unique;
        flying = v.flying;
      }

  push-IsValid : (r : TraceRequest) → HasAttempts r → IsValid (push d r).0
  unfolding push
  push-IsValid r h = elim (Bool-cases (leb d.config.max_queue_size (queue_len d))) [
    | inl full ↦ rw full v
    | inr room ↦ rw room (room-IsValid r h room)
  ]

  ack-IsValid : (id : ℕ) → IsValid (ack d id)
  unfolding ack
  ack-IsValid id = record {
    capacity = v.capacity;
    counted = v.counted;
    dequeued_fits = v.dequeued_fits;
    queued = v.queued;
    unique = remove-IsUnique d.in_flight id v.unique;
    flying = λ k r q. ground (arith, q, get-remove d.in_flight id k, v.flying k r);
  }

  shutdown-IsValid : IsValid (shutdown d)
  unfolding shutdown
  shutdown-IsValid = record {
    capacity = v.capacity;
    counted = v.counted;
    dequeued_fits = v.dequeued_fits;
    queued = v.queued;
    unique = v.unique;
    flying = v.flying;
  }

incremented : (r : TraceRequest) → HasAttempts r → WithinAttempts (increment_attempt r)
incremented r h = ground arith

module _ (d : MemoryDispatch) (v : IsValid d) where
  taken-IsValid :
      (r : TraceRequest) (q : QueueInner)
      → take_queue d.queue ≡ some (r, q)
      → IsValid (hand_out (popped (some (r, q)) d).0 (some r)).0
  unfolding popped hand_out
  taken-IsValid r q e =
      let takes = rw e at (take_queue-Takes d.queue) in
      let attempts = rw e at (take_queue-All HasAttempts d.queue v.queued) in
      record {
        capacity = omega (arith, takes.1, v.capacity);
        counted = omega (arith, takes.1, v.counted);
        dequeued_fits = omega arith;
        queued = attempts.1;
        unique = insert-IsUnique d.in_flight r.trace_id (increment_attempt r) v.unique;
        flying = λ k x p. ground (
          arith,
          p,
          get-insert d.in_flight r.trace_id k (increment_attempt r),
          v.flying k x,
          nat_beq_iff r.trace_id k,
          incremented r attempts.0,
        );
      }

  try_dequeue-IsValid : IsValid (try_dequeue d).0
  unfolding try_dequeue pop popped hand_out
  try_dequeue-IsValid = elim (Option-cases (take_queue d.queue)) [
    | inl e ↦ rw e v
    | inr e ↦ rw e.1 (taken-IsValid e.0.0 e.0.1 e.1)
  ]

  dequeue_after_wait-IsValid : (notified : Bool) → IsValid (dequeue_after_wait d notified).0
  unfolding dequeue_after_wait
  dequeue_after_wait-IsValid true = try_dequeue-IsValid
  dequeue_after_wait-IsValid false = v

  after_try-0 : (t : ℕ) (x : MemoryDispatch × Option TraceRequest) → (after_try t x.0 x.1).0 ≡ x.0
  unfolding after_try
  after_try-0 t (x, none) = refl
  after_try-0 t (x, some r) = refl

  dequeue-IsValid : (timeout_ms : ℕ) → IsValid (dequeue d timeout_ms).0
  unfolding dequeue
  dequeue-IsValid t = elim (Bool-cases d.is_shutting_down) [
    | inl s ↦ simp s v
    | inr s ↦ simp s (rw (after_try-0 t (try_dequeue d)) try_dequeue-IsValid)
  ]

  enqueue-IsValid : (r : TraceRequest) → HasAttempts r → IsValid (enqueue d r).0
  unfolding enqueue
  enqueue-IsValid r h = elim (Bool-cases d.is_shutting_down) [
    | inl s ↦ simp s v
    | inr s ↦ simp s (push-IsValid d v r h)
  ]

  nack_found-IsValid :
      (id : ℕ) (retry : Bool) (o : Option TraceRequest)
      → HashMap.get d.in_flight id ≡ o
      → IsValid (nack_found (ack d id) retry o)
  unfolding nack_found
  nack_found-IsValid id retry none e = ack-IsValid d v id
  nack_found-IsValid id retry (some r) e = elim (Bool-cases (retry && not (is_exhausted r))) [
    | inl again ↦
        rw again
          (push-IsValid (ack d id) (ack-IsValid d v id) r (ground (arith, again, v.flying id r e)))
    | inr last ↦ rw last (ack-IsValid d v id)
  ]

  nack-IsValid : (id : ℕ) (retry : Bool) → IsValid (nack d id retry)
  unfolding nack
  nack-IsValid id retry = nack_found-IsValid id retry (HashMap.get d.in_flight id) refl

-- One step of a client: a call, or the end of the wait of a call of `dequeue`.
pub data Call : Type 0 where
  enqueue_ : TraceRequest → Call
  dequeue_ : ℕ → Call
  wake : Bool → Call
  ack_ : ℕ → Call
  nack_ : ℕ → Bool → Call
  shutdown_ : Call

unfoldable pub call : MemoryDispatch → Call → MemoryDispatch
call d (enqueue_ r) = (enqueue d r).0
call d (dequeue_ t) = (dequeue d t).0
call d (wake notified) = (dequeue_after_wait d notified).0
call d (ack_ id) = ack d id
call d (nack_ id retry) = nack d id retry
call d shutdown_ = shutdown d

unfoldable pub serve : MemoryDispatch → List Call → MemoryDispatch
serve d [] = d
serve d (c ∷ cs) = serve (call d c) cs

-- Every request that is enqueued is new, and its `max_attempts` fits a u32.
abbrev pub AreNew : List Call → Type 0
AreNew [] = Unit
AreNew (enqueue_ r ∷ cs) = (r.attempt ≡ 0) × (r.max_attempts < 2 ^ 32) × AreNew cs
AreNew (dequeue_ _ ∷ cs) = AreNew cs
AreNew (wake _ ∷ cs) = AreNew cs
AreNew (ack_ _ ∷ cs) = AreNew cs
AreNew (nack_ _ _ ∷ cs) = AreNew cs
AreNew (shutdown_ ∷ cs) = AreNew cs

serve_from-IsValid :
    (d : MemoryDispatch) (cs : List Call) → IsValid d → AreNew cs → IsValid (serve d cs)
unfolding serve call
serve_from-IsValid d [] v n = v
serve_from-IsValid d (enqueue_ r ∷ cs) v n =
    serve_from-IsValid (enqueue d r).0 cs (enqueue-IsValid d v r (n.1, inl n.0)) n.2
serve_from-IsValid d (dequeue_ t ∷ cs) v n =
    serve_from-IsValid (dequeue d t).0 cs (dequeue-IsValid d v t) n
serve_from-IsValid d (wake b ∷ cs) v n =
    serve_from-IsValid (dequeue_after_wait d b).0 cs (dequeue_after_wait-IsValid d v b) n
serve_from-IsValid d (ack_ id ∷ cs) v n = serve_from-IsValid (ack d id) cs (ack-IsValid d v id) n
serve_from-IsValid d (nack_ id retry ∷ cs) v n =
    serve_from-IsValid (nack d id retry) cs (nack-IsValid d v id retry) n
serve_from-IsValid d (shutdown_ ∷ cs) v n =
    serve_from-IsValid (shutdown d) cs (shutdown-IsValid d v) n

-- After any steps of any clients, in any order, if the requests enqueued are new and their
-- `max_attempts` fit a u32: the queue is within its capacity; what was enqueued, retries included, is
-- what was dequeued and what is queued, as 64-bit counters; a queued request is new or has
-- attempts left; and a request in flight, under its own identifier, is in its first attempt or
-- has not passed `max_attempts`.
pub serve-IsValid :
    (config : MemoryConfig) (cs : List Call) → AreNew cs → IsValid (serve (new config) cs)
serve-IsValid config cs n = serve_from-IsValid (new config) cs (new-IsValid config) n
