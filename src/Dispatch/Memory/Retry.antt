-- ===== src/Dispatch/Memory/Retry.antt =====
-- What `nack` does with a request in flight, and what a shut down backend refuses.
use xerv.Prelude.{
  ℕ, ◌≡◌, refl, Bool, true, Option, none, some, List, [], ◌∷◌, ◌++◌, arith, err, if◌then◌else◌,
  ◌==◌, nat_eq, ltb, ◌&&◌,
}
use xerv.HashMap
use xerv.HashMap.{HashMap}
use xerv.HashMap.Laws.{get-remove}
use xerv.Dispatch.Request.{TraceRequest}
use xerv.Dispatch.Memory.{
  MemoryDispatch, requests, queue_len, push, pop, popped, hand_out, try_dequeue, enqueue, dequeue,
  returned, dequeue_after_wait, ack, nack, nack_found, shutdown, shutting_down,
}
use xerv.Dispatch.Memory.Invariant.{
  Call, enqueue_, dequeue_, wake, ack_, nack_, shutdown_, call, serve, requests-push_back,
}

-- Whether `nack` puts the request back: a retry is asked for, attempts are left, and the queue has
-- room.
abbrev pub goes_back : MemoryDispatch → Bool → TraceRequest → Bool
goes_back d retry r =
    retry && (ltb r.attempt r.max_attempts && ltb (queue_len d) d.config.max_queue_size)

requests-push :
    (d : MemoryDispatch) (r : TraceRequest)
    → requests (push d r).0.queue ≡ (
        if ltb (queue_len d) d.config.max_queue_size
        then requests d.queue ++ r ∷ []
        else requests d.queue)
unfolding push
requests-push d r = ground (arith, requests-push_back d.queue r)

in_flight-push : (d : MemoryDispatch) (r : TraceRequest) → (push d r).0.in_flight ≡ d.in_flight
unfolding push
in_flight-push d r = ground arith

module _ (d : MemoryDispatch) (id : ℕ) (retry : Bool) where
  nack_found_queue :
      (r : TraceRequest)
      → requests (nack_found (ack d id) retry (some r)).queue
        ≡ (if goes_back d retry r then requests d.queue ++ r ∷ [] else requests d.queue)
  unfolding nack_found ack
  nack_found_queue r = ground (arith, requests-push (ack d id) r)

  nack_found_in_flight :
      (o : Option TraceRequest)
      → (nack_found (ack d id) retry o).in_flight ≡ HashMap.remove d.in_flight id
  unfolding nack_found ack
  nack_found_in_flight none = refl
  nack_found_in_flight (some r) = ground (arith, in_flight-push (ack d id) r)

-- A request in flight that is given back with an error leaves the requests in flight, which keep the
-- others; it is queued again, at the end, exactly if a retry is asked for, it has attempts left
-- and the queue is not full; otherwise the queue is unchanged, and the request is gone.
pub nack-effect :
    (d : MemoryDispatch) (id k : ℕ) (retry : Bool) (r : TraceRequest)
    → HashMap.get d.in_flight id ≡ some r
    → (HashMap.get (nack d id retry).in_flight k
        ≡ (if id == k then none else HashMap.get d.in_flight k))
      × (requests (nack d id retry).queue
          ≡ (if goes_back d retry r then requests d.queue ++ r ∷ [] else requests d.queue))
unfolding nack
nack-effect d id k retry r found = rw found (
  rw (nack_found_in_flight d id retry (some r)) (get-remove d.in_flight id k),
  nack_found_queue d id retry r,
)

push_keeps :
    (d : MemoryDispatch) (r : TraceRequest) → (push d r).0.is_shutting_down ≡ d.is_shutting_down
unfolding push
push_keeps d r = ground arith

try_dequeue_keeps : (d : MemoryDispatch) → (try_dequeue d).0.is_shutting_down ≡ d.is_shutting_down
unfolding try_dequeue pop popped hand_out
try_dequeue_keeps d = ground arith

nack_found_keeps :
    (d : MemoryDispatch) (retry : Bool) (o : Option TraceRequest)
    → (nack_found d retry o).is_shutting_down ≡ d.is_shutting_down
unfolding nack_found
nack_found_keeps d retry none = refl
nack_found_keeps d retry (some r) = ground (arith, push_keeps d r)

nack_keeps :
    (d : MemoryDispatch) (id : ℕ) (retry : Bool)
    → (nack d id retry).is_shutting_down ≡ d.is_shutting_down
unfolding nack ack
nack_keeps d id retry = nack_found_keeps (ack d id) retry (HashMap.get d.in_flight id)

call_keeps :
    (d : MemoryDispatch) (c : Call) → d.is_shutting_down ≡ true → (call d c).is_shutting_down ≡ true
unfolding call enqueue dequeue dequeue_after_wait ack shutdown
call_keeps d (enqueue_ r) s = ground arith
call_keeps d (dequeue_ t) s = ground arith
call_keeps d (wake b) s = ground (arith, try_dequeue_keeps d)
call_keeps d (ack_ id) s = s
call_keeps d (nack_ id retry) s = ground (arith, nack_keeps d id retry)
call_keeps d shutdown_ s = refl

serve_keeps :
    (d : MemoryDispatch) (cs : List Call)
    → d.is_shutting_down ≡ true
    → (serve d cs).is_shutting_down ≡ true
unfolding serve
serve_keeps d [] s = s
serve_keeps d (c ∷ cs) s = serve_keeps (call d c) cs (call_keeps d c s)

-- After a shutdown, whatever is called in between, an `enqueue` is refused with `ShuttingDown` and a
-- `dequeue` that begins returns no request at once; neither changes anything.
pub shutdown_refuses :
    (d : MemoryDispatch) (cs : List Call) (r : TraceRequest) (t : ℕ)
    → (enqueue (serve (shutdown d) cs) r ≡ (serve (shutdown d) cs, err shutting_down))
      × (dequeue (serve (shutdown d) cs) t ≡ (serve (shutdown d) cs, returned none))
unfolding enqueue dequeue shutdown
shutdown_refuses d cs r t = let s = serve_keeps (shutdown d) cs refl in (simp s refl, simp s refl)
