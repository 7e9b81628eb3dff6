-- ===== src/Dispatch/Memory/Queue.antt =====
-- What taking a request out of the queue leaves: one request fewer, and nothing else changed.
use mathlib.Core.List.{Perm}
use mathlib.Core.List.Perm
use xerv.Prelude.{
  suc, ◌≡◌, refl, Option, none, some, List, [], ◌∷◌, ◌++◌, length, Bool-cases, inl, inr, ap,
}
use xerv.Dispatch.Request.{TraceRequest}
use xerv.Dispatch.Memory.{
  less, QueueInner, fifo, heap, requests, keep_greater, pop_greatest, take_heap, take_queue,
}

abbrev pub All {κ} : (TraceRequest → Type κ) → List TraceRequest → Type κ
All P [] = Unit
All P (r ∷ rs) = P r × All P rs

pub All-snoc {κ} :
    (P : TraceRequest → Type κ) (rs : List TraceRequest) (r : TraceRequest)
    → P r
    → All P rs
    → All P (rs ++ r ∷ [])
All-snoc P [] r p a = (p, tt)
All-snoc P (x ∷ rs) r p a = (a.0, All-snoc P rs r p a.1)

-- The result of taking from a queue of requests: none from an empty one only.
abbrev pub Takes : List TraceRequest → Option (TraceRequest × List TraceRequest) → Type 0
Takes q none = q ≡ []
Takes q (some (r, rest)) = Perm q (r ∷ rest) × (length q ≡ suc (length rest))

keep_greater-Takes :
    (r : TraceRequest) (q : List TraceRequest) (o : Option (TraceRequest × List TraceRequest))
    → Takes q o
    → Takes (r ∷ q) (some (keep_greater r o))
unfolding keep_greater
keep_greater-Takes r q none t = rw t (Perm.refl (r ∷ []), refl)
keep_greater-Takes r q (some (top, rest)) t = elim (Bool-cases (less r top)) [
  | inl lt_ ↦ rw lt_ (Perm.trans (Perm.cons r t.0) (Perm.swap top r rest), ap suc t.1)
  | inr ge ↦ rw ge (Perm.cons r t.0, ap suc t.1)
]

pub pop_greatest-Takes : (q : List TraceRequest) → Takes q (pop_greatest q)
unfolding pop_greatest
pop_greatest-Takes [] = refl
pop_greatest-Takes (r ∷ q) = keep_greater-Takes r q (pop_greatest q) (pop_greatest-Takes q)

-- The same of the queue of either kind.
abbrev pub TakesQueue : QueueInner → Option (TraceRequest × QueueInner) → Type 0
TakesQueue q none = requests q ≡ []
TakesQueue q (some (r, q')) =
    Perm (requests q) (r ∷ requests q') × (length (requests q) ≡ suc (length (requests q')))

take_heap-Takes :
    (q : List TraceRequest) (o : Option (TraceRequest × List TraceRequest))
    → Takes q o
    → TakesQueue (heap q) (take_heap o)
unfolding take_heap
take_heap-Takes q none t = t
take_heap-Takes q (some (r, rest)) t = t

pub take_queue-Takes : (q : QueueInner) → TakesQueue q (take_queue q)
unfolding take_queue
take_queue-Takes (fifo []) = refl
take_queue-Takes (fifo (r ∷ q)) = (Perm.refl (r ∷ q), refl)
take_queue-Takes (heap q) = take_heap-Takes q (pop_greatest q) (pop_greatest-Takes q)

module _ {κ} (P : TraceRequest → Type κ) where
  abbrev AllTaken : Option (TraceRequest × List TraceRequest) → Type κ
  AllTaken none = Unit
  AllTaken (some (r, rest)) = P r × All P rest

  keep_greater-All :
      (r : TraceRequest) (o : Option (TraceRequest × List TraceRequest))
      → P r
      → AllTaken o
      → AllTaken (some (keep_greater r o))
  unfolding keep_greater
  keep_greater-All r none p a = (p, tt)
  keep_greater-All r (some (top, rest)) p a = elim (Bool-cases (less r top)) [
    | inl lt_ ↦ rw lt_ (a.0, (p, a.1))
    | inr ge ↦ rw ge (p, a)
  ]

  pop_greatest-All : (q : List TraceRequest) → All P q → AllTaken (pop_greatest q)
  unfolding pop_greatest
  pop_greatest-All [] a = tt
  pop_greatest-All (r ∷ q) a = keep_greater-All r (pop_greatest q) a.0 (pop_greatest-All q a.1)

  abbrev pub AllTakenQueue : Option (TraceRequest × QueueInner) → Type κ
  AllTakenQueue none = Unit
  AllTakenQueue (some (r, q)) = P r × All P (requests q)

  take_heap-All :
      (o : Option (TraceRequest × List TraceRequest)) → AllTaken o → AllTakenQueue (take_heap o)
  unfolding take_heap
  take_heap-All none a = tt
  take_heap-All (some (r, q)) a = a

  pub take_queue-All : (q : QueueInner) → All P (requests q) → AllTakenQueue (take_queue q)
  unfolding take_queue
  take_queue-All (fifo []) a = tt
  take_queue-All (fifo (r ∷ q)) a = a
  take_queue-All (heap q) a = take_heap-All (pop_greatest q) (pop_greatest-All q a)
