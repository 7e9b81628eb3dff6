-- ===== src/Dispatch/Memory/Priority.antt =====
-- The order of the priority queue: the request that is popped is a greatest one.
use xerv.Prelude.{
  ℕ, ◌≡◌, Bool, true, false, ◌&&◌, not, Option, none, some, List, [], ◌∷◌, arith, if◌then◌else◌,
  Bool-cases, inl, inr, ltb,
}
use xerv.Prelude.Int.{ℤ, pos, negsuc, leb_int}
use xerv.Dispatch.Request.{TraceRequest}
use xerv.Dispatch.Memory.{less, keep_greater, pop_greatest}
use xerv.Dispatch.Memory.Queue.{All}

-- `less` on the two fields that it reads.
abbrev below : ℤ → ℕ → ℤ → ℕ → Bool
below p s q t = if not (leb_int q p) then true else leb_int p q && ltb t s

below_asym : (p q : ℤ) (s t : ℕ) → below p s q t ≡ true → below q t p s ≡ false
below_asym (pos p) (pos q) s t h = ground arith
below_asym (pos p) (negsuc q) s t h = ground arith
below_asym (negsuc p) (pos q) s t h = ground arith
below_asym (negsuc p) (negsuc q) s t h = ground arith

-- What is not below `q` is not below what is below or level with `q`.
below_trans :
    (p q r : ℤ) (s t u : ℕ) → below p s q t ≡ false → below q t r u ≡ false → below p s r u ≡ false
below_trans (pos p) (pos q) (pos r) s t u h k = ground arith
below_trans (pos p) (pos q) (negsuc r) s t u h k = ground arith
below_trans (pos p) (negsuc q) (pos r) s t u h k = ground arith
below_trans (pos p) (negsuc q) (negsuc r) s t u h k = ground arith
below_trans (negsuc p) (pos q) (pos r) s t u h k = ground arith
below_trans (negsuc p) (pos q) (negsuc r) s t u h k = ground arith
below_trans (negsuc p) (negsuc q) (pos r) s t u h k = ground arith
below_trans (negsuc p) (negsuc q) (negsuc r) s t u h k = ground arith

-- None of the requests is greater than `top`.
abbrev pub IsGreatest : TraceRequest → List TraceRequest → Type 0
IsGreatest top q = All (λ r. less top r ≡ false) q

IsGreatest-trans :
    (a b : TraceRequest) (q : List TraceRequest)
    → less a b ≡ false
    → IsGreatest b q
    → IsGreatest a q
IsGreatest-trans a b [] h g = tt
IsGreatest-trans a b (x ∷ q) h g = (
  below_trans a.priority b.priority x.priority a.created_at_ms b.created_at_ms x.created_at_ms h
      g.0,
  IsGreatest-trans a b q h g.1,
)

abbrev pub GreatestOf : Option (TraceRequest × List TraceRequest) → Type 0
GreatestOf none = Unit
GreatestOf (some (top, rest)) = IsGreatest top rest

keep_greater-IsGreatest :
    (r : TraceRequest) (o : Option (TraceRequest × List TraceRequest))
    → GreatestOf o
    → GreatestOf (some (keep_greater r o))
unfolding keep_greater
keep_greater-IsGreatest r none g = tt
keep_greater-IsGreatest r (some (top, rest)) g = elim (Bool-cases (less r top)) [
  | inl lt_ ↦ rw lt_ (below_asym r.priority top.priority r.created_at_ms top.created_at_ms lt_, g)
  | inr ge ↦ rw ge (ge, IsGreatest-trans r top rest ge g)
]

pub pop_greatest-IsGreatest : (q : List TraceRequest) → GreatestOf (pop_greatest q)
unfolding pop_greatest
pop_greatest-IsGreatest [] = tt
pop_greatest-IsGreatest (r ∷ q) =
    keep_greater-IsGreatest r (pop_greatest q) (pop_greatest-IsGreatest q)
