-- ===== src/Executor/Run/Durable/Log.antt =====
-- A result whose output the loop records is in the log.
use xerv.Prelude.{
  ℕ, zero, suc, ◌≡◌, ◌∙◌, sym, ap, refl, some, List, [], ◌∷◌, arith, nat_eq, nat_beq_iff, ◌==◌, ok,
  err, Option-cases, Bool-cases, inl, inr, get_elem?,
}
use xerv.HashMap
use xerv.HashMap.{contains_key}
use xerv.HashMap.Laws.{get-insert}
use xerv.NodeOutput.{NodeOutput, complete, error, suspend}
use xerv.TraceState.{TraceState, record_output}
use xerv.TraceState.Laws.{AreOutputs, record_output-AreOutputs}
use xerv.Executor.{Texts, JoinResult, finished, panicked, Execution, change_trace}
use xerv.Executor.Run.{take_at, turn, record_in}
use xerv.Executor.Run.Durable.{IsLogged, AreLogged, AreLoggedPhase}
use xerv.Executor.Run.{process_node_result, drain_result}
use xerv.Executor.Run.Recorded.{without, recorded-trace}
use xerv.Executor.Run.Durable.Turn.{turn-AreLogged}
use xerv.Executor.Run.Durable.Steps.{AreSound}

get_elem?-take_at :
    {A : Type 0} (xs : List A) (i : ℕ) {y : A} {ys : List A}
    → take_at xs i ≡ some (y, ys)
    → get_elem? xs i ≡ some y
unfolding take_at
get_elem?-take_at [] i h = absurd (ground arith)
get_elem?-take_at (x ∷ xs) zero h = cc
get_elem?-take_at (x ∷ xs) (suc i) {y} {ys} h = elim (Option-cases (take_at xs i)) [
  | inl q ↦ absurd (ground arith)
  | inr ((z, zs), q) ↦ get_elem?-take_at xs i {ys = zs} (ground (arith, q))
]

-- What is left was there before.
left_from :
    {A : Type 0} (xs : List A) (i : ℕ) {y : A} {ys : List A}
    → take_at xs i ≡ some (y, ys)
    → (j : ℕ) {b : A} → get_elem? ys j ≡ some b
    → (k : ℕ) × (get_elem? xs k ≡ some b)
unfolding take_at
left_from [] i h j q = absurd (ground arith)
left_from (x ∷ xs) zero {y} {ys} h j q =
    let same : ys ≡ xs = cc in (suc j, ap (λ zs. get_elem? zs j) (sym same) ∙ q)
left_from (x ∷ xs) (suc i) {y} {ys} h zero q = elim (Option-cases (take_at xs i)) [
  | inl p ↦ absurd (ground arith)
  | inr ((z, zs), p) ↦ (zero, ground (arith, p))
]
left_from (x ∷ xs) (suc i) {y} {ys} h (suc j) {b} q = elim (Option-cases (take_at xs i)) [
  | inl p ↦ absurd (ground arith)
  | inr ((z, zs), p) ↦
      let same : ys ≡ x ∷ zs = ground (arith, p) in
      let (k, at) =
        left_from xs i {y = z} {ys = zs} p j {b = b}
          (ap (λ ws. get_elem? ws (suc j)) (sym same) ∙ q) in
      (suc k, at)
]

module _ {V : Type 0} (id : ℕ) (x : Execution V) (rest : List (JoinResult V)) (i : ℕ)
    {r : JoinResult V} (taken : take_at x.tasks.done i ≡ some (r, rest)) where
  without-IsLogged : (t : TraceState V) → IsLogged id t x → IsLogged id t (without x rest)
  without-IsLogged t l = record {
    entry = l.entry;
    outputs = l.outputs;
    results = λ j n p d h at.
        let (j', before) = left_from x.tasks.done i taken j at in l.results j' n p d h before;
  }

module _ {V : Type 0} (id k : ℕ) (o : NodeOutput V) (x : Execution V) (rest : List (JoinResult V))
    (i : ℕ) {r : JoinResult V} (taken : take_at x.tasks.done i ≡ some (r, rest)) where
  recorded-wal : (record_in id (without x rest) k o).executor.wal ≡ x.executor.wal
  unfolding change_trace
  recorded-wal = elim (Option-cases (HashMap.get x.executor.traces id)) [
    | inl q ↦ rw (change_trace, q) refl
    | inr (t, q) ↦ rw (change_trace, q) refl
  ]

  recorded-IsLogged :
      (t : TraceState V)
      → r ≡ finished k (ok o)
      → IsLogged id t x
      → IsLogged id (record_output t k o) (record_in id (without x rest) k o)
  unfolding record_output
  recorded-IsLogged t own l =
      let at_i = get_elem?-take_at x.tasks.done i taken in
      let w = without-IsLogged id x rest i taken t l in
      record {
        entry = rw recorded-wal l.entry;
        outputs = λ n p d h spawned out. elim (Bool-cases (k == n)) [
          | inl b ↦
              let same_output : o ≡ complete p d h =
                ground (arith, out, b, get-insert t.outputs k n o) in
              let same_node : k ≡ n = (nat_beq_iff k n).0 b in
              rw recorded-wal (l.results i n p d h cc)
          | inr b ↦
              rw recorded-wal
                (l.outputs n p d h spawned (ground (arith, out, b, get-insert t.outputs k n o)))
        ];
        results = λ j n p d h at. rw recorded-wal (w.results j n p d h at);
      }

module _ {V : Type 0} (id : ℕ) where
  recorded-turn-AreLogged :
      (texts : Texts V) (k : ℕ) (o : NodeOutput V) (x : Execution V) (rest : List (JoinResult V))
      (i : ℕ)
      → take_at x.tasks.done i ≡ some (finished k (ok o), rest)
      → AreSound texts id x
      → AreLogged id x
      → AreLoggedPhase id (turn texts id (record_in id (without x rest) k o))
  recorded-turn-AreLogged texts k o x rest i q s l =
      turn-AreLogged id texts (record_in id (without x rest) k o) (λ t h.
        let (t', known, same) = recorded-trace id k o x rest i q t h in
        let both : AreOutputs (record_output t' k o)
            × IsLogged id (record_output t' k o) (record_in id (without x rest) k o) =
          (
            record_output-AreOutputs t' k o (s t' known).are_outputs,
            recorded-IsLogged id k o x rest i q t' refl (l t' known),
          ) in
        rw same at both)

  recorded-AreLogged :
      (k : ℕ) (o : NodeOutput V) (x : Execution V) (rest : List (JoinResult V)) (i : ℕ)
      → take_at x.tasks.done i ≡ some (finished k (ok o), rest)
      → AreLogged id x
      → AreLogged id (record_in id (without x rest) k o)
  recorded-AreLogged k o x rest i q l t h =
      let (t', known, same) = recorded-trace id k o x rest i q t h in
      rw same at (recorded-IsLogged id k o x rest i q t' refl (l t' known))

  without-AreLogged :
      (x : Execution V) (rest : List (JoinResult V)) (i : ℕ) {r : JoinResult V}
      → take_at x.tasks.done i ≡ some (r, rest)
      → AreLogged id x
      → AreLogged id (without x rest)
  without-AreLogged x rest i q l t known = without-IsLogged id x rest i q t (l t known)

  module _ (texts : Texts V) where
    pub processed-AreLogged :
        (x : Execution V) (r : JoinResult V) (rest : List (JoinResult V)) (i : ℕ)
        → take_at x.tasks.done i ≡ some (r, rest)
        → AreSound texts id x
        → AreLogged id x
        → AreLoggedPhase id (process_node_result texts id (without x rest) r)
    unfolding process_node_result
    processed-AreLogged x (finished k (ok (complete p d h))) rest i q s l =
        recorded-turn-AreLogged texts k (complete p d h) x rest i q s l
    processed-AreLogged x (finished k (ok (error m d))) rest i q s l =
        recorded-turn-AreLogged texts k (error m d) x rest i q s l
    processed-AreLogged x (finished k (ok (suspend r p))) rest i q s l =
        without-AreLogged x rest i q l
    processed-AreLogged x (finished k (err e)) rest i q s l = tt
    processed-AreLogged x (panicked k) rest i q s l = tt

    pub drained-AreLogged :
        (x : Execution V) (r : JoinResult V) (rest : List (JoinResult V)) (i : ℕ)
        → take_at x.tasks.done i ≡ some (r, rest)
        → AreLogged id x
        → AreLogged id (drain_result id (without x rest) r)
    unfolding drain_result
    drained-AreLogged x (finished k (ok (complete p d h))) rest i q l =
        recorded-AreLogged k (complete p d h) x rest i q l
    drained-AreLogged x (finished k (ok (error m d))) rest i q l =
        recorded-AreLogged k (error m d) x rest i q l
    drained-AreLogged x (finished k (ok (suspend r p))) rest i q l = without-AreLogged x rest i q l
    drained-AreLogged x (finished k (err e)) rest i q l = without-AreLogged x rest i q l
    drained-AreLogged x (panicked k) rest i q l = without-AreLogged x rest i q l
