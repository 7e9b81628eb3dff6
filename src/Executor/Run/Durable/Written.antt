-- ===== src/Executor/Run/Durable/Written.antt =====
-- What the execution of a node does to the log: a task writes its output's record before the loop
-- learns of the output.
use xerv.Prelude.{
  ℕ, zero, suc, ◌<◌, ◌≡◌, ap, ◌≢◌, ◌⊎◌, refl, String, true, false, some, List, [], ◌∷◌, ◌++◌, arith,
  nat_eq, nat_beq_iff, ◌==◌, ok, err, inl, inr, get_elem?, occurs,
}
use xerv.Errors.{XervResult}
use xerv.NodeOutput.{RelPtr, NodeOutput, complete, error, suspend}
use xerv.Wal.Record
use xerv.Wal.Record.{Text, WalRecord}
use xerv.Wal.Reader.Located.{
  is_found, location, found-node_error, found-node_done, location-node_done,
}
use xerv.Executor.{
  Executor, Texts, Answer, returned, failed, timed_out, JoinResult, execute_single_node, written,
  write,
}
use xerv.Executor.Run.Invariant.{result_id, result_ids}
use xerv.Executor.Run.Durable.{located_at}

pub get_elem?-snoc :
    {A : Type 0} (xs : List A) (a : A) (i : ℕ) {b : A}
    → get_elem? (xs ++ a ∷ []) i ≡ some b
    → (get_elem? xs i ≡ some b) ⊎ (a ≡ b)
get_elem?-snoc [] a zero h = inr cc
get_elem?-snoc [] a (suc i) h = absurd (ground arith)
get_elem?-snoc (x ∷ xs) a zero h = inl h
get_elem?-snoc (x ∷ xs) a (suc i) h = get_elem?-snoc xs a i h

module _ {V : Type 0} where
  pub occurs_result :
      (rs : List (JoinResult V)) (i : ℕ) (r : JoinResult V)
      → get_elem? rs i ≡ some r
      → 0 < occurs (result_id r) (result_ids rs)
  occurs_result [] i r h = absurd (ground arith)
  occurs_result (s ∷ rs) zero r h =
      let same : s ≡ r = cc in
      ground (arith, ap result_id same, nat_beq_iff (result_id s) (result_id r))
  occurs_result (s ∷ rs) (suc i) r h = ground (arith, occurs_result rs i r h)

  -- What the execution of a node does to the log.
  pub record IsWritten (id k : ℕ) (wal : List WalRecord) (ex : Executor V)
      (result : XervResult (NodeOutput V)) : Type 0 where
    pub found : is_found ex.wal id ≡ true
    pub others : (j : ℕ) → (k == j) ≡ false → location ex.wal id j ≡ location wal id j
    pub own :
        (port : String) (d : RelPtr) (h : ℕ)
        → result ≡ ok (complete port d h)
        → location ex.wal id k ≡ some (located_at d h)

  module _ (texts : Texts V) (now id k : ℕ) (ex : Executor V) (f : is_found ex.wal id ≡ true) where
    unwritten-IsWritten :
        (result : XervResult (NodeOutput V))
        → ((port : String) (d : RelPtr) (h : ℕ) → result ≢ ok (complete port d h))
        → IsWritten id k ex.wal ex result
    unwritten-IsWritten result not_ok = record {
      found = f;
      others = λ j h. refl;
      own = λ port d h q. absurd (not_ok port d h q);
    }

    error-IsWritten :
        (message : Text) (result : XervResult (NodeOutput V))
        → ((port : String) (d : RelPtr) (h : ℕ) → result ≢ ok (complete port d h))
        → IsWritten id k ex.wal (write (ok tt) (Record.node_error now id k message) ex) result
    unfolding write
    error-IsWritten message result not_ok =
        let same = found-node_error ex.wal id now k message in
        record {
          found = rw same f;
          others = λ j h. rw same refl;
          own = λ port d h q. absurd (not_ok port d h q);
        }

    done-IsWritten :
        (port : String) (d : RelPtr) (h : ℕ)
        → IsWritten id k ex.wal
            (write (ok tt) (Record.node_done now id k d.offset d.size h) ex)
            (ok (complete port d h))
    unfolding write
    done-IsWritten port d h = record {
      found = rw (found-node_done ex.wal id now k d.offset d.size h) f;
      others = λ j other. rw (location-node_done ex.wal id now k d.offset d.size h j f, other) refl;
      own = λ port' d' h' q.
          ground
            (arith, location-node_done ex.wal id now k d.offset d.size h k f, nat_beq_iff k k, q);
    }

    pub execute_single_node-IsWritten :
        (answer : Answer V) (io : XervResult (Unit {0}))
        → IsWritten id k ex.wal
            (execute_single_node texts now id k answer io ex).0
            (execute_single_node texts now id k answer io ex).1
    unfolding execute_single_node written write
    execute_single_node-IsWritten (returned (complete p d h)) (ok _) = done-IsWritten p d h
    execute_single_node-IsWritten (returned (error m d)) (ok _) =
        error-IsWritten _ _ (λ p d' h q. absurd (ground (arith, q)))
    execute_single_node-IsWritten (returned (suspend r p)) io =
        unwritten-IsWritten _ (λ p d' h q. absurd (ground (arith, q)))
    execute_single_node-IsWritten (failed e) (ok _) =
        error-IsWritten _ _ (λ p d' h q. absurd (ground (arith, q)))
    execute_single_node-IsWritten timed_out (ok _) =
        error-IsWritten _ _ (λ p d' h q. absurd (ground (arith, q)))
    execute_single_node-IsWritten (returned (complete p d h)) (err e) =
        unwritten-IsWritten _ (λ p d' h q. absurd (ground (arith, q)))
    execute_single_node-IsWritten (returned (error m d)) (err e) =
        unwritten-IsWritten _ (λ p d' h q. absurd (ground (arith, q)))
    execute_single_node-IsWritten (failed e') (err e) =
        unwritten-IsWritten _ (λ p d' h q. absurd (ground (arith, q)))
    execute_single_node-IsWritten timed_out (err e) =
        unwritten-IsWritten _ (λ p d' h q. absurd (ground (arith, q)))
