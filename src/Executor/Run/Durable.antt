-- ===== src/Executor/Run/Durable.antt =====
-- The log holds every output that the loop of `execute_trace` knows of.
pub mod Turn
pub mod Written
pub mod Steps
pub mod Log
pub mod Holds
use xerv.Prelude.{
  String, nat_eq, ℕ, ◌+◌, ◌≡◌, Bool, true, false, Option, none, some, List, arith, contains,
  if◌then◌else◌, ok, get_elem?,
}
use xerv.HashMap
use xerv.NodeOutput.{RelPtr, NodeOutput, complete}
use xerv.TraceState.{TraceState}
use xerv.Wal.Record.{WalRecord}
use xerv.Wal.Reader.{NodeOutputLocation}
use xerv.Wal.Reader.Located.{is_found, location}
use xerv.Executor.{Executor, Execution, JoinResult, finished}
use xerv.Executor.Run.{Phase, going, draining, stopped}
use xerv.Executor.Run.Invariant.{is_spawned}

abbrev pub located_at : RelPtr → ℕ → NodeOutputLocation
located_at d h = record { offset = d.offset; size = d.size; schema_hash = h }

module _ {V : Type 0} where
  -- The outputs of the nodes that this execution spawned, and the results that wait for the loop.
  pub record IsLogged (id : ℕ) (t : TraceState V) (x : Execution V) : Type 0 where
    pub entry : is_found x.executor.wal id ≡ true
    pub outputs :
        (k : ℕ) (port : String) (d : RelPtr) (h : ℕ)
        → is_spawned x k ≡ true
        → HashMap.get t.outputs k ≡ some (complete port d h)
        → location x.executor.wal id k ≡ some (located_at d h)
    pub results :
        (i k : ℕ) (port : String) (d : RelPtr) (h : ℕ)
        → get_elem? x.tasks.done i ≡ some (finished k (ok (complete port d h)))
        → location x.executor.wal id k ≡ some (located_at d h)

  abbrev pub AreLogged : ℕ → Execution V → Type 0
  AreLogged id x = (t : TraceState V) → HashMap.get x.executor.traces id ≡ some t → IsLogged id t x

  abbrev pub AreLoggedPhase : ℕ → Phase V → Type 0
  AreLoggedPhase id (going x) = AreLogged id x
  AreLoggedPhase id (draining x _ _ _) = AreLogged id x
  AreLoggedPhase id (stopped ex result) = Unit
