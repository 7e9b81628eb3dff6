-- ===== src/Wal/Reader/Replay.antt =====
-- What recovery finds out about a trace depends on that trace's records only, and it is found
-- incomplete exactly if it was started and not ended since.
use xerv.Prelude.{
  ℕ, ◌≡◌, refl, ◌∙◌, Bool, true, false, Option, none, some, List, [], ◌∷◌, arith, ◌==◌, nat_eq,
  nat_beq_iff, if◌then◌else◌, filter_by, is_some, get_or, Option-cases, Bool-cases, inl, inr,
}
use xerv.HashMap
use xerv.HashMap.{HashMap}
use xerv.HashMap.Laws.{get-insert, get-remove}
use xerv.Wal.RecordType.{WalRecordType}
use xerv.Wal.Record.{WalRecord}
use xerv.Wal.Reader.{
  Traces, TraceRecoveryState, started_trace, change, node_started, node_finished, suspended,
  resumed, apply_by_type, apply_record_to_traces, replay,
}

abbrev pub option_map {ℓ κ} : {A : Type ℓ} {B : Type κ} → (A → B) → Option A → Option B
option_map f none = none
option_map f (some a) = some (f a)

get-change :
    (m : Traces) (id t : ℕ) (f : TraceRecoveryState → TraceRecoveryState)
    → HashMap.get (change m id f) t
      ≡ (if id == t then option_map f (HashMap.get m t) else HashMap.get m t)
unfolding change
get-change m id t f = elim (Option-cases (HashMap.get m id)) [
  | inl q ↦ ground (arith, q, nat_beq_iff id t)
  | inr (x, q) ↦ ground (arith, q, nat_beq_iff id t, get-insert m id t (f x))
]

-- The effect of a record on what is known of its own trace.
abbrev pub effect :
    WalRecordType → WalRecord → Option TraceRecoveryState → Option TraceRecoveryState
effect WalRecordType.trace_start r o = some (started_trace r.trace_id)
effect WalRecordType.node_start r o = option_map (node_started r.node_id) o
effect WalRecordType.node_done r o = option_map (node_finished r) o
effect WalRecordType.trace_complete r o = none
effect WalRecordType.trace_failed r o = none
effect WalRecordType.trace_suspended r o = option_map (suspended r) o
effect WalRecordType.trace_resumed r o = option_map resumed o
effect WalRecordType.node_error r o = o
effect WalRecordType.checkpoint r o = o
effect WalRecordType.loop_iteration r o = o
effect WalRecordType.loop_exit r o = o

get-apply_by_type :
    (ty : WalRecordType) (m : Traces) (r : WalRecord) (t : ℕ)
    → HashMap.get (apply_by_type ty m r) t
      ≡ (if r.trace_id == t then effect ty r (HashMap.get m t) else HashMap.get m t)
unfolding apply_by_type
get-apply_by_type WalRecordType.trace_start m r t =
    get-insert m r.trace_id t (started_trace r.trace_id)
get-apply_by_type WalRecordType.node_start m r t =
    get-change m r.trace_id t (node_started r.node_id)
get-apply_by_type WalRecordType.node_done m r t = get-change m r.trace_id t (node_finished r)
get-apply_by_type WalRecordType.trace_complete m r t = get-remove m r.trace_id t
get-apply_by_type WalRecordType.trace_failed m r t = get-remove m r.trace_id t
get-apply_by_type WalRecordType.trace_suspended m r t = get-change m r.trace_id t (suspended r)
get-apply_by_type WalRecordType.trace_resumed m r t = get-change m r.trace_id t resumed
get-apply_by_type WalRecordType.node_error m r t = ground arith
get-apply_by_type WalRecordType.checkpoint m r t = ground arith
get-apply_by_type WalRecordType.loop_iteration m r t = ground arith
get-apply_by_type WalRecordType.loop_exit m r t = ground arith

pub get-apply :
    (m : Traces) (r : WalRecord) (t : ℕ)
    → HashMap.get (apply_record_to_traces m r) t
      ≡ (if r.trace_id == t then effect r.record_type r (HashMap.get m t) else HashMap.get m t)
unfolding apply_record_to_traces
get-apply m r t = get-apply_by_type r.record_type m r t

replay_local :
    (m n : Traces) (records : List WalRecord) (t : ℕ)
    → HashMap.get m t ≡ HashMap.get n t
    → HashMap.get (replay m records) t ≡ HashMap.get (replay n records) t
unfolding replay
replay_local m n [] t h = h
replay_local m n (r ∷ records) t h =
    replay_local (apply_record_to_traces m r) (apply_record_to_traces n r) records t
      (rw (get-apply m r t, get-apply n r t, h) refl)

abbrev pub about : ℕ → WalRecord → Bool
about t r = r.trace_id == t

-- What recovery knows of a trace is what the records of that trace alone say.
pub replay-filter_by :
    (m : Traces) (records : List WalRecord) (t : ℕ)
    → HashMap.get (replay m records) t ≡ HashMap.get (replay m (filter_by (about t) records)) t
unfolding replay
replay-filter_by m [] t = refl
replay-filter_by m (r ∷ records) t = elim (Bool-cases (r.trace_id == t)) [
  | inl own ↦ rw own (replay-filter_by (apply_record_to_traces m r) records t)
  | inr other ↦ rw other (
      replay_local (apply_record_to_traces m r) m records t (rw (get-apply m r t, other) refl)
      ∙ replay-filter_by m records t)
]

abbrev type_decides : WalRecordType → Option Bool
type_decides WalRecordType.trace_start = some true
type_decides WalRecordType.trace_complete = some false
type_decides WalRecordType.trace_failed = some false
type_decides _ = none

-- The last record that starts or ends the trace decides.
abbrev pub last_word : ℕ → List WalRecord → Option Bool
last_word t [] = none
last_word t (r ∷ records) = elim (last_word t records) [
  | some b ↦ some b
  | none ↦ if r.trace_id == t then type_decides r.record_type else none
]

is_some-effect :
    (ty : WalRecordType) (r : WalRecord) (o : Option TraceRecoveryState)
    → is_some (effect ty r o) ≡ get_or (type_decides ty) (is_some o)
is_some-effect WalRecordType.trace_start r o = refl
is_some-effect WalRecordType.node_start r o = ground arith
is_some-effect WalRecordType.node_done r o = ground arith
is_some-effect WalRecordType.trace_complete r o = refl
is_some-effect WalRecordType.trace_failed r o = refl
is_some-effect WalRecordType.trace_suspended r o = ground arith
is_some-effect WalRecordType.trace_resumed r o = ground arith
is_some-effect WalRecordType.node_error r o = refl
is_some-effect WalRecordType.checkpoint r o = refl
is_some-effect WalRecordType.loop_iteration r o = refl
is_some-effect WalRecordType.loop_exit r o = refl

-- A trace is found incomplete exactly if the last record that starts or ends it starts it, or if
-- there is none and it was incomplete before.
pub replay_exact :
    (m : Traces) (records : List WalRecord) (t : ℕ)
    → is_some (HashMap.get (replay m records) t)
      ≡ get_or (last_word t records) (is_some (HashMap.get m t))
unfolding replay
replay_exact m [] t = refl
replay_exact m (r ∷ records) t = ground (
  arith,
  replay_exact (apply_record_to_traces m r) records t,
  get-apply m r t,
  is_some-effect r.record_type r (HashMap.get m t),
)
