-- ===== src/Wal/Reader.antt =====
-- xerv-core/src/wal/writer/reader.rs: reading the log's files, and the traces that they leave
-- incomplete. A file is its sequence number and its bytes; opening, seeking and reading it do not
-- fail, except at its end.
pub mod Totality
pub mod Safety
pub mod RoundTrip
pub mod Replay
pub mod Located
pub mod Directory
use xerv.Prelude.{
  ℕ, zero, suc, ◌+◌, Bool, true, false, not, Option, none, some, List, [], ◌∷◌, ◌++◌, Result, ok,
  err, ◌>>=◌, ltb, leb, nat_beq, length, filter_by, if◌then◌else◌, nat_eq, ◌==◌,
}
use xerv.HashMap
use xerv.HashMap.{HashMap}
use xerv.Wal.Bytes.{Failure, slice_panic, read_exact, read_uint, drop}
use xerv.Wal.RecordType.{WalRecordType}
use xerv.Wal.Record.{Text, WalRecord, from_bytes, min_record_size}

-- The variants of `XervError` that the reader returns, and a panic of `from_bytes`.
pub data ReadError : Type 0 where
  wal_read : ReadError
  wal_corruption : (position length : ℕ) → ReadError
  panicked : ReadError

-- xerv-core/src/wal/snapshot.rs
pub record WalPosition : Type 0 where
  pub file_sequence : ℕ
  pub offset : ℕ

-- The records before an error are dropped with it (`?`); a record that does not decode is left out.
pub keep :
    Result WalRecord Failure
    → Option (Result (List WalRecord) ReadError)
    → Option (Result (List WalRecord) ReadError)
keep (ok record_) (some (ok records)) = some (ok (record_ ∷ records))
keep (ok record_) rest = rest
keep (err (slice_panic _ _)) rest = some (err panicked)
keep (err _) rest = rest

module _ (crc32 : List ℕ → ℕ) (from_utf8_lossy : List ℕ → Text) where
  -- The loop of `read_file_from`, on fuel; `reader` is what is left of the file.
  unfoldable pub read_loop : ℕ → List ℕ → ℕ → Option (Result (List WalRecord) ReadError)
  unfolding keep
  read_loop zero reader position = none
  read_loop (suc fuel) reader position = elim (read_uint 4 reader) [
    | err e ↦ some (ok [])
    | ok (length_, _) ↦
        if ltb length_ min_record_size
        then some (err (wal_corruption (position + 4) length_))
        else elim (read_exact length_ reader) [
          | err e ↦ some (err wal_read)
          | ok (buf, later) ↦
              keep (from_bytes crc32 from_utf8_lossy buf)
                (read_loop fuel later (position + length_))
        ]
  ]

  unfoldable pub read_file_from : List ℕ → ℕ → Option (Result (List WalRecord) ReadError)
  unfolding read_loop
  read_file_from file start_offset =
      read_loop (suc (length (drop start_offset file))) (drop start_offset file) start_offset

-- Location of a node's output in the arena.
pub record NodeOutputLocation : Type 0 where
  pub offset : ℕ
  pub size : ℕ
  pub schema_hash : ℕ

pub record TraceRecoveryState : Type 0 where
  pub trace_id : ℕ
  pub last_completed_node : Option ℕ
  pub suspended_at : Option ℕ
  pub started_nodes : List ℕ
  pub completed_nodes : HashMap ℕ NodeOutputLocation
  pub suspension_metadata : Option Text

abbrev pub started_trace : ℕ → TraceRecoveryState
started_trace trace_id = record {
  trace_id = trace_id;
  last_completed_node = none;
  suspended_at = none;
  started_nodes = [];
  completed_nodes = [];
  suspension_metadata = none;
}

abbrev pub Traces : Type 0
Traces = HashMap ℕ TraceRecoveryState

-- A change through the reference of `get_mut`, if the trace is known.
unfoldable pub change : Traces → ℕ → (TraceRecoveryState → TraceRecoveryState) → Traces
change traces id f = elim (HashMap.get traces id) [
  | none ↦ traces
  | some state ↦ HashMap.insert traces id (f state)
]

pub node_started : ℕ → TraceRecoveryState → TraceRecoveryState
node_started node_id state = record state { started_nodes = state.started_nodes ++ node_id ∷ [] }

unfoldable pub node_finished : WalRecord → TraceRecoveryState → TraceRecoveryState
node_finished r state = record state {
  last_completed_node = some r.node_id;
  started_nodes = filter_by (λ n. not (n == r.node_id)) state.started_nodes;
  completed_nodes =
      HashMap.insert state.completed_nodes r.node_id
        (record { offset = r.output_offset; size = r.output_size; schema_hash = r.schema_hash });
}

unfoldable pub suspended : WalRecord → TraceRecoveryState → TraceRecoveryState
suspended r state = record state { suspended_at = some r.node_id; suspension_metadata = r.metadata }

unfoldable pub resumed : TraceRecoveryState → TraceRecoveryState
resumed state = record state { suspended_at = none }

unfoldable pub apply_by_type : WalRecordType → Traces → WalRecord → Traces
apply_by_type WalRecordType.trace_start traces r =
    HashMap.insert traces r.trace_id (started_trace r.trace_id)
apply_by_type WalRecordType.node_start traces r = change traces r.trace_id (node_started r.node_id)
apply_by_type WalRecordType.node_done traces r = change traces r.trace_id (node_finished r)
apply_by_type WalRecordType.trace_complete traces r = HashMap.remove traces r.trace_id
apply_by_type WalRecordType.trace_failed traces r = HashMap.remove traces r.trace_id
apply_by_type WalRecordType.trace_suspended traces r = change traces r.trace_id (suspended r)
apply_by_type WalRecordType.trace_resumed traces r = change traces r.trace_id resumed
apply_by_type WalRecordType.node_error traces r = traces
apply_by_type WalRecordType.checkpoint traces r = traces
apply_by_type WalRecordType.loop_iteration traces r = traces
apply_by_type WalRecordType.loop_exit traces r = traces

unfoldable pub apply_record_to_traces : Traces → WalRecord → Traces
unfolding apply_by_type
apply_record_to_traces traces r = apply_by_type r.record_type traces r

-- The loop of `get_incomplete_traces_from` over the records that were read.
unfoldable pub replay : Traces → List WalRecord → Traces
replay traces [] = traces
replay traces (r ∷ records) = replay (apply_record_to_traces traces r) records

-- `sort_by_key` on the sequence numbers of files.
module _ {A : Type 0} where
  insert_by_key : ℕ × A → List (ℕ × A) → List (ℕ × A)
  insert_by_key file [] = file ∷ []
  insert_by_key file (g ∷ files) =
      if leb file.0 g.0 then file ∷ g ∷ files else g ∷ insert_by_key file files

  pub sort_by_key : List (ℕ × A) → List (ℕ × A)
  unfolding insert_by_key
  sort_by_key [] = []
  sort_by_key (file ∷ files) = insert_by_key file (sort_by_key files)

pub extend :
    Option (Result (List WalRecord) ReadError)
    → Option (Result (List WalRecord) ReadError)
    → Option (Result (List WalRecord) ReadError)
extend (some (ok records)) (some (ok more)) = some (ok (records ++ more))
extend (some (ok records)) rest = rest
extend failed rest = failed

module _ (crc32 : List ℕ → ℕ) (from_utf8_lossy : List ℕ → Text) where
  pub read_files : WalPosition → List (ℕ × List ℕ) → Option (Result (List WalRecord) ReadError)
  unfolding extend
  read_files start [] = some (ok [])
  read_files start ((seq, bytes) ∷ files) =
      let rest = read_files start files in
      if ltb seq start.file_sequence
      then rest
      else extend
          (read_file_from crc32 from_utf8_lossy bytes
            (if seq == start.file_sequence then start.offset else 0))
          rest

  pub read_from : List (ℕ × List ℕ) → WalPosition → Option (Result (List WalRecord) ReadError)
  unfolding read_files sort_by_key
  read_from directory start = read_files start (sort_by_key directory)

  abbrev pub replayed :
      Traces → Option (Result (List WalRecord) ReadError) → Option (Result Traces ReadError)
  replayed traces (some (ok records)) = some (ok (replay traces records))
  replayed traces (some (err e)) = some (err e)
  replayed traces none = none

  unfoldable pub get_incomplete_traces_from :
      List (ℕ × List ℕ) → WalPosition → Traces → Option (Result Traces ReadError)
  unfolding read_from
  get_incomplete_traces_from directory start_position initial_traces =
      replayed initial_traces (read_from directory start_position)
