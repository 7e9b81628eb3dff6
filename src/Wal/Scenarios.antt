-- ===== src/Wal/Scenarios.antt =====
-- Runs of the log with a sum in place of the checksum, and a decoder that keeps every text.
use mathlib.Core.List.{Perm}
use xerv.Prelude.{
  ℕ, ◌+◌, ◌%◌, ◌<◌, ◌^◌, ◌≡◌, refl, some, none, List, [], ◌∷◌, ◌++◌, ok, err, map, arith, is_some,
  get_or, nat_eq,
}
use xerv.HashMap
use xerv.Wal.Bytes.{take, drop, slice_panic, le_bytes, be_bytes, read_exact, read_uint}
use xerv.Wal.RecordType.{type_byte, try_from}
use xerv.Wal.Record.{
  Text, WalRecord, trace_start, node_start, node_done, node_error, trace_complete, with_metadata,
  to_bytes, from_bytes, serialized_size,
}
use xerv.Wal.Record.RoundTrip.{InRange, restored, from_bytes-to_bytes}
use xerv.Wal.Reader.Directory.{
  IsAbove, on_files, all_records, start_of_log, get_incomplete_traces_from-written,
}
use xerv.Wal.Reader.{
  sort_by_key, get_incomplete_traces_from, Traces, read_loop, read_file_from, replay, wal_read,
}
use xerv.Wal.Reader.RoundTrip.{file_of, read_file_from-file_of}
use xerv.Wal.Reader.Replay.{last_word, replay_exact}

abbrev sum : List ℕ → ℕ
sum [] = 0
sum (b ∷ bs) = (b + sum bs) % 2 ^ 32

abbrev as_is : List ℕ → Text
as_is bs = bs

sum_fits : (bytes : List ℕ) → sum bytes < 2 ^ 32
sum_fits [] = omega arith
sum_fits (b ∷ bs) = omega arith

abbrev failed_node : WalRecord
failed_node = with_metadata (node_error 5 77 3 (98 ∷ 97 ∷ 100 ∷ [])) []

failed_node-InRange : InRange as_is failed_node
unfolding serialized_size
failed_node-InRange = record {
  trace_id_fits = omega arith;
  node_id_fits = omega arith;
  timestamp_ns_fits = omega arith;
  output_offset_fits = omega arith;
  output_size_fits = omega arith;
  schema_hash_fits = omega arith;
  iteration_fits = omega arith;
  error_message_text = (refl, omega arith);
  metadata_text = (refl, omega arith);
  size_fits = omega arith;
}

done_node-InRange : InRange as_is (node_done 6 77 3 64 16 9)
unfolding serialized_size
done_node-InRange = record {
  trace_id_fits = omega arith;
  node_id_fits = omega arith;
  timestamp_ns_fits = omega arith;
  output_offset_fits = omega arith;
  output_size_fits = omega arith;
  schema_hash_fits = omega arith;
  iteration_fits = omega arith;
  error_message_text = tt;
  metadata_text = tt;
  size_fits = omega arith;
}

from_bytes-to_bytes_example :
    from_bytes sum as_is (to_bytes sum failed_node) ≡ ok (restored failed_node)
from_bytes-to_bytes_example = from_bytes-to_bytes sum as_is sum_fits failed_node failed_node-InRange

-- The metadata, present and empty, is read back as absent.
empty_is_absent : (restored failed_node).metadata ≡ none
empty_is_absent = refl

abbrev written : List WalRecord
written = failed_node ∷ node_done 6 77 3 64 16 9 ∷ []

read_file_from-file_of_example :
    read_file_from sum as_is (file_of sum written) 0 ≡ some (ok (map restored written))
read_file_from-file_of_example =
    read_file_from-file_of sum as_is sum_fits written (failed_node-InRange, (done_node-InRange, tt))

abbrev zeros : List ℕ
zeros = be_bytes 29 0

-- A buffer of 29 zero bytes names a length of 0, before the end of its header.
zeros_panic : from_bytes sum as_is zeros ≡ err (slice_panic 29 0)
unfolding from_bytes be_bytes read_exact read_uint try_from
zeros_panic = refl

-- A crash in the middle of a write leaves the length of a record without the rest of it.
abbrev torn : List ℕ
torn = to_bytes sum (trace_start 1 77) ++ (70 ∷ 0 ∷ 0 ∷ 0 ∷ 1 ∷ 2 ∷ [])

-- The whole record before the torn one is lost with it.
torn_tail : read_file_from sum as_is torn 0 ≡ some (err wal_read)
unfolding read_file_from read_loop read_exact read_uint to_bytes le_bytes be_bytes from_bytes
    try_from type_byte drop take
torn_tail = refl

abbrev log : List WalRecord
log =
    trace_start 1 77
    ∷ trace_start 2 78
    ∷ node_start 3 77 3
    ∷ trace_complete 4 78
    ∷ node_done 5 77 3 64 16 9
    ∷ []

abbrev nothing : Traces
nothing = []

replay_exact_example :
    is_some (HashMap.get (replay [] log) 78)
    ≡ get_or (last_word 78 log) (is_some (HashMap.get nothing 78))
replay_exact_example = replay_exact [] log 78

-- The second file is listed first.
abbrev files : List (ℕ × List WalRecord)
files = (2, written) ∷ (1, failed_node ∷ []) ∷ []

get_incomplete_traces_from-written_example :
    Perm files (sort_by_key files)
    × IsAbove 0 (sort_by_key files)
    × (get_incomplete_traces_from sum as_is (on_files (file_of sum) files) start_of_log []
        ≡ some (ok (replay [] (all_records (sort_by_key files)))))
get_incomplete_traces_from-written_example =
    get_incomplete_traces_from-written sum as_is sum_fits files
      ((failed_node-InRange, (done_node-InRange, tt)), ((failed_node-InRange, tt), tt))
