-- ===== src/Wal/Record.antt =====
-- xerv-core/src/wal/record.rs: WAL records and their bytes. A `String` is the list of its UTF-8 bytes.
-- The checksum of crc32fast, and the decoder of bytes that are not known to be UTF-8, are
-- parameters. The clock is read by the caller and passed as `now`.
pub mod RoundTrip
pub mod Calm
use xerv.Prelude.{
  ℕ, ◌+◌, ◌-◌, ◌%◌, ◌^◌, Bool, Option, none, some, List, [], ◌∷◌, ◌++◌, Result, ok, err, ◌>>=◌, ltb,
  nat_beq, length, if◌then◌else◌,
}
use xerv.Wal.RecordType.{WalRecordType, type_byte, try_from}
use xerv.Wal.Bytes.{
  Failure, record_too_small, unknown_record_type, record_truncated, crc_mismatch, slice_panic,
  le_bytes, be_bytes, be_value, read_exact, read_uint, take, drop, write_all,
}

abbrev pub Text : Type 0
Text = List ℕ

abbrev pub min_record_size : ℕ
min_record_size = 4 + 4 + 1 + 16 + 4

pub record WalRecord : Type 0 where
  pub record_type : WalRecordType
  pub trace_id : ℕ
  pub node_id : ℕ
  pub timestamp_ns : ℕ
  pub output_offset : ℕ
  pub output_size : ℕ
  pub schema_hash : ℕ
  pub error_message : Option Text
  pub iteration : ℕ
  pub metadata : Option Text

-- The record that the constructors below start from.
abbrev plain : WalRecordType → ℕ → ℕ → ℕ → WalRecord
plain record_type now trace_id node_id = record {
  record_type = record_type;
  trace_id = trace_id;
  node_id = node_id;
  timestamp_ns = now;
  output_offset = 0;
  output_size = 0;
  schema_hash = 0;
  error_message = none;
  iteration = 0;
  metadata = none;
}

abbrev pub trace_start : ℕ → ℕ → WalRecord
trace_start now trace_id = plain WalRecordType.trace_start now trace_id 0

abbrev pub node_start : ℕ → ℕ → ℕ → WalRecord
node_start now trace_id node_id = plain WalRecordType.node_start now trace_id node_id

abbrev pub node_done : ℕ → ℕ → ℕ → ℕ → ℕ → ℕ → WalRecord
node_done now trace_id node_id output_offset output_size schema_hash =
    record (plain WalRecordType.node_done now trace_id node_id) {
      output_offset = output_offset;
      output_size = output_size;
      schema_hash = schema_hash;
    }

abbrev pub node_error : ℕ → ℕ → ℕ → Text → WalRecord
node_error now trace_id node_id error =
    record (plain WalRecordType.node_error now trace_id node_id) { error_message = some error }

abbrev pub trace_complete : ℕ → ℕ → WalRecord
trace_complete now trace_id = plain WalRecordType.trace_complete now trace_id 0

abbrev pub trace_failed : ℕ → ℕ → Text → WalRecord
trace_failed now trace_id error = record (plain WalRecordType.trace_failed now trace_id 0) {
  error_message = some error;
}

abbrev pub trace_suspended : ℕ → ℕ → ℕ → WalRecord
trace_suspended now trace_id node_id = plain WalRecordType.trace_suspended now trace_id node_id

abbrev pub trace_resumed : ℕ → ℕ → WalRecord
trace_resumed now trace_id = plain WalRecordType.trace_resumed now trace_id 0

abbrev pub loop_iteration : ℕ → ℕ → ℕ → ℕ → WalRecord
loop_iteration now trace_id node_id iteration =
    record (plain WalRecordType.loop_iteration now trace_id node_id) { iteration = iteration }

abbrev pub with_metadata : WalRecord → Text → WalRecord
with_metadata r metadata = record r { metadata = some metadata }

-- An optional text, after its length as a u32 (`as u32` keeps the low four bytes), before the bytes
-- written later.
pub write_text : Option Text → List ℕ → List ℕ
write_text (some msg) later = le_bytes 4 (length msg) ++ (msg ++ later)
write_text none later = le_bytes 4 0 ++ later

abbrev pub fixed_fields : WalRecord → List (List ℕ)
fixed_fields r =
    le_bytes 8 r.timestamp_ns
    ∷ le_bytes 8 r.output_offset
    ∷ le_bytes 4 r.output_size
    ∷ le_bytes 8 r.schema_hash
    ∷ le_bytes 4 r.iteration
    ∷ []

unfoldable pub payload_bytes : WalRecord → List ℕ
unfolding write_text
payload_bytes r = write_all (fixed_fields r) (write_text r.error_message (write_text r.metadata []))

abbrev pub text_size : Option Text → ℕ
text_size (some msg) = length msg
text_size none = 0

unfoldable pub serialized_size : WalRecord → ℕ
serialized_size r =
    min_record_size + (8 + 8 + 4 + 8 + 4) + 4 + text_size r.error_message + 4 + text_size r.metadata

-- `&bytes[start..end]`, which panics when the end is before the start.
pub slice : ℕ → ℕ → List ℕ → Result (List ℕ) Failure
slice start end bytes =
    if ltb end start
    then err (slice_panic start end)
    else ok (take (end - start) (drop start bytes))

abbrev pub header : ℕ → ℕ → WalRecord → List (List ℕ)
header total_len crc r =
    le_bytes 4 total_len
    ∷ le_bytes 4 crc
    ∷ le_bytes 1 (type_byte r.record_type)
    ∷ be_bytes 16 r.trace_id
    ∷ le_bytes 4 r.node_id
    ∷ []

unfoldable pub to_bytes : (List ℕ → ℕ) → WalRecord → List ℕ
unfolding payload_bytes
to_bytes crc32 r =
    let payload = payload_bytes r in
    write_all (header (min_record_size + length payload) (crc32 payload) r) payload

module _ (from_utf8_lossy : List ℕ → Text) where
  text_after : ℕ → List ℕ → Result (Option Text × List ℕ) Failure
  text_after len cursor =
      if ltb 0 len
      then (do buf ← read_exact len cursor; ok (some (from_utf8_lossy buf.0), buf.1))
      else ok (none, cursor)

  pub read_text : List ℕ → Result (Option Text × List ℕ) Failure
  unfolding text_after
  read_text cursor = do len ← read_uint 4 cursor; text_after len.0 len.1

  pub parse_payload : WalRecordType → ℕ → ℕ → List ℕ → Result WalRecord Failure
  unfolding read_text
  parse_payload record_type trace_id node_id payload = do
    timestamp_ns ← read_uint 8 payload
    output_offset ← read_uint 8 timestamp_ns.1
    output_size ← read_uint 4 output_offset.1
    schema_hash ← read_uint 8 output_size.1
    iteration ← read_uint 4 schema_hash.1
    error_message ← read_text iteration.1
    metadata ← read_text error_message.1
    ok (record {
      record_type = record_type;
      trace_id = trace_id;
      node_id = node_id;
      timestamp_ns = timestamp_ns.0;
      output_offset = output_offset.0;
      output_size = output_size.0;
      schema_hash = schema_hash.0;
      error_message = error_message.0;
      iteration = iteration.0;
      metadata = metadata.0;
    })

module _ (crc32 : List ℕ → ℕ) (from_utf8_lossy : List ℕ → Text) where
  check_crc : List ℕ → ℕ → Result WalRecord Failure → Result WalRecord Failure
  check_crc payload stored_crc parsed =
      if nat_beq (crc32 payload) stored_crc
      then parsed
      else err (crc_mismatch stored_crc (crc32 payload))

  -- What `from_bytes` does with the header that it has read.
  pub check_payload : List ℕ → ℕ → ℕ → WalRecordType → ℕ → ℕ → Result WalRecord Failure
  unfolding slice parse_payload check_crc
  check_payload bytes total_len stored_crc record_type trace_id node_id =
      if ltb (length bytes) total_len then err (record_truncated total_len (length bytes)) else (do
        payload ← slice min_record_size total_len bytes
        check_crc payload stored_crc
            (parse_payload from_utf8_lossy record_type trace_id node_id payload))

  unfoldable pub from_bytes : List ℕ → Result WalRecord Failure
  unfolding check_payload
  from_bytes bytes = if ltb (length bytes) min_record_size then err record_too_small else (do
    total_len ← read_uint 4 bytes
    stored_crc ← read_uint 4 total_len.1
    type_byte ← read_uint 1 stored_crc.1
    record_type ← try_from type_byte.0
    uuid ← read_exact 16 type_byte.1
    node_id ← read_uint 4 uuid.1
    check_payload bytes total_len.0 stored_crc.0 record_type (be_value uuid.0) node_id.0)
