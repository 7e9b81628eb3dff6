-- ===== src/Arena.antt =====
-- xerv-core/src/arena: the arena of a trace, a memory-mapped file with a header (header.rs), to which
-- outputs are appended (writer.rs). The mapped file is the list of its bytes. Locking, sizing and
-- mapping the file do not fail here; each method is one step, under the arena's lock.
pub mod Header
pub mod Memory
pub mod Written
pub mod Reopen
pub mod Crash
mod Scenarios
use xerv.Prelude.{
  ℕ, zero, suc, ◌+◌, ◌-◌, ◌*◌, ◌/◌, ◌%◌, ◌^◌, String, Bool, true, false, not, List, [], ◌∷◌, ◌++◌,
  Result, ok, err, ◌>>=◌, ltb, leb, length, if◌then◌else◌, ◌==◌, nat_eq,
}
use xerv.Errors.{XervError, arena_capacity, arena_invalid_offset, arena_corruption}
use xerv.NodeOutput.{RelPtr}
use xerv.Wal.Bytes.{
  Failure, record_too_small, le_bytes, be_bytes, be_value, read_exact, read_uint, take, drop,
  write_all,
}

abbrev pub arena_magic : ℕ
arena_magic = 0x584552564152454E

abbrev pub arena_version : ℕ
arena_version = 1

abbrev pub header_size : ℕ
header_size = 128

abbrev pub entry_alignment : ℕ
entry_alignment = 8

abbrev pub max_arena_size : ℕ
max_arena_size = 4 * 1024 * 1024 * 1024

pub record ArenaConfig : Type 0 where
  pub capacity : ℕ
  pub directory : String
  pub sync_on_write : Bool

abbrev pub default_config : ArenaConfig
default_config = record {
  capacity = 16 * 1024 * 1024;
  directory = "/tmp/xerv";
  sync_on_write = false;
}

abbrev pub with_capacity : ArenaConfig → ℕ → ArenaConfig
with_capacity config capacity = record config {
  capacity = if leb capacity max_arena_size then capacity else max_arena_size;
}

pub record ArenaHeader : Type 0 where
  pub magic : ℕ
  pub version : ℕ
  pub flags : ℕ
  pub trace_id : ℕ
  pub config_offset : ℕ
  pub config_size : ℕ
  pub data_offset : ℕ
  pub write_pos : ℕ
  pub capacity : ℕ
  pub created_at : ℕ
  pub schema_hash : ℕ
  pub pipeline_version : ℕ
  pub reserved : List ℕ

abbrev pub zeros : ℕ → List ℕ
zeros zero = []
zeros (suc n) = 0 ∷ zeros n

-- ArenaHeader::new
abbrev pub new_header : ℕ → ℕ → ℕ → ArenaHeader
new_header now trace_id capacity = record {
  magic = arena_magic;
  version = arena_version;
  flags = 0;
  trace_id = trace_id;
  config_offset = header_size;
  config_size = 0;
  data_offset = header_size;
  write_pos = header_size;
  capacity = capacity;
  created_at = now;
  schema_hash = 0;
  pipeline_version = 0;
  reserved = zeros 32;
}

-- ArenaHeader::validate
unfoldable pub validate : ArenaHeader → Result (Unit {0}) String
validate h =
    if not (h.magic == arena_magic)
    then err "Invalid magic number"
    else if not (h.version == arena_version)
    then err "Unsupported arena version"
    else if ltb h.capacity h.write_pos
    then err "Write position exceeds capacity"
    else ok tt

abbrev pub header_fields : ArenaHeader → List (List ℕ)
header_fields h =
    le_bytes 8 h.magic
    ∷ le_bytes 4 h.version
    ∷ le_bytes 4 h.flags
    ∷ be_bytes 16 h.trace_id
    ∷ le_bytes 8 h.config_offset
    ∷ le_bytes 4 h.config_size
    ∷ le_bytes 4 0
    ∷ le_bytes 8 h.data_offset
    ∷ le_bytes 8 h.write_pos
    ∷ le_bytes 8 h.capacity
    ∷ le_bytes 8 h.created_at
    ∷ le_bytes 8 h.schema_hash
    ∷ le_bytes 4 h.pipeline_version
    ∷ le_bytes 4 0
    ∷ []

-- ArenaHeader::to_bytes
unfoldable pub header_bytes : ArenaHeader → List ℕ
header_bytes h = write_all (header_fields h) h.reserved

parse_header : List ℕ → Result ArenaHeader Failure
parse_header bytes = do
  magic ← read_uint 8 bytes
  version ← read_uint 4 magic.1
  flags ← read_uint 4 version.1
  uuid_bytes ← read_exact 16 flags.1
  config_offset ← read_uint 8 uuid_bytes.1
  config_size ← read_uint 4 config_offset.1
  padding1 ← read_uint 4 config_size.1
  data_offset ← read_uint 8 padding1.1
  write_pos ← read_uint 8 data_offset.1
  capacity ← read_uint 8 write_pos.1
  created_at ← read_uint 8 capacity.1
  schema_hash ← read_uint 8 created_at.1
  pipeline_version ← read_uint 4 schema_hash.1
  padding2 ← read_uint 4 pipeline_version.1
  reserved ← read_exact 32 padding2.1
  ok (record {
    magic = magic.0;
    version = version.0;
    flags = flags.0;
    trace_id = be_value uuid_bytes.0;
    config_offset = config_offset.0;
    config_size = config_size.0;
    data_offset = data_offset.0;
    write_pos = write_pos.0;
    capacity = capacity.0;
    created_at = created_at.0;
    schema_hash = schema_hash.0;
    pipeline_version = pipeline_version.0;
    reserved = reserved.0;
  })

-- ArenaHeader::from_bytes; the error of a short buffer is `record_too_small` here.
unfoldable pub header_from_bytes : List ℕ → Result ArenaHeader Failure
unfolding parse_header
header_from_bytes bytes =
    if ltb (length bytes) header_size then err record_too_small else parse_header bytes

pub record ArenaInner : Type 0 where
  pub mmap : List ℕ
  pub path : String
  pub write_pos : ℕ
  pub header : ArenaHeader
  pub sync_on_write : Bool
  pub capacity : ℕ

-- An error that a method returns, or a panic on a slice that is out of bounds.
pub data ArenaFailure : Type 0 where
  failed : XervError → ArenaFailure
  panic : ArenaFailure

-- `bytes` in place of the first bytes of `mmap`.
unfoldable pub overwrite : List ℕ → List ℕ → List ℕ
overwrite [] mmap = mmap
overwrite (b ∷ bytes) [] = []
overwrite (b ∷ bytes) (m ∷ mmap) = b ∷ overwrite bytes mmap

-- `mmap[pos..pos + n].copy_from_slice(bytes)`, for `n` bytes.
unfoldable pub copy_to : ℕ → List ℕ → List ℕ → List ℕ
unfolding overwrite
copy_to zero bytes mmap = overwrite bytes mmap
copy_to (suc pos) bytes [] = []
copy_to (suc pos) bytes (m ∷ mmap) = m ∷ copy_to pos bytes mmap

-- Arena::create, for a capacity that holds the header.
unfoldable pub create : ArenaConfig → ℕ → ℕ → String → ArenaInner
create config now trace_id path = record {
  mmap = copy_to 0 (header_bytes (new_header now trace_id config.capacity)) (zeros config.capacity);
  path = path;
  write_pos = header_size;
  header = new_header now trace_id config.capacity;
  sync_on_write = config.sync_on_write;
  capacity = config.capacity;
}

open_with :
    String → List ℕ → ArenaHeader → Result (Unit {0}) String → Result ArenaInner ArenaFailure
open_with path file header (err cause) = err (failed (arena_corruption 0 cause))
open_with path file header (ok _) = ok (record {
  mmap = file;
  path = path;
  write_pos = header.write_pos;
  header = header;
  sync_on_write = false;
  capacity = length file;
})

open_header : String → List ℕ → Result ArenaHeader Failure → Result ArenaInner ArenaFailure
unfolding open_with
open_header path file (err e) = err (failed (arena_corruption 0 "Buffer too small for header"))
open_header path file (ok header) = open_with path file header (validate header)

-- Arena::open, on the bytes of the file.
unfoldable pub open_ : String → List ℕ → Result ArenaInner ArenaFailure
unfolding open_header
open_ path file =
    if ltb (length file) header_size
    then err panic
    else open_header path file (header_from_bytes (take header_size file))

-- `(size + ENTRY_ALIGNMENT - 1) & !(ENTRY_ALIGNMENT - 1)`: the next multiple of 8.
abbrev pub align : ℕ → ℕ
align size = (size + 7) / 8 * 8

abbrev pub available_space : ArenaInner → ℕ
available_space a = a.capacity - a.write_pos

-- The mapped file with the data and its padding.
unfoldable pub put : ℕ → List ℕ → List ℕ → List ℕ
put pos bytes mmap = copy_to pos (bytes ++ zeros (align (length bytes) - length bytes)) mmap

-- `write_bytes` of Arena and of ArenaWriter. A flush that is asked for does not fail; the size of the
-- pointer is the low 32 bits of the size.
unfoldable pub write_bytes : ArenaInner → List ℕ → ArenaInner × Result RelPtr XervError
write_bytes a bytes =
    let new_pos = (a.write_pos + align (length bytes)) % 2 ^ 64 in
    if ltb a.capacity new_pos
    then (a, err (arena_capacity (align (length bytes)) (a.capacity - a.write_pos)))
    else (
      record a { mmap = put a.write_pos bytes a.mmap; write_pos = new_pos },
      ok (record { offset = a.write_pos; size = length bytes % 2 ^ 32 }),
    )

-- `read_bytes` of Arena and of ArenaReader; the sum is a usize, and wraps. The cause of the error is a
-- fixed text here, where the code formats the numbers.
unfoldable pub read_bytes : ArenaInner → ℕ → ℕ → Result (List ℕ) ArenaFailure
read_bytes a offset size =
    if ltb a.write_pos ((offset + size) % 2 ^ 64)
    then err (failed (arena_invalid_offset offset "exceeds write position"))
    else if ltb (length a.mmap) (offset + size)
    then err panic
    else ok (take size (drop offset a.mmap))

-- `update_header`, which the drop of an arena calls; nothing else does.
unfoldable pub update_header : ArenaInner → ArenaInner
update_header a =
    let header = record a.header { write_pos = a.write_pos } in
    record a { header = header; mmap = copy_to 0 (header_bytes header) a.mmap }
