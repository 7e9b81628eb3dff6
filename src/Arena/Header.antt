-- ===== src/Arena/Header.antt =====
-- xerv-core/src/arena/header.rs: a header that is written is read back.
use mathlib.Core.List.{append-nil}
use xerv.Prelude.{◌<◌, ◌^◌, ◌≡◌, refl, ap, sym, ◌∙◌, [], ok, arith, length}
use xerv.Wal.Bytes.{
  be_bytes, read_uint-le_bytes, read_exact-append, length-le_bytes, length-be_bytes,
  be_value-be_bytes, total_length, length-write_all, read_exact,
}
use xerv.Arena.{ArenaHeader, header_fields, header_bytes, parse_header, header_from_bytes}

-- The fields fit the machine integers that hold them.
pub record HeaderFits (h : ArenaHeader) : Type 0 where
  pub magic_fits : h.magic < 2 ^ 64
  pub version_fits : h.version < 2 ^ 32
  pub flags_fits : h.flags < 2 ^ 32
  pub trace_id_fits : h.trace_id < 2 ^ 128
  pub config_offset_fits : h.config_offset < 2 ^ 64
  pub config_size_fits : h.config_size < 2 ^ 32
  pub data_offset_fits : h.data_offset < 2 ^ 64
  pub write_pos_fits : h.write_pos < 2 ^ 64
  pub capacity_fits : h.capacity < 2 ^ 64
  pub created_at_fits : h.created_at < 2 ^ 64
  pub schema_hash_fits : h.schema_hash < 2 ^ 64
  pub pipeline_version_fits : h.pipeline_version < 2 ^ 32
  pub reserved_fits : length h.reserved ≡ 32

total_length-header_fields : (h : ArenaHeader) → total_length (header_fields h) ≡ 96
total_length-header_fields h = omega (
  arith,
  length-le_bytes 8 h.magic,
  length-le_bytes 4 h.version,
  length-le_bytes 4 h.flags,
  length-be_bytes 16 h.trace_id,
  length-le_bytes 8 h.config_offset,
  length-le_bytes 4 h.config_size,
  length-le_bytes 4 0,
  length-le_bytes 8 h.data_offset,
  length-le_bytes 8 h.write_pos,
  length-le_bytes 8 h.capacity,
  length-le_bytes 8 h.created_at,
  length-le_bytes 8 h.schema_hash,
  length-le_bytes 4 h.pipeline_version,
)

-- A header is as long as HEADER_SIZE says.
pub length-header_bytes : (h : ArenaHeader) → length h.reserved ≡ 32 → length (header_bytes h) ≡ 128
unfolding header_bytes
length-header_bytes h v =
    omega (arith, length-write_all (header_fields h) h.reserved, total_length-header_fields h)

read_reserved : (h : ArenaHeader) → HeaderFits h → read_exact 32 h.reserved ≡ ok (h.reserved, [])
read_reserved h v =
    ap (read_exact 32) (sym (append-nil h.reserved))
    ∙ read_exact-append 32 h.reserved [] v.reserved_fits

parse_header-header_bytes : (h : ArenaHeader) → HeaderFits h → parse_header (header_bytes h) ≡ ok h
unfolding parse_header header_bytes
parse_header-header_bytes h v =
    rw
      (
        read_uint-le_bytes 8 h.magic _ (omega (arith, v.magic_fits)),
        read_uint-le_bytes 4 h.version _ (omega (arith, v.version_fits)),
        read_uint-le_bytes 4 h.flags _ (omega (arith, v.flags_fits)),
        read_exact-append 16 (be_bytes 16 h.trace_id) _ (length-be_bytes 16 h.trace_id),
        read_uint-le_bytes 8 h.config_offset _ (omega (arith, v.config_offset_fits)),
        read_uint-le_bytes 4 h.config_size _ (omega (arith, v.config_size_fits)),
        read_uint-le_bytes 4 0 _ (omega arith),
        read_uint-le_bytes 8 h.data_offset _ (omega (arith, v.data_offset_fits)),
        read_uint-le_bytes 8 h.write_pos _ (omega (arith, v.write_pos_fits)),
        read_uint-le_bytes 8 h.capacity _ (omega (arith, v.capacity_fits)),
        read_uint-le_bytes 8 h.created_at _ (omega (arith, v.created_at_fits)),
        read_uint-le_bytes 8 h.schema_hash _ (omega (arith, v.schema_hash_fits)),
        read_uint-le_bytes 4 h.pipeline_version _ (omega (arith, v.pipeline_version_fits)),
        read_uint-le_bytes 4 0 _ (omega arith),
        read_reserved h v,
        be_value-be_bytes 16 h.trace_id (omega (arith, v.trace_id_fits)),
      )
      refl

-- A header whose fields fit, written and read back, is the same header.
pub header_from_bytes-header_bytes :
    (h : ArenaHeader) → HeaderFits h → header_from_bytes (header_bytes h) ≡ ok h
unfolding header_from_bytes
header_from_bytes-header_bytes h v =
    rw (length-header_bytes h v.reserved_fits) (parse_header-header_bytes h v)
