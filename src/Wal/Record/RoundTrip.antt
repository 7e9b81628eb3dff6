-- ===== src/Wal/Record/RoundTrip.antt =====
-- A record that is written is read back, and takes the size that the code computes for it.
use mathlib.Core.List.{append_assoc}
use xerv.Prelude.{
  ℕ, ◌+◌, ◌-◌, ◌<◌, ◌^◌, ◌≡◌, refl, ap, ◌∙◌, Option, none, some, List, [], ◌∷◌, ◌++◌, ok, arith,
  length, length-append, ltb, lt→ltb, nat_beq_iff, false,
}
use xerv.Wal.Bytes.{
  le_bytes, be_bytes, read_uint, read_uint-le_bytes, read_exact-append, length-le_bytes,
  length-be_bytes, be_value-be_bytes, take_all, write_all, total_length, length-write_all,
  drop-write_all,
}
use xerv.Wal.RecordType.{type_byte, try_from-type_byte, type_byte-lt}
use xerv.Wal.Record.{
  Text, WalRecord, write_text, fixed_fields, header, payload_bytes, text_size, serialized_size,
  slice, to_bytes, text_after, read_text, parse_payload, check_crc, check_payload, from_bytes,
}

-- What is read back: an empty text is read as no text.
abbrev pub reread : Option Text → Option Text
reread none = none
reread (some []) = none
reread (some (b ∷ bs)) = some (b ∷ bs)

abbrev pub restored : WalRecord → WalRecord
restored r = record r { error_message = reread r.error_message; metadata = reread r.metadata }

length-write_text :
    (o : Option Text) (later : List ℕ)
    → length (write_text o later) ≡ 4 + text_size o + length later
unfolding write_text
length-write_text none later =
    omega (arith, length-append (le_bytes 4 0) later, length-le_bytes 4 0)
length-write_text (some msg) later = omega (
  arith,
  length-append (le_bytes 4 (length msg)) (msg ++ later),
  length-append msg later,
  length-le_bytes 4 (length msg),
)

length-payload_bytes :
    (r : WalRecord)
    → length (payload_bytes r) ≡ 40 + text_size r.error_message + text_size r.metadata
unfolding payload_bytes
length-payload_bytes r = omega (
  arith,
  length-write_all (fixed_fields r) (write_text r.error_message (write_text r.metadata [])),
  length-le_bytes 8 r.timestamp_ns,
  length-le_bytes 8 r.output_offset,
  length-le_bytes 4 r.output_size,
  length-le_bytes 8 r.schema_hash,
  length-le_bytes 4 r.iteration,
  length-write_text r.error_message (write_text r.metadata []),
  length-write_text r.metadata [],
)

pub long_enough : (n : ℕ) → ltb (29 + n) 29 ≡ false
long_enough n = ground arith

not_longer : (n : ℕ) → ltb n n ≡ false
not_longer n = ground arith

header_length : (total_len crc : ℕ) (r : WalRecord) → 29 ≡ total_length (header total_len crc r)
header_length total_len crc r = omega (
  arith,
  length-le_bytes 4 total_len,
  length-le_bytes 4 crc,
  length-le_bytes 1 (type_byte r.record_type),
  length-be_bytes 16 r.trace_id,
  length-le_bytes 4 r.node_id,
)

pub length-to_bytes :
    (crc32 : List ℕ → ℕ) (r : WalRecord) → length (to_bytes crc32 r) ≡ 29 + length (payload_bytes r)
unfolding to_bytes
length-to_bytes crc32 r =
    let p = payload_bytes r in
    omega (
      arith,
      length-write_all (header (29 + length p) (crc32 p) r) p,
      header_length (29 + length p) (crc32 p) r,
    )

abbrev header_rest : ℕ → WalRecord → List ℕ → List ℕ
header_rest crc r payload =
    write_all
      (le_bytes 4 crc
        ∷ le_bytes 1 (type_byte r.record_type)
        ∷ be_bytes 16 r.trace_id
        ∷ le_bytes 4 r.node_id
        ∷ [])
      payload

-- The length that a record starts with, as the reader finds it.
pub read_length :
    (crc32 : List ℕ → ℕ) (r : WalRecord) (later : List ℕ)
    → 29 + length (payload_bytes r) < 2 ^ 32
    → (rest : List ℕ) × (read_uint 4 (to_bytes crc32 r ++ later)
        ≡ ok (29 + length (payload_bytes r), rest))
unfolding to_bytes
read_length crc32 r later h =
    let p = payload_bytes r in
    let first = le_bytes 4 (29 + length p) in
    let others = header_rest (crc32 p) r p in
    (
      others ++ later,
      ap (λ bs. read_uint 4 bs) (append_assoc first others later)
          ∙ read_uint-le_bytes 4 (29 + length p) (others ++ later) (omega (arith, h)),
    )

-- A written record is as long as `serialized_size` says.
pub length-serialized_size :
    (crc32 : List ℕ → ℕ) (r : WalRecord) → length (to_bytes crc32 r) ≡ serialized_size r
unfolding serialized_size
length-serialized_size crc32 r = omega (arith, length-to_bytes crc32 r, length-payload_bytes r)

module _ (from_utf8_lossy : List ℕ → Text) where
  -- A text is valid UTF-8, which the decoder keeps, and its length fits a u32.
  abbrev pub IsText : Option Text → Type 0
  IsText none = Unit
  IsText (some msg) = (from_utf8_lossy msg ≡ msg) × (length msg < 2 ^ 32)

  read_text-write_text :
      (o : Option Text) (rest : List ℕ)
      → IsText o
      → read_text from_utf8_lossy (write_text o rest) ≡ ok (reread o, rest)
  unfolding read_text write_text text_after
  read_text-write_text none rest v = rw (read_uint-le_bytes 4 0 rest (omega arith)) refl
  read_text-write_text (some []) rest v = rw (read_uint-le_bytes 4 0 rest (omega arith)) refl
  read_text-write_text (some (b ∷ bs)) rest v =
      let msg : List ℕ = b ∷ bs in
      rw
        (
          read_uint-le_bytes 4 (length msg) (msg ++ rest) (omega (arith, v.1)),
          read_exact-append (length msg) msg rest refl,
          v.0,
          lt→ltb 0 (length msg) (omega arith),
        )
        refl

-- The fields fit the machine integers that hold them, and the record's length fits a u32.
pub record InRange (from_utf8_lossy : List ℕ → Text) (r : WalRecord) : Type 0 where
  pub trace_id_fits : r.trace_id < 2 ^ 128
  pub node_id_fits : r.node_id < 2 ^ 32
  pub timestamp_ns_fits : r.timestamp_ns < 2 ^ 64
  pub output_offset_fits : r.output_offset < 2 ^ 64
  pub output_size_fits : r.output_size < 2 ^ 32
  pub schema_hash_fits : r.schema_hash < 2 ^ 64
  pub iteration_fits : r.iteration < 2 ^ 32
  pub error_message_text : IsText from_utf8_lossy r.error_message
  pub metadata_text : IsText from_utf8_lossy r.metadata
  pub size_fits : serialized_size r < 2 ^ 32

module _ (from_utf8_lossy : List ℕ → Text) (r : WalRecord) (v : InRange from_utf8_lossy r) where
  parse_payload-payload_bytes :
      parse_payload from_utf8_lossy r.record_type r.trace_id r.node_id (payload_bytes r)
      ≡ ok (restored r)
  unfolding parse_payload payload_bytes
  parse_payload-payload_bytes =
      let texts = write_text r.error_message (write_text r.metadata []) in
      rw
        (
          read_uint-le_bytes 8 r.timestamp_ns _ (omega (arith, v.timestamp_ns_fits)),
          read_uint-le_bytes 8 r.output_offset _ (omega (arith, v.output_offset_fits)),
          read_uint-le_bytes 4 r.output_size _ (omega (arith, v.output_size_fits)),
          read_uint-le_bytes 8 r.schema_hash _ (omega (arith, v.schema_hash_fits)),
          read_uint-le_bytes 4 r.iteration texts (omega (arith, v.iteration_fits)),
          read_text-write_text from_utf8_lossy r.error_message (write_text r.metadata [])
              v.error_message_text,
          read_text-write_text from_utf8_lossy r.metadata [] v.metadata_text,
        )
        refl

module _ (crc32 : List ℕ → ℕ) (from_utf8_lossy : List ℕ → Text)
    (crc_fits : (bytes : List ℕ) → crc32 bytes < 2 ^ 32) where
  slice_payload :
      (r : WalRecord)
      → slice 29 (29 + length (payload_bytes r)) (to_bytes crc32 r) ≡ ok (payload_bytes r)
  unfolding slice to_bytes
  slice_payload r =
      let p = payload_bytes r in
      rw
        (
          long_enough (length p),
          drop-write_all 29 (header (29 + length p) (crc32 p) r) p
              (header_length (29 + length p) (crc32 p) r),
          take_all (29 + length p - 29) p (omega arith),
        )
        refl

  to_bytes_long : (r : WalRecord) → ltb (length (to_bytes crc32 r)) 29 ≡ false
  to_bytes_long r = rw (length-to_bytes crc32 r) (long_enough (length (payload_bytes r)))

  check_payload-to_bytes :
      (r : WalRecord)
      → InRange from_utf8_lossy r
      → check_payload crc32 from_utf8_lossy
          (to_bytes crc32 r)
          (29 + length (payload_bytes r))
          (crc32 (payload_bytes r))
          r.record_type
          r.trace_id
          r.node_id
        ≡ ok (restored r)
  unfolding check_payload check_crc
  check_payload-to_bytes r v =
      rw
        (
          length-to_bytes crc32 r,
          not_longer (29 + length (payload_bytes r)),
          slice_payload r,
          (nat_beq_iff (crc32 (payload_bytes r)) (crc32 (payload_bytes r))).1 refl,
        )
        (parse_payload-payload_bytes from_utf8_lossy r v)

  -- A record whose fields fit, written and read back, is the same record, but for empty texts, which are
  -- read as absent. The checksum is a u32.
  pub from_bytes-to_bytes :
      (r : WalRecord)
      → InRange from_utf8_lossy r
      → from_bytes crc32 from_utf8_lossy (to_bytes crc32 r) ≡ ok (restored r)
  unfolding from_bytes to_bytes
  from_bytes-to_bytes r v =
      let p = payload_bytes r in
      rw
        (
          to_bytes_long r,
          read_uint-le_bytes 4 (29 + length p) _
              (omega (arith, v.size_fits, length-to_bytes crc32 r, length-serialized_size crc32 r)),
          read_uint-le_bytes 4 (crc32 p) _ (omega (arith, crc_fits p)),
          read_uint-le_bytes 1 (type_byte r.record_type) _
              (omega (arith, type_byte-lt r.record_type)),
          try_from-type_byte r.record_type,
          read_exact-append 16 (be_bytes 16 r.trace_id) _ (length-be_bytes 16 r.trace_id),
          read_uint-le_bytes 4 r.node_id p (omega (arith, v.node_id_fits)),
          be_value-be_bytes 16 r.trace_id (omega (arith, v.trace_id_fits)),
        )
        (check_payload-to_bytes r v)
