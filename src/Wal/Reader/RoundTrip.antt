-- ===== src/Wal/Reader/RoundTrip.antt =====
-- A file of written records is read back record by record.
use xerv.Prelude.{
  ℕ, zero, suc, ◌+◌, ◌<◌, ◌^◌, ◌≡◌, refl, some, List, [], ◌∷◌, ◌++◌, ok, map, arith, length,
  length-append,
}
use xerv.Wal.Bytes.{read_uint_empty, read_exact-append, drop}
use xerv.Wal.Record.{Text, WalRecord, payload_bytes, to_bytes}
use xerv.Wal.Record.RoundTrip.{
  InRange, restored, length-to_bytes, length-serialized_size, from_bytes-to_bytes, read_length,
  long_enough,
}
use xerv.Wal.Reader.{keep, read_loop, read_file_from}

abbrev pub file_of : (List ℕ → ℕ) → List WalRecord → List ℕ
file_of crc32 [] = []
file_of crc32 (r ∷ records) = to_bytes crc32 r ++ file_of crc32 records

abbrev pub AllInRange : (List ℕ → Text) → List WalRecord → Type 0
AllInRange from_utf8_lossy [] = Unit
AllInRange from_utf8_lossy (r ∷ records) =
    InRange from_utf8_lossy r × AllInRange from_utf8_lossy records

module _ (crc32 : List ℕ → ℕ) (from_utf8_lossy : List ℕ → Text)
    (crc_fits : (bytes : List ℕ) → crc32 bytes < 2 ^ 32) where
  read_loop-file_of :
      (fuel position : ℕ) (records : List WalRecord)
      → AllInRange from_utf8_lossy records
      → length (file_of crc32 records) < fuel
      → read_loop crc32 from_utf8_lossy fuel (file_of crc32 records) position
        ≡ some (ok (map restored records))
  unfolding read_loop keep
  read_loop-file_of zero position records v f = absurd (omega arith)
  read_loop-file_of (suc fuel) position [] v f = rw (read_loop, read_uint_empty 3) refl
  read_loop-file_of (suc fuel) position (r ∷ records) v f =
      let n = 29 + length (payload_bytes r) in
      let later = file_of crc32 records in
      rw
        (
          read_loop,
          (read_length crc32 r later (
              omega
                (arith, v.0.size_fits, length-to_bytes crc32 r, length-serialized_size crc32 r))).1,
          long_enough (length (payload_bytes r)),
          read_exact-append n (to_bytes crc32 r) later (length-to_bytes crc32 r),
          from_bytes-to_bytes crc32 from_utf8_lossy crc_fits r v.0,
          read_loop-file_of fuel (position + n) records v.1
              (omega (arith, f, length-append (to_bytes crc32 r) later, length-to_bytes crc32 r)),
        )
        refl

  -- A file to which records were written one after the other, their fields in range, is read back as
  -- those records in that order, but for empty texts, which are read as absent.
  pub read_file_from-file_of :
      (records : List WalRecord)
      → AllInRange from_utf8_lossy records
      → read_file_from crc32 from_utf8_lossy (file_of crc32 records) 0
        ≡ some (ok (map restored records))
  unfolding read_file_from drop
  read_file_from-file_of records v =
      read_loop-file_of (suc (length (file_of crc32 records))) 0 records v (omega arith)
