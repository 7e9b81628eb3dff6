-- ===== src/Wal/Reader/Totality.antt =====
-- The loop over a file ends: each record takes at least the bytes of its header.
use xerv.Prelude.{
  ℕ, zero, suc, ◌+◌, ◌<◌, ◌≡◌, refl, true, Option, none, some, List, Result, ok, err, ◌⊎◌, is_some,
  arith, length, ltb, Bool-cases, inl, inr,
}
use xerv.Wal.Bytes.{
  Failure, unexpected_eof, record_too_small, unknown_record_type, record_truncated, crc_mismatch,
  slice_panic, read_exact, read_uint, read_exact-Consumes, drop,
}
use xerv.Wal.Record.{Text, WalRecord, from_bytes, min_record_size}
use xerv.Wal.Reader.{ReadError, keep, read_loop, read_file_from}

keep_some :
    (r : Result WalRecord Failure) (o : Option (Result (List WalRecord) ReadError))
    → is_some o ≡ true
    → is_some (keep r o) ≡ true
unfolding keep
keep_some (ok r) (some (ok rs)) h = refl
keep_some (ok r) (some (err e)) h = refl
keep_some (ok r) none h = h
keep_some (err unexpected_eof) o h = h
keep_some (err record_too_small) o h = h
keep_some (err unknown_record_type) o h = h
keep_some (err (record_truncated _ _)) o h = h
keep_some (err (crc_mismatch _ _)) o h = h
keep_some (err (slice_panic _ _)) o h = refl

pub Result-cases {ℓ κ} :
    {A : Type ℓ} {E : Type κ} (r : Result A E) → ((a : A) × (r ≡ ok a)) ⊎ ((e : E) × (r ≡ err e))
Result-cases (ok a) = inl (a, refl)
Result-cases (err e) = inr (e, refl)

module _ (crc32 : List ℕ → ℕ) (from_utf8_lossy : List ℕ → Text) where
  read_loop_total :
      (fuel : ℕ) (reader : List ℕ) (position : ℕ)
      → length reader < fuel
      → is_some (read_loop crc32 from_utf8_lossy fuel reader position) ≡ true
  unfolding read_loop
  read_loop_total zero reader position f = absurd (omega arith)
  read_loop_total (suc fuel) reader position f = elim (Result-cases (read_uint 4 reader)) [
    | inr (e, q) ↦ rw (read_loop, q) refl
    | inl ((n, x), q) ↦ elim (Bool-cases (ltb n min_record_size)) [
      | inl short ↦ rw (read_loop, q, short) refl
      | inr long ↦ elim (Result-cases (read_exact n reader)) [
        | inr (e, p) ↦ rw (read_loop, q, long, p) refl
        | inl ((buf, later), p) ↦
            rw (read_loop, q, long, p)
              (keep_some (from_bytes crc32 from_utf8_lossy buf)
                (read_loop crc32 from_utf8_lossy fuel later (position + n))
                (read_loop_total fuel later (position + n)
                  (ground (arith, f, long, rw p at (read_exact-Consumes n reader)))))
      ]
    ]
  ]

  -- Reading a file from any offset ends with records or an error.
  pub read_file_from_total :
      (file : List ℕ) (start_offset : ℕ)
      → is_some (read_file_from crc32 from_utf8_lossy file start_offset) ≡ true
  unfolding read_file_from
  read_file_from_total file start_offset =
      read_loop_total (suc (length (drop start_offset file))) (drop start_offset file) start_offset
        (omega arith)
