-- ===== src/Wal/Reader/Safety.antt =====
-- No bytes make the reader panic: it looks at a record's length before it decodes the record.
use xerv.Prelude.{
  ℕ, zero, suc, ◌+◌, ◌≤◌, ◌≡◌, refl, sym, ap, ◌∙◌, Bool, true, false, Option, none, some, List, [],
  ◌∷◌, ◌++◌, Result, ok, err, arith, length, ltb, Bool-cases, inl, inr,
}
use xerv.Wal.Bytes.{
  Failure, unexpected_eof, record_too_small, unknown_record_type, record_truncated, crc_mismatch,
  slice_panic, read_exact, read_uint, drop, le_value, and_then,
}
use xerv.Wal.Record.{Text, WalRecord, from_bytes, min_record_size}
use xerv.Wal.Record.Calm.{panics, from_bytes_calm}
use xerv.Wal.Reader.{ReadError, panicked, keep, read_loop, read_file_from}
use xerv.Wal.Reader.Totality.{Result-cases}

-- What a read of `n` bytes finds is the same in a longer input.
read_exact-more :
    (n : ℕ) (buf later : List ℕ)
    → n ≤ length buf
    → (xs : List ℕ) × (ys : List ℕ) × (read_exact n buf ≡ ok (xs, ys))
      × (read_exact n (buf ++ later) ≡ ok (xs, ys ++ later))
unfolding read_exact
read_exact-more zero buf later h = ([], buf, refl, refl)
read_exact-more (suc n) [] later h = absurd (omega arith)
read_exact-more (suc n) (b ∷ buf) later h =
    let (xs, ys, p, q) = read_exact-more n buf later (omega arith) in
    (b ∷ xs, ys, rw p refl, rw q refl)

-- A successful read splits its input.
abbrev Splits : List ℕ → ℕ → Result (List ℕ × List ℕ) Failure → Type 0
Splits bs n (err e) = Unit
Splits bs n (ok (xs, later)) = (bs ≡ xs ++ later) × (length xs ≡ n)

Splits-step :
    (bs : List ℕ) (n b : ℕ) (r : Result (List ℕ × List ℕ) Failure)
    → Splits bs n r
    → Splits (b ∷ bs) (suc n) (and_then r b)
Splits-step bs n b (err e) s = tt
Splits-step bs n b (ok (xs, later)) s = (ap (λ ys. b ∷ ys) s.0, ap suc s.1)

read_exact-Splits : (n : ℕ) (bs : List ℕ) → Splits bs n (read_exact n bs)
unfolding read_exact
read_exact-Splits zero bs = (refl, refl)
read_exact-Splits (suc n) [] = tt
read_exact-Splits (suc n) (b ∷ bs) = Splits-step bs n b (read_exact n bs) (read_exact-Splits n bs)

uint_of :
    (bs xs ys : List ℕ) → read_exact 4 bs ≡ ok (xs, ys) → read_uint 4 bs ≡ ok (le_value xs, ys)
unfolding read_uint
uint_of bs xs ys e = rw (read_uint, e) refl

abbrev value_of : Result (ℕ × List ℕ) Failure → ℕ
value_of (ok r) = r.0
value_of (err e) = 0

abbrev done : ℕ → List ℕ → Result (ℕ × List ℕ) Failure
done n ys = ok (n, ys)

-- A record's buffer starts with the length that was read before it.
buffer_length :
    (reader buf later rest : List ℕ) (n : ℕ)
    → read_uint 4 reader ≡ ok (n, rest)
    → read_exact n reader ≡ ok (buf, later)
    → ltb n min_record_size ≡ false
    → (rest' : List ℕ) × (read_uint 4 buf ≡ ok (n, rest'))
unfolding read_uint
buffer_length reader buf later rest n q p long =
    let split = rw p at (read_exact-Splits n reader) in
    let (xs, ys, whole, part) = read_exact-more 4 buf later (ground (arith, split.1, long)) in
    let again = uint_of (buf ++ later) xs (ys ++ later) part in
    let same : n ≡ le_value xs =
      ap value_of (sym q ∙ (ap (λ bs. read_uint 4 bs) split.0 ∙ again)) in
    (ys, uint_of buf xs ys whole ∙ ap (λ k. done k ys) (sym same))

abbrev is_calm : Option (Result (List WalRecord) ReadError) → Bool
is_calm (some (err panicked)) = false
is_calm _ = true

keep_calm :
    (r : Result WalRecord Failure) (o : Option (Result (List WalRecord) ReadError))
    → panics r ≡ false
    → is_calm o ≡ true
    → is_calm (keep r o) ≡ true
unfolding keep
keep_calm (ok r) (some (ok rs)) h k = refl
keep_calm (ok r) (some (err e)) h k = k
keep_calm (ok r) none h k = k
keep_calm (err unexpected_eof) o h k = k
keep_calm (err record_too_small) o h k = k
keep_calm (err unknown_record_type) o h k = k
keep_calm (err (record_truncated _ _)) o h k = k
keep_calm (err (crc_mismatch _ _)) o h k = k
keep_calm (err (slice_panic _ _)) o h k = absurd (ground (arith, h))

module _ (crc32 : List ℕ → ℕ) (from_utf8_lossy : List ℕ → Text) where
  read_loop_calm :
      (fuel : ℕ) (reader : List ℕ) (position : ℕ)
      → is_calm (read_loop crc32 from_utf8_lossy fuel reader position) ≡ true
  unfolding read_loop
  read_loop_calm zero reader position = refl
  read_loop_calm (suc fuel) reader position = elim (Result-cases (read_uint 4 reader)) [
    | inr (e, q) ↦ rw (read_loop, q) refl
    | inl ((n, x), q) ↦ elim (Bool-cases (ltb n min_record_size)) [
      | inl short ↦ rw (read_loop, q, short) refl
      | inr long ↦ elim (Result-cases (read_exact n reader)) [
        | inr (e, p) ↦ rw (read_loop, q, long, p) refl
        | inl ((buf, later), p) ↦
            let first = buffer_length reader buf later x n q p long in
            rw (read_loop, q, long, p)
              (keep_calm (from_bytes crc32 from_utf8_lossy buf)
                (read_loop crc32 from_utf8_lossy fuel later (position + n))
                (from_bytes_calm crc32 from_utf8_lossy buf first.0 n first.1 long)
                (read_loop_calm fuel later (position + n)))
      ]
    ]
  ]

calm_result :
    (o : Option (Result (List WalRecord) ReadError))
    → is_calm o ≡ true
    → ¬ (o ≡ some (err panicked))
calm_result o h e = let bad = rw e at h in ground (arith, bad)

-- Reading a file never panics, whatever bytes it holds and from whatever offset it is read.
pub read_file_from_calm :
    (crc32 : List ℕ → ℕ) (from_utf8_lossy : List ℕ → Text) (file : List ℕ) (start_offset : ℕ)
    → ¬ (read_file_from crc32 from_utf8_lossy file start_offset ≡ some (err panicked))
unfolding read_file_from
read_file_from_calm crc32 from_utf8_lossy file start_offset =
    calm_result (read_file_from crc32 from_utf8_lossy file start_offset) (
      read_loop_calm crc32 from_utf8_lossy (suc (length (drop start_offset file)))
        (drop start_offset file) start_offset)
