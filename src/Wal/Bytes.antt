-- ===== src/Wal/Bytes.antt =====
-- Bytes as the code writes and reads them through `byteorder` and `io::Cursor`: a byte is a number
-- below 256, a cursor is the list of the bytes that are left.
use xerv.Prelude.{
  ℕ, zero, suc, ◌+◌, ◌*◌, ◌/◌, ◌%◌, ◌<◌, ◌≡◌, refl, ap, ◌∙◌, List, [], ◌∷◌, ◌++◌, Result, ok, err,
  ◌>>=◌, arith, length, length-append,
}

-- `io::Error` of kind `UnexpectedEof`, the other errors of the decoder, and a panic on a slice whose
-- end is before its start.
pub data Failure : Type 0 where
  unexpected_eof record_too_small unknown_record_type : Failure
  record_truncated crc_mismatch : ℕ → ℕ → Failure
  slice_panic : ℕ → ℕ → Failure

abbrev pub pow256 : ℕ → ℕ
pow256 zero = 1
pow256 (suc n) = 256 * pow256 n

-- The low `n` bytes of a number, the least significant first.
unfoldable pub le_bytes : ℕ → ℕ → List ℕ
le_bytes zero x = []
le_bytes (suc n) x = x % 256 ∷ le_bytes n (x / 256)

unfoldable pub le_value : List ℕ → ℕ
le_value [] = 0
le_value (b ∷ bs) = b + 256 * le_value bs

-- The bytes of a UUID, the most significant first.
unfoldable pub be_bytes : ℕ → ℕ → List ℕ
be_bytes zero x = []
be_bytes (suc n) x = be_bytes n (x / 256) ++ x % 256 ∷ []

be_value_from : ℕ → List ℕ → ℕ
be_value_from acc [] = acc
be_value_from acc (b ∷ bs) = be_value_from (256 * acc + b) bs

unfoldable pub be_value : List ℕ → ℕ
unfolding be_value_from
be_value bs = be_value_from 0 bs

abbrev pub and_then {ℓ} :
    {A : Type ℓ} → Result (List ℕ × A) Failure → ℕ → Result (List ℕ × A) Failure
and_then (ok (xs, a)) b = ok (b ∷ xs, a)
and_then (err e) b = err e

unfoldable pub read_exact : ℕ → List ℕ → Result (List ℕ × List ℕ) Failure
read_exact zero bs = ok ([], bs)
read_exact (suc n) [] = err unexpected_eof
read_exact (suc n) (b ∷ bs) = and_then (read_exact n bs) b

unfoldable pub read_uint : ℕ → List ℕ → Result (ℕ × List ℕ) Failure
unfolding read_exact le_value
read_uint n bs = do r ← read_exact n bs; ok (le_value r.0, r.1)

-- What is written in pieces, one after the other, before the bytes written later.
abbrev pub write_all : List (List ℕ) → List ℕ → List ℕ
write_all [] later = later
write_all (bs ∷ pieces) later = bs ++ write_all pieces later

unfoldable pub take : ℕ → List ℕ → List ℕ
take zero bs = []
take (suc n) [] = []
take (suc n) (b ∷ bs) = b ∷ take n bs

unfoldable pub drop : ℕ → List ℕ → List ℕ
drop zero bs = bs
drop (suc n) [] = []
drop (suc n) (b ∷ bs) = drop n bs

pub le_value-le_bytes : (n x : ℕ) → x < pow256 n → le_value (le_bytes n x) ≡ x
unfolding le_value le_bytes
le_value-le_bytes zero x h = omega arith
le_value-le_bytes (suc n) x h = omega (arith, le_value-le_bytes n (x / 256) (omega arith))

pub length-le_bytes : (n x : ℕ) → length (le_bytes n x) ≡ n
unfolding le_bytes
length-le_bytes zero x = refl
length-le_bytes (suc n) x = ap suc (length-le_bytes n (x / 256))

pub length-be_bytes : (n x : ℕ) → length (be_bytes n x) ≡ n
unfolding be_bytes
length-be_bytes zero x = refl
length-be_bytes (suc n) x =
    omega (arith, length-append (be_bytes n (x / 256)) (x % 256 ∷ []), length-be_bytes n (x / 256))

be_value_from-append :
    (acc : ℕ) (xs : List ℕ) (b : ℕ)
    → be_value_from acc (xs ++ b ∷ []) ≡ 256 * be_value_from acc xs + b
unfolding be_value_from
be_value_from-append acc [] b = refl
be_value_from-append acc (x ∷ xs) b = be_value_from-append (256 * acc + x) xs b

pub be_value-be_bytes : (n x : ℕ) → x < pow256 n → be_value (be_bytes n x) ≡ x
unfolding be_value be_bytes be_value_from
be_value-be_bytes zero x h = omega arith
be_value-be_bytes (suc n) x h = omega (
  arith,
  be_value_from-append 0 (be_bytes n (x / 256)) (x % 256),
  be_value-be_bytes n (x / 256) (omega arith),
)

pub read_exact-append :
    (n : ℕ) (xs ys : List ℕ) → length xs ≡ n → read_exact n (xs ++ ys) ≡ ok (xs, ys)
unfolding read_exact
read_exact-append zero [] ys h = refl
read_exact-append zero (x ∷ xs) ys h = absurd (omega arith)
read_exact-append (suc n) [] ys h = absurd (omega arith)
read_exact-append (suc n) (x ∷ xs) ys h = rw (read_exact-append n xs ys (omega arith)) refl

pub read_uint-le_bytes :
    (n x : ℕ) (rest : List ℕ) → x < pow256 n → read_uint n (le_bytes n x ++ rest) ≡ ok (x, rest)
unfolding read_uint
read_uint-le_bytes n x rest h =
    rw (read_exact-append n (le_bytes n x) rest (length-le_bytes n x))
      (rw (le_value-le_bytes n x h) refl)

pub take_all : (n : ℕ) (xs : List ℕ) → length xs ≡ n → take n xs ≡ xs
unfolding take
take_all zero [] h = refl
take_all zero (x ∷ xs) h = absurd (omega arith)
take_all (suc n) [] h = absurd (omega arith)
take_all (suc n) (x ∷ xs) h = ap (λ ys. x ∷ ys) (take_all n xs (omega arith))

abbrev pub total_length : List (List ℕ) → ℕ
total_length [] = 0
total_length (bs ∷ pieces) = length bs + total_length pieces

pub length-write_all :
    (pieces : List (List ℕ)) (later : List ℕ)
    → length (write_all pieces later) ≡ total_length pieces + length later
length-write_all [] later = omega arith
length-write_all (bs ∷ pieces) later =
    omega (arith, length-append bs (write_all pieces later), length-write_all pieces later)

pub drop-length :
    (n m : ℕ) (bs later : List ℕ) → n ≡ length bs + m → drop n (bs ++ later) ≡ drop m later
unfolding drop
drop-length n m [] later h = let same : n ≡ m = omega (arith, h) in ap (λ k. drop k later) same
drop-length zero m (b ∷ bs) later h = absurd (omega arith)
drop-length (suc n) m (b ∷ bs) later h = drop-length n m bs later (omega arith)

pub drop-write_all :
    (n : ℕ) (pieces : List (List ℕ)) (later : List ℕ)
    → n ≡ total_length pieces
    → drop n (write_all pieces later) ≡ later
unfolding drop
drop-write_all n [] later h = ap (λ k. drop k later) h
drop-write_all n (bs ∷ pieces) later h =
    drop-length n (total_length pieces) bs (write_all pieces later) h
    ∙ drop-write_all (total_length pieces) pieces later refl

-- What a reader takes is what it leaves less than before.
abbrev pub Consumes : List ℕ → ℕ → Result (List ℕ × List ℕ) Failure → Type 0
Consumes bs n (err e) = Unit
Consumes bs n (ok (xs, later)) = length bs ≡ n + length later

Consumes-step :
    (bs : List ℕ) (n b : ℕ) (r : Result (List ℕ × List ℕ) Failure)
    → Consumes bs n r
    → Consumes (b ∷ bs) (suc n) (and_then r b)
Consumes-step bs n b (err e) c = tt
Consumes-step bs n b (ok (xs, later)) c = omega (arith, c)

pub read_exact-Consumes : (n : ℕ) (bs : List ℕ) → Consumes bs n (read_exact n bs)
unfolding read_exact
read_exact-Consumes zero bs = omega arith
read_exact-Consumes (suc n) [] = tt
read_exact-Consumes (suc n) (b ∷ bs) =
    Consumes-step bs n b (read_exact n bs) (read_exact-Consumes n bs)

pub read_uint_empty : (n : ℕ) → read_uint (suc n) [] ≡ err unexpected_eof
unfolding read_uint read_exact
read_uint_empty n = refl
