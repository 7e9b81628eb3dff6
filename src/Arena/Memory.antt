-- ===== src/Arena/Memory.antt =====
-- xerv-core/src/arena/writer.rs: the bytes of the mapped file after `copy_from_slice`.
use xerv.Prelude.{
  ℕ, zero, suc, ◌+◌, ◌-◌, ◌≤◌, ◌≡◌, refl, ap, List, [], ◌∷◌, ◌++◌, arith, length, ltb, false,
}
use xerv.Wal.Bytes.{take, drop}
use xerv.Arena.{overwrite, copy_to, put, align, zeros}

length-overwrite : (bytes mmap : List ℕ) → length (overwrite bytes mmap) ≡ length mmap
unfolding overwrite
length-overwrite [] mmap = refl
length-overwrite (b ∷ bytes) [] = refl
length-overwrite (b ∷ bytes) (m ∷ mmap) = ap suc (length-overwrite bytes mmap)

pub length-copy_to : (pos : ℕ) (bytes mmap : List ℕ) → length (copy_to pos bytes mmap) ≡ length mmap
unfolding copy_to
length-copy_to zero bytes mmap = length-overwrite bytes mmap
length-copy_to (suc pos) bytes [] = refl
length-copy_to (suc pos) bytes (m ∷ mmap) = ap suc (length-copy_to pos bytes mmap)

pub length-zeros : (n : ℕ) → length (zeros n) ≡ n
length-zeros zero = refl
length-zeros (suc n) = ap suc (length-zeros n)

take-overwrite :
    (bytes later mmap : List ℕ)
    → length bytes ≤ length mmap
    → take (length bytes) (overwrite (bytes ++ later) mmap) ≡ bytes
unfolding overwrite take
take-overwrite [] later mmap h = refl
take-overwrite (b ∷ bytes) later [] h = absurd (omega arith)
take-overwrite (b ∷ bytes) later (m ∷ mmap) h =
    ap (λ bs. b ∷ bs) (take-overwrite bytes later mmap (omega arith))

take-copy_to :
    (pos : ℕ) (bytes later mmap : List ℕ)
    → pos + length bytes ≤ length mmap
    → take (length bytes) (drop pos (copy_to pos (bytes ++ later) mmap)) ≡ bytes
unfolding copy_to drop
take-copy_to zero bytes later mmap h = take-overwrite bytes later mmap (omega arith)
take-copy_to (suc pos) bytes later [] h = absurd (omega arith)
take-copy_to (suc pos) bytes later (m ∷ mmap) h = take-copy_to pos bytes later mmap (omega arith)

take_overwritten :
    (n : ℕ) (bytes mmap : List ℕ)
    → length bytes ≡ n
    → n ≤ length mmap
    → take n (overwrite bytes mmap) ≡ bytes
unfolding overwrite take
take_overwritten zero [] mmap same h = refl
take_overwritten zero (b ∷ bytes) mmap same h = absurd (omega arith)
take_overwritten (suc n) [] mmap same h = absurd (omega arith)
take_overwritten (suc n) (b ∷ bytes) [] same h = absurd (omega arith)
take_overwritten (suc n) (b ∷ bytes) (m ∷ mmap) same h =
    ap (λ bs. b ∷ bs) (take_overwritten n bytes mmap (omega arith) (omega arith))

-- The bytes that the file starts with, after they were copied there.
pub take_first :
    (n : ℕ) (bytes mmap : List ℕ)
    → length bytes ≡ n
    → n ≤ length mmap
    → take n (copy_to 0 bytes mmap) ≡ bytes
unfolding copy_to
take_first n bytes mmap same h = take_overwritten n bytes mmap same h

drop-overwrite :
    (offset : ℕ) (bytes mmap : List ℕ)
    → length bytes ≤ offset
    → drop offset (overwrite bytes mmap) ≡ drop offset mmap
unfolding overwrite drop
drop-overwrite offset [] mmap h = refl
drop-overwrite zero (b ∷ bytes) mmap h = absurd (omega arith)
drop-overwrite (suc offset) (b ∷ bytes) [] h = refl
drop-overwrite (suc offset) (b ∷ bytes) (m ∷ mmap) h =
    drop-overwrite offset bytes mmap (omega arith)

-- What lies behind them is kept.
pub copy_to_after :
    (offset size : ℕ) (bytes mmap : List ℕ)
    → length bytes ≤ offset
    → take size (drop offset (copy_to 0 bytes mmap)) ≡ take size (drop offset mmap)
unfolding copy_to
copy_to_after offset size bytes mmap h = ap (take size) (drop-overwrite offset bytes mmap h)

take_before :
    (size pos : ℕ) (bytes mmap : List ℕ)
    → size ≤ pos
    → take size (copy_to pos bytes mmap) ≡ take size mmap
unfolding copy_to take
take_before zero pos bytes mmap h = refl
take_before (suc size) zero bytes mmap h = absurd (omega arith)
take_before (suc size) (suc pos) bytes [] h = refl
take_before (suc size) (suc pos) bytes (m ∷ mmap) h =
    ap (λ bs. m ∷ bs) (take_before size pos bytes mmap (omega arith))

-- What lies before the place that is written is kept.
pub copy_to_before :
    (offset size pos : ℕ) (bytes mmap : List ℕ)
    → offset + size ≤ pos
    → take size (drop offset (copy_to pos bytes mmap)) ≡ take size (drop offset mmap)
unfolding copy_to drop
copy_to_before zero size pos bytes mmap h = take_before size pos bytes mmap (omega arith)
copy_to_before (suc offset) size zero bytes mmap h = absurd (omega arith)
copy_to_before (suc offset) size (suc pos) bytes [] h = refl
copy_to_before (suc offset) size (suc pos) bytes (m ∷ mmap) h =
    copy_to_before offset size pos bytes mmap (omega arith)

pub length-put : (pos : ℕ) (bytes mmap : List ℕ) → length (put pos bytes mmap) ≡ length mmap
unfolding put
length-put pos bytes mmap =
    length-copy_to pos (bytes ++ zeros (align (length bytes) - length bytes)) mmap

pub take-put :
    (pos : ℕ) (bytes mmap : List ℕ)
    → pos + length bytes ≤ length mmap
    → take (length bytes) (drop pos (put pos bytes mmap)) ≡ bytes
unfolding put
take-put pos bytes mmap h =
    take-copy_to pos bytes (zeros (align (length bytes) - length bytes)) mmap h

pub put_before :
    (offset size pos : ℕ) (bytes mmap : List ℕ)
    → offset + size ≤ pos
    → take size (drop offset (put pos bytes mmap)) ≡ take size (drop offset mmap)
unfolding put
put_before offset size pos bytes mmap h =
    copy_to_before offset size pos (bytes ++ zeros (align (length bytes) - length bytes)) mmap h

pub not_ltb : (m n : ℕ) → n ≤ m → ltb m n ≡ false
not_ltb m n h = ground arith

-- The bytes before the header's end are kept by a write behind it.
pub file_start :
    (pos : ℕ) (bytes mmap : List ℕ) → 128 ≤ pos → take 128 (put pos bytes mmap) ≡ take 128 mmap
unfolding put
file_start pos bytes mmap h =
    take_before 128 pos (bytes ++ zeros (align (length bytes) - length bytes)) mmap h
