-- ===== src/Wal/Reader/Directory.antt =====
-- Recovery from a directory of files.
use mathlib.Core.List.{Perm}
use mathlib.Core.List.Perm
use xerv.Prelude.{
  ℕ, ◌≤◌, ◌<◌, ◌^◌, ◌≡◌, refl, ap, ◌∙◌, false, some, List, [], ◌∷◌, ◌++◌, ok, map, arith, leb, ltb,
  Bool-cases, inl, inr, if◌then◌else◌, ◌==◌, nat_eq,
}
use xerv.Wal.Record.{Text, WalRecord}
use xerv.Wal.Record.RoundTrip.{restored}
use xerv.Wal.Reader.{
  WalPosition, insert_by_key, sort_by_key, extend, read_files, read_from, replay,
  get_incomplete_traces_from,
}
use xerv.Wal.Reader.RoundTrip.{file_of, AllInRange, read_file_from-file_of}

abbrev pub on_files : {A : Type 0} {B : Type 0} → (A → B) → List (ℕ × A) → List (ℕ × B)
on_files f [] = []
on_files f ((seq, a) ∷ files) = (seq, f a) ∷ on_files f files

insert_by_key-on_files :
    {A : Type 0} {B : Type 0} (f : A → B) (seq : ℕ) (a : A) (files : List (ℕ × A))
    → insert_by_key (seq, f a) (on_files f files) ≡ on_files f (insert_by_key (seq, a) files)
unfolding insert_by_key
insert_by_key-on_files f seq a [] = refl
insert_by_key-on_files f seq a ((other, b) ∷ files) = elim (Bool-cases (leb seq other)) [
  | inl le ↦ rw le refl
  | inr gt ↦ rw gt (ap (λ l. (other, f b) ∷ l) (insert_by_key-on_files f seq a files))
]

sort_by_key-on_files :
    {A : Type 0} {B : Type 0} (f : A → B) (files : List (ℕ × A))
    → sort_by_key (on_files f files) ≡ on_files f (sort_by_key files)
unfolding sort_by_key
sort_by_key-on_files f [] = refl
sort_by_key-on_files f ((seq, a) ∷ files) =
    ap (λ l. insert_by_key (seq, f a) l) (sort_by_key-on_files f files)
    ∙ insert_by_key-on_files f seq a (sort_by_key files)

-- Each file comes before those with greater numbers.
module _ {A : Type 0} where
  abbrev pub IsAbove : ℕ → List (ℕ × A) → Type 0
  IsAbove low [] = Unit
  IsAbove low ((seq, _) ∷ files) = (low ≤ seq) × IsAbove seq files

  insert_by_key-IsAbove :
      (low seq : ℕ) (a : A) (files : List (ℕ × A))
      → low ≤ seq
      → IsAbove low files
      → IsAbove low (insert_by_key (seq, a) files)
  unfolding insert_by_key
  insert_by_key-IsAbove low seq a [] h s = (h, tt)
  insert_by_key-IsAbove low seq a ((other, b) ∷ files) h s = elim (Bool-cases (leb seq other)) [
    | inl le ↦ rw le (h, (ground (arith, le), s.1))
    | inr gt ↦ rw gt (s.0, insert_by_key-IsAbove other seq a files (ground (arith, gt)) s.1)
  ]

  insert_by_key-Perm :
      (seq : ℕ) (a : A) (files : List (ℕ × A))
      → Perm ((seq, a) ∷ files) (insert_by_key (seq, a) files)
  unfolding insert_by_key
  insert_by_key-Perm seq a [] = Perm.refl ((seq, a) ∷ [])
  insert_by_key-Perm seq a ((other, b) ∷ files) = elim (Bool-cases (leb seq other)) [
    | inl le ↦ rw le (Perm.refl ((seq, a) ∷ (other, b) ∷ files))
    | inr gt ↦ rw gt (
        Perm.trans (Perm.swap (other, b) (seq, a) files)
          (Perm.cons (other, b) (insert_by_key-Perm seq a files)))
  ]

  sort_by_key-Perm : (files : List (ℕ × A)) → Perm files (sort_by_key files)
  unfolding sort_by_key
  sort_by_key-Perm [] = Perm.refl []
  sort_by_key-Perm ((seq, a) ∷ files) =
      Perm.trans (Perm.cons (seq, a) (sort_by_key-Perm files))
        (insert_by_key-Perm seq a (sort_by_key files))

  sort_by_key-IsAbove : (files : List (ℕ × A)) → IsAbove 0 (sort_by_key files)
  unfolding sort_by_key
  sort_by_key-IsAbove [] = tt
  sort_by_key-IsAbove ((seq, a) ∷ files) =
      insert_by_key-IsAbove 0 seq a (sort_by_key files) (omega arith) (sort_by_key-IsAbove files)

abbrev pub FilesInRange : (List ℕ → Text) → List (ℕ × List WalRecord) → Type 0
FilesInRange from_utf8_lossy [] = Unit
FilesInRange from_utf8_lossy ((_, records) ∷ files) =
    AllInRange from_utf8_lossy records × FilesInRange from_utf8_lossy files

insert_by_key-FilesInRange :
    (from_utf8_lossy : List ℕ → Text) (seq : ℕ) (records : List WalRecord)
    (files : List (ℕ × List WalRecord))
    → AllInRange from_utf8_lossy records
    → FilesInRange from_utf8_lossy files
    → FilesInRange from_utf8_lossy (insert_by_key (seq, records) files)
unfolding insert_by_key
insert_by_key-FilesInRange lossy seq records [] h s = (h, tt)
insert_by_key-FilesInRange lossy seq records ((other, more) ∷ files) h s =
    elim (Bool-cases (leb seq other)) [
      | inl le ↦ rw le (h, s)
      | inr gt ↦ rw gt (s.0, insert_by_key-FilesInRange lossy seq records files h s.1)
    ]

sort_by_key-FilesInRange :
    (from_utf8_lossy : List ℕ → Text) (files : List (ℕ × List WalRecord))
    → FilesInRange from_utf8_lossy files
    → FilesInRange from_utf8_lossy (sort_by_key files)
unfolding sort_by_key
sort_by_key-FilesInRange lossy [] v = tt
sort_by_key-FilesInRange lossy ((seq, records) ∷ files) v =
    insert_by_key-FilesInRange lossy seq records (sort_by_key files) v.0
      (sort_by_key-FilesInRange lossy files v.1)

abbrev pub all_records : List (ℕ × List WalRecord) → List WalRecord
all_records [] = []
all_records ((_, records) ∷ files) = map restored records ++ all_records files

abbrev pub start_of_log : WalPosition
start_of_log = record { file_sequence = 0; offset = 0 }

no_earlier : (seq : ℕ) → ltb seq 0 ≡ false
no_earlier seq = ground arith

from_start : (seq start : ℕ) → (if seq == 0 then start else start) ≡ start
from_start seq start = ground arith

module _ (crc32 : List ℕ → ℕ) (from_utf8_lossy : List ℕ → Text)
    (crc_fits : (bytes : List ℕ) → crc32 bytes < 2 ^ 32) where
  read_files-on_files :
      (files : List (ℕ × List WalRecord))
      → FilesInRange from_utf8_lossy files
      → read_files crc32 from_utf8_lossy start_of_log (on_files (file_of crc32) files)
        ≡ some (ok (all_records files))
  unfolding read_files extend
  read_files-on_files [] v = refl
  read_files-on_files ((seq, records) ∷ files) v =
      rw
        (
          no_earlier seq,
          from_start seq 0,
          read_file_from-file_of crc32 from_utf8_lossy crc_fits records v.0,
          read_files-on_files files v.1,
        )
        refl

  -- From a directory of files to which records were written, their fields in range and the files listed
  -- in any order, recovery replays the records of all the files, which it takes by ascending
  -- sequence number, but for empty texts, which are read as absent.
  pub get_incomplete_traces_from-written :
      (files : List (ℕ × List WalRecord))
      → FilesInRange from_utf8_lossy files
      → Perm files (sort_by_key files)
        × IsAbove 0 (sort_by_key files)
        × (get_incomplete_traces_from crc32 from_utf8_lossy
              (on_files (file_of crc32) files)
              start_of_log
              []
            ≡ some (ok (replay [] (all_records (sort_by_key files)))))
  unfolding get_incomplete_traces_from read_from
  get_incomplete_traces_from-written files v = (
    sort_by_key-Perm files,
    sort_by_key-IsAbove files,
    rw
        (
          sort_by_key-on_files (file_of crc32) files,
          read_files-on_files (sort_by_key files)
              (sort_by_key-FilesInRange from_utf8_lossy files v),
        )
        refl,
  )
