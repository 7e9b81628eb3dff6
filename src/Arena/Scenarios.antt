-- ===== src/Arena/Scenarios.antt =====
-- Runs of an arena: the theorems at concrete arenas, headers and byte strings.
use xerv.Prelude.{ℕ, ◌<◌, ◌≡◌, ◌⊎◌, false, List, [], ◌∷◌, ok, err, arith}
use xerv.Errors.{arena_capacity, arena_invalid_offset}
use xerv.Arena.{
  ArenaConfig, ArenaInner, failed, header_bytes, header_from_bytes, new_header, create, write_bytes,
  read_bytes, update_header, available_space, align,
}
use xerv.Arena.Header.{header_from_bytes-header_bytes}
use xerv.Arena.Written.{IsMapped, AllFit, HasRoom, pointer, writes, write_bytes-read_bytes}
use xerv.Arena.Reopen.{create-IsMapped, create-HasHeader, new_header-HeaderFits}
use xerv.Arena.Crash.{opened_at, read_file_at, update_header-open_, writes-open_}

-- An arena for two outputs of eight bytes.
abbrev config : ArenaConfig
config = record { capacity = 144; directory = "/tmp/xerv"; sync_on_write = false }

abbrev arena : ArenaInner
arena = create config 7 9 "trace_9.bin"

abbrev mapped : IsMapped arena
mapped = create-IsMapped config 7 9 "trace_9.bin" (omega arith) (omega arith)

header_from_bytes-header_bytes_example :
    header_from_bytes (header_bytes (new_header 7 9 144)) ≡ ok (new_header 7 9 144)
header_from_bytes-header_bytes_example =
    header_from_bytes-header_bytes (new_header 7 9 144)
      (new_header-HeaderFits 7 9 144 (omega arith) (omega arith) (omega arith))

abbrev output : List ℕ
output = 1 ∷ 2 ∷ 3 ∷ []

abbrev more : List (List ℕ)
more = (4 ∷ []) ∷ (5 ∷ 6 ∷ []) ∷ []

abbrev fits : AllFit more
fits = (omega arith, (omega arith, tt))

has_room : HasRoom arena output
unfolding create
has_room = omega arith

write_bytes-read_bytes_example :
    (HasRoom arena output
      × ((write_bytes arena output).1 ≡ ok (pointer arena output))
      × (read_bytes (writes arena (output ∷ more)) arena.write_pos 3 ≡ ok output))
    ⊎ ((available_space arena < align 3)
        × (write_bytes arena output
            ≡ (arena, err (arena_capacity (align 3) (available_space arena)))))
write_bytes-read_bytes_example = write_bytes-read_bytes arena output more mapped (omega arith) fits

update_header-open__example :
    read_file_at "trace_9.bin"
      ((update_header (writes arena (output ∷ more))).mmap)
      arena.write_pos
      3
    ≡ ok output
update_header-open__example =
    update_header-open_ "trace_9.bin" arena output more mapped
      (create-HasHeader config 7 9 "trace_9.bin" (omega arith) (omega arith) (omega arith)
        (omega arith))
      (omega arith) fits has_room

writes-open__example :
    (opened_at "trace_9.bin" ((writes arena (output ∷ more)).mmap) ≡ ok 128)
    × (read_file_at "trace_9.bin" ((writes arena (output ∷ more)).mmap) 128 3
        ≡ err (failed (arena_invalid_offset 128 "exceeds write position")))
writes-open__example =
    writes-open_ config 7 9 "trace_9.bin" (output ∷ more) 128 3 (omega arith) (omega arith)
      (omega arith) (omega arith) (omega arith, fits) (omega arith) (omega arith) (omega arith)
