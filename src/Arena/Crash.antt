-- ===== src/Arena/Crash.antt =====
-- xerv-core/src/arena/writer.rs: what an arena that is opened again reads, when the arena before it was
-- dropped, and when its process ended without the drop.
use xerv.Prelude.{
  ℕ, ◌+◌, ◌≤◌, ◌<◌, ◌^◌, ◌%◌, ◌≡◌, refl, ap, ◌∙◌, String, List, ◌∷◌, Result, ok, err, ◌>>=◌, arith,
  length, lt→ltb,
}
use xerv.Errors.{arena_invalid_offset}
use xerv.Arena.{
  ArenaConfig, ArenaInner, ArenaFailure, failed, ArenaHeader, header_bytes, new_header, create,
  open_, update_header, read_bytes,
}
use xerv.Arena.Header.{length-header_bytes}
use xerv.Arena.Memory.{copy_to_after}
use xerv.Arena.Written.{
  IsMapped, FitsPtr, HasRoom, AllFit, Holds, writes, written-Holds, read_bytes-written,
}
use xerv.Arena.Reopen.{
  HasHeader, reopened, open_-reopened, create-IsMapped, create-HasHeader, writes-SameHeader,
  update_header-IsMapped, update_header-HasHeader,
}

-- What is read of the file by an arena that opens it.
abbrev pub read_file_at : String → List ℕ → ℕ → ℕ → Result (List ℕ) ArenaFailure
read_file_at path file offset size = do a ← open_ path file; read_bytes a offset size

-- The write position of an arena that opens the file.
abbrev pub opened_at : String → List ℕ → Result ℕ ArenaFailure
opened_at path file = do a ← open_ path file; ok a.write_pos

reopened-IsMapped :
    (path : String) (a : ArenaInner)
    → IsMapped a
    → 128 ≤ a.header.write_pos
    → a.header.write_pos ≤ a.capacity
    → IsMapped (reopened path a)
reopened-IsMapped path a m l u = record {
  mapped = refl;
  capacity_fits = omega (arith, m.mapped, m.capacity_fits);
  after_header = l;
  in_capacity = omega (arith, m.mapped, u);
}

update_header-Holds :
    (a : ArenaInner) (offset size : ℕ) (was : List ℕ)
    → length a.header.reserved ≡ 32
    → 128 ≤ offset
    → Holds offset size was a
    → Holds offset size was (update_header a)
unfolding update_header
update_header-Holds a offset size was v l h =
    let header : ArenaHeader = record a.header { write_pos = a.write_pos } in
    (
      h.0,
      copy_to_after offset size (header_bytes header) a.mmap
            (omega (arith, length-header_bytes header v, l))
          ∙ h.1,
    )

-- What an arena whose header is up to date holds is read after it is opened again.
read_file_at-Holds :
    (path : String) (a : ArenaInner) (offset size : ℕ) (was : List ℕ)
    → IsMapped a
    → HasHeader a
    → a.header.write_pos ≡ a.write_pos
    → Holds offset size was a
    → read_file_at path a.mmap offset size ≡ ok was
read_file_at-Holds path a offset size was m v same h =
    let c : IsMapped (reopened path a) =
      reopened-IsMapped path a m (omega (arith, same, m.after_header))
        (omega (arith, same, m.in_capacity)) in
    rw (open_-reopened path a m v)
      (read_bytes-written (reopened path a) offset size c (omega (arith, h.0, same)) ∙ ap ok h.1)

updated : (a : ArenaInner) → (update_header a).header.write_pos ≡ (update_header a).write_pos
unfolding update_header
updated a = refl

-- What was written to an arena with a valid header, and found room, is read by the arena that opens its
-- file after the first one was dropped, also when more was written in between.
pub update_header-open_ :
    (path : String) (a : ArenaInner) (bytes : List ℕ) (later : List (List ℕ))
    → IsMapped a
    → HasHeader a
    → FitsPtr bytes
    → AllFit later
    → HasRoom a bytes
    → read_file_at path ((update_header (writes a (bytes ∷ later))).mmap) a.write_pos (length bytes)
      ≡ ok bytes
update_header-open_ path a bytes later m v f g r =
    let b = writes a (bytes ∷ later) in
    let h = writes-SameHeader a.header a (bytes ∷ later) m (f, g) (v, refl) in
    read_file_at-Holds path (update_header b) a.write_pos (length bytes) bytes
      (update_header-IsMapped b h.0) (update_header-HasHeader b h.0 h.1.0) (updated b)
      (update_header-Holds b a.write_pos (length bytes) bytes h.1.0.fits.reserved_fits
        m.after_header ((written-Holds a bytes later m f g r).1))

create_header :
    (config : ArenaConfig) (now trace_id : ℕ) (path : String)
    → (create config now trace_id path).header ≡ new_header now trace_id config.capacity
unfolding create
create_header config now trace_id path = refl

-- `read_bytes` of what lies behind the write position.
read_bytes_unwritten :
    (a : ArenaInner) (offset size : ℕ)
    → a.write_pos < offset + size
    → offset + size < 2 ^ 64
    → read_bytes a offset size ≡ err (failed (arena_invalid_offset offset "exceeds write position"))
unfolding read_bytes
read_bytes_unwritten a offset size h u =
    let same : (offset + size) % 2 ^ 64 ≡ offset + size = omega arith in
    rw (same, lt→ltb a.write_pos (offset + size) h) refl

-- A new arena that has a valid capacity and is written to, but never dropped, leaves a file in which
-- nothing counts as written: an arena that opens it starts to write behind the header again, and
-- refuses to read any region of at least one byte that a write has returned.
pub writes-open_ :
    (config : ArenaConfig) (now trace_id : ℕ) (path : String) (written : List (List ℕ))
    (offset size : ℕ)
    → 128 ≤ config.capacity
    → config.capacity < 2 ^ 63
    → now < 2 ^ 64
    → trace_id < 2 ^ 128
    → AllFit written
    → 128 ≤ offset
    → 1 ≤ size
    → offset + size < 2 ^ 64
    → (let file = (writes (create config now trace_id path) written).mmap in
        (opened_at path file ≡ ok 128)
        × (read_file_at path file offset size
            ≡ err (failed (arena_invalid_offset offset "exceeds write position"))))
writes-open_ config now trace_id path written offset size l u n t f o s e =
    let a = create config now trace_id path in
    let m = create-IsMapped config now trace_id path l u in
    let v = create-HasHeader config now trace_id path l u n t in
    let h = writes-SameHeader a.header a written m f (v, refl) in
    let b = writes a written in
    let at_header : b.header.write_pos ≡ 128 =
      ap (λ x. x.write_pos) (h.1.1 ∙ create_header config now trace_id path) in
    let opened = open_-reopened path b h.0 h.1.0 in
    (
      rw (opened, at_header) refl,
      rw opened (read_bytes_unwritten (reopened path b) offset size (omega (arith, at_header)) e),
    )
