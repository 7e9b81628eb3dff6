-- ===== src/Arena/Reopen.antt =====
-- xerv-core/src/arena/writer.rs: `open` of the file that an arena has left.
use xerv.Prelude.{ℕ, ◌≤◌, ◌<◌, ◌^◌, ◌≡◌, refl, ◌∙◌, String, List, [], ◌∷◌, ok, false, arith, length}
use xerv.Wal.Bytes.{take}
use xerv.Arena.{
  ArenaConfig, ArenaInner, ArenaHeader, arena_magic, arena_version, header_bytes, new_header,
  validate, create, open_, open_header, open_with, update_header, write_bytes, zeros,
}
use xerv.Arena.Header.{HeaderFits, length-header_bytes, header_from_bytes-header_bytes}
use xerv.Arena.Memory.{length-copy_to, length-zeros, take_first, file_start, not_ltb}
use xerv.Arena.Written.{
  IsMapped, FitsPtr, AllFit, after, writes, write_bytes-keeps, write_bytes-IsMapped,
}

-- The header is one that `open` accepts, and the file starts with it.
pub record HasHeader (a : ArenaInner) : Type 0 where
  pub fits : HeaderFits a.header
  pub magic_valid : a.header.magic ≡ arena_magic
  pub version_valid : a.header.version ≡ arena_version
  pub position_valid : a.header.write_pos ≤ a.header.capacity
  pub same_capacity : a.header.capacity ≡ a.capacity
  pub on_disk : take 128 a.mmap ≡ header_bytes a.header

-- The arena that `open` makes of the file.
abbrev pub reopened : String → ArenaInner → ArenaInner
reopened path a = record {
  mmap = a.mmap;
  path = path;
  write_pos = a.header.write_pos;
  header = a.header;
  sync_on_write = false;
  capacity = length a.mmap;
}

validate_lem : (a : ArenaInner) → HasHeader a → validate a.header ≡ ok tt
unfolding validate
validate_lem a v = ground (arith, v.magic_valid, v.version_valid, v.position_valid)

-- `open` of the file of an arena whose header is in place.
pub open_-reopened :
    (path : String) (a : ArenaInner)
    → IsMapped a
    → HasHeader a
    → open_ path a.mmap ≡ ok (reopened path a)
unfolding open_ open_header open_with
open_-reopened path a m v =
    rw
      (
        not_ltb (length a.mmap) 128 (omega (arith, m.mapped, m.after_header, m.in_capacity)),
        v.on_disk,
        header_from_bytes-header_bytes a.header v.fits,
        validate_lem a v,
      )
      refl

write_pos_fits : (a : ArenaInner) → IsMapped a → a.write_pos < 2 ^ 64
write_pos_fits a m = omega (arith, m.in_capacity, m.capacity_fits)

pub create-IsMapped :
    (config : ArenaConfig) (now trace_id : ℕ) (path : String)
    → 128 ≤ config.capacity
    → config.capacity < 2 ^ 63
    → IsMapped (create config now trace_id path)
unfolding create
create-IsMapped config now trace_id path l u = record {
  mapped =
      length-copy_to 0 (header_bytes (new_header now trace_id config.capacity))
        (zeros config.capacity)
      ∙ length-zeros config.capacity;
  capacity_fits = u;
  after_header = omega arith;
  in_capacity = l;
}

pub new_header-HeaderFits :
    (now trace_id capacity : ℕ)
    → now < 2 ^ 64
    → trace_id < 2 ^ 128
    → capacity < 2 ^ 63
    → HeaderFits (new_header now trace_id capacity)
new_header-HeaderFits now trace_id capacity n t u = record {
  magic_fits = omega arith;
  version_fits = omega arith;
  flags_fits = omega arith;
  trace_id_fits = t;
  config_offset_fits = omega arith;
  config_size_fits = omega arith;
  data_offset_fits = omega arith;
  write_pos_fits = omega arith;
  capacity_fits = omega arith;
  created_at_fits = n;
  schema_hash_fits = omega arith;
  pipeline_version_fits = omega arith;
  reserved_fits = refl;
}

pub create-HasHeader :
    (config : ArenaConfig) (now trace_id : ℕ) (path : String)
    → 128 ≤ config.capacity
    → config.capacity < 2 ^ 63
    → now < 2 ^ 64
    → trace_id < 2 ^ 128
    → HasHeader (create config now trace_id path)
unfolding create
create-HasHeader config now trace_id path l u n t =
    let h = new_header now trace_id config.capacity in
    record {
      fits = new_header-HeaderFits now trace_id config.capacity n t u;
      magic_valid = refl;
      version_valid = refl;
      position_valid = l;
      same_capacity = refl;
      on_disk =
          take_first 128 (header_bytes h) (zeros config.capacity) (length-header_bytes h refl)
            (omega (arith, length-zeros config.capacity));
    }

-- A write leaves the header alone, in memory and in the file.
after-HasHeader :
    (a : ArenaInner) (bytes : List ℕ) → IsMapped a → HasHeader a → HasHeader (after a bytes)
after-HasHeader a bytes m v = record {
  fits = v.fits;
  magic_valid = v.magic_valid;
  version_valid = v.version_valid;
  position_valid = v.position_valid;
  same_capacity = v.same_capacity;
  on_disk = file_start a.write_pos bytes a.mmap m.after_header ∙ v.on_disk;
}

abbrev SameHeader : ArenaHeader → ArenaInner → Type 0
SameHeader h b = HasHeader b × (b.header ≡ h)

write_bytes-SameHeader :
    (h : ArenaHeader) (a : ArenaInner) (bytes : List ℕ)
    → IsMapped a
    → FitsPtr bytes
    → SameHeader h a
    → SameHeader h ((write_bytes a bytes).0)
write_bytes-SameHeader h a bytes m f v =
    write_bytes-keeps (SameHeader h) a bytes m f v (λ r. (after-HasHeader a bytes m v.0, v.1))

pub writes-SameHeader :
    (h : ArenaHeader) (a : ArenaInner) (later : List (List ℕ))
    → IsMapped a
    → AllFit later
    → SameHeader h a
    → IsMapped (writes a later) × SameHeader h (writes a later)
writes-SameHeader h a [] m f v = (m, v)
writes-SameHeader h a (bytes ∷ later) m f v =
    writes-SameHeader h ((write_bytes a bytes).0) later (write_bytes-IsMapped a bytes m f.0) f.1
      (write_bytes-SameHeader h a bytes m f.0 v)

pub update_header-IsMapped : (a : ArenaInner) → IsMapped a → IsMapped (update_header a)
unfolding update_header
update_header-IsMapped a m = record {
  mapped =
      length-copy_to 0 (header_bytes (record a.header { write_pos = a.write_pos })) a.mmap
      ∙ m.mapped;
  capacity_fits = m.capacity_fits;
  after_header = m.after_header;
  in_capacity = m.in_capacity;
}

pub update_header-HasHeader :
    (a : ArenaInner) → IsMapped a → HasHeader a → HasHeader (update_header a)
unfolding update_header
update_header-HasHeader a m v =
    let h : ArenaHeader = record a.header { write_pos = a.write_pos } in
    record {
      fits = record {
        magic_fits = v.fits.magic_fits;
        version_fits = v.fits.version_fits;
        flags_fits = v.fits.flags_fits;
        trace_id_fits = v.fits.trace_id_fits;
        config_offset_fits = v.fits.config_offset_fits;
        config_size_fits = v.fits.config_size_fits;
        data_offset_fits = v.fits.data_offset_fits;
        write_pos_fits = write_pos_fits a m;
        capacity_fits = v.fits.capacity_fits;
        created_at_fits = v.fits.created_at_fits;
        schema_hash_fits = v.fits.schema_hash_fits;
        pipeline_version_fits = v.fits.pipeline_version_fits;
        reserved_fits = v.fits.reserved_fits;
      };
      magic_valid = v.magic_valid;
      version_valid = v.version_valid;
      position_valid = omega (arith, m.in_capacity, v.same_capacity);
      same_capacity = v.same_capacity;
      on_disk =
          take_first 128 (header_bytes h) a.mmap (length-header_bytes h v.fits.reserved_fits)
            (omega (arith, m.mapped, m.after_header, m.in_capacity));
    }
