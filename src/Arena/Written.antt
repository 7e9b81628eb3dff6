-- ===== src/Arena/Written.antt =====
-- xerv-core/src/arena/writer.rs: `write_bytes` and `read_bytes`, one after the other.
use xerv.Prelude.{
  ℕ, ◌+◌, ◌≤◌, ◌<◌, ◌^◌, ◌%◌, ◌≡◌, refl, ap, ◌∙◌, ◌⊎◌, List, [], ◌∷◌, ok, err, arith, length, ltb,
  ltb→lt, lt→ltb, Bool-cases, inl, inr,
}
use xerv.Errors.{arena_capacity}
use xerv.NodeOutput.{RelPtr}
use xerv.Wal.Bytes.{take, drop}
use xerv.Arena.{ArenaInner, write_bytes, read_bytes, put, align, available_space}
use xerv.Arena.Memory.{length-put, take-put, put_before, not_ltb}

-- The file is mapped whole, its length is a file's, and what is written begins behind the header.
pub record IsMapped (a : ArenaInner) : Type 0 where
  pub mapped : length a.mmap ≡ a.capacity
  pub capacity_fits : a.capacity < 2 ^ 63
  pub after_header : 128 ≤ a.write_pos
  pub in_capacity : a.write_pos ≤ a.capacity

-- The size of what is written is one that a pointer holds.
abbrev pub FitsPtr : List ℕ → Type 0
FitsPtr bytes = length bytes < 2 ^ 32

abbrev pub HasRoom : ArenaInner → List ℕ → Type 0
HasRoom a bytes = a.write_pos + align (length bytes) ≤ a.capacity

abbrev pub pointer : ArenaInner → List ℕ → RelPtr
pointer a bytes = record { offset = a.write_pos; size = length bytes }

abbrev pub after : ArenaInner → List ℕ → ArenaInner
after a bytes = record a {
  mmap = put a.write_pos bytes a.mmap;
  write_pos = a.write_pos + align (length bytes);
}

new_pos_fits :
    (a : ArenaInner) (bytes : List ℕ)
    → IsMapped a
    → FitsPtr bytes
    → (a.write_pos + align (length bytes)) % 2 ^ 64 ≡ a.write_pos + align (length bytes)
new_pos_fits a bytes v f = omega (arith, v.capacity_fits, v.in_capacity)

same_size : (bytes : List ℕ) → FitsPtr bytes → length bytes % 2 ^ 32 ≡ length bytes
same_size bytes f = omega arith

write_bytes-HasRoom :
    (a : ArenaInner) (bytes : List ℕ)
    → IsMapped a
    → FitsPtr bytes
    → HasRoom a bytes
    → write_bytes a bytes ≡ (after a bytes, ok (pointer a bytes))
unfolding write_bytes
write_bytes-HasRoom a bytes v f r =
    rw
      (
        new_pos_fits a bytes v f,
        not_ltb a.capacity (a.write_pos + align (length bytes)) r,
        same_size bytes f,
      )
      refl

write_bytes-full :
    (a : ArenaInner) (bytes : List ℕ)
    → IsMapped a
    → FitsPtr bytes
    → a.capacity < a.write_pos + align (length bytes)
    → write_bytes a bytes ≡ (a, err (arena_capacity (align (length bytes)) (available_space a)))
unfolding write_bytes
write_bytes-full a bytes v f r =
    rw (new_pos_fits a bytes v f, lt→ltb a.capacity (a.write_pos + align (length bytes)) r) refl

after-IsMapped :
    (a : ArenaInner) (bytes : List ℕ) → IsMapped a → HasRoom a bytes → IsMapped (after a bytes)
after-IsMapped a bytes v r = record {
  mapped = length-put a.write_pos bytes a.mmap ∙ v.mapped;
  capacity_fits = v.capacity_fits;
  after_header = omega (arith, v.after_header);
  in_capacity = r;
}

-- A write either finds room, and appends, or it does not, and the arena is as before.
pub write_bytes-cases :
    (a : ArenaInner) (bytes : List ℕ)
    → IsMapped a
    → FitsPtr bytes
    → (HasRoom a bytes × (write_bytes a bytes ≡ (after a bytes, ok (pointer a bytes))))
      ⊎ ((a.capacity < a.write_pos + align (length bytes))
          × (write_bytes a bytes
              ≡ (a, err (arena_capacity (align (length bytes)) (available_space a)))))
write_bytes-cases a bytes v f =
    elim (Bool-cases (ltb a.capacity (a.write_pos + align (length bytes)))) [
      | inl t ↦
          let r = ltb→lt a.capacity (a.write_pos + align (length bytes)) t in
          inr (r, write_bytes-full a bytes v f r)
      | inr n ↦
          let r : HasRoom a bytes = ground (arith, n) in inl (r, write_bytes-HasRoom a bytes v f r)
    ]

-- `read_bytes` of what lies before the write position.
pub read_bytes-written :
    (a : ArenaInner) (offset size : ℕ)
    → IsMapped a
    → offset + size ≤ a.write_pos
    → read_bytes a offset size ≡ ok (take size (drop offset a.mmap))
unfolding read_bytes
read_bytes-written a offset size v h =
    let fits : (offset + size) % 2 ^ 64 ≡ offset + size =
      omega (arith, v.capacity_fits, v.in_capacity) in
    rw
      (
        fits,
        not_ltb a.write_pos (offset + size) h,
        not_ltb (length a.mmap) (offset + size) (omega (arith, v.mapped, v.in_capacity)),
      )
      refl

abbrev pub writes : ArenaInner → List (List ℕ) → ArenaInner
writes a [] = a
writes a (bytes ∷ later) = writes ((write_bytes a bytes).0) later

-- A property of arenas that holds after a write that finds room, after any write.
pub write_bytes-keeps :
    (P : ArenaInner → Type 0) (a : ArenaInner) (bytes : List ℕ)
    → IsMapped a
    → FitsPtr bytes
    → P a
    → (HasRoom a bytes → P (after a bytes))
    → P ((write_bytes a bytes).0)
write_bytes-keeps P a bytes v f p q = elim (write_bytes-cases a bytes v f) [
  | inl (r, same) ↦ rw same (q r)
  | inr (full, same) ↦ rw same p
]

pub write_bytes-IsMapped :
    (a : ArenaInner) (bytes : List ℕ)
    → IsMapped a
    → FitsPtr bytes
    → IsMapped ((write_bytes a bytes).0)
write_bytes-IsMapped a bytes v f =
    write_bytes-keeps IsMapped a bytes v f v (λ r. after-IsMapped a bytes v r)

-- All of a list of byte strings fit.
abbrev pub AllFit : List (List ℕ) → Type 0
AllFit [] = Unit
AllFit (bytes ∷ later) = FitsPtr bytes × AllFit later

-- The region of a pointer is written, and its bytes are `was`.
abbrev pub Holds : ℕ → ℕ → List ℕ → ArenaInner → Type 0
Holds offset size was b = (offset + size ≤ b.write_pos) × (take size (drop offset b.mmap) ≡ was)

write_bytes-Holds :
    (a : ArenaInner) (bytes : List ℕ) (offset size : ℕ) (was : List ℕ)
    → IsMapped a
    → FitsPtr bytes
    → Holds offset size was a
    → Holds offset size was ((write_bytes a bytes).0)
write_bytes-Holds a bytes offset size was v f h =
    write_bytes-keeps (Holds offset size was) a bytes v f h
      (λ r. (omega (arith, h.0), put_before offset size a.write_pos bytes a.mmap h.0 ∙ h.1))

writes-Holds :
    (a : ArenaInner) (later : List (List ℕ)) (offset size : ℕ) (was : List ℕ)
    → IsMapped a
    → AllFit later
    → Holds offset size was a
    → IsMapped (writes a later) × Holds offset size was (writes a later)
writes-Holds a [] offset size was v f h = (v, h)
writes-Holds a (bytes ∷ later) offset size was v f h =
    writes-Holds ((write_bytes a bytes).0) later offset size was
      (write_bytes-IsMapped a bytes v f.0) f.1 (write_bytes-Holds a bytes offset size was v f.0 h)

after-Holds :
    (a : ArenaInner) (bytes : List ℕ)
    → IsMapped a
    → HasRoom a bytes
    → Holds a.write_pos (length bytes) bytes (after a bytes)
after-Holds a bytes v r =
    (omega arith, take-put a.write_pos bytes a.mmap (omega (arith, r, v.mapped)))

-- A property of the arena after a write that finds room.
with_room :
    (P : ArenaInner → Type 0) (a : ArenaInner) (bytes : List ℕ)
    → IsMapped a
    → FitsPtr bytes
    → HasRoom a bytes
    → P (after a bytes)
    → P ((write_bytes a bytes).0)
with_room P a bytes v f r q = rw (write_bytes-HasRoom a bytes v f r) q

-- What a write that found room wrote, whatever is written later: its pointer's region holds it.
pub written-Holds :
    (a : ArenaInner) (bytes : List ℕ) (later : List (List ℕ))
    → IsMapped a
    → FitsPtr bytes
    → AllFit later
    → HasRoom a bytes
    → IsMapped (writes a (bytes ∷ later))
      × Holds a.write_pos (length bytes) bytes (writes a (bytes ∷ later))
written-Holds a bytes later v f g r =
    writes-Holds ((write_bytes a bytes).0) later a.write_pos (length bytes) bytes
      (write_bytes-IsMapped a bytes v f) g
      (with_room (Holds a.write_pos (length bytes) bytes) a bytes v f r (after-Holds a bytes v r))

-- A write of fewer than 2^32 bytes returns a pointer exactly when its size, padded to a multiple of 8,
-- fits behind the write position of a mapped arena; the pointer then reads as the bytes that were
-- written, also after any later writes. When it does not fit, the error tells the padded size and the
-- space left, and the arena is as before.
pub write_bytes-read_bytes :
    (a : ArenaInner) (bytes : List ℕ) (later : List (List ℕ))
    → IsMapped a
    → FitsPtr bytes
    → AllFit later
    → (HasRoom a bytes
        × ((write_bytes a bytes).1 ≡ ok (pointer a bytes))
        × (read_bytes (writes a (bytes ∷ later)) a.write_pos (length bytes) ≡ ok bytes))
      ⊎ ((available_space a < align (length bytes))
          × (write_bytes a bytes
              ≡ (a, err (arena_capacity (align (length bytes)) (available_space a)))))
write_bytes-read_bytes a bytes later v f g = elim (write_bytes-cases a bytes v f) [
  | inl (r, same) ↦
      let h = written-Holds a bytes later v f g r in
      inl (
        r,
        ap (λ w. w.1) same,
        read_bytes-written (writes a (bytes ∷ later)) a.write_pos (length bytes) h.0 h.1.0
            ∙ ap ok h.1.1,
      )
  | inr (full, same) ↦ inr (omega (arith, full, v.in_capacity), same)
]
