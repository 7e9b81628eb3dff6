-- ===== src/Wal/Record/Calm.antt =====
-- Where the decoder does not panic: when the length that a record names reaches the end of its header.
use xerv.Prelude.{
  ℕ, zero, suc, ◌≡◌, refl, Bool, true, false, List, [], ◌∷◌, Result, ok, err, ◌>>=◌, length, ltb,
  nat_beq, Bool-cases, inl, inr,
}
use xerv.Wal.Bytes.{
  Failure, unexpected_eof, record_too_small, unknown_record_type, record_truncated, crc_mismatch,
  slice_panic, read_exact, read_uint, le_value, and_then,
}
use xerv.Wal.RecordType.{WalRecordType, try_from, try_from-cases}
use xerv.Wal.Record.{
  Text, WalRecord, slice, text_after, read_text, parse_payload, check_crc, check_payload,
  from_bytes, min_record_size,
}

abbrev pub panics {ℓ} : {A : Type ℓ} → Result A Failure → Bool
panics (ok a) = false
panics (err (slice_panic _ _)) = true
panics (err _) = false

bind_calm {ℓ κ} :
    {A : Type ℓ} {B : Type κ} (r : Result A Failure) (f : A → Result B Failure)
    → panics r ≡ false
    → ((a : A) → panics (f a) ≡ false)
    → panics (r >>= f) ≡ false
bind_calm (ok a) f h k = k a
bind_calm (err unexpected_eof) f h k = refl
bind_calm (err record_too_small) f h k = refl
bind_calm (err unknown_record_type) f h k = refl
bind_calm (err (record_truncated _ _)) f h k = refl
bind_calm (err (crc_mismatch _ _)) f h k = refl
bind_calm (err (slice_panic _ _)) f h k = h

and_then_calm :
    (r : Result (List ℕ × List ℕ) Failure) (b : ℕ)
    → panics r ≡ false
    → panics (and_then r b) ≡ false
and_then_calm (ok (xs, ys)) b h = refl
and_then_calm (err unexpected_eof) b h = refl
and_then_calm (err record_too_small) b h = refl
and_then_calm (err unknown_record_type) b h = refl
and_then_calm (err (record_truncated _ _)) b h = refl
and_then_calm (err (crc_mismatch _ _)) b h = refl
and_then_calm (err (slice_panic _ _)) b h = h

read_exact_calm : (n : ℕ) (bs : List ℕ) → panics (read_exact n bs) ≡ false
unfolding read_exact
read_exact_calm zero bs = refl
read_exact_calm (suc n) [] = refl
read_exact_calm (suc n) (b ∷ bs) = and_then_calm (read_exact n bs) b (read_exact_calm n bs)

read_uint_calm : (n : ℕ) (bs : List ℕ) → panics (read_uint n bs) ≡ false
unfolding read_uint
read_uint_calm n bs =
    bind_calm (read_exact n bs) (λ r. ok (le_value r.0, r.1)) (read_exact_calm n bs) (λ r. refl)

try_from_calm : (value : ℕ) → panics (try_from value) ≡ false
try_from_calm value = elim (try_from-cases value) [ inl (t, q) ↦ rw q refl | inr q ↦ rw q refl ]

module _ (from_utf8_lossy : List ℕ → Text) where
  text_after_calm :
      (len : ℕ) (cursor : List ℕ) → panics (text_after from_utf8_lossy len cursor) ≡ false
  unfolding text_after
  text_after_calm len cursor = elim (Bool-cases (ltb 0 len)) [
    | inl some_text ↦
        rw (text_after, some_text)
          (bind_calm (read_exact len cursor) _ (read_exact_calm len cursor) (λ buf. refl))
    | inr no_text ↦ rw (text_after, no_text) refl
  ]

  read_text_calm : (cursor : List ℕ) → panics (read_text from_utf8_lossy cursor) ≡ false
  unfolding read_text
  read_text_calm cursor =
      bind_calm (read_uint 4 cursor) _ (read_uint_calm 4 cursor)
        (λ len. text_after_calm len.0 len.1)

  parse_payload_calm :
      (ty : WalRecordType) (trace_id node_id : ℕ) (payload : List ℕ)
      → panics (parse_payload from_utf8_lossy ty trace_id node_id payload) ≡ false
  unfolding parse_payload
  parse_payload_calm ty trace_id node_id payload =
      bind_calm (read_uint 8 payload) _ (read_uint_calm 8 payload) (λ a.
        bind_calm (read_uint 8 a.1) _ (read_uint_calm 8 a.1) (λ b.
          bind_calm (read_uint 4 b.1) _ (read_uint_calm 4 b.1) (λ c.
            bind_calm (read_uint 8 c.1) _ (read_uint_calm 8 c.1) (λ d.
              bind_calm (read_uint 4 d.1) _ (read_uint_calm 4 d.1) (λ e.
                bind_calm (read_text from_utf8_lossy e.1) _ (read_text_calm e.1) (λ f.
                  bind_calm (read_text from_utf8_lossy f.1) _ (read_text_calm f.1) (λ g. refl)))))))

module _ (crc32 : List ℕ → ℕ) (from_utf8_lossy : List ℕ → Text) where
  check_crc_calm :
      (payload : List ℕ) (stored_crc : ℕ) (parsed : Result WalRecord Failure)
      → panics parsed ≡ false
      → panics (check_crc crc32 from_utf8_lossy payload stored_crc parsed) ≡ false
  unfolding check_crc
  check_crc_calm payload stored_crc parsed h =
      elim (Bool-cases (nat_beq (crc32 payload) stored_crc)) [
        | inl good ↦ rw (check_crc, good) h
        | inr bad ↦ rw (check_crc, bad) refl
      ]

  check_payload_calm :
      (bytes : List ℕ) (total_len stored_crc : ℕ) (ty : WalRecordType) (trace_id node_id : ℕ)
      → ltb total_len min_record_size ≡ false
      → panics (check_payload crc32 from_utf8_lossy bytes total_len stored_crc ty trace_id node_id)
        ≡ false
  unfolding check_payload slice
  check_payload_calm bytes total_len stored_crc ty trace_id node_id long =
      elim (Bool-cases (ltb (length bytes) total_len)) [
        | inl cut ↦ rw (check_payload, cut) refl
        | inr whole ↦
            rw (check_payload, whole, long)
              (check_crc_calm _ stored_crc _
                (parse_payload_calm from_utf8_lossy ty trace_id node_id _))
      ]

  pub from_bytes_calm :
      (bytes rest : List ℕ) (total_len : ℕ)
      → read_uint 4 bytes ≡ ok (total_len, rest)
      → ltb total_len min_record_size ≡ false
      → panics (from_bytes crc32 from_utf8_lossy bytes) ≡ false
  unfolding from_bytes
  from_bytes_calm bytes rest total_len q long =
      elim (Bool-cases (ltb (length bytes) min_record_size)) [
        | inl short ↦ rw (from_bytes, short) refl
        | inr enough ↦
            rw (from_bytes, enough, q)
              (bind_calm (read_uint 4 rest) _ (read_uint_calm 4 rest) (λ crc.
                bind_calm (read_uint 1 crc.1) _ (read_uint_calm 1 crc.1) (λ byte.
                  bind_calm (try_from byte.0) _ (try_from_calm byte.0) (λ ty.
                    bind_calm (read_exact 16 byte.1) _ (read_exact_calm 16 byte.1) (λ uuid.
                      bind_calm (read_uint 4 uuid.1) _ (read_uint_calm 4 uuid.1)
                        (λ node. check_payload_calm bytes total_len crc.0 ty _ node.0 long))))))
      ]
