-- ===== src/Wal/RecordType.antt =====
-- xerv-core/src/wal/record.rs: the type of a record and its byte.
use xerv.Prelude.{
  ℕ, ◌≡◌, ◌⊎◌, inl, inr, refl, Option, none, some, List, [], ◌∷◌, Result, ok, err, get_elem?, ◌<◌,
  arith,
}
use xerv.Wal.Bytes.{Failure, unknown_record_type}

pub data WalRecordType : Type 0 where
  trace_start node_start node_done node_error trace_complete trace_failed : WalRecordType
  trace_suspended trace_resumed checkpoint loop_iteration loop_exit : WalRecordType

unfoldable pub type_byte : WalRecordType → ℕ
type_byte trace_start = 0
type_byte node_start = 1
type_byte node_done = 2
type_byte node_error = 3
type_byte trace_complete = 4
type_byte trace_failed = 5
type_byte trace_suspended = 6
type_byte trace_resumed = 7
type_byte checkpoint = 8
type_byte loop_iteration = 9
type_byte loop_exit = 10

-- The types in the order of their bytes.
abbrev by_byte : List WalRecordType
by_byte =
    trace_start ∷ node_start ∷ node_done ∷ node_error ∷ trace_complete ∷ trace_failed
    ∷ trace_suspended ∷ trace_resumed ∷ checkpoint ∷ loop_iteration ∷ loop_exit ∷ []

abbrev type_or : Option WalRecordType → Result WalRecordType Failure
type_or (some t) = ok t
type_or none = err unknown_record_type

unfoldable pub try_from : ℕ → Result WalRecordType Failure
try_from value = type_or (get_elem? by_byte value)

pub try_from-type_byte : (t : WalRecordType) → try_from (type_byte t) ≡ ok t
unfolding try_from type_byte
try_from-type_byte trace_start = refl
try_from-type_byte node_start = refl
try_from-type_byte node_done = refl
try_from-type_byte node_error = refl
try_from-type_byte trace_complete = refl
try_from-type_byte trace_failed = refl
try_from-type_byte trace_suspended = refl
try_from-type_byte trace_resumed = refl
try_from-type_byte checkpoint = refl
try_from-type_byte loop_iteration = refl
try_from-type_byte loop_exit = refl

pub type_byte-lt : (t : WalRecordType) → type_byte t < 11
unfolding type_byte
type_byte-lt trace_start = omega arith
type_byte-lt node_start = omega arith
type_byte-lt node_done = omega arith
type_byte-lt node_error = omega arith
type_byte-lt trace_complete = omega arith
type_byte-lt trace_failed = omega arith
type_byte-lt trace_suspended = omega arith
type_byte-lt trace_resumed = omega arith
type_byte-lt checkpoint = omega arith
type_byte-lt loop_iteration = omega arith
type_byte-lt loop_exit = omega arith

type_or-cases :
    (o : Option WalRecordType)
    → ((t : WalRecordType) × (type_or o ≡ ok t)) ⊎ (type_or o ≡ err unknown_record_type)
type_or-cases none = inr refl
type_or-cases (some t) = inl (t, refl)

pub try_from-cases :
    (value : ℕ)
    → ((t : WalRecordType) × (try_from value ≡ ok t)) ⊎ (try_from value ≡ err unknown_record_type)
unfolding try_from
try_from-cases value = type_or-cases (get_elem? by_byte value)
