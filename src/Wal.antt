-- ===== src/Wal.antt =====
-- xerv-core/src/wal: the write-ahead log's records and their recovery.
pub mod Bytes
pub mod RecordType
pub mod Record
pub mod Reader
mod Scenarios
