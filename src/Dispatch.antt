-- ===== src/Dispatch.antt =====
-- xerv-core/src/dispatch: trace requests and the queue between triggers and workers.
pub mod Request
pub mod Memory
