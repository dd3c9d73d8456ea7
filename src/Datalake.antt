-- ===== src/Datalake.antt =====
-- The datalake mapper (14_uns_datalake): its offset ledger, its batch assembly, and the loop that
-- archives and commits.
pub mod Prefix
pub mod Batch
pub mod Flush
pub mod Freeze
pub mod Replay
pub mod Mapper
mod Examples
mod MapperExamples
