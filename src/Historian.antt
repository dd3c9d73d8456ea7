-- ===== src/Historian.antt =====
-- The historian (04_uns_historian): the assembly of batches and the offset that is committed.
pub mod Batch
pub mod Rows
pub mod Persist
pub mod Consumer
mod Examples
mod PersistExamples
mod ConsumerExamples
