-- ===== src/Config.antt =====
-- The contracts that every service shares (00_uns_config): which topics are history, and the registered
-- publication routes.
pub mod Topics
pub mod Routes
mod Examples
