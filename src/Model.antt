-- ===== src/Model.antt =====
-- The asset model (09_uns_model): topics as paths of assets, and the topics that are bound already.
pub mod TopicPath
pub mod Binder
mod Examples
