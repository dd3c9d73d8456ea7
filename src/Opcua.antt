-- ===== src/Opcua.antt =====
-- The OPC UA collector (10_uns_opcua): its store-and-forward spool and the forwarder that drains it.
pub mod Spool
pub mod Writer
mod Examples
