-- ===== src/Kafka.antt =====
-- The Kafka bridge (06_uns_kafka): the ingestion of MQTT messages with manual acknowledgment.
pub mod Ingest
pub mod Ownership
mod Examples
