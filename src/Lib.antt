-- ===== src/Lib.antt =====
-- Manufacturing UNS: a unified namespace for factories. Edge collectors read machines and publish
-- to MQTT; the Kafka bridge takes the messages over into Kafka; the historian writes them to SQL
-- and the datalake mapper to an object store; the OEE engine computes the effectiveness of each
-- shift from states and counters. The parts modelled here are those whose own logic decides what is
-- counted, kept, routed or lost.
--
-- Parts and files:
--   00_uns_config/src/uns_config/uns_ingest.py      Config/Topics (kinds of events)
--   00_uns_config/src/uns_config/publication_routes.py  Config/Routes (filters, validation, resolution)
--   04_uns_historian/src/uns_historian/batch.py     Historian/Batch (BatchCollector,
--                                         compute_next_offset) and Historian/Rows (its rows)
--   04_uns_historian/src/uns_historian/historian_handler.py  Historian/Persist (persist_batch) and
--                                         Historian/Persist/Ignored (checkpoint_ignored_records)
--   04_uns_historian/src/uns_historian/kafka_consumer.py  Historian/Consumer (the mapper and the
--                                         handlers) and Historian/Consumer/Behind (their steps)
--   06_uns_kafka/src/uns_kafka/ingest.py  Kafka/Ingest (IngestionOwner) and Kafka/Ownership
--   09_uns_model/src/uns_model/topic_path.py and topic_binder.py  Model/TopicPath and Model/Binder
--   10_uns_opcua/src/uns_opcua/spool.py, forwarder.py and collector.py  Opcua/Spool (Spool,
--                                         Forwarder.forward_batch) and Opcua/Writer (SpoolWriter, and
--                                         enqueue_drop_oldest of the collector)
--   12_uns_oee/src/uns_oee/states.py      Oee/Interval (Interval, merge, union_duration_s, intersect,
--                                         subtract) and Oee/States (state_segments, stop_intervals)
--   12_uns_oee/src/uns_oee/counters.py    Oee/Counters (counter_delta, counter_delta_in)
--   12_uns_oee/src/uns_oee/classifier.py  Oee/Classifier (ReasonResolver, classify)
--   12_uns_oee/src/uns_oee/oee_calc.py    Oee/Calc (compute, with the values it builds as functions)
--   12_uns_oee/src/uns_oee/store.py       Oee/Tables (the rows) and Oee/Store (ResultStore)
--   12_uns_oee/src/uns_oee/pipeline.py    Oee/Inputs (product_segments, shift_inputs) and Oee/Pipeline
--                                         (ShiftPipeline.run_shift)
--   12_uns_oee/src/uns_oee/sources.py     Oee/Fingerprint (Fingerprint, and manual_digest of pipeline.py)
--   12_uns_oee/src/uns_oee/shift_calendar.py and scheduler.py  Oee/Shifts (the windows of a
--                                         schedule) and Oee/Schedule (those that a pass computes)
--   14_uns_datalake/src/uns_datalake/checkpoint.py  Datalake/Prefix (ConsumedPrefix)
--   14_uns_datalake/src/uns_datalake/batch.py       Datalake/Batch and Datalake/Flush (PartitionBuffer,
--                                         BatchManager), with FlushLimits of config.py and the
--                                         records of routing.py, and Datalake/Freeze (grouping by route)
--   14_uns_datalake/src/uns_datalake/replay.py      Datalake/Replay (choose_start)
--   14_uns_datalake/src/uns_datalake/mapper.py      Datalake/Mapper (the fields and the commits),
--                                         Datalake/Mapper/Loop (rejections, flushes, publication) and
--                                         Datalake/Mapper/Run (messages, run_once, assignments)
--
-- The bridge takes the owner of a topic and the kind of an event from the topic contracts and
-- acknowledges a message to MQTT when Kafka has it. The historian persists a batch and moves its
-- checkpoints in one transaction, and its consumer commits to Kafka what the transaction reports.
-- In the datalake, the batch manager decides when a partition is flushed, the mapper freezes it,
-- publishes its groups and its rejections, and the ledger decides which offset may be committed
-- after it. The classifier of the OEE engine takes the stops that states finds, and the calculation
-- takes classified stops, exceptions and counts and works on them by the interval algebra alone.
-- The scheduler chooses the windows of the shifts that a pass computes, and the pipeline puts these
-- together for one shift, decides by a fingerprint of the rows what is to be done, and writes the
-- result through the store. The spool stands between the OPC UA collector and the broker. Topic
-- paths bind topics to assets, and the binder remembers which topics are bound.
--
-- Every function of the source is a function here, under the name it has there; a loop is recursion
-- on the list it runs over, and its body a function of its own. A method that changes its object
-- takes the record and returns it, an exception is a case of a result type, and a set is a list
-- that is read by membership only. A dict is an association list in the order of insertion, or a
-- function where only lookups matter. What runs in between is a relation of steps: a run of the
-- mapper, of the historian's consumer, of the ingestion owner, of the binder, of the spool with its
-- queue and of the store is a sequence of calls in any order.
--
-- Numbers: an instant is its number of microseconds, a duration or a cycle time likewise; counter
-- readings are whole units; a factor that the source keeps as a float is the exact fraction that it
-- divides. Python's integers are unbounded, so there is no wrap-around to model. Rounding of floats
-- is not modelled.
--
-- Fuel: the loop of _trim_by_bytes has as much as there are rows, since each round deletes at least
-- one. The loop of _flush_ready_partitions has two more than there are buffers: every round takes
-- one buffer out or ends, and one round may go to the partition that is forced. The loop over the
-- days of shift_windows has as many rounds as there are days from the first to the last.
--
-- Parameters: what SQLite reports as the size of the table (byte_size, a function of its rows), and
-- what the broker does with a message (accepts, delivered), and whether the spool can be written
-- (writable); Python's texts of numbers and instants and the digest that manual_digest takes (str,
-- isoformat, sha256_16). What the historian and the master data return to run_shift is its
-- argument, so the SQL of those reads is not modelled. In the mapper, the answers of Kafka, of the
-- object store and of the dead-letter topic are functions of the number of the call (World), each
-- entered in the log where the call is made, and a message comes with what decoding and routing
-- make of it (Content). In the bridge, what resolving a message gives (Resolution) and whether
-- Kafka takes it (Publish) are arguments. The historian's events come with the metrics that
-- flattening their payload yields. Whether bind_topic succeeds is an argument. A time zone is two
-- functions, the wall clock of an instant and the instant of a wall-clock time. Locks,
-- transactions, pragmas, connections and logging are left out; a failed transaction leaves the
-- table as it was, so it is no step of the model.
--
-- Not modelled: clients of MQTT, Kafka, SQL, Cypher and cloud stores, GraphQL resolvers, the front
-- end and the agent, which are input and output; JSON and parquet encodings; the passes of the
-- scheduler; the historian's polling thread; the hierarchy of assets and its access rules.
pub mod Prelude
pub mod Oee
pub mod Datalake
pub mod Opcua
pub mod Historian
pub mod Kafka
pub mod Config
pub mod Model
