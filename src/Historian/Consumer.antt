-- ===== src/Historian/Consumer.antt =====
-- The consumer of the historian: reconcile_partition_offset, HistorianKafkaMapper and the handlers of
-- HistorianKafkaConsumer in 04_uns_historian/src/uns_historian/kafka_consumer.py. A handler is cut at
-- the places where it awaits the database, since other handlers run there. What decoding makes of a
-- payload is an argument, and the clock is `now`. The counters, the pauses of polling and the binding of
-- topics decide nothing of what is written or committed.
pub mod Behind
use manufacturing_uns.Prelude.{
  [], ◌∷◌, none, some, true, false, ℕ, Bool, List, Option, ltb, not, any, filter, if◌then◌else◌,
  ◌&&◌, ◌||◌, map, String,
}
use manufacturing_uns.Prelude.Result.{Result, ok, err}
use manufacturing_uns.Prelude.Dict.{put}
use manufacturing_uns.Datalake.Batch.{PartitionKey, key_eq}
use manufacturing_uns.Historian.Batch.{
  BatchCollector, ConsumedEvent, BatchLimits, Envelope, try_add, is_full, new_collector,
}
use manufacturing_uns.Historian.Rows.{HistorianTables, BatchPersistResult}
use manufacturing_uns.Historian.Persist.Ignored.{IgnoredConsumedRecord, checkpoint_ignored_records}

pub data ReconcileError : Type 0 where
  kafka_ahead_of_sql : ReconcileError
  retention_gap : ReconcileError

unfoldable pub is_above : Option ℕ → ℕ → Bool
is_above none bound = false
is_above (some n) bound = ltb bound n

unfoldable pub reconcile_partition_offset : ℕ → Option ℕ → Option ℕ → Result ReconcileError ℕ
unfolding is_above
reconcile_partition_offset sql_checkpoint kafka_committed retained_low =
    if is_above kafka_committed sql_checkpoint
    then err kafka_ahead_of_sql
    else if is_above retained_low sql_checkpoint
    then err retention_gap
    else ok sql_checkpoint

pub record HistorianKafkaMapper : Type 0 where
  pub collector : BatchCollector
  pub owned_partitions : List PartitionKey
  pub revoked : Bool
  pub ownership_active : Bool
  pub batch_in_flight : Bool
  pub pending_kafka_commits : List (PartitionKey × ℕ)

unfoldable pub new_historian_mapper : BatchLimits → HistorianKafkaMapper
unfolding new_collector
new_historian_mapper limits = record {
  collector = new_collector limits;
  owned_partitions = [];
  revoked = false;
  ownership_active = false;
  batch_in_flight = false;
  pending_kafka_commits = [];
}

unfoldable pub reset_collector : HistorianKafkaMapper → HistorianKafkaMapper
unfolding new_collector
reset_collector m = record m { collector = new_collector m.collector.limits }

unfoldable pub assign_partitions : HistorianKafkaMapper → List PartitionKey → HistorianKafkaMapper
assign_partitions m partitions = record m {
  revoked = false;
  ownership_active = true;
  owned_partitions = partitions;
}

unfoldable pub owns_any : List PartitionKey → Bool
owns_any [] = false
owns_any (key ∷ keys) = true

unfoldable pub revoke_partitions : HistorianKafkaMapper → List PartitionKey → HistorianKafkaMapper
unfolding key_eq owns_any
revoke_partitions m partitions =
    let owned = filter (λ key. not (any (key_eq key) partitions)) m.owned_partitions in
    record m {
      owned_partitions = owned;
      ownership_active = m.ownership_active && owns_any owned;
      revoked = true;
    }

unfoldable pub should_pause_for_backpressure : HistorianKafkaMapper → ℕ → Bool
unfolding is_full
should_pause_for_backpressure m now = m.batch_in_flight || is_full m.collector now

-- `dict.update`.
unfoldable pub update_commits :
    List (PartitionKey × ℕ) → List (PartitionKey × ℕ) → List (PartitionKey × ℕ)
unfolding key_eq
update_commits pending [] = pending
update_commits pending ((key, next) ∷ commits) =
    update_commits (put key_eq key next pending) commits

-- `revoked` is read of the mapper, as every caller does.
unfoldable pub record_sql_success :
    HistorianKafkaMapper → BatchPersistResult → HistorianKafkaMapper × List (PartitionKey × ℕ)
unfolding update_commits
record_sql_success m result = if not (m.ownership_active && not m.revoked) then (m, []) else (
  record m { pending_kafka_commits = update_commits m.pending_kafka_commits result.next_offsets },
  result.next_offsets,
)

-- `flush_batch` until it awaits `persist_batch`, and what follows when that ends.
unfoldable pub flush_start :
    HistorianKafkaMapper → Option (HistorianKafkaMapper × List ConsumedEvent)
unfolding reset_collector
flush_start m = elim m.collector.events [
  | [] ↦ none
  | event ∷ events ↦
      if m.batch_in_flight
      then none
      else some (record (reset_collector m) { batch_in_flight = true }, event ∷ events)
]

unfoldable pub flush_end : HistorianKafkaMapper → HistorianKafkaMapper
flush_end m = record m { batch_in_flight = false }

-- `_maybe_flush` until it awaits `persist_batch`.
unfoldable pub maybe_flush :
    Bool → HistorianKafkaMapper → ℕ → Option (HistorianKafkaMapper × List ConsumedEvent)
unfolding is_full flush_start
maybe_flush force m now =
    if m.batch_in_flight
    then none
    else if not force && not (is_full m.collector now)
    then none
    else flush_start m

-- What decode_event and as_legacy_telemetry make of a payload.
pub data Decoded : Type 0 where
  invalid : Decoded
  not_archived : Decoded
  legacy : Envelope → Decoded

pub record KafkaMessage : Type 0 where
  pub topic : String
  pub partition : ℕ
  pub offset : ℕ
  pub payload : List ℕ
  pub decoded : Decoded

pub record BufferMessageResult : Type 0 where
  pub consumed : Option ConsumedEvent
  pub ignored : Option IgnoredConsumedRecord
  pub needs_flush : Bool

unfoldable pub try_buffer_message :
    HistorianKafkaMapper → KafkaMessage → ℕ → HistorianKafkaMapper × BufferMessageResult
unfolding try_add
try_buffer_message m message now = elim message.decoded [
  | invalid ↦ (m, record { consumed = none; ignored = none; needs_flush = false })
  | not_archived ↦ (
    m,
    record {
      consumed = none;
      ignored = some (record {
        partition_key = record { topic = message.topic; partition = message.partition };
        offset = message.offset;
      });
      needs_flush = false;
    },
  )
  | legacy envelope ↦
      let event : ConsumedEvent = record {
        kafka_topic = message.topic;
        partition = message.partition;
        offset = message.offset;
        envelope = envelope;
        envelope_bytes = message.payload;
      } in
      let (collector, added) = try_add m.collector event now in
      (
        record m { collector = collector },
        record { consumed = some event; ignored = none; needs_flush = not added },
      )
]

-- `_commit_kafka`: the committed offsets of the group.
unfoldable pub commit_kafka :
    (PartitionKey → Option ℕ) → List (PartitionKey × ℕ) → PartitionKey → Option ℕ
unfolding key_eq
commit_kafka committed [] = committed
commit_kafka committed ((key, next) ∷ rest) =
    commit_kafka (λ k. if key_eq key k then some next else committed k) rest
