-- ===== src/Historian/Rows.antt =====
-- The rows and the tables of the historian: batch.py of 04_uns_historian/src/uns_historian, with the
-- tables that historian_handler.py writes. An event comes as its raw row with what
-- iter_payload_metrics yields of its payload; times are microseconds. The unique constraint of the raw
-- table is on time and event id.
use manufacturing_uns.Prelude.{
  [], ◌∷◌, none, some, List, ℕ, Bool, Option, if◌then◌else◌, ◌++◌, any, map, ◌==◌, not, ◌&&◌, ltb,
  length, leb,
}
use manufacturing_uns.Prelude.Result.{Result, ok, err}
use manufacturing_uns.Prelude.Text.{str_leb}
use text.Mathlib.Text.{◌==◌ as str_eq}
use manufacturing_uns.Config.Topics.{text_eq}
use manufacturing_uns.Datalake.Batch.{PartitionKey}
use manufacturing_uns.Historian.Batch.{ConsumedEvent, MetricValue, BatchLimits}

pub record RawInsertRow : Type 0 where
  pub partition_key : PartitionKey
  pub offset : ℕ
  pub time : ℕ
  pub event_id : List ℕ
  pub content_hash : List ℕ
  pub is_telemetry : Bool
  pub is_historical : Bool
  pub payload_metrics : List MetricValue

unfoldable pub raw_row_from_event : ConsumedEvent → RawInsertRow
raw_row_from_event event = record {
  partition_key = record { topic = event.kafka_topic; partition = event.partition };
  offset = event.offset;
  time = event.envelope.time;
  event_id = event.envelope.event_id;
  content_hash = event.envelope.content_hash;
  is_telemetry = event.envelope.is_telemetry;
  is_historical = event.envelope.is_historical;
  payload_metrics = event.envelope.payload_metrics;
}

pub record MetricInsertRow : Type 0 where
  pub time : ℕ
  pub event_id : List ℕ
  pub metric : MetricValue

pub record HistorianTables : Type 0 where
  pub raw : List RawInsertRow
  pub metrics : List MetricInsertRow
  pub checkpoints : PartitionKey → Option ℕ
  pub pending_generation : ℕ → ℕ

pub data PersistError : Type 0 where
  expansion_limit : PersistError

pub record BatchPersistResult : Type 0 where
  pub inserted_count : ℕ
  pub duplicate_count : ℕ
  pub filtered_stale_count : ℕ
  pub quarantined_conflicts : List RawInsertRow
  pub next_offsets : List (PartitionKey × ℕ)

unfoldable pub build_metric_rows :
    BatchLimits → RawInsertRow → Result PersistError (List MetricInsertRow)
build_metric_rows limits row =
    if not row.is_telemetry
    then ok []
    else if ltb limits.max_metric_rows (length row.payload_metrics)
    then err expansion_limit
    else ok (
        map (λ m. record { time = row.time; event_id = row.event_id; metric = m })
          row.payload_metrics)

unfoldable pub all_metric_rows :
    BatchLimits → List RawInsertRow → Result PersistError (List MetricInsertRow)
unfolding build_metric_rows
all_metric_rows limits [] = ok []
all_metric_rows limits (row ∷ rest) = elim (build_metric_rows limits row) [
  | err e ↦ err e
  | ok metrics ↦ elim (all_metric_rows limits rest) [
    | err e ↦ err e
    | ok more ↦ ok (metrics ++ more)
  ]
]

-- The order by topic, partition and offset.
unfoldable pub row_leb : RawInsertRow → RawInsertRow → Bool
row_leb a b =
    if not (str_eq a.partition_key.topic b.partition_key.topic)
    then str_leb a.partition_key.topic b.partition_key.topic
    else if not (a.partition_key.partition == b.partition_key.partition)
    then leb a.partition_key.partition b.partition_key.partition
    else leb a.offset b.offset

-- The constraint of the raw table.
unfoldable pub same_row : RawInsertRow → RawInsertRow → Bool
unfolding text_eq
same_row a b = a.time == b.time && text_eq a.event_id b.event_id

unfoldable pub is_stored : RawInsertRow → List RawInsertRow → Bool
unfolding same_row
is_stored row raw = any (same_row row) raw

-- _EXISTING_CONTENT.
unfoldable pub existing_hash : RawInsertRow → List RawInsertRow → Option (List ℕ)
unfolding same_row
existing_hash row [] = none
existing_hash row (r ∷ raw) = if same_row row r then some r.content_hash else existing_hash row raw
