-- ===== src/Datalake/Batch.antt =====
-- Batch assembly per partition: `PartitionBuffer` and `BatchManager` of
-- 14_uns_datalake/src/uns_datalake/batch.py, with FlushLimits of config.py and the records of
-- routing.py. The clock that the source calls is the argument `now`; times are ticks of it. A set of
-- routes is a list without repetitions.
pub mod Valid
pub mod Admit
use manufacturing_uns.Prelude.{
  [], ◌∷◌, none, some, true, false, String, ℕ, Bool, List, Option, ltb, ◌&&◌, if◌then◌else◌, length,
  ◌-◌, any, ◌+◌, ◌++◌, not, leb, ◌||◌, ◌==◌,
}
use manufacturing_uns.Prelude.Result.{Result, ok, err}
use manufacturing_uns.Prelude.Dict.{get, put, erase}
use manufacturing_uns.Prelude.Text.{str_leb}
use text.Mathlib.Text.{◌==◌ as str_eq}

pub record PartitionKey : Type 0 where
  pub topic : String
  pub partition : ℕ

-- The ingestion date is its number of days.
pub record LakeRoute : Type 0 where
  pub application : String
  pub site : String
  pub schema : String
  pub version : String
  pub ingestion_date : ℕ

-- `route` is `record.resolved.route`, and `envelope_bytes` a list of its bytes.
pub record LakeRecord : Type 0 where
  pub partition_key : PartitionKey
  pub offset : ℕ
  pub route : LakeRoute
  pub envelope_bytes : List ℕ

pub record FlushLimits : Type 0 where
  pub interval_seconds : ℕ
  pub max_bytes : ℕ
  pub max_records : ℕ
  pub max_record_bytes : ℕ
  pub worker_max_buffered_bytes : ℕ
  pub max_active_route_groups : ℕ
  pub max_encoded_bytes : ℕ

-- What `validate_flush_limits` lets pass: it raises exactly on the others.
unfoldable pub limits_valid : FlushLimits → Bool
limits_valid l =
    ltb 0 l.interval_seconds
    && ltb 0 l.max_bytes
    && ltb 0 l.max_records
    && ltb 0 l.max_record_bytes
    && ltb 0 l.worker_max_buffered_bytes
    && ltb 0 l.max_active_route_groups
    && ltb 0 l.max_encoded_bytes
    && leb l.max_record_bytes l.max_bytes
    && leb l.max_bytes l.worker_max_buffered_bytes

pub record PartitionBuffer : Type 0 where
  pub partition_key : PartitionKey
  pub records : List LakeRecord
  pub byte_total : ℕ
  pub started_at : Option ℕ
  pub route_groups : List LakeRoute

pub record BatchManager : Type 0 where
  pub limits : FlushLimits
  pub buffers : List (PartitionKey × PartitionBuffer)
  pub pending_record_bytes : ℕ

-- `ValueError("record exceeds configured max_record_bytes")`.
pub data BatchError : Type 0 where
  record_too_large : BatchError

unfoldable pub key_eq : PartitionKey → PartitionKey → Bool
key_eq a b = str_eq a.topic b.topic && a.partition == b.partition

-- Tuples compare by topic, then by partition.
unfoldable pub key_leb : PartitionKey → PartitionKey → Bool
key_leb a b =
    if str_eq a.topic b.topic then leb a.partition b.partition else str_leb a.topic b.topic

unfoldable pub route_eq : LakeRoute → LakeRoute → Bool
route_eq a b =
    str_eq a.application b.application
    && str_eq a.site b.site
    && str_eq a.schema b.schema
    && str_eq a.version b.version
    && a.ingestion_date == b.ingestion_date

unfoldable pub empty_buffer : PartitionKey → PartitionBuffer
empty_buffer key = record {
  partition_key = key;
  records = [];
  byte_total = 0;
  started_at = none;
  route_groups = [];
}

unfoldable pub buffer_is_empty : PartitionBuffer → Bool
buffer_is_empty b = length b.records == 0

unfoldable pub age : PartitionBuffer → ℕ → ℕ
age b now = elim b.started_at [ none ↦ 0 | some start ↦ now - start ]

unfoldable pub has_route : LakeRoute → List LakeRoute → Bool
unfolding route_eq
has_route route routes = any (λ r. route_eq r route) routes

unfoldable pub add_route : LakeRoute → List LakeRoute → List LakeRoute
unfolding has_route
add_route route routes = if has_route route routes then routes else route ∷ routes

unfoldable pub sum_bytes : List (PartitionKey × PartitionBuffer) → ℕ
sum_bytes [] = 0
sum_bytes ((key, b) ∷ rest) = b.byte_total + sum_bytes rest

unfoldable pub total_buffered_bytes : BatchManager → ℕ
unfolding sum_bytes
total_buffered_bytes m = sum_bytes m.buffers + m.pending_record_bytes

unfoldable pub reserve_admission : BatchManager → ℕ → Result BatchError BatchManager
reserve_admission m wire_bytes =
    if ltb m.limits.max_record_bytes wire_bytes
    then err record_too_large
    else ok (record m { pending_record_bytes = wire_bytes })

unfoldable pub clear_admission_reservation : BatchManager → BatchManager
clear_admission_reservation m = record m { pending_record_bytes = 0 }

-- `_buffer` without the entry that it makes: the buffer that is there, or an empty one.
unfoldable pub buffer_of : BatchManager → PartitionKey → PartitionBuffer
unfolding key_eq empty_buffer
buffer_of m key = elim (get key_eq key m.buffers) [ none ↦ empty_buffer key | some b ↦ b ]

unfoldable pub projected_route_groups : BatchManager → LakeRecord → ℕ
unfolding key_eq has_route
projected_route_groups m r = elim (get key_eq r.partition_key m.buffers) [
  | none ↦ 1
  | some b ↦
      if has_route r.route b.route_groups then length b.route_groups else length b.route_groups + 1
]

unfoldable pub admission_would_exceed_limits : BatchManager → LakeRecord → Result BatchError Bool
unfolding projected_route_groups buffer_of
admission_would_exceed_limits m r =
    let wire_bytes = length r.envelope_bytes in
    let b = buffer_of m r.partition_key in
    if ltb m.limits.max_record_bytes wire_bytes
    then err record_too_large
    else ok (
        ltb m.limits.max_active_route_groups (projected_route_groups m r)
        || ltb m.limits.max_records (length b.records + 1)
        || ltb m.limits.max_bytes (b.byte_total + wire_bytes + m.pending_record_bytes))

-- The buffer with one more record.
unfoldable pub appended : PartitionBuffer → LakeRecord → ℕ → PartitionBuffer
unfolding add_route
appended b r now = record {
  partition_key = b.partition_key;
  records = b.records ++ r ∷ [];
  byte_total = b.byte_total + length r.envelope_bytes;
  started_at = elim b.started_at [ none ↦ some now | some start ↦ some start ];
  route_groups = add_route r.route b.route_groups;
}

unfoldable pub admitted : BatchManager → LakeRecord → ℕ → BatchManager
unfolding appended buffer_of clear_admission_reservation
admitted m r now = clear_admission_reservation (record m {
  buffers = put key_eq r.partition_key (appended (buffer_of m r.partition_key) r now) m.buffers;
})

unfoldable pub try_add : BatchManager → LakeRecord → ℕ → Result BatchError (BatchManager × Bool)
unfolding admission_would_exceed_limits admitted
try_add m r now = elim (admission_would_exceed_limits m r) [
  | err e ↦ err e
  | ok exceeds ↦ if exceeds then ok (m, false) else ok (admitted m r now, true)
]

unfoldable pub pop_partition : BatchManager → PartitionKey → BatchManager × PartitionBuffer
unfolding buffer_of
pop_partition m key = (record m { buffers = erase key_eq key m.buffers }, buffer_of m key)

unfoldable pub active_route_group_count : BatchManager → PartitionKey → ℕ
unfolding key_eq
active_route_group_count m key = elim (get key_eq key m.buffers) [
  | none ↦ 0
  | some b ↦ length b.route_groups
]
