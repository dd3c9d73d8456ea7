-- ===== src/Datalake/Flush.antt =====
-- Which partition is flushed: should_flush_partition, partition_needing_pressure_flush and
-- choose_flush_partition of 14_uns_datalake/src/uns_datalake/batch.py.
pub mod Choose
use manufacturing_uns.Prelude.{
  [], ◌∷◌, none, some, true, false, String, ℕ, Bool, List, Option, ltb, ◌&&◌, if◌then◌else◌, length,
  ◌-◌, any, ◌+◌, ◌++◌, not, leb, ◌||◌, ◌==◌,
}
use manufacturing_uns.Prelude.Result.{Result, ok, err}
use manufacturing_uns.Prelude.Dict.{get, put, erase}
use manufacturing_uns.Prelude.Text.{str_leb}
use text.Mathlib.Text.{◌==◌ as str_eq}
use manufacturing_uns.Datalake.Batch.{
  PartitionKey, PartitionBuffer, BatchManager, FlushLimits, buffer_is_empty, key_eq,
  total_buffered_bytes, key_leb, age,
}

unfoldable pub buffer_ready : FlushLimits → PartitionBuffer → ℕ → Bool
unfolding buffer_is_empty age
buffer_ready l b now =
    not (buffer_is_empty b)
    && (leb l.max_records (length b.records)
        || leb l.max_bytes b.byte_total
        || leb l.max_active_route_groups (length b.route_groups)
        || leb l.interval_seconds (age b now))

unfoldable pub should_flush_partition : BatchManager → PartitionKey → ℕ → Bool
unfolding buffer_ready key_eq
should_flush_partition m key now = elim (get key_eq key m.buffers) [
  | none ↦ false
  | some b ↦ buffer_ready m.limits b now
]

-- `started_at or 0.0`.
unfoldable pub start_key : PartitionBuffer → ℕ
start_key b = elim b.started_at [ none ↦ 0 | some start ↦ start ]

-- `min(candidates, key=...)`: the first of the least.
unfoldable pub oldest : List PartitionBuffer → Option PartitionBuffer
unfolding start_key
oldest [] = none
oldest (b ∷ rest) = elim (oldest rest) [
  | none ↦ some b
  | some other ↦ if leb (start_key b) (start_key other) then some b else some other
]

unfoldable pub candidates : List (PartitionKey × PartitionBuffer) → List PartitionBuffer
unfolding buffer_is_empty
candidates [] = []
candidates ((key, b) ∷ rest) = if buffer_is_empty b then candidates rest else b ∷ candidates rest

unfoldable pub partition_needing_pressure_flush : BatchManager → Option PartitionKey
unfolding total_buffered_bytes oldest candidates
partition_needing_pressure_flush m =
    if leb (total_buffered_bytes m) m.limits.worker_max_buffered_bytes
    then none
    else elim (oldest (candidates m.buffers)) [ none ↦ none | some b ↦ some b.partition_key ]

unfoldable pub ready_keys :
    BatchManager → List (PartitionKey × PartitionBuffer) → ℕ → List PartitionKey
unfolding should_flush_partition
ready_keys m [] now = []
ready_keys m ((key, b) ∷ rest) now =
    if should_flush_partition m key now then key ∷ ready_keys m rest now else ready_keys m rest now

unfoldable pub min_key : List PartitionKey → Option PartitionKey
unfolding key_leb
min_key [] = none
min_key (key ∷ rest) = elim (min_key rest) [
  | none ↦ some key
  | some other ↦ if key_leb key other then some key else some other
]

unfoldable pub choose_flush_partition : BatchManager → ℕ → Option PartitionKey
unfolding ready_keys min_key partition_needing_pressure_flush
choose_flush_partition m now = elim (min_key (ready_keys m m.buffers now)) [
  | none ↦ partition_needing_pressure_flush m
  | some key ↦ some key
]
