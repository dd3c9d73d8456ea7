-- ===== src/Historian/Persist.antt =====
-- What the historian writes: HistorianHandler.persist_batch of
-- 04_uns_historian/src/uns_historian/historian_handler.py. The tables are lists, the checkpoints of one
-- pipeline epoch a function, and a transaction is its whole effect.
pub mod Passed
pub mod Stored
pub mod Again
pub mod Ignored
pub mod Within
use manufacturing_uns.Prelude.{
  [], ◌∷◌, none, some, List, ℕ, Bool, Option, if◌then◌else◌, ◌++◌, any, map, ◌==◌, not, ◌&&◌, ltb,
  ◌+◌, filter, length, leb, ◌-◌,
}
use Prim.Native.Nat.{◌/◌}
use manufacturing_uns.Prelude.Result.{Result, ok, err}
use manufacturing_uns.Prelude.Sort.{sorted}
use manufacturing_uns.Prelude.Text.{str_leb}
use text.Mathlib.Text.{◌==◌ as str_eq}
use manufacturing_uns.Config.Topics.{text_eq}
use manufacturing_uns.Datalake.Batch.{PartitionKey, key_eq}
use manufacturing_uns.Historian.Rows.{
  RawInsertRow, MetricInsertRow, HistorianTables, PersistError, BatchPersistResult, all_metric_rows,
  row_leb, is_stored, existing_hash,
}
use manufacturing_uns.Historian.Batch.{BatchLimits, compute_next_offset}

-- A checkpoint after _CHECKPOINT_ENSURE.
unfoldable pub checkpoint_of : (PartitionKey → Option ℕ) → PartitionKey → ℕ
checkpoint_of checkpoints key = elim (checkpoints key) [ none ↦ 0 | some next ↦ next ]

unfoldable pub ensure : (PartitionKey → Option ℕ) → PartitionKey → PartitionKey → Option ℕ
unfolding key_eq checkpoint_of
ensure checkpoints key k =
    if key_eq key k then some (checkpoint_of checkpoints k) else checkpoints k

unfoldable pub ensure_all : (PartitionKey → Option ℕ) → List PartitionKey → PartitionKey → Option ℕ
unfolding ensure
ensure_all checkpoints [] = checkpoints
ensure_all checkpoints (key ∷ keys) = ensure_all (ensure checkpoints key) keys

-- What the loop over the rows collects.
pub record Sorting : Type 0 where
  pub accepted : List RawInsertRow
  pub handled_by_partition : List (PartitionKey × List ℕ)
  pub filtered_stale_count : ℕ
  pub duplicate_count : ℕ
  pub quarantined : List RawInsertRow

-- `setdefault(partition_key, []).append(offset)`.
unfoldable pub add_handled :
    PartitionKey → ℕ → List (PartitionKey × List ℕ) → List (PartitionKey × List ℕ)
unfolding key_eq
add_handled key offset [] = (key, offset ∷ []) ∷ []
add_handled key offset ((k, offsets) ∷ rest) =
    if key_eq k key
    then (k, offsets ++ offset ∷ []) ∷ rest
    else (k, offsets) ∷ add_handled key offset rest

unfoldable pub sort_row :
    (PartitionKey → Option ℕ) → List RawInsertRow → Sorting → RawInsertRow → Sorting
unfolding checkpoint_of existing_hash add_handled text_eq
sort_row checkpoints raw s row =
    let handled = record s {
      handled_by_partition = add_handled row.partition_key row.offset s.handled_by_partition;
    } in
    if ltb row.offset (checkpoint_of checkpoints row.partition_key)
    then record s { filtered_stale_count = s.filtered_stale_count + 1 }
    else elim (existing_hash row raw) [
      | none ↦ record handled { accepted = s.accepted ++ row ∷ [] }
      | some hash ↦
          if not (text_eq hash row.content_hash)
          then record handled { quarantined = s.quarantined ++ row ∷ [] }
          else record handled { duplicate_count = s.duplicate_count + 1 }
    ]

unfoldable pub sort_rows :
    (PartitionKey → Option ℕ) → List RawInsertRow → Sorting → List RawInsertRow → Sorting
unfolding sort_row
sort_rows checkpoints raw s [] = s
sort_rows checkpoints raw s (row ∷ rows) =
    sort_rows checkpoints raw (sort_row checkpoints raw s row) rows

-- _RAW_BATCH_INSERT: the table and the rows that it returns.
unfoldable pub raw_batch_insert :
    List RawInsertRow → List RawInsertRow → List RawInsertRow × List RawInsertRow
unfolding is_stored
raw_batch_insert raw [] = (raw, [])
raw_batch_insert raw (row ∷ rows) =
    let skipped = raw_batch_insert raw rows in
    let (table, returned) = raw_batch_insert (raw ++ row ∷ []) rows in
    if is_stored row raw then skipped else (table, row ∷ returned)

unfoldable pub id_in : List ℕ → List RawInsertRow → Bool
unfolding text_eq
id_in event_id rows = any (λ r. text_eq r.event_id event_id) rows

-- `len` of the set of event ids.
unfoldable pub distinct_ids : List RawInsertRow → ℕ
unfolding id_in
distinct_ids [] = 0
distinct_ids (row ∷ rows) =
    if id_in row.event_id rows then distinct_ids rows else distinct_ids rows + 1

unfoldable pub utc_day : ℕ → ℕ
utc_day time = time / 86400000000

-- _LATE_REFRESH_BUMP for each late row.
unfoldable pub bump_late : (ℕ → ℕ) → List RawInsertRow → ℕ → ℕ
unfolding utc_day
bump_late generation [] day = generation day
bump_late generation (row ∷ rows) day =
    let more = bump_late generation rows day in
    if row.is_telemetry && row.is_historical && utc_day row.time == day then more + 1 else more

-- _CHECKPOINT_ADVANCE.
unfoldable pub advance_checkpoint :
    (PartitionKey → Option ℕ) → PartitionKey → ℕ → PartitionKey → Option ℕ
unfolding key_eq checkpoint_of
advance_checkpoint checkpoints key next k =
    if key_eq key k && leb (checkpoint_of checkpoints k) next then some next else checkpoints k

-- The last loop: the checkpoints and `next_offsets`; `locked` are those read at the start.
unfoldable pub advance_checkpoints :
    (PartitionKey → Option ℕ)
    → (PartitionKey → Option ℕ)
    → List (PartitionKey × List ℕ)
    → (PartitionKey → Option ℕ) × List (PartitionKey × ℕ)
unfolding compute_next_offset checkpoint_of advance_checkpoint
advance_checkpoints locked checkpoints [] = (checkpoints, [])
advance_checkpoints locked checkpoints ((key, offsets) ∷ rest) =
    let advanced = compute_next_offset (checkpoint_of locked key) offsets in
    let same = advance_checkpoints locked checkpoints rest in
    let (moved, next_offsets) =
      advance_checkpoints locked (advance_checkpoint checkpoints key advanced) rest in
    if ltb (checkpoint_of locked key) advanced
    then (moved, (key, advanced) ∷ next_offsets)
    else same

abbrev pub nothing_sorted : Sorting
nothing_sorted = record {
  accepted = [];
  handled_by_partition = [];
  filtered_stale_count = 0;
  duplicate_count = 0;
  quarantined = [];
}

-- The transaction of `persist_batch`.
unfoldable pub persist_rows :
    HistorianTables
    → List RawInsertRow
    → List MetricInsertRow
    → HistorianTables × BatchPersistResult
unfolding ensure_all sort_rows raw_batch_insert distinct_ids id_in bump_late advance_checkpoints
persist_rows db rows metric_rows =
    let locked = ensure_all db.checkpoints (map (λ r. r.partition_key) rows) in
    let s = sort_rows locked db.raw nothing_sorted rows in
    let (table, returned) = raw_batch_insert db.raw s.accepted in
    let (checkpoints, next_offsets) = advance_checkpoints locked locked s.handled_by_partition in
    (
      record {
        raw = table;
        metrics = db.metrics ++ filter (λ m. id_in m.event_id returned) metric_rows;
        checkpoints = checkpoints;
        pending_generation = bump_late db.pending_generation returned;
      },
      record {
        inserted_count = distinct_ids returned;
        duplicate_count = s.duplicate_count + (length s.accepted - length returned);
        filtered_stale_count = s.filtered_stale_count;
        quarantined_conflicts = s.quarantined;
        next_offsets = next_offsets;
      },
    )

unfoldable pub persist_batch :
    BatchLimits
    → HistorianTables
    → List RawInsertRow
    → Result PersistError (HistorianTables × BatchPersistResult)
unfolding sorted row_leb all_metric_rows persist_rows
persist_batch limits db events =
    let rows = sorted row_leb events in
    elim (all_metric_rows limits rows) [
      | err e ↦ err e
      | ok metric_rows ↦ ok (persist_rows db rows metric_rows)
    ]
