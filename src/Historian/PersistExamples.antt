-- ===== src/Historian/PersistExamples.antt =====
-- Tests of the historian's transactions by evaluation, and its theorems at concrete inputs.
use manufacturing_uns.Datalake.Batch.{PartitionKey}
use manufacturing_uns.Prelude.{[], ◌∷◌, none, refl, ℕ, List, ◌≡◌, true, arith, length}
use manufacturing_uns.Prelude.Result.{ok, err}
use manufacturing_uns.Historian.Batch.{BatchLimits}
use manufacturing_uns.Historian.Rows.{RawInsertRow, HistorianTables, BatchPersistResult}
use manufacturing_uns.Historian.Persist.{persist_batch, checkpoint_of}
use manufacturing_uns.Historian.Persist.Stored.{persist_batch-InTable, InTable}
use manufacturing_uns.Historian.Persist.Again.{persist_batch-again}

abbrev limits : BatchLimits
limits = record { max_events = 2; max_bytes = 10; max_age = 3; max_metric_rows = 20 }

abbrev key : PartitionKey
key = record { topic = "uns.historic-events"; partition = 0 }

abbrev event : ℕ → ℕ → RawInsertRow
event offset id = record {
  partition_key = key;
  offset = offset;
  time = 7;
  event_id = id ∷ [];
  content_hash = [];
  is_telemetry = true;
  is_historical = true;
  payload_metrics = record { metric_name = 65 ∷ []; value = 49 ∷ [] } ∷ [];
}

abbrev empty_database : HistorianTables
empty_database = record {
  raw = [];
  metrics = [];
  checkpoints = λ k. none;
  pending_generation = λ d. 0;
}

-- The database after a batch, and what was reported.
abbrev batch_on : HistorianTables → List RawInsertRow → HistorianTables × BatchPersistResult
batch_on db events =
    unfold persist_batch in
    elim (persist_batch limits db events) [ ok r ↦ r | err e ↦ (db, nothing) ]
  where
    nothing : BatchPersistResult
    nothing = record {
      inserted_count = 0;
      duplicate_count = 0;
      filtered_stale_count = 0;
      quarantined_conflicts = [];
      next_offsets = [];
    }

abbrev two_events : List RawInsertRow
two_events = event 1 5 ∷ event 0 4 ∷ []

written : persist_batch limits empty_database two_events ≡ ok (batch_on empty_database two_events)
unfolding persist_batch
written = refl

next_offset-2 : (batch_on empty_database two_events).1.next_offsets ≡ (key, 2) ∷ []
unfolding persist_batch
next_offset-2 = refl

written_again :
    persist_batch limits (batch_on empty_database two_events).0 two_events
    ≡ ok (batch_on (batch_on empty_database two_events).0 two_events)
unfolding persist_batch
written_again = refl

-- One event twice in a batch: one raw row, and its metric twice.
twice-raw : length (batch_on empty_database (event 0 4 ∷ event 1 4 ∷ [])).0.raw ≡ 1
unfolding persist_batch
twice-raw = refl

twice-metrics : length (batch_on empty_database (event 0 4 ∷ event 1 4 ∷ [])).0.metrics ≡ 2
unfolding persist_batch
twice-metrics = refl

persist_batch-InTable_example : InTable two_events (batch_on empty_database two_events).0.raw key 1
unfolding checkpoint_of
persist_batch-InTable_example =
    persist_batch-InTable limits empty_database (batch_on empty_database two_events).0 two_events
      (batch_on empty_database two_events).1 written key 1 (omega arith)
      (unfold persist_batch in omega arith)

persist_batch-again_example :
    ((batch_on (batch_on empty_database two_events).0 two_events).1.inserted_count ≡ 0)
    × ((batch_on (batch_on empty_database two_events).0 two_events).0.raw
        ≡ (batch_on empty_database two_events).0.raw)
    × ((batch_on (batch_on empty_database two_events).0 two_events).0.metrics
        ≡ (batch_on empty_database two_events).0.metrics)
persist_batch-again_example =
    persist_batch-again limits empty_database (batch_on empty_database two_events).0
      (batch_on (batch_on empty_database two_events).0 two_events).0 two_events
      (batch_on empty_database two_events).1
      (batch_on (batch_on empty_database two_events).0 two_events).1 written written_again
