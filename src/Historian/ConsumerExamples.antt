-- ===== src/Historian/ConsumerExamples.antt =====
-- Tests of the historian's consumer by evaluation, and its theorem at a concrete run.
use manufacturing_uns.Prelude.{[], ◌∷◌, none, refl, ℕ, List, ◌≡◌, true, false, map, inl, some, ◌≤◌}
use manufacturing_uns.Prelude.Result.{ok, err}
use manufacturing_uns.Datalake.Batch.{PartitionKey}
use manufacturing_uns.Historian.Batch.{BatchLimits, ConsumedEvent, Envelope}
use manufacturing_uns.Historian.Rows.{HistorianTables, BatchPersistResult, raw_row_from_event}
use manufacturing_uns.Historian.Persist.{persist_batch, checkpoint_of}
use manufacturing_uns.Historian.Consumer.{
  HistorianKafkaMapper, KafkaMessage, Decoded, try_buffer_message, maybe_flush, assign_partitions,
  legacy, invalid, record_sql_success, commit_kafka, new_historian_mapper,
}
use manufacturing_uns.Historian.Consumer.Behind.{
  HistorianConsumer, new_consumer, acknowledged, Reach, start, next, Reach-committed_le, assigns,
  buffers, flushes, writes, acknowledges,
}

abbrev limits : BatchLimits
limits = record { max_events = 1; max_bytes = 10; max_age = 3; max_metric_rows = 20 }

abbrev key : PartitionKey
key = record { topic = "uns.historic-events"; partition = 0 }

abbrev message : ℕ → Decoded → KafkaMessage
message offset decoded = record {
  topic = "uns.historic-events";
  partition = 0;
  offset = offset;
  payload = 1 ∷ [];
  decoded = decoded;
}

abbrev envelope : Envelope
envelope = record {
  time = 7;
  event_id = 4 ∷ [];
  content_hash = [];
  is_telemetry = true;
  is_historical = false;
  payload_metrics = [];
}

abbrev tables : HistorianTables
tables = record { raw = []; metrics = []; checkpoints = λ k. none; pending_generation = λ d. 0 }

abbrev assigned : HistorianConsumer
assigned =
    let fresh = new_consumer limits tables in
    record fresh { mapper = assign_partitions fresh.mapper (key ∷ []) }

abbrev buffered : HistorianConsumer
buffered = record assigned {
  mapper = (try_buffer_message assigned.mapper (message 0 (legacy envelope)) 1).0;
}

abbrev taken : HistorianKafkaMapper × List ConsumedEvent
taken =
    unfold maybe_flush try_buffer_message assign_partitions new_historian_mapper in
    elim (maybe_flush false buffered.mapper 1) [ none ↦ (buffered.mapper, []) | some t ↦ t ]

abbrev flushing : HistorianConsumer
flushing = record buffered { mapper = taken.0; writing = taken.1 }

abbrev outcome : HistorianTables × BatchPersistResult
outcome =
    unfold persist_batch maybe_flush try_buffer_message assign_partitions raw_row_from_event
      new_historian_mapper in
    elim (persist_batch limits flushing.tables (map raw_row_from_event flushing.writing)) [
      | ok r ↦ r
      | err e ↦ (tables, nothing)
    ]
  where
    nothing : BatchPersistResult
    nothing = record {
      inserted_count = 0;
      duplicate_count = 0;
      filtered_stale_count = 0;
      quarantined_conflicts = [];
      next_offsets = [];
    }

abbrev written : HistorianConsumer
written = record flushing { tables = outcome.0; results = outcome.1 ∷ flushing.results }

flushed : maybe_flush false buffered.mapper 1 ≡ some (taken.0, taken.1)
unfolding maybe_flush try_buffer_message assign_partitions new_historian_mapper
flushed = refl

persisted :
    persist_batch limits flushing.tables (map raw_row_from_event flushing.writing)
    ≡ ok (outcome.0, outcome.1)
unfolding persist_batch maybe_flush try_buffer_message assign_partitions raw_row_from_event
    new_historian_mapper
persisted = refl

one_event : Reach (new_consumer limits tables) (acknowledged written outcome.1 true)
one_event =
    next
      (next
        (next
          (next (next start (assigns (new_consumer limits tables) (key ∷ [])))
            (buffers assigned (message 0 (legacy envelope)) 1))
          (flushes buffered false 1 taken.0 taken.1 flushed))
        (writes flushing limits outcome.0 outcome.1 persisted))
      (acknowledges written outcome.1 true (inl refl))

Reach-committed_le_example :
    checkpoint_of (acknowledged written outcome.1 true).committed key
    ≤ checkpoint_of (acknowledged written outcome.1 true).tables.checkpoints key
Reach-committed_le_example = Reach-committed_le limits tables one_event key

-- Another process writes the same batch and commits it, between the two reads of this one.
abbrev overtaken : HistorianConsumer
overtaken =
    let wrote : HistorianConsumer = record flushing {
      tables = outcome.0;
      results = outcome.1 ∷ flushing.results;
    } in
    record wrote { committed = commit_kafka wrote.committed outcome.1.next_offsets }

committed-1 : (acknowledged written outcome.1 true).committed key ≡ some 1
unfolding persist_batch maybe_flush try_buffer_message assign_partitions raw_row_from_event
    new_historian_mapper record_sql_success commit_kafka
committed-1 = refl

-- A payload that cannot be decoded is neither buffered nor ignored.
invalid-left :
    try_buffer_message buffered.mapper (message 1 invalid) 1
    ≡ (buffered.mapper, record { consumed = none; ignored = none; needs_flush = false })
unfolding try_buffer_message
invalid-left = refl
