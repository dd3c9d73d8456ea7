-- ===== src/Datalake/MapperExamples.antt =====
-- Tests and examples for the loop of the datalake mapper.
use manufacturing_uns.Datalake.Freeze.Groups.{OfRoute, freeze-total}
use manufacturing_uns.Datalake.Mapper.Flushes.{flush_ready_total}
use manufacturing_uns.Datalake.Freeze.Groups.{total}
use manufacturing_uns.Datalake.Replay.{choose_start, require_committed}
use manufacturing_uns.Datalake.Freeze.{freeze_partition_records}
use manufacturing_uns.Datalake.Mapper.Runs.{Run, polls, Run-Safe, assigns, constructed, Run-kept}
use manufacturing_uns.Datalake.Batch.Valid.{IsValid}
use manufacturing_uns.Datalake.Mapper.Ledger.{Safe, was_received, was_handled}
use manufacturing_uns.Datalake.Mapper.Run.{on_assign, run_once, new_mapper}
use manufacturing_uns.Prelude.{
  [], ◌∷◌, true, ℕ, Bool, ◌≡◌, refl, some, length, ◌⊎◌, ◌+◌, filter, All, ◌==◌,
}
use manufacturing_uns.Prelude.Result.{ok, err, Result}
use manufacturing_uns.Datalake.Batch.{
  PartitionKey, LakeRoute, BatchManager, FlushLimits, LakeRecord,
}
use manufacturing_uns.Datalake.Mapper.{
  unknown_offset, DatalakeMapper, World, stored, received, uploaded, committed, eligible,
  undecodable, assigned, MapperError,
}
use manufacturing_uns.Datalake.Mapper.Loop.{message, nothing, Poll, flush_loop}
use manufacturing_uns.Prelude.Sort.{sorted}
use manufacturing_uns.Datalake.Prefix.{new_prefix, member}

abbrev topic_key : PartitionKey
topic_key = record { topic = "uns.historic.events"; partition = 0 }

abbrev order_route : LakeRoute
order_route = record {
  application = "mes";
  site = "site_a";
  schema = "order";
  version = "1";
  ingestion_date = 0;
}

abbrev limits : FlushLimits
limits = record {
  interval_seconds = 60;
  max_bytes = 10;
  max_records = 4;
  max_record_bytes = 10;
  worker_max_buffered_bytes = 100;
  max_active_route_groups = 4;
  max_encoded_bytes = 1000;
}

abbrev manager : BatchManager
manager = record { limits = limits; buffers = []; pending_record_bytes = 0 }

abbrev willing : World
willing = record {
  dlq_ok = λ n. true;
  commit_ok = λ n. true;
  store = λ n. stored;
  upload_max_attempts = 3;
}

-- Of ten bytes, so that its partition is due at once.
abbrev event : ℕ → Poll
event offset = message (record {
  partition_key = topic_key;
  offset = offset;
  payload = 1 ∷ 2 ∷ 3 ∷ 4 ∷ 5 ∷ 6 ∷ 7 ∷ 8 ∷ 9 ∷ 10 ∷ [];
  content = eligible order_route;
})

abbrev record_at : ℕ → LakeRecord
record_at offset = record {
  partition_key = topic_key;
  offset = offset;
  route = order_route;
  envelope_bytes = 1 ∷ 2 ∷ 3 ∷ 4 ∷ 5 ∷ 6 ∷ 7 ∷ 8 ∷ 9 ∷ 10 ∷ [];
}

abbrev owner : DatalakeMapper
unfolding on_assign new_mapper
owner = on_assign (new_mapper manager) (topic_key ∷ [])

-- The mapper after one call.
abbrev after_call : Result MapperError (DatalakeMapper × Bool) → DatalakeMapper
after_call (ok (m, going)) = m
after_call (err e) = owner

abbrev frozen : DatalakeMapper
unfolding run_once on_assign new_mapper
frozen = after_call (run_once willing owner (event 7) 5)

abbrev archived_once : DatalakeMapper
unfolding run_once on_assign new_mapper
archived_once = after_call (run_once willing frozen nothing 6)

archived_log :
    archived_once.log
    ≡ committed topic_key 8 true
      ∷ uploaded topic_key (record { route = order_route; records = record_at 7 ∷ [] }) stored
      ∷ received topic_key 7 (eligible order_route)
      ∷ assigned
      ∷ []
unfolding run_once on_assign new_mapper new_prefix sorted
archived_log = refl

archived_run : Run manager archived_once
unfolding run_once on_assign new_mapper new_prefix sorted
archived_run =
    polls {m = frozen} {going = true} willing nothing 6
      (polls {m = owner} {going = true} willing (event 7) 5 (assigns (topic_key ∷ []) constructed)
        refl)
      refl

Run-Safe_example : Safe archived_once.log
Run-Safe_example = Run-Safe archived_run

Run-kept_example :
    (was_handled topic_key 7 archived_once.log ≡ true)
    ⊎ (member 7 (archived_once.consumed_prefixes topic_key).observed ≡ true)
unfolding run_once on_assign new_mapper new_prefix sorted was_received
Run-kept_example = Run-kept topic_key 7 archived_run refl

-- Of two bytes, so that it waits in the buffer.
abbrev small_event : ℕ → Poll
small_event offset = message (record {
  partition_key = topic_key;
  offset = offset;
  payload = 1 ∷ 2 ∷ [];
  content = eligible order_route;
})

abbrev waiting : DatalakeMapper
unfolding run_once on_assign new_mapper
waiting = after_call (run_once willing owner (small_event 6) 5)

-- A full event after it forces a flush, and is then due itself: the second frozen flush takes the
-- place of the first.
abbrev overwritten : DatalakeMapper
unfolding run_once on_assign new_mapper
overwritten = after_call (run_once willing waiting (event 7) 6)

abbrev stalled : DatalakeMapper
unfolding run_once on_assign new_mapper
stalled = after_call (run_once willing overwritten nothing 7)

first_record_lost : overwritten.batch.buffers ≡ []
unfolding run_once on_assign new_mapper new_prefix sorted
first_record_lost = refl

only_second_archived :
    stalled.log
    ≡ uploaded topic_key (record { route = order_route; records = record_at 7 ∷ [] }) stored
      ∷ received topic_key 7 (eligible order_route)
      ∷ received topic_key 6 (eligible order_route)
      ∷ assigned
      ∷ []
unfolding run_once on_assign new_mapper new_prefix sorted
only_second_archived = refl

-- From then on the mapper stays as it is and reports success.
stays_stalled : run_once willing stalled (event 8) 8 ≡ ok (stalled, true)
unfolding run_once on_assign new_mapper new_prefix sorted
stays_stalled = refl

start_at_5 : choose_start (some 5) 2 9 require_committed ≡ ok 5
unfolding choose_start
start_at_5 = refl

manager-IsValid : IsValid manager
manager-IsValid = record { buffers = tt }

flush_ready_total_example :
    (m' : DatalakeMapper) × (flush_loop (length owner.batch.buffers + 2) owner (some topic_key) 5
      ≡ some m')
unfolding on_assign new_mapper
flush_ready_total_example = flush_ready_total owner (some topic_key) 5 manager-IsValid

abbrev one_record : LakeRecord
one_record = record {
  partition_key = topic_key;
  offset = 3;
  route = order_route;
  envelope_bytes = [];
}

freeze-total_example :
    ((p : LakeRecord → Bool)
      → total p (freeze_partition_records topic_key (one_record ∷ [])).route_groups
        ≡ length (filter p (one_record ∷ [])))
    × All OfRoute (freeze_partition_records topic_key (one_record ∷ [])).route_groups
freeze-total_example = freeze-total topic_key (one_record ∷ [])

-- Every commit but the eighth call fails.
abbrev failing_commits : World
failing_commits = record willing { commit_ok = λ n. n == 7 }

abbrev bad_event : ℕ → Poll
bad_event offset =
    message
      (record { partition_key = topic_key; offset = offset; payload = []; content = undecodable })

abbrev one_rejection : DatalakeMapper
unfolding run_once on_assign new_mapper
one_rejection = after_call (run_once failing_commits owner (bad_event 5) 5)

abbrev two_rejections : DatalakeMapper
unfolding run_once on_assign new_mapper
two_rejections = after_call (run_once failing_commits one_rejection (bad_event 6) 6)

-- The rejection whose commit failed is published again, and then its offset is no longer known.
rejection_raises : run_once failing_commits two_rejections nothing 7 ≡ err unknown_offset
unfolding run_once on_assign new_mapper new_prefix sorted
rejection_raises = refl
