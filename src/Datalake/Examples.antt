-- ===== src/Datalake/Examples.antt =====
-- Tests of the datalake mapper by evaluation, and its theorems at concrete inputs.
use manufacturing_uns.Datalake.Prefix.Commit.{next_offset-safe}
use manufacturing_uns.Datalake.Prefix.Valid.{IsValid}
use manufacturing_uns.Datalake.Batch.Valid.{IsValid as BatchManagerIsValid}
use manufacturing_uns.Datalake.Batch.Admit.{try_add_fresh, try_add-IsValid}
use manufacturing_uns.Datalake.Flush.Choose.{choose_flush_partition_complete}
use manufacturing_uns.Datalake.Batch.{
  BatchManager, LakeRecord, FlushLimits, PartitionKey, LakeRoute, admitted, try_add,
  total_buffered_bytes, limits_valid,
}
use manufacturing_uns.Datalake.Flush.{choose_flush_partition, should_flush_partition, candidates}
use manufacturing_uns.Prelude.{[], ◌∷◌, none, some, true, false, refl, ◌≡◌, arith, ◌≤◌, ◌⊎◌}
use manufacturing_uns.Prelude.Result.{ok}
use manufacturing_uns.Datalake.Prefix.{
  ConsumedPrefix, new_prefix, observe, resolve, next_offset, member,
}
use manufacturing_uns.Datalake.Prefix.Reach.{
  Reach, start, next, observing, resolving, Reach-next_offset-safe,
}

abbrev ledger : ConsumedPrefix
ledger = record {
  observed = 3 ∷ 4 ∷ 7 ∷ 9 ∷ [];
  observed_set = 9 ∷ 7 ∷ 4 ∷ 3 ∷ [];
  resolved = 4 ∷ 3 ∷ 9 ∷ [];
  committed_floor = none;
}

ledger-next_offset : next_offset ledger ≡ some 5
unfolding next_offset
ledger-next_offset = refl

ledger-IsValid : IsValid ledger
unfolding member
ledger-IsValid = record {
  rises = omega arith;
  same_set = λ o. ground arith;
  known = λ o h. ground arith;
}

next_offset-safe_example : member 4 ledger.resolved ≡ true
next_offset-safe_example =
    next_offset-safe ledger 5 4 ledger-IsValid ledger-next_offset (unfold member in refl)
      (omega arith)

abbrev ledger_after : ConsumedPrefix
ledger_after = record {
  observed = 7 ∷ 9 ∷ [];
  observed_set = 7 ∷ 9 ∷ [];
  resolved = 9 ∷ [];
  committed_floor = some 5;
}

abbrev one_seen : ConsumedPrefix
one_seen = record {
  observed = 2 ∷ [];
  observed_set = 2 ∷ [];
  resolved = [];
  committed_floor = none;
}

abbrev one_resolved : ConsumedPrefix
one_resolved = record one_seen { resolved = 2 ∷ [] }

one_resolved-Reach : Reach new_prefix one_resolved
one_resolved-Reach =
    next
      (next start (observing {p = new_prefix} {q = one_seen} 2 (unfold observe new_prefix in refl)))
      (resolving {p = one_seen} {q = one_resolved} 2 (unfold resolve in refl))

Reach-next_offset-safe_example : member 2 one_resolved.resolved ≡ true
Reach-next_offset-safe_example =
    Reach-next_offset-safe one_resolved 3 2 one_resolved-Reach (unfold next_offset in refl)
      (unfold member in refl) (omega arith)

abbrev limits : FlushLimits
limits = record {
  interval_seconds = 60;
  max_bytes = 10;
  max_records = 3;
  max_record_bytes = 4;
  worker_max_buffered_bytes = 12;
  max_active_route_groups = 2;
  max_encoded_bytes = 100;
}

abbrev key_a : PartitionKey
key_a = record { topic = "a"; partition = 0 }

abbrev key_b : PartitionKey
key_b = record { topic = "b"; partition = 1 }

abbrev route_x : LakeRoute
route_x = record {
  application = "oee";
  site = "x";
  schema = "shift";
  version = "1";
  ingestion_date = 20_000;
}

abbrev record_a : LakeRecord
record_a = record {
  partition_key = key_a;
  offset = 7;
  route = route_x;
  envelope_bytes = 1 ∷ 2 ∷ 3 ∷ [];
}

abbrev record_b : LakeRecord
record_b = record {
  partition_key = key_b;
  offset = 1;
  route = route_x;
  envelope_bytes = 1 ∷ 2 ∷ [];
}

abbrev nothing_buffered : BatchManager
nothing_buffered = record { limits = limits; buffers = []; pending_record_bytes = 0 }

abbrev one_buffered : BatchManager
one_buffered = admitted nothing_buffered record_a 5

nothing_buffered-IsValid : BatchManagerIsValid nothing_buffered
nothing_buffered-IsValid = record { buffers = tt }

added_first : try_add nothing_buffered record_a 5 ≡ ok (one_buffered, true)
added_first =
    try_add_fresh nothing_buffered record_a 5 (unfold limits_valid in refl) refl refl (omega arith)

one_buffered-IsValid : BatchManagerIsValid one_buffered
one_buffered-IsValid =
    try_add-IsValid nothing_buffered one_buffered record_a 5 true nothing_buffered-IsValid
      added_first

abbrev two_buffered : BatchManager
two_buffered = admitted one_buffered record_b 9

try_add-record_b : try_add one_buffered record_b 9 ≡ ok (two_buffered, true)
unfolding try_add admitted
try_add-record_b = refl

try_add-IsValid_example : BatchManagerIsValid two_buffered
try_add-IsValid_example =
    try_add-IsValid one_buffered two_buffered record_b 9 true one_buffered-IsValid try_add-record_b

choose_flush_partition-a : choose_flush_partition two_buffered 66 ≡ some key_a
unfolding choose_flush_partition admitted
choose_flush_partition-a = refl

choose_flush_partition_complete_example :
    ((key : PartitionKey) → should_flush_partition two_buffered key 20 ≡ false)
    × ((total_buffered_bytes two_buffered ≤ two_buffered.limits.worker_max_buffered_bytes)
        ⊎ (candidates two_buffered.buffers ≡ []))
choose_flush_partition_complete_example =
    choose_flush_partition_complete two_buffered 20 (unfold choose_flush_partition admitted in refl)
