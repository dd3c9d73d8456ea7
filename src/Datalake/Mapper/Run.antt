-- ===== src/Datalake/Mapper/Run.antt =====
-- The messages of DatalakeMapper, mapper.py: `_handle_message`, `run_once`, `on_assign`, `on_revoke`.
use manufacturing_uns.Prelude.{
  [], ◌∷◌, none, some, Bool, List, ℕ, false, ◌++◌, true, filter, if◌then◌else◌, ◌+◌, not, ltb, any,
  ◌||◌,
}
use manufacturing_uns.Prelude.Result.{Result, ok, err}
use manufacturing_uns.Datalake.Batch.{
  LakeRecord, key_eq, try_add, total_buffered_bytes, LakeRoute, BatchManager, PartitionKey,
}
use manufacturing_uns.Datalake.Prefix.{new_prefix, observe}
use manufacturing_uns.Datalake.Mapper.{
  DatalakeMapper, set_prefix, try_advance_rejections, resolve_offset, World, MapperError,
  try_commit_ready_prefix, PendingRejection, received, assigned, Content, undecodable, eligible,
  unroutable, ineligible, ownership_lost,
}
use manufacturing_uns.Datalake.Mapper.Loop.{
  Message, flush_ready_partitions, advance_frozen_flush, Poll, message, nothing, partition_eof,
  out_of_range, consumer_error,
}

-- `prefix.observe(offset)`.
unfoldable pub observe_offset :
    DatalakeMapper → PartitionKey → ℕ → Content → Result MapperError DatalakeMapper
unfolding observe set_prefix
observe_offset m key offset content = elim (observe (m.consumed_prefixes key) offset) [
  | err e ↦ err MapperError.out_of_order
  | ok p ↦ ok (record m {
    consumed_prefixes = set_prefix m.consumed_prefixes key p;
    log = received key offset content ∷ m.log;
  })
]

-- The rejection is queued, and the queue advanced.
unfoldable pub reject :
    World → DatalakeMapper → Message → Result MapperError (DatalakeMapper × Bool)
unfolding try_advance_rejections
reject w m msg = try_advance_rejections w (record m {
  pending_rejections =
      m.pending_rejections
      ++ record { partition_key = msg.partition_key; offset = msg.offset } ∷ [];
})

unfoldable pub after_buffering :
    World → DatalakeMapper → ℕ → Result MapperError (DatalakeMapper × Bool)
unfolding flush_ready_partitions try_advance_rejections
after_buffering w m now = try_advance_rejections w (flush_ready_partitions m none now)

unfoldable pub exclude_offset :
    World → DatalakeMapper → Message → Result MapperError (DatalakeMapper × Bool)
unfolding resolve_offset try_commit_ready_prefix
exclude_offset w m msg = elim (resolve_offset m msg.partition_key msg.offset) [
  | err e ↦ err e
  | ok m' ↦ try_commit_ready_prefix w m' msg.partition_key
]

-- The second `try_add`, after a forced flush.
unfoldable pub buffer_again :
    World → DatalakeMapper → LakeRecord → ℕ → Result MapperError (DatalakeMapper × Bool)
unfolding flush_ready_partitions try_add after_buffering
buffer_again w m r now =
    let flushed = flush_ready_partitions m (some r.partition_key) now in
    elim (try_add flushed.batch r now) [
      | err e ↦ err MapperError.record_too_large
      | ok (batch, added) ↦
          if added
          then after_buffering w (record flushed { batch = batch }) now
          else ok (record flushed { batch = batch }, false)
    ]

unfoldable pub buffer_record :
    World → DatalakeMapper → Message → LakeRecord → ℕ → Result MapperError (DatalakeMapper × Bool)
unfolding try_add reject after_buffering buffer_again
buffer_record w m msg r now = elim (try_add m.batch r now) [
  | err e ↦ reject w m msg
  | ok (batch, accepted) ↦
      if accepted
      then after_buffering w (record m { batch = batch }) now
      else buffer_again w (record m { batch = batch }) r now
]

unfoldable pub record_of : Message → LakeRoute → LakeRecord
record_of msg route = record {
  partition_key = msg.partition_key;
  offset = msg.offset;
  route = route;
  envelope_bytes = msg.payload;
}

unfoldable pub handle_message :
    World → DatalakeMapper → Message → ℕ → Result MapperError (DatalakeMapper × Bool)
unfolding observe_offset reject exclude_offset buffer_record record_of
handle_message w m msg now = elim (observe_offset m msg.partition_key msg.offset msg.content) [
  | err e ↦ err e
  | ok m' ↦ elim msg.content [
    | undecodable ↦ reject w m' msg
    | unroutable ↦ reject w m' msg
    | ineligible ↦ exclude_offset w m' msg
    | eligible route ↦ buffer_record w m' msg (record_of msg route) now
  ]
]

unfoldable pub is_frozen : DatalakeMapper → Bool
is_frozen m = elim m.frozen_flush [ none ↦ false | some flush ↦ true ]

-- `run_once` from the poll on.
unfoldable pub take_poll :
    World → DatalakeMapper → Poll → ℕ → Result MapperError (DatalakeMapper × Bool)
unfolding handle_message
take_poll w m nothing now = ok (m, true)
take_poll w m partition_eof now = ok (m, true)
take_poll w m out_of_range now = ok (m, false)
take_poll w m consumer_error now = ok (m, false)
take_poll w m (message msg) now = handle_message w m msg now

unfoldable pub run_once :
    World → DatalakeMapper → Poll → ℕ → Result MapperError (DatalakeMapper × Bool)
unfolding is_frozen advance_frozen_flush flush_ready_partitions try_advance_rejections take_poll
run_once w m poll now =
    if is_frozen m
    then advance_frozen_flush w m
    else elim (try_advance_rejections w (flush_ready_partitions m none now)) [
      | err e ↦ err e
      | ok (m', advanced) ↦
          if not advanced
          then ok (m', false)
          else if is_frozen m'
          then ok (m', true)
          else take_poll w m' poll now
    ]

unfoldable pub on_assign : DatalakeMapper → List PartitionKey → DatalakeMapper
on_assign m partitions = record m {
  generation = m.generation + 1;
  revoked = false;
  ownership_active = true;
  owned_partitions = partitions;
  consumed_prefixes = λ key. new_prefix;
  log = assigned ∷ m.log;
}

unfoldable pub revoke_frozen_work : DatalakeMapper → DatalakeMapper
revoke_frozen_work m = record m {
  frozen_flush = none;
  group_index = 0;
  frozen_object = none;
  pending_commit_offset = none;
  upload_attempts = 0;
  commit_attempts = 0;
}

unfoldable pub still_owned : List PartitionKey → List PartitionKey → List PartitionKey
unfolding key_eq
still_owned partitions owned = filter (λ key. not (any (key_eq key) partitions)) owned

unfoldable pub none_owned : List PartitionKey → Bool
none_owned [] = true
none_owned (key ∷ rest) = false

unfoldable pub none_pending : List PendingRejection → Bool
none_pending [] = true
none_pending (r ∷ rest) = false

-- `on_revoke` before it looks at what is left.
unfoldable pub lose_partitions : DatalakeMapper → List PartitionKey → DatalakeMapper
unfolding revoke_frozen_work still_owned none_owned
lose_partitions m partitions =
    let owned = still_owned partitions m.owned_partitions in
    revoke_frozen_work (record m {
      owned_partitions = owned;
      ownership_active = if none_owned owned then false else m.ownership_active;
      revoked = true;
    })

unfoldable pub uncommitted_state : DatalakeMapper → Bool
unfolding total_buffered_bytes none_pending
uncommitted_state m =
    ltb 0 (total_buffered_bytes m.batch) || not (none_pending m.pending_rejections)

unfoldable pub on_revoke : DatalakeMapper → List PartitionKey → Result MapperError DatalakeMapper
unfolding lose_partitions uncommitted_state
on_revoke m partitions =
    let m' = lose_partitions m partitions in
    if uncommitted_state m' then err ownership_lost else ok m'

unfoldable pub new_mapper : BatchManager → DatalakeMapper
new_mapper batch = record {
  batch = batch;
  owned_partitions = [];
  revoked = false;
  ownership_active = false;
  generation = 0;
  consumed_prefixes = λ key. new_prefix;
  frozen_flush = none;
  frozen_generation = 0;
  group_index = 0;
  frozen_object = none;
  pending_commit_offset = none;
  pending_rejections = [];
  upload_attempts = 0;
  commit_attempts = 0;
  calls = 0;
  log = [];
}
