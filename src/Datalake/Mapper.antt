-- ===== src/Datalake/Mapper.antt =====
-- DatalakeMapper of 14_uns_datalake/src/uns_datalake/mapper.py, with may_commit_kafka of checkpoint.py.
-- What Kafka, the object store and the dead-letter topic answer is the World, asked by the number of
-- the call. `log`, newest first, is what was asked of them and what they answered, entered where they
-- are called, and the messages that came. An exception ends the process, so it has no
-- state. The dict of prefixes is a function, with the prefix that `_prefix` makes where there is none.
-- A TopicPartition is its key; pausing, metrics and health do not decide anything here.
pub mod Loop
pub mod Run
pub mod Ledger
pub mod Safe
pub mod Commits
pub mod Sound
pub mod History
pub mod Runs
pub mod Flushes
use manufacturing_uns.Prelude.Dict.{get}
use manufacturing_uns.Prelude.{
  [], ◌∷◌, none, some, ℕ, List, if◌then◌else◌, Bool, Option, ◌&&◌, ◌+◌, true, not, false, any, ltb,
}
use manufacturing_uns.Prelude.Result.{Result, ok, err}
use manufacturing_uns.Datalake.Batch.{PartitionKey, LakeRoute, LakeRecord, BatchManager, key_eq}
use manufacturing_uns.Datalake.Prefix.{
  ConsumedPrefix, new_prefix, next_offset, resolve, has_unresolved_before, discard_committed,
}
use manufacturing_uns.Datalake.Freeze.{FrozenPartitionFlush, FrozenRouteGroup}

-- What `publish_exact` and `verify_exact` end with.
pub data Stored : Type 0 where
  stored : Stored
  integrity_error : Stored
  put_failed : Stored

-- What `decode_event`, `resolve_lake_event` and `is_archive_eligible` make of a message.
pub data Content : Type 0 where
  undecodable : Content
  unroutable : Content
  ineligible : Content
  eligible : LakeRoute → Content

-- An assignment, a message that was polled, and the calls with their answers: the upload of an object
-- made of a group, the publication of a rejection, and a commit.
pub data Event : Type 0 where
  assigned : Event
  received : PartitionKey → ℕ → Content → Event
  uploaded : PartitionKey → FrozenRouteGroup → Stored → Event
  dead_lettered : PartitionKey → ℕ → Bool → Event
  committed : PartitionKey → ℕ → Bool → Event

pub record World : Type 0 where
  pub dlq_ok : ℕ → Bool
  pub commit_ok : ℕ → Bool
  pub store : ℕ → Stored
  pub upload_max_attempts : ℕ

pub data MapperError : Type 0 where
  out_of_order : MapperError
  unknown_offset : MapperError
  not_positive : MapperError
  record_too_large : MapperError
  ownership_lost : MapperError
  no_frozen_flush : MapperError

pub record PendingRejection : Type 0 where
  pub partition_key : PartitionKey
  pub offset : ℕ

-- `frozen_object` is the group that it encodes.
pub record DatalakeMapper : Type 0 where
  pub batch : BatchManager
  pub owned_partitions : List PartitionKey
  pub revoked : Bool
  pub ownership_active : Bool
  pub generation : ℕ
  pub consumed_prefixes : PartitionKey → ConsumedPrefix
  pub frozen_flush : Option FrozenPartitionFlush
  pub frozen_generation : ℕ
  pub group_index : ℕ
  pub frozen_object : Option FrozenRouteGroup
  pub pending_commit_offset : Option ℕ
  pub pending_rejections : List PendingRejection
  pub upload_attempts : ℕ
  pub commit_attempts : ℕ
  pub calls : ℕ
  pub log : List Event

unfoldable pub set_prefix :
    (PartitionKey → ConsumedPrefix) → PartitionKey → ConsumedPrefix → PartitionKey → ConsumedPrefix
unfolding key_eq
set_prefix prefixes key p k = if key_eq key k then p else prefixes k

unfoldable pub may_commit : DatalakeMapper → Bool
may_commit m = m.ownership_active && not m.revoked

-- The three calls to the outside, each entered in the log with the answer of the world.
unfoldable pub ask_upload :
    World → DatalakeMapper → PartitionKey → FrozenRouteGroup → DatalakeMapper
ask_upload w m key object = record m {
  calls = m.calls + 1;
  log = uploaded key object (w.store m.calls) ∷ m.log;
}

unfoldable pub ask_dead_letter : World → DatalakeMapper → PartitionKey → ℕ → DatalakeMapper
ask_dead_letter w m key offset = record m {
  calls = m.calls + 1;
  log = dead_lettered key offset (w.dlq_ok m.calls) ∷ m.log;
}

unfoldable pub ask_commit : World → DatalakeMapper → PartitionKey → ℕ → DatalakeMapper
ask_commit w m key next = record m {
  calls = m.calls + 1;
  log = committed key next (w.commit_ok m.calls) ∷ m.log;
}

-- `prefix.resolve(offset)`.
unfoldable pub resolve_offset :
    DatalakeMapper → PartitionKey → ℕ → Result MapperError DatalakeMapper
unfolding resolve set_prefix
resolve_offset m key offset = elim (resolve (m.consumed_prefixes key) offset) [
  | err e ↦ err unknown_offset
  | ok p ↦ ok (record m { consumed_prefixes = set_prefix m.consumed_prefixes key p })
]

-- The prefix after a commit that succeeded.
unfoldable pub discard_offset :
    DatalakeMapper → PartitionKey → ℕ → Result MapperError DatalakeMapper
unfolding discard_committed set_prefix
discard_offset m key next = elim (discard_committed (m.consumed_prefixes key) next) [
  | err e ↦ err not_positive
  | ok p ↦ ok (record m { consumed_prefixes = set_prefix m.consumed_prefixes key p })
]

unfoldable pub commit_partition :
    World → DatalakeMapper → PartitionKey → ℕ → Result MapperError (DatalakeMapper × Bool)
unfolding may_commit ask_commit discard_offset
commit_partition w m key next =
    let called = ask_commit w m key next in
    if not (may_commit m)
    then ok (m, false)
    else if not (w.commit_ok m.calls)
    then ok (called, false)
    else elim (discard_offset called key next) [ err e ↦ err e | ok m' ↦ ok (m', true) ]

unfoldable pub try_commit_ready_prefix :
    World → DatalakeMapper → PartitionKey → Result MapperError (DatalakeMapper × Bool)
unfolding next_offset may_commit commit_partition
try_commit_ready_prefix w m key = elim m.frozen_flush [
  | some flush ↦ ok (m, true)
  | none ↦ elim (next_offset (m.consumed_prefixes key)) [
    | none ↦ ok (m, true)
    | some next ↦ if not (may_commit m) then ok (m, false) else commit_partition w m key next
  ]
]

unfoldable pub rejection_blocked : DatalakeMapper → PendingRejection → Bool
unfolding has_unresolved_before key_eq
rejection_blocked m r =
    if has_unresolved_before (m.consumed_prefixes r.partition_key) r.offset
    then true
    else elim (get key_eq r.partition_key m.batch.buffers) [
      | none ↦ false
      | some buffer ↦ any (λ record'. ltb record'.offset r.offset) buffer.records
    ]

-- One round of the loop of `_try_advance_rejections`, and whether the rejection remains.
unfoldable pub advance_rejection :
    World → DatalakeMapper → PendingRejection → Result MapperError (DatalakeMapper × Bool)
unfolding rejection_blocked ask_dead_letter resolve_offset try_commit_ready_prefix
advance_rejection w m r =
    let called = ask_dead_letter w m r.partition_key r.offset in
    if rejection_blocked m r
    then ok (m, true)
    else if not (w.dlq_ok m.calls)
    then ok (called, true)
    else elim (resolve_offset called r.partition_key r.offset) [
      | err e ↦ err e
      | ok m' ↦ elim (try_commit_ready_prefix w m' r.partition_key) [
        | err e ↦ err e
        | ok (m'', done) ↦ ok (m'', not done)
      ]
    ]

unfoldable pub advance_all :
    World
    → DatalakeMapper
    → List PendingRejection
    → Result MapperError (DatalakeMapper × List PendingRejection)
unfolding advance_rejection
advance_all w m [] = ok (m, [])
advance_all w m (r ∷ rest) = elim (advance_rejection w m r) [
  | err e ↦ err e
  | ok (m', remains) ↦ elim (advance_all w m' rest) [
    | err e ↦ err e
    | ok (m'', remaining) ↦ ok (m'', if remains then r ∷ remaining else remaining)
  ]
]

unfoldable pub try_advance_rejections :
    World → DatalakeMapper → Result MapperError (DatalakeMapper × Bool)
unfolding advance_all
try_advance_rejections w m = elim (advance_all w m m.pending_rejections) [
  | err e ↦ err e
  | ok (m', remaining) ↦ ok (record m' { pending_rejections = remaining }, true)
]
