-- ===== src/Datalake/Mapper/Loop.antt =====
-- The flush and the loop of DatalakeMapper, mapper.py: from `_flush_ready_partitions` to `run_once`,
-- `on_assign` and `on_revoke`. A message comes with what `decode_event`, `resolve_lake_event` and
-- `is_archive_eligible` make of it; only eligible records are buffered, so the test of
-- `_freeze_partition` always holds.
use manufacturing_uns.Datalake.Mapper.{
  integrity_error, put_failed, stored, DatalakeMapper, may_commit, World, resolve_offset,
  discard_offset, MapperError, try_advance_rejections, Content, ask_upload, ask_commit,
  no_frozen_flush, ownership_lost,
}
use manufacturing_uns.Prelude.{
  [], ◌∷◌, none, some, ℕ, List, Option, suc, if◌then◌else◌, zero, Bool, true, ◌+◌, not, ◌==◌, ◌||◌,
  get_elem?, false, ltb, leb, length,
}
use manufacturing_uns.Prelude.Result.{Result, ok, err}
use manufacturing_uns.Datalake.Batch.{
  PartitionKey, LakeRecord, BatchManager, pop_partition, buffer_is_empty,
}
use manufacturing_uns.Datalake.Flush.{choose_flush_partition}
use manufacturing_uns.Datalake.Prefix.{next_offset}
use manufacturing_uns.Datalake.Freeze.{
  FrozenPartitionFlush, FrozenRouteGroup, freeze_partition_records,
}

pub record Message : Type 0 where
  pub partition_key : PartitionKey
  pub offset : ℕ
  pub payload : List ℕ
  pub content : Content

pub data Poll : Type 0 where
  nothing : Poll
  partition_eof : Poll
  out_of_range : Poll
  consumer_error : Poll
  message : Message → Poll

unfoldable pub freeze_partition : DatalakeMapper → PartitionKey → List LakeRecord → DatalakeMapper
unfolding freeze_partition_records next_offset
freeze_partition m key records =
    let flush = freeze_partition_records key records in
    record m {
      frozen_flush = some flush;
      frozen_generation = m.generation;
      group_index = 0;
      frozen_object = none;
      pending_commit_offset = elim flush.route_groups [
        | [] ↦ next_offset (m.consumed_prefixes key)
        | g ∷ rest ↦ none
      ];
      upload_attempts = 0;
      commit_attempts = 0;
    }

-- The partition of one round: the forced one, or the one that is due.
unfoldable pub next_key : BatchManager → Option PartitionKey → ℕ → Option PartitionKey
unfolding choose_flush_partition
next_key batch (some key) now = some key
next_key batch none now = choose_flush_partition batch now

-- The `while True` of `_flush_ready_partitions`; none where the fuel runs out.
unfoldable pub flush_loop : ℕ → DatalakeMapper → Option PartitionKey → ℕ → Option DatalakeMapper
unfolding next_key pop_partition buffer_is_empty freeze_partition
flush_loop zero m forced now = none
flush_loop (suc fuel) m forced now = elim (next_key m.batch forced now) [
  | none ↦ some m
  | some key ↦
      let (batch, buffer) = pop_partition m.batch key in
      let again = flush_loop fuel (record m { batch = batch }) none now in
      if buffer_is_empty buffer
      then again
      else some (freeze_partition (record m { batch = batch }) key buffer.records)
]

unfoldable pub flush_ready_partitions : DatalakeMapper → Option PartitionKey → ℕ → DatalakeMapper
unfolding flush_loop
flush_ready_partitions m forced now = elim (flush_loop (length m.batch.buffers + 2) m forced now) [
  | none ↦ m
  | some m' ↦ m'
]

unfoldable pub complete_commit :
    World → DatalakeMapper → PartitionKey → ℕ → Result MapperError (DatalakeMapper × Bool)
unfolding may_commit ask_commit discard_offset try_advance_rejections
complete_commit w m key next =
    let called = ask_commit w m key next in
    if not (may_commit m)
    then err ownership_lost
    else if not (m.frozen_generation == m.generation)
    then err ownership_lost
    else if not (w.commit_ok m.calls)
    then ok (record called { commit_attempts = m.commit_attempts + 1 }, true)
    else elim (discard_offset called key next) [
      | err e ↦ err e
      | ok m' ↦ try_advance_rejections w (record m' {
        frozen_flush = none;
        group_index = 0;
        frozen_object = none;
        pending_commit_offset = none;
        upload_attempts = 0;
        commit_attempts = 0;
      })
    ]

-- The commit once every group is stored.
unfoldable pub finish_flush :
    World → DatalakeMapper → PartitionKey → Result MapperError (DatalakeMapper × Bool)
unfolding next_offset complete_commit
finish_flush w m key = elim (next_offset (m.consumed_prefixes key)) [
  | none ↦ ok (m, true)
  | some next ↦ complete_commit w (record m { pending_commit_offset = some next }) key next
]

-- The loop over the records of a group that was stored.
unfoldable pub resolve_records :
    DatalakeMapper → PartitionKey → List LakeRecord → Result MapperError DatalakeMapper
unfolding resolve_offset
resolve_records m key [] = ok m
resolve_records m key (r ∷ records) = elim (resolve_offset m key r.offset) [
  | err e ↦ err e
  | ok m' ↦ resolve_records m' key records
]

-- `_advance_frozen_flush` after a group is stored.
unfoldable pub group_stored :
    World
    → DatalakeMapper
    → FrozenPartitionFlush
    → FrozenRouteGroup
    → Result MapperError (DatalakeMapper × Bool)
unfolding resolve_records finish_flush
group_stored w m flush group = elim (resolve_records m flush.partition_key group.records) [
  | err e ↦ err e
  | ok m' ↦
      let advanced = record m' {
        frozen_object = none;
        upload_attempts = 0;
        group_index = m.group_index + 1;
      } in
      if leb (length flush.route_groups) (m.group_index + 1)
      then finish_flush w advanced flush.partition_key
      else ok (advanced, true)
]

unfoldable pub publish_group :
    World
    → DatalakeMapper
    → FrozenPartitionFlush
    → FrozenRouteGroup
    → Result MapperError (DatalakeMapper × Bool)
unfolding ask_upload group_stored
publish_group w m flush group =
    let object : FrozenRouteGroup = elim m.frozen_object [ none ↦ group | some object ↦ object ] in
    let encoded =
      ask_upload w (record m { frozen_object = some object }) flush.partition_key object in
    elim (w.store m.calls) [
      | integrity_error ↦ ok (encoded, false)
      | put_failed ↦ ok (
        record encoded { upload_attempts = m.upload_attempts + 1 },
        ltb (m.upload_attempts + 1) w.upload_max_attempts,
      )
      | stored ↦ group_stored w encoded flush group
    ]

unfoldable pub advance_frozen_flush :
    World → DatalakeMapper → Result MapperError (DatalakeMapper × Bool)
unfolding complete_commit finish_flush publish_group
advance_frozen_flush w m = elim m.frozen_flush [
  | none ↦ err no_frozen_flush
  | some flush ↦
      if not (m.frozen_generation == m.generation) || m.revoked
      then err ownership_lost
      else elim m.pending_commit_offset [
        | some next ↦ complete_commit w m flush.partition_key next
        | none ↦ elim (get_elem? flush.route_groups m.group_index) [
          | none ↦ finish_flush w m flush.partition_key
          | some group ↦ publish_group w m flush group
        ]
      ]
]
