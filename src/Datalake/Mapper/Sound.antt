-- ===== src/Datalake/Mapper/Sound.antt =====
-- The flush and the messages of DatalakeMapper, mapper.py, keep its ledger sound.
use manufacturing_uns.Datalake.Mapper.Safe.{
  uploaded-IsCall, logged-IsSound, ask_commit-IsSound, Discarded, discard_offset-Discarded,
  Resolved, resolve_offset-Resolved, key_eq_refl,
}
use manufacturing_uns.Datalake.Mapper.Commits.{
  next_offset-Covered, KeepsFirst, try_advance-Keeps, unfrozen-IsSound,
}
use manufacturing_uns.Datalake.Mapper.Loop.{
  freeze_partition, flush_loop, flush_ready_partitions, complete_commit, resolve_records,
  finish_flush, next_key, publish_group, advance_frozen_flush, group_stored,
}
use manufacturing_uns.Datalake.Mapper.Ledger.{
  was_handled, holds_offset, is_success, IsSound, Covered,
}
use manufacturing_uns.Prelude.{
  [], ◌∷◌, none, some, List, ℕ, Option, ◌≡◌, arith, subst, not, suc, ◌==◌, zero, ◌+◌, ap, ◌||◌,
  refl, get_elem?, leb, length, Bool, ◌∙◌, All, any, sym, true,
}
use manufacturing_uns.Prelude.Result.{Result}
use manufacturing_uns.Prelude.Holds.{
  Holds, Holds-intro, Holds-if, Holds-option, Holds-bind, Holds-mono, HoldsSome, HoldsSome-default,
  HoldsSome-option, HoldsSome-if,
}
use manufacturing_uns.Datalake.Batch.{
  PartitionKey, LakeRecord, pop_partition, buffer_is_empty, BatchManager,
}
use manufacturing_uns.Datalake.Prefix.{next_offset}
use manufacturing_uns.Datalake.Freeze.{FrozenPartitionFlush, FrozenRouteGroup}
use manufacturing_uns.Datalake.Mapper.{
  integrity_error, put_failed, stored, DatalakeMapper, World, may_commit, uploaded, ask_upload,
  ask_commit, resolve_offset, Event, discard_offset, try_advance_rejections, Stored, MapperError,
}

abbrev pub Sound : {A : Type 0} → DatalakeMapper × A → Type 0
Sound r = IsSound r.0

groups-next :
    (groups : List FrozenRouteGroup) (o : Option ℕ) (next : ℕ)
    → (elim groups [ [] ↦ o | g ∷ rest ↦ none ]) ≡ some next
    → o ≡ some next
groups-next [] o next e = e
groups-next (g ∷ rest) o next e = absurd (ground arith)

freeze-IsSound :
    (m : DatalakeMapper) (key : PartitionKey) (records : List LakeRecord)
    → IsSound m
    → IsSound (freeze_partition m key records)
unfolding freeze_partition
freeze-IsSound m key records v = record {
  prefixes = v.prefixes;
  safe = v.safe;
  pending = λ flush next e o.
      let same : key ≡ flush.partition_key = ap partition_of e in
      subst (λ k. Covered (m.consumed_prefixes k) next) same
        (next_offset-Covered m.log key (m.consumed_prefixes key) next (v.prefixes key)
          (groups-next _ _ next o));
  object = λ flush object' group e o g. absurd (ground arith);
}
  where
    partition_of : Option FrozenPartitionFlush → PartitionKey
    partition_of none = key
    partition_of (some flush) = flush.partition_key

-- Nothing but the batch changes.
pub rebatched :
    {m : DatalakeMapper} (batch : BatchManager) → IsSound m → IsSound (record m { batch = batch })
rebatched batch v = record {
  prefixes = v.prefixes;
  safe = v.safe;
  pending = v.pending;
  object = v.object;
}

flush_loop-IsSound :
    (fuel : ℕ) (m : DatalakeMapper) (forced : Option PartitionKey) (now : ℕ)
    → IsSound m
    → HoldsSome IsSound (flush_loop fuel m forced now)
unfolding flush_loop
flush_loop-IsSound zero m forced now v = tt
flush_loop-IsSound (suc fuel) m forced now v =
    HoldsSome-option IsSound (next_key m.batch forced now) _ _ v λ key.
      let popped = rebatched (pop_partition m.batch key).0 v in
      HoldsSome-if IsSound (buffer_is_empty (pop_partition m.batch key).1) _ _
        (flush_loop-IsSound fuel (record m { batch = (pop_partition m.batch key).0 }) none now
          popped)
        (freeze-IsSound (record m { batch = (pop_partition m.batch key).0 }) key
          (pop_partition m.batch key).1.records popped)

pub flush_ready-IsSound :
    (m : DatalakeMapper) (forced : Option PartitionKey) (now : ℕ)
    → IsSound m
    → IsSound (flush_ready_partitions m forced now)
unfolding flush_ready_partitions
flush_ready-IsSound m forced now v =
    HoldsSome-default IsSound (flush_loop (length m.batch.buffers + 2) m forced now) m
      (flush_loop-IsSound (length m.batch.buffers + 2) m forced now v) v

-- Without frozen work.
abbrev thawed : DatalakeMapper → DatalakeMapper
thawed m = record m {
  frozen_flush = none;
  group_index = 0;
  frozen_object = none;
  pending_commit_offset = none;
  upload_attempts = 0;
  commit_attempts = 0;
}

complete_commit-Sound :
    (w : World) (m : DatalakeMapper) (key : PartitionKey) (next : ℕ)
    → Covered (m.consumed_prefixes key) next
    → IsSound m
    → Holds Sound (complete_commit w m key next)
unfolding complete_commit
complete_commit-Sound w m key next c v =
    let called = ask_commit-IsSound w m key next c v in
    Holds-if Sound (not (may_commit m)) _ _ (λ q. tt)
      λ q.
        Holds-if Sound (not (m.frozen_generation == m.generation)) _ _ (λ g. tt)
          λ g.
            Holds-if Sound (not (w.commit_ok m.calls)) _ _
              (λ f. record {
                prefixes = called.prefixes;
                safe = called.safe;
                pending = called.pending;
                object = called.object;
              })
              λ f.
                Holds-bind (Discarded (ask_commit w m key next)) Sound
                  (discard_offset (ask_commit w m key next) key next) _
                  (Holds-intro (Discarded (ask_commit w m key next))
                    (discard_offset (ask_commit w m key next) key next)
                    (λ m' e.
                      discard_offset-Discarded (ask_commit w m key next) m' key next
                        (unfold ask_commit in c) e called))
                  (λ m' d.
                    Holds-mono (KeepsFirst (thawed m')) Sound (try_advance_rejections w (thawed m'))
                      (λ r k. k.sound)
                      (try_advance-Keeps w (thawed m')
                        (unfrozen-IsSound (thawed m') refl d.prefixes d.safe)))

resolve_records-Resolved :
    (m : DatalakeMapper) (key : PartitionKey) (records : List LakeRecord)
    → All (λ r. was_handled key r.offset m.log ≡ true) records
    → IsSound m
    → Holds (Resolved m) (resolve_records m key records)
unfolding resolve_records
resolve_records-Resolved m key [] a v = record {
  sound = v;
  same = record { flush = refl; offset = refl };
  log = refl;
}
resolve_records-Resolved m key (r ∷ records) a v =
    Holds-bind (Resolved m) (Resolved m) _ _
      (Holds-intro (Resolved m) (resolve_offset m key r.offset)
        (λ m' e. resolve_offset-Resolved m m' key r.offset a.0 e v))
      λ m' k.
        Holds-mono (Resolved m') (Resolved m) (resolve_records m' key records)
          (λ m'' k'. record {
            sound = k'.sound;
            same = record {
              flush = k'.same.flush ∙ k.same.flush;
              offset = k'.same.offset ∙ k.same.offset;
            };
            log = k'.log ∙ k.log;
          })
          (resolve_records-Resolved m' key records
            (subst (λ l. All (λ x. was_handled key x.offset l ≡ true) records) (sym k.log) a.1)
            k.sound)

finish_flush-Sound :
    (w : World) (m : DatalakeMapper) (flush : FrozenPartitionFlush)
    → m.frozen_flush ≡ some flush
    → IsSound m
    → Holds Sound (finish_flush w m flush.partition_key)
unfolding finish_flush
finish_flush-Sound w m flush f v =
    Holds-option Sound (next_offset (m.consumed_prefixes flush.partition_key)) _ _ (λ q. v)
      λ next e.
        let c =
          next_offset-Covered m.log flush.partition_key (m.consumed_prefixes flush.partition_key)
            next (v.prefixes flush.partition_key) e in
        complete_commit-Sound w (record m { pending_commit_offset = some next }) flush.partition_key
          next c
          (record {
            prefixes = v.prefixes;
            safe = v.safe;
            object = v.object;
            pending = λ flush' n e' o.
                let same_flush : flush ≡ flush' = cc in
                let same_next : next ≡ n = cc in
                subst (λ z. Covered (m.consumed_prefixes z.partition_key) n) same_flush
                  (subst (Covered (m.consumed_prefixes flush.partition_key)) same_next c);
          })

group_stored-Sound :
    (w : World) (m : DatalakeMapper) (flush : FrozenPartitionFlush) (group : FrozenRouteGroup)
    → m.frozen_flush ≡ some flush
    → All (λ r. was_handled flush.partition_key r.offset m.log ≡ true) group.records
    → IsSound m
    → Holds Sound (group_stored w m flush group)
unfolding group_stored
group_stored-Sound w m flush group f a v =
    Holds-bind (Resolved m) Sound _ _
      (resolve_records-Resolved m flush.partition_key group.records a v)
      λ m' k.
        let advanced : DatalakeMapper = record m' {
          frozen_object = none;
          upload_attempts = 0;
          group_index = m.group_index + 1;
        } in
        let s : IsSound advanced = record {
          prefixes = k.sound.prefixes;
          safe = k.sound.safe;
          pending = k.sound.pending;
          object = λ flush' object' group' e o g. absurd (ground arith);
        } in
        Holds-if Sound (leb (length flush.route_groups) (m.group_index + 1)) _ _
          (λ q. finish_flush-Sound w advanced flush (k.same.flush ∙ f) s) (λ q. s)

Holds-stored :
    (s : Stored) (x y z : Result MapperError (DatalakeMapper × Bool))
    → Holds Sound x
    → Holds Sound y
    → (s ≡ stored → Holds Sound z)
    → Holds Sound (elim s [ integrity_error ↦ x | put_failed ↦ y | stored ↦ z ])
Holds-stored integrity_error x y z h k l = h
Holds-stored put_failed x y z h k l = k
Holds-stored stored x y z h k l = l refl

-- Every record of an object that the store has is handled.
uploaded-All :
    (key : PartitionKey) (object : FrozenRouteGroup) (answer : Stored) (log : List Event)
    (records : List LakeRecord)
    → answer ≡ stored
    → ((o : ℕ) → any (λ r. r.offset == o) records ≡ true → holds_offset o object ≡ true)
    → All (λ r. was_handled key r.offset (uploaded key object answer ∷ log) ≡ true) records
unfolding was_handled
uploaded-All key object answer log [] e f = tt
uploaded-All key object answer log (r ∷ records) e f = (
  ground (
    arith,
    key_eq_refl key,
    subst (λ a. is_success a ≡ true) (sym e) refl,
    f r.offset (ground arith),
  ),
  uploaded-All key object answer log records e (λ o h. f o (ground (arith, h))),
)

-- An object that is made once is that of the group, where every made one is.
made_once :
    (made : Option FrozenRouteGroup) (group : FrozenRouteGroup)
    → ((object : FrozenRouteGroup) → made ≡ some object → object ≡ group)
    → (elim made [ none ↦ group | some object ↦ object ]) ≡ group
made_once none group f = refl
made_once (some object) group f = f object refl

publish_group-Sound :
    (w : World) (m : DatalakeMapper) (flush : FrozenPartitionFlush) (group : FrozenRouteGroup)
    → m.frozen_flush ≡ some flush
    → get_elem? flush.route_groups m.group_index ≡ some group
    → IsSound m
    → Holds Sound (publish_group w m flush group)
unfolding publish_group ask_upload
publish_group-Sound w m flush group f g v =
    let key = flush.partition_key in
    let object : FrozenRouteGroup = elim m.frozen_object [ none ↦ group | some object ↦ object ] in
    let own : object ≡ group =
      made_once m.frozen_object group (λ object e. v.object flush object group f e g) in
    let made : DatalakeMapper = record m { frozen_object = some object } in
    let s : IsSound (ask_upload w made key object) =
      logged-IsSound made (uploaded key object (w.store m.calls))
        (uploaded-IsCall key object (w.store m.calls)) v.safe
        (record {
          prefixes = v.prefixes;
          safe = v.safe;
          pending = v.pending;
          object = λ flush' object' group' f' o g'.
              let same : object ≡ object' = cc in
              let same_flush : flush ≡ flush' = cc in
              let same_group : group ≡ group' = cc in sym same ∙ own ∙ same_group;
        }) in
    Holds-stored (w.store m.calls) _ _ _ s
      (record { prefixes = s.prefixes; safe = s.safe; pending = s.pending; object = s.object })
      (λ e.
        group_stored-Sound w (ask_upload w made key object) flush group f
          (uploaded-All key object (w.store m.calls) m.log group.records e
            (λ o h. subst (λ x. holds_offset o x ≡ true) (sym own) h))
          s)

pub advance_frozen-Sound :
    (w : World) (m : DatalakeMapper) → IsSound m → Holds Sound (advance_frozen_flush w m)
unfolding advance_frozen_flush
advance_frozen-Sound w m v =
    Holds-option Sound m.frozen_flush _ _ (λ q. tt)
      λ flush f.
        Holds-if Sound (not (m.frozen_generation == m.generation) || m.revoked) _ _ (λ q. tt)
          λ q.
            Holds-option Sound m.pending_commit_offset _ _
              (λ n.
                Holds-option Sound (get_elem? flush.route_groups m.group_index) _ _
                  (λ g. finish_flush-Sound w m flush f v)
                  (λ group g. publish_group-Sound w m flush group f g v))
              (λ next o.
                complete_commit-Sound w m flush.partition_key next (v.pending flush next f o) v)
