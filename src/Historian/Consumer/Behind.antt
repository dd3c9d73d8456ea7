-- ===== src/Historian/Consumer/Behind.antt =====
-- The consumer with its tables and the offsets committed to Kafka: kafka_consumer.py of the historian.
use manufacturing_uns.Prelude.{
  [], ◌∷◌, none, some, ℕ, Bool, List, Option, All, All-map, map, if-elim, if◌then◌else◌, ◌≡◌, ◌≤◌,
  arith, Contains, subst, ◌&&◌, ◌++◌, All-append, All-Contains, not,
}
use manufacturing_uns.Prelude.Result.{ok}
use manufacturing_uns.Datalake.Batch.{PartitionKey, key_eq}
use manufacturing_uns.Datalake.Batch.Valid.{key_eq→≡}
use manufacturing_uns.Historian.Batch.{BatchLimits, ConsumedEvent}
use manufacturing_uns.Historian.Rows.{HistorianTables, BatchPersistResult, raw_row_from_event}
use manufacturing_uns.Historian.Persist.{persist_batch, checkpoint_of}
use manufacturing_uns.Historian.Persist.Stored.{persist_batch-Passed}
use manufacturing_uns.Historian.Persist.Ignored.{
  IgnoredConsumedRecord, checkpoint_ignored_records, checkpoint_ignored_records-Passed,
}
use manufacturing_uns.Historian.Persist.Within.{
  Within, Within-grows, offset_of, persist_batch-Within, ignored-Within,
}
use manufacturing_uns.Historian.Consumer.{
  HistorianKafkaMapper, KafkaMessage, new_historian_mapper, assign_partitions, revoke_partitions,
  try_buffer_message, maybe_flush, flush_end, record_sql_success, commit_kafka,
}

-- `writing` is the batch handed to persist_batch, and `results` what transactions of this
-- and other processes have ended with, of which a handler may still have to hear.
pub record HistorianConsumer : Type 0 where
  pub mapper : HistorianKafkaMapper
  pub tables : HistorianTables
  pub committed : PartitionKey → Option ℕ
  pub writing : List ConsumedEvent
  pub results : List BatchPersistResult

abbrev pub acknowledged : HistorianConsumer → BatchPersistResult → Bool → HistorianConsumer
acknowledged h result commits_to_kafka =
    let (m, commits) = record_sql_success h.mapper result in
    record h {
      mapper = m;
      committed = if commits_to_kafka then commit_kafka h.committed commits else h.committed;
    }

-- What runs between two awaits, here or in another process of the group: its transactions
-- (`others`, and `ignores` as well) and its commits of what they reported (`others_commit`), owner or
-- not. A batch may end in failure (`ends` without `writes`), and so may a commit to Kafka.
pub data Step : HistorianConsumer → HistorianConsumer → Type 0 where
  assigns :
      (h : HistorianConsumer) (partitions : List PartitionKey)
      → Step h (record h { mapper = assign_partitions h.mapper partitions })
  revokes :
      (h : HistorianConsumer) (partitions : List PartitionKey)
      → Step h (record h { mapper = revoke_partitions h.mapper partitions })
  buffers :
      (h : HistorianConsumer) (message : KafkaMessage) (now : ℕ)
      → Step h (record h { mapper = (try_buffer_message h.mapper message now).0 })
  flushes :
      (h : HistorianConsumer) (force : Bool) (now : ℕ) (m : HistorianKafkaMapper)
      (events : List ConsumedEvent)
      → maybe_flush force h.mapper now ≡ some (m, events)
      → Step h (record h { mapper = m; writing = events })
  writes :
      (h : HistorianConsumer) (limits : BatchLimits) (tables : HistorianTables)
      (result : BatchPersistResult)
      → persist_batch limits h.tables (map raw_row_from_event h.writing) ≡ ok (tables, result)
      → Step h (record h { tables = tables; results = result ∷ h.results })
  ends : (h : HistorianConsumer) → Step h (record h { mapper = flush_end h.mapper; writing = [] })
  ignores :
      (h : HistorianConsumer) (records : List IgnoredConsumedRecord)
      → Step h (record h {
        tables = record h.tables {
          checkpoints = (checkpoint_ignored_records h.tables.checkpoints records).0;
        };
        results = (checkpoint_ignored_records h.tables.checkpoints records).1 ∷ h.results;
      })
  acknowledges :
      (h : HistorianConsumer) (result : BatchPersistResult) (commits_to_kafka : Bool)
      → Contains h.results result
      → Step h (acknowledged h result commits_to_kafka)
  others :
      (h : HistorianConsumer) (limits : BatchLimits) (events : List ConsumedEvent)
      (tables : HistorianTables) (result : BatchPersistResult)
      → persist_batch limits h.tables (map raw_row_from_event events) ≡ ok (tables, result)
      → Step h (record h { tables = tables; results = result ∷ h.results })
  others_commit :
      (h : HistorianConsumer) (result : BatchPersistResult)
      → Contains h.results result
      → Step h (record h { committed = commit_kafka h.committed result.next_offsets })

pub data Reach (h : HistorianConsumer) : HistorianConsumer → Type 0 where
  start : Reach h h
  next : {a b : HistorianConsumer} → Reach h a → Step a b → Reach h b

abbrev pub new_consumer : BatchLimits → HistorianTables → HistorianConsumer
new_consumer limits tables = record {
  mapper = new_historian_mapper limits;
  tables = tables;
  committed = λ key. none;
  writing = [];
  results = [];
}

-- No committed offset and no offset that may be committed is above its checkpoint.
record IsBehind (h : HistorianConsumer) : Type 0 where
  commits :
      (key : PartitionKey) → checkpoint_of h.committed key ≤ checkpoint_of h.tables.checkpoints key
  offsets : All (λ r. Within h.tables.checkpoints r.next_offsets) h.results

commit_kafka-Behind :
    (checkpoints : PartitionKey → Option ℕ) (offsets : List (PartitionKey × ℕ))
    (committed : PartitionKey → Option ℕ)
    → Within checkpoints offsets
    → ((key : PartitionKey) → checkpoint_of committed key ≤ checkpoint_of checkpoints key)
    → (key : PartitionKey)
    → checkpoint_of (commit_kafka committed offsets) key ≤ checkpoint_of checkpoints key
unfolding commit_kafka
commit_kafka-Behind checkpoints [] committed w v = v
commit_kafka-Behind checkpoints ((key, n) ∷ offsets) committed w v =
    commit_kafka-Behind checkpoints offsets (λ k. if key_eq key k then some n else committed k) w.1
      λ k.
        unfold checkpoint_of in
        if-elim (λ o. offset_of o ≤ offset_of (checkpoints k)) (key_eq key k) (some n) (committed k)
          (λ q.
            subst (λ z. n ≤ offset_of (checkpoints z)) (key_eq→≡ key k q)
              (unfold checkpoint_of in w.0))
          (λ q. unfold checkpoint_of in v k)

tables_grow :
    (h : HistorianConsumer) (tables : HistorianTables) (results : List BatchPersistResult)
    → ((key : PartitionKey)
        → checkpoint_of h.tables.checkpoints key ≤ checkpoint_of tables.checkpoints key)
    → All (λ r. Within tables.checkpoints r.next_offsets) results
    → IsBehind h
    → IsBehind (record h { tables = tables; results = results ++ h.results })
tables_grow h tables results grows new v = record {
  commits = λ key. omega (arith, v.commits key, grows key);
  offsets =
      All-append (λ r. Within tables.checkpoints r.next_offsets) results h.results new
        (All-map (λ r. Within h.tables.checkpoints r.next_offsets)
          (λ r. Within tables.checkpoints r.next_offsets) h.results
          (λ r. Within-grows h.tables.checkpoints tables.checkpoints r.next_offsets grows)
          v.offsets);
}

acknowledged-IsBehind :
    (h : HistorianConsumer) (result : BatchPersistResult) (commits_to_kafka : Bool)
    → Contains h.results result
    → IsBehind h
    → IsBehind (acknowledged h result commits_to_kafka)
unfolding record_sql_success
acknowledged-IsBehind h result commits_to_kafka c v =
    let known =
      All-Contains (λ r. Within h.tables.checkpoints r.next_offsets) h.results result v.offsets c in
    if-elim
      (λ (r : HistorianKafkaMapper × List (PartitionKey × ℕ)). IsBehind (record h {
        mapper = r.0;
        committed = if commits_to_kafka then commit_kafka h.committed r.1 else h.committed;
      }))
      (not (h.mapper.ownership_active && not h.mapper.revoked)) _ _ (λ q. committing [] tt)
      (λ q. committing result.next_offsets known)
  where
    committing :
        {m : HistorianKafkaMapper} (offsets : List (PartitionKey × ℕ))
        → Within h.tables.checkpoints offsets
        → IsBehind (record h {
          mapper = m;
          committed = if commits_to_kafka then commit_kafka h.committed offsets else h.committed;
        })
    committing offsets w = record {
      commits =
          if-elim
            (λ (d : PartitionKey → Option ℕ).
              (key : PartitionKey) → checkpoint_of d key ≤ checkpoint_of h.tables.checkpoints key)
            commits_to_kafka _ _
            (λ q. commit_kafka-Behind h.tables.checkpoints offsets h.committed w v.commits)
            (λ q. v.commits);
      offsets = v.offsets;
    }

Step-IsBehind : {a b : HistorianConsumer} → Step a b → IsBehind a → IsBehind b
Step-IsBehind (assigns h partitions) v = record { commits = v.commits; offsets = v.offsets }
Step-IsBehind (revokes h partitions) v = record { commits = v.commits; offsets = v.offsets }
Step-IsBehind (buffers h message now) v = record { commits = v.commits; offsets = v.offsets }
Step-IsBehind (flushes h force now m events e) v = record {
  commits = v.commits;
  offsets = v.offsets;
}
Step-IsBehind (writes h limits tables result e) v =
    tables_grow h tables (result ∷ [])
      (λ key.
        (persist_batch-Passed limits h.tables tables (map raw_row_from_event h.writing) result e
          key).0)
      (persist_batch-Within limits h.tables tables (map raw_row_from_event h.writing) result e, tt)
      v
Step-IsBehind (ends h) v = record { commits = v.commits; offsets = v.offsets }
Step-IsBehind (ignores h records) v =
    tables_grow h _ ((checkpoint_ignored_records h.tables.checkpoints records).1 ∷ [])
      (λ key. (checkpoint_ignored_records-Passed h.tables.checkpoints records key).0)
      (ignored-Within h.tables.checkpoints records, tt) v
Step-IsBehind (acknowledges h result commits_to_kafka c) v =
    acknowledged-IsBehind h result commits_to_kafka c v
Step-IsBehind (others h limits events tables result e) v =
    tables_grow h tables (result ∷ [])
      (λ key.
        (persist_batch-Passed limits h.tables tables (map raw_row_from_event events) result e
          key).0)
      (persist_batch-Within limits h.tables tables (map raw_row_from_event events) result e, tt) v
Step-IsBehind (others_commit h result c) v = record {
  commits =
      commit_kafka-Behind h.tables.checkpoints result.next_offsets h.committed
        (All-Contains (λ r. Within h.tables.checkpoints r.next_offsets) h.results result v.offsets
          c)
        v.commits;
  offsets = v.offsets;
}

Reach-IsBehind : {a b : HistorianConsumer} → Reach a b → IsBehind a → IsBehind b
Reach-IsBehind start v = v
Reach-IsBehind (next r s) v = Step-IsBehind s (Reach-IsBehind r v)

new_consumer-IsBehind :
    (limits : BatchLimits) (tables : HistorianTables) → IsBehind (new_consumer limits tables)
new_consumer-IsBehind limits tables = record {
  commits = λ k. unfold checkpoint_of in omega arith;
  offsets = tt;
}

-- From a consumer group that has committed nothing, whatever the tables hold at first, however the
-- handlers, the transactions and the commits of this and other processes interleave and fail: at any
-- one instant the offset that Kafka has committed for a partition is at most its SQL checkpoint.
pub Reach-committed_le :
    (limits : BatchLimits) (tables : HistorianTables) {h : HistorianConsumer}
    → Reach (new_consumer limits tables) h
    → (key : PartitionKey) → checkpoint_of h.committed key ≤ checkpoint_of h.tables.checkpoints key
Reach-committed_le limits tables r key =
    (Reach-IsBehind r (new_consumer-IsBehind limits tables)).commits key
