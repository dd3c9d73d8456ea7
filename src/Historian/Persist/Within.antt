-- ===== src/Historian/Persist/Within.antt =====
-- The offsets that a transaction of the historian reports: `next_offsets` of historian_handler.py.
use manufacturing_uns.Prelude.{
  [], ◌∷◌, none, some, ℕ, List, Option, ltb, All, All-map, map, if-elim, ◌≡◌, ◌≤◌, arith, subst,
  ◌&&◌, leb, &&-elim, inl, inr,
}
use manufacturing_uns.Prelude.Result.{ok, Result-cases}
use manufacturing_uns.Datalake.Batch.{PartitionKey, key_eq}
use manufacturing_uns.Datalake.Batch.Valid.{key_eq_refl}
use manufacturing_uns.Historian.Batch.{BatchLimits, compute_next_offset}
use manufacturing_uns.Historian.Rows.{HistorianTables, BatchPersistResult}
use manufacturing_uns.Historian.Persist.{
  persist_batch, checkpoint_of, advance_checkpoint, advance_checkpoints, persist_rows, sorted,
  RawInsertRow, row_leb, ensure_all, all_metric_rows, sort_rows, nothing_sorted,
}
use manufacturing_uns.Historian.Persist.Ignored.{
  IgnoredConsumedRecord, checkpoint_ignored_records, ignored_leb, handle_ignored,
}

abbrev pub Within : (PartitionKey → Option ℕ) → List (PartitionKey × ℕ) → Type 0
Within checkpoints offsets = All (λ e. e.1 ≤ checkpoint_of checkpoints e.0) offsets

pub Within-grows :
    (old new : PartitionKey → Option ℕ) (offsets : List (PartitionKey × ℕ))
    → ((key : PartitionKey) → checkpoint_of old key ≤ checkpoint_of new key)
    → Within old offsets
    → Within new offsets
Within-grows old new offsets grows =
    All-map (λ e. e.1 ≤ checkpoint_of old e.0) (λ e. e.1 ≤ checkpoint_of new e.0) offsets
      (λ e h. omega (arith, h, grows e.0))

abbrev pub offset_of : Option ℕ → ℕ
offset_of o = elim o [ none ↦ 0 | some n ↦ n ]

advance_checkpoint-grows :
    (checkpoints : PartitionKey → Option ℕ) (key : PartitionKey) (n : ℕ) (k : PartitionKey)
    → checkpoint_of checkpoints k ≤ checkpoint_of (advance_checkpoint checkpoints key n) k
unfolding advance_checkpoint checkpoint_of
advance_checkpoint-grows checkpoints key n k =
    if-elim (λ o. offset_of (checkpoints k) ≤ offset_of o)
      (key_eq key k && leb (offset_of (checkpoints k)) n) (some n) (checkpoints k)
      (λ q.
        let (same, le) = &&-elim (key_eq key k) (leb (offset_of (checkpoints k)) n) q in
        ground (arith, le))
      (λ q. omega arith)

advance_checkpoint-at :
    (checkpoints : PartitionKey → Option ℕ) (key : PartitionKey) (n : ℕ)
    → n ≤ checkpoint_of (advance_checkpoint checkpoints key n) key
unfolding advance_checkpoint checkpoint_of
advance_checkpoint-at checkpoints key n =
    if-elim (λ o. n ≤ offset_of o) (key_eq key key && leb (offset_of (checkpoints key)) n) (some n)
      (checkpoints key) (λ q. omega arith)
      (λ q. let same = key_eq_refl key in ground (arith, same, q))

advance_checkpoints-grows :
    (locked : PartitionKey → Option ℕ) (d : List (PartitionKey × List ℕ))
    (checkpoints : PartitionKey → Option ℕ) (k : PartitionKey)
    → checkpoint_of checkpoints k ≤ checkpoint_of (advance_checkpoints locked checkpoints d).0 k
unfolding advance_checkpoints
advance_checkpoints-grows locked [] checkpoints k = omega arith
advance_checkpoints-grows locked ((key, offsets) ∷ d) checkpoints k =
    let n = compute_next_offset (checkpoint_of locked key) offsets in
    if-elim
      (λ (r : (PartitionKey → Option ℕ) × List (PartitionKey × ℕ)).
        checkpoint_of checkpoints k ≤ checkpoint_of r.0 k)
      (ltb (checkpoint_of locked key) n) _ _
      (λ q. omega (
        arith,
        advance_checkpoint-grows checkpoints key n k,
        advance_checkpoints-grows locked d (advance_checkpoint checkpoints key n) k,
      ))
      (λ q. advance_checkpoints-grows locked d checkpoints k)

pub advance_checkpoints-Within :
    (locked : PartitionKey → Option ℕ) (d : List (PartitionKey × List ℕ))
    (checkpoints : PartitionKey → Option ℕ)
    → Within
        (advance_checkpoints locked checkpoints d).0
        (advance_checkpoints locked checkpoints d).1
unfolding advance_checkpoints
advance_checkpoints-Within locked [] checkpoints = tt
advance_checkpoints-Within locked ((key, offsets) ∷ d) checkpoints =
    let n = compute_next_offset (checkpoint_of locked key) offsets in
    if-elim (λ (r : (PartitionKey → Option ℕ) × List (PartitionKey × ℕ)). Within r.0 r.1)
      (ltb (checkpoint_of locked key) n) _ _
      (λ q. (
        omega (
          arith,
          advance_checkpoint-at checkpoints key n,
          advance_checkpoints-grows locked d (advance_checkpoint checkpoints key n) key,
        ),
        advance_checkpoints-Within locked d (advance_checkpoint checkpoints key n),
      ))
      (λ q. advance_checkpoints-Within locked d checkpoints)

-- A batch that is persisted reports no offset above its checkpoint.
pub persist_batch-Within :
    (limits : BatchLimits) (db db' : HistorianTables) (rows : List RawInsertRow)
    (result : BatchPersistResult)
    → persist_batch limits db rows ≡ ok (db', result)
    → Within db'.checkpoints result.next_offsets
unfolding persist_batch persist_rows
persist_batch-Within limits db db' rows result h =
    let sorted_rows = sorted row_leb rows in
    let locked = ensure_all db.checkpoints (map (λ r. r.partition_key) sorted_rows) in
    elim (Result-cases (all_metric_rows limits sorted_rows)) [
      | inl (metric_rows, e) ↦
          let same : persist_rows db sorted_rows metric_rows ≡ (db', result) = ground (arith, e) in
          subst (λ r. Within r.0.checkpoints r.1.next_offsets) same
            (advance_checkpoints-Within locked
              (sort_rows locked db.raw nothing_sorted sorted_rows).handled_by_partition locked)
      | inr (x, failed) ↦ absurd (ground (arith, failed))
    ]

pub ignored-Within :
    (checkpoints : PartitionKey → Option ℕ) (records : List IgnoredConsumedRecord)
    → Within
        (checkpoint_ignored_records checkpoints records).0
        (checkpoint_ignored_records checkpoints records).1.next_offsets
unfolding checkpoint_ignored_records
ignored-Within checkpoints records =
    let sorted_records = sorted ignored_leb records in
    let locked = ensure_all checkpoints (map (λ r. r.partition_key) sorted_records) in
    advance_checkpoints-Within locked (handle_ignored locked ([], 0) sorted_records).0 locked
