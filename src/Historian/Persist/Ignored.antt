-- ===== src/Historian/Persist/Ignored.antt =====
-- Records that are not archived: HistorianHandler.checkpoint_ignored_records of
-- 04_uns_historian/src/uns_historian/historian_handler.py.
use manufacturing_uns.Prelude.{
  [], ◌∷◌, List, ℕ, Option, if◌then◌else◌, map, not, ltb, leb, ◌+◌, ◌==◌, Bool, Contains, subst,
  ◌≡◌, All, ◌≤◌, inr, ◌<◌, if-elim, inl, arith, refl,
}
use manufacturing_uns.Prelude.Sort.{sorted, Contains-sorted}
use manufacturing_uns.Prelude.Text.{str_leb}
use text.Mathlib.Text.{◌==◌ as str_eq}
use manufacturing_uns.Datalake.Batch.{PartitionKey}
use manufacturing_uns.Historian.Rows.{BatchPersistResult}
use manufacturing_uns.Historian.Persist.{
  ensure_all, add_handled, checkpoint_of, advance_checkpoints,
}
use manufacturing_uns.Historian.Persist.Passed.{
  advance_checkpoints-Passed, Passed, ensure_all-checkpoint_of, add_handled-All,
}

pub record IgnoredConsumedRecord : Type 0 where
  pub partition_key : PartitionKey
  pub offset : ℕ

unfoldable pub ignored_leb : IgnoredConsumedRecord → IgnoredConsumedRecord → Bool
ignored_leb a b =
    if not (str_eq a.partition_key.topic b.partition_key.topic)
    then str_leb a.partition_key.topic b.partition_key.topic
    else if not (a.partition_key.partition == b.partition_key.partition)
    then leb a.partition_key.partition b.partition_key.partition
    else leb a.offset b.offset

-- The loop over the records: the offsets handled and how many were stale.
unfoldable pub handle_ignored :
    (PartitionKey → Option ℕ)
    → List (PartitionKey × List ℕ) × ℕ
    → List IgnoredConsumedRecord
    → List (PartitionKey × List ℕ) × ℕ
unfolding checkpoint_of add_handled
handle_ignored checkpoints s [] = s
handle_ignored checkpoints s (r ∷ records) =
    handle_ignored checkpoints
      (if ltb r.offset (checkpoint_of checkpoints r.partition_key)
        then (s.0, s.1 + 1)
        else (add_handled r.partition_key r.offset s.0, s.1))
      records

unfoldable pub checkpoint_ignored_records :
    (PartitionKey → Option ℕ)
    → List IgnoredConsumedRecord
    → (PartitionKey → Option ℕ) × BatchPersistResult
unfolding sorted ignored_leb ensure_all handle_ignored advance_checkpoints
checkpoint_ignored_records checkpoints records =
    let sorted_records = sorted ignored_leb records in
    let locked = ensure_all checkpoints (map (λ r. r.partition_key) sorted_records) in
    let (handled_by_partition, stale) = handle_ignored locked ([], 0) sorted_records in
    let (advanced, next_offsets) = advance_checkpoints locked locked handled_by_partition in
    (
      advanced,
      record {
        inserted_count = 0;
        duplicate_count = 0;
        filtered_stale_count = stale;
        quarantined_conflicts = [];
        next_offsets = next_offsets;
      },
    )

-- The ignored record at this place.
pub record Ignored (records : List IgnoredConsumedRecord) (key : PartitionKey) (offset : ℕ)
    : Type 0 where
  pub row : IgnoredConsumedRecord
  pub listed : Contains records row
  pub own_key : row.partition_key ≡ key
  pub own_offset : row.offset ≡ offset

handle_ignored-All :
    (records : List IgnoredConsumedRecord) (checkpoints : PartitionKey → Option ℕ)
    (rest : List IgnoredConsumedRecord) (s : List (PartitionKey × List ℕ) × ℕ)
    → ((r : IgnoredConsumedRecord) → Contains rest r → Contains records r)
    → All (λ e. All (Ignored records e.0) e.1) s.0
    → All (λ e. All (Ignored records e.0) e.1) (handle_ignored checkpoints s rest).0
unfolding handle_ignored
handle_ignored-All records checkpoints [] s f a = a
handle_ignored-All records checkpoints (r ∷ rest) s f a =
    handle_ignored-All records checkpoints rest _ (λ x c. f x (inr c))
      (if-elim
        (λ (t : List (PartitionKey × List ℕ) × ℕ). All (λ e. All (Ignored records e.0) e.1) t.0)
        (ltb r.offset (checkpoint_of checkpoints r.partition_key)) _ _ (λ q. a)
        (λ q.
          add_handled-All (Ignored records) r.partition_key r.offset s.0
            (record { row = r; listed = f r (inl refl); own_key = refl; own_offset = refl }) a))

-- Ignored records let no checkpoint fall, and a checkpoint passes only offsets of ignored records.
pub checkpoint_ignored_records-Passed :
    (checkpoints : PartitionKey → Option ℕ) (records : List IgnoredConsumedRecord)
    → Passed (Ignored records) checkpoints (checkpoint_ignored_records checkpoints records).0
unfolding checkpoint_ignored_records
checkpoint_ignored_records-Passed checkpoints records k =
    let sorted_records = sorted ignored_leb records in
    let keys = map (λ r. r.partition_key) sorted_records in
    let locked = ensure_all checkpoints keys in
    let handled_by_partition = (handle_ignored locked ([], 0) sorted_records).0 in
    subst
      (λ n.
        (n ≤ checkpoint_of (advance_checkpoints locked locked handled_by_partition).0 k)
        × ((o : ℕ)
            → n ≤ o
            → o < checkpoint_of (advance_checkpoints locked locked handled_by_partition).0 k
            → Ignored records k o))
      (ensure_all-checkpoint_of checkpoints keys k)
      (advance_checkpoints-Passed (Ignored records) locked handled_by_partition locked
        (handle_ignored-All records locked sorted_records ([], 0)
          (Contains-sorted ignored_leb records) tt)
        (λ k. (omega arith, λ o h l. absurd (omega arith))) k)
