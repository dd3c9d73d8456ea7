-- ===== src/Historian/Persist/Stored.antt =====
-- What the checkpoints of the historian stand for: persist_batch of historian_handler.py.
use manufacturing_uns.Prelude.{
  [], ◌∷◌, some, inl, inr, List, ◌≡◌, Contains, ℕ, Option, true, All, Bool-cases, if-elim, ◌++◌,
  arith, subst, ◌⊎◌, Contains-append_left, All-map, ltb, any-append, option-elim, ◌≤◌,
  Contains-append_right, ◌<◌, not, refl, map,
}
use manufacturing_uns.Prelude.Result.{ok, Result-cases}
use manufacturing_uns.Prelude.Sort.{sorted, Contains-sorted}
use manufacturing_uns.Config.Topics.{text_eq_refl, text_eq}
use manufacturing_uns.Datalake.Batch.{PartitionKey}
use manufacturing_uns.Historian.Batch.{BatchLimits}
use manufacturing_uns.Historian.Rows.{
  RawInsertRow, HistorianTables, is_stored, same_row, existing_hash, MetricInsertRow, row_leb,
  BatchPersistResult, all_metric_rows,
}
use manufacturing_uns.Historian.Persist.Passed.{
  Passed, add_handled-All, advance_checkpoints-Passed, ensure_all-checkpoint_of,
}
use manufacturing_uns.Historian.Persist.{
  raw_batch_insert, sort_row, sort_rows, Sorting, checkpoint_of, advance_checkpoints, ensure_all,
  persist_rows, nothing_sorted, persist_batch,
}

same_event_refl : (row : RawInsertRow) → same_row row row ≡ true
unfolding same_row
same_event_refl row = ground (arith, text_eq_refl row.event_id)

pub insert-stored_old :
    (r : RawInsertRow) (raw rows : List RawInsertRow)
    → is_stored r raw ≡ true
    → is_stored r (raw_batch_insert raw rows).0 ≡ true
unfolding raw_batch_insert
insert-stored_old r raw [] h = h
insert-stored_old r raw (row ∷ rows) h = elim (Bool-cases (is_stored row raw)) [
  | inl q ↦ rw q (insert-stored_old r raw rows h)
  | inr q ↦ rw q (insert-stored_old r (raw ++ row ∷ []) rows (grown h))
]
  where
    grown : is_stored r raw ≡ true → is_stored r (raw ++ row ∷ []) ≡ true
    grown h = unfold is_stored in ground (arith, any-append (same_row r) raw (row ∷ []))

-- Every row that is inserted is in the table, or was.
pub insert-is_stored :
    (r : RawInsertRow) (raw rows : List RawInsertRow)
    → Contains rows r
    → is_stored r (raw_batch_insert raw rows).0 ≡ true
unfolding raw_batch_insert
insert-is_stored r raw [] c = elim c [ ]
insert-is_stored r raw (row ∷ rows) (inl e) = elim (Bool-cases (is_stored row raw)) [
  | inl q ↦ rw q (insert-stored_old r raw rows (subst (λ z. is_stored z raw ≡ true) e q))
  | inr q ↦ rw q (
      insert-stored_old r (raw ++ row ∷ []) rows (
        subst (λ z. is_stored z (raw ++ row ∷ []) ≡ true) e
          (unfold is_stored in
            ground (arith, any-append (same_row row) raw (row ∷ []), same_event_refl row))))
]
insert-is_stored r raw (row ∷ rows) (inr c) = elim (Bool-cases (is_stored row raw)) [
  | inl q ↦ rw q (insert-is_stored r raw rows c)
  | inr q ↦ rw q (insert-is_stored r (raw ++ row ∷ []) rows c)
]

pub existing-is_stored :
    (row : RawInsertRow) (raw : List RawInsertRow) (hash : List ℕ)
    → existing_hash row raw ≡ some hash
    → is_stored row raw ≡ true
unfolding existing_hash is_stored
existing-is_stored row [] hash h = absurd (ground arith)
existing-is_stored row (r ∷ raw) hash h = ground (arith, existing-is_stored row raw hash)

-- A row of the batch with this place, in the table or accepted.
pub record Place (batch raw accepted : List RawInsertRow) (key : PartitionKey) (offset : ℕ)
    : Type 0 where
  pub row : RawInsertRow
  pub listed : Contains batch row
  pub own_key : row.partition_key ≡ key
  pub own_offset : row.offset ≡ offset
  pub kept : (is_stored row raw ≡ true) ⊎ Contains accepted row

abbrev pub Places :
    List RawInsertRow
    → List RawInsertRow
    → List RawInsertRow
    → List (PartitionKey × List ℕ)
    → Type 0
Places batch raw accepted d = All (λ e. All (Place batch raw accepted e.0) e.1) d

Place-grows :
    {batch raw accepted : List RawInsertRow} (row : RawInsertRow) {key : PartitionKey} {offset : ℕ}
    → Place batch raw accepted key offset
    → Place batch raw (accepted ++ row ∷ []) key offset
Place-grows {batch} {raw} {accepted} row p = record {
  row = p.row;
  listed = p.listed;
  own_key = p.own_key;
  own_offset = p.own_offset;
  kept = elim p.kept [
    | inl h ↦ inl h
    | inr c ↦ inr (Contains-append_left accepted (row ∷ []) p.row c)
  ];
}

Places-grows :
    (batch raw accepted : List RawInsertRow) (row : RawInsertRow) (d : List (PartitionKey × List ℕ))
    → Places batch raw accepted d
    → Places batch raw (accepted ++ row ∷ []) d
Places-grows batch raw accepted row d =
    All-map (λ e. All (Place batch raw accepted e.0) e.1)
      (λ e. All (Place batch raw (accepted ++ row ∷ []) e.0) e.1) d
      (λ e.
        All-map (Place batch raw accepted e.0) (Place batch raw (accepted ++ row ∷ []) e.0) e.1
          (λ o p. Place-grows row p))

abbrev pub Sorted : List RawInsertRow → List RawInsertRow → Sorting → Type 0
Sorted batch raw s = Places batch raw s.accepted s.handled_by_partition

sort_row-Sorted :
    (checkpoints : PartitionKey → Option ℕ) (batch raw : List RawInsertRow) (s : Sorting)
    (row : RawInsertRow)
    → Contains batch row
    → Sorted batch raw s
    → Sorted batch raw (sort_row checkpoints raw s row)
unfolding sort_row
sort_row-Sorted checkpoints batch raw s row c v =
    if-elim (Sorted batch raw) (ltb row.offset (checkpoint_of checkpoints row.partition_key)) _ _
      (λ q. v)
      λ q.
        option-elim (Sorted batch raw) (existing_hash row raw) _ _
          (λ absent.
            add_handled-All (Place batch raw (s.accepted ++ row ∷ [])) row.partition_key row.offset
              s.handled_by_partition
              (place (inr (Contains-append_right s.accepted (row ∷ []) row (inl refl))))
              (Places-grows batch raw s.accepted row s.handled_by_partition v))
          λ hash found.
            let known =
              add_handled-All (Place batch raw s.accepted) row.partition_key row.offset
                s.handled_by_partition (place (inl (existing-is_stored row raw hash found))) v in
            if-elim (Sorted batch raw) (not (text_eq hash row.content_hash)) _ _ (λ r. known)
              (λ r. known)
  where
    place :
        {accepted : List RawInsertRow}
        → (is_stored row raw ≡ true) ⊎ Contains accepted row
        → Place batch raw accepted row.partition_key row.offset
    place kept = record { row = row; listed = c; own_key = refl; own_offset = refl; kept = kept }

sort_rows-Sorted :
    (checkpoints : PartitionKey → Option ℕ) (batch raw : List RawInsertRow) (s : Sorting)
    (rows : List RawInsertRow)
    → ((row : RawInsertRow) → Contains rows row → Contains batch row)
    → Sorted batch raw s
    → Sorted batch raw (sort_rows checkpoints raw s rows)
unfolding sort_rows
sort_rows-Sorted checkpoints batch raw s [] f v = v
sort_rows-Sorted checkpoints batch raw s (row ∷ rows) f v =
    sort_rows-Sorted checkpoints batch raw (sort_row checkpoints raw s row) rows
      (λ r c. f r (inr c)) (sort_row-Sorted checkpoints batch raw s row (f row (inl refl)) v)

-- A place in the new table.
pub record InTable (batch table : List RawInsertRow) (key : PartitionKey) (offset : ℕ)
    : Type 0 where
  pub row : RawInsertRow
  pub listed : Contains batch row
  pub own_key : row.partition_key ≡ key
  pub own_offset : row.offset ≡ offset
  pub in_table : is_stored row table ≡ true

in_table :
    {batch : List RawInsertRow} (raw accepted : List RawInsertRow) {key : PartitionKey} {offset : ℕ}
    → Place batch raw accepted key offset
    → InTable batch (raw_batch_insert raw accepted).0 key offset
in_table raw accepted p = record {
  row = p.row;
  listed = p.listed;
  own_key = p.own_key;
  own_offset = p.own_offset;
  in_table = elim p.kept [
    | inl h ↦ insert-stored_old p.row raw accepted h
    | inr c ↦ insert-is_stored p.row raw accepted c
  ];
}

pub persist_rows-Passed :
    (db : HistorianTables) (rows : List RawInsertRow) (metric_rows : List MetricInsertRow)
    → Passed
        (InTable rows (persist_rows db rows metric_rows).0.raw)
        db.checkpoints
        (persist_rows db rows metric_rows).0.checkpoints
unfolding persist_rows
persist_rows-Passed db rows metric_rows =
    let locked = ensure_all db.checkpoints (map (λ r. r.partition_key) rows) in
    let s = sort_rows locked db.raw nothing_sorted rows in
    let table = (raw_batch_insert db.raw s.accepted).0 in
    let placed = sort_rows-Sorted locked rows db.raw nothing_sorted rows (λ r c. c) tt in
    let moved =
      advance_checkpoints-Passed (InTable rows table) locked s.handled_by_partition locked
        (All-map (λ e. All (Place rows db.raw s.accepted e.0) e.1)
          (λ e. All (InTable rows table e.0) e.1) s.handled_by_partition
          (λ e.
            All-map (Place rows db.raw s.accepted e.0) (InTable rows table e.0) e.1
              (λ o p. in_table db.raw s.accepted p))
          placed)
        (λ k. (omega arith, λ o h l. absurd (omega arith))) in
    λ k.
      subst
        (λ n.
          (n ≤ checkpoint_of (advance_checkpoints locked locked s.handled_by_partition).0 k)
          × ((o : ℕ)
              → n ≤ o
              → o < checkpoint_of (advance_checkpoints locked locked s.handled_by_partition).0 k
              → InTable rows table k o))
        (ensure_all-checkpoint_of db.checkpoints (map (λ r. r.partition_key) rows) k) (moved k)

sorted-InTable :
    {events table : List RawInsertRow} {key : PartitionKey} {offset : ℕ}
    → InTable (sorted row_leb events) table key offset
    → InTable events table key offset
sorted-InTable {events} t = record {
  row = t.row;
  listed = Contains-sorted row_leb events t.row t.listed;
  own_key = t.own_key;
  own_offset = t.own_offset;
  in_table = t.in_table;
}

-- The checkpoints do not fall either.
pub persist_batch-Passed :
    (limits : BatchLimits) (db db' : HistorianTables) (events : List RawInsertRow)
    (result : BatchPersistResult)
    → persist_batch limits db events ≡ ok (db', result)
    → Passed (InTable events db'.raw) db.checkpoints db'.checkpoints
unfolding persist_batch
persist_batch-Passed limits db db' events result h =
    elim (Result-cases (all_metric_rows limits (sorted row_leb events))) [
      | inl (metric_rows, e) ↦
          let passed = persist_rows-Passed db (sorted row_leb events) metric_rows in
          let same : (persist_rows db (sorted row_leb events) metric_rows).0 ≡ db' =
            ground (arith, e) in
          subst (λ d. Passed (InTable events d.raw) db.checkpoints d.checkpoints) same
            (λ k. let (le, place) = passed k in (le, λ o m l. sorted-InTable (place o m l)))
      | inr (x, failed) ↦ absurd (ground (arith, failed))
    ]

-- Where a batch is persisted, every offset from the old checkpoint of its partition up to the new one
-- is that of an event of the batch whose time and id are in the raw table.
pub persist_batch-InTable :
    (limits : BatchLimits) (db db' : HistorianTables) (events : List RawInsertRow)
    (result : BatchPersistResult)
    → persist_batch limits db events ≡ ok (db', result)
    → (key : PartitionKey) (offset : ℕ) → checkpoint_of db.checkpoints key ≤ offset
    → offset < checkpoint_of db'.checkpoints key
    → InTable events db'.raw key offset
persist_batch-InTable limits db db' events result h key offset =
    (persist_batch-Passed limits db db' events result h key).1 offset
