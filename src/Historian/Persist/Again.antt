-- ===== src/Historian/Persist/Again.antt =====
-- A batch that is persisted again: persist_batch of historian_handler.py.
use manufacturing_uns.Historian.Persist.Stored.{
  existing-is_stored, persist_rows-Passed, insert-stored_old, insert-is_stored,
}
use manufacturing_uns.Prelude.{
  [], ◌∷◌, none, inl, inr, Option, List, ℕ, ◌≡◌, ◌<◌, false, All, filter, arith, ◌⊎◌, Contains,
  if-elim, ◌∙◌, refl, true, subst, ltb, map, ◌++◌, ltb→lt, sym, option-elim, not,
  Contains-append_left, Contains-append_right, ltb→ge, All-map,
}
use manufacturing_uns.Prelude.Result.{ok, Result-cases}
use mathlib.Core.List.{append-nil}
use manufacturing_uns.Prelude.Sort.{sorted}
use manufacturing_uns.Datalake.Batch.{PartitionKey}
use manufacturing_uns.Historian.Rows.{
  RawInsertRow, HistorianTables, is_stored, existing_hash, MetricInsertRow, BatchPersistResult,
  row_leb, all_metric_rows,
}
use manufacturing_uns.Historian.Persist.Passed.{ensure_all-checkpoint_of}
use manufacturing_uns.Historian.Persist.{
  sort_row, sort_rows, id_in, persist_rows, raw_batch_insert, Sorting, checkpoint_of, ensure_all,
  nothing_sorted, text_eq, persist_batch, distinct_ids, BatchLimits,
}

-- The row is below its checkpoint, or its event is in the table.
abbrev Done : (PartitionKey → Option ℕ) → List RawInsertRow → RawInsertRow → Type 0
Done checkpoints raw row =
    (row.offset < checkpoint_of checkpoints row.partition_key) ⊎ (is_stored row raw ≡ true)

absent-not_stored :
    (row : RawInsertRow) (raw : List RawInsertRow)
    → existing_hash row raw ≡ none
    → is_stored row raw ≡ false
unfolding existing_hash is_stored
absent-not_stored row [] h = refl
absent-not_stored row (r ∷ raw) h = ground (arith, absent-not_stored row raw)

-- One row: it leaves the accepted rows, or it is accepted.
sort_row-accepted :
    (checkpoints : PartitionKey → Option ℕ) (raw : List RawInsertRow) (s : Sorting)
    (row : RawInsertRow)
    → (Done checkpoints raw row × ((sort_row checkpoints raw s row).accepted ≡ s.accepted))
      ⊎ ((sort_row checkpoints raw s row).accepted ≡ s.accepted ++ row ∷ [])
unfolding sort_row
sort_row-accepted checkpoints raw s row =
    if-elim Outcome (ltb row.offset (checkpoint_of checkpoints row.partition_key)) _ _
      (λ q. inl (inl (ltb→lt _ _ q), refl))
      λ q.
        option-elim Outcome (existing_hash row raw) _ _ (λ absent. inr refl)
          λ hash found.
            if-elim Outcome (not (text_eq hash row.content_hash)) _ _
              (λ r. inl (inr (existing-is_stored row raw hash found), refl))
              (λ r. inl (inr (existing-is_stored row raw hash found), refl))
  where
    Outcome : Sorting → Type 0
    Outcome t =
        (Done checkpoints raw row × (t.accepted ≡ s.accepted))
        ⊎ (t.accepted ≡ s.accepted ++ row ∷ [])

accepted_grows :
    (checkpoints : PartitionKey → Option ℕ) (raw rows : List RawInsertRow) (s : Sorting)
    (r : RawInsertRow)
    → Contains s.accepted r
    → Contains (sort_rows checkpoints raw s rows).accepted r
unfolding sort_rows
accepted_grows checkpoints raw [] s r c = c
accepted_grows checkpoints raw (row ∷ rows) s r c =
    accepted_grows checkpoints raw rows (sort_row checkpoints raw s row) r
      (elim (sort_row-accepted checkpoints raw s row) [
        | inl same ↦ subst (λ l. Contains l r) (sym same.1) c
        | inr more ↦
            subst (λ l. Contains l r) (sym more) (Contains-append_left s.accepted (row ∷ []) r c)
      ])

-- After the loop every row is done or accepted.
sort_rows-all :
    (checkpoints : PartitionKey → Option ℕ) (raw rows : List RawInsertRow) (s : Sorting)
    → All
        (λ r. Done checkpoints raw r ⊎ Contains (sort_rows checkpoints raw s rows).accepted r)
        rows
unfolding sort_rows
sort_rows-all checkpoints raw [] s = tt
sort_rows-all checkpoints raw (row ∷ rows) s = (
  elim (sort_row-accepted checkpoints raw s row) [
    | inl (d, same) ↦ inl d
    | inr more ↦ inr (
        accepted_grows checkpoints raw rows (sort_row checkpoints raw s row) row (
          subst (λ l. Contains l row) (sym more)
            (Contains-append_right s.accepted (row ∷ []) row (inl refl))))
  ],
  sort_rows-all checkpoints raw rows (sort_row checkpoints raw s row),
)

Done-accepted :
    (checkpoints : PartitionKey → Option ℕ) (raw : List RawInsertRow) (s : Sorting)
    (row : RawInsertRow)
    → Done checkpoints raw row
    → (sort_row checkpoints raw s row).accepted ≡ s.accepted
unfolding sort_row
Done-accepted checkpoints raw s row d =
    if-elim Same (ltb row.offset (checkpoint_of checkpoints row.partition_key)) _ _ (λ q. refl)
      λ q.
        option-elim Same (existing_hash row raw) _ _
          (λ absent. elim d [
            | inl lt ↦ absurd (omega (arith, ltb→ge _ _ q))
            | inr st ↦ absurd (ground (arith, absent-not_stored row raw absent))
          ])
          λ hash found.
            if-elim Same (not (text_eq hash row.content_hash)) _ _ (λ r. refl) (λ r. refl)
  where
    Same : Sorting → Type 0
    Same t = t.accepted ≡ s.accepted

all-Done-accepted :
    (checkpoints : PartitionKey → Option ℕ) (raw rows : List RawInsertRow) (s : Sorting)
    → All (Done checkpoints raw) rows
    → (sort_rows checkpoints raw s rows).accepted ≡ s.accepted
unfolding sort_rows
all-Done-accepted checkpoints raw [] s a = refl
all-Done-accepted checkpoints raw (row ∷ rows) s a =
    all-Done-accepted checkpoints raw rows (sort_row checkpoints raw s row) a.1
    ∙ Done-accepted checkpoints raw s row a.0

-- What the first transaction leaves done.
persist_rows-Done :
    (db : HistorianTables) (rows : List RawInsertRow) (metric_rows : List MetricInsertRow)
    → All
        (Done
          (persist_rows db rows metric_rows).0.checkpoints
          (persist_rows db rows metric_rows).0.raw)
        rows
persist_rows-Done db rows metric_rows =
    let locked = ensure_all db.checkpoints (map (λ r. r.partition_key) rows) in
    let s = sort_rows locked db.raw nothing_sorted rows in
    let passed = persist_rows-Passed db rows metric_rows in
    All-map (λ r. Done locked db.raw r ⊎ Contains s.accepted r)
      (Done (persist_rows db rows metric_rows).0.checkpoints
        (persist_rows db rows metric_rows).0.raw)
      rows
      (λ r o. elim o [
        | inl (inl lt) ↦ inl (
            omega (
              arith,
              ensure_all-checkpoint_of db.checkpoints (map (λ r. r.partition_key) rows)
                  r.partition_key,
              (passed r.partition_key).0,
            ))
        | inl (inr st) ↦ inr (unfold persist_rows in insert-stored_old r db.raw s.accepted st)
        | inr c ↦ inr (unfold persist_rows in insert-is_stored r db.raw s.accepted c)
      ])
      (sort_rows-all locked db.raw rows nothing_sorted)

filter_none : (metrics : List MetricInsertRow) → filter (λ m. id_in m.event_id []) metrics ≡ []
unfolding id_in
filter_none [] = refl
filter_none (m ∷ metrics) = filter_none metrics

-- Nothing is new in rows that are done.
Done-again :
    (db : HistorianTables) (rows : List RawInsertRow) (metric_rows : List MetricInsertRow)
    → All (Done db.checkpoints db.raw) rows
    → ((persist_rows db rows metric_rows).1.inserted_count ≡ 0)
      × ((persist_rows db rows metric_rows).0.raw ≡ db.raw)
      × ((persist_rows db rows metric_rows).0.metrics ≡ db.metrics)
unfolding persist_rows raw_batch_insert
Done-again db rows metric_rows a =
    let locked = ensure_all db.checkpoints (map (λ r. r.partition_key) rows) in
    let none_new : (sort_rows locked db.raw nothing_sorted rows).accepted ≡ [] =
      all-Done-accepted locked db.raw rows nothing_sorted (
        All-map (Done db.checkpoints db.raw) (Done locked db.raw) rows
          (λ r d. elim d [
            | inl lt ↦ inl (
                omega (
                  arith,
                  ensure_all-checkpoint_of db.checkpoints (map (λ r. r.partition_key) rows)
                      r.partition_key,
                ))
            | inr st ↦ inr st
          ])
          a) in
    subst
      (λ l.
        (distinct_ids (raw_batch_insert db.raw l).1 ≡ 0)
        × ((raw_batch_insert db.raw l).0 ≡ db.raw)
        × (db.metrics ++ filter (λ m. id_in m.event_id (raw_batch_insert db.raw l).1) metric_rows
            ≡ db.metrics))
      (sym none_new)
      (
        unfold distinct_ids in refl,
        refl,
        rw (filter_none metric_rows) (append-nil {A = MetricInsertRow} db.metrics),
      )

-- Where a batch was persisted, persisting the same events again inserts nothing and leaves the raw
-- table and the metrics as they are.
pub persist_batch-again :
    (limits : BatchLimits) (db db' db'' : HistorianTables) (events : List RawInsertRow)
    (result again : BatchPersistResult)
    → persist_batch limits db events ≡ ok (db', result)
    → persist_batch limits db' events ≡ ok (db'', again)
    → (again.inserted_count ≡ 0) × (db''.raw ≡ db'.raw) × (db''.metrics ≡ db'.metrics)
unfolding persist_batch
persist_batch-again limits db db' db'' events result again h h' =
    let rows = sorted row_leb events in
    elim (Result-cases (all_metric_rows limits rows)) [
      | inl (metric_rows, e) ↦
          let first : (persist_rows db rows metric_rows).0 ≡ db' = ground (arith, e) in
          let second : persist_rows db' rows metric_rows ≡ (db'', again) = ground (arith, e) in
          subst (λ r. (r.1.inserted_count ≡ 0) × (r.0.raw ≡ db'.raw) × (r.0.metrics ≡ db'.metrics))
            second
            (Done-again db' rows metric_rows (
              subst (λ d. All (Done d.checkpoints d.raw) rows) first
                (persist_rows-Done db rows metric_rows)))
      | inr (x, failed) ↦ absurd (ground (arith, failed))
    ]
