-- ===== src/Oee/Store.antt =====
-- The results on record: 12_uns_oee/src/uns_oee/store.py. The tables of the `oee` schema are lists of
-- rows, a statement is a function on them, and a transaction is the composition of its statements.
pub mod Rows
pub mod Manual
pub mod Revisions
pub mod History
pub mod Writes
pub mod Unique
use manufacturing_uns.Prelude.{
  [], ◌∷◌, none, some, true, false, String, ℕ, Bool, List, Option, ◌&&◌, ◌==◌, ◌+◌, ◌++◌, ◌-◌,
  if◌then◌else◌, not, any, filter, leb, ltb, map,
}
use manufacturing_uns.Oee.Interval.{Interval, duration}
use manufacturing_uns.Oee.Classifier.{ClassifiedStop, ManualReason, Source, auto, manual}
use manufacturing_uns.Oee.Calc.{ShiftMetrics, ProductMetrics, Ratio, Status}
use manufacturing_uns.Oee.Tables.{
  ShiftWindow, DowntimeEvent, ShiftResult, Database, revision_values, result_values, StoredResult,
  ResultValues, product_values, event_values,
}

unfoldable pub is_manual : Source → Bool
is_manual auto = false
is_manual manual = true

-- The unique constraint of `downtime_event`.
unfoldable pub same_event : DowntimeEvent → DowntimeEvent → Bool
same_event a b = a.oee_unit_id == b.oee_unit_id && a.started_at == b.started_at

-- What ON CONFLICT makes of the row on record: GEOMETRY_COLUMNS are those of the new row, and
-- REASON_COLUMNS stay where the row on record is manual.
unfoldable pub refreshed : DowntimeEvent → DowntimeEvent → DowntimeEvent
unfolding is_manual
refreshed stored excluded =
    let reasons = if is_manual stored.reason_source then stored else excluded in
    record {
      oee_unit_id = stored.oee_unit_id;
      shift_start = excluded.shift_start;
      started_at = stored.started_at;
      ended_at = excluded.ended_at;
      duration = excluded.duration;
      state_value = excluded.state_value;
      reason_code = reasons.reason_code;
      reason_source = reasons.reason_source;
      assigned_by = reasons.assigned_by;
      assigned_at = reasons.assigned_at;
      note = reasons.note;
    }

unfoldable pub upsert_event : List DowntimeEvent → DowntimeEvent → List DowntimeEvent
unfolding same_event refreshed
upsert_event [] e = e ∷ []
upsert_event (stored ∷ rest) e =
    if same_event stored e then refreshed stored e ∷ rest else stored ∷ upsert_event rest e

-- PostgreSQL refuses a statement with two rows of one key; the stops of a shift start at distinct
-- instants, so the order of the rows decides nothing.
unfoldable pub downtime_upsert : List DowntimeEvent → List DowntimeEvent → List DowntimeEvent
unfolding upsert_event
downtime_upsert events [] = events
downtime_upsert events (e ∷ rest) = downtime_upsert (upsert_event events e) rest

-- The WHERE of `downtime_auto_delete`.
unfoldable pub is_stale : ℕ → ℕ → List ℕ → DowntimeEvent → Bool
unfolding is_manual
is_stale unit_id shift_start keep_started_at e =
    e.oee_unit_id == unit_id
    && e.shift_start == shift_start
    && not (is_manual e.reason_source)
    && not (any (λ at. at == e.started_at) keep_started_at)

unfoldable pub downtime_auto_delete : ℕ → ℕ → List ℕ → List DowntimeEvent → List DowntimeEvent
unfolding is_stale
downtime_auto_delete unit_id shift_start keep_started_at events =
    filter (λ e. not (is_stale unit_id shift_start keep_started_at e)) events

-- The unique constraint of `shift_result`.
unfoldable pub is_of : ℕ → ℕ → ShiftResult → Bool
is_of unit_id shift_start r = r.values.oee_unit_id == unit_id && r.values.shift_start == shift_start

unfoldable pub find_result : ℕ → ℕ → List ShiftResult → Option ShiftResult
unfolding is_of
find_result unit_id shift_start [] = none
find_result unit_id shift_start (r ∷ rest) =
    if is_of unit_id shift_start r then some r else find_result unit_id shift_start rest

unfoldable pub as_stored : ShiftResult → StoredResult
as_stored r = record {
  result_id = r.id;
  revision = r.revision;
  input_fingerprint = r.values.input_fingerprint;
  published_at = r.values.published_at;
}

unfoldable pub existing : Database → ℕ → ℕ → Option StoredResult
unfolding find_result as_stored
existing db unit_id shift_start = elim (find_result unit_id shift_start db.results) [
  | none ↦ none
  | some r ↦ some (as_stored r)
]

unfoldable pub assigned_in : ℕ → ShiftWindow → DowntimeEvent → Bool
unfolding is_manual
assigned_in unit_id window e =
    e.oee_unit_id == unit_id
    && is_manual e.reason_source
    && leb window.start e.started_at
    && ltb e.started_at window.end

unfoldable pub reason_of : DowntimeEvent → ℕ × ManualReason
reason_of e = (
  e.started_at,
  record { reason_code = e.reason_code; note = some e.note; assigned_by = e.assigned_by },
)

unfoldable pub manual_in : ℕ → ShiftWindow → List DowntimeEvent → List (ℕ × ManualReason)
unfolding assigned_in reason_of
manual_in unit_id window events = map reason_of (filter (assigned_in unit_id window) events)

unfoldable pub manual_reasons : Database → ℕ → ShiftWindow → List (ℕ × ManualReason)
unfolding manual_in
manual_reasons db unit_id window = manual_in unit_id window db.events

-- UPDATE shift_result WHERE id = result_id.
unfoldable pub update_result : ℕ → (ShiftResult → ShiftResult) → List ShiftResult → List ShiftResult
update_result result_id change [] = []
update_result result_id change (r ∷ rest) =
    (if r.id == result_id then change r else r) ∷ update_result result_id change rest

-- The two branches of `save` on the row on record: what it writes to the results and the revisions,
-- and the id and the revision it has written.
unfoldable pub write_result : Database → ResultValues → Database × (ℕ × ℕ)
unfolding find_result revision_values update_result
write_result db values = elim (find_result values.oee_unit_id values.shift_start db.results) [
  | none ↦ (
    record db {
      results = db.results ++ record { id = db.last_id + 1; values = values; revision = 1 } ∷ [];
      last_id = db.last_id + 1;
    },
    (db.last_id + 1, 1),
  )
  | some stored ↦ (
    record db {
      results =
          update_result stored.id
            (λ r. record { id = r.id; values = values; revision = stored.revision + 1 }) db.results;
      revisions = db.revisions ++ revision_values stored ∷ [];
      products = filter (λ p. not (p.shift_result_id == stored.id)) db.products;
    },
    (stored.id, stored.revision + 1),
  )
]

unfoldable pub save :
    Database
    → ℕ
    → ShiftWindow
    → ShiftMetrics
    → List ClassifiedStop
    → String
    → ℕ
    → Database × StoredResult
unfolding result_values write_result product_values event_values downtime_upsert
    downtime_auto_delete
save db unit_id window metrics stops fingerprint computed_at =
    let (written, (result_id, revision)) =
      write_result db (result_values unit_id window metrics fingerprint computed_at) in
    (
      record written {
        products = written.products ++ product_values result_id metrics.products;
        events =
            downtime_auto_delete unit_id window.start (map (λ stop. stop.interval.start) stops)
              (downtime_upsert written.events (event_values unit_id window.start stops));
      },
      record {
        result_id = result_id;
        revision = revision;
        input_fingerprint = fingerprint;
        published_at = none;
      },
    )

unfoldable pub mark_published : Database → ℕ → ℕ → Database
unfolding update_result
mark_published db result_id published_at = record db {
  results =
      update_result result_id
        (λ r. record r { values = record r.values { published_at = some published_at } })
        db.results;
}
