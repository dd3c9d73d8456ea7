-- ===== src/Oee/Tables.antt =====
-- The rows of the `oee` schema and the values that 12_uns_oee/src/uns_oee/store.py writes to them, with
-- ShiftWindow of shift_calendar.py. A fingerprint is stored as its text, which the pipeline makes.
use manufacturing_uns.Prelude.{[], ◌∷◌, none, some, String, ℕ, List, Option, map}
use manufacturing_uns.Oee.Interval.{duration}
use manufacturing_uns.Oee.Classifier.{ClassifiedStop, Source}
use manufacturing_uns.Oee.Calc.{ShiftMetrics, ProductMetrics, Ratio, Status}

pub record ShiftWindow : Type 0 where
  pub start : ℕ
  pub end : ℕ
  pub label : String

pub record StoredResult : Type 0 where
  pub result_id : ℕ
  pub revision : ℕ
  pub input_fingerprint : String
  pub published_at : Option ℕ

-- The columns that `result_values` fills.
pub record ResultValues : Type 0 where
  pub oee_unit_id : ℕ
  pub shift_start : ℕ
  pub shift_end : ℕ
  pub shift_label : String
  pub loading_time : ℕ
  pub run_time : ℕ
  pub planned_down : ℕ
  pub unplanned_down : ℕ
  pub good_count : ℕ
  pub reject_count : ℕ
  pub total_count : ℕ
  pub availability : Option Ratio
  pub performance : Option Ratio
  pub performance_raw : Option Ratio
  pub quality : Option Ratio
  pub oee : Option Ratio
  pub status : Status
  pub input_fingerprint : String
  pub computed_at : ℕ
  pub published_at : Option ℕ

pub record ShiftResult : Type 0 where
  pub id : ℕ
  pub values : ResultValues
  pub revision : ℕ

pub record ShiftResultRevision : Type 0 where
  pub oee_unit_id : ℕ
  pub shift_start : ℕ
  pub revision : ℕ
  pub loading_time : ℕ
  pub run_time : ℕ
  pub good_count : ℕ
  pub reject_count : ℕ
  pub total_count : ℕ
  pub availability : Option Ratio
  pub performance : Option Ratio
  pub quality : Option Ratio
  pub oee : Option Ratio
  pub status : Status
  pub input_fingerprint : String
  pub computed_at : ℕ

pub record ShiftResultProduct : Type 0 where
  pub shift_result_id : ℕ
  pub product_code : String
  pub good_count : ℕ
  pub reject_count : ℕ
  pub total_count : ℕ
  pub ideal_cycle_time : Option ℕ

pub record DowntimeEvent : Type 0 where
  pub oee_unit_id : ℕ
  pub shift_start : ℕ
  pub started_at : ℕ
  pub ended_at : ℕ
  pub duration : ℕ
  pub state_value : String
  pub reason_code : String
  pub reason_source : Source
  pub assigned_by : Option String
  pub assigned_at : Option ℕ
  pub note : String

-- `last_id` is what the identity column of `shift_result` remembers.
pub record Database : Type 0 where
  pub results : List ShiftResult
  pub last_id : ℕ
  pub revisions : List ShiftResultRevision
  pub products : List ShiftResultProduct
  pub events : List DowntimeEvent

unfoldable pub result_values : ℕ → ShiftWindow → ShiftMetrics → String → ℕ → ResultValues
result_values unit_id window metrics fingerprint computed_at = record {
  oee_unit_id = unit_id;
  shift_start = window.start;
  shift_end = window.end;
  shift_label = window.label;
  loading_time = metrics.loading_time;
  run_time = metrics.run_time;
  planned_down = metrics.planned_down;
  unplanned_down = metrics.unplanned_down;
  good_count = metrics.good_count;
  reject_count = metrics.reject_count;
  total_count = metrics.total_count;
  availability = metrics.availability;
  performance = metrics.performance;
  performance_raw = metrics.performance_raw;
  quality = metrics.quality;
  oee = metrics.oee;
  status = metrics.status;
  input_fingerprint = fingerprint;
  computed_at = computed_at;
  published_at = none;
}

unfoldable pub revision_values : ShiftResult → ShiftResultRevision
revision_values stored = record {
  oee_unit_id = stored.values.oee_unit_id;
  shift_start = stored.values.shift_start;
  revision = stored.revision;
  loading_time = stored.values.loading_time;
  run_time = stored.values.run_time;
  good_count = stored.values.good_count;
  reject_count = stored.values.reject_count;
  total_count = stored.values.total_count;
  availability = stored.values.availability;
  performance = stored.values.performance;
  quality = stored.values.quality;
  oee = stored.values.oee;
  status = stored.values.status;
  input_fingerprint = stored.values.input_fingerprint;
  computed_at = stored.values.computed_at;
}

-- `x or ""`.
unfoldable pub or_empty : Option String → String
or_empty none = ""
or_empty (some text) = text

unfoldable pub product_values : ℕ → List ProductMetrics → List ShiftResultProduct
unfolding or_empty
product_values result_id [] = []
product_values result_id (item ∷ rest) =
    record {
      shift_result_id = result_id;
      product_code = or_empty item.product_code;
      good_count = item.good_count;
      reject_count = item.reject_count;
      total_count = item.total_count;
      ideal_cycle_time = item.ideal_cycle_time;
    }
    ∷ product_values result_id rest

-- One row of `event_values`.
unfoldable pub event_of : ℕ → ℕ → ClassifiedStop → DowntimeEvent
unfolding or_empty
event_of unit_id shift_start stop = record {
  oee_unit_id = unit_id;
  shift_start = shift_start;
  started_at = stop.interval.start;
  ended_at = stop.interval.end;
  duration = duration stop.interval;
  state_value = stop.state_value;
  reason_code = stop.reason_code;
  reason_source = stop.source;
  assigned_by = stop.assigned_by;
  assigned_at = none;
  note = or_empty stop.note;
}

unfoldable pub event_values : ℕ → ℕ → List ClassifiedStop → List DowntimeEvent
unfolding event_of
event_values unit_id shift_start stops = map (event_of unit_id shift_start) stops
