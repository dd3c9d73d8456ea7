-- ===== src/Oee/Calc.antt =====
-- The OEE arithmetic: 12_uns_oee/src/uns_oee/oee_calc.py. Durations and ideal cycle times are
-- microseconds, counts are units, and a factor is the exact fraction of which the source keeps the
-- float.
pub mod Time
pub mod Factors
pub mod Products
use manufacturing_uns.Prelude.{
  [], ◌∷◌, none, some, String, true, false, ℕ, Option, List, Bool, if◌then◌else◌, ◌*◌, ◌+◌, any,
  leb, ltb, ◌++◌, ◌||◌, filter,
}
use manufacturing_uns.Oee.Interval.{Interval, union_duration, intersect, subtract}
use manufacturing_uns.Oee.Classifier.{ClassifiedStop, planned_intervals, unplanned_intervals}

-- A fraction, as the operands of the source's division.
pub record Ratio : Type 0 where
  pub num : ℕ
  pub den : ℕ

pub data Status : Type 0 where
  ok : Status
  no_loading_time : Status
  no_production : Status
  missing_ideal_cycle_time : Status
  no_input_data : Status

pub record ProductSegment : Type 0 where
  pub product_code : Option String
  pub intervals : List Interval
  pub ideal_cycle_time : Option ℕ
  pub good_count : ℕ
  pub reject_count : ℕ

pub record ShiftInputs : Type 0 where
  pub window : Interval
  pub exception_intervals : List Interval
  pub classified_stops : List ClassifiedStop
  pub products : List ProductSegment
  pub has_input_data : Bool

pub record ProductMetrics : Type 0 where
  pub product_code : Option String
  pub run_time : ℕ
  pub good_count : ℕ
  pub reject_count : ℕ
  pub total_count : ℕ
  pub ideal_cycle_time : Option ℕ

pub record ShiftMetrics : Type 0 where
  pub loading_time : ℕ
  pub run_time : ℕ
  pub planned_down : ℕ
  pub unplanned_down : ℕ
  pub good_count : ℕ
  pub reject_count : ℕ
  pub total_count : ℕ
  pub availability : Option Ratio
  pub performance : Option Ratio
  pub performance_raw : Option Ratio
  pub quality : Option Ratio
  pub oee : Option Ratio
  pub status : Status
  pub products : List ProductMetrics
  pub missing_ideal : Bool
  pub performance_over_unity : Bool

-- The defaults of the dataclass.
abbrev pub no_metrics : ShiftMetrics
no_metrics = record {
  loading_time = 0;
  run_time = 0;
  planned_down = 0;
  unplanned_down = 0;
  good_count = 0;
  reject_count = 0;
  total_count = 0;
  availability = none;
  performance = none;
  performance_raw = none;
  quality = none;
  oee = none;
  status = no_input_data;
  products = [];
  missing_ideal = false;
  performance_over_unity = false;
}

unfoldable pub total_count : ProductSegment → ℕ
total_count segment = segment.good_count + segment.reject_count

unfoldable pub product_metrics : List ProductSegment → List Interval → List ProductMetrics
unfolding total_count
product_metrics [] run = []
product_metrics (segment ∷ rest) run =
    record {
      product_code = segment.product_code;
      run_time = union_duration (intersect segment.intervals run);
      good_count = segment.good_count;
      reject_count = segment.reject_count;
      total_count = total_count segment;
      ideal_cycle_time = segment.ideal_cycle_time;
    }
    ∷ product_metrics rest run

unfoldable pub sum_by : (ProductMetrics → ℕ) → List ProductMetrics → ℕ
sum_by f [] = 0
sum_by f (item ∷ rest) = f item + sum_by f rest

-- `any(item.ideal_cycle_time_s is None for item in producing)`.
unfoldable pub lacks_ideal : List ProductMetrics → Bool
lacks_ideal items = any (λ item. elim item.ideal_cycle_time [ none ↦ true | some _ ↦ false ]) items

-- `(item.ideal_cycle_time_s or 0.0) * item.total_count`.
unfoldable pub ideal_time : ProductMetrics → ℕ
ideal_time item = elim item.ideal_cycle_time [ none ↦ 0 | some cycle ↦ cycle * item.total_count ]

unfoldable pub raw_performance : List ProductMetrics → ℕ → ℕ → Option Ratio × Bool
unfolding sum_by lacks_ideal ideal_time
raw_performance products run_time total =
    if leb run_time 0 || leb total 0
    then (none, false)
    else let producing = filter (λ item. ltb 0 item.total_count) products in
      if lacks_ideal producing
      then (none, true)
      else (some (record { num = sum_by ideal_time producing; den = run_time }), false)

-- `performance_raw > _PERFORMANCE_CEILING`, the ceiling being one.
unfoldable pub above_one : Ratio → Bool
above_one r = ltb r.den r.num

-- `min(performance_raw, _PERFORMANCE_CEILING)`.
unfoldable pub clamp : Ratio → Ratio
unfolding above_one
clamp r = if above_one r then record { num = 1; den = 1 } else r

unfoldable pub times : Ratio → Ratio → Ratio
times a b = record { num = a.num * b.num; den = a.den * b.den }

-- `None` where performance or quality is.
unfoldable pub product_of : Ratio → Option Ratio → Option Ratio → Option Ratio
unfolding times
product_of availability none quality = none
product_of availability (some performance) none = none
product_of availability (some performance) (some quality) =
    some (times (times availability performance) quality)

unfoldable pub status_of : Option Ratio → Option Ratio → Bool → Status
status_of performance none missing_ideal = no_production
status_of none (some quality) missing_ideal =
    if missing_ideal then missing_ideal_cycle_time else no_production
status_of (some performance) (some quality) missing_ideal =
    if missing_ideal then missing_ideal_cycle_time else ok

-- The intervals from which `compute` takes its times.
unfoldable pub planned_in_shift : ShiftInputs → List Interval
planned_in_shift inputs =
    intersect (inputs.exception_intervals ++ planned_intervals inputs.classified_stops)
      (inputs.window ∷ [])

unfoldable pub loading : ShiftInputs → List Interval
unfolding planned_in_shift
loading inputs = subtract (inputs.window ∷ []) (planned_in_shift inputs)

unfoldable pub unplanned_in_loading : ShiftInputs → List Interval
unfolding loading
unplanned_in_loading inputs =
    intersect (unplanned_intervals inputs.classified_stops) (loading inputs)

unfoldable pub run : ShiftInputs → List Interval
unfolding loading unplanned_in_loading
run inputs = subtract (loading inputs) (unplanned_in_loading inputs)

unfoldable pub optional_clamp : Option Ratio → Option Ratio
unfolding clamp
optional_clamp none = none
optional_clamp (some raw) = some (clamp raw)

unfoldable pub over_unity : Option Ratio → Bool
unfolding above_one
over_unity none = false
over_unity (some raw) = above_one raw

unfoldable pub quality_of : ℕ → ℕ → Option Ratio
quality_of good total = if ltb 0 total then some (record { num = good; den = total }) else none

-- The last part of `compute`, from its times and counts on.
unfoldable pub rate : ℕ → ℕ → ℕ → ℕ → List ProductMetrics → ShiftMetrics
unfolding raw_performance optional_clamp over_unity quality_of product_of status_of sum_by
rate planned_down loading_time unplanned_down run_time products =
    let good = sum_by (λ item. item.good_count) products in
    let reject = sum_by (λ item. item.reject_count) products in
    let total = good + reject in
    if leb loading_time 0
    then record no_metrics {
      planned_down = planned_down;
      good_count = good;
      reject_count = reject;
      total_count = total;
      status = no_loading_time;
      products = products;
    }
    else let availability : Ratio = record { num = run_time; den = loading_time } in
      let quality = quality_of good total in
      let (raw, missing) = raw_performance products run_time total in
      let performance = optional_clamp raw in
      record {
        loading_time = loading_time;
        run_time = run_time;
        planned_down = planned_down;
        unplanned_down = unplanned_down;
        good_count = good;
        reject_count = reject;
        total_count = total;
        availability = some availability;
        performance = performance;
        performance_raw = raw;
        quality = quality;
        oee = product_of availability performance quality;
        status = status_of performance quality missing;
        products = products;
        missing_ideal = missing;
        performance_over_unity = over_unity raw;
      }

unfoldable pub compute : ShiftInputs → ShiftMetrics
unfolding planned_in_shift loading unplanned_in_loading run product_metrics rate
compute inputs =
    if inputs.has_input_data
    then rate (union_duration (planned_in_shift inputs)) (union_duration (loading inputs))
        (union_duration (unplanned_in_loading inputs)) (union_duration (run inputs))
        (product_metrics inputs.products (run inputs))
    else no_metrics
