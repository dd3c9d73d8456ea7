-- ===== src/Oee/Inputs.antt =====
-- From the rows of a shift to the inputs of the calculation: the pure functions of
-- 12_uns_oee/src/uns_oee/pipeline.py, with UnitMasterData and ExceptionWindow of master_data.py. A
-- mapping is an association list; the key None of the cycle times is `default_cycle_time`.
use manufacturing_uns.Prelude.{
  [], ◌∷◌, none, some, String, ℕ, Bool, List, Option, ◌++◌, ◌+◌, map, filter, not, any, ◌==◌,
  if◌then◌else◌, true, ◌||◌, false,
}
use manufacturing_uns.Prelude.Result.{Result, ok, ◌>>=◌}
use manufacturing_uns.Prelude.Dict.{get}
use text.Mathlib.Text.{◌==◌ as str_eq}
use manufacturing_uns.Oee.Interval.{Interval, merge, subtract, union_duration}
use manufacturing_uns.Oee.States.{
  StateSample, StateSegment, StopInterval, state_segments, stop_intervals,
}
use manufacturing_uns.Oee.Counters.{Sample, counter_delta, counter_delta_in}
use manufacturing_uns.Oee.Classifier.{
  ReasonResolver, ManualReason, ClassifiedStop, ReasonError, classify, unclassified_code,
}
use manufacturing_uns.Oee.Calc.{ProductSegment, ShiftInputs}
use manufacturing_uns.Oee.Tables.{ShiftWindow}

pub record UnitMasterData : Type 0 where
  pub unit_id : ℕ
  pub asset_path : String
  pub producing_states : List String
  pub has_reject_ref : Bool
  pub has_product_ref : Bool
  pub ideal_cycle_times : List (String × ℕ)
  pub default_cycle_time : Option ℕ
  pub resolver : ReasonResolver

pub record ExceptionWindow : Type 0 where
  pub interval : Interval
  pub kind : String
  pub asset_path : Option String

pub record ShiftSamples : Type 0 where
  pub state : List StateSample
  pub good : List Sample
  pub reject : List Sample
  pub product : List StateSample

-- UNOBSERVED_STATE.
abbrev pub unobserved_state : String
unobserved_state = "UNKNOWN"

unfoldable pub counter_resets : ShiftSamples → ℕ
unfolding counter_delta
counter_resets samples = (counter_delta samples.good).resets + (counter_delta samples.reject).resets

unfoldable pub ideal_cycle_time_for : UnitMasterData → Option String → Option ℕ
ideal_cycle_time_for unit none = unit.default_cycle_time
ideal_cycle_time_for unit (some code) = elim (get str_eq code unit.ideal_cycle_times) [
  | none ↦ unit.default_cycle_time
  | some cycle ↦ some cycle
]

unfoldable pub exception_intervals : List ExceptionWindow → List Interval
unfolding merge
exception_intervals windows = merge (map (λ w. w.interval) windows)

unfoldable pub as_interval : ShiftWindow → Interval
as_interval window = record { start = window.start; end = window.end }

-- `sum(counter_delta_in(samples, i.start, i.end).total for i in intervals)`.
unfoldable pub counts_over : List Sample → List Interval → ℕ
unfolding counter_delta_in
counts_over samples [] = 0
counts_over samples (i ∷ rest) =
    (counter_delta_in samples i.start i.end).total + counts_over samples rest

-- `_segment`.
unfoldable pub segment_of :
    UnitMasterData → Option String → List Interval → ShiftSamples → ProductSegment
unfolding ideal_cycle_time_for counts_over
segment_of unit product_code intervals samples = record {
  product_code = product_code;
  intervals = intervals;
  ideal_cycle_time = ideal_cycle_time_for unit product_code;
  good_count = counts_over samples.good intervals;
  reject_count = counts_over samples.reject intervals;
}

-- `grouped.setdefault(code, []).append(interval)`.
unfoldable pub append_to :
    String → Interval → List (String × List Interval) → List (String × List Interval)
append_to code i [] = (code, i ∷ []) ∷ []
append_to code i ((key, intervals) ∷ rest) =
    if str_eq key code
    then (key, intervals ++ i ∷ []) ∷ rest
    else (key, intervals) ∷ append_to code i rest

unfoldable pub group_by_state :
    List (String × List Interval) → List StateSegment → List (String × List Interval)
unfolding append_to
group_by_state grouped [] = grouped
group_by_state grouped (segment ∷ rest) =
    group_by_state (append_to segment.state segment.interval grouped) rest

unfoldable pub segments_of_groups :
    UnitMasterData → ShiftSamples → List (String × List Interval) → List ProductSegment
unfolding segment_of merge
segments_of_groups unit samples [] = []
segments_of_groups unit samples ((code, intervals) ∷ rest) =
    segment_of unit (some code) (merge intervals) samples ∷ segments_of_groups unit samples rest

unfoldable pub is_empty_list {ℓ} : {A : Type ℓ} → List A → Bool
is_empty_list [] = true
is_empty_list (x ∷ xs) = false

unfoldable pub product_segments : UnitMasterData → ShiftWindow → ShiftSamples → List ProductSegment
unfolding as_interval segment_of is_empty_list group_by_state segments_of_groups state_segments
product_segments unit window samples =
    if not unit.has_product_ref || is_empty_list samples.product
    then segment_of unit none (as_interval window ∷ []) samples ∷ []
    else segments_of_groups unit samples
        (group_by_state [] (state_segments samples.product (as_interval window)))

-- `at in manual`.
unfoldable pub has_reason : List (ℕ × ManualReason) → ℕ → Bool
has_reason assigned at = any (λ entry. entry.0 == at) assigned

-- The part of the shift that no sample covers, without the gaps that open where a person has assigned
-- a reason.
unfoldable pub unobserved :
    Interval → List StateSegment → List (ℕ × ManualReason) → List StopInterval
unfolding has_reason subtract
unobserved whole segments assigned =
    map (λ gap. record { state = unobserved_state; interval = gap })
      (filter (λ gap. not (has_reason assigned gap.start))
        (subtract (whole ∷ []) (map (λ s. s.interval) segments)))

-- The stops of a shift, those of its gaps after the others.
unfoldable pub classified_stops_of :
    UnitMasterData
    → Interval
    → List StateSegment
    → List (ℕ × ManualReason)
    → Bool
    → Result ReasonError (List ClassifiedStop)
unfolding classify unobserved stop_intervals
classified_stops_of unit whole segments assigned has_input_data = do
  classified ← classify (stop_intervals segments unit.producing_states) unit.resolver assigned
  gaps ←
      classify (if has_input_data then unobserved whole segments assigned else []) unit.resolver []
  ok (classified ++ gaps)

unfoldable pub shift_inputs :
    UnitMasterData
    → ShiftWindow
    → ShiftSamples
    → List ExceptionWindow
    → List (ℕ × ManualReason)
    → Bool
    → Result ReasonError ShiftInputs
unfolding as_interval classified_stops_of exception_intervals product_segments state_segments
shift_inputs unit window samples exceptions assigned has_input_data = do
  classified ←
      classified_stops_of unit (as_interval window)
        (state_segments samples.state (as_interval window)) assigned has_input_data
  ok (record {
    window = as_interval window;
    exception_intervals = exception_intervals exceptions;
    classified_stops = classified;
    products = product_segments unit window samples;
    has_input_data = has_input_data;
  })

unfoldable pub unclassified_seconds : List ClassifiedStop → ℕ
unfolding union_duration
unclassified_seconds stops =
    union_duration (
      map (λ stop. stop.interval)
        (filter (λ stop. str_eq stop.reason_code unclassified_code) stops))
