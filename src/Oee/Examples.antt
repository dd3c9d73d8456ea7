-- ===== src/Oee/Examples.antt =====
-- Tests of the OEE engine by evaluation, and its theorems at concrete inputs: a shift of 480 units
-- of time with a planned exception, a planned and an unplanned stop, and two products.
use manufacturing_uns.Oee.States.Level.{level}
use manufacturing_uns.Oee.Calc.Time.{
  compute_adds_up, is_loading_at, is_stopped_at, compute_counts_instants, run-covers,
}
use manufacturing_uns.Oee.Interval.Canonical.{merge_iff_covers}
use manufacturing_uns.Oee.Calc.Products.{compute-products_sum, covering}
use manufacturing_uns.Oee.Interval.Measure.{union_duration-subtract}
use manufacturing_uns.Prelude.Count.{count_below}
use manufacturing_uns.Oee.Calc.Factors.{FactorsInRange, compute-FactorsInRange}
use manufacturing_uns.Oee.Classifier.Total.{IsComplete, AgreeAll, classify_total}
use manufacturing_uns.Oee.Counters.Split.{TimesFrom, counter_delta_in-split}
use manufacturing_uns.Oee.States.Segments.{state_in, state_segments-level}
use manufacturing_uns.Oee.Interval.Cover.{covers, contains}
use manufacturing_uns.Prelude.{
  [], ◌∷◌, none, some, true, false, refl, ℕ, List, ◌≡◌, ◌+◌, String, ◌↔◌, ◌&&◌, if◌then◌else◌,
  arith, Bool, not, ◌<◌, &&-elim, sym, ◌∙◌,
}
use manufacturing_uns.Prelude.Int.{pos}
use manufacturing_uns.Prelude.Result.{ok}
use manufacturing_uns.Prelude.Sort.{sorted}
use manufacturing_uns.Oee.Interval.{Interval, merge, union_duration, intersect, subtract, duration}
use manufacturing_uns.Oee.States.{
  StateSample, StopInterval, state_segments, stop_intervals, state_leb,
}
use manufacturing_uns.Oee.Counters.{Sample, counter_delta, counter_delta_in, sample_leb}
use manufacturing_uns.Oee.Classifier.{
  planned_intervals, unplanned_intervals, ReasonSpec, ManualReason, ReasonResolver, ClassifiedStop,
  classify, auto, manual,
}
use manufacturing_uns.Oee.Calc.{ShiftInputs, compute, missing_ideal_cycle_time, sum_by, run}

abbrev span : ℕ → ℕ → Interval
span s e = record { start = s; end = e }

abbrev scattered : List Interval
scattered = span 300 360 ∷ span 10 20 ∷ span 20 50 ∷ span 40 45 ∷ span 90 80 ∷ []

abbrev cuts : List Interval
cuts = span 15 30 ∷ span 350 400 ∷ []

merge-scattered : merge scattered ≡ span 10 50 ∷ span 300 360 ∷ []
unfolding merge
merge-scattered = refl

subtract-scattered : subtract scattered cuts ≡ span 10 15 ∷ span 30 50 ∷ span 300 350 ∷ []
unfolding subtract
subtract-scattered = refl

merge_iff_covers_example :
    (merge scattered ≡ merge (merge scattered))
    ↔ ((t : ℕ) → covers scattered t ≡ covers (merge scattered) t)
merge_iff_covers_example = merge_iff_covers scattered (merge scattered)

union_duration-subtract_example :
    union_duration (subtract scattered cuts) + union_duration (intersect scattered cuts)
    ≡ union_duration scattered
union_duration-subtract_example = union_duration-subtract scattered cuts

abbrev reports : List StateSample
reports =
    record { at = 200; state = "HELD" }
    ∷ record { at = 5; state = "EXECUTE" }
    ∷ record { at = 100; state = "EXECUTE" }
    ∷ record { at = 250; state = "EXECUTE" }
    ∷ []

segments-reports :
    stop_intervals (state_segments reports (span 10 300)) ("EXECUTE" ∷ [])
    ≡ record { state = "HELD"; interval = span 200 250 } ∷ []
unfolding stop_intervals state_segments
segments-reports = refl

state_segments-level_example :
    state_in (state_segments reports (span 10 300)) 220
    ≡ (if contains (span 10 300) 220 then level none (sorted state_leb reports) 220 else none)
state_segments-level_example = state_segments-level reports (span 10 300) 220 (omega arith)

abbrev readings : List Sample
readings =
    record { at = 30; value = pos 12 }
    ∷ record { at = 10; value = pos 5 }
    ∷ record { at = 40; value = pos 3 }
    ∷ record { at = 20; value = pos 9 }
    ∷ []

counter_delta-readings : counter_delta readings ≡ record { total = 10; resets = 1; samples = 4 }
unfolding counter_delta
counter_delta-readings = refl

readings_distinct : TimesFrom 0 (sorted sample_leb readings)
unfolding sorted sample_leb
readings_distinct = omega arith

counter_delta_in-split_example :
    ((counter_delta_in readings 15 25).total + (counter_delta_in readings 25 50).total
      ≡ (counter_delta_in readings 15 50).total)
    × ((counter_delta_in readings 15 25).resets + (counter_delta_in readings 25 50).resets
        ≡ (counter_delta_in readings 15 50).resets)
counter_delta_in-split_example =
    counter_delta_in-split readings 15 25 50 readings_distinct (omega arith) (omega arith)

abbrev reason : String → Bool → ReasonSpec
reason code planned = record {
  code = code;
  display_name = code;
  category = "plant";
  is_planned = planned;
}

abbrev vocabulary : List (String × ReasonSpec)
vocabulary =
    ("UNCLASSIFIED", reason "UNCLASSIFIED" false)
    ∷ ("BREAK", reason "BREAK" true)
    ∷ ("JAM", reason "JAM" false)
    ∷ []

abbrev resolver : ReasonResolver
resolver = record {
  reasons = vocabulary;
  unit_rules = ("HELD", "BREAK") ∷ [];
  default_rules = ("HELD", "JAM") ∷ ("ABORTED", "JAM") ∷ [];
}

abbrev stops : List StopInterval
stops =
    record { state = "HELD"; interval = span 30 60 }
    ∷ record { state = "ABORTED"; interval = span 100 130 }
    ∷ record { state = "IDLE"; interval = span 200 220 }
    ∷ []

abbrev assigned : List (ℕ × ManualReason)
assigned =
    (200, record { reason_code = "BREAK"; note = some "lunch"; assigned_by = some "op" }) ∷ []

resolver-IsComplete : IsComplete resolver
resolver-IsComplete = record {
  floor = (reason "UNCLASSIFIED" false, refl);
  unit = ((reason "BREAK" true, refl), tt);
  default = ((reason "JAM" false, refl), ((reason "JAM" false, refl), tt));
}

classify_total_example :
    (cs : List ClassifiedStop) × (classify stops resolver assigned ≡ ok cs)
    × AgreeAll resolver assigned stops cs
classify_total_example =
    classify_total stops resolver assigned resolver-IsComplete ((reason "BREAK" true, refl), tt)

abbrev classified : List ClassifiedStop
classified =
    record {
      interval = span 30 60;
      state_value = "HELD";
      reason_code = "BREAK";
      is_planned = true;
      source = auto;
      note = none;
      assigned_by = none;
    }
    ∷ record {
      interval = span 100 130;
      state_value = "ABORTED";
      reason_code = "JAM";
      is_planned = false;
      source = auto;
      note = none;
      assigned_by = none;
    }
    ∷ record {
      interval = span 200 220;
      state_value = "IDLE";
      reason_code = "BREAK";
      is_planned = true;
      source = manual;
      note = some "lunch";
      assigned_by = some "op";
    }
    ∷ []

classify-stops : classify stops resolver assigned ≡ ok classified
unfolding classify
classify-stops = refl

abbrev shift : ShiftInputs
shift = record {
  window = span 0 480;
  exception_intervals = span 50 110 ∷ [];
  classified_stops = classified;
  products =
      record {
        product_code = some "A";
        intervals = span 0 240 ∷ [];
        ideal_cycle_time = some 2;
        good_count = 70;
        reject_count = 5;
      }
      ∷ record {
        product_code = some "B";
        intervals = span 240 480 ∷ [];
        ideal_cycle_time = none;
        good_count = 40;
        reject_count = 0;
      }
      ∷ [];
  has_input_data = true;
}

compute-shift : (compute shift).loading_time ≡ 380
unfolding compute union_duration subtract intersect planned_intervals
compute-shift = refl

compute-shift_status : (compute shift).status ≡ missing_ideal_cycle_time
unfolding compute union_duration subtract intersect planned_intervals unplanned_intervals
compute-shift_status = refl

compute_adds_up_example :
    ((compute shift).loading_time + (compute shift).planned_down ≡ duration shift.window)
    × ((compute shift).run_time + (compute shift).unplanned_down ≡ (compute shift).loading_time)
compute_adds_up_example = compute_adds_up shift refl

compute_counts_instants_example :
    ((compute shift).loading_time ≡ count_below (is_loading_at shift) 480)
    × ((compute shift).run_time
        ≡ count_below (λ t. is_loading_at shift t && not (is_stopped_at shift t)) 480)
compute_counts_instants_example = compute_counts_instants shift refl

compute-FactorsInRange_example : FactorsInRange (compute shift)
compute-FactorsInRange_example = compute-FactorsInRange shift

loading_inside : (t : ℕ) → is_loading_at shift t ≡ true → t < 480
unfolding is_loading_at contains
loading_inside t h = ground arith

halves_cover : (t : ℕ) → covers (run shift) t ≡ true → covering shift.products t ≡ 1
unfolding covering covers contains
halves_cover t h = ground (
  arith,
  loading_inside t ((&&-elim _ (not (is_stopped_at shift t)) (sym (run-covers shift t) ∙ h)).0),
)

compute-products_sum_example :
    sum_by (λ item. item.run_time) (compute shift).products ≡ (compute shift).run_time
compute-products_sum_example = compute-products_sum shift refl halves_cover
