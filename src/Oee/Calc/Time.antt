-- ===== src/Oee/Calc/Time.antt =====
-- The times of `compute` against their definition instant by instant.
use manufacturing_uns.Oee.Interval.Measure.{union_duration-congr, subtract_part}
use manufacturing_uns.Oee.Interval.Combine.{intersect-covers, subtract-covers, covers-append}
use manufacturing_uns.Prelude.{
  [], ◌∷◌, true, not, ℕ, List, Bool, ◌≡◌, ◌&&◌, arith, ◌<◌, ◌||◌, &&-elim, ◌++◌, ◌+◌, Bool-cases,
  ◌≤◌, leb, inl, inr, ◌∙◌,
}
use manufacturing_uns.Prelude.Count.{count_below}
use manufacturing_uns.Oee.Interval.{Interval, union_duration, duration}
use manufacturing_uns.Oee.Interval.Cover.{contains, covers}
use manufacturing_uns.Oee.Classifier.{planned_intervals, unplanned_intervals}
use manufacturing_uns.Oee.Calc.{
  ShiftInputs, planned_in_shift, loading, unplanned_in_loading, run, ProductMetrics, compute, rate,
  product_metrics,
}

-- The instant lies in an exception or in a stop whose reason is planned.
unfoldable pub is_planned_at : ShiftInputs → ℕ → Bool
is_planned_at i t =
    covers i.exception_intervals t || covers (planned_intervals i.classified_stops) t

unfoldable pub is_loading_at : ShiftInputs → ℕ → Bool
unfolding is_planned_at
is_loading_at i t = contains i.window t && not (is_planned_at i t)

unfoldable pub is_stopped_at : ShiftInputs → ℕ → Bool
is_stopped_at i t = covers (unplanned_intervals i.classified_stops) t

covers-one : (w : Interval) (t : ℕ) → covers (w ∷ []) t ≡ contains w t
unfolding covers
covers-one w t = ground arith

planned_in_shift-covers :
    (i : ShiftInputs) (t : ℕ)
    → covers (planned_in_shift i) t ≡ (contains i.window t && is_planned_at i t)
unfolding planned_in_shift is_planned_at
planned_in_shift-covers i t = ground (
  arith,
  intersect-covers (i.exception_intervals ++ planned_intervals i.classified_stops) (i.window ∷ [])
      t,
  covers-append i.exception_intervals (planned_intervals i.classified_stops) t,
  covers-one i.window t,
)

loading-covers : (i : ShiftInputs) (t : ℕ) → covers (loading i) t ≡ is_loading_at i t
unfolding loading is_loading_at
loading-covers i t = ground (
  arith,
  subtract-covers (i.window ∷ []) (planned_in_shift i) t,
  planned_in_shift-covers i t,
  covers-one i.window t,
)

unplanned_in_loading-covers :
    (i : ShiftInputs) (t : ℕ)
    → covers (unplanned_in_loading i) t ≡ (is_loading_at i t && is_stopped_at i t)
unfolding unplanned_in_loading is_stopped_at
unplanned_in_loading-covers i t = ground (
  arith,
  intersect-covers (unplanned_intervals i.classified_stops) (loading i) t,
  loading-covers i t,
)

pub run-covers :
    (i : ShiftInputs) (t : ℕ) → covers (run i) t ≡ (is_loading_at i t && not (is_stopped_at i t))
unfolding run
run-covers i t = ground (
  arith,
  subtract-covers (loading i) (unplanned_in_loading i) t,
  unplanned_in_loading-covers i t,
  loading-covers i t,
)

contains-lt : (w : Interval) (t : ℕ) → contains w t ≡ true → t < w.end
unfolding contains
contains-lt w t h = ground arith

is_loading_at-lt : (i : ShiftInputs) (t : ℕ) → is_loading_at i t ≡ true → t < i.window.end
unfolding is_loading_at
is_loading_at-lt i t h = contains-lt i.window t ((&&-elim _ _ h).0)

module _ (p l u r : ℕ) (products : List ProductMetrics) where
  rate-planned_down : (rate p l u r products).planned_down ≡ p
  unfolding rate
  rate-planned_down = elim (Bool-cases (leb l 0)) [ inl q ↦ rw q | inr q ↦ rw q ]

  pub rate-loading_time : (rate p l u r products).loading_time ≡ l
  unfolding rate
  rate-loading_time = elim (Bool-cases (leb l 0)) [ inl q ↦ rw q (ground arith) | inr q ↦ rw q ]

  rate-unplanned_down : u ≤ l → (rate p l u r products).unplanned_down ≡ u
  unfolding rate
  rate-unplanned_down h = elim (Bool-cases (leb l 0)) [ inl q ↦ rw q (ground arith) | inr q ↦ rw q ]

  pub rate-run_time : r ≤ l → (rate p l u r products).run_time ≡ r
  unfolding rate
  rate-run_time h = elim (Bool-cases (leb l 0)) [ inl q ↦ rw q (ground arith) | inr q ↦ rw q ]

-- What is unplanned and what is run make up the loading time.
pub run-add :
    (i : ShiftInputs)
    → union_duration (run i) + union_duration (unplanned_in_loading i) ≡ union_duration (loading i)
unfolding run
run-add i =
    subtract_part (loading i) (unplanned_in_loading i)
      (λ t. ground (arith, unplanned_in_loading-covers i t, loading-covers i t))

loading-add :
    (i : ShiftInputs)
    → union_duration (loading i) + union_duration (planned_in_shift i)
      ≡ union_duration (i.window ∷ [])
unfolding loading
loading-add i =
    subtract_part (i.window ∷ []) (planned_in_shift i)
      (λ t. ground (arith, planned_in_shift-covers i t, covers-one i.window t))

union_duration-one : (w : Interval) → union_duration (w ∷ []) ≡ duration w
unfolding union_duration duration
union_duration-one w = ground arith

pub compute-rate :
    (i : ShiftInputs)
    → i.has_input_data ≡ true
    → compute i
      ≡ rate
          (union_duration (planned_in_shift i))
          (union_duration (loading i))
          (union_duration (unplanned_in_loading i))
          (union_duration (run i))
          (product_metrics i.products (run i))
unfolding compute
compute-rate i given = rw given

module _ (i : ShiftInputs) (given : i.has_input_data ≡ true) where
  loading_time_lem : (compute i).loading_time ≡ union_duration (loading i)
  loading_time_lem = rw (compute-rate i given) (rate-loading_time _ _ _ _ _)

  planned_down_lem : (compute i).planned_down ≡ union_duration (planned_in_shift i)
  planned_down_lem = rw (compute-rate i given) (rate-planned_down _ _ _ _ _)

  unplanned_down_lem : (compute i).unplanned_down ≡ union_duration (unplanned_in_loading i)
  unplanned_down_lem =
      rw (compute-rate i given) (rate-unplanned_down _ _ _ _ _ (omega (arith, run-add i)))

  pub run_time_lem : (compute i).run_time ≡ union_duration (run i)
  run_time_lem = rw (compute-rate i given) (rate-run_time _ _ _ _ _ (omega (arith, run-add i)))

-- For a shift with input data: the planned time and the loading time make up the window, and the
-- unplanned time and the run time make up the loading time, whatever overlaps the exceptions and
-- the stops have with each other and with the bounds of the window.
pub compute_adds_up :
    (i : ShiftInputs)
    → i.has_input_data ≡ true
    → ((compute i).loading_time + (compute i).planned_down ≡ duration i.window)
      × ((compute i).run_time + (compute i).unplanned_down ≡ (compute i).loading_time)
compute_adds_up i given = (
  omega (
    arith,
    loading_time_lem i given,
    planned_down_lem i given,
    loading-add i,
    union_duration-one i.window,
  ),
  omega (
    arith,
    loading_time_lem i given,
    run_time_lem i given,
    unplanned_down_lem i given,
    run-add i,
  ),
)

-- For a shift with input data: the loading time is the number of the instants of the window at which
-- neither an exception nor a planned stop stands, and the run time is the number of those at which
-- no unplanned stop stands either.
pub compute_counts_instants :
    (i : ShiftInputs)
    → i.has_input_data ≡ true
    → ((compute i).loading_time ≡ count_below (is_loading_at i) i.window.end)
      × ((compute i).run_time
          ≡ count_below (λ t. is_loading_at i t && not (is_stopped_at i t)) i.window.end)
compute_counts_instants i given = (
  loading_time_lem i given
      ∙ union_duration-congr i.window.end (loading i) (is_loading_at i) (loading-covers i)
          (is_loading_at-lt i),
  run_time_lem i given
      ∙ union_duration-congr i.window.end (run i)
          (λ t. is_loading_at i t && not (is_stopped_at i t)) (run-covers i)
          (λ t h. is_loading_at-lt i t ((&&-elim _ _ h).0)),
)
