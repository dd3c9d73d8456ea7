-- ===== src/Oee/Calc/Factors.antt =====
-- The four factors of `compute` and its status.
use manufacturing_uns.Prelude.{
  none, some, true, false, not, ◌≤◌, Option, arith, ◌<◌, ℕ, List, Bool-cases, ◌+◌, ltb, leb, inl,
  ◌||◌, inr, filter, ◌≡◌, Bool, if◌then◌else◌, ◌==◌, ◌↔◌, subst, sym, refl,
}
use manufacturing_uns.Oee.Calc.{
  Ratio, Status, ok, no_loading_time, no_production, missing_ideal_cycle_time, no_input_data,
  ShiftInputs, ShiftMetrics, ProductMetrics, rate, compute, sum_by, lacks_ideal, raw_performance,
  clamp, times, product_of, optional_clamp, quality_of, no_metrics, product_metrics, run, status_of,
}
use manufacturing_uns.Oee.Calc.Time.{compute-rate, run-add, rate-loading_time, rate-run_time}

-- A number from 0 to 1.
pub record IsUnit (r : Ratio) : Type 0 where
  pub at_most : r.num ≤ r.den
  pub defined : 0 < r.den

abbrev pub IsUnitOrNone : Option Ratio → Type 0
IsUnitOrNone none = Unit
IsUnitOrNone (some r) = IsUnit r

times-IsUnit : (a b : Ratio) → IsUnit a → IsUnit b → IsUnit (times a b)
unfolding times
times-IsUnit a b h k = record { at_most = grind arith; defined = grind arith }

clamp-IsUnit : (r : Ratio) → 0 < r.den → IsUnit (clamp r)
unfolding clamp
clamp-IsUnit r h = record { at_most = ground arith; defined = ground arith }

product_of-IsUnit :
    (a : Ratio) (p q : Option Ratio)
    → IsUnit a
    → IsUnitOrNone p
    → IsUnitOrNone q
    → IsUnitOrNone (product_of a p q)
unfolding product_of
product_of-IsUnit a none q h k n = tt
product_of-IsUnit a (some p) none h k n = tt
product_of-IsUnit a (some p) (some q) h k n = times-IsUnit (times a p) q (times-IsUnit a p h k) n

quality_of-IsUnit : (good reject : ℕ) → IsUnitOrNone (quality_of good (good + reject))
unfolding quality_of
quality_of-IsUnit good reject = elim (Bool-cases (ltb 0 (good + reject))) [
  | inl q ↦ rw q (record { at_most = omega arith; defined = ground arith })
  | inr q ↦ rw q tt
]

abbrev DefinedOrNone : Option Ratio → Type 0
DefinedOrNone none = Unit
DefinedOrNone (some r) = 0 < r.den

raw_performance-defined :
    (products : List ProductMetrics) (run_time total : ℕ)
    → DefinedOrNone ((raw_performance products run_time total).0)
unfolding raw_performance
raw_performance-defined products run_time total =
    elim (Bool-cases (leb run_time 0 || leb total 0)) [
      | inl q ↦ rw q tt
      | inr q ↦ elim (Bool-cases (lacks_ideal (filter (λ item. ltb 0 item.total_count) products))) [
        | inl l ↦ rw (q, l) tt
        | inr l ↦ rw (q, l) (ground arith)
      ]
    ]

optional_clamp-IsUnit : (raw : Option Ratio) → DefinedOrNone raw → IsUnitOrNone (optional_clamp raw)
unfolding optional_clamp
optional_clamp-IsUnit none h = tt
optional_clamp-IsUnit (some r) h = clamp-IsUnit r h

-- Each factor is absent or a number from 0 to 1.
pub record FactorsInRange (m : ShiftMetrics) : Type 0 where
  pub availability : IsUnitOrNone m.availability
  pub performance : IsUnitOrNone m.performance
  pub quality : IsUnitOrNone m.quality
  pub oee : IsUnitOrNone m.oee

rate-FactorsInRange :
    (p l u r : ℕ) (products : List ProductMetrics) → r ≤ l → FactorsInRange (rate p l u r products)
unfolding rate
rate-FactorsInRange p l u r products h =
    let good = sum_by (λ item. item.good_count) products in
    let reject = sum_by (λ item. item.reject_count) products in
    elim (Bool-cases (leb l 0)) [
      | inl q ↦ rw q (record { availability = tt; performance = tt; quality = tt; oee = tt })
      | inr q ↦
          let perf : IsUnitOrNone
              (optional_clamp ((raw_performance products r (good + reject)).0)) =
            optional_clamp-IsUnit _ (raw_performance-defined products r (good + reject)) in
          let avail : IsUnit (record { num = r; den = l }) = record {
            at_most = h;
            defined = ground arith;
          } in
          rw q (record {
            availability = avail;
            performance = perf;
            quality = quality_of-IsUnit good reject;
            oee =
                product_of-IsUnit (record { num = r; den = l }) _ _ avail perf
                  (quality_of-IsUnit good reject);
          })
    ]

compute-none : (i : ShiftInputs) → i.has_input_data ≡ false → compute i ≡ no_metrics
unfolding compute
compute-none i h = rw h

-- For all inputs: availability, performance, quality and OEE are each absent or a number from 0 to 1.
pub compute-FactorsInRange : (i : ShiftInputs) → FactorsInRange (compute i)
compute-FactorsInRange i = elim (Bool-cases i.has_input_data) [
  | inl given ↦ rw (compute-rate i given) (rate-FactorsInRange _ _ _ _ _ (omega (arith, run-add i)))
  | inr missing ↦
      rw (compute-none i missing)
        (record { availability = tt; performance = tt; quality = tt; oee = tt })
]

-- The cases of the specification's section 8.1, in the order in which they are reported.
unfoldable pub status_ladder : Bool → ℕ → ℕ → ℕ → Bool → Status
status_ladder given loading_time total run_time lacking =
    if not given
    then no_input_data
    else if loading_time == 0
    then no_loading_time
    else if total == 0 || run_time == 0
    then no_production
    else if lacking
    then missing_ideal_cycle_time
    else ok

-- A product that was made has no ideal cycle time.
unfoldable pub lacks_ideal_made : List ProductMetrics → Bool
unfolding lacks_ideal
lacks_ideal_made products = lacks_ideal (filter (λ item. ltb 0 item.total_count) products)

rate-status :
    (p l u r : ℕ) (products : List ProductMetrics)
    → (rate p l u r products).status
      ≡ status_ladder true l ((rate p l u r products).total_count) r (lacks_ideal_made products)
unfolding rate status_ladder lacks_ideal_made
rate-status p l u r products = elim (Bool-cases (leb l 0)) [
  | inl q ↦ rw q (ground arith)
  | inr q ↦ rw q (ground arith)
]

pub rate-products :
    (p l u r : ℕ) (products : List ProductMetrics) → (rate p l u r products).products ≡ products
unfolding rate
rate-products p l u r products = elim (Bool-cases (leb l 0)) [ inl q ↦ rw q | inr q ↦ rw q ]

rate-ladder :
    (p l u r : ℕ) (products : List ProductMetrics)
    → r ≤ l
    → (rate p l u r products).status
      ≡ status_ladder true
          ((rate p l u r products).loading_time)
          ((rate p l u r products).total_count)
          ((rate p l u r products).run_time)
          (lacks_ideal_made ((rate p l u r products).products))
rate-ladder p l u r products h =
    rw
      (
        rate-loading_time p l u r products,
        rate-run_time p l u r products h,
        rate-products p l u r products,
      )
      (rate-status p l u r products)

-- For all inputs: the status is the first case that applies, in this order: no input data, no
-- loading time, nothing produced or no run time, a product that was made and has no ideal cycle
-- time; and OK where none applies.
pub compute-status :
    (i : ShiftInputs)
    → (compute i).status
      ≡ status_ladder i.has_input_data
          (compute i).loading_time
          (compute i).total_count
          (compute i).run_time
          (lacks_ideal_made (compute i).products)
compute-status i = elim (Bool-cases i.has_input_data) [
  | inl given ↦
      subst
        (λ b.
          (compute i).status
          ≡ status_ladder b (compute i).loading_time (compute i).total_count (compute i).run_time
              (lacks_ideal_made (compute i).products))
        (sym given)
        (rw (compute-rate i given)
          (rate-ladder _ _ _ _ (product_metrics i.products (run i)) (omega (arith, run-add i))))
  | inr missing ↦
      subst
        (λ b.
          (compute i).status
          ≡ status_ladder b (compute i).loading_time (compute i).total_count (compute i).run_time
              (lacks_ideal_made (compute i).products))
        (sym missing) (rw (compute-none i missing) (unfold status_ladder in refl))
]

-- The end of `compute`: the status is OK exactly when there is an OEE.
end-status :
    (a : Ratio) (performance quality : Option Ratio) (missing : Bool)
    → (missing ≡ true → performance ≡ none)
    → (status_of performance quality missing ≡ ok)
      ↔ ((x : Ratio) × (product_of a performance quality ≡ some x))
unfolding status_of product_of
end-status a none none missing h = (λ k. absurd (ground arith), λ k. absurd (ground arith))
end-status a none (some q) missing h = (λ k. absurd (ground arith), λ k. absurd (ground arith))
end-status a (some p) none missing h = (λ k. absurd (ground arith), λ k. absurd (ground arith))
end-status a (some p) (some q) missing h = (λ k. (times (times a p) q, refl), λ k. ground arith)

missing-none :
    (products : List ProductMetrics) (run_time total : ℕ)
    → (raw_performance products run_time total).1 ≡ true
    → optional_clamp ((raw_performance products run_time total).0) ≡ none
unfolding raw_performance optional_clamp
missing-none products run_time total h = ground arith

rate-oee :
    (p l u r : ℕ) (products : List ProductMetrics)
    → ((rate p l u r products).status ≡ ok) ↔ ((x : Ratio) × ((rate p l u r products).oee ≡ some x))
unfolding rate
rate-oee p l u r products = elim (Bool-cases (leb l 0)) [
  | inl q ↦ rw q (λ k. absurd (ground arith), λ k. absurd (ground arith))
  | inr q ↦ rw q (
      end-status (record { num = r; den = l }) _ _ _
        (missing-none products r (
          sum_by (λ item. item.good_count) products + sum_by (λ item. item.reject_count) products)))
]

-- For all inputs: there is an OEE exactly when the status is OK.
pub compute-oee_iff :
    (i : ShiftInputs) → ((compute i).status ≡ ok) ↔ ((x : Ratio) × ((compute i).oee ≡ some x))
compute-oee_iff i = elim (Bool-cases i.has_input_data) [
  | inl given ↦ rw (compute-rate i given) (rate-oee _ _ _ _ (product_metrics i.products (run i)))
  | inr missing ↦
      rw (compute-none i missing) (λ k. absurd (ground arith), λ k. absurd (ground arith))
]
