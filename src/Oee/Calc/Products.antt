-- ===== src/Oee/Calc/Products.antt =====
-- The per-product rows of `compute`.
use manufacturing_uns.Oee.Interval.Combine.{intersect-covers}
use manufacturing_uns.Oee.Calc.Factors.{rate-products}
use manufacturing_uns.Oee.Interval.Measure.{
  latest_end, covers-lt, EndsBy-latest_end, union_duration-congr, union_duration-count,
}
use manufacturing_uns.Oee.Interval.Cover.{covers}
use manufacturing_uns.Prelude.{
  [], ◌∷◌, true, false, refl, List, ℕ, ◌≡◌, if◌then◌else◌, ◌+◌, sym, ◌&&◌, arith, ◌<◌, Bool-cases,
  inl, ◌∙◌, inr, ap, &&-elim,
}
use manufacturing_uns.Prelude.Count.{sum_below, count_below-sum, count_below_none, sum_below-add}
use manufacturing_uns.Oee.Calc.{
  ShiftInputs, ProductSegment, compute, product_metrics, sum_by, run, Interval, intersect,
}
use manufacturing_uns.Oee.Calc.Time.{compute-rate, run_time_lem}

-- How many of the segments cover the instant.
unfoldable pub covering : List ProductSegment → ℕ → ℕ
covering [] t = 0
covering (s ∷ rest) t = (if covers s.intervals t then 1 else 0) + covering rest t

weight : List Interval → List ProductSegment → ℕ → ℕ
unfolding covering
weight run segments t = if covers run t then covering segments t else 0

weight-cons :
    (run : List Interval) (s : ProductSegment) (rest : List ProductSegment) (t : ℕ)
    → weight run (s ∷ rest) t
      ≡ (if covers s.intervals t && covers run t then 1 else 0) + weight run rest t
unfolding weight
weight-cons run s rest t = ground arith

weight-nil : (run : List Interval) (t : ℕ) → weight run [] t ≡ (if false then 1 else 0)
unfolding weight
weight-nil run t = ground arith

-- The run times of the rows add up to the running instants, each as often as products cover it.
segments-sum :
    (n : ℕ) (run : List Interval) (segments : List ProductSegment)
    → ((t : ℕ) → covers run t ≡ true → t < n)
    → sum_by (λ item. item.run_time) (product_metrics segments run)
      ≡ sum_below (weight run segments) n
unfolding sum_by product_metrics
segments-sum n run [] h =
    sym (count_below-sum (λ t. false) (weight run []) n (weight-nil run) ∙ count_below_none n)
segments-sum n run (s ∷ rest) h = omega (
  arith,
  union_duration-congr n (intersect s.intervals run) (λ t. covers s.intervals t && covers run t)
      (intersect-covers s.intervals run) (λ t k. h t ((&&-elim _ _ k).1)),
  count_below-sum (λ t. covers s.intervals t && covers run t)
      (λ t. if covers s.intervals t && covers run t then 1 else 0) n (λ t. refl),
  sum_below-add (λ t. if covers s.intervals t && covers run t then 1 else 0) (weight run rest)
      (weight run (s ∷ rest)) n (weight-cons run s rest),
  segments-sum n run rest h,
)

weight-one :
    (run : List Interval) (segments : List ProductSegment)
    → ((t : ℕ) → covers run t ≡ true → covering segments t ≡ 1)
    → (t : ℕ) → weight run segments t ≡ (if covers run t then 1 else 0)
unfolding weight
weight-one run segments h t = elim (Bool-cases (covers run t)) [
  | inl q ↦ rw q (h t q)
  | inr q ↦ rw q
]

-- For a shift with input data in which exactly one product segment covers each instant of run time:
-- the run times of the products add up to the run time of the shift.
pub compute-products_sum :
    (i : ShiftInputs)
    → i.has_input_data ≡ true
    → ((t : ℕ) → covers (run i) t ≡ true → covering i.products t ≡ 1)
    → sum_by (λ item. item.run_time) (compute i).products ≡ (compute i).run_time
compute-products_sum i given h =
    let n = latest_end (run i) in
    let lt : (t : ℕ) → covers (run i) t ≡ true → t < n =
      λ t. covers-lt n (run i) t (EndsBy-latest_end (run i)) in
    ap (λ m. sum_by (λ item. item.run_time) m.products) (compute-rate i given)
    ∙ ap (sum_by (λ item. item.run_time))
        (rate-products _ _ _ _ (product_metrics i.products (run i)))
    ∙ segments-sum n (run i) i.products lt
    ∙ count_below-sum (covers (run i)) (weight (run i) i.products) n
        (weight-one (run i) i.products h)
    ∙ sym (run_time_lem i given ∙ union_duration-count n (run i) (EndsBy-latest_end (run i)))
