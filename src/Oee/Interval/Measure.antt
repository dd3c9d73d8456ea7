-- ===== src/Oee/Interval/Measure.antt =====
-- Durations of states.py as numbers of instants.
use manufacturing_uns.Oee.Interval.Combine.{subtract-covers, intersect-covers}
use manufacturing_uns.Oee.Interval.Merge.{merge-IsCanonical, merge-covers}
use manufacturing_uns.Prelude.{
  ℕ, suc, ◌≤◌, max, ◌≡◌, sym, true, false, ◌&&◌, List, [], ◌∷◌, arith, ◌<◌, Bool, not, ◌∙◌, ◌-◌,
  ◌||◌, ◌+◌,
}
use manufacturing_uns.Prelude.Count.{
  count_below, count_below-or, count_below_none, count_below_range, count_below-congr,
}
use manufacturing_uns.Oee.Interval.{
  Interval, sum_duration, union_duration, merge, subtract, intersect,
}
use manufacturing_uns.Oee.Interval.Cover.{contains, covers, Follows, IsCanonical}

-- Every interval ends at the bound or before.
abbrev pub EndsBy : ℕ → List Interval → Type 0
EndsBy n [] = Unit
EndsBy n (i ∷ is) = (i.end ≤ n) × EndsBy n is

abbrev pub latest_end : List Interval → ℕ
latest_end [] = 0
latest_end (i ∷ is) = max i.end (latest_end is)

EndsBy-le : (m n : ℕ) (is : List Interval) → m ≤ n → EndsBy m is → EndsBy n is
EndsBy-le m n [] h k = tt
EndsBy-le m n (i ∷ is) h k = (omega arith, EndsBy-le m n is h k.1)

pub EndsBy-latest_end : (is : List Interval) → EndsBy (latest_end is) is
EndsBy-latest_end [] = tt
EndsBy-latest_end (i ∷ is) = (
  omega arith,
  EndsBy-le (latest_end is) (max i.end (latest_end is)) is (omega arith) (EndsBy-latest_end is),
)

-- What follows `b` covers nothing before it.
pub Follows-covers :
    (b : ℕ) (is : List Interval) (t : ℕ) → Follows b is → covers is t ≡ true → b ≤ t
unfolding covers contains
Follows-covers b [] t h k = ground arith
Follows-covers b (i ∷ is) t h k = ground (arith, Follows-covers (suc i.end) is t h.2)

contains-covers-disjoint :
    (i : Interval) (is : List Interval) (t : ℕ)
    → Follows (suc i.end) is
    → (contains i t && covers is t) ≡ false
unfolding contains
contains-covers-disjoint i is t h = ground (arith, Follows-covers (suc i.end) is t h)

-- The lengths of a canonical list add up to the number of the instants that it covers.
sum_duration-Follows :
    (b n : ℕ) (is : List Interval)
    → Follows b is
    → EndsBy n is
    → sum_duration is ≡ count_below (covers is) n
unfolding sum_duration covers contains
sum_duration-Follows b n [] h k = sym (count_below_none n)
sum_duration-Follows b n (i ∷ is) h k = ground (
  arith,
  count_below-or (contains i) (covers is) n (λ t. contains-covers-disjoint i is t h.2),
  count_below_range i.start i.end n k.0,
  sum_duration-Follows (suc i.end) n is h.2 k.1,
)

pub covers-lt : (n : ℕ) (is : List Interval) (t : ℕ) → EndsBy n is → covers is t ≡ true → t < n
unfolding covers contains
covers-lt n [] t h k = ground arith
covers-lt n (i ∷ is) t h k = ground (arith, covers-lt n is t h.1)

covers-last :
    (i : Interval) (is : List Interval) → i.start < i.end → covers (i ∷ is) (i.end - 1) ≡ true
unfolding covers contains
covers-last i is h = ground arith

covers-tail :
    (i : Interval) (is : List Interval) (t : ℕ) → covers is t ≡ true → covers (i ∷ is) t ≡ true
unfolding covers
covers-tail i is t h = ground arith

EndsBy-covers :
    (b n : ℕ) (is : List Interval)
    → Follows b is
    → ((t : ℕ) → covers is t ≡ true → t < n)
    → EndsBy n is
EndsBy-covers b n [] f h = tt
EndsBy-covers b n (i ∷ is) f h = (
  omega (arith, h (i.end - 1) (covers-last i is f.1)),
  EndsBy-covers (suc i.end) n is f.2 (λ t k. h t (covers-tail i is t k)),
)

-- The length of a canonical list is the number of instants of any test that agrees with its cover
-- and holds before the bound only.
sum_duration-count :
    (n : ℕ) (is : List Interval) (p : ℕ → Bool)
    → IsCanonical is
    → ((t : ℕ) → covers is t ≡ p t)
    → ((t : ℕ) → p t ≡ true → t < n)
    → sum_duration is ≡ count_below p n
sum_duration-count n is p c e h =
    sum_duration-Follows 0 n is c (EndsBy-covers 0 n is c (λ t k. h t (sym (e t) ∙ k)))
    ∙ count_below-congr (covers is) p n e

-- The duration of a list of intervals, in any order and with overlaps, is the number of instants
-- that at least one of them contains: counted up to any bound by which all the intervals end.
pub union_duration-count :
    (n : ℕ) (is : List Interval) → EndsBy n is → union_duration is ≡ count_below (covers is) n
unfolding union_duration
union_duration-count n is h =
    sum_duration-count n (merge is) (covers is) (merge-IsCanonical is) (merge-covers is)
      (λ t. covers-lt n is t h)

-- Lists that cover the same instants have the same duration.
pub union_duration-congr :
    (n : ℕ) (is : List Interval) (p : ℕ → Bool)
    → ((t : ℕ) → covers is t ≡ p t)
    → ((t : ℕ) → p t ≡ true → t < n)
    → union_duration is ≡ count_below p n
unfolding union_duration
union_duration-congr n is p e h =
    sum_duration-count n (merge is) p (merge-IsCanonical is) (λ t. merge-covers is t ∙ e t) h

split_disjoint : (a b : Bool) → ((a && not b) && (a && b)) ≡ false
split_disjoint a b = ground arith

split_join : (a b : Bool) → ((a && not b) || (a && b)) ≡ a
split_join a b = ground arith

-- What is subtracted and what is left of a list of intervals make up its duration: no instant is
-- lost and none is counted twice, whatever overlaps the two lists have.
pub union_duration-subtract :
    (left right : List Interval)
    → union_duration (subtract left right) + union_duration (intersect left right)
      ≡ union_duration left
union_duration-subtract left right =
    let n : ℕ = latest_end left in
    let below : (t : ℕ) → covers left t ≡ true → t < n =
      λ t. covers-lt n left t (EndsBy-latest_end left) in
    omega (
      arith,
      union_duration-congr n (subtract left right) (λ t. covers left t && not (covers right t))
          (subtract-covers left right) (λ t h. below t (ground arith)),
      union_duration-congr n (intersect left right) (λ t. covers left t && covers right t)
          (intersect-covers left right) (λ t h. below t (ground arith)),
      union_duration-congr n left
          (λ t. covers left t && not (covers right t) || covers left t && covers right t)
          (λ t. sym (split_join (covers left t) (covers right t))) (λ t h. below t (ground arith)),
      count_below-or (λ t. covers left t && not (covers right t))
          (λ t. covers left t && covers right t) n
          (λ t. split_disjoint (covers left t) (covers right t)),
    )

-- Lists that cover the same instants have the same duration.
pub union_duration_same :
    (is js : List Interval)
    → ((t : ℕ) → covers is t ≡ covers js t)
    → union_duration is ≡ union_duration js
union_duration_same is js h =
    union_duration-congr (latest_end js) is (covers js) h
      (λ t. covers-lt (latest_end js) js t (EndsBy-latest_end js))
    ∙ sym (union_duration-count (latest_end js) js (EndsBy-latest_end js))

-- A part of a list and what is left of the list make up its duration.
pub subtract_part :
    (whole part : List Interval)
    → ((t : ℕ) → covers part t ≡ (covers whole t && covers part t))
    → union_duration (subtract whole part) + union_duration part ≡ union_duration whole
subtract_part whole part h = omega (
  arith,
  union_duration-subtract whole part,
  union_duration_same part (intersect whole part) (λ t. h t ∙ sym (intersect-covers whole part t)),
)
