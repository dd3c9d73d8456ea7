-- ===== src/Oee/Interval/Merge.antt =====
-- `merge` of states.py: the instants it covers and the form of its result.
use manufacturing_uns.Prelude.{
  ℕ, ◌<◌, ◌≤◌, max, ◌≡◌, refl, ◌∙◌, true, false, not, ◌||◌, List, [], ◌∷◌, leb, All, filter,
  Bool-cases, arith, inl, inr, All-map, suc,
}
use manufacturing_uns.Prelude.Sort.{sorted, IsSorted, any-sorted, All-sorted, sorted-IsSorted}
use manufacturing_uns.Oee.Interval.{
  Interval, interval_leb, is_empty, merge_from, merge_ordered, merge,
}
use manufacturing_uns.Oee.Interval.Cover.{contains, covers, Follows, IsCanonical, StartsFrom}

interval_leb_total : (a b : Interval) → interval_leb a b ≡ false → interval_leb b a ≡ true
unfolding interval_leb
interval_leb_total a b h = ground arith

interval_leb_trans :
    (a b c : Interval) → interval_leb a b ≡ true → interval_leb b c ≡ true → interval_leb a c ≡ true
unfolding interval_leb
interval_leb_trans a b c h k = ground arith

interval_leb-start : (a b : Interval) → interval_leb a b ≡ true → a.start ≤ b.start
unfolding interval_leb
interval_leb-start a b h = ground arith

StartsFrom-IsSorted :
    (s : ℕ) (is : List Interval)
    → All (λ i. s ≤ i.start) is
    → IsSorted interval_leb is
    → StartsFrom s is
StartsFrom-IsSorted s [] h k = tt
StartsFrom-IsSorted s (i ∷ is) h k =
    (h.0, StartsFrom-IsSorted i.start is (All-map _ _ is (λ j. interval_leb-start i j) k.0) k.1)

StartsFrom-le : (s s' : ℕ) (is : List Interval) → s' ≤ s → StartsFrom s is → StartsFrom s' is
StartsFrom-le s s' [] h k = tt
StartsFrom-le s s' (i ∷ is) h k = (omega arith, k.1)

-- An empty interval contains no instant.
contains-is_empty : (i : Interval) (t : ℕ) → is_empty i ≡ true → contains i t ≡ false
unfolding is_empty contains
contains-is_empty i t h = ground arith

covers-filter :
    (is : List Interval) (t : ℕ) → covers (filter (λ i. not (is_empty i)) is) t ≡ covers is t
unfolding covers
covers-filter [] t = refl
covers-filter (i ∷ is) t = ground (arith, contains-is_empty i t, covers-filter is t)

-- Two intervals that touch are one.
contains_join :
    (a b : Interval) (t : ℕ)
    → a.start ≤ b.start
    → b.start ≤ a.end
    → contains (record { start = a.start; end = max a.end b.end }) t
      ≡ (contains a t || contains b t)
unfolding contains
contains_join a b t h k = ground arith

merge_from-covers :
    (last : Interval) (is : List Interval) (t : ℕ)
    → StartsFrom last.start is
    → covers (merge_from last is) t ≡ (contains last t || covers is t)
unfolding merge_from covers
merge_from-covers last [] t h = refl
merge_from-covers last (i ∷ is) t h = elim (Bool-cases (leb i.start last.end)) [
  | inl p ↦
      rw (p, merge_from)
        (ground (
          arith,
          contains_join last i t,
          merge_from-covers (record { start = last.start; end = max last.end i.end }) is t
              (StartsFrom-le i.start last.start is h.0 h.1),
        ))
  | inr p ↦ rw (p, merge_from) (ground (arith, merge_from-covers i is t h.1))
]

merge_from-Follows :
    (b : ℕ) (last : Interval) (is : List Interval)
    → b ≤ last.start
    → last.start < last.end
    → All (λ i. i.start < i.end) is
    → Follows b (merge_from last is)
unfolding merge_from
merge_from-Follows b last [] h k n = (h, k, tt)
merge_from-Follows b last (i ∷ is) h k n = elim (Bool-cases (leb i.start last.end)) [
  | inl p ↦
      rw (p, merge_from)
        (merge_from-Follows b (record { start = last.start; end = max last.end i.end }) is h
          (omega arith) n.1)
  | inr p ↦ rw (p, merge_from) (h, k, merge_from-Follows (suc last.end) i is (ground arith) n.0 n.1)
]

filter_nonempty :
    (is : List Interval) → All (λ i. i.start < i.end) (filter (λ i. not (is_empty i)) is)
unfolding is_empty
filter_nonempty [] = tt
filter_nonempty (i ∷ is) = elim (Bool-cases (leb i.end i.start)) [
  | inl p ↦ rw p (filter_nonempty is)
  | inr p ↦ rw p (ground arith, filter_nonempty is)
]

merge_ordered-covers :
    (is : List Interval) (t : ℕ)
    → IsSorted interval_leb is
    → covers (merge_ordered is) t ≡ covers is t
unfolding merge_ordered covers
merge_ordered-covers [] t h = refl
merge_ordered-covers (i ∷ is) t h =
    merge_from-covers i is t
      (StartsFrom-IsSorted i.start is (All-map _ _ is (λ j. interval_leb-start i j) h.0) h.1)

merge_ordered-IsCanonical :
    (is : List Interval) → All (λ i. i.start < i.end) is → IsCanonical (merge_ordered is)
unfolding merge_ordered
merge_ordered-IsCanonical [] h = tt
merge_ordered-IsCanonical (i ∷ is) h = merge_from-Follows 0 i is (omega arith) h.0 h.1

any-sorted-covers : (is : List Interval) (t : ℕ) → covers (sorted interval_leb is) t ≡ covers is t
unfolding covers
any-sorted-covers is t = any-sorted interval_leb (λ i. contains i t) is

-- For every list of intervals, in any order, with overlaps, repetitions and empty or inverted
-- intervals in it, `merge` covers exactly the instants that the list covers.
pub merge-covers : (is : List Interval) (t : ℕ) → covers (merge is) t ≡ covers is t
unfolding merge
merge-covers is t =
    merge_ordered-covers (sorted interval_leb (filter (λ i. not (is_empty i)) is)) t (
      sorted-IsSorted interval_leb interval_leb_total interval_leb_trans
        (filter (λ i. not (is_empty i)) is))
    ∙ any-sorted-covers (filter (λ i. not (is_empty i)) is) t
    ∙ covers-filter is t

-- For every list of intervals, the result of `merge` is in canonical form: each interval is
-- non-empty, they stand in order of time, and between any two there is a gap.
pub merge-IsCanonical : (is : List Interval) → IsCanonical (merge is)
unfolding merge
merge-IsCanonical is =
    merge_ordered-IsCanonical _ (All-sorted interval_leb _ _ (filter_nonempty is))
