-- ===== src/Oee/Interval/Combine.antt =====
-- `intersect` and `subtract` of states.py as operations on the instants covered.
use manufacturing_uns.Prelude.{
  ℕ, ◌<◌, ◌≡◌, refl, false, not, ◌&&◌, ◌||◌, List, [], ◌∷◌, ◌++◌, All, any-append, arith, suc, ◌≤◌,
  Bool-cases, leb, inl, inr, ltb,
}
use manufacturing_uns.Oee.Interval.{
  Interval, clipped_to, prepend, overlaps_one, overlaps, intersect, cut_one, cut_all, subtract_cuts,
  subtract, merge,
}
use manufacturing_uns.Oee.Interval.Cover.{contains, covers, Follows, IsCanonical}
use manufacturing_uns.Oee.Interval.Merge.{merge-covers, merge-IsCanonical}

pub covers-append :
    (is js : List Interval) (t : ℕ) → covers (is ++ js) t ≡ (covers is t || covers js t)
unfolding covers
covers-append is js t = any-append (λ i. contains i t) is js

pub covers-cons :
    (i : Interval) (is : List Interval) (t : ℕ) → covers (i ∷ is) t ≡ (contains i t || covers is t)
unfolding covers
covers-cons i is t = refl

pub covers-nil : (t : ℕ) → covers [] t ≡ false
unfolding covers
covers-nil t = refl

-- A clip is the instants that both hold.
covers-clipped_to :
    (i j : Interval) (is : List Interval) (t : ℕ)
    → covers (prepend (clipped_to i j) is) t ≡ (contains i t && contains j t || covers is t)
unfolding covers contains prepend clipped_to
covers-clipped_to i j is t = ground arith

overlaps_one-covers :
    (one : Interval) (rs : List Interval) (t : ℕ)
    → covers (overlaps_one one rs) t ≡ (contains one t && covers rs t)
unfolding overlaps_one
overlaps_one-covers one [] t = ground (arith, covers-nil t)
overlaps_one-covers one (r ∷ rs) t = ground (
  arith,
  covers-clipped_to one r (overlaps_one one rs) t,
  overlaps_one-covers one rs t,
  covers-cons r rs t,
)

overlaps-covers :
    (ls rs : List Interval) (t : ℕ) → covers (overlaps ls rs) t ≡ (covers ls t && covers rs t)
unfolding overlaps
overlaps-covers [] rs t = ground (arith, covers-nil t)
overlaps-covers (l ∷ ls) rs t = ground (
  arith,
  covers-append (overlaps_one l rs) (overlaps ls rs) t,
  overlaps_one-covers l rs t,
  overlaps-covers ls rs t,
  covers-cons l ls t,
)

-- `intersect` covers exactly the instants that both of its arguments cover.
pub intersect-covers :
    (left right : List Interval) (t : ℕ)
    → covers (intersect left right) t ≡ (covers left t && covers right t)
unfolding intersect
intersect-covers left right t = ground (
  arith,
  merge-covers (overlaps (merge left) (merge right)) t,
  overlaps-covers (merge left) (merge right) t,
  merge-covers left t,
  merge-covers right t,
)

pub intersect-IsCanonical : (left right : List Interval) → IsCanonical (intersect left right)
unfolding intersect
intersect-IsCanonical left right = merge-IsCanonical (overlaps (merge left) (merge right))

cut_one-covers :
    (cut i : Interval) (t : ℕ)
    → cut.start < cut.end
    → covers (cut_one cut i) t ≡ (contains i t && not (contains cut t))
unfolding cut_one covers contains
cut_one-covers cut i t h = ground arith

cut_all-covers :
    (cut : Interval) (is : List Interval) (t : ℕ)
    → cut.start < cut.end
    → covers (cut_all cut is) t ≡ (covers is t && not (contains cut t))
unfolding cut_all
cut_all-covers cut [] t h = ground (arith, covers-nil t)
cut_all-covers cut (i ∷ is) t h = ground (
  arith,
  covers-append (cut_one cut i) (cut_all cut is) t,
  cut_one-covers cut i t,
  cut_all-covers cut is t,
  covers-cons i is t,
)

subtract_cuts-covers :
    (remaining cuts : List Interval) (t : ℕ)
    → All (λ i. i.start < i.end) cuts
    → covers (subtract_cuts remaining cuts) t ≡ (covers remaining t && not (covers cuts t))
unfolding subtract_cuts
subtract_cuts-covers remaining [] t h = ground (arith, covers-nil t)
subtract_cuts-covers remaining (cut ∷ cuts) t h = ground (
  arith,
  subtract_cuts-covers (cut_all cut remaining) cuts t h.1,
  cut_all-covers cut remaining t h.0,
  covers-cons cut cuts t,
)

Follows-nonempty : (b : ℕ) (is : List Interval) → Follows b is → All (λ i. i.start < i.end) is
Follows-nonempty b [] h = tt
Follows-nonempty b (i ∷ is) h = (h.1, Follows-nonempty (suc i.end) is h.2)

pub IsCanonical-nonempty : (is : List Interval) → IsCanonical is → All (λ i. i.start < i.end) is
IsCanonical-nonempty is h = Follows-nonempty 0 is h

-- `subtract` covers exactly the instants that its first argument covers and its second does not.
pub subtract-covers :
    (left right : List Interval) (t : ℕ)
    → covers (subtract left right) t ≡ (covers left t && not (covers right t))
unfolding subtract
subtract-covers left right t = ground (
  arith,
  subtract_cuts-covers (merge left) (merge right) t
      (IsCanonical-nonempty _ (merge-IsCanonical right)),
  merge-covers left t,
  merge-covers right t,
)

Follows-le : (b b' : ℕ) (is : List Interval) → b' ≤ b → Follows b is → Follows b' is
Follows-le b b' [] h k = tt
Follows-le b b' (i ∷ is) h k = (omega arith, k.1, k.2)

-- What a cut leaves of an interval fits before what follows the interval.
cut_one-Follows :
    (b : ℕ) (cut i : Interval) (is : List Interval)
    → b ≤ i.start
    → i.start < i.end
    → cut.start < cut.end
    → Follows (suc i.end) is
    → Follows b (cut_one cut i ++ is)
unfolding cut_one
cut_one-Follows b cut i is h k n f =
    elim (Bool-cases (leb cut.end i.start || leb i.end cut.start)) [
      | inl p ↦ rw p (h, k, f)
      | inr p ↦ elim (Bool-cases (ltb i.start cut.start)) [
        | inl q ↦ elim (Bool-cases (ltb cut.end i.end)) [
          | inl r ↦ rw (p, q, r) (h, ground arith, (ground arith, ground arith, f))
          | inr r ↦
              rw (p, q, r)
                (h, ground arith, Follows-le (suc i.end) (suc cut.start) is (ground arith) f)
        ]
        | inr q ↦ elim (Bool-cases (ltb cut.end i.end)) [
          | inl r ↦ rw (p, q, r) (ground arith, ground arith, f)
          | inr r ↦ rw (p, q, r) (Follows-le (suc i.end) b is (omega arith) f)
        ]
      ]
    ]

cut_all-Follows :
    (b : ℕ) (cut : Interval) (is : List Interval)
    → cut.start < cut.end
    → Follows b is
    → Follows b (cut_all cut is)
unfolding cut_all
cut_all-Follows b cut [] n h = tt
cut_all-Follows b cut (i ∷ is) n h =
    cut_one-Follows b cut i (cut_all cut is) h.0 h.1 n (cut_all-Follows (suc i.end) cut is n h.2)

subtract_cuts-IsCanonical :
    (remaining cuts : List Interval)
    → All (λ i. i.start < i.end) cuts
    → IsCanonical remaining
    → IsCanonical (subtract_cuts remaining cuts)
unfolding subtract_cuts
subtract_cuts-IsCanonical remaining [] n h = h
subtract_cuts-IsCanonical remaining (cut ∷ cuts) n h =
    subtract_cuts-IsCanonical (cut_all cut remaining) cuts n.1
      (cut_all-Follows 0 cut remaining n.0 h)

pub subtract-IsCanonical : (left right : List Interval) → IsCanonical (subtract left right)
unfolding subtract
subtract-IsCanonical left right =
    subtract_cuts-IsCanonical (merge left) (merge right)
      (IsCanonical-nonempty (merge right) (merge-IsCanonical right)) (merge-IsCanonical left)
