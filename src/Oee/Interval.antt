-- ===== src/Oee/Interval.antt =====
-- The interval algebra of 12_uns_oee/src/uns_oee/states.py. A time is the number of microseconds
-- since the first datetime, the resolution of Python's datetime, and a duration is a number of
-- microseconds where the source has the float seconds of the same span.
pub mod Cover
pub mod Merge
pub mod Combine
pub mod Measure
pub mod Canonical
use manufacturing_uns.Prelude.{
  ℕ, zero, suc, ◌+◌, ◌-◌, min, max, ◌≡◌, refl, Bool, true, false, not, ◌&&◌, ◌||◌, Option, none,
  some, List, [], ◌∷◌, ◌++◌, ltb, leb, ◌==◌, if◌then◌else◌, filter,
}
use manufacturing_uns.Prelude.Sort.{sorted}

-- Half-open: `end` is the first instant after it.
pub record Interval : Type 0 where
  pub start : ℕ
  pub end : ℕ

-- `order=True`: the fields are compared in turn.
unfoldable pub interval_leb : Interval → Interval → Bool
interval_leb a b = ltb a.start b.start || a.start == b.start && leb a.end b.end

-- `-` stops at 0, as `max(..., 0.0)` does.
unfoldable pub duration : Interval → ℕ
duration i = i.end - i.start

unfoldable pub is_empty : Interval → Bool
is_empty i = leb i.end i.start

unfoldable pub clipped_to : Interval → Interval → Option Interval
clipped_to i other =
    let start = max i.start other.start in
    let end = min i.end other.end in
    if leb end start then none else some (record { start = start; end = end })

-- The loop of `merge`: the first argument is `merged[-1]`, which is given out when the next
-- interval does not touch it.
unfoldable pub merge_from : Interval → List Interval → List Interval
merge_from last [] = last ∷ []
merge_from last (i ∷ is) = elim (leb i.start last.end) [
  | true ↦ merge_from (record { start = last.start; end = max last.end i.end }) is
  | false ↦ last ∷ merge_from i is
]

unfoldable pub merge_ordered : List Interval → List Interval
unfolding merge_from
merge_ordered [] = []
merge_ordered (i ∷ is) = merge_from i is

unfoldable pub merge : List Interval → List Interval
unfolding merge_ordered sorted interval_leb is_empty
merge is = merge_ordered (sorted interval_leb (filter (λ i. not (is_empty i)) is))

unfoldable pub sum_duration : List Interval → ℕ
unfolding duration
sum_duration [] = 0
sum_duration (i ∷ is) = duration i + sum_duration is

unfoldable pub union_duration : List Interval → ℕ
unfolding sum_duration merge
union_duration is = sum_duration (merge is)

unfoldable pub prepend : Option Interval → List Interval → List Interval
prepend none is = is
prepend (some i) is = i ∷ is

-- The comprehension of `intersect`: its inner and its outer loop.
unfoldable pub overlaps_one : Interval → List Interval → List Interval
unfolding clipped_to prepend
overlaps_one one [] = []
overlaps_one one (other ∷ rs) = prepend (clipped_to one other) (overlaps_one one rs)

unfoldable pub overlaps : List Interval → List Interval → List Interval
unfolding overlaps_one
overlaps [] rs = []
overlaps (one ∷ ls) rs = overlaps_one one rs ++ overlaps ls rs

unfoldable pub intersect : List Interval → List Interval → List Interval
unfolding overlaps merge
intersect left right = merge (overlaps (merge left) (merge right))

-- The body of the inner loop of `subtract`: what one cut leaves of one interval.
unfoldable pub cut_one : Interval → Interval → List Interval
cut_one cut i =
    if leb cut.end i.start || leb i.end cut.start
    then i ∷ []
    else (if ltb i.start cut.start then record { start = i.start; end = cut.start } ∷ [] else [])
      ++ (if ltb cut.end i.end then record { start = cut.end; end = i.end } ∷ [] else [])

unfoldable pub cut_all : Interval → List Interval → List Interval
unfolding cut_one
cut_all cut [] = []
cut_all cut (i ∷ is) = cut_one cut i ++ cut_all cut is

unfoldable pub subtract_cuts : List Interval → List Interval → List Interval
unfolding cut_all
subtract_cuts remaining [] = remaining
subtract_cuts remaining (cut ∷ cuts) = subtract_cuts (cut_all cut remaining) cuts

unfoldable pub subtract : List Interval → List Interval → List Interval
unfolding subtract_cuts merge
subtract left right = subtract_cuts (merge left) (merge right)
