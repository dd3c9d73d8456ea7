-- ===== src/Oee/Interval/Canonical.antt =====
-- Whether the canonical form that `merge` of 12_uns_oee/src/uns_oee/states.py returns depends on more
-- than the instants covered.
use manufacturing_uns.Oee.Interval.Combine.{covers-nil}
use manufacturing_uns.Prelude.{
  refl, [], ◌∷◌, ℕ, suc, List, ◌≡◌, ◌<◌, ◌≤◌, ◌↔◌, ◌∷◌, true, false, arith, sym, ◌&&◌, leb, ◌∙◌, ap,
}
use manufacturing_uns.Oee.Interval.{Interval, merge}
use manufacturing_uns.Oee.Interval.Cover.{contains, covers, Follows}
use manufacturing_uns.Oee.Interval.Merge.{merge-covers, merge-IsCanonical}
use manufacturing_uns.Oee.Interval.Measure.{Follows-covers}

abbrev SameCover : List Interval → List Interval → Type 0
SameCover is js = (t : ℕ) → covers is t ≡ covers js t

-- The first instant of a canonical list is covered, and its first end is not.
covers-start :
    (i : Interval) (is : List Interval) → i.start < i.end → covers (i ∷ is) i.start ≡ true
unfolding covers contains
covers-start i is h = ground arith

covers-end :
    (i : Interval) (is : List Interval) → Follows (suc i.end) is → covers (i ∷ is) i.end ≡ false
unfolding covers contains
covers-end i is h = ground (arith, Follows-covers (suc i.end) is i.end h)

covers-inside :
    (i : Interval) (is : List Interval) (t : ℕ) → i.start ≤ t → t < i.end → covers (i ∷ is) t ≡ true
unfolding covers contains
covers-inside i is t h k = ground arith

covers_from :
    (i : Interval) (is : List Interval) (t : ℕ)
    → Follows (suc i.end) is
    → covers is t ≡ (covers (i ∷ is) t && leb (suc i.end) t)
unfolding covers contains
covers_from i is t h = ground (arith, Follows-covers (suc i.end) is t h)

starts-le :
    (b : ℕ) (i j : Interval) (is js : List Interval)
    → i.start < i.end
    → Follows b (j ∷ js)
    → SameCover (i ∷ is) (j ∷ js)
    → j.start ≤ i.start
starts-le b i j is js n f h =
    Follows-covers j.start (j ∷ js) i.start (omega arith, f.1, f.2)
      (sym (h i.start) ∙ covers-start i is n)

ends-le :
    (i j : Interval) (is js : List Interval)
    → i.start ≤ j.end
    → j.start < j.end
    → Follows (suc j.end) js
    → SameCover (i ∷ is) (j ∷ js)
    → i.end ≤ j.end
ends-le i j is js s n f h = ground (arith, covers-inside i is j.end, h j.end, covers-end j js f)

interval_ext : (i j : Interval) → i.start ≡ j.start → i.end ≡ j.end → i ≡ j
interval_ext i j p q = λ k. record { start = p k; end = q k }

Follows-unique :
    (b c : ℕ) (is js : List Interval) → Follows b is → Follows c js → SameCover is js → is ≡ js
Follows-unique b c [] [] f g h = refl
Follows-unique b c (i ∷ is) [] f g h =
    ground (arith, h i.start, covers-start i is f.1, covers-nil i.start)
Follows-unique b c [] (j ∷ js) f g h =
    ground (arith, h j.start, covers-start j js g.1, covers-nil j.start)
Follows-unique b c (i ∷ is) (j ∷ js) f g h =
    let s : i.start ≡ j.start =
      omega (arith, starts-le c i j is js f.1 g h, starts-le b j i js is g.1 f (λ t. sym (h t))) in
    let e : i.end ≡ j.end = omega (
      arith,
      ends-le i j is js (omega arith) g.1 g.2 h,
      ends-le j i js is (omega arith) f.1 f.2 (λ t. sym (h t)),
    ) in
    let rest : SameCover is js =
      λ t. ground (arith, covers_from i is t f.2, covers_from j js t g.2, h t) in
    cc (interval_ext i j s e, Follows-unique (suc i.end) (suc j.end) is js f.2 g.2 rest)

-- Two lists of intervals are merged to the same list exactly when they cover the same instants.
pub merge_iff_covers :
    (is js : List Interval) → (merge is ≡ merge js) ↔ ((t : ℕ) → covers is t ≡ covers js t)
merge_iff_covers is js = (
  (λ h t. sym (merge-covers is t) ∙ ap (λ l. covers l t) h ∙ merge-covers js t),
  (λ h.
      Follows-unique 0 0 (merge is) (merge js) (merge-IsCanonical is) (merge-IsCanonical js)
        (λ t. merge-covers is t ∙ h t ∙ sym (merge-covers js t))),
)
