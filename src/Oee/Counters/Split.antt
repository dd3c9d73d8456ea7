-- ===== src/Oee/Counters/Split.antt =====
-- `counter_delta_in` of 12_uns_oee/src/uns_oee/counters.py over adjoining windows.
use manufacturing_uns.Prelude.Sort.{IsSorted, sorted_of_IsSorted}
use manufacturing_uns.Prelude.{
  [], ◌∷◌, refl, ℕ, List, ◌≤◌, ◌<◌, if◌then◌else◌, suc, ltb, ◌≡◌, filter, ◌+◌, arith, leb, ◌&&◌,
  Bool-cases, lt→ltb, inl, lt→leb, inr, leb→le, le→leb, ◌∙◌, Bool, last?, some, All, ltb→lt,
  Option-cases, All-last, true, filter-All,
}
use manufacturing_uns.Oee.Counters.{
  Sample, with_baseline, samples_in, sample_leb, sorted, counter_delta_in, counter_delta,
}
use manufacturing_uns.Oee.Counters.Pairs.{
  pair_sum, gain, count_steps-gains, drop, count_steps-drops,
}

-- Readings in order of time, no two at one instant, the first at `m` or later.
abbrev pub TimesFrom : ℕ → List Sample → Type 0
TimesFrom m [] = Unit
TimesFrom m (s ∷ r) = (m ≤ s.at) × TimesFrom (suc s.at) r

-- The sum over the pairs whose later reading lies after `start` and not after `end`.
pairs_in : (Sample → Sample → ℕ) → ℕ → ℕ → List Sample → ℕ
pairs_in f start end [] = 0
pairs_in f start end (p ∷ []) = 0
pairs_in f start end (p ∷ c ∷ r) =
    (if ltb start c.at && leb c.at end then f p c else 0) + pairs_in f start end (c ∷ r)

pairs_in-split :
    (f : Sample → Sample → ℕ) (a b c : ℕ) (l : List Sample)
    → a ≤ b
    → b ≤ c
    → pairs_in f a b l + pairs_in f b c l ≡ pairs_in f a c l
unfolding pairs_in
pairs_in-split f a b c [] h k = refl
pairs_in-split f a b c (p ∷ []) h k = refl
pairs_in-split f a b c (p ∷ q ∷ r) h k = ground (arith, pairs_in-split f a b c (q ∷ r) h k)

pairs_in_after :
    (f : Sample → Sample → ℕ) (a b m : ℕ) (l : List Sample)
    → TimesFrom m l
    → b < m
    → pairs_in f a b l ≡ 0
unfolding pairs_in
pairs_in_after f a b m [] h k = refl
pairs_in_after f a b m (p ∷ []) h k = refl
pairs_in_after f a b m (p ∷ q ∷ r) h k = ground (arith, pairs_in_after f a b (suc p.at) (q ∷ r) h.1)

filter_before :
    (a m : ℕ) (l : List Sample) → TimesFrom m l → a ≤ m → filter (λ s. ltb s.at a) l ≡ []
filter_before a m [] h k = refl
filter_before a m (p ∷ r) h k = ground (arith, filter_before a (suc p.at) r h.1)

filter_after :
    (a b m : ℕ) (l : List Sample)
    → TimesFrom m l
    → b < m
    → filter (λ s. leb a s.at && leb s.at b) l ≡ []
filter_after a b m [] h k = refl
filter_after a b m (p ∷ r) h k = ground (arith, filter_after a b (suc p.at) r h.1)

-- Behind a reading, the readings of the window contribute the pairs of the window.
inside-pair_sum :
    (f : Sample → Sample → ℕ) (a b m : ℕ) (p : Sample) (l : List Sample)
    → TimesFrom m l
    → a < m
    → pair_sum f (p ∷ filter (λ s. leb a s.at && leb s.at b) l) ≡ pairs_in f a b (p ∷ l)
unfolding pair_sum pairs_in
inside-pair_sum f a b m p [] h k = refl
inside-pair_sum f a b m p (c ∷ r) h k = elim (Bool-cases (leb c.at b)) [
  | inl q ↦ ground (arith, inside-pair_sum f a b (suc c.at) c r h.1)
  | inr q ↦ ground (
    arith,
    filter_after a b (suc c.at) r h.1,
    pairs_in_after f a b (suc c.at) (c ∷ r),
    pairs_in_after f a b c.at (c ∷ r) (omega arith, h.1),
  )
]

-- Before the window only the last reading matters.
samples_in_skip :
    (a b : ℕ) (p c : Sample) (r : List Sample)
    → p.at < a
    → c.at < a
    → samples_in (p ∷ c ∷ r) a b ≡ samples_in (c ∷ r) a b
unfolding samples_in
samples_in_skip a b p c r h k = rw (lt→ltb p.at a h, lt→ltb c.at a k, lt→leb a p.at h)

samples_in_cross :
    (a b : ℕ) (p c : Sample) (r : List Sample)
    → p.at < a
    → a ≤ c.at
    → TimesFrom c.at (c ∷ r)
    → samples_in (p ∷ c ∷ r) a b
      ≡ with_baseline a (p ∷ []) (filter (λ s. leb a s.at && leb s.at b) (c ∷ r))
unfolding samples_in
samples_in_cross a b p c r h k t =
    rw (lt→ltb p.at a h, lt→leb a p.at h, filter_before a c.at (c ∷ r) t k)

with_baseline_none : (a : ℕ) (l : List Sample) → with_baseline a [] l ≡ l
unfolding with_baseline
with_baseline_none a [] = refl
with_baseline_none a (s ∷ l) = refl

samples_in_from :
    (a b : ℕ) (p : Sample) (r : List Sample)
    → a ≤ p.at
    → TimesFrom p.at (p ∷ r)
    → samples_in (p ∷ r) a b ≡ filter (λ s. leb a s.at && leb s.at b) (p ∷ r)
unfolding samples_in with_baseline
samples_in_from a b p r h t =
    rw (filter_before a p.at (p ∷ r) t h)
      (with_baseline_none a (filter (λ s. leb a s.at && leb s.at b) (p ∷ r)))

pairs_in_skip :
    (f : Sample → Sample → ℕ) (a b : ℕ) (p c : Sample) (r : List Sample)
    → c.at < a
    → pairs_in f a b (c ∷ r) ≡ pairs_in f a b (p ∷ c ∷ r)
unfolding pairs_in
pairs_in_skip f a b p c r h = ground arith

sum_from :
    (f : Sample → Sample → ℕ) (a b : ℕ) (p : Sample) (r : List Sample)
    → a ≤ p.at
    → a ≤ b
    → TimesFrom p.at (p ∷ r)
    → pair_sum f (filter (λ s. leb a s.at && leb s.at b) (p ∷ r)) ≡ pairs_in f a b (p ∷ r)
sum_from f a b p r h k t = elim (Bool-cases (leb p.at b)) [
  | inl q ↦ rw (le→leb a p.at h, q) (inside-pair_sum f a b (suc p.at) p r t.1 (omega arith))
  | inr q ↦
      rw
        (
          filter_after a b p.at (p ∷ r) t (ground arith),
          pairs_in_after f a b p.at (p ∷ r) t (ground arith),
        )
        (unfold pair_sum in refl)
]

sum_cross :
    (f : Sample → Sample → ℕ) (a b : ℕ) (p c : Sample) (r : List Sample)
    → p.at < a
    → a ≤ c.at
    → a ≤ b
    → TimesFrom c.at (c ∷ r)
    → pair_sum f (with_baseline a (p ∷ []) (filter (λ s. leb a s.at && leb s.at b) (c ∷ r)))
      ≡ pairs_in f a b (p ∷ c ∷ r)
unfolding with_baseline pairs_in pair_sum
sum_cross f a b p c r g h k t = elim (Bool-cases (leb c.at b)) [
  | inl q ↦ ground (arith, inside-pair_sum f a b (suc c.at) c r t.1)
  | inr q ↦ ground (arith, filter_after a b (suc c.at) r t.1, pairs_in_after f a b c.at (c ∷ r))
]

-- The pairs that a window counts are those whose later reading lies in it, its start excluded.
samples_in-pair_sum :
    (f : Sample → Sample → ℕ) (a b m : ℕ) (l : List Sample)
    → TimesFrom m l
    → a ≤ b
    → pair_sum f (samples_in l a b) ≡ pairs_in f a b l
samples_in-pair_sum f a b m [] h k = unfold samples_in with_baseline pair_sum pairs_in in refl
samples_in-pair_sum f a b m (p ∷ []) h k =
    unfold samples_in with_baseline pair_sum pairs_in in ground arith
samples_in-pair_sum f a b m (p ∷ c ∷ r) h k = elim (Bool-cases (leb a p.at)) [
  | inl q ↦
      rw (samples_in_from a b p (c ∷ r) (leb→le a p.at q) (omega arith, h.1))
        (sum_from f a b p (c ∷ r) (leb→le a p.at q) k (omega arith, h.1))
  | inr q ↦ elim (Bool-cases (leb a c.at)) [
    | inl q' ↦
        rw (samples_in_cross a b p c r (ground arith) (leb→le a c.at q') (omega arith, h.1.1))
          (sum_cross f a b p c r (ground arith) (leb→le a c.at q') k (omega arith, h.1.1))
    | inr q' ↦ rw (samples_in_skip a b p c r (ground arith) (ground arith)) (
        samples_in-pair_sum f a b (suc p.at) (c ∷ r) h.1 k
        ∙ pairs_in_skip f a b p c r (ground arith))
  ]
]

TimesFrom-le : (m m' : ℕ) (l : List Sample) → m' ≤ m → TimesFrom m l → TimesFrom m' l
TimesFrom-le m m' [] h k = tt
TimesFrom-le m m' (s ∷ r) h k = (omega arith, k.1)

TimesFrom-filter :
    (p : Sample → Bool) (m : ℕ) (l : List Sample) → TimesFrom m l → TimesFrom m (filter p l)
TimesFrom-filter p m [] h = tt
TimesFrom-filter p m (s ∷ r) h = elim (Bool-cases (p s)) [
  | inl q ↦ rw q (h.0, TimesFrom-filter p (suc s.at) r h.1)
  | inr q ↦
      rw q
        (TimesFrom-le (suc s.at) m (filter p r) (omega arith) (TimesFrom-filter p (suc s.at) r h.1))
]

last-before :
    (a : ℕ) (l : List Sample) (s : Sample) → last? (filter (λ s. ltb s.at a) l) ≡ some s → s.at < a
last-before a l s h = ltb→lt s.at a (
    All-last (λ s. ltb s.at a ≡ true) (filter (λ s. ltb s.at a) l) s
      (filter-All (λ s. ltb s.at a) l) h)

with_baseline-TimesFrom :
    (a : ℕ) (prior inside : List Sample)
    → ((s : Sample) → last? prior ≡ some s → s.at < a)
    → TimesFrom a inside
    → TimesFrom 0 (with_baseline a prior inside)
unfolding with_baseline
with_baseline-TimesFrom a prior [] b h = tt
with_baseline-TimesFrom a prior (s ∷ r) b h = elim (Option-cases (last? prior)) [
  | inl e ↦ rw (e, with_baseline) (omega arith, h.1)
  | inr (x, e) ↦ elim (Bool-cases (ltb a s.at)) [
    | inl q ↦ rw (e, with_baseline, q) (omega arith, (omega (arith, b x e), h.1))
    | inr q ↦ rw (e, with_baseline, q) (omega arith, h.1)
  ]
]

TimesFrom-inside :
    (a b m : ℕ) (l : List Sample)
    → TimesFrom m l
    → TimesFrom a (filter (λ s. leb a s.at && leb s.at b) l)
TimesFrom-inside a b m [] h = tt
TimesFrom-inside a b m (s ∷ r) h = elim (Bool-cases (leb a s.at && leb s.at b)) [
  | inl q ↦ rw q (ground arith, TimesFrom-filter (λ s. leb a s.at && leb s.at b) (suc s.at) r h.1)
  | inr q ↦ rw q (TimesFrom-inside a b (suc s.at) r h.1)
]

samples_in-TimesFrom :
    (a b m : ℕ) (l : List Sample) → TimesFrom m l → TimesFrom 0 (samples_in l a b)
unfolding samples_in
samples_in-TimesFrom a b m l h =
    with_baseline-TimesFrom a (filter (λ s. ltb s.at a) l) _ (last-before a l)
      (TimesFrom-inside a b m l h)

TimesFrom-All :
    (s : Sample) (m : ℕ) (l : List Sample)
    → s.at < m
    → TimesFrom m l
    → All (λ x. sample_leb s x ≡ true) l
unfolding sample_leb
TimesFrom-All s m [] h k = tt
TimesFrom-All s m (x ∷ r) h k = (ground arith, TimesFrom-All s (suc x.at) r (omega arith) k.1)

TimesFrom-IsSorted : (m : ℕ) (l : List Sample) → TimesFrom m l → IsSorted sample_leb l
TimesFrom-IsSorted m [] h = tt
TimesFrom-IsSorted m (s ∷ r) h =
    (TimesFrom-All s (suc s.at) r (omega arith) h.1, TimesFrom-IsSorted (suc s.at) r h.1)

module _ (samples : List Sample) (distinct : TimesFrom 0 (sorted sample_leb samples)) where
  samples_in-sorted :
      (a b : ℕ)
      → sorted sample_leb (samples_in (sorted sample_leb samples) a b)
        ≡ samples_in (sorted sample_leb samples) a b
  samples_in-sorted a b =
      sorted_of_IsSorted sample_leb _
        (TimesFrom-IsSorted 0 _ (samples_in-TimesFrom a b 0 (sorted sample_leb samples) distinct))

  counter_delta_in-total :
      (a b : ℕ)
      → a ≤ b
      → (counter_delta_in samples a b).total ≡ pairs_in gain a b (sorted sample_leb samples)
  unfolding counter_delta_in counter_delta
  counter_delta_in-total a b h = rw (samples_in-sorted a b) (
      omega (
        arith,
        count_steps-gains (record { total = 0; resets = 0; samples = 0 })
            (samples_in (sorted sample_leb samples) a b),
        samples_in-pair_sum gain a b 0 (sorted sample_leb samples) distinct h,
      ))

  counter_delta_in-resets :
      (a b : ℕ)
      → a ≤ b
      → (counter_delta_in samples a b).resets ≡ pairs_in drop a b (sorted sample_leb samples)
  unfolding counter_delta_in counter_delta
  counter_delta_in-resets a b h = rw (samples_in-sorted a b) (
      omega (
        arith,
        count_steps-drops (record { total = 0; resets = 0; samples = 0 })
            (samples_in (sorted sample_leb samples) a b),
        samples_in-pair_sum drop a b 0 (sorted sample_leb samples) distinct h,
      ))

-- For readings no two of which stand at one instant, in any order, the counts of two adjoining
-- windows add up to the count of the window that they make up, and so do the resets: the increment
-- across the common bound is credited once, with a reading on the bound or without.
pub counter_delta_in-split :
    (samples : List Sample) (a b c : ℕ)
    → TimesFrom 0 (sorted sample_leb samples)
    → a ≤ b
    → b ≤ c
    → ((counter_delta_in samples a b).total + (counter_delta_in samples b c).total
        ≡ (counter_delta_in samples a c).total)
      × ((counter_delta_in samples a b).resets + (counter_delta_in samples b c).resets
          ≡ (counter_delta_in samples a c).resets)
counter_delta_in-split samples a b c d h k = (
  omega (
    arith,
    counter_delta_in-total samples d a b h,
    counter_delta_in-total samples d b c k,
    counter_delta_in-total samples d a c (omega arith),
    pairs_in-split gain a b c (sorted sample_leb samples) h k,
  ),
  omega (
    arith,
    counter_delta_in-resets samples d a b h,
    counter_delta_in-resets samples d b c k,
    counter_delta_in-resets samples d a c (omega arith),
    pairs_in-split drop a b c (sorted sample_leb samples) h k,
  ),
)
