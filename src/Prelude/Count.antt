-- ===== src/Prelude/Count.antt =====
-- The number of instants before a bound at which a test holds: a measure for sets of instants.
use Prim.Native.Nat.{ℕ, zero, suc, ◌+◌, ◌-◌, ◌≤◌, min}
use mathlib.Core.Path.{◌≡◌, refl}
use mathlib.Core.Bool.{Bool, false, ◌&&◌, ◌||◌}
use native.Mathlib.Omega.{arith}
use manufacturing_uns.Prelude.Tests.{if◌then◌else◌, ltb, leb}

pub count_below : (ℕ → Bool) → ℕ → ℕ
count_below p zero = 0
count_below p (suc n) = (if p n then 1 else 0) + count_below p n

pub count_below-congr :
    (p q : ℕ → Bool) (n : ℕ) → ((t : ℕ) → p t ≡ q t) → count_below p n ≡ count_below q n
unfolding count_below
count_below-congr p q zero h = refl
count_below-congr p q (suc n) h = ground (arith, h n, count_below-congr p q n h)

-- Disjoint tests add up.
pub count_below-or :
    (p q : ℕ → Bool) (n : ℕ)
    → ((t : ℕ) → (p t && q t) ≡ false)
    → count_below (λ t. p t || q t) n ≡ count_below p n + count_below q n
unfolding count_below
count_below-or p q zero h = refl
count_below-or p q (suc n) h = ground (arith, h n, count_below-or p q n h)

pub count_below_none : (n : ℕ) → count_below (λ t. false) n ≡ 0
unfolding count_below
count_below_none zero = refl
count_below_none (suc n) = omega (arith, count_below_none n)

-- A half-open range holds as many instants as its length, as far as the bound.
range_below : (s e n : ℕ) → count_below (λ t. leb s t && ltb t e) n ≡ min e n - s
unfolding count_below
range_below s e zero = omega arith
range_below s e (suc n) = ground (arith, range_below s e n)

pub count_below_range : (s e n : ℕ) → e ≤ n → count_below (λ t. leb s t && ltb t e) n ≡ e - s
count_below_range s e n k = omega (arith, range_below s e n)

-- The sum of a quantity over the instants before a bound.
pub sum_below : (ℕ → ℕ) → ℕ → ℕ
sum_below f zero = 0
sum_below f (suc n) = f n + sum_below f n

pub count_below-sum :
    (p : ℕ → Bool) (f : ℕ → ℕ) (n : ℕ)
    → ((t : ℕ) → f t ≡ (if p t then 1 else 0))
    → sum_below f n ≡ count_below p n
unfolding count_below sum_below
count_below-sum p f zero h = refl
count_below-sum p f (suc n) h = ground (arith, h n, count_below-sum p f n h)

pub sum_below-add :
    (f g h : ℕ → ℕ) (n : ℕ)
    → ((t : ℕ) → h t ≡ f t + g t)
    → sum_below h n ≡ sum_below f n + sum_below g n
unfolding sum_below
sum_below-add f g h zero e = refl
sum_below-add f g h (suc n) e = omega (arith, e n, sum_below-add f g h n e)

pub sum_below-zero : (n : ℕ) → sum_below (λ t. 0) n ≡ 0
unfolding sum_below
sum_below-zero zero = refl
sum_below-zero (suc n) = omega (arith, sum_below-zero n)
