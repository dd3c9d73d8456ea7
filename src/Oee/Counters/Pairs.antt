-- ===== src/Oee/Counters/Pairs.antt =====
-- The counts as sums over the pairs of consecutive readings.
use manufacturing_uns.Prelude.{[], ◌∷◌, ℕ, List, ◌≡◌, ◌+◌, arith, if◌then◌else◌}
use manufacturing_uns.Oee.Counters.{Sample, CounterDelta, count_step, count_steps, leb_ℤ, pos_part}
use manufacturing_uns.Prelude.Int.{◌-ℤ◌}

-- What one pair of readings adds to the total and to the resets.
unfoldable pub gain : Sample → Sample → ℕ
gain previous current =
    if leb_ℤ previous.value current.value
    then pos_part (current.value -ℤ previous.value)
    else pos_part current.value

unfoldable pub drop : Sample → Sample → ℕ
drop previous current = if leb_ℤ previous.value current.value then 0 else 1

-- The sum of a quantity over the pairs of consecutive readings.
unfoldable pub pair_sum : (Sample → Sample → ℕ) → List Sample → ℕ
pair_sum f [] = 0
pair_sum f (p ∷ []) = 0
pair_sum f (p ∷ c ∷ r) = f p c + pair_sum f (c ∷ r)

pub count_step-gain :
    (d : CounterDelta) (p c : Sample) → (count_step d p c).total ≡ d.total + gain p c
unfolding count_step gain
count_step-gain d p c = ground arith

pub count_step-drop :
    (d : CounterDelta) (p c : Sample) → (count_step d p c).resets ≡ d.resets + drop p c
unfolding count_step drop
count_step-drop d p c = ground arith

pub count_steps-gains :
    (d : CounterDelta) (l : List Sample) → (count_steps d l).total ≡ d.total + pair_sum gain l
unfolding count_steps pair_sum
count_steps-gains d [] = omega arith
count_steps-gains d (p ∷ []) = omega arith
count_steps-gains d (p ∷ c ∷ r) =
    omega (arith, count_steps-gains (count_step d p c) (c ∷ r), count_step-gain d p c)

pub count_steps-drops :
    (d : CounterDelta) (l : List Sample) → (count_steps d l).resets ≡ d.resets + pair_sum drop l
unfolding count_steps pair_sum
count_steps-drops d [] = omega arith
count_steps-drops d (p ∷ []) = omega arith
count_steps-drops d (p ∷ c ∷ r) =
    omega (arith, count_steps-drops (count_step d p c) (c ∷ r), count_step-drop d p c)
