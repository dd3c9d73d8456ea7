-- ===== src/Oee/Counters.antt =====
-- Production counts from counter readings: 12_uns_oee/src/uns_oee/counters.py. A reading is an
-- integer in the unit in which the counter counts, where the source has a float.
pub mod Pairs
pub mod Split
pub mod Climb
use manufacturing_uns.Prelude.{
  [], ◌∷◌, none, some, ℕ, Bool, List, ltb, ◌+◌, length, last?, filter, ◌||◌, if◌then◌else◌, leb,
  ◌==◌, ◌&&◌,
}
use manufacturing_uns.Prelude.Sort.{sorted}
use manufacturing_uns.Prelude.Int.{ℤ, pos, negsuc, ◌-ℤ◌, pos_part, leb_ℤ}

pub record Sample : Type 0 where
  pub at : ℕ
  pub value : ℤ

pub record CounterDelta : Type 0 where
  pub total : ℕ
  pub resets : ℕ
  pub samples : ℕ

-- `order=True`: by time, then by value.
unfoldable pub sample_leb : Sample → Sample → Bool
sample_leb a b = ltb a.at b.at || a.at == b.at && leb_ℤ a.value b.value

-- The body of the loop of `counter_delta`.
unfoldable pub count_step : CounterDelta → Sample → Sample → CounterDelta
count_step d previous current = elim (current.value -ℤ previous.value) [
  | pos step ↦ record d { total = d.total + step }
  | negsuc _ ↦ record d { resets = d.resets + 1; total = d.total + pos_part current.value }
]

-- The loop over `zip(ordered, ordered[1:])`.
unfoldable pub count_steps : CounterDelta → List Sample → CounterDelta
unfolding count_step
count_steps d [] = d
count_steps d (previous ∷ []) = d
count_steps d (previous ∷ current ∷ rest) =
    count_steps (count_step d previous current) (current ∷ rest)

unfoldable pub counter_delta : List Sample → CounterDelta
unfolding count_steps sorted sample_leb
counter_delta samples =
    let ordered = sorted sample_leb samples in
    record (count_steps (record { total = 0; resets = 0; samples = 0 }) ordered) {
      samples = length ordered;
    }

-- `inside.insert(0, prior[-1])` under its three conditions.
unfoldable pub with_baseline : ℕ → List Sample → List Sample → List Sample
with_baseline start prior [] = []
with_baseline start prior (first ∷ inside) = elim (last? prior) [
  | none ↦ first ∷ inside
  | some baseline ↦ if ltb start first.at then baseline ∷ first ∷ inside else first ∷ inside
]

-- The samples that `counter_delta_in` hands to `counter_delta`.
unfoldable pub samples_in : List Sample → ℕ → ℕ → List Sample
unfolding with_baseline
samples_in ordered start end =
    with_baseline start (filter (λ s. ltb s.at start) ordered)
      (filter (λ s. leb start s.at && leb s.at end) ordered)

unfoldable pub counter_delta_in : List Sample → ℕ → ℕ → CounterDelta
unfolding counter_delta samples_in
counter_delta_in samples start end =
    counter_delta (samples_in (sorted sample_leb samples) start end)
