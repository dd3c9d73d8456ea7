-- ===== src/Oee/Counters/Climb.antt =====
-- What `counter_delta` returns for a counter that only climbs, and when it reports resets.
use manufacturing_uns.Prelude.Int.{neg_part}
use manufacturing_uns.Prelude.{
  [], ◌∷◌, refl, true, List, ◌≡◌, arith, Bool-cases, ◌↔◌, ◌+◌, inl, inr,
}
use manufacturing_uns.Prelude.Sort.{sorted}
use manufacturing_uns.Oee.Counters.{Sample, sample_leb, counter_delta, leb_ℤ, pos_part}
use manufacturing_uns.Oee.Counters.Pairs.{
  gain, drop, pair_sum, count_steps-drops, count_steps-gains,
}

-- No reading is below the one before it.
abbrev pub Climbs : List Sample → Type 0
Climbs [] = Unit
Climbs (p ∷ []) = Unit
Climbs (p ∷ c ∷ r) = (leb_ℤ p.value c.value ≡ true) × Climbs (c ∷ r)

abbrev pub latest : Sample → List Sample → Sample
latest p [] = p
latest p (c ∷ r) = latest c r

gains_climb :
    (p : Sample) (r : List Sample)
    → Climbs (p ∷ r)
    → pos_part p.value + neg_part (latest p r).value + pair_sum gain (p ∷ r)
      ≡ pos_part (latest p r).value + neg_part p.value
unfolding pair_sum gain
gains_climb p [] h = omega arith
gains_climb p (c ∷ r) h = ground (arith, gains_climb c r h.1)

drops_climb : (l : List Sample) → Climbs l → pair_sum drop l ≡ 0
unfolding pair_sum drop
drops_climb [] h = refl
drops_climb (p ∷ []) h = refl
drops_climb (p ∷ c ∷ r) h = ground (arith, drops_climb (c ∷ r) h.1)

climb_of_drops : (l : List Sample) → pair_sum drop l ≡ 0 → Climbs l
unfolding pair_sum drop
climb_of_drops [] h = tt
climb_of_drops (p ∷ []) h = tt
climb_of_drops (p ∷ c ∷ r) h = elim (Bool-cases (leb_ℤ p.value c.value)) [
  | inl q ↦ (q, climb_of_drops (c ∷ r) (ground arith))
  | inr q ↦ absurd (ground arith)
]

-- `counter_delta` reports no reset exactly when the readings, in order of time, never go down.
pub resets_iff :
    (samples : List Sample)
    → ((counter_delta samples).resets ≡ 0) ↔ Climbs (sorted sample_leb samples)
unfolding counter_delta
resets_iff samples = (
  (λ h. climb_of_drops _ (
      omega (
        arith,
        count_steps-drops (record { total = 0; resets = 0; samples = 0 })
            (sorted sample_leb samples),
      ))),
  (λ h. omega (
    arith,
    count_steps-drops (record { total = 0; resets = 0; samples = 0 }) (sorted sample_leb samples),
    drops_climb (sorted sample_leb samples) h,
  )),
)

-- For readings that never go down, the total is the last reading less the first.
pub counter_delta_climb :
    (samples : List Sample) (first : Sample) (rest : List Sample)
    → sorted sample_leb samples ≡ first ∷ rest
    → Climbs (first ∷ rest)
    → pos_part first.value + neg_part (latest first rest).value + (counter_delta samples).total
      ≡ pos_part (latest first rest).value + neg_part first.value
unfolding counter_delta
counter_delta_climb samples first rest e h = rw e (
    omega (
      arith,
      count_steps-gains (record { total = 0; resets = 0; samples = 0 }) (first ∷ rest),
      gains_climb first rest h,
    ))
