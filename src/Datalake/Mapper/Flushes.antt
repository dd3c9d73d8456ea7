-- ===== src/Datalake/Mapper/Flushes.antt =====
-- The loop of `_flush_ready_partitions` ends.
use manufacturing_uns.Datalake.Flush.Choose.{min_key-All, ready_keys-All}
use manufacturing_uns.Datalake.Mapper.Safe.{key_eq_refl}
use manufacturing_uns.Datalake.Mapper.Loop.{flush_loop, next_key, freeze_partition}
use manufacturing_uns.Prelude.Dict.{erase}
use manufacturing_uns.Prelude.{
  [], ◌∷◌, none, some, inl, inr, List, ℕ, Bool-cases, ◌≡◌, length, arith, refl, ◌+◌, ◌⊎◌, subst,
  Option-cases, leb, true, ap, ◌<◌, sym, suc, ◌∙◌, zero, ◌≤◌, Option,
}
use manufacturing_uns.Datalake.Batch.{
  PartitionKey, PartitionBuffer, BatchManager, key_eq, pop_partition, FlushLimits, buffer_is_empty,
}
use manufacturing_uns.Datalake.Batch.Valid.{IsValid, AllBuffers, erase-AllBuffers}
use manufacturing_uns.Datalake.Flush.{
  choose_flush_partition, oldest, candidates, should_flush_partition,
  partition_needing_pressure_flush, min_key, start_key, ready_keys,
}
use manufacturing_uns.Datalake.Mapper.{DatalakeMapper, get}

-- There is a buffer under the key.
abbrev Present : PartitionKey → List (PartitionKey × PartitionBuffer) → Type 0
Present key buffers = (b : PartitionBuffer) × (get key_eq key buffers ≡ some b)

length-erase :
    (key : PartitionKey) (d : List (PartitionKey × PartitionBuffer)) (b : PartitionBuffer)
    → get key_eq key d ≡ some b
    → length d ≡ length (erase key_eq key d) + 1
length-erase key [] b h = absurd (ground arith)
length-erase key ((j, x) ∷ d) b h = elim (Bool-cases (key_eq j key)) [
  | inl q ↦ rw q (omega arith)
  | inr q ↦ rw q (omega (arith, length-erase key d b (ground (arith, q))))
]

length-erase-le :
    (key : PartitionKey) (d : List (PartitionKey × PartitionBuffer))
    → length (erase key_eq key d) ≤ length d
length-erase-le key [] = omega arith
length-erase-le key ((j, x) ∷ d) = elim (Bool-cases (key_eq j key)) [
  | inl q ↦ rw q (omega arith)
  | inr q ↦ rw q (omega (arith, length-erase-le key d))
]

Present-later :
    (key j : PartitionKey) (x : PartitionBuffer) (d : List (PartitionKey × PartitionBuffer))
    → Present key d
    → Present key ((j, x) ∷ d)
Present-later key j x d (b, h) = elim (Bool-cases (key_eq j key)) [
  | inl q ↦ (x, rw q refl)
  | inr q ↦ (b, rw q h)
]

oldest_cases :
    (x b : PartitionBuffer) (rest : List PartitionBuffer)
    → oldest (x ∷ rest) ≡ some b
    → (x ≡ b) ⊎ (oldest rest ≡ some b)
unfolding oldest
oldest_cases x b rest h = elim (Option-cases (oldest rest)) [
  | inl q ↦ inl (ground (arith, q))
  | inr (other, q) ↦ elim (Bool-cases (leb (start_key x) (start_key other))) [
    | inl le ↦ inl (ground (arith, q))
    | inr gt ↦ inr (ground (arith, q))
  ]
]

Present-here :
    (key j : PartitionKey) (x : PartitionBuffer) (d : List (PartitionKey × PartitionBuffer))
    → key ≡ j
    → Present key ((j, x) ∷ d)
Present-here key j x d e = (x, rw (subst (λ z. key_eq j z ≡ true) (sym e) (key_eq_refl j)) refl)

oldest-Present :
    (l : FlushLimits) (d : List (PartitionKey × PartitionBuffer)) (b : PartitionBuffer)
    → AllBuffers l d
    → oldest (candidates d) ≡ some b
    → Present b.partition_key d
unfolding candidates
oldest-Present l [] b v h = unfold oldest in absurd (ground arith)
oldest-Present l ((j, x) ∷ d) b v h = elim (Bool-cases (buffer_is_empty x)) [
  | inl q ↦ Present-later b.partition_key j x d (oldest-Present l d b v.1 (ground (arith, q)))
  | inr q ↦ elim (oldest_cases x b (candidates d) (ground (arith, q))) [
    | inl e ↦ Present-here b.partition_key j x d (ap (λ z. z.partition_key) (sym e) ∙ v.0.same_key)
    | inr later ↦ Present-later b.partition_key j x d (oldest-Present l d b v.1 later)
  ]
]

ready-Present :
    (m : BatchManager) (now : ℕ) (key : PartitionKey)
    → should_flush_partition m key now ≡ true
    → Present key m.buffers
unfolding should_flush_partition
ready-Present m now key h = elim (Option-cases (get key_eq key m.buffers)) [
  | inl q ↦ absurd (ground (arith, q))
  | inr found ↦ found
]

pressed-Present :
    (m : BatchManager) (key : PartitionKey)
    → IsValid m
    → partition_needing_pressure_flush m ≡ some key
    → Present key m.buffers
unfolding partition_needing_pressure_flush
pressed-Present m key v h = elim (Option-cases (oldest (candidates m.buffers))) [
  | inl q ↦ absurd (ground (arith, q))
  | inr (b, q) ↦
      let same : b.partition_key ≡ key = ground (arith, q) in
      subst (λ z. Present z m.buffers) same (oldest-Present m.limits m.buffers b v.buffers q)
]

choose-Present :
    (m : BatchManager) (now : ℕ) (key : PartitionKey)
    → IsValid m
    → choose_flush_partition m now ≡ some key
    → Present key m.buffers
unfolding choose_flush_partition
choose-Present m now key v h = elim (Option-cases (min_key (ready_keys m m.buffers now))) [
  | inl q ↦ pressed-Present m key v (ground (arith, q))
  | inr (k, q) ↦
      let same : k ≡ key = ground (arith, q) in
      ready-Present m now key (
        subst (λ z. should_flush_partition m z now ≡ true) same
          (min_key-All (λ z. should_flush_partition m z now ≡ true) (ready_keys m m.buffers now) k
            (ready_keys-All m m.buffers now) q))
]

-- The mapper once a buffer is taken out.
abbrev popped : DatalakeMapper → PartitionKey → DatalakeMapper
popped m key = record m { batch = (pop_partition m.batch key).0 }

popped-IsValid :
    (m : DatalakeMapper) (key : PartitionKey) → IsValid m.batch → IsValid (popped m key).batch
unfolding pop_partition
popped-IsValid m key v = record {
  buffers = erase-AllBuffers m.batch.limits key m.batch.buffers v.buffers;
}

length-popped :
    (m : DatalakeMapper) (key : PartitionKey)
    → length (popped m key).batch.buffers ≤ length m.batch.buffers
unfolding pop_partition
length-popped m key = length-erase-le key m.batch.buffers

length-popped_found :
    (m : DatalakeMapper) (key : PartitionKey)
    → Present key m.batch.buffers
    → length (popped m key).batch.buffers < length m.batch.buffers
unfolding pop_partition
length-popped_found m key (b, h) = omega (arith, length-erase key m.batch.buffers b h)

-- One round, if the next ones end.
one_round :
    (fuel : ℕ) (m : DatalakeMapper) (forced : Option PartitionKey) (now : ℕ)
    → ((key : PartitionKey)
        → next_key m.batch forced now ≡ some key
        → (m' : DatalakeMapper) × (flush_loop fuel (popped m key) none now ≡ some m'))
    → (m' : DatalakeMapper) × (flush_loop (suc fuel) m forced now ≡ some m')
unfolding flush_loop
one_round fuel m forced now f = elim (Option-cases (next_key m.batch forced now)) [
  | inl q ↦ (m, ground (arith, q))
  | inr (key, q) ↦ elim (Bool-cases (buffer_is_empty (pop_partition m.batch key).1)) [
    | inl e ↦ let (m', h) = f key q in (m', ground (arith, q, e, h))
    | inr n ↦ (
      freeze_partition (popped m key) key (pop_partition m.batch key).1.records,
      ground (arith, q, n),
    )
  ]
]

flush_loop_total :
    (fuel : ℕ) (m : DatalakeMapper) (now : ℕ)
    → IsValid m.batch
    → length m.batch.buffers < fuel
    → (m' : DatalakeMapper) × (flush_loop fuel m none now ≡ some m')
unfolding next_key
flush_loop_total zero m now v h = absurd (omega arith)
flush_loop_total (suc fuel) m now v h = one_round fuel m none now λ key q.
    flush_loop_total fuel (popped m key) now (popped-IsValid m key v)
      (omega (arith, length-popped_found m key (choose-Present m.batch now key v q)))

-- The loop of `_flush_ready_partitions` ends on every valid batch, with or without a forced partition:
-- every round that goes on has taken a buffer out, so one more round than buffers is enough, and one
-- for the forced partition.
pub flush_ready_total :
    (m : DatalakeMapper) (forced : Option PartitionKey) (now : ℕ)
    → IsValid m.batch
    → (m' : DatalakeMapper) × (flush_loop (length m.batch.buffers + 2) m forced now ≡ some m')
flush_ready_total m forced now v =
    subst (λ n. (m' : DatalakeMapper) × (flush_loop n m forced now ≡ some m'))
      {x = suc (length m.batch.buffers + 1)} (omega arith)
      (one_round (length m.batch.buffers + 1) m forced now λ key q.
        flush_loop_total (length m.batch.buffers + 1) (popped m key) now (popped-IsValid m key v)
          (omega (arith, length-popped m key)))
