-- ===== src/Datalake/Flush/Choose.antt =====
-- choose_flush_partition of 14_uns_datalake/src/uns_datalake/batch.py.
use manufacturing_uns.Prelude.{
  [], ◌∷◌, none, some, true, false, refl, inl, inr, List, ℕ, ◌≡◌, All, arith, ◌<◌, ◌≤◌, ◌⊎◌,
  Option-cases, Bool-cases, subst, leb, leb→le,
}
use manufacturing_uns.Prelude.Dict.{get}
use manufacturing_uns.Datalake.Batch.{
  PartitionKey, PartitionBuffer, BatchManager, key_eq, total_buffered_bytes, key_leb,
}
use manufacturing_uns.Datalake.Flush.{
  should_flush_partition, partition_needing_pressure_flush, oldest, candidates, ready_keys, min_key,
  choose_flush_partition,
}
use manufacturing_uns.Datalake.Batch.Valid.{key_eq→≡}

pub min_key-All {ℓ} :
    (P : PartitionKey → Type ℓ) (keys : List PartitionKey) (key : PartitionKey)
    → All P keys
    → min_key keys ≡ some key
    → P key
unfolding min_key
min_key-All P [] key h e = absurd (ground arith)
min_key-All P (k ∷ rest) key h e = elim (Option-cases (min_key rest)) [
  | inl q ↦ let same : k ≡ key = ground arith in subst P same h.0
  | inr (other, q) ↦ elim (Bool-cases (key_leb k other)) [
    | inl b ↦ let same : k ≡ key = ground arith in subst P same h.0
    | inr b ↦ min_key-All P rest key h.1 (ground arith)
  ]
]

min_key-none : (keys : List PartitionKey) → min_key keys ≡ none → keys ≡ []
unfolding min_key
min_key-none [] e = refl
min_key-none (k ∷ rest) e = absurd (ground arith)

pub ready_keys-All :
    (m : BatchManager) (buffers : List (PartitionKey × PartitionBuffer)) (now : ℕ)
    → All (λ key. should_flush_partition m key now ≡ true) (ready_keys m buffers now)
unfolding ready_keys
ready_keys-All m [] now = tt
ready_keys-All m ((key, b) ∷ rest) now = elim (Bool-cases (should_flush_partition m key now)) [
  | inl q ↦ rw q (q, ready_keys-All m rest now)
  | inr q ↦ rw q (ready_keys-All m rest now)
]

-- With no ready key no buffer that `get` finds is ready.
none_ready :
    (m : BatchManager) (buffers : List (PartitionKey × PartitionBuffer)) (now : ℕ)
    (key : PartitionKey) (b : PartitionBuffer)
    → ready_keys m buffers now ≡ []
    → get key_eq key buffers ≡ some b
    → should_flush_partition m key now ≡ false
unfolding ready_keys
none_ready m [] now key b h e = absurd (ground arith)
none_ready m ((j, x) ∷ rest) now key b h e = elim (Bool-cases (should_flush_partition m j now)) [
  | inl q ↦ absurd (ground arith)
  | inr q ↦ elim (Bool-cases (key_eq j key)) [
    | inl same ↦ subst (λ k. should_flush_partition m k now ≡ false) (key_eq→≡ j key same) q
    | inr other ↦ none_ready m rest now key b (ground arith) (ground arith)
  ]
]

absent-not_ready :
    (m : BatchManager) (now : ℕ) (key : PartitionKey)
    → get key_eq key m.buffers ≡ none
    → should_flush_partition m key now ≡ false
unfolding should_flush_partition
absent-not_ready m now key h = rw (h, should_flush_partition)

oldest-none : (l : List PartitionBuffer) → oldest l ≡ none → l ≡ []
unfolding oldest
oldest-none [] e = refl
oldest-none (b ∷ rest) e = absurd (ground arith)

pressure-some :
    (m : BatchManager) (key : PartitionKey)
    → partition_needing_pressure_flush m ≡ some key
    → m.limits.worker_max_buffered_bytes < total_buffered_bytes m
unfolding partition_needing_pressure_flush
pressure-some m key h = ground arith

pressure-none :
    (m : BatchManager)
    → partition_needing_pressure_flush m ≡ none
    → (total_buffered_bytes m ≤ m.limits.worker_max_buffered_bytes) ⊎ (candidates m.buffers ≡ [])
unfolding partition_needing_pressure_flush
pressure-none m h =
    elim (Bool-cases (leb (total_buffered_bytes m) m.limits.worker_max_buffered_bytes)) [
      | inl q ↦ inl (leb→le _ _ q)
      | inr q ↦ inr (oldest-none (candidates m.buffers) (ground arith))
    ]

-- A partition that is chosen must be flushed, by its own limits or because the worker holds too much.
pub choose_flush_partition_sound :
    (m : BatchManager) (now : ℕ) (key : PartitionKey)
    → choose_flush_partition m now ≡ some key
    → (should_flush_partition m key now ≡ true)
      ⊎ (m.limits.worker_max_buffered_bytes < total_buffered_bytes m)
unfolding choose_flush_partition
choose_flush_partition_sound m now key h =
    elim (Option-cases (min_key (ready_keys m m.buffers now))) [
      | inl q ↦ inr (pressure-some m key (ground arith))
      | inr (k, q) ↦
          let same : k ≡ key = ground arith in
          inl (
            subst (λ z. should_flush_partition m z now ≡ true) same
              (min_key-All (λ z. should_flush_partition m z now ≡ true) (ready_keys m m.buffers now)
                k (ready_keys-All m m.buffers now) q))
    ]

-- Where no partition is chosen none must be flushed by its own limits, and the worker holds no more
-- than it may or every buffer is empty.
pub choose_flush_partition_complete :
    (m : BatchManager) (now : ℕ)
    → choose_flush_partition m now ≡ none
    → ((key : PartitionKey) → should_flush_partition m key now ≡ false)
      × ((total_buffered_bytes m ≤ m.limits.worker_max_buffered_bytes)
          ⊎ (candidates m.buffers ≡ []))
unfolding choose_flush_partition
choose_flush_partition_complete m now h =
    elim (Option-cases (min_key (ready_keys m m.buffers now))) [
      | inl q ↦ (
        λ key. not_ready key (min_key-none (ready_keys m m.buffers now) q),
        pressure-none m (ground arith),
      )
      | inr (k, q) ↦ absurd (ground arith)
    ]
  where
    not_ready :
        (key : PartitionKey)
        → ready_keys m m.buffers now ≡ []
        → should_flush_partition m key now ≡ false
    not_ready key e = elim (Option-cases (get key_eq key m.buffers)) [
      | inl g ↦ absent-not_ready m now key g
      | inr (b, g) ↦ none_ready m m.buffers now key b e g
    ]
