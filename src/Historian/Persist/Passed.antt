-- ===== src/Historian/Persist/Passed.antt =====
-- How the checkpoints of the historian move: the last loop of persist_batch and of
-- checkpoint_ignored_records of historian_handler.py.
use manufacturing_uns.Prelude.{
  [], ◌∷◌, none, some, inl, inr, List, ◌≡◌, ℕ, Option, true, All, Bool-cases, if-elim, arith, subst,
  All-append, ltb, sym, ◌≤◌, ◌==◌, ◌<◌, refl, ◌&&◌, leb, &&-elim, ◌∙◌,
}
use manufacturing_uns.Datalake.Batch.{PartitionKey, key_eq}
use manufacturing_uns.Datalake.Batch.Valid.{key_eq→≡}
use manufacturing_uns.Historian.Batch.{compute_next_offset}
use manufacturing_uns.Historian.Batch.Offset.{compute_next_offset-first, handled}
use manufacturing_uns.Historian.Persist.{
  add_handled, checkpoint_of, advance_checkpoint, advance_checkpoints, ensure_all, ensure,
}

-- A property of every offset that is handled, with its partition.
pub add_handled-All :
    (P : PartitionKey → ℕ → Type 0) (key : PartitionKey) (offset : ℕ)
    (d : List (PartitionKey × List ℕ))
    → P key offset
    → All (λ e. All (P e.0) e.1) d
    → All (λ e. All (P e.0) e.1) (add_handled key offset d)
unfolding add_handled
add_handled-All P key offset [] p ps = ((p, tt), tt)
add_handled-All P key offset ((k, offsets) ∷ d) p ps = elim (Bool-cases (key_eq k key)) [
  | inl q ↦ rw q (
    All-append (P k) offsets (offset ∷ []) ps.0
        (subst (λ z. P z offset) (sym (key_eq→≡ k key q)) p, tt),
    ps.1,
  )
  | inr q ↦ rw q (ps.0, add_handled-All P key offset d p ps.1)
]

-- Between the old and the new checkpoint every offset has its place.
abbrev pub Passed :
    (PartitionKey → ℕ → Type 0) → (PartitionKey → Option ℕ) → (PartitionKey → Option ℕ) → Type 0
Passed P old new =
    (key : PartitionKey)
    → (checkpoint_of old key ≤ checkpoint_of new key)
      × ((offset : ℕ)
          → checkpoint_of old key ≤ offset
          → offset < checkpoint_of new key
          → P key offset)

handled-All :
    (P : ℕ → Type 0) (offsets : List ℕ) (o : ℕ) → All P offsets → handled o offsets ≡ true → P o
handled-All P [] o a h = absurd (ground arith)
handled-All P (x ∷ offsets) o a h = elim (Bool-cases (x == o)) [
  | inl q ↦ let same : x ≡ o = ground (arith, q) in subst P same a.0
  | inr q ↦ handled-All P offsets o a.1 (ground (arith, q))
]

abbrev Between : (PartitionKey → ℕ → Type 0) → ℕ → PartitionKey → Option ℕ → Type 0
Between P old key new =
    let next : ℕ = elim new [ none ↦ 0 | some n ↦ n ] in
    (old ≤ next) × ((offset : ℕ) → old ≤ offset → offset < next → P key offset)

advance_checkpoint-Passed :
    (P : PartitionKey → ℕ → Type 0) (locked checkpoints : PartitionKey → Option ℕ)
    (key : PartitionKey) (offsets : List ℕ)
    → All (P key) offsets
    → Passed P locked checkpoints
    → Passed P locked (
        advance_checkpoint checkpoints key (compute_next_offset (checkpoint_of locked key) offsets))
unfolding advance_checkpoint checkpoint_of
advance_checkpoint-Passed P locked checkpoints key offsets a v k =
    let next = compute_next_offset (checkpoint_of locked key) offsets in
    let first = compute_next_offset-first (checkpoint_of locked key) offsets in
    if-elim (Between P (checkpoint_of locked k) k)
      (key_eq key k && leb (checkpoint_of checkpoints k) next) (some next) (checkpoints k)
      (λ q.
        subst (λ z. Between P (checkpoint_of locked z) z (some next))
          (key_eq→≡ key k (&&-elim _ _ q).0)
          (first.0, λ o h l. handled-All (P key) offsets o a (first.2 o h l)))
      (λ q. v k)

pub advance_checkpoints-Passed :
    (P : PartitionKey → ℕ → Type 0) (locked : PartitionKey → Option ℕ)
    (d : List (PartitionKey × List ℕ)) (checkpoints : PartitionKey → Option ℕ)
    → All (λ e. All (P e.0) e.1) d
    → Passed P locked checkpoints
    → Passed P locked (advance_checkpoints locked checkpoints d).0
unfolding advance_checkpoints
advance_checkpoints-Passed P locked [] checkpoints a v = v
advance_checkpoints-Passed P locked ((key, offsets) ∷ d) checkpoints a v =
    let next = compute_next_offset (checkpoint_of locked key) offsets in
    if-elim (λ (r : (PartitionKey → Option ℕ) × List (PartitionKey × ℕ)). Passed P locked r.0)
      (ltb (checkpoint_of locked key) next) _ _
      (λ q.
        advance_checkpoints-Passed P locked d (advance_checkpoint checkpoints key next) a.1
          (advance_checkpoint-Passed P locked checkpoints key offsets a.0 v))
      (λ q. advance_checkpoints-Passed P locked d checkpoints a.1 v)

ensure-checkpoint_of :
    (checkpoints : PartitionKey → Option ℕ) (key k : PartitionKey)
    → checkpoint_of (ensure checkpoints key) k ≡ checkpoint_of checkpoints k
unfolding ensure checkpoint_of
ensure-checkpoint_of checkpoints key k =
    let value : Option ℕ → ℕ = λ o. elim o [ none ↦ 0 | some n ↦ n ] in
    if-elim (λ o. value o ≡ value (checkpoints k)) (key_eq key k) (some (value (checkpoints k)))
      (checkpoints k) (λ q. refl) (λ q. refl)

pub ensure_all-checkpoint_of :
    (checkpoints : PartitionKey → Option ℕ) (keys : List PartitionKey) (k : PartitionKey)
    → checkpoint_of (ensure_all checkpoints keys) k ≡ checkpoint_of checkpoints k
unfolding ensure_all
ensure_all-checkpoint_of checkpoints [] k = refl
ensure_all-checkpoint_of checkpoints (key ∷ keys) k =
    ensure_all-checkpoint_of (ensure checkpoints key) keys k
    ∙ ensure-checkpoint_of checkpoints key k
