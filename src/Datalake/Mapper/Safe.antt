-- ===== src/Datalake/Mapper/Safe.antt =====
-- Each use of a prefix by the mapper keeps the ledger sound.
use manufacturing_uns.Datalake.Mapper.Ledger.{
  was_handled, was_received, Covered, IsSound, PrefixOk, Safe, commit-safe,
}
use manufacturing_uns.Prelude.{
  ◌∷◌, inl, inr, ◌≡◌, ℕ, true, List, ◌==◌, arith, false, Bool-cases, ◌||◌, subst, if◌then◌else◌,
  sym, refl, leb, ◌&&◌, Bool, ◌∙◌, ◌⊎◌, ◌+◌,
}
use manufacturing_uns.Prelude.Result.{ok, Result-cases}
use text.Mathlib.TextEquality.{eq_iff}
use manufacturing_uns.Datalake.Batch.{PartitionKey, key_eq}
use manufacturing_uns.Datalake.Batch.Valid.{key_eq→≡}
use manufacturing_uns.Datalake.Prefix.{ConsumedPrefix, resolve, discard_committed, member}
use manufacturing_uns.Datalake.Prefix.Valid.{
  discard_inv, resolve-IsValid, discard-IsValid, member-filter,
}
use manufacturing_uns.Datalake.Mapper.{
  DatalakeMapper, World, Stored, FrozenRouteGroup, uploaded, dead_lettered, committed, ask_commit,
  Event, set_prefix, resolve_offset, discard_offset,
}

pub key_eq_refl : (key : PartitionKey) → key_eq key key ≡ true
unfolding key_eq
key_eq_refl key = ground (arith, (eq_iff key.topic key.topic).1 refl)

-- An event that is no message and no assignment.
pub record IsCall (event : Event) : Type 0 where
  pub grows :
      (k : PartitionKey) (o : ℕ) (log : List Event)
      → was_handled k o log ≡ true
      → was_handled k o (event ∷ log) ≡ true
  pub same :
      (k : PartitionKey) (o : ℕ) (log : List Event)
      → was_received k o (event ∷ log) ≡ was_received k o log

pub uploaded-IsCall :
    (key : PartitionKey) (object : FrozenRouteGroup) (answer : Stored)
    → IsCall (uploaded key object answer)
unfolding was_handled was_received
uploaded-IsCall key object answer = record {
  grows = λ k o log h. ground (arith, h);
  same = λ k o log. refl;
}

pub dead_lettered-IsCall :
    (key : PartitionKey) (offset : ℕ) (answer : Bool) → IsCall (dead_lettered key offset answer)
unfolding was_handled was_received
dead_lettered-IsCall key offset answer = record {
  grows = λ k o log h. ground (arith, h);
  same = λ k o log. refl;
}

pub committed-IsCall :
    (key : PartitionKey) (next : ℕ) (answer : Bool) → IsCall (committed key next answer)
unfolding was_handled was_received
committed-IsCall key next answer = record { grows = λ k o log h. h; same = λ k o log. refl }

pub logged-PrefixOk :
    (event : Event) (log : List Event) (k : PartitionKey) (p : ConsumedPrefix)
    → IsCall event
    → PrefixOk log k p
    → PrefixOk (event ∷ log) k p
logged-PrefixOk event log k p c v = record {
  valid = v.valid;
  handled = λ o r. c.grows k o log (v.handled o r);
  kept = λ o r. elim (v.kept o (sym (c.same k o log) ∙ r)) [
    | inl h ↦ inl (c.grows k o log h)
    | inr h ↦ inr h
  ];
}

-- A call, where the log stays safe.
pub logged-IsSound :
    (m : DatalakeMapper) (event : Event)
    → IsCall event
    → Safe (event ∷ m.log)
    → IsSound m
    → IsSound (record m { calls = m.calls + 1; log = event ∷ m.log })
logged-IsSound m event c s v = record {
  prefixes = λ k. logged-PrefixOk event m.log k (m.consumed_prefixes k) c (v.prefixes k);
  safe = s;
  pending = v.pending;
  object = v.object;
}

pub set_prefix-PrefixOk :
    (log' : List Event) (prefixes : PartitionKey → ConsumedPrefix) (key : PartitionKey)
    (p : ConsumedPrefix)
    → ((k : PartitionKey) → key_eq key k ≡ false → PrefixOk log' k (prefixes k))
    → PrefixOk log' key p
    → (k : PartitionKey) → PrefixOk log' k (set_prefix prefixes key p k)
unfolding set_prefix
set_prefix-PrefixOk log' prefixes key p others here k = elim (Bool-cases (key_eq key k)) [
  | inl q ↦
      subst (λ b. PrefixOk log' k (if b then p else prefixes k)) (sym q)
        (subst (λ z. PrefixOk log' z p) (key_eq→≡ key k q) here)
  | inr q ↦ subst (λ b. PrefixOk log' k (if b then p else prefixes k)) (sym q) (others k q)
]

set_prefix-Covered :
    (prefixes : PartitionKey → ConsumedPrefix) (key : PartitionKey) (p : ConsumedPrefix)
    (k : PartitionKey) (next : ℕ)
    → (Covered (prefixes key) next → Covered p next)
    → Covered (prefixes k) next
    → Covered (set_prefix prefixes key p k) next
unfolding set_prefix
set_prefix-Covered prefixes key p k next f c = elim (Bool-cases (key_eq key k)) [
  | inl q ↦
      subst (λ b. Covered (if b then p else prefixes k) next) (sym q)
        (f (subst (λ z. Covered (prefixes z) next) (sym (key_eq→≡ key k q)) c))
  | inr q ↦ subst (λ b. Covered (if b then p else prefixes k) next) (sym q) c
]

resolve_shape :
    (p q : ConsumedPrefix) (offset : ℕ)
    → resolve p offset ≡ ok q
    → (q.observed ≡ p.observed)
      × ((o : ℕ) → member o q.resolved ≡ (offset == o || member o p.resolved))
unfolding resolve member
resolve_shape p q offset h = (ground arith, λ o. ground arith)

resolved-Covered :
    (p q : ConsumedPrefix) (offset next : ℕ)
    → resolve p offset ≡ ok q
    → Covered p next
    → Covered q next
resolved-Covered p q offset next e c o h lt =
    let shape = resolve_shape p q offset e in
    ground (arith, shape.1 o, c o (subst (λ l. member o l ≡ true) shape.0 h) lt)

resolved-PrefixOk :
    (key : PartitionKey) (offset : ℕ) (log : List Event) (p q : ConsumedPrefix)
    → was_handled key offset log ≡ true
    → resolve p offset ≡ ok q
    → PrefixOk log key p
    → PrefixOk log key q
resolved-PrefixOk key offset log p q h e v =
    let shape = resolve_shape p q offset e in
    record {
      valid = resolve-IsValid p q offset v.valid e;
      handled = λ o r. elim (Bool-cases (offset == o)) [
        | inl s ↦
            let same : offset ≡ o = ground (arith, s) in
            subst (λ x. was_handled key x log ≡ true) same h
        | inr n ↦ v.handled o (ground (arith, n, shape.1 o, r))
      ];
      kept = λ o r.
          subst (λ l. (was_handled key o log ≡ true) ⊎ (member o l ≡ true)) (sym shape.0)
            (v.kept o r);
    }

abbrev pub with_prefix : DatalakeMapper → PartitionKey → ConsumedPrefix → DatalakeMapper
with_prefix m key p = record m { consumed_prefixes = set_prefix m.consumed_prefixes key p }

resolved-IsSound :
    (m : DatalakeMapper) (key : PartitionKey) (offset : ℕ) (p : ConsumedPrefix)
    → was_handled key offset m.log ≡ true
    → resolve (m.consumed_prefixes key) offset ≡ ok p
    → IsSound m
    → IsSound (with_prefix m key p)
resolved-IsSound m key offset p h e v = record {
  prefixes =
      set_prefix-PrefixOk m.log m.consumed_prefixes key p (λ k q. v.prefixes k)
        (resolved-PrefixOk key offset m.log (m.consumed_prefixes key) p h e (v.prefixes key));
  safe = v.safe;
  pending = λ flush next f n.
      set_prefix-Covered m.consumed_prefixes key p flush.partition_key next
        (resolved-Covered (m.consumed_prefixes key) p offset next e) (v.pending flush next f n);
  object = v.object;
}

-- What resolving and calls leave of the rest.
pub record SameFrozen (m m' : DatalakeMapper) : Type 0 where
  pub flush : m'.frozen_flush ≡ m.frozen_flush
  pub offset : m'.pending_commit_offset ≡ m.pending_commit_offset

-- Resolving an offset whose message is settled.
pub record Resolved (m m' : DatalakeMapper) : Type 0 where
  pub sound : IsSound m'
  pub same : SameFrozen m m'
  pub log : m'.log ≡ m.log

pub resolve_offset-Resolved :
    (m m' : DatalakeMapper) (key : PartitionKey) (offset : ℕ)
    → was_handled key offset m.log ≡ true
    → resolve_offset m key offset ≡ ok m'
    → IsSound m
    → Resolved m m'
unfolding resolve_offset
resolve_offset-Resolved m m' key offset h e v =
    elim (Result-cases (resolve (m.consumed_prefixes key) offset)) [
      | inl (p, found) ↦
          subst (Resolved m) {x = with_prefix m key p} (ground (arith, found)) (record {
            sound = resolved-IsSound m key offset p h found v;
            same = record { flush = refl; offset = refl };
            log = refl;
          })
      | inr (x, failed) ↦ absurd (ground (arith, failed))
    ]

discard_shape :
    (p q : ConsumedPrefix) (next : ℕ)
    → discard_committed p next ≡ ok q
    → ((o : ℕ) → member o q.observed ≡ (leb next o && member o p.observed))
      × ((o : ℕ)
          → member o q.resolved ≡ ((leb next o && member o p.resolved) && member o p.observed))
discard_shape p q next h = (
  λ o.
      subst (λ z. member o z.observed ≡ (leb next o && member o p.observed))
        (sym (discard_inv p q next h)) (member-filter (λ x. leb next x) o p.observed),
  λ o.
      subst
        (λ z. member o z.resolved ≡ ((leb next o && member o p.resolved) && member o p.observed))
        (sym (discard_inv p q next h))
        (member-filter (λ x. leb next x && member x p.resolved) o p.observed),
)

-- A commit of a covered offset, with nothing frozen afterwards.
discarded-PrefixOk :
    (key : PartitionKey) (next : ℕ) (log : List Event) (p q : ConsumedPrefix)
    → Covered p next
    → discard_committed p next ≡ ok q
    → PrefixOk log key p
    → PrefixOk log key q
discarded-PrefixOk key next log p q c e v = record {
  valid = discard-IsValid p q next v.valid e;
  handled = λ o r. v.handled o (ground (arith, (discard_shape p q next e).1 o));
  kept = λ o r. ground (arith, v.kept o r, v.handled o, c o, (discard_shape p q next e).0 o);
}

-- The log and the ledgers after a commit, and what is frozen.
pub record Discarded (m m' : DatalakeMapper) : Type 0 where
  pub prefixes : (k : PartitionKey) → PrefixOk m'.log k (m'.consumed_prefixes k)
  pub safe : Safe m'.log
  pub same : SameFrozen m m'

pub discard_offset-Discarded :
    (m m' : DatalakeMapper) (key : PartitionKey) (next : ℕ)
    → Covered (m.consumed_prefixes key) next
    → discard_offset m key next ≡ ok m'
    → IsSound m
    → Discarded m m'
unfolding discard_offset
discard_offset-Discarded m m' key next c e v =
    elim (Result-cases (discard_committed (m.consumed_prefixes key) next)) [
      | inl (p, found) ↦
          subst (Discarded m) {x = with_prefix m key p} (ground (arith, found)) (record {
            prefixes =
                set_prefix-PrefixOk m.log m.consumed_prefixes key p (λ k q. v.prefixes k)
                  (discarded-PrefixOk key next m.log (m.consumed_prefixes key) p c found
                    (v.prefixes key));
            safe = v.safe;
            same = record { flush = refl; offset = refl };
          })
      | inr (x, failed) ↦ absurd (ground (arith, failed))
    ]

-- The call of a commit up to a covered offset.
pub ask_commit-IsSound :
    (w : World) (m : DatalakeMapper) (key : PartitionKey) (next : ℕ)
    → Covered (m.consumed_prefixes key) next
    → IsSound m
    → IsSound (ask_commit w m key next)
unfolding ask_commit
ask_commit-IsSound w m key next c v =
    logged-IsSound m (committed key next (w.commit_ok m.calls))
      (committed-IsCall key next (w.commit_ok m.calls))
      (
        (λ o lt r. commit-safe m.log key (m.consumed_prefixes key) next o (v.prefixes key) c lt r),
        v.safe,
      )
      v
