-- ===== src/Datalake/Mapper/Ledger.antt =====
-- The ledger of DatalakeMapper beside what Kafka and the stores have seen, under each use of it.
use manufacturing_uns.Prelude.{
  [], ◌∷◌, some, inl, inr, ℕ, List, Bool, ◌≡◌, false, ◌<◌, true, ◌&&◌, ◌==◌, ◌||◌, ◌⊎◌, any,
  get_elem?,
}
use manufacturing_uns.Datalake.Batch.{PartitionKey, key_eq}
use manufacturing_uns.Datalake.Prefix.{ConsumedPrefix, member}
use manufacturing_uns.Datalake.Prefix.Valid.{IsValid}
use manufacturing_uns.Datalake.Mapper.{
  DatalakeMapper, assigned, received, uploaded, dead_lettered, committed, FrozenPartitionFlush,
  FrozenRouteGroup, Content, Stored, stored, integrity_error, put_failed, undecodable, unroutable,
  ineligible, eligible, Event,
}

-- The event is one of this offset of the partition.
abbrev pub at : PartitionKey → ℕ → PartitionKey → ℕ → Bool
at key offset k o = key_eq k key && o == offset

-- The record of this offset is in the object.
abbrev pub holds_offset : ℕ → FrozenRouteGroup → Bool
holds_offset offset object = any (λ r. r.offset == offset) object.records

-- What a message, an upload or a dead letter settles: that the message is not archived, that the store
-- has an object with its record, that the dead-letter topic has it.
abbrev pub is_excluded : Content → Bool
is_excluded undecodable = false
is_excluded unroutable = false
is_excluded ineligible = true
is_excluded (eligible route) = false

abbrev pub is_success : Stored → Bool
is_success stored = true
is_success integrity_error = false
is_success put_failed = false

-- The message is not archived, or the store or the dead-letter topic answered that it has it.
unfoldable pub was_handled : PartitionKey → ℕ → List Event → Bool
was_handled key offset [] = false
was_handled key offset (assigned ∷ log) = was_handled key offset log
was_handled key offset (committed k o answer ∷ log) = was_handled key offset log
was_handled key offset (received k o content ∷ log) =
    (is_excluded content && at key offset k o) || was_handled key offset log
was_handled key offset (dead_lettered k o answer ∷ log) =
    (answer && at key offset k o) || was_handled key offset log
was_handled key offset (uploaded k object answer ∷ log) =
    (is_success answer && key_eq k key && holds_offset offset object) || was_handled key offset log

-- The message was received since the last assignment.
unfoldable pub was_received : PartitionKey → ℕ → List Event → Bool
was_received key offset [] = false
was_received key offset (assigned ∷ log) = false
was_received key offset (received k o content ∷ log) =
    at key offset k o || was_received key offset log
was_received key offset (uploaded k object answer ∷ log) = was_received key offset log
was_received key offset (dead_lettered k o answer ∷ log) = was_received key offset log
was_received key offset (committed k o answer ∷ log) = was_received key offset log

-- No commit that was asked for passes a message that was received and not handled by then.
abbrev pub Safe : List Event → Type 0
Safe [] = Unit
Safe (committed key next answer ∷ log) =
    ((offset : ℕ)
      → offset < next
      → was_received key offset log ≡ true
      → was_handled key offset log ≡ true)
    × Safe log
Safe (event ∷ log) = Safe log

-- The ledger of one partition: what is resolved was handled, and what was received was handled or
-- stands in the ledger.
pub record PrefixOk (log : List Event) (key : PartitionKey) (p : ConsumedPrefix) : Type 0 where
  pub valid : IsValid p
  pub handled : (o : ℕ) → member o p.resolved ≡ true → was_handled key o log ≡ true
  pub kept :
      (o : ℕ)
      → was_received key o log ≡ true
      → (was_handled key o log ≡ true) ⊎ (member o p.observed ≡ true)

-- Every observed offset below this one is resolved.
abbrev pub Covered : ConsumedPrefix → ℕ → Type 0
Covered p next = (o : ℕ) → member o p.observed ≡ true → o < next → member o p.resolved ≡ true

pub record IsSound (m : DatalakeMapper) : Type 0 where
  pub prefixes : (key : PartitionKey) → PrefixOk m.log key (m.consumed_prefixes key)
  pub safe : Safe m.log
  pub pending :
      (flush : FrozenPartitionFlush) (next : ℕ)
      → m.frozen_flush ≡ some flush
      → m.pending_commit_offset ≡ some next
      → Covered (m.consumed_prefixes flush.partition_key) next
  -- An object that is made is that of the current group.
  pub object :
      (flush : FrozenPartitionFlush) (object' group : FrozenRouteGroup)
      → m.frozen_flush ≡ some flush
      → m.frozen_object ≡ some object'
      → get_elem? flush.route_groups m.group_index ≡ some group
      → object' ≡ group

pub commit-safe :
    (log : List Event) (key : PartitionKey) (p : ConsumedPrefix) (next offset : ℕ)
    → PrefixOk log key p
    → Covered p next
    → offset < next
    → was_received key offset log ≡ true
    → was_handled key offset log ≡ true
commit-safe log key p next offset ok' c lt r = elim (ok'.kept offset r) [
  | inl h ↦ h
  | inr h ↦ ok'.handled offset (c offset h lt)
]
