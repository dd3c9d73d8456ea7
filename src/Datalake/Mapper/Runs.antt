-- ===== src/Datalake/Mapper/Runs.antt =====
-- DatalakeMapper from its construction on: mapper.py.
use manufacturing_uns.Datalake.Mapper.History.{run_once-Sound}
use manufacturing_uns.Datalake.Mapper.Commits.{unfrozen-IsSound}
use manufacturing_uns.Datalake.Mapper.Loop.{Poll}
use manufacturing_uns.Datalake.Mapper.Sound.{Sound}
use manufacturing_uns.Datalake.Mapper.Ledger.{IsSound, Safe, was_received, PrefixOk, was_handled}
use manufacturing_uns.Datalake.Mapper.Run.{
  new_mapper, on_assign, on_revoke, run_once, uncommitted_state, lose_partitions,
}
use manufacturing_uns.Prelude.{[], ◌∷◌, ℕ, Bool, List, ◌≡◌, false, arith, true, refl, ◌⊎◌}
use manufacturing_uns.Prelude.Result.{ok, err}
use manufacturing_uns.Prelude.Holds.{Holds-elim, Holds-if, Holds}
use manufacturing_uns.Datalake.Batch.{PartitionKey, BatchManager}
use manufacturing_uns.Datalake.Prefix.{new_prefix, member}
use manufacturing_uns.Datalake.Prefix.Valid.{new_prefix-IsValid}
use manufacturing_uns.Datalake.Mapper.{DatalakeMapper, World, Event, assigned, ownership_lost}

-- Calls that do not raise, in any order; the outside may answer each in its own way.
pub data Run (batch : BatchManager) : DatalakeMapper → Type 0 where
  constructed : Run batch (new_mapper batch)
  polls :
      {m m' : DatalakeMapper} {going : Bool} (w : World) (poll : Poll) (now : ℕ)
      → Run batch m
      → run_once w m poll now ≡ ok (m', going)
      → Run batch m'
  assigns :
      {m : DatalakeMapper} (partitions : List PartitionKey)
      → Run batch m
      → Run batch (on_assign m partitions)
  revokes :
      {m m' : DatalakeMapper} (partitions : List PartitionKey)
      → Run batch m
      → on_revoke m partitions ≡ ok m'
      → Run batch m'

fresh-PrefixOk :
    (log : List Event) (key : PartitionKey)
    → ((o : ℕ) → was_received key o log ≡ false)
    → PrefixOk log key new_prefix
unfolding new_prefix member
fresh-PrefixOk log key none_received = record {
  valid = new_prefix-IsValid;
  handled = λ o r. absurd (ground arith);
  kept = λ o r. absurd (ground (arith, none_received o));
}

new_mapper-IsSound : (batch : BatchManager) → IsSound (new_mapper batch)
unfolding new_mapper was_received
new_mapper-IsSound batch =
    unfrozen-IsSound (new_mapper batch) refl (λ key. fresh-PrefixOk [] key (λ o. refl)) tt

on_assign-IsSound :
    (m : DatalakeMapper) (partitions : List PartitionKey)
    → IsSound m
    → IsSound (on_assign m partitions)
unfolding on_assign was_received new_prefix member
on_assign-IsSound m partitions v = record {
  prefixes = λ key. fresh-PrefixOk (assigned ∷ m.log) key (λ o. refl);
  safe = v.safe;
  pending = λ flush next f n o h. absurd (ground arith);
  object = v.object;
}

on_revoke-IsSound :
    (m : DatalakeMapper) (partitions : List PartitionKey)
    → IsSound m
    → Holds IsSound (on_revoke m partitions)
unfolding on_revoke
on_revoke-IsSound m partitions v =
    Holds-if IsSound (uncommitted_state (lose_partitions m partitions)) (err ownership_lost)
      (ok (lose_partitions m partitions)) (λ q. tt)
      (λ q. unfrozen-IsSound (lose_partitions m partitions) refl v.prefixes v.safe)

pub Run-IsSound : {batch : BatchManager} {m : DatalakeMapper} → Run batch m → IsSound m
Run-IsSound {batch} constructed = new_mapper-IsSound batch
Run-IsSound (polls {m = m} {m' = m'} {going = going} w poll now r e) =
    Holds-elim Sound (run_once w m poll now) (m', going)
      (run_once-Sound w m poll now (Run-IsSound r)) e
Run-IsSound (assigns {m = m} partitions r) = on_assign-IsSound m partitions (Run-IsSound r)
Run-IsSound (revokes {m = m} {m' = m'} partitions r e) =
    Holds-elim IsSound (on_revoke m partitions) m' (on_revoke-IsSound m partitions (Run-IsSound r))
      e

-- Whatever is polled, assigned and revoked, and however Kafka, the store and the dead-letter topic
-- answer: every commit that is asked for passes only messages of which, among those received since the
-- last assignment, the store answered by then that it has their object, the dead-letter topic that it
-- has them, or that are not archived.
pub Run-Safe : {batch : BatchManager} {m : DatalakeMapper} → Run batch m → Safe m.log
Run-Safe r = (Run-IsSound r).safe

-- At any time the store answered of a message that was received since the last assignment that it has
-- its object, or the dead-letter topic that it has it, or it is not archived, or the ledger of its
-- partition still holds its offset.
pub Run-kept :
    {batch : BatchManager} {m : DatalakeMapper} (key : PartitionKey) (offset : ℕ)
    → Run batch m
    → was_received key offset m.log ≡ true
    → (was_handled key offset m.log ≡ true)
      ⊎ (member offset (m.consumed_prefixes key).observed ≡ true)
Run-kept key offset r = ((Run-IsSound r).prefixes key).kept offset
