-- ===== src/Datalake/Prefix/Reach.antt =====
-- The ledger under any sequence of its operations.
use manufacturing_uns.Prelude.{some, true, ℕ, ◌≡◌, ◌<◌}
use manufacturing_uns.Prelude.Result.{ok}
use manufacturing_uns.Datalake.Prefix.{
  ConsumedPrefix, member, new_prefix, observe, resolve, next_offset, discard_committed,
}
use manufacturing_uns.Datalake.Prefix.Valid.{
  IsValid, observe-IsValid, resolve-IsValid, discard-IsValid, new_prefix-IsValid,
}
use manufacturing_uns.Datalake.Prefix.Commit.{next_offset-safe}

-- One call that does not raise.
pub data Step : ConsumedPrefix → ConsumedPrefix → Type 0 where
  observing : {p q : ConsumedPrefix} (offset : ℕ) → observe p offset ≡ ok q → Step p q
  resolving : {p q : ConsumedPrefix} (offset : ℕ) → resolve p offset ≡ ok q → Step p q
  discarding : {p q : ConsumedPrefix} (next : ℕ) → discard_committed p next ≡ ok q → Step p q

pub data Reach (p : ConsumedPrefix) : ConsumedPrefix → Type 0 where
  start : Reach p p
  next : {q r : ConsumedPrefix} → Reach p q → Step q r → Reach p r

Step-IsValid : {p q : ConsumedPrefix} → Step p q → IsValid p → IsValid q
Step-IsValid (observing {p = p} {q = q} offset e) v = observe-IsValid p q offset v e
Step-IsValid (resolving {p = p} {q = q} offset e) v = resolve-IsValid p q offset v e
Step-IsValid (discarding {p = p} {q = q} at e) v = discard-IsValid p q at v e

-- Whatever calls are made, in whatever order, and whichever of them raise, a ledger that began empty
-- is valid: its offsets rise strictly, its set holds the offsets of its list, and every resolved
-- offset was observed.
pub Reach-IsValid : {p q : ConsumedPrefix} → IsValid p → Reach p q → IsValid q
Reach-IsValid v start = v
Reach-IsValid v (next r s) = Step-IsValid s (Reach-IsValid v r)

-- In every ledger that calls lead to from the empty one, no offset below the one that `next_offset`
-- returns is observed and not resolved.
pub Reach-next_offset-safe :
    (p : ConsumedPrefix) (n o : ℕ)
    → Reach new_prefix p
    → next_offset p ≡ some n
    → member o p.observed ≡ true
    → o < n
    → member o p.resolved ≡ true
Reach-next_offset-safe p n o r = next_offset-safe p n o (Reach-IsValid new_prefix-IsValid r)
