-- ===== src/Datalake/Prefix.antt =====
-- The ledger of consumed offsets of one partition: `ConsumedPrefix` of
-- 14_uns_datalake/src/uns_datalake/checkpoint.py. A Python set is a list that is read only by
-- membership.
pub mod Valid
pub mod Commit
pub mod Reach
use manufacturing_uns.Prelude.{
  [], ◌∷◌, none, some, true, false, List, ℕ, Option, Bool, ◌++◌, if◌then◌else◌, ◌+◌, filter, any,
  last?, not, leb, ◌==◌, ◌&&◌,
}
use manufacturing_uns.Prelude.Result.{Result, ok, err}

pub record ConsumedPrefix : Type 0 where
  pub observed : List ℕ
  pub observed_set : List ℕ
  pub resolved : List ℕ
  pub committed_floor : Option ℕ

pub data PrefixError : Type 0 where
  out_of_order : PrefixError
  unknown_offset : PrefixError
  not_positive : PrefixError

-- `offset in set`.
unfoldable pub member : ℕ → List ℕ → Bool
member offset l = any (λ o. o == offset) l

unfoldable pub new_prefix : ConsumedPrefix
new_prefix = record { observed = []; observed_set = []; resolved = []; committed_floor = none }

unfoldable pub observe : ConsumedPrefix → ℕ → Result PrefixError ConsumedPrefix
observe p offset =
    let q = record p {
      observed = p.observed ++ offset ∷ [];
      observed_set = offset ∷ p.observed_set;
    } in
    elim (last? p.observed) [
      | none ↦ ok q
      | some newest ↦ if leb offset newest then err out_of_order else ok q
    ]

unfoldable pub resolve : ConsumedPrefix → ℕ → Result PrefixError ConsumedPrefix
unfolding member
resolve p offset =
    if not (member offset p.observed_set)
    then err unknown_offset
    else ok (record p { resolved = offset ∷ p.resolved })

-- Both returns of the loop of `next_offset`.
unfoldable pub after : Option ℕ → Option ℕ
after none = none
after (some offset) = some (offset + 1)

-- The loop of `next_offset`; its first argument is `last_resolved`.
unfoldable pub next_from : Option ℕ → List ℕ → List ℕ → Option ℕ
unfolding after member
next_from last [] resolved = after last
next_from last (offset ∷ rest) resolved =
    let more = next_from (some offset) rest resolved in
    if not (member offset resolved) then after last else more

unfoldable pub next_offset : ConsumedPrefix → Option ℕ
unfolding next_from
next_offset p = next_from none p.observed p.resolved

unfoldable pub unresolved_before : ℕ → List ℕ → List ℕ → Bool
unfolding member
unresolved_before offset [] resolved = false
unresolved_before offset (o ∷ rest) resolved =
    let more = unresolved_before offset rest resolved in
    if leb offset o then false else if not (member o resolved) then true else more

unfoldable pub has_unresolved_before : ConsumedPrefix → ℕ → Bool
unfolding unresolved_before
has_unresolved_before p offset = unresolved_before offset p.observed p.resolved

-- The three lists that the loop of `discard_committed` builds.
unfoldable pub keep_from : ℕ → List ℕ → List ℕ
keep_from next l = filter (λ o. leb next o) l

unfoldable pub keep_resolved : ℕ → List ℕ → List ℕ → List ℕ
unfolding member
keep_resolved next l resolved = filter (λ o. leb next o && member o resolved) l

unfoldable pub discard_committed : ConsumedPrefix → ℕ → Result PrefixError ConsumedPrefix
unfolding keep_from keep_resolved
discard_committed p next =
    if leb next 0
    then err not_positive
    else ok (record {
      observed = keep_from next p.observed;
      observed_set = keep_from next p.observed;
      resolved = keep_resolved next p.observed p.resolved;
      committed_floor = some next;
    })
