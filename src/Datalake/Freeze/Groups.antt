-- ===== src/Datalake/Freeze/Groups.antt =====
-- The groups of a frozen flush hold the records that were frozen.
use manufacturing_uns.Prelude.{
  [], ◌∷◌, inl, inr, Bool, All, List, ◌≡◌, ℕ, length, ◌+◌, true, filter, arith, Bool-cases,
  All-append, ◌++◌, refl,
}
use manufacturing_uns.Prelude.Sort.{sorted, insert, All-sorted}
use manufacturing_uns.Datalake.Batch.{LakeRecord, route_eq, PartitionKey}
use manufacturing_uns.Datalake.Batch.Valid.{route_eq_refl}
use manufacturing_uns.Datalake.Freeze.{
  FrozenRouteGroup, add_to_group, group_from, freeze_partition_records, group_leb,
  group_records_by_route,
}

-- How many records of the groups pass a test.
pub total : (LakeRecord → Bool) → List FrozenRouteGroup → ℕ
total p [] = 0
total p (g ∷ groups) = length (filter p g.records) + total p groups

filter-append :
    (p : LakeRecord → Bool) (xs ys : List LakeRecord)
    → length (filter p (xs ++ ys)) ≡ length (filter p xs) + length (filter p ys)
filter-append p [] ys = omega arith
filter-append p (x ∷ xs) ys = ground (arith, filter-append p xs ys)

total-add :
    (p : LakeRecord → Bool) (r : LakeRecord) (groups : List FrozenRouteGroup)
    → total p (add_to_group r groups) ≡ total p groups + length (filter p (r ∷ []))
unfolding total add_to_group
total-add p r [] = omega arith
total-add p r (g ∷ groups) = elim (Bool-cases (route_eq g.route r.route)) [
  | inl q ↦ rw q (omega (arith, filter-append p g.records (r ∷ [])))
  | inr q ↦ rw q (omega (arith, total-add p r groups))
]

total-group :
    (p : LakeRecord → Bool) (groups : List FrozenRouteGroup) (records : List LakeRecord)
    → total p (group_from groups records) ≡ total p groups + length (filter p records)
unfolding group_from
total-group p groups [] = omega arith
total-group p groups (r ∷ records) = omega (
  arith,
  total-group p (add_to_group r groups) records,
  total-add p r groups,
  filter-append p (r ∷ []) records,
)

total-insert :
    (p : LakeRecord → Bool) (g : FrozenRouteGroup) (groups : List FrozenRouteGroup)
    → total p (insert group_leb g groups) ≡ length (filter p g.records) + total p groups
unfolding total insert
total-insert p g [] = refl
total-insert p g (h ∷ groups) = elim (Bool-cases (group_leb g h)) [
  | inl q ↦ rw q refl
  | inr q ↦ rw q (omega (arith, total-insert p g groups))
]

total-sorted :
    (p : LakeRecord → Bool) (groups : List FrozenRouteGroup)
    → total p (sorted group_leb groups) ≡ total p groups
unfolding total sorted
total-sorted p [] = refl
total-sorted p (g ∷ groups) =
    omega (arith, total-insert p g (sorted group_leb groups), total-sorted p groups)

-- The group of a route holds records of that route.
abbrev pub OfRoute : FrozenRouteGroup → Type 0
OfRoute g = All (λ r. route_eq g.route r.route ≡ true) g.records

add-OfRoute :
    (r : LakeRecord) (groups : List FrozenRouteGroup)
    → route_eq r.route r.route ≡ true
    → All OfRoute groups
    → All OfRoute (add_to_group r groups)
unfolding add_to_group
add-OfRoute r [] e h = ((e, tt), tt)
add-OfRoute r (g ∷ groups) e h = elim (Bool-cases (route_eq g.route r.route)) [
  | inl q ↦
      rw q (All-append (λ s. route_eq g.route s.route ≡ true) g.records (r ∷ []) h.0 (q, tt), h.1)
  | inr q ↦ rw q (h.0, add-OfRoute r groups e h.1)
]

group-OfRoute :
    (groups : List FrozenRouteGroup) (records : List LakeRecord)
    → All OfRoute groups
    → All OfRoute (group_from groups records)
unfolding group_from
group-OfRoute groups [] h = h
group-OfRoute groups (r ∷ records) h =
    group-OfRoute (add_to_group r groups) records (add-OfRoute r groups (route_eq_refl r.route) h)

-- Freezing keeps every record once, in the group of its route: by any test on records, the groups
-- hold as many that pass as the buffer did, and each group holds records of its own route.
pub freeze-total :
    (key : PartitionKey) (records : List LakeRecord)
    → ((p : LakeRecord → Bool)
        → total p (freeze_partition_records key records).route_groups ≡ length (filter p records))
      × All OfRoute (freeze_partition_records key records).route_groups
unfolding freeze_partition_records group_records_by_route total
freeze-total key records = (
  λ p. omega (arith, total-sorted p (group_from [] records), total-group p [] records),
  All-sorted group_leb OfRoute (group_records_by_route records) (group-OfRoute [] records tt),
)
