-- ===== src/Datalake/Freeze.antt =====
-- What is frozen for the upload: group_records_by_route, freeze_partition_records and _route_sort_key
-- of 14_uns_datalake/src/uns_datalake/batch.py, with FrozenRouteGroup and FrozenPartitionFlush. The
-- object ids, paths and the flush id are made of uuids and decide nothing here.
pub mod Groups
use manufacturing_uns.Prelude.{[], ◌∷◌, List, Bool, if◌then◌else◌, ◌++◌, not, leb}
use manufacturing_uns.Prelude.Sort.{sorted}
use manufacturing_uns.Prelude.Text.{str_leb}
use text.Mathlib.Text.{◌==◌ as str_eq}
use manufacturing_uns.Datalake.Batch.{LakeRoute, LakeRecord, PartitionKey, route_eq}

pub record FrozenRouteGroup : Type 0 where
  pub route : LakeRoute
  pub records : List LakeRecord

pub record FrozenPartitionFlush : Type 0 where
  pub partition_key : PartitionKey
  pub route_groups : List FrozenRouteGroup

-- `grouped.setdefault(route, []).append(record)`.
unfoldable pub add_to_group : LakeRecord → List FrozenRouteGroup → List FrozenRouteGroup
unfolding route_eq
add_to_group r [] = record { route = r.route; records = r ∷ [] } ∷ []
add_to_group r (g ∷ groups) =
    if route_eq g.route r.route
    then record g { records = g.records ++ r ∷ [] } ∷ groups
    else g ∷ add_to_group r groups

unfoldable pub group_from : List FrozenRouteGroup → List LakeRecord → List FrozenRouteGroup
unfolding add_to_group
group_from groups [] = groups
group_from groups (r ∷ records) = group_from (add_to_group r groups) records

unfoldable pub group_records_by_route : List LakeRecord → List FrozenRouteGroup
unfolding group_from
group_records_by_route records = group_from [] records

-- The order of `_route_sort_key`; the texts of two dates stand in the order of the dates.
unfoldable pub route_leb : LakeRoute → LakeRoute → Bool
route_leb a b =
    if not (str_eq a.application b.application)
    then str_leb a.application b.application
    else if not (str_eq a.site b.site)
    then str_leb a.site b.site
    else if not (str_eq a.schema b.schema)
    then str_leb a.schema b.schema
    else if not (str_eq a.version b.version)
    then str_leb a.version b.version
    else leb a.ingestion_date b.ingestion_date

unfoldable pub group_leb : FrozenRouteGroup → FrozenRouteGroup → Bool
unfolding route_leb
group_leb g h = route_leb g.route h.route

unfoldable pub freeze_partition_records : PartitionKey → List LakeRecord → FrozenPartitionFlush
unfolding group_records_by_route group_leb
freeze_partition_records key records = record {
  partition_key = key;
  route_groups = sorted group_leb (group_records_by_route records);
}
