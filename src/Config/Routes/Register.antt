-- ===== src/Config/Routes/Register.antt =====
-- `_validate_route`, `validate_routes` and `resolve_route` of
-- 00_uns_config/src/uns_config/publication_routes.py. A frozenset of pairs is a list; the tests of a
-- value's type and of a Literal's members are the types of the model.
use manufacturing_uns.Prelude.{
  [], ◌∷◌, none, some, ℕ, List, Bool, Option, leb, true, if◌then◌else◌, length, not, any, false,
  ◌&&◌, ◌||◌, ◌==◌,
}
use manufacturing_uns.Config.Topics.{text_eq, is_empty}
use manufacturing_uns.Prelude.Split.{split}
use manufacturing_uns.Prelude.Result.{Result, ok, err}
use manufacturing_uns.Config.Routes.{
  PublicationRoute, raw, uns_publication_v1, ambiguous_route, unknown_route, invalid_field,
  missing_field, SchemaPair, WireFormat, parse_topic_filter, RouteError, filters_overlap,
  segments_match,
}

-- A character of ROUTE_ID_PATTERN.
unfoldable pub id_char : ℕ → Bool
id_char c =
    leb b'A' c && leb c b'Z'
    || leb b'a' c && leb c b'z'
    || leb b'0' c && leb c b'9'
    || c == b'_'
    || c == b'-'

unfoldable pub all_id_chars : List ℕ → Bool
unfolding id_char
all_id_chars [] = true
all_id_chars (c ∷ s) = id_char c && all_id_chars s

unfoldable pub is_route_id : List ℕ → Bool
unfolding all_id_chars
is_route_id s = leb 1 (length s) && leb (length s) 128 && all_id_chars s

unfoldable pub pair_eq : SchemaPair → SchemaPair → Bool
unfolding text_eq
pair_eq a b =
    text_eq a.payload_schema_id b.payload_schema_id
    && text_eq a.payload_schema_version b.payload_schema_version

unfoldable pub validate_schema_pair : SchemaPair → Result RouteError (Unit {0})
unfolding is_route_id
validate_schema_pair pair =
    if not (is_route_id pair.payload_schema_id)
    then err (invalid_field "payload_schema_id")
    else if not (is_route_id pair.payload_schema_version)
    then err (invalid_field "payload_schema_version")
    else ok tt

unfoldable pub validate_pairs : List SchemaPair → Result RouteError (Unit {0})
unfolding validate_schema_pair
validate_pairs [] = ok tt
validate_pairs (pair ∷ rest) = elim (validate_schema_pair pair) [
  | err e ↦ err e
  | ok u ↦ validate_pairs rest
]

-- The default pair of each wire format.
unfoldable pub validate_default :
    WireFormat → Option SchemaPair → List SchemaPair → Result RouteError (Unit {0})
unfolding pair_eq
validate_default raw none allowed = err (missing_field "default_schema_pair")
validate_default uns_publication_v1 none allowed = ok tt
validate_default format (some pair) allowed =
    if any (pair_eq pair) allowed then ok tt else err (invalid_field "default_schema_pair")

unfoldable pub no_pairs : List SchemaPair → Bool
no_pairs [] = true
no_pairs (pair ∷ rest) = false

-- The checks after the filter's.
unfoldable pub validate_fields : PublicationRoute → Result RouteError (Unit {0})
unfolding is_empty is_route_id no_pairs validate_pairs validate_default
validate_fields r =
    if is_empty r.source_id
    then err (invalid_field "source_id")
    else if not (is_route_id r.source_application)
    then err (invalid_field "source_application")
    else if not (is_route_id r.site_id)
    then err (invalid_field "site_id")
    else if no_pairs r.allowed_schema_pairs
    then err (invalid_field "allowed_schema_pairs")
    else elim (validate_pairs r.allowed_schema_pairs) [
      | err e ↦ err e
      | ok u ↦ elim (validate_default r.wire_format r.default_schema_pair r.allowed_schema_pairs) [
        | err e ↦ err e
        | ok v ↦ if is_empty r.content_type then err (invalid_field "content_type") else ok tt
      ]
    ]

unfoldable pub validate_route : PublicationRoute → Result RouteError (Unit {0})
unfolding parse_topic_filter validate_fields
validate_route r = elim (parse_topic_filter r.topic_filter) [
  | err e ↦ err e
  | ok segments ↦ validate_fields r
]

-- The first loop of `validate_routes`: `parsed_filters`.
unfoldable pub parse_all : List PublicationRoute → Result RouteError (List (List ℕ × List (List ℕ)))
unfolding validate_route parse_topic_filter
parse_all [] = ok []
parse_all (r ∷ rest) = elim (validate_route r) [
  | err e ↦ err e
  | ok u ↦ elim (parse_topic_filter r.topic_filter) [
    | err e ↦ err e
    | ok segments ↦ elim (parse_all rest) [
      | err e ↦ err e
      | ok parsed ↦ ok ((r.topic_filter, segments) ∷ parsed)
    ]
  ]
]

-- The second.
unfoldable pub check_pairs : List (List ℕ × List (List ℕ)) → Result RouteError (Unit {0})
unfolding text_eq filters_overlap
check_pairs [] = ok tt
check_pairs ((left_filter, left) ∷ rest) =
    if any (λ right. text_eq left_filter right.0 || filters_overlap left right.1) rest
    then err ambiguous_route
    else check_pairs rest

unfoldable pub validate_routes : List PublicationRoute → Result RouteError (Unit {0})
unfolding parse_all check_pairs
validate_routes routes = elim (parse_all routes) [ err e ↦ err e | ok parsed ↦ check_pairs parsed ]

unfoldable pub topic_matches_filter : List ℕ → List ℕ → Result RouteError Bool
unfolding parse_topic_filter split segments_match
topic_matches_filter topic topic_filter = elim (parse_topic_filter topic_filter) [
  | err e ↦ err e
  | ok segments ↦ ok (segments_match (split b'/' topic) segments)
]

-- `matches` of `resolve_route`; a filter that does not parse raises.
unfoldable pub matching_routes :
    List ℕ → List PublicationRoute → Result RouteError (List PublicationRoute)
unfolding topic_matches_filter
matching_routes topic [] = ok []
matching_routes topic (r ∷ rest) = elim (topic_matches_filter topic r.topic_filter) [
  | err e ↦ err e
  | ok is_match ↦ elim (matching_routes topic rest) [
    | err e ↦ err e
    | ok found ↦ ok (if is_match then r ∷ found else found)
  ]
]

unfoldable pub resolve_route : List ℕ → List PublicationRoute → Result RouteError PublicationRoute
unfolding matching_routes
resolve_route topic routes = elim (matching_routes topic routes) [
  | err e ↦ err e
  | ok [] ↦ err unknown_route
  | ok (r ∷ []) ↦ ok r
  | ok (r ∷ s ∷ more) ↦ err ambiguous_route
]
