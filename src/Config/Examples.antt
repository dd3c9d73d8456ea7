-- ===== src/Config/Examples.antt =====
-- Tests and examples for the shared contracts.
use manufacturing_uns.Prelude.{[], ◌∷◌, none, List, ◌≡◌, ℕ, true, false, ◌⊎◌, refl, ◌↔◌}
use manufacturing_uns.Prelude.Text.{codes}
use manufacturing_uns.Prelude.Result.{ok, err}
use manufacturing_uns.Config.Topics.{
  classify_event_kind, command, telemetry, is_historic_event_topic,
}
use manufacturing_uns.Config.Routes.{
  parse_topic_filter, PublicationRoute, uns_publication_v1, segments_match, unknown_route,
  filters_overlap, hash, ambiguous_route, plus,
}
use manufacturing_uns.Config.Routes.Register.{validate_routes, resolve_route}
use manufacturing_uns.Config.Routes.Ambiguity.{resolve_route-validated}
use manufacturing_uns.Config.Routes.Matches.{MqttMatches, segments_match_iff}

abbrev route : List ℕ → PublicationRoute
route topic_filter = record {
  topic_filter = topic_filter;
  source_id = codes "press-1";
  source_application = codes "mes";
  site_id = codes "site_a";
  wire_format = uns_publication_v1;
  allowed_schema_pairs =
      record { payload_schema_id = codes "order"; payload_schema_version = codes "1" } ∷ [];
  default_schema_pair = none;
  content_type = codes "application/json";
  event_kind = telemetry;
  archive_eligible = true;
}

abbrev routes : List PublicationRoute
routes = route (codes "acme/+/state") ∷ route (codes "acme/+/orders/#") ∷ []

routes_pass : validate_routes routes ≡ ok tt
unfolding validate_routes
routes_pass = refl

overlapping_fail : validate_routes (route (codes "acme/#") ∷ routes) ≡ err ambiguous_route
unfolding validate_routes
overlapping_fail = refl

orders_found :
    resolve_route (codes "acme/line1/orders/7") routes ≡ ok (route (codes "acme/+/orders/#"))
unfolding resolve_route
orders_found = refl

-- The overlap is conservative: no topic matches both of these.
conservative : filters_overlap (codes "a" ∷ []) (codes "a" ∷ codes "b" ∷ hash ∷ []) ≡ true
unfolding filters_overlap
conservative = refl

platform_is_no_history : is_historic_event_topic (codes "uns/platform/edge") ≡ false
unfolding is_historic_event_topic
platform_is_no_history = refl

resolve_route-validated_example :
    ((r : PublicationRoute) × (resolve_route (codes "acme/line1/state") routes ≡ ok r))
    ⊎ (resolve_route (codes "acme/line1/state") routes ≡ err unknown_route)
resolve_route-validated_example =
    resolve_route-validated (codes "acme/line1/state") routes routes_pass

abbrev line_topic : List (List ℕ)
line_topic = codes "acme" ∷ codes "line1" ∷ []

abbrev line_filter : List (List ℕ)
line_filter = codes "acme" ∷ plus ∷ []

line_filter_parsed : parse_topic_filter (codes "acme/+") ≡ ok line_filter
unfolding parse_topic_filter
line_filter_parsed = refl

segments_match_iff_example :
    (segments_match line_topic line_filter ≡ true) ↔ MqttMatches line_topic line_filter
segments_match_iff_example =
    segments_match_iff (codes "acme/+") line_filter line_topic line_filter_parsed

command_topic : classify_event_kind (codes "spBv1.0/g/NCMD/n") ≡ command
unfolding classify_event_kind
command_topic = refl
