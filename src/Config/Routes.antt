-- ===== src/Config/Routes.antt =====
-- Registered MQTT publication routes: 00_uns_config/src/uns_config/publication_routes.py. A text is the
-- list of its code points. An EnvelopeError is its reason, with the field that it names. The indices of
-- the recursions are the lists that they leave.
pub mod Matches
pub mod Ambiguity
pub mod Register
use manufacturing_uns.Prelude.{
  [], ◌∷◌, some, none, List, ℕ, Option, Bool, if◌then◌else◌, any, ◌&&◌, true, false, last?, ◌==◌,
  not, ◌||◌, String,
}
use manufacturing_uns.Prelude.Result.{Result, ok, err}
use manufacturing_uns.Prelude.Split.{starts_with, split}
use manufacturing_uns.Config.Topics.{EventKind, text_eq, is_empty}

pub record SchemaPair : Type 0 where
  pub payload_schema_id : List ℕ
  pub payload_schema_version : List ℕ

pub data WireFormat : Type 0 where
  raw : WireFormat
  uns_publication_v1 : WireFormat

pub record PublicationRoute : Type 0 where
  pub topic_filter : List ℕ
  pub source_id : List ℕ
  pub source_application : List ℕ
  pub site_id : List ℕ
  pub wire_format : WireFormat
  pub allowed_schema_pairs : List SchemaPair
  pub default_schema_pair : Option SchemaPair
  pub content_type : List ℕ
  pub event_kind : EventKind
  pub archive_eligible : Bool

pub data RouteError : Type 0 where
  filter_empty : RouteError
  dollar_root : RouteError
  empty_segment : RouteError
  embedded_plus : RouteError
  embedded_hash : RouteError
  dollar_root_wildcard : RouteError
  ambiguous_route : RouteError
  unknown_route : RouteError
  invalid_field : String → RouteError
  missing_field : String → RouteError

abbrev pub plus : List ℕ
plus = b'+' ∷ []

abbrev pub hash : List ℕ
hash = b'#' ∷ []

unfoldable pub has_char : ℕ → List ℕ → Bool
has_char c s = any (λ d. d == c) s

-- One round of the loop of `_parse_topic_filter`; `last` is `index == len(segments) - 1`.
unfoldable pub check_segment : List ℕ → Bool → Result RouteError (Unit {0})
unfolding is_empty has_char text_eq
check_segment segment last =
    if is_empty segment
    then err empty_segment
    else if has_char b'+' segment && not (text_eq segment plus)
    then err embedded_plus
    else if has_char b'#' segment && not (text_eq segment hash)
    then err embedded_hash
    else if text_eq segment hash && not last
    then err embedded_hash
    else ok tt

unfoldable pub is_last : List (List ℕ) → Bool
is_last [] = true
is_last (s ∷ rest) = false

unfoldable pub check_segments : List (List ℕ) → Result RouteError (Unit {0})
unfolding check_segment is_last
check_segments [] = ok tt
check_segments (s ∷ rest) = elim (check_segment s (is_last rest)) [
  | err e ↦ err e
  | ok u ↦ check_segments rest
]

-- `segments[0] in {"+", "#"}`.
unfoldable pub wildcard_root : List (List ℕ) → Bool
unfolding text_eq
wildcard_root [] = false
wildcard_root (s ∷ rest) = text_eq s plus || text_eq s hash

unfoldable pub parse_topic_filter : List ℕ → Result RouteError (List (List ℕ))
unfolding starts_with split check_segments wildcard_root is_empty
parse_topic_filter topic_filter =
    let segments = split b'/' topic_filter in
    if is_empty topic_filter
    then err filter_empty
    else if starts_with topic_filter (b'$' ∷ [])
    then err dollar_root
    else elim (check_segments segments) [
      | err e ↦ err e
      | ok u ↦ if wildcard_root segments then err dollar_root_wildcard else ok segments
    ]

-- The topic's segments, then the filter's.
unfoldable pub segments_match : List (List ℕ) → List (List ℕ) → Bool
unfolding text_eq
segments_match [] [] = true
segments_match (t ∷ topic) [] = false
segments_match [] (f ∷ filter) = text_eq f hash
segments_match (t ∷ topic) (f ∷ filter) =
    let more = segments_match topic filter in
    if text_eq f hash
    then true
    else if text_eq f plus
    then more
    else if not (text_eq f t)
    then false
    else more

-- `segments and segments[-1] == "#"` of a whole list.
unfoldable pub ends_in_hash : List (List ℕ) → Bool
unfolding text_eq
ends_in_hash segments = elim (last? segments) [ none ↦ false | some s ↦ text_eq s hash ]

-- The lists that the indices leave; `whole_left` and `whole_right` are the lists themselves.
unfoldable pub segments_overlap :
    List (List ℕ) → List (List ℕ) → List (List ℕ) → List (List ℕ) → Bool
unfolding ends_in_hash text_eq
segments_overlap whole_left whole_right [] [] = true
segments_overlap whole_left whole_right [] (r ∷ right) = ends_in_hash whole_right
segments_overlap whole_left whole_right (l ∷ left) [] = ends_in_hash whole_left
segments_overlap whole_left whole_right (l ∷ left) (r ∷ right) =
    let more = segments_overlap whole_left whole_right left right in
    if text_eq l hash || text_eq r hash
    then true
    else if text_eq l plus || text_eq r plus
    then more
    else if not (text_eq l r)
    then false
    else more

unfoldable pub filters_overlap : List (List ℕ) → List (List ℕ) → Bool
unfolding segments_overlap
filters_overlap left right = segments_overlap left right left right
