-- ===== src/Config/Routes/Ambiguity.antt =====
-- When routes may be ambiguous: the overlap of filters in publication_routes.py, and what
-- `validate_routes` keeps out of `resolve_route`.
use manufacturing_uns.Config.Routes.Register.{
  parse_all, matching_routes, check_pairs, resolve_route, validate_routes,
}
use manufacturing_uns.Prelude.{
  [], ◌∷◌, inl, inr, List, ℕ, ◌≡◌, true, arith, refl, subst, sym, All, any, false, ◌||◌, length,
  ◌≤◌, Bool-cases, ◌⊎◌,
}
use manufacturing_uns.Prelude.Result.{ok, err, Result-cases}
use manufacturing_uns.Config.Topics.{text_eq, text_eq→eq}
use manufacturing_uns.Config.Routes.{
  segments_match, check_segments, parse_topic_filter, ends_in_hash, segments_overlap, hash,
  filters_overlap, split, PublicationRoute, unknown_route,
}

-- `#` stands only at the end of a filter.
abbrev pub HashLast : List (List ℕ) → Type 0
HashLast [] = Unit
HashLast (s ∷ rest) = (text_eq s hash ≡ true → rest ≡ []) × HashLast rest

check_segments-HashLast :
    (segments : List (List ℕ)) {u : Unit {0}} → check_segments segments ≡ ok u → HashLast segments
unfolding check_segments
check_segments-HashLast [] h = tt
check_segments-HashLast (s ∷ []) h = (λ q. refl, tt)
check_segments-HashLast (s ∷ r ∷ rest) h =
    (λ q. absurd (ground (arith, q)), check_segments-HashLast (r ∷ rest) (ground arith))

pub parse-HashLast :
    (f : List ℕ) {segments : List (List ℕ)} → parse_topic_filter f ≡ ok segments → HashLast segments
unfolding parse_topic_filter
parse-HashLast f {segments} h = elim (Result-cases (check_segments (split b'/' f))) [
  | inl (u, e) ↦
      subst HashLast {x = split b'/' f} (ground (arith, e))
        (check_segments-HashLast (split b'/' f) e)
  | inr (e, failed) ↦ absurd (ground (arith, failed))
]

ends_later :
    (s : List ℕ) (rest : List (List ℕ)) → ends_in_hash rest ≡ true → ends_in_hash (s ∷ rest) ≡ true
unfolding ends_in_hash
ends_later s [] h = absurd (ground arith)
ends_later s (r ∷ rest) h = h

ends_here :
    (s : List ℕ) (rest : List (List ℕ))
    → rest ≡ []
    → text_eq s hash ≡ true
    → ends_in_hash (s ∷ rest) ≡ true
unfolding ends_in_hash
ends_here s [] e h = h
ends_here s (r ∷ rest) e h = absurd (ground arith)

same_segment : (l r t : List ℕ) → text_eq l t ≡ true → text_eq r t ≡ true → text_eq l r ≡ true
same_segment l r t p q = subst (λ z. text_eq l z ≡ true) (sym (text_eq→eq r t q)) p

-- If one topic matches what is left of two filters, what is left overlaps.
overlap_from :
    (whole_left whole_right left right topic : List (List ℕ))
    → HashLast left
    → HashLast right
    → (ends_in_hash left ≡ true → ends_in_hash whole_left ≡ true)
    → (ends_in_hash right ≡ true → ends_in_hash whole_right ≡ true)
    → segments_match topic left ≡ true
    → segments_match topic right ≡ true
    → segments_overlap whole_left whole_right left right ≡ true
unfolding segments_overlap segments_match
overlap_from wl wr [] [] topic hl hr kl kr ml mr = refl
overlap_from wl wr [] (r ∷ right) [] hl hr kl kr ml mr = kr (ends_here r right (hr.0 mr) mr)
overlap_from wl wr [] (r ∷ right) (t ∷ topic) hl hr kl kr ml mr = absurd (ground arith)
overlap_from wl wr (l ∷ left) [] [] hl hr kl kr ml mr = kl (ends_here l left (hl.0 ml) ml)
overlap_from wl wr (l ∷ left) [] (t ∷ topic) hl hr kl kr ml mr = absurd (ground arith)
overlap_from wl wr (l ∷ left) (r ∷ right) [] hl hr kl kr ml mr = ground arith
overlap_from wl wr (l ∷ left) (r ∷ right) (t ∷ topic) hl hr kl kr ml mr = ground (
  arith,
  same_segment l r t,
  overlap_from wl wr left right topic hl.1 hr.1 (λ e. kl (ends_later l left e))
      (λ e. kr (ends_later r right e)),
)

-- Two filters that one topic matches overlap.
pub filters_overlap_lem :
    (left right topic : List (List ℕ))
    → HashLast left
    → HashLast right
    → segments_match topic left ≡ true
    → segments_match topic right ≡ true
    → filters_overlap left right ≡ true
unfolding filters_overlap
filters_overlap_lem left right topic hl hr =
    overlap_from left right left right topic hl hr (λ e. e) (λ e. e)

-- What a first loop that does not raise has parsed.
record Parsed (r : PublicationRoute) (rest : List PublicationRoute)
    (parsed : List (List ℕ × List (List ℕ))) : Type 0 where
  pub segments : List (List ℕ)
  pub more : List (List ℕ × List (List ℕ))
  pub here : parse_topic_filter r.topic_filter ≡ ok segments
  pub later : parse_all rest ≡ ok more
  pub all : (r.topic_filter, segments) ∷ more ≡ parsed

parse_all-Parsed :
    (r : PublicationRoute) (rest : List PublicationRoute) (parsed : List (List ℕ × List (List ℕ)))
    → parse_all (r ∷ rest) ≡ ok parsed
    → Parsed r rest parsed
unfolding parse_all
parse_all-Parsed r rest parsed h = elim (Result-cases (parse_topic_filter r.topic_filter)) [
  | inl (segments, e) ↦ elim (Result-cases (parse_all rest)) [
    | inl (more, k) ↦ record {
      segments = segments;
      more = more;
      here = e;
      later = k;
      all = ground (arith, e, k);
    }
    | inr (e', k) ↦ absurd (ground (arith, e, k))
  ]
  | inr (e', k) ↦ absurd (ground (arith, k))
]

-- Every parsed filter has its `#` last.
parsed-HashLast :
    (routes : List PublicationRoute) (parsed : List (List ℕ × List (List ℕ)))
    → parse_all routes ≡ ok parsed
    → All (λ p. HashLast p.1) parsed
unfolding parse_all
parsed-HashLast [] parsed h = subst (All (λ p. HashLast p.1)) {x = []} (ground arith) tt
parsed-HashLast (r ∷ rest) parsed h =
    let v = parse_all-Parsed r rest parsed h in
    subst (All (λ p. HashLast p.1)) v.all
      (parse-HashLast r.topic_filter v.here, parsed-HashLast rest v.more v.later)

-- A filter that matches the topic, without an overlap with those after it: none of those matches.
others_silent :
    (topic left : List (List ℕ)) (name : List ℕ) (rest : List (List ℕ × List (List ℕ)))
    → HashLast left
    → All (λ p. HashLast p.1) rest
    → segments_match topic left ≡ true
    → any (λ right. text_eq name right.0 || filters_overlap left right.1) rest ≡ false
    → any (λ p. segments_match topic p.1) rest ≡ false
others_silent topic left name [] hl hr m h = refl
others_silent topic left name (p ∷ rest) hl hr m h = ground (
  arith,
  filters_overlap_lem left p.1 topic hl hr.0 m,
  others_silent topic left name rest hl hr.1 m,
)

silent :
    (topic : List ℕ) (routes : List PublicationRoute) (parsed : List (List ℕ × List (List ℕ)))
    → parse_all routes ≡ ok parsed
    → any (λ p. segments_match (split b'/' topic) p.1) parsed ≡ false
    → matching_routes topic routes ≡ ok []
unfolding matching_routes
silent topic [] parsed h k = refl
silent topic (r ∷ rest) parsed h k =
    let v = parse_all-Parsed r rest parsed h in
    let k' =
      subst (λ l. any (λ p. segments_match (split b'/' topic) p.1) l ≡ false) (sym v.all) k in
    ground (arith, v.here, silent topic rest v.more v.later)

check_pairs_inv :
    (name : List ℕ) (left : List (List ℕ)) (rest : List (List ℕ × List (List ℕ)))
    → check_pairs ((name, left) ∷ rest) ≡ ok tt
    → (any (λ right. text_eq name right.0 || filters_overlap left right.1) rest ≡ false)
      × (check_pairs rest ≡ ok tt)
unfolding check_pairs
check_pairs_inv name left rest h = ground arith

at_most_one :
    (topic : List ℕ) (routes : List PublicationRoute) (parsed : List (List ℕ × List (List ℕ)))
    → parse_all routes ≡ ok parsed
    → check_pairs parsed ≡ ok tt
    → (found : List PublicationRoute) × (matching_routes topic routes ≡ ok found)
      × (length found ≤ 1)
unfolding matching_routes
at_most_one topic [] parsed h k = ([], refl, omega arith)
at_most_one topic (r ∷ rest) parsed h k =
    let v = parse_all-Parsed r rest parsed h in
    let k' = subst (λ l. check_pairs l ≡ ok tt) (sym v.all) k in
    let pairs = check_pairs_inv r.topic_filter v.segments v.more k' in
    elim (Bool-cases (segments_match (split b'/' topic) v.segments)) [
      | inl q ↦
          let quiet =
            others_silent (split b'/' topic) v.segments r.topic_filter v.more
              (parse-HashLast r.topic_filter v.here) (parsed-HashLast rest v.more v.later) q
              pairs.0 in
          (r ∷ [], ground (arith, v.here, silent topic rest v.more v.later quiet), omega arith)
      | inr q ↦
          let (found, e, n) = at_most_one topic rest v.more v.later pairs.1 in
          (found, ground (arith, v.here, e), n)
    ]

one_or_none :
    (topic : List ℕ) (routes found : List PublicationRoute)
    → matching_routes topic routes ≡ ok found
    → length found ≤ 1
    → ((r : PublicationRoute) × (resolve_route topic routes ≡ ok r))
      ⊎ (resolve_route topic routes ≡ err unknown_route)
unfolding resolve_route
one_or_none topic routes [] m n = inr (ground arith)
one_or_none topic routes (r ∷ []) m n = inl (r, ground arith)
one_or_none topic routes (r ∷ s ∷ more) m n = absurd (omega arith)

-- Routes that pass validation are never ambiguous: whatever the topic, one route is found, or the
-- topic is unknown.
pub resolve_route-validated :
    (topic : List ℕ) (routes : List PublicationRoute)
    → validate_routes routes ≡ ok tt
    → ((r : PublicationRoute) × (resolve_route topic routes ≡ ok r))
      ⊎ (resolve_route topic routes ≡ err unknown_route)
unfolding validate_routes
resolve_route-validated topic routes h = elim (Result-cases (parse_all routes)) [
  | inl (parsed, e) ↦
      let (found, m, n) = at_most_one topic routes parsed e (ground (arith, e)) in
      one_or_none topic routes found m n
  | inr (e, failed) ↦ absurd (ground (arith, failed))
]
