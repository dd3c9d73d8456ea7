-- ===== src/Config/Routes/Matches.antt =====
-- MQTT topic filters: `_segments_match` of publication_routes.py beside the rules of MQTT, level by level.
use manufacturing_uns.Prelude.Result.{Result-cases}
use manufacturing_uns.Config.Topics.{text_eq_refl, text_eq→eq}
use manufacturing_uns.Config.Routes.Ambiguity.{HashLast, parse-HashLast}
use manufacturing_uns.Config.Routes.{
  segments_match, hash, plus, text_eq, check_segments, wildcard_root, parse_topic_filter, ok,
  starts_with, split,
}
use manufacturing_uns.Prelude.{
  [], ◌∷◌, inl, inr, List, ℕ, ◌≡◌, true, arith, ◌↔◌, subst, refl, sym, Bool-cases, get_elem?, some,
  length, ◌≤◌, ◌⊎◌, ◌++◌, any, Bool, false, ap, suc, ◌∙◌, zero,
}

-- The level of a topic fits that of a filter.
abbrev pub Fits : List ℕ → List ℕ → Type 0
Fits f t = (f ≡ plus) ⊎ (f ≡ t)

-- The first character of the topic is `$`.
abbrev pub is_system : List (List ℕ) → Bool
is_system [] = false
is_system (t ∷ topic) = starts_with t (b'$' ∷ [])

-- The rules of MQTT: the levels of the filter before a `#` at its end, if there is one, fit those of the
-- topic one by one; without the `#` the topic has no more levels; and no filter that starts with a
-- wildcard matches a topic that starts with `$`.
pub record MqttMatches (topic filter : List (List ℕ)) : Type 0 where
  pub levels : List (List ℕ)
  pub plain : any (λ f. text_eq f hash) levels ≡ false
  pub whole :
      ((filter ≡ levels) × (length topic ≡ length levels))
      ⊎ ((filter ≡ levels ++ hash ∷ []) × (length levels ≤ length topic))
  pub fits :
      (i : ℕ) (t f : List ℕ) → get_elem? topic i ≡ some t → get_elem? levels i ≡ some f → Fits f t
  pub system : is_system topic ≡ true → wildcard_root filter ≡ false

parse-wildcard_root :
    (topic_filter : List ℕ) (filter : List (List ℕ))
    → parse_topic_filter topic_filter ≡ ok filter
    → wildcard_root filter ≡ false
unfolding parse_topic_filter
parse-wildcard_root topic_filter filter h =
    let segments = split b'/' topic_filter in
    elim (Result-cases (check_segments segments)) [
      | inl (u, e) ↦ elim (Bool-cases (wildcard_root segments)) [
        | inl q ↦ absurd (ground (arith, e, q, h))
        | inr q ↦
            let same : segments ≡ filter = ground (arith, e, q, h) in
            subst (λ f. wildcard_root f ≡ false) same q
      ]
      | inr (x, failed) ↦ absurd (ground (arith, failed, h))
    ]

-- What a match says of the levels, the rule on `$` apart.
record Levels (topic filter : List (List ℕ)) : Type 0 where
  levels : List (List ℕ)
  plain : any (λ f. text_eq f hash) levels ≡ false
  whole :
      ((filter ≡ levels) × (length topic ≡ length levels))
      ⊎ ((filter ≡ levels ++ hash ∷ []) × (length levels ≤ length topic))
  fits :
      (i : ℕ) (t f : List ℕ) → get_elem? topic i ≡ some t → get_elem? levels i ≡ some f → Fits f t

hash-Levels :
    (topic filter : List (List ℕ)) (f : List ℕ)
    → text_eq f hash ≡ true
    → filter ≡ []
    → Levels topic (f ∷ filter)
hash-Levels topic filter f h e = record {
  levels = [];
  plain = refl;
  whole = inr (ap (λ z. z ∷ filter) (text_eq→eq f hash h) ∙ ap (λ z. hash ∷ z) e, omega arith);
  fits = λ i t g p q. absurd (ground arith);
}

cons-Levels :
    (topic filter : List (List ℕ)) (t f : List ℕ)
    → text_eq f hash ≡ false
    → Fits f t
    → Levels topic filter
    → Levels (t ∷ topic) (f ∷ filter)
cons-Levels topic filter t f n h v = record {
  levels = f ∷ v.levels;
  plain = ground (arith, n, v.plain);
  whole = elim v.whole [
    | inl (e, l) ↦ inl (ap (λ z. f ∷ z) e, omega (arith, l))
    | inr (e, l) ↦ inr (ap (λ z. f ∷ z) e, omega (arith, l))
  ];
  fits = shifted;
}
  where
    shifted :
        (i : ℕ) (u g : List ℕ)
        → get_elem? (t ∷ topic) i ≡ some u
        → get_elem? (f ∷ v.levels) i ≡ some g
        → Fits g u
    shifted zero u g p q =
        let same_t : t ≡ u = cc in
        let same_f : f ≡ g = cc in subst (λ z. Fits z u) same_f (subst (Fits f) same_t h)
    shifted (suc i) u g p q = v.fits i u g p q

sound :
    (topic filter : List (List ℕ))
    → HashLast filter
    → segments_match topic filter ≡ true
    → Levels topic filter
unfolding segments_match
sound [] [] l h = record {
  levels = [];
  plain = refl;
  whole = inl (refl, refl);
  fits = λ i t f p q. absurd (ground arith);
}
sound (t ∷ topic) [] l h = absurd (ground arith)
sound [] (f ∷ filter) l h = hash-Levels [] filter f h (l.0 h)
sound (t ∷ topic) (f ∷ filter) l h = elim (Bool-cases (text_eq f hash)) [
  | inl q ↦ hash-Levels (t ∷ topic) filter f q (l.0 q)
  | inr q ↦ elim (Bool-cases (text_eq f plus)) [
    | inl p ↦
        cons-Levels topic filter t f q (inl (text_eq→eq f plus p))
          (sound topic filter l.1 (ground arith))
    | inr p ↦ elim (Bool-cases (text_eq f t)) [
      | inl e ↦
          cons-Levels topic filter t f q (inr (text_eq→eq f t e))
            (sound topic filter l.1 (ground arith))
      | inr e ↦ absurd (ground arith)
    ]
  ]
]

matched_level :
    (topic filter : List (List ℕ)) (t f : List ℕ)
    → Fits f t
    → segments_match topic filter ≡ true
    → segments_match (t ∷ topic) (f ∷ filter) ≡ true
unfolding segments_match
matched_level topic filter t f (inl e) h =
    subst (λ g. segments_match (t ∷ topic) (g ∷ filter) ≡ true) (sym e)
      (unfold segments_match in ground (arith, h, text_eq_refl plus))
matched_level topic filter t f (inr e) h =
    subst (λ g. segments_match (t ∷ topic) (g ∷ filter) ≡ true) (sym e)
      (unfold segments_match in ground (arith, h, text_eq_refl t))

complete_exact :
    (levels topic : List (List ℕ))
    → length topic ≡ length levels
    → ((i : ℕ) (t f : List ℕ) → get_elem? topic i ≡ some t → get_elem? levels i ≡ some f → Fits f t)
    → segments_match topic levels ≡ true
complete_exact [] [] e v = unfold segments_match in refl
complete_exact [] (t ∷ topic) e v = absurd (omega (arith, e))
complete_exact (f ∷ levels) [] e v = absurd (omega (arith, e))
complete_exact (f ∷ levels) (t ∷ topic) e v =
    matched_level topic levels t f (v 0 t f refl refl)
      (complete_exact levels topic (omega (arith, e)) (λ i. v (suc i)))

complete_hash :
    (levels topic : List (List ℕ))
    → length levels ≤ length topic
    → ((i : ℕ) (t f : List ℕ) → get_elem? topic i ≡ some t → get_elem? levels i ≡ some f → Fits f t)
    → segments_match topic (levels ++ hash ∷ []) ≡ true
complete_hash [] [] e v = unfold segments_match in refl
complete_hash [] (t ∷ topic) e v = unfold segments_match in refl
complete_hash (f ∷ levels) [] e v = absurd (omega (arith, e))
complete_hash (f ∷ levels) (t ∷ topic) e v =
    matched_level topic (levels ++ hash ∷ []) t f (v 0 t f refl refl)
      (complete_hash levels topic (omega (arith, e)) (λ i. v (suc i)))

complete :
    (topic filter : List (List ℕ)) → MqttMatches topic filter → segments_match topic filter ≡ true
complete topic filter m = elim m.whole [
  | inl (e, l) ↦
      subst (λ f. segments_match topic f ≡ true) (sym e) (complete_exact m.levels topic l m.fits)
  | inr (e, l) ↦
      subst (λ f. segments_match topic f ≡ true) (sym e) (complete_hash m.levels topic l m.fits)
]

-- For every filter that a route may have, the matcher says yes exactly where the rules of MQTT do, with
-- those on `#` at the end and on topics that start with `$`.
pub segments_match_iff :
    (topic_filter : List ℕ) (filter topic : List (List ℕ))
    → parse_topic_filter topic_filter ≡ ok filter
    → (segments_match topic filter ≡ true) ↔ MqttMatches topic filter
segments_match_iff topic_filter filter topic h = (
  λ m.
      let v = sound topic filter (parse-HashLast topic_filter h) m in
      record {
        levels = v.levels;
        plain = v.plain;
        whole = v.whole;
        fits = v.fits;
        system = λ d. parse-wildcard_root topic_filter filter h;
      },
  complete topic filter,
)
