-- ===== src/Kafka/Ownership.antt =====
-- Which source owns a topic: `resolve_ownership` and `validate_ownership_mappings` of
-- 06_uns_kafka/src/uns_kafka/ingest.py, with OwnershipMapping. A text is the list of its code points.
use manufacturing_uns.Prelude.{
  [], ◌∷◌, none, some, inl, inr, List, Bool, ℕ, if◌then◌else◌, map, ◌≡◌, Bool-cases, length, filter,
  ltb, Option, true, ◌&&◌, ◌⊎◌, ◌≤◌, arith, false, not, leb, ap, subst, refl, any, ltb→lt, sym,
  ltb→ge, ◌∙◌,
}
use manufacturing_uns.Prelude.Split.{starts_with}
use manufacturing_uns.Config.Topics.{text_eq}

pub record OwnershipMapping : Type 0 where
  pub topic_prefix : List ℕ
  pub site_id : List ℕ
  pub source_id : List ℕ

unfoldable pub matching : List ℕ → List OwnershipMapping → List OwnershipMapping
unfolding starts_with
matching topic mappings = filter (λ m. starts_with topic m.topic_prefix) mappings

-- `max(..., key=...)`: the first of the greatest.
unfoldable pub longest : OwnershipMapping → List OwnershipMapping → OwnershipMapping
longest best [] = best
longest best (m ∷ rest) =
    let replaced = longest m rest in
    let kept = longest best rest in
    if ltb (length best.topic_prefix) (length m.topic_prefix) then replaced else kept

unfoldable pub resolve_ownership : List ℕ → List OwnershipMapping → Option OwnershipMapping
unfolding matching longest
resolve_ownership topic mappings = elim (matching topic mappings) [
  | [] ↦ none
  | m ∷ rest ↦ some (longest m rest)
]

-- `len(prefixes) == len(set(prefixes))`.
unfoldable pub unique : List (List ℕ) → Bool
unfolding text_eq
unique [] = true
unique (p ∷ rest) = not (any (text_eq p) rest) && unique rest

-- What does not raise. Its second test, on empty prefixes, cannot fail after the first.
unfoldable pub ownership_valid : List OwnershipMapping → Bool
unfolding unique
ownership_valid mappings =
    let prefixes = map (λ m. m.topic_prefix) mappings in
    unique prefixes && leb (length (filter (text_eq []) prefixes)) 1

-- `m` is one of the mappings.
abbrev pub OneOf : OwnershipMapping → List OwnershipMapping → Type 0
OneOf m [] = ⊥
OneOf m (x ∷ rest) = (x ≡ m) ⊎ OneOf m rest

pub record Owns (topic : List ℕ) (mappings : List OwnershipMapping) (m : OwnershipMapping)
    : Type 0 where
  pub listed : OneOf m mappings
  pub matches : starts_with topic m.topic_prefix ≡ true
  pub longest :
      (other : OwnershipMapping)
      → OneOf other mappings
      → starts_with topic other.topic_prefix ≡ true
      → length other.topic_prefix ≤ length m.topic_prefix

longest_replaced :
    (best m : OwnershipMapping) (rest : List OwnershipMapping)
    → ltb (length best.topic_prefix) (length m.topic_prefix) ≡ true
    → longest best (m ∷ rest) ≡ longest m rest
unfolding longest
longest_replaced best m rest q = rw q refl

longest_kept :
    (best m : OwnershipMapping) (rest : List OwnershipMapping)
    → ltb (length best.topic_prefix) (length m.topic_prefix) ≡ false
    → longest best (m ∷ rest) ≡ longest best rest
unfolding longest
longest_kept best m rest q = rw q refl

longest-OneOf :
    (best : OwnershipMapping) (ms : List OwnershipMapping) → OneOf (longest best ms) (best ∷ ms)
unfolding longest
longest-OneOf best [] = inl refl
longest-OneOf best (m ∷ rest) =
    elim (Bool-cases (ltb (length best.topic_prefix) (length m.topic_prefix))) [
      | inl q ↦
          subst (λ z. OneOf z (best ∷ m ∷ rest)) (sym (longest_replaced best m rest q))
            (inr (longest-OneOf m rest))
      | inr q ↦
          subst (λ z. OneOf z (best ∷ m ∷ rest)) (sym (longest_kept best m rest q))
            (elim (longest-OneOf best rest) [ inl e ↦ inl e | inr later ↦ inr (inr later) ])
    ]

longest-le :
    (best : OwnershipMapping) (ms : List OwnershipMapping) (other : OwnershipMapping)
    → OneOf other (best ∷ ms)
    → length other.topic_prefix ≤ length (longest best ms).topic_prefix
unfolding longest
longest-le best [] other (inl p) = omega (arith, ap (λ m. length m.topic_prefix) p)
longest-le best [] other (inr p) = elim p [ ]
longest-le best (m ∷ rest) other o =
    elim (Bool-cases (ltb (length best.topic_prefix) (length m.topic_prefix))) [
      | inl q ↦ rw q (elim o [
        | inl e ↦
            omega (
              arith,
              ap (λ x. length x.topic_prefix) e,
              ltb→lt _ _ q,
              longest-le m rest m (inl refl),
            )
        | inr later ↦ longest-le m rest other later
      ])
      | inr q ↦ rw q (elim o [
        | inl e ↦ longest-le best rest other (inl e)
        | inr (inl e) ↦ omega (
          arith,
          ap (λ x. length x.topic_prefix) e,
          ltb→ge _ _ q,
          longest-le best rest best (inl refl),
        )
        | inr (inr later) ↦ longest-le best rest other (inr later)
      ])
    ]

filter-OneOf :
    (p : OwnershipMapping → Bool) (x : OwnershipMapping) (ms : List OwnershipMapping)
    → OneOf x (filter p ms)
    → OneOf x ms × (p x ≡ true)
filter-OneOf p x [] o = elim o [ ]
filter-OneOf p x (m ∷ ms) o = elim (Bool-cases (p m)) [
  | inl q ↦ elim (subst (λ b. OneOf x (if b then m ∷ filter p ms else filter p ms)) q o) [
    | inl e ↦ (inl e, sym (ap p e) ∙ q)
    | inr later ↦ let ih = filter-OneOf p x ms later in (inr ih.0, ih.1)
  ]
  | inr q ↦
      let ih =
        filter-OneOf p x ms
          (subst (λ b. OneOf x (if b then m ∷ filter p ms else filter p ms)) q o) in
      (inr ih.0, ih.1)
]

OneOf-filter :
    (p : OwnershipMapping → Bool) (x : OwnershipMapping) (ms : List OwnershipMapping)
    → OneOf x ms
    → p x ≡ true
    → OneOf x (filter p ms)
OneOf-filter p x [] o h = elim o [ ]
OneOf-filter p x (m ∷ ms) (inl e) h =
    subst (λ b. OneOf x (if b then m ∷ filter p ms else filter p ms)) (sym (ap p e ∙ h)) (inl e)
OneOf-filter p x (m ∷ ms) (inr o) h = elim (Bool-cases (p m)) [
  | inl q ↦ rw q (inr (OneOf-filter p x ms o h))
  | inr q ↦ rw q (OneOf-filter p x ms o h)
]

found-Owns :
    (topic : List ℕ) (mappings : List OwnershipMapping) (m : OwnershipMapping)
    (found : List OwnershipMapping)
    → matching topic mappings ≡ found
    → elim found [ [] ↦ none | x ∷ rest ↦ some (longest x rest) ] ≡ some m
    → Owns topic mappings m
unfolding matching
found-Owns topic mappings m [] e h = absurd (ground arith)
found-Owns topic mappings m (x ∷ rest) e h = record {
  listed = here.0;
  matches = here.1;
  longest = λ other o s.
      subst (λ z. length other.topic_prefix ≤ length z.topic_prefix) same
        (longest-le x rest other (subst (OneOf other) e (OneOf-filter test other mappings o s)));
}
  where
    test : OwnershipMapping → Bool
    test y = starts_with topic y.topic_prefix

    same : longest x rest ≡ m
    same = cc

    here : OneOf m mappings × (test m ≡ true)
    here = filter-OneOf test m mappings (
        subst (λ l. OneOf m l) (sym e)
          (subst (λ z. OneOf z (x ∷ rest)) same (longest-OneOf x rest)))

-- The owner of a topic is one of the mappings whose prefix starts the topic, and no mapping that
-- matches has a longer prefix.
pub resolve_ownership-Owns :
    (topic : List ℕ) (mappings : List OwnershipMapping) (m : OwnershipMapping)
    → resolve_ownership topic mappings ≡ some m
    → Owns topic mappings m
unfolding resolve_ownership
resolve_ownership-Owns topic mappings m h =
    found-Owns topic mappings m (matching topic mappings) refl h
