-- ===== src/Datalake/Prefix/Commit.antt =====
-- What `next_offset` may be committed as.
use manufacturing_uns.Prelude.{
  [], ◌∷◌, none, some, true, false, refl, ℕ, Option, List, ◌≡◌, ◌<◌, All, leb, ◌≤◌, arith, filter,
  suc, Bool-cases, ◌&&◌, inl, inr, lt→leb, ◌==◌, subst, le→leb, All-map, sym, any, ◌+◌, All-zip,
  ltb, filter-All, not, All-filter, ◌∙◌,
}
use manufacturing_uns.Prelude.Result.{ok}
use manufacturing_uns.Datalake.Prefix.{
  ConsumedPrefix, member, after, next_from, next_offset, unresolved_before, has_unresolved_before,
  resolve, discard_committed,
}
use manufacturing_uns.Datalake.Prefix.Valid.{IsValid, RisesFrom, member-filter, discard_inv}

member-ge : (m o : ℕ) (l : List ℕ) → RisesFrom m l → member o l ≡ true → m ≤ o
unfolding member
member-ge m o [] h k = absurd (ground arith)
member-ge m o (x ∷ r) h k = ground (arith, member-ge (suc x) o r h.1)

-- The last resolved offset lies before `m`.
abbrev Before : ℕ → Option ℕ → Type 0
Before m none = Unit
Before m (some x) = x < m

after-le : (m n : ℕ) (last : Option ℕ) → Before m last → after last ≡ some n → n ≤ m
unfolding after
after-le m n none h k = absurd (ground arith)
after-le m n (some x) h k = ground arith

next_from-safe :
    (m n o : ℕ) (last : Option ℕ) (l resolved : List ℕ)
    → RisesFrom m l
    → Before m last
    → next_from last l resolved ≡ some n
    → member o l ≡ true
    → o < n
    → member o resolved ≡ true
unfolding next_from
next_from-safe m n o last [] resolved h b e k lt = unfold member in absurd (ground arith)
next_from-safe m n o last (x ∷ r) resolved h b e k lt = elim (Bool-cases (member x resolved)) [
  | inl q ↦ elim (Bool-cases (x == o)) [
    | inl same ↦ let eq : x ≡ o = ground arith in subst (λ z. member z resolved ≡ true) eq q
    | inr other ↦
        next_from-safe (suc x) n o (some x) r resolved h.1 (omega arith) (ground arith)
          (unfold member in ground arith) lt
  ]
  | inr q ↦ absurd (ground (arith, after-le m n last b, member-ge m o (x ∷ r) h k))
]

next_from-gt :
    (m n x : ℕ) (l resolved : List ℕ)
    → RisesFrom m l
    → x < m
    → next_from (some x) l resolved ≡ some n
    → x < n
unfolding next_from
next_from-gt m n x [] resolved h b e = unfold after in ground arith
next_from-gt m n x (y ∷ r) resolved h b e = elim (Bool-cases (member y resolved)) [
  | inl q ↦ omega (arith, next_from-gt (suc y) n y r resolved h.1 (omega arith) (ground arith))
  | inr q ↦ unfold after in ground arith
]

next_from-congr :
    (last : Option ℕ) (l R R' : List ℕ)
    → All (λ o. member o R ≡ member o R') l
    → next_from last l R ≡ next_from last l R'
unfolding next_from
next_from-congr last [] R R' h = refl
next_from-congr last (x ∷ r) R R' h = rw (h.0, next_from-congr (some x) r R R' h.1)

next_from-none :
    (m n : ℕ) (l resolved : List ℕ) (x : ℕ)
    → leb n x ≡ true
    → member x resolved ≡ false
    → next_from none (filter (λ o. leb n o) (x ∷ l)) resolved ≡ none
unfolding next_from
next_from-none m n l resolved x h k = rw (h, next_from, k) (unfold after in refl)

next_from-done :
    (m n : ℕ) (last : Option ℕ) (l resolved : List ℕ)
    → RisesFrom m l
    → Before m last
    → next_from last l resolved ≡ some n
    → next_from none (filter (λ o. leb n o) l) resolved ≡ none
unfolding next_from
next_from-done m n last [] resolved h b e = unfold after in refl
next_from-done m n last (x ∷ r) resolved h b e = elim (Bool-cases (member x resolved)) [
  | inl q ↦
      let rest : next_from (some x) r resolved ≡ some n = ground arith in
      rw (lt→leb n x (next_from-gt (suc x) n x r resolved h.1 (omega arith) rest))
        (next_from-done (suc x) n (some x) r resolved h.1 (omega arith) rest)
  | inr q ↦ next_from-none m n r resolved x (le→leb n x (ground (arith, after-le m n last b))) q
]

-- For a ledger that is valid: every observed offset below the one that `next_offset` returns is
-- resolved, so a commit there passes no record that is not.
pub next_offset-safe :
    (p : ConsumedPrefix) (n o : ℕ)
    → IsValid p
    → next_offset p ≡ some n
    → member o p.observed ≡ true
    → o < n
    → member o p.resolved ≡ true
unfolding next_offset
next_offset-safe p n o v e k lt = next_from-safe 0 n o none p.observed p.resolved v.rises tt e k lt

resolved-same :
    (n : ℕ) (l whole R : List ℕ)
    → All (λ o. (leb n o ≡ true) × (member o whole ≡ true)) l
    → All (λ o. member o R ≡ member o (filter (λ o. leb n o && member o R) whole)) l
resolved-same n [] whole R h = tt
resolved-same n (x ∷ l) whole R h = (
  ground (arith, h.0, member-filter (λ o. leb n o && member o R) x whole),
  resolved-same n l whole R h.1,
)

member_self : (l : List ℕ) → All (λ o. member o l ≡ true) l
unfolding member
member_self [] = tt
member_self (x ∷ l) = (
  ground arith,
  All-map (λ o. member o l ≡ true) (λ o. member o (x ∷ l) ≡ true) l (λ o h. ground arith)
      (member_self l),
)

-- For a ledger that is valid: after the offset that `next_offset` returns is committed and
-- discarded, no further offset may be committed until a record is resolved or observed, and every
-- offset that was dropped from the ledger was resolved.
pub discard-next_offset :
    (p q : ConsumedPrefix) (n : ℕ)
    → IsValid p
    → next_offset p ≡ some n
    → discard_committed p n ≡ ok q
    → (next_offset q ≡ none)
      × ((o : ℕ)
          → member o p.observed ≡ true
          → member o q.observed ≡ false
          → member o p.resolved ≡ true)
unfolding next_offset
discard-next_offset p q n v e d =
    let same = discard_inv p q n d in
    (
      subst (λ z. next_from none z.observed z.resolved ≡ none) (sym same)
          (sym (
              next_from-congr none (filter (λ o. leb n o) p.observed) p.resolved _ (
                resolved-same n (filter (λ o. leb n o) p.observed) p.observed p.resolved (
                  All-zip (λ o. leb n o ≡ true) (λ o. member o p.observed ≡ true)
                    (filter (λ o. leb n o) p.observed) (filter-All (λ o. leb n o) p.observed)
                    (All-filter (λ o. member o p.observed ≡ true) (λ o. leb n o) p.observed
                      (member_self p.observed)))))
            ∙ next_from-done 0 n none p.observed p.resolved v.rises tt e),
      λ o k l. next_offset-safe p n o v e k (
          ground (
            arith,
            member-filter (λ o. leb n o) o p.observed,
            subst (λ z. member o z.observed ≡ false) same l,
          )),
    )

next_from-lower :
    (m x : ℕ) (l resolved : List ℕ)
    → RisesFrom m l
    → x < m
    → (n : ℕ) × (next_from (some x) l resolved ≡ some n) × (x < n)
unfolding next_from
next_from-lower m x [] resolved h b = unfold after in (x + 1, refl, omega arith)
next_from-lower m x (y ∷ r) resolved h b = elim (Bool-cases (member y resolved)) [
  | inl q ↦
      let (n, e, lt) = next_from-lower (suc y) y r resolved h.1 (omega arith) in
      (n, rw (q, next_from) e, omega arith)
  | inr q ↦ unfold after in (x + 1, rw (q, next_from), omega arith)
]

next_from-grows :
    (m n o : ℕ) (last : Option ℕ) (l resolved : List ℕ)
    → RisesFrom m l
    → Before m last
    → next_from last l resolved ≡ some n
    → (n' : ℕ) × (next_from last l (o ∷ resolved) ≡ some n') × (n ≤ n')
unfolding next_from
next_from-grows m n o last [] resolved h b e = (n, e, omega arith)
next_from-grows m n o last (x ∷ r) resolved h b e = elim (Bool-cases (member x (o ∷ resolved))) [
  | inr q ↦ (n, rw (q, next_from) (unfold member in ground arith), omega arith)
  | inl q ↦ elim (Bool-cases (member x resolved)) [
    | inl old ↦
        let (n', e', le) =
          next_from-grows (suc x) n o (some x) r resolved h.1 (omega arith) (ground arith) in
        (n', rw (q, next_from) e', le)
    | inr new ↦
        let (n', e', lt) = next_from-lower (suc x) x r (o ∷ resolved) h.1 (omega arith) in
        (n', rw (q, next_from) e', ground (arith, after-le m n last b))
  ]
]

-- For a ledger that is valid: resolving an observed offset succeeds, and the offset that may be
-- committed never falls by it.
pub resolve-next_offset :
    (p : ConsumedPrefix) (n o : ℕ)
    → IsValid p
    → next_offset p ≡ some n
    → member o p.observed ≡ true
    → (q : ConsumedPrefix) × (resolve p o ≡ ok q)
      × ((n' : ℕ) × (next_offset q ≡ some n') × (n ≤ n'))
unfolding next_offset resolve
resolve-next_offset p n o v e k = (
  record p { resolved = o ∷ p.resolved },
  rw (v.same_set o, k),
  next_from-grows 0 n o none p.observed p.resolved v.rises tt e,
)

none_before :
    (m k : ℕ) (l resolved : List ℕ)
    → RisesFrom m l
    → k ≤ m
    → any (λ o. ltb o k && not (member o resolved)) l ≡ false
none_before m k [] resolved h b = refl
none_before m k (x ∷ r) resolved h b = ground (arith, none_before (suc x) k r resolved h.1)

unresolved_before-any :
    (m k : ℕ) (l resolved : List ℕ)
    → RisesFrom m l
    → unresolved_before k l resolved ≡ any (λ o. ltb o k && not (member o resolved)) l
unfolding unresolved_before
unresolved_before-any m k [] resolved h = refl
unresolved_before-any m k (x ∷ r) resolved h =
    ground
      (arith, unresolved_before-any (suc x) k r resolved h.1, none_before (suc x) k r resolved h.1)

-- For a ledger that is valid: `has_unresolved_before` holds exactly when some observed offset below
-- the given one is not resolved; its early return loses none.
pub has_unresolved_before-any :
    (p : ConsumedPrefix) (k : ℕ)
    → IsValid p
    → has_unresolved_before p k ≡ any (λ o. ltb o k && not (member o p.resolved)) p.observed
unfolding has_unresolved_before
has_unresolved_before-any p k v = unresolved_before-any 0 k p.observed p.resolved v.rises
