-- ===== src/Datalake/Prefix/Valid.antt =====
-- The invariant of the ledger, and that every operation keeps it.
use manufacturing_uns.Prelude.{
  [], ◌∷◌, some, true, refl, ℕ, List, ◌≡◌, Bool, ◌≤◌, last?, filter, ◌++◌, suc, arith, ◌<◌,
  Bool-cases, ◌==◌, ◌&&◌, ◌||◌, inl, inr, Option-cases, subst, leb, sym,
}
use manufacturing_uns.Prelude.Result.{ok}
use manufacturing_uns.Datalake.Prefix.{
  ConsumedPrefix, member, new_prefix, observe, resolve, discard_committed,
}

-- Strictly rising, from `m` on.
abbrev pub RisesFrom : ℕ → List ℕ → Type 0
RisesFrom m [] = Unit
RisesFrom m (o ∷ r) = (m ≤ o) × RisesFrom (suc o) r

-- The offsets rise, the set holds the offsets of the list, and what is resolved was observed.
pub record IsValid (p : ConsumedPrefix) : Type 0 where
  pub rises : RisesFrom 0 p.observed
  pub same_set : (o : ℕ) → member o p.observed_set ≡ member o p.observed
  pub known : (o : ℕ) → member o p.resolved ≡ true → member o p.observed ≡ true

pub new_prefix-IsValid : IsValid new_prefix
unfolding new_prefix member
new_prefix-IsValid = record { rises = tt; same_set = λ o. refl; known = λ o h. h }

member-append : (o x : ℕ) (l : List ℕ) → member o (l ++ x ∷ []) ≡ (x == o || member o l)
unfolding member
member-append o x [] = refl
member-append o x (y ∷ l) = ground (arith, member-append o x l)

pub RisesFrom-le : (m m' : ℕ) (l : List ℕ) → m' ≤ m → RisesFrom m l → RisesFrom m' l
RisesFrom-le m m' [] h k = tt
RisesFrom-le m m' (o ∷ r) h k = (omega arith, k.1)

rises_append :
    (m x : ℕ) (l : List ℕ)
    → RisesFrom m l
    → ((o : ℕ) → last? l ≡ some o → o < x)
    → m ≤ x
    → RisesFrom m (l ++ x ∷ [])
rises_append m x [] h k n = (n, tt)
rises_append m x (o ∷ []) h k n = (h.0, (k o refl, tt))
rises_append m x (o ∷ o' ∷ r) h k n =
    (h.0, rises_append (suc o) x (o' ∷ r) h.1 k (last-bound o' r h.1 k))
  where
    last-bound :
        (o' : ℕ) (r : List ℕ)
        → RisesFrom (suc o) (o' ∷ r)
        → ((z : ℕ) → last? (o' ∷ r) ≡ some z → z < x)
        → suc o ≤ x
    last-bound o' [] h k = omega (arith, k o' refl)
    last-bound o' (o'' ∷ r) h k = last-bound o'' r (omega arith, h.1.1) k

rises_filter : (f : ℕ → Bool) (m : ℕ) (l : List ℕ) → RisesFrom m l → RisesFrom m (filter f l)
rises_filter f m [] h = tt
rises_filter f m (o ∷ r) h = elim (Bool-cases (f o)) [
  | inl q ↦ rw q (h.0, rises_filter f (suc o) r h.1)
  | inr q ↦ rw q (RisesFrom-le (suc o) m (filter f r) (omega arith) (rises_filter f (suc o) r h.1))
]

pub member-filter :
    (f : ℕ → Bool) (o : ℕ) (l : List ℕ) → member o (filter f l) ≡ (f o && member o l)
unfolding member
member-filter f o [] = ground arith
member-filter f o (x ∷ l) = elim (Bool-cases (x == o)) [
  | inl e ↦ let same : x ≡ o = ground arith in rw same (ground (arith, member-filter f o l))
  | inr e ↦ ground (arith, member-filter f o l)
]

-- The ledger with one more offset.
abbrev pushed : ConsumedPrefix → ℕ → ConsumedPrefix
pushed p offset = record p {
  observed = p.observed ++ offset ∷ [];
  observed_set = offset ∷ p.observed_set;
}

observe_inv :
    (p q : ConsumedPrefix) (offset : ℕ)
    → observe p offset ≡ ok q
    → (q ≡ pushed p offset) × ((o : ℕ) → last? p.observed ≡ some o → o < offset)
unfolding observe
observe_inv p q offset h = elim (Option-cases (last? p.observed)) [
  | inl e ↦ (ground arith, λ o k. absurd (ground arith))
  | inr (newest, e) ↦ elim (Bool-cases (leb offset newest)) [
    | inl b ↦ absurd (ground arith)
    | inr b ↦ (ground arith, λ o k. ground arith)
  ]
]

member-cons : (o x : ℕ) (l : List ℕ) → member o (x ∷ l) ≡ (x == o || member o l)
unfolding member
member-cons o x l = refl

pushed-IsValid :
    (p : ConsumedPrefix) (offset : ℕ)
    → IsValid p
    → ((o : ℕ) → last? p.observed ≡ some o → o < offset)
    → IsValid (pushed p offset)
pushed-IsValid p offset v b = record {
  rises = rises_append 0 offset p.observed v.rises b (omega arith);
  same_set = λ o.
      ground (
        arith,
        member-cons o offset p.observed_set,
        member-append o offset p.observed,
        v.same_set o,
      );
  known = λ o h. ground (arith, member-append o offset p.observed, v.known o);
}

pub observe-IsValid :
    (p q : ConsumedPrefix) (offset : ℕ) → IsValid p → observe p offset ≡ ok q → IsValid q
observe-IsValid p q offset v h =
    let (e, b) = observe_inv p q offset h in subst IsValid (sym e) (pushed-IsValid p offset v b)

abbrev marked : ConsumedPrefix → ℕ → ConsumedPrefix
marked p offset = record p { resolved = offset ∷ p.resolved }

resolve_inv :
    (p q : ConsumedPrefix) (offset : ℕ)
    → resolve p offset ≡ ok q
    → (q ≡ marked p offset) × (member offset p.observed_set ≡ true)
unfolding resolve
resolve_inv p q offset h = (ground arith, ground arith)

member-eq : (x o : ℕ) (l : List ℕ) → (x == o) ≡ true → member x l ≡ true → member o l ≡ true
member-eq x o l e h = let same : x ≡ o = ground arith in subst (λ z. member z l ≡ true) same h

marked-IsValid :
    (p : ConsumedPrefix) (offset : ℕ)
    → IsValid p
    → member offset p.observed_set ≡ true
    → IsValid (marked p offset)
marked-IsValid p offset v m = record {
  rises = v.rises;
  same_set = v.same_set;
  known = λ o h. ground (
    arith,
    member-cons o offset p.resolved,
    v.known o,
    v.same_set offset,
    member-eq offset o p.observed,
  );
}

pub resolve-IsValid :
    (p q : ConsumedPrefix) (offset : ℕ) → IsValid p → resolve p offset ≡ ok q → IsValid q
resolve-IsValid p q offset v h =
    let (e, m) = resolve_inv p q offset h in subst IsValid (sym e) (marked-IsValid p offset v m)

abbrev trimmed : ConsumedPrefix → ℕ → ConsumedPrefix
trimmed p next = record {
  observed = filter (λ o. leb next o) p.observed;
  observed_set = filter (λ o. leb next o) p.observed;
  resolved = filter (λ o. leb next o && member o p.resolved) p.observed;
  committed_floor = some next;
}

pub discard_inv :
    (p q : ConsumedPrefix) (next : ℕ) → discard_committed p next ≡ ok q → q ≡ trimmed p next
unfolding discard_committed
discard_inv p q next h = ground arith

trimmed-IsValid : (p : ConsumedPrefix) (next : ℕ) → IsValid p → IsValid (trimmed p next)
trimmed-IsValid p next v = record {
  rises = rises_filter (λ o. leb next o) 0 p.observed v.rises;
  same_set = λ o. refl;
  known = λ o h. ground (
    arith,
    member-filter (λ o. leb next o && member o p.resolved) o p.observed,
    member-filter (λ o. leb next o) o p.observed,
  );
}

pub discard-IsValid :
    (p q : ConsumedPrefix) (next : ℕ) → IsValid p → discard_committed p next ≡ ok q → IsValid q
discard-IsValid p q next v h =
    subst IsValid (sym (discard_inv p q next h)) (trimmed-IsValid p next v)
