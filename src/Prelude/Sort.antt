-- ===== src/Prelude/Sort.antt =====
-- Python's `sorted`: a stable sort by a total preorder given as a Boolean test.
use mathlib.Core.Path.{◌≡◌, refl, subst}
use mathlib.Core.Bool.{Bool, true, false, ◌||◌}
use mathlib.Core.Logic.{inl, inr}
use mathlib.Core.List.{List, [], ◌∷◌}
use native.Mathlib.Omega.{arith}
use manufacturing_uns.Prelude.Tests.{if◌then◌else◌, Bool-cases}
use manufacturing_uns.Prelude.Lists.{any, All, Contains}

module _ {ℓ} {A : Type ℓ} (le : A → A → Bool) where
  -- `x` goes before the first element that it is not above, so equal elements keep their order
  -- when a list is inserted from its right end.
  unfoldable pub insert : A → List A → List A
  insert x [] = x ∷ []
  insert x (y ∷ ys) = if le x y then x ∷ y ∷ ys else y ∷ insert x ys

  unfoldable pub sorted : List A → List A
  unfolding insert
  sorted [] = []
  sorted (x ∷ xs) = insert x (sorted xs)

  -- Every element stands below all that follow it.
  abbrev pub IsSorted : List A → Type 0
  IsSorted [] = Unit
  IsSorted (x ∷ xs) = All (λ y. le x y ≡ true) xs × IsSorted xs

  pub any-insert : (p : A → Bool) (x : A) (xs : List A) → any p (insert x xs) ≡ (p x || any p xs)
  unfolding insert
  any-insert p x [] = refl
  any-insert p x (y ∷ ys) = ground (arith, any-insert p x ys)

  -- Sorting keeps what holds of some element.
  pub any-sorted : (p : A → Bool) (xs : List A) → any p (sorted xs) ≡ any p xs
  unfolding sorted
  any-sorted p [] = refl
  any-sorted p (x ∷ xs) = ground (arith, any-insert p x (sorted xs), any-sorted p xs)

  pub All-insert {κ} : (P : A → Type κ) (x : A) (xs : List A) → P x → All P xs → All P (insert x xs)
  unfolding insert
  All-insert P x [] h k = (h, k)
  All-insert P x (y ∷ ys) h k =
      elim (le x y) as (λ b. All P (if b then x ∷ y ∷ ys else y ∷ insert x ys)) [
        | true ↦ (h, k)
        | false ↦ (k.0, All-insert P x ys h k.1)
      ]

  pub All-sorted {κ} : (P : A → Type κ) (xs : List A) → All P xs → All P (sorted xs)
  unfolding sorted
  All-sorted P [] h = h
  All-sorted P (x ∷ xs) h = All-insert P x (sorted xs) h.0 (All-sorted P xs h.1)

  module _ (total : (a b : A) → le a b ≡ false → le b a ≡ true)
      (trans : (a b c : A) → le a b ≡ true → le b c ≡ true → le a c ≡ true) where
    All-le :
        (x y : A) (ys : List A)
        → le x y ≡ true
        → All (λ z. le y z ≡ true) ys
        → All (λ z. le x z ≡ true) ys
    All-le x y [] h k = tt
    All-le x y (z ∷ zs) h k = (trans x y z h k.0, All-le x y zs h k.1)

    insert-IsSorted : (x : A) (xs : List A) → IsSorted xs → IsSorted (insert x xs)
    unfolding insert
    insert-IsSorted x [] h = (tt, tt)
    insert-IsSorted x (y ∷ ys) h = elim (Bool-cases (le x y)) [
      | inl p ↦ rw p ((p, All-le x y ys p h.0), h)
      | inr p ↦
          rw p (All-insert (λ z. le y z ≡ true) x ys (total x y p) h.0, insert-IsSorted x ys h.1)
    ]

    pub sorted-IsSorted : (xs : List A) → IsSorted (sorted xs)
    unfolding sorted
    sorted-IsSorted [] = tt
    sorted-IsSorted (x ∷ xs) = insert-IsSorted x (sorted xs) (sorted-IsSorted xs)

  insert_below : (x : A) (xs : List A) → All (λ y. le x y ≡ true) xs → insert x xs ≡ x ∷ xs
  unfolding insert
  insert_below x [] h = refl
  insert_below x (y ∷ ys) h = rw h.0

  -- Sorting changes nothing in a list that is sorted.
  pub sorted_of_IsSorted : (xs : List A) → IsSorted xs → sorted xs ≡ xs
  unfolding sorted
  sorted_of_IsSorted [] h = refl
  sorted_of_IsSorted (x ∷ xs) h = rw (sorted_of_IsSorted xs h.1) (insert_below x xs h.0)

module _ {A : Type 0} (le : A → A → Bool) where
  pub Contains-insert :
      (x : A) (xs : List A) (y : A) → Contains (insert le x xs) y → Contains (x ∷ xs) y
  unfolding insert
  Contains-insert x [] y c = c
  Contains-insert x (z ∷ xs) y c = elim (Bool-cases (le x z)) [
    | inl q ↦ subst (λ b. Contains (if b then x ∷ z ∷ xs else z ∷ insert le x xs) y) q c
    | inr q ↦ elim (subst (λ b. Contains (if b then x ∷ z ∷ xs else z ∷ insert le x xs) y) q c) [
      | inl e ↦ inr (inl e)
      | inr later ↦ elim (Contains-insert x xs y later) [
        | inl e ↦ inl e
        | inr rest ↦ inr (inr rest)
      ]
    ]
  ]

  -- Sorting brings in no element.
  pub Contains-sorted : (xs : List A) (y : A) → Contains (sorted le xs) y → Contains xs y
  unfolding sorted
  Contains-sorted [] y c = c
  Contains-sorted (x ∷ xs) y c = elim (Contains-insert x (sorted le xs) y c) [
    | inl e ↦ inl e
    | inr later ↦ inr (Contains-sorted xs y later)
  ]

  insert-Contains :
      (x : A) (xs : List A) (z : A) → Contains (x ∷ xs) z → Contains (insert le x xs) z
  unfolding insert
  insert-Contains x [] z c = c
  insert-Contains x (y ∷ ys) z c = elim (Bool-cases (le x y)) [
    | inl p ↦ rw p c
    | inr p ↦ rw p (elim c [
      | inl e ↦ inr (insert-Contains x ys z (inl e))
      | inr (inl e) ↦ inl e
      | inr (inr d) ↦ inr (insert-Contains x ys z (inr d))
    ])
  ]

  pub sorted-Contains : (xs : List A) (z : A) → Contains xs z → Contains (sorted le xs) z
  unfolding sorted
  sorted-Contains [] z c = c
  sorted-Contains (x ∷ xs) z (inl e) = insert-Contains x (sorted le xs) z (inl e)
  sorted-Contains (x ∷ xs) z (inr c) =
      insert-Contains x (sorted le xs) z (inr (sorted-Contains xs z c))
