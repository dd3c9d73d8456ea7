-- ===== src/Prelude/Lists.antt =====
-- Lists measured by native numbers, filters and quantifiers by Boolean tests, under the library's
-- names.
use Prim.Native.Nat.{ℕ, suc, ◌+◌, ◌-◌, ◌≤◌, zero}
use mathlib.Core.Path.{◌≡◌, refl, subst, ap, sym, ◌∙◌}
use mathlib.Core.Bool.{Bool, true, false, ◌||◌}
use mathlib.Core.List.{List, [], ◌∷◌, ◌++◌}
use mathlib.Core.Option.{Option, none, some, some-injective}
use mathlib.Core.Logic.{inl, inr, ◌⊎◌}
use native.Mathlib.Omega.{arith}
use manufacturing_uns.Prelude.Tests.{if◌then◌else◌, Bool-cases}

module _ {ℓ} {A : Type ℓ} where
  abbrev pub length : List A → ℕ
  length [] = 0
  length (x ∷ xs) = suc (length xs)

  abbrev pub get_elem? : List A → ℕ → Option A
  get_elem? [] i = none
  get_elem? (x ∷ xs) zero = some x
  get_elem? (x ∷ xs) (suc i) = get_elem? xs i

  abbrev pub any : (A → Bool) → List A → Bool
  any p [] = false
  any p (x ∷ xs) = p x || any p xs

  abbrev pub filter : (A → Bool) → List A → List A
  filter p [] = []
  filter p (x ∷ xs) = if p x then x ∷ filter p xs else filter p xs

  abbrev pub last? : List A → Option A
  last? [] = none
  last? (x ∷ []) = some x
  last? (x ∷ y ∷ xs) = last? (y ∷ xs)

  abbrev pub All {κ} : (A → Type κ) → List A → Type κ
  All P [] = Unit
  All P (x ∷ xs) = P x × All P xs

  pub any-append : (p : A → Bool) (xs ys : List A) → any p (xs ++ ys) ≡ (any p xs || any p ys)
  any-append p [] ys = refl
  any-append p (x ∷ xs) ys = ground (arith, any-append p xs ys)

  pub length-append : (xs ys : List A) → length (xs ++ ys) ≡ length xs + length ys
  length-append [] ys = omega arith
  length-append (x ∷ xs) ys = omega (arith, length-append xs ys)

  pub All-append {κ} : (P : A → Type κ) (xs ys : List A) → All P xs → All P ys → All P (xs ++ ys)
  All-append P [] ys h k = k
  All-append P (x ∷ xs) ys h k = (h.0, All-append P xs ys h.1 k)

  pub All-map {κ κ'} :
      (P : A → Type κ) (Q : A → Type κ') (xs : List A) → ((x : A) → P x → Q x) → All P xs → All Q xs
  All-map P Q [] f h = tt
  All-map P Q (x ∷ xs) f h = (f x h.0, All-map P Q xs f h.1)

  -- What a filter keeps passes its test.
  pub filter-All : (p : A → Bool) (xs : List A) → All (λ x. p x ≡ true) (filter p xs)
  filter-All p [] = tt
  filter-All p (x ∷ xs) = elim (Bool-cases (p x)) [
    | inl q ↦ rw q (q, filter-All p xs)
    | inr q ↦ rw q (filter-All p xs)
  ]

  pub All-filter {κ} :
      (P : A → Type κ) (p : A → Bool) (xs : List A) → All P xs → All P (filter p xs)
  All-filter P p [] h = h
  All-filter P p (x ∷ xs) h = elim (Bool-cases (p x)) [
    | inl q ↦ rw q (h.0, All-filter P p xs h.1)
    | inr q ↦ rw q (All-filter P p xs h.1)
  ]

  pub All-last {κ} : (P : A → Type κ) (xs : List A) (y : A) → All P xs → last? xs ≡ some y → P y
  All-last P [] y h e = cc
  All-last P (x ∷ []) y h e = subst P (some-injective x y e) h.0
  All-last P (x ∷ x' ∷ xs) y h e = All-last P (x' ∷ xs) y h.1 e

  pub All-zip {κ κ'} :
      (P : A → Type κ) (Q : A → Type κ') (xs : List A)
      → All P xs
      → All Q xs
      → All (λ x. P x × Q x) xs
  All-zip P Q [] h k = tt
  All-zip P Q (x ∷ xs) h k = ((h.0, k.0), All-zip P Q xs h.1 k.1)

  abbrev pub take : ℕ → List A → List A
  take zero xs = []
  take (suc n) [] = []
  take (suc n) (x ∷ xs) = x ∷ take n xs

  abbrev pub drop : ℕ → List A → List A
  drop zero xs = xs
  drop (suc n) [] = []
  drop (suc n) (x ∷ xs) = drop n xs

  pub take-append-drop : (n : ℕ) (xs : List A) → take n xs ++ drop n xs ≡ xs
  take-append-drop zero xs = refl
  take-append-drop (suc n) [] = refl
  take-append-drop (suc n) (x ∷ xs) = rw (take-append-drop n xs)

  pub length-drop : (n : ℕ) (xs : List A) → length (drop n xs) ≡ length xs - n
  length-drop zero xs = omega arith
  length-drop (suc n) [] = omega arith
  length-drop (suc n) (x ∷ xs) = omega (arith, length-drop n xs)

  pub All-drop {κ} : (P : A → Type κ) (n : ℕ) (xs : List A) → All P xs → All P (drop n xs)
  All-drop P zero xs h = h
  All-drop P (suc n) [] h = h
  All-drop P (suc n) (x ∷ xs) h = All-drop P n xs h.1

  pub length-filter : (p : A → Bool) (xs : List A) → length (filter p xs) ≤ length xs
  length-filter p [] = omega arith
  length-filter p (x ∷ xs) = ground (arith, length-filter p xs)

  pub drop-drop : (j k : ℕ) (xs : List A) → drop k (drop j xs) ≡ drop (j + k) xs
  drop-drop zero k xs = ap (λ n. drop n xs) (omega arith)
  drop-drop (suc j) k [] = drop_nil k ∙ sym (drop_nil (suc j + k))
    where
      drop_nil : (n : ℕ) → drop n [] ≡ []
      drop_nil zero = refl
      drop_nil (suc n) = refl
  drop-drop (suc j) k (x ∷ xs) = drop-drop j k xs ∙ ap (λ n. drop n (x ∷ xs)) (suc_add j k)
    where
      suc_add : (j k : ℕ) → suc (j + k) ≡ suc j + k
      suc_add j k = omega arith

  pub length-zero : (xs : List A) → length xs ≡ 0 → xs ≡ []
  length-zero [] e = refl
  length-zero (x ∷ xs) e = absurd (omega arith)

module _ {A : Type 0} where
  -- `y` is one of the elements.
  abbrev pub Contains : List A → A → Type 0
  Contains [] y = ⊥
  Contains (x ∷ xs) y = (x ≡ y) ⊎ Contains xs y

  pub Contains-append_left : (xs ys : List A) (y : A) → Contains xs y → Contains (xs ++ ys) y
  Contains-append_left [] ys y c = elim c [ ]
  Contains-append_left (x ∷ xs) ys y (inl e) = inl e
  Contains-append_left (x ∷ xs) ys y (inr c) = inr (Contains-append_left xs ys y c)

  pub Contains-append_right : (xs ys : List A) (y : A) → Contains ys y → Contains (xs ++ ys) y
  Contains-append_right [] ys y c = c
  Contains-append_right (x ∷ xs) ys y c = inr (Contains-append_right xs ys y c)

  pub All-Contains {κ} : (P : A → Type κ) (xs : List A) (y : A) → All P xs → Contains xs y → P y
  All-Contains P [] y h c = elim c [ ]
  All-Contains P (x ∷ xs) y h (inl e) = subst P e h.0
  All-Contains P (x ∷ xs) y h (inr c) = All-Contains P xs y h.1 c

  pub filter-Contains :
      (p : A → Bool) (xs : List A) (y : A) → Contains xs y → p y ≡ true → Contains (filter p xs) y
  filter-Contains p (x ∷ xs) y (inl e) h = rw (subst (λ z. p z ≡ true) (sym e) h) (inl e)
  filter-Contains p (x ∷ xs) y (inr c) h = elim (Bool-cases (p x)) [
    | inl q ↦ rw q (inr (filter-Contains p xs y c h))
    | inr q ↦ rw q (filter-Contains p xs y c h)
  ]
  filter-Contains p [] y c h = elim c [ ]
