-- ===== src/Prelude/Holds.antt =====
-- What holds of the value that a function returns, where it does not raise, by the shape of its code.
use manufacturing_uns.Prelude.{arith}
use mathlib.Core.Path.{◌≡◌, refl, subst}
use mathlib.Core.Bool.{Bool, true, false}
use mathlib.Core.Option.{Option, none, some}
use manufacturing_uns.Prelude.Tests.{if◌then◌else◌}
use manufacturing_uns.Prelude.Result.{Result, ok, err}

module _ {ℓ κ} {E : Type ℓ} {A : Type κ} where
  abbrev pub Holds {μ} : (A → Type μ) → Result E A → Type μ
  Holds P (ok a) = P a
  Holds P (err e) = Unit

  pub Holds-intro {μ} : (P : A → Type μ) (r : Result E A) → ((a : A) → r ≡ ok a → P a) → Holds P r
  Holds-intro P (ok a) f = f a refl
  Holds-intro P (err e) f = tt

  pub Holds-elim {μ} : (P : A → Type μ) (r : Result E A) (a : A) → Holds P r → r ≡ ok a → P a
  Holds-elim P (ok b) a h e = let same : b ≡ a = cc in subst P same h
  Holds-elim P (err x) a h e = absurd (ground arith)

  pub Holds-mono {μ ν} :
      (P : A → Type μ) (Q : A → Type ν) (r : Result E A)
      → ((a : A) → P a → Q a)
      → Holds P r
      → Holds Q r
  Holds-mono P Q (ok a) f h = f a h
  Holds-mono P Q (err e) f h = tt

  pub Holds-if {μ} :
      (P : A → Type μ) (b : Bool) (x y : Result E A)
      → (b ≡ true → Holds P x)
      → (b ≡ false → Holds P y)
      → Holds P (if b then x else y)
  Holds-if P true x y h k = h refl
  Holds-if P false x y h k = k refl

  pub Holds-option {μ ν} :
      {B : Type ν} (P : A → Type μ) (o : Option B) (x : Result E A) (f : B → Result E A)
      → (o ≡ none → Holds P x)
      → ((b : B) → o ≡ some b → Holds P (f b))
      → Holds P (elim o [ none ↦ x | some b ↦ f b ])
  Holds-option P none x f h k = h refl
  Holds-option P (some b) x f h k = k b refl

pub Holds-bind {ℓ κ μ ν ξ} :
    {E : Type ℓ} {A : Type κ} {B : Type ν} (P : B → Type ξ) (Q : A → Type μ) (r : Result E B)
    (f : B → Result E A)
    → Holds P r
    → ((b : B) → P b → Holds Q (f b))
    → Holds Q (elim r [ err e ↦ err e | ok b ↦ f b ])
Holds-bind P Q (ok b) f h k = k b h
Holds-bind P Q (err e) f h k = tt

-- With a handler.
pub Holds-except {ℓ κ μ ν ξ} :
    {E : Type ℓ} {A : Type κ} {B : Type ν} {X : Type ξ} (Q : A → Type μ) (r : Result X B)
    (g : X → Result E A) (f : B → Result E A)
    → ((x : X) → Holds Q (g x))
    → ((b : B) → Holds Q (f b))
    → Holds Q (elim r [ err x ↦ g x | ok b ↦ f b ])
Holds-except Q (ok b) g f h k = k b
Holds-except Q (err x) g f h k = h x

-- The same of an optional value.
module _ {ℓ} {A : Type ℓ} where
  abbrev pub HoldsSome {μ} : (A → Type μ) → Option A → Type μ
  HoldsSome P none = Unit
  HoldsSome P (some a) = P a

  pub HoldsSome-if {μ} :
      (P : A → Type μ) (b : Bool) (x y : Option A)
      → HoldsSome P x
      → HoldsSome P y
      → HoldsSome P (if b then x else y)
  HoldsSome-if P true x y h k = h
  HoldsSome-if P false x y h k = k

  pub HoldsSome-option {μ ν} :
      {B : Type ν} (P : A → Type μ) (o : Option B) (x : Option A) (f : B → Option A)
      → HoldsSome P x
      → ((b : B) → HoldsSome P (f b))
      → HoldsSome P (elim o [ none ↦ x | some b ↦ f b ])
  HoldsSome-option P none x f h k = h
  HoldsSome-option P (some b) x f h k = k b

  pub HoldsSome-default {μ} :
      (P : A → Type μ) (o : Option A) (d : A)
      → HoldsSome P o
      → P d
      → P (elim o [ none ↦ d | some a ↦ a ])
  HoldsSome-default P none d h k = k
  HoldsSome-default P (some a) d h k = h
