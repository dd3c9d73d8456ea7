-- ===== src/Prelude/Split.antt =====
-- `str.startswith`, `str.split` at one character and the join of the parts, on lists of code points.
use manufacturing_uns.Prelude.{All}
use Prim.Native.Nat.{ℕ}
use mathlib.Core.Path.{◌≡◌, refl}
use mathlib.Core.Bool.{Bool, true, false, ◌&&◌}
use mathlib.Core.List.{List, [], ◌∷◌, ◌++◌}
use mathlib.Core.Logic.{inl, inr}
use native.Mathlib.Omega.{arith}
use manufacturing_uns.Prelude.Tests.{◌==◌, if◌then◌else◌, Bool-cases}

unfoldable pub starts_with : List ℕ → List ℕ → Bool
starts_with s [] = true
starts_with [] (p ∷ prefix) = false
starts_with (c ∷ s) (p ∷ prefix) = c == p && starts_with s prefix

-- The first part, and the others.
unfoldable pub split_first : ℕ → List ℕ → List ℕ × List (List ℕ)
split_first sep [] = ([], [])
split_first sep (c ∷ s) =
    let (head, tail) = split_first sep s in if c == sep then ([], head ∷ tail) else (c ∷ head, tail)

unfoldable pub split : ℕ → List ℕ → List (List ℕ)
unfolding split_first
split sep s = let (head, tail) = split_first sep s in head ∷ tail

unfoldable pub join_more : ℕ → List (List ℕ) → List ℕ
join_more sep [] = []
join_more sep (part ∷ rest) = sep ∷ (part ++ join_more sep rest)

-- `sep.join(parts)`.
unfoldable pub join : ℕ → List (List ℕ) → List ℕ
unfolding join_more
join sep [] = []
join sep (part ∷ rest) = part ++ join_more sep rest

abbrev pub NoSep : ℕ → List ℕ → Type 0
NoSep sep [] = Unit
NoSep sep (c ∷ s) = (c == sep ≡ false) × NoSep sep s

pub join-split : (sep : ℕ) (s : List ℕ) → join sep (split sep s) ≡ s
unfolding join split
join-split sep [] = refl
join-split sep (c ∷ s) = ground (arith, join-split sep s)

split_first_lem :
    (sep : ℕ) (part : List ℕ) (rest : List (List ℕ))
    → NoSep sep part
    → split_first sep (join_more sep rest) ≡ ([], rest)
    → split_first sep (part ++ join_more sep rest) ≡ (part, rest)
unfolding split_first
split_first_lem sep [] rest n h = h
split_first_lem sep (c ∷ part) rest n h = ground (arith, split_first_lem sep part rest n.1 h)

split_more :
    (sep : ℕ) (rest : List (List ℕ))
    → All (NoSep sep) rest
    → split_first sep (join_more sep rest) ≡ ([], rest)
unfolding split_first join_more
split_more sep [] a = refl
split_more sep (part ∷ rest) a =
    ground (arith, split_first_lem sep part rest a.0 (split_more sep rest a.1))

-- Splitting what was joined gives the parts, if none of them holds the separator.
pub split-join :
    (sep : ℕ) (part : List ℕ) (rest : List (List ℕ))
    → NoSep sep part
    → All (NoSep sep) rest
    → split sep (join sep (part ∷ rest)) ≡ part ∷ rest
unfolding split join
split-join sep part rest n a = rw (split_first_lem sep part rest n (split_more sep rest a)) refl

pub split-NoSep : (sep : ℕ) (s : List ℕ) → All (NoSep sep) (split sep s)
unfolding split
split-NoSep sep [] = (tt, tt)
split-NoSep sep (c ∷ s) = elim (Bool-cases (c == sep)) [
  | inl q ↦ rw q (tt, split-NoSep sep s)
  | inr q ↦ let ih = split-NoSep sep s in rw q ((q, ih.0), ih.1)
]
