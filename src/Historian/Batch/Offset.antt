-- ===== src/Historian/Batch/Offset.antt =====
-- compute_next_offset of 04_uns_historian/src/uns_historian/batch.py.
use manufacturing_uns.Prelude.{
  [], ◌∷◌, true, false, refl, ℕ, Bool, List, ◌≡◌, ◌≤◌, ◌<◌, ◌==◌, arith, any, leb, All, sym, ◌+◌,
  ◌∙◌,
}
use manufacturing_uns.Prelude.Sort.{sorted, IsSorted, any-sorted, sorted-IsSorted}
use manufacturing_uns.Historian.Batch.{advance, compute_next_offset}

abbrev pub handled : ℕ → List ℕ → Bool
handled o offsets = any (λ x. x == o) offsets

advance-ge : (next : ℕ) (l : List ℕ) → next ≤ advance next l
unfolding advance
advance-ge next [] = omega arith
advance-ge next (offset ∷ rest) = ground (arith, advance-ge next rest, advance-ge (offset + 1) rest)

advance-handled : (next o : ℕ) (l : List ℕ) → next ≤ o → o < advance next l → handled o l ≡ true
unfolding advance
advance-handled next o [] h k = absurd (ground arith)
advance-handled next o (offset ∷ rest) h k =
    ground (arith, advance-handled next o rest, advance-handled (offset + 1) o rest)

later-not_handled :
    (next offset : ℕ) (rest : List ℕ)
    → next < offset
    → All (λ y. leb offset y ≡ true) rest
    → handled next rest ≡ false
later-not_handled next offset [] h k = refl
later-not_handled next offset (y ∷ rest) h k =
    ground (arith, later-not_handled next offset rest h k.1, k.0)

advance-stops : (next : ℕ) (l : List ℕ) → IsSorted leb l → handled (advance next l) l ≡ false
unfolding advance
advance-stops next [] h = refl
advance-stops next (offset ∷ rest) h = ground (
  arith,
  advance-stops next rest h.1,
  advance-stops (offset + 1) rest h.1,
  advance-ge next rest,
  advance-ge (offset + 1) rest,
  later-not_handled next offset rest,
)

leb_total : (a b : ℕ) → leb a b ≡ false → leb b a ≡ true
leb_total a b h = ground arith

leb_trans : (a b c : ℕ) → leb a b ≡ true → leb b c ≡ true → leb a c ≡ true
leb_trans a b c h k = ground arith

-- The offset that is committed next is the first from the checkpoint on that is not handled: it is not
-- below the checkpoint, it is not among the handled offsets, and every offset from the checkpoint up
-- to it is. The handled offsets may come in any order, repeated or from before the checkpoint.
pub compute_next_offset-first :
    (checkpoint_next : ℕ) (offsets : List ℕ)
    → (checkpoint_next ≤ compute_next_offset checkpoint_next offsets)
      × (handled (compute_next_offset checkpoint_next offsets) offsets ≡ false)
      × ((o : ℕ)
          → checkpoint_next ≤ o
          → o < compute_next_offset checkpoint_next offsets
          → handled o offsets ≡ true)
unfolding compute_next_offset
compute_next_offset-first checkpoint_next offsets =
    let l = sorted leb offsets in
    (
      advance-ge checkpoint_next l,
      sym (any-sorted leb (λ x. x == advance checkpoint_next l) offsets)
          ∙ advance-stops checkpoint_next l (sorted-IsSorted leb leb_total leb_trans offsets),
      λ o h k. sym (any-sorted leb (λ x. x == o) offsets) ∙ advance-handled checkpoint_next o l h k,
    )
