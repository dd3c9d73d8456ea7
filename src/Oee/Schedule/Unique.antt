-- ===== src/Oee/Schedule/Unique.antt =====
-- One window per start: ordered_unique of scheduler.py.
use manufacturing_uns.Prelude.{
  [], ◌∷◌, ℕ, List, ◌≡◌, true, false, arith, any, ◌==◌, ◌||◌, leb, Bool-cases, refl, ◌∙◌, Bool, ap,
  inl, inr,
}
use manufacturing_uns.Prelude.Sort.{sorted, any-sorted}
use manufacturing_uns.Oee.Tables.{ShiftWindow}
use manufacturing_uns.Oee.Schedule.{keep_unseen, ordered_unique}

abbrev pub starts_at : ℕ → List ShiftWindow → Bool
starts_at t windows = any (λ w. w.start == t) windows

abbrev pub StartsDistinct : List ShiftWindow → Type 0
StartsDistinct [] = Unit
StartsDistinct (w ∷ windows) = (starts_at w.start windows ≡ false) × StartsDistinct windows

any_at :
    (seen : List ℕ) (s t : ℕ) → (s == t) ≡ true → any (λ x. x == s) seen ≡ any (λ x. x == t) seen
any_at seen s t h = let same : s ≡ t = ground (arith, h) in ap (λ z. any (λ x. x == z) seen) same

keep_unseen-any :
    (t : ℕ) (windows : List ShiftWindow) (seen : List ℕ)
    → (any (λ s. s == t) seen || starts_at t (keep_unseen seen windows))
      ≡ (any (λ s. s == t) seen || starts_at t windows)
unfolding keep_unseen
keep_unseen-any t [] seen = refl
keep_unseen-any t (w ∷ windows) seen = elim (Bool-cases (any (λ s. s == w.start) seen)) [
  | inl q ↦ rw q (grind (arith, q, any_at seen w.start t, keep_unseen-any t windows seen))
  | inr q ↦ rw q (grind (arith, keep_unseen-any t windows (w.start ∷ seen)))
]

keep_unseen-fresh :
    (t : ℕ) (windows : List ShiftWindow) (seen : List ℕ)
    → any (λ s. s == t) seen ≡ true
    → starts_at t (keep_unseen seen windows) ≡ false
unfolding keep_unseen
keep_unseen-fresh t [] seen h = refl
keep_unseen-fresh t (w ∷ windows) seen h = elim (Bool-cases (any (λ s. s == w.start) seen)) [
  | inl q ↦ rw q (keep_unseen-fresh t windows seen h)
  | inr q ↦
      rw q
        (grind (arith, q, h, any_at seen w.start t, keep_unseen-fresh t windows (w.start ∷ seen)))
]

keep_unseen-StartsDistinct :
    (windows : List ShiftWindow) (seen : List ℕ) → StartsDistinct (keep_unseen seen windows)
unfolding keep_unseen
keep_unseen-StartsDistinct [] seen = tt
keep_unseen-StartsDistinct (w ∷ windows) seen = elim (Bool-cases (any (λ s. s == w.start) seen)) [
  | inl q ↦ rw q (keep_unseen-StartsDistinct windows seen)
  | inr q ↦ rw q (
    keep_unseen-fresh w.start windows (w.start ∷ seen) (ground arith),
    keep_unseen-StartsDistinct windows (w.start ∷ seen),
  )
]

-- The windows that are kept start at distinct instants, and these are those at which the given windows
-- start.
pub ordered_unique-StartsDistinct :
    (windows : List ShiftWindow)
    → StartsDistinct (ordered_unique windows)
      × ((t : ℕ) → starts_at t (ordered_unique windows) ≡ starts_at t windows)
unfolding ordered_unique
ordered_unique-StartsDistinct windows =
    let by_start = sorted (λ a b. leb a.start b.start) windows in
    (
      keep_unseen-StartsDistinct by_start [],
      λ t.
          keep_unseen-any t by_start []
          ∙ any-sorted (λ a b. leb a.start b.start) (λ w. w.start == t) windows,
    )
