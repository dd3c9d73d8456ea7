-- ===== src/Oee/States/Level.antt =====
-- The state of a machine as a level: at each instant, the state of the last report before it.
use manufacturing_uns.Prelude.{
  [], ◌∷◌, none, some, String, true, false, refl, Option, ℕ, List, ◌≤◌, ◌<◌, last?, if◌then◌else◌,
  leb, arith, ◌≡◌, filter, ltb, ◌&&◌, Bool-cases, inl, inr, leb→le, All, ◌∙◌, ◌++◌, le→leb, All-map,
}
use manufacturing_uns.Prelude.Sort.{sorted, IsSorted, sorted-IsSorted}
use manufacturing_uns.Prelude.Text.{str_leb_total, str_leb_trans}
use manufacturing_uns.Oee.Interval.{Interval}
use manufacturing_uns.Oee.States.{StateSample, state_leb, opening, points}

-- The state that a list of reports in order of time leaves at an instant, over a given one.
unfoldable pub level : Option String → List StateSample → ℕ → Option String
level d [] t = d
level d (s ∷ r) t = level (if leb s.at t then some s.state else d) r t

-- Reports in order of time, from `m` on.
abbrev pub TimesFrom : ℕ → List StateSample → Type 0
TimesFrom m [] = Unit
TimesFrom m (s ∷ r) = (m ≤ s.at) × TimesFrom s.at r

pub TimesFrom-le : (m m' : ℕ) (l : List StateSample) → m' ≤ m → TimesFrom m l → TimesFrom m' l
TimesFrom-le m m' [] h k = tt
TimesFrom-le m m' (s ∷ r) h k = (omega arith, k.1)

pub level_before :
    (d : Option String) (m : ℕ) (l : List StateSample) (t : ℕ)
    → TimesFrom m l
    → t < m
    → level d l t ≡ d
unfolding level
level_before d m [] t h k = refl
level_before d m (s ∷ r) t h k = ground (arith, level_before d s.at r t h.1)

level_inside :
    (d : Option String) (window : Interval) (m : ℕ) (l : List StateSample) (t : ℕ)
    → TimesFrom m l
    → window.start < m
    → t < window.end
    → level d (filter (λ s. ltb window.start s.at && ltb s.at window.end) l) t ≡ level d l t
unfolding level
level_inside d window m [] t h k n = refl
level_inside d window m (s ∷ r) t h k n = elim (Bool-cases (ltb s.at window.end)) [
  | inl q ↦
      ground (arith, level_inside (if leb s.at t then some s.state else d) window s.at r t h.1)
  | inr q ↦ ground (arith, level_inside d window s.at r t h.1, level_before d s.at r t h.1)
]

-- The state that the reports up to the start of the window leave.
unfoldable pub prior_state : Option String → Option StateSample → Option String
prior_state d none = d
prior_state d (some s) = some s.state

filter_late :
    (start m : ℕ) (l : List StateSample)
    → TimesFrom m l
    → start < m
    → filter (λ s. leb s.at start) l ≡ []
filter_late start m [] h k = refl
filter_late start m (s ∷ r) h k = ground (arith, filter_late start s.at r h.1)

prior_state-cons :
    (d : Option String) (s : StateSample) (r : List StateSample)
    → prior_state d (last? (s ∷ r)) ≡ prior_state (some s.state) (last? r)
unfolding prior_state
prior_state-cons d s [] = refl
prior_state-cons d s (x ∷ []) = refl
prior_state-cons d s (x ∷ y ∷ r) = prior_state-cons d s (y ∷ r)

level_points :
    (d : Option String) (window : Interval) (m : ℕ) (l : List StateSample) (t : ℕ)
    → TimesFrom m l
    → window.start ≤ t
    → t < window.end
    → level
        (prior_state d (last? (filter (λ s. leb s.at window.start) l)))
        (filter (λ s. ltb window.start s.at && ltb s.at window.end) l)
        t
      ≡ level d l t
unfolding level
level_points d window m [] t h k n = unfold prior_state in refl
level_points d window m (s ∷ r) t h k n = elim (Bool-cases (leb s.at window.start)) [
  | inl q ↦
      rw
        (
          q,
          skip_inside (leb→le s.at window.start q),
          prior_state-cons d s (filter (λ s. leb s.at window.start) r),
          le→leb s.at t (omega (arith, leb→le s.at window.start q)),
        )
        (level_points (some s.state) window s.at r t h.1 k n)
  | inr q ↦ rw (filter_late window.start s.at (s ∷ r) (omega arith, h.1) (ground arith)) (
      unfold prior_state in
      level_inside d window s.at (s ∷ r) t (omega arith, h.1) (ground arith) n)
]
  where
    skip_inside : s.at ≤ window.start → (ltb window.start s.at && ltb s.at window.end) ≡ false
    skip_inside h = ground arith

opening-level :
    (start t : ℕ) (last : Option StateSample) (r : List StateSample)
    → start ≤ t
    → level none (opening start last ++ r) t ≡ level (prior_state none last) r t
unfolding opening prior_state level
opening-level start t none r h = refl
opening-level start t (some s) r h = rw (le→leb start t h)

state_leb_total : (a b : StateSample) → state_leb a b ≡ false → state_leb b a ≡ true
unfolding state_leb
state_leb_total a b h = ground (arith, str_leb_total a.state b.state)

state_leb_trans :
    (a b c : StateSample) → state_leb a b ≡ true → state_leb b c ≡ true → state_leb a c ≡ true
unfolding state_leb
state_leb_trans a b c h k = ground (arith, str_leb_trans a.state b.state c.state)

TimesFrom-IsSorted :
    (m : ℕ) (l : List StateSample) → All (λ s. m ≤ s.at) l → IsSorted state_leb l → TimesFrom m l
TimesFrom-IsSorted m [] h k = tt
TimesFrom-IsSorted m (s ∷ r) h k =
    (h.0, TimesFrom-IsSorted s.at r (All-map _ _ r (λ x. state_leb-at s x) k.0) k.1)
  where
    state_leb-at : (a b : StateSample) → state_leb a b ≡ true → a.at ≤ b.at
    state_leb-at a b h = unfold state_leb in ground arith

All-zero-le : (l : List StateSample) → All (λ s. 0 ≤ s.at) l
All-zero-le [] = tt
All-zero-le (s ∷ r) = (omega arith, All-zero-le r)

pub sorted-TimesFrom : (samples : List StateSample) → TimesFrom 0 (sorted state_leb samples)
sorted-TimesFrom samples =
    TimesFrom-IsSorted 0 (sorted state_leb samples) (All-zero-le (sorted state_leb samples))
      (sorted-IsSorted state_leb state_leb_total state_leb_trans samples)

-- Within the window the points leave the state that all the reports leave.
pub points-level :
    (window : Interval) (m : ℕ) (l : List StateSample) (t : ℕ)
    → TimesFrom m l
    → window.start ≤ t
    → t < window.end
    → level none (points l window) t ≡ level none l t
unfolding points
points-level window m l t h k n =
    opening-level window.start t (last? (filter (λ s. leb s.at window.start) l)) _ k
    ∙ level_points none window m l t h k n
