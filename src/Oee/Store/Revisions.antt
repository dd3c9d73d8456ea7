-- ===== src/Oee/Store/Revisions.antt =====
-- The results of 12_uns_oee/src/uns_oee/store.py and the revisions they replaced.
use manufacturing_uns.Prelude.{
  [], ◌∷◌, none, some, true, false, refl, inl, inr, ℕ, List, Option, ◌≡◌, arith, suc, ◌≤◌,
  Bool-cases, ◌<◌, if◌then◌else◌, ◌+◌, subst, ◌==◌, ◌++◌, ◌&&◌, zero,
}
use manufacturing_uns.Oee.Tables.{Database, ResultValues, ShiftResult, ShiftResultRevision}
use manufacturing_uns.Oee.Store.{is_of, find_result, update_result}
use manufacturing_uns.Oee.Store.Rows.{revised, published, same_shift}

-- The revision numbers that are archived for one shift, in order.
unfoldable pub archived : ℕ → ℕ → List ShiftResultRevision → List ℕ
archived unit_id start [] = []
archived unit_id start (r ∷ rest) =
    if r.oee_unit_id == unit_id && r.shift_start == start
    then r.revision ∷ archived unit_id start rest
    else archived unit_id start rest

-- 1, ..., n.
abbrev pub up_to : ℕ → List ℕ
up_to zero = []
up_to (suc n) = up_to n ++ suc n ∷ []

-- The ids rise from `low` to `high`.
abbrev pub IdsRise : ℕ → ℕ → List ShiftResult → Type 0
IdsRise low high [] = low ≤ high
IdsRise low high (r ∷ rest) = (low < r.id) × IdsRise r.id high rest

-- What is archived for a shift is every revision before the one on record, each once and in order.
abbrev pub Complete : Option ShiftResult → List ℕ → Type 0
Complete none revisions = revisions ≡ []
Complete (some r) revisions = (n : ℕ) × (r.revision ≡ suc n) × (revisions ≡ up_to n)

pub record History (db : Database) : Type 0 where
  pub rise : IdsRise 0 db.last_id db.results
  pub complete :
      (unit_id start : ℕ)
      → Complete (find_result unit_id start db.results) (archived unit_id start db.revisions)

pub IdsRise-append :
    (low high : ℕ) (rows : List ShiftResult) (values : ResultValues) (revision : ℕ)
    → IdsRise low high rows
    → IdsRise low
        (high + 1)
        (rows ++ record { id = high + 1; values = values; revision = revision } ∷ [])
IdsRise-append low high [] values revision h = (omega (arith, h), omega arith)
IdsRise-append low high (r ∷ rest) values revision h =
    (h.0, IdsRise-append r.id high rest values revision h.1)

pub IdsRise-revised :
    (low high id : ℕ) (values : ResultValues) (revision : ℕ) (rows : List ShiftResult)
    → IdsRise low high rows
    → IdsRise low high (update_result id (revised values revision) rows)
unfolding update_result
IdsRise-revised low high id values revision [] h = h
IdsRise-revised low high id values revision (r ∷ rest) h = elim (Bool-cases (r.id == id)) [
  | inl i ↦ rw i (h.0, IdsRise-revised r.id high id values revision rest h.1)
  | inr i ↦ rw i (h.0, IdsRise-revised r.id high id values revision rest h.1)
]

pub IdsRise-published :
    (low high id at : ℕ) (rows : List ShiftResult)
    → IdsRise low high rows
    → IdsRise low high (update_result id (published at) rows)
unfolding update_result
IdsRise-published low high id at [] h = h
IdsRise-published low high id at (r ∷ rest) h = elim (Bool-cases (r.id == id)) [
  | inl i ↦ rw i (h.0, IdsRise-published r.id high id at rest h.1)
  | inr i ↦ rw i (h.0, IdsRise-published r.id high id at rest h.1)
]

-- A row that is found has an id above those before it.
find_result-id :
    (unit_id start low high : ℕ) (rows : List ShiftResult) (s : ShiftResult)
    → IdsRise low high rows
    → find_result unit_id start rows ≡ some s
    → low < s.id
unfolding find_result
find_result-id unit_id start low high [] s h e = absurd (ground arith)
find_result-id unit_id start low high (r ∷ rest) s h e = elim (Bool-cases (is_of unit_id start r)) [
  | inl o ↦ let same : r ≡ s = ground arith in subst (λ z. low < z.id) same h.0
  | inr o ↦ omega (arith, h.0, find_result-id unit_id start r.id high rest s h.1 (ground arith))
]

find_result-above :
    (unit_id start id low high : ℕ) (values : ResultValues) (revision : ℕ) (rows : List ShiftResult)
    → IdsRise low high rows
    → id ≤ low
    → find_result unit_id start (update_result id (revised values revision) rows)
      ≡ find_result unit_id start rows
unfolding update_result find_result
find_result-above unit_id start id low high values revision [] h k = refl
find_result-above unit_id start id low high values revision (r ∷ rest) h k =
    rw (not_eq r.id id (omega (arith, h.0))) (elim (Bool-cases (is_of unit_id start r)) [
      | inl o ↦ rw o refl
      | inr o ↦ rw o (
          find_result-above unit_id start id r.id high values revision rest h.1
            (omega (arith, h.0)))
    ])
  where
    not_eq : (a b : ℕ) → b < a → (a == b) ≡ false
    not_eq a b h = ground arith

-- The row of one shift is no row of another.
pub is_of-other :
    (values : ResultValues) (unit_id start : ℕ) (r : ShiftResult)
    → is_of values.oee_unit_id values.shift_start r ≡ true
    → same_shift values unit_id start ≡ false
    → is_of unit_id start r ≡ false
unfolding is_of
is_of-other values unit_id start r h k = ground arith

-- An update of one shift's row leaves the row of every other shift.
pub find_result-other :
    (unit_id start low high : ℕ) (values : ResultValues) (revision : ℕ) (rows : List ShiftResult)
    (s : ShiftResult)
    → IdsRise low high rows
    → find_result values.oee_unit_id values.shift_start rows ≡ some s
    → same_shift values unit_id start ≡ false
    → find_result unit_id start (update_result s.id (revised values revision) rows)
      ≡ find_result unit_id start rows
unfolding update_result find_result
find_result-other unit_id start low high values revision [] s h e k = absurd (ground arith)
find_result-other unit_id start low high values revision (r ∷ rest) s h e k =
    elim (Bool-cases (is_of values.oee_unit_id values.shift_start r)) [
      | inl o ↦
          let same : r ≡ s = ground arith in
          subst
            (λ z.
              find_result unit_id start (update_result z.id (revised values revision) (r ∷ rest))
              ≡ find_result unit_id start (r ∷ rest))
            same
            (rw (eq_self r.id, is_of-other values unit_id start r o k, not_of r k)
              (find_result-above unit_id start r.id r.id high values revision rest h.1
                (omega arith)))
      | inr o ↦
          let found : find_result values.oee_unit_id values.shift_start rest ≡ some s =
            ground arith in
          let more = find_result-other unit_id start r.id high values revision rest s h.1 found k in
          rw
            (not_eq r.id s.id
              (find_result-id values.oee_unit_id values.shift_start r.id high rest s h.1 found))
            (elim (Bool-cases (is_of unit_id start r)) [ inl p ↦ rw p refl | inr p ↦ rw p more ])
    ]
  where
    eq_self : (n : ℕ) → (n == n) ≡ true
    eq_self n = ground arith

    not_eq : (a b : ℕ) → a < b → (a == b) ≡ false
    not_eq a b h = ground arith

    not_of :
        (r : ShiftResult)
        → same_shift values unit_id start ≡ false
        → is_of unit_id start (revised values revision r) ≡ false
    not_of r k = unfold is_of in k

pub archived-append :
    (unit_id start : ℕ) (l : List ShiftResultRevision) (r : ShiftResultRevision)
    → archived unit_id start (l ++ r ∷ []) ≡ (
        if r.oee_unit_id == unit_id && r.shift_start == start
        then archived unit_id start l ++ r.revision ∷ []
        else archived unit_id start l)
unfolding archived
archived-append unit_id start [] r = refl
archived-append unit_id start (x ∷ l) r = ground (arith, archived-append unit_id start l r)
