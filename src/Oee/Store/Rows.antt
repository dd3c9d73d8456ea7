-- ===== src/Oee/Store/Rows.antt =====
-- The result row of one shift, before and after each statement of 12_uns_oee/src/uns_oee/store.py.
use manufacturing_uns.Prelude.{
  [], ◌∷◌, none, some, true, false, refl, inl, inr, ℕ, Bool, List, ◌≡◌, arith, Option-cases, ◌==◌,
  ◌++◌, if◌then◌else◌, Bool-cases, subst, ◌&&◌, ◌+◌, ap, ◌∙◌, String,
}
use manufacturing_uns.Oee.Tables.{
  Database, result_values, ResultValues, ShiftResult, ShiftWindow, StoredResult,
}
use manufacturing_uns.Oee.Store.{
  is_of, find_result, update_result, as_stored, existing, write_result, mark_published, save,
  ShiftMetrics, ClassifiedStop,
}

-- Two ways to name one shift.
abbrev pub same_shift : ResultValues → ℕ → ℕ → Bool
same_shift values unit_id start = values.oee_unit_id == unit_id && values.shift_start == start

-- What `save` makes of a row.
abbrev pub revised : ResultValues → ℕ → ShiftResult → ShiftResult
revised values revision r = record { id = r.id; values = values; revision = revision }

abbrev pub published : ℕ → ShiftResult → ShiftResult
published at r = record r { values = record r.values { published_at = some at } }

pub find_result-append :
    (unit_id start : ℕ) (rows : List ShiftResult) (r : ShiftResult)
    → find_result unit_id start rows ≡ none
    → find_result unit_id start (rows ++ r ∷ []) ≡ (if is_of unit_id start r then some r else none)
unfolding find_result
find_result-append unit_id start [] r h = refl
find_result-append unit_id start (x ∷ rest) r h =
    ground (arith, find_result-append unit_id start rest r)

pub find_result-append_some :
    (unit_id start : ℕ) (rows : List ShiftResult) (r x : ShiftResult)
    → find_result unit_id start rows ≡ some x
    → find_result unit_id start (rows ++ r ∷ []) ≡ some x
unfolding find_result
find_result-append_some unit_id start [] r x h = absurd (ground arith)
find_result-append_some unit_id start (y ∷ rest) r x h =
    ground (arith, find_result-append_some unit_id start rest r x)

is_of_self :
    (values : ResultValues) (id revision : ℕ)
    → is_of values.oee_unit_id values.shift_start
        (record { id = id; values = values; revision = revision })
      ≡ true
unfolding is_of
is_of_self values id revision = ground arith

-- A shift that is on record stands at its new values after an update of its row.
find_result-revised :
    (values : ResultValues) (revision : ℕ) (rows : List ShiftResult) (s : ShiftResult)
    → find_result values.oee_unit_id values.shift_start rows ≡ some s
    → find_result values.oee_unit_id values.shift_start
        (update_result s.id (revised values revision) rows)
      ≡ some (revised values revision s)
unfolding find_result update_result
find_result-revised values revision [] s h = absurd (ground arith)
find_result-revised values revision (r ∷ rest) s h = elim (Bool-cases (r.id == s.id)) [
  | inl i ↦
      rw (i, is_of_self values r.id revision)
        (ap (λ n. some (record { id = n; values = values; revision = revision }))
          (same_id r.id s.id i))
  | inr i ↦ elim (Bool-cases (is_of values.oee_unit_id values.shift_start r)) [
    | inl o ↦ let same : r ≡ s = ground arith in absurd (differ r.id s.id (ap (λ x. x.id) same) i)
    | inr o ↦ rw (i, o) (find_result-revised values revision rest s (ground arith))
  ]
]
  where
    same_id : (a b : ℕ) → (a == b) ≡ true → a ≡ b
    same_id a b h = ground arith

    differ : (a b : ℕ) → a ≡ b → (a == b) ≡ false → ⊥
    differ a b e h = ground arith

is_of-published :
    (unit_id start at : ℕ) (r : ShiftResult)
    → is_of unit_id start (published at r) ≡ is_of unit_id start r
unfolding is_of
is_of-published unit_id start at r = refl

pub find_result-published :
    (unit_id start id at : ℕ) (rows : List ShiftResult)
    → find_result unit_id start (update_result id (published at) rows)
      ≡ (elim (find_result unit_id start rows) [
        | none ↦ none
        | some s ↦ some (if s.id == id then published at s else s)
      ])
unfolding find_result update_result
find_result-published unit_id start id at [] = refl
find_result-published unit_id start id at (r ∷ rest) = elim (Bool-cases (r.id == id)) [
  | inl i ↦ elim (Bool-cases (is_of unit_id start r)) [
    | inl o ↦ rw (i, is_of-published unit_id start at r, o, i) refl
    | inr o ↦
        rw (i, is_of-published unit_id start at r, o)
          (find_result-published unit_id start id at rest)
  ]
  | inr i ↦ elim (Bool-cases (is_of unit_id start r)) [
    | inl o ↦ rw (i, o, i) refl
    | inr o ↦ rw (i, o) (find_result-published unit_id start id at rest)
  ]
]

-- What is on record for the shift after `write_result` is what it reports.
pub write_result-find :
    (db : Database) (values : ResultValues)
    → find_result values.oee_unit_id values.shift_start (write_result db values).0.results
      ≡ some (record {
        id = (write_result db values).1.0;
        values = values;
        revision = (write_result db values).1.1;
      })
unfolding write_result
write_result-find db values =
    elim (Option-cases (find_result values.oee_unit_id values.shift_start db.results)) [
      | inl e ↦
          rw (e, write_result)
            (find_result-append values.oee_unit_id values.shift_start db.results
                (record { id = db.last_id + 1; values = values; revision = 1 }) e
              ∙ rw (is_of_self values (db.last_id + 1) 1) refl)
      | inr (s, e) ↦
          rw (e, write_result) (find_result-revised values (s.revision + 1) db.results s e)
    ]

-- What `save` returns is what `existing` then finds, and it is not published.
pub save-existing :
    (db : Database) (unit_id : ℕ) (window : ShiftWindow) (metrics : ShiftMetrics)
    (stops : List ClassifiedStop) (fingerprint : String) (computed_at : ℕ)
    → existing (save db unit_id window metrics stops fingerprint computed_at).0 unit_id window.start
      ≡ some (save db unit_id window metrics stops fingerprint computed_at).1
unfolding save existing as_stored result_values
save-existing db unit_id window metrics stops fingerprint computed_at =
    rw
      (
        existing,
        write_result-find db (result_values unit_id window metrics fingerprint computed_at),
      )
      refl

-- After `mark_published` the row on record has the time, and is otherwise as it was.
pub mark_published-existing :
    (db : Database) (unit_id start at : ℕ) (s : StoredResult)
    → existing db unit_id start ≡ some s
    → existing (mark_published db s.result_id at) unit_id start
      ≡ some (record s { published_at = some at })
unfolding mark_published existing as_stored
mark_published-existing db unit_id start at s h =
    elim (Option-cases (find_result unit_id start db.results)) [
      | inl e ↦ absurd (ground arith)
      | inr (r, e) ↦
          let same : as_stored r ≡ s = ground arith in
          subst
            (λ z.
              existing (mark_published db z.result_id at) unit_id start
              ≡ some (record z { published_at = some at }))
            same
            (rw (existing, find_result-published unit_id start r.id at db.results, e, eq_self r.id)
              refl)
    ]
  where
    eq_self : (n : ℕ) → (n == n) ≡ true
    eq_self n = ground arith
