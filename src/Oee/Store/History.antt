-- ===== src/Oee/Store/History.antt =====
-- The history of a shift under save and mark_published of 12_uns_oee/src/uns_oee/store.py.
use manufacturing_uns.Prelude.{
  [], ◌∷◌, none, some, true, false, refl, inl, inr, ℕ, List, Option, ◌≡◌, arith, suc, ◌&&◌, ◌==◌,
  ◌++◌, Bool-cases, Option-cases, ◌+◌, subst, ◌∙◌, sym, String, if◌then◌else◌,
}
use manufacturing_uns.Oee.Calc.{ShiftMetrics}
use manufacturing_uns.Oee.Classifier.{ClassifiedStop}
use manufacturing_uns.Oee.Tables.{
  Database, ResultValues, ShiftResult, ShiftWindow, revision_values, result_values,
}
use manufacturing_uns.Oee.Store.{is_of, find_result, write_result, mark_published, save}
use manufacturing_uns.Oee.Store.Rows.{
  same_shift, published, find_result-append, find_result-append_some, find_result-published,
  write_result-find,
}
use manufacturing_uns.Oee.Store.Revisions.{
  archived, Complete, History, IdsRise-append, IdsRise-revised, IdsRise-published,
  find_result-other, archived-append,
}

find_result-key :
    (unit_id start : ℕ) (rows : List ShiftResult) (s : ShiftResult)
    → find_result unit_id start rows ≡ some s
    → (s.values.oee_unit_id ≡ unit_id) × (s.values.shift_start ≡ start)
unfolding find_result is_of
find_result-key unit_id start [] s e = absurd (ground arith)
find_result-key unit_id start (r ∷ rest) s e = elim (Bool-cases (is_of unit_id start r)) [
  | inl o ↦
      let same : r ≡ s = ground arith in
      subst (λ z. (z.values.oee_unit_id ≡ unit_id) × (z.values.shift_start ≡ start)) same
        (ground arith, ground arith)
  | inr o ↦ find_result-key unit_id start rest s (ground arith)
]

revision_values-own :
    (values : ResultValues) (s : ShiftResult)
    → (s.values.oee_unit_id ≡ values.oee_unit_id) × (s.values.shift_start ≡ values.shift_start)
    → ((revision_values s).oee_unit_id == values.oee_unit_id
        && (revision_values s).shift_start == values.shift_start)
      ≡ true
unfolding revision_values
revision_values-own values s h = ground (arith, h.0, h.1)

revision_values-revision :
    (s : ShiftResult) (n : ℕ) → s.revision ≡ suc n → (revision_values s).revision ≡ suc n
unfolding revision_values
revision_values-revision s n h = h

revision_values-other :
    (values : ResultValues) (unit_id start : ℕ) (s : ShiftResult)
    → (s.values.oee_unit_id ≡ values.oee_unit_id) × (s.values.shift_start ≡ values.shift_start)
    → same_shift values unit_id start ≡ false
    → ((revision_values s).oee_unit_id == unit_id && (revision_values s).shift_start == start)
      ≡ false
unfolding revision_values
revision_values-other values unit_id start s (a, b) k = rw (a, b) k

abbrev new_row : Database → ResultValues → ShiftResult
new_row db values = record { id = db.last_id + 1; values = values; revision = 1 }

new_row-other :
    (db : Database) (values : ResultValues) (unit_id start : ℕ)
    → same_shift values unit_id start ≡ false
    → is_of unit_id start (new_row db values) ≡ false
unfolding is_of
new_row-other db values unit_id start k = k

-- The shift that is written: its old row is archived, and the new one counts one more.
write_result-own :
    (db : Database) (values : ResultValues)
    → Complete
        (find_result values.oee_unit_id values.shift_start db.results)
        (archived values.oee_unit_id values.shift_start db.revisions)
    → Complete
        (find_result values.oee_unit_id values.shift_start (write_result db values).0.results)
        (archived values.oee_unit_id values.shift_start (write_result db values).0.revisions)
unfolding write_result archived
write_result-own db values h =
    rw (write_result-find db values)
      (elim (Option-cases (find_result values.oee_unit_id values.shift_start db.results)) [
        | inl e ↦
            rw (e, write_result)
              (
                0,
                refl,
                subst
                    (λ o. Complete o (archived values.oee_unit_id values.shift_start db.revisions))
                    e h,
              )
        | inr (s, e) ↦
            let (n, number, all) =
              subst (λ o. Complete o (archived values.oee_unit_id values.shift_start db.revisions))
                e h in
            rw (e, write_result)
              (
                suc n,
                omega (arith, number),
                archived-append values.oee_unit_id values.shift_start db.revisions
                      (revision_values s)
                    ∙ rw
                        (revision_values-own values s
                          (find_result-key values.oee_unit_id values.shift_start db.results s e))
                        (rw (all, revision_values-revision s n number) refl),
              )
      ])

-- Every other shift: its row and its archive stay.
write_result-others :
    (db : Database) (values : ResultValues) (unit_id start : ℕ)
    → History db
    → same_shift values unit_id start ≡ false
    → (find_result unit_id start (write_result db values).0.results
        ≡ find_result unit_id start db.results)
      × (archived unit_id start (write_result db values).0.revisions
          ≡ archived unit_id start db.revisions)
unfolding write_result find_result archived
write_result-others db values unit_id start h k =
    elim (Option-cases (find_result values.oee_unit_id values.shift_start db.results)) [
      | inl e ↦ rw (e, write_result) (appended_other, refl)
      | inr (s, e) ↦
          rw (e, write_result)
            (
              find_result-other unit_id start 0 db.last_id values (s.revision + 1) db.results s
                  h.rise e k,
              archived-append unit_id start db.revisions (revision_values s)
                  ∙ rw
                      (revision_values-other values unit_id start s
                        (find_result-key values.oee_unit_id values.shift_start db.results s e) k)
                      refl,
            )
    ]
  where
    appended_other :
        find_result unit_id start (db.results ++ new_row db values ∷ [])
        ≡ find_result unit_id start db.results
    appended_other = elim (Option-cases (find_result unit_id start db.results)) [
      | inl e ↦
          find_result-append unit_id start db.results (new_row db values) e
          ∙ rw (new_row-other db values unit_id start k, e) refl
      | inr (x, e) ↦
          find_result-append_some unit_id start db.results (new_row db values) x e ∙ sym e
    ]

write_result-History :
    (db : Database) (values : ResultValues) → History db → History (write_result db values).0
unfolding write_result
write_result-History db values h = record {
  rise = elim (Option-cases (find_result values.oee_unit_id values.shift_start db.results)) [
    | inl e ↦ rw (e, write_result) (IdsRise-append 0 db.last_id db.results values 1 h.rise)
    | inr (s, e) ↦
        rw (e, write_result)
          (IdsRise-revised 0 db.last_id s.id values (s.revision + 1) db.results h.rise)
  ];
  complete = λ unit_id start. elim (Bool-cases (same_shift values unit_id start)) [
    | inl k ↦
        let unit : values.oee_unit_id ≡ unit_id = ground arith in
        let at : values.shift_start ≡ start = ground arith in
        subst
          (λ u.
            Complete (find_result u start (write_result db values).0.results)
              (archived u start (write_result db values).0.revisions))
          unit
          (subst
            (λ z.
              Complete (find_result values.oee_unit_id z (write_result db values).0.results)
                (archived values.oee_unit_id z (write_result db values).0.revisions))
            at (write_result-own db values (h.complete values.oee_unit_id values.shift_start)))
    | inr k ↦
        let (a, b) = write_result-others db values unit_id start h k in
        rw (a, b) (h.complete unit_id start)
  ];
}

pub save-History :
    (db : Database) (unit_id : ℕ) (window : ShiftWindow) (metrics : ShiftMetrics)
    (stops : List ClassifiedStop) (fingerprint : String) (computed_at : ℕ)
    → History db
    → History (save db unit_id window metrics stops fingerprint computed_at).0
unfolding save
save-History db unit_id window metrics stops fingerprint computed_at h =
    let old =
      write_result-History db (result_values unit_id window metrics fingerprint computed_at) h in
    record { rise = old.rise; complete = old.complete }

Complete-published :
    (o : Option ShiftResult) (id at : ℕ) (revisions : List ℕ)
    → Complete o revisions
    → Complete
        (elim o [ none ↦ none | some s ↦ some (if s.id == id then published at s else s) ])
        revisions
Complete-published none id at revisions h = h
Complete-published (some s) id at revisions h = elim (Bool-cases (s.id == id)) [
  | inl i ↦ rw i h
  | inr i ↦ rw i h
]

pub mark_published-History :
    (db : Database) (id at : ℕ) → History db → History (mark_published db id at)
unfolding mark_published
mark_published-History db id at h = record {
  rise = IdsRise-published 0 db.last_id id at db.results h.rise;
  complete = λ unit_id start. rw (find_result-published unit_id start id at db.results) (
      Complete-published (find_result unit_id start db.results) id at
        (archived unit_id start db.revisions) (h.complete unit_id start));
}
