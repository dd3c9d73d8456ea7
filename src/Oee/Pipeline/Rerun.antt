-- ===== src/Oee/Pipeline/Rerun.antt =====
-- What one run of ShiftPipeline.run_shift (12_uns_oee/src/uns_oee/pipeline.py) leaves on record.
use manufacturing_uns.Prelude.{
  [], none, some, true, false, refl, inl, inr, ℕ, Bool, List, Option, ◌≡◌, arith, All, String,
  Bool-cases, not, if◌then◌else◌, ap, subst,
}
use manufacturing_uns.Prelude.Result.{ok, Result-cases}
use text.Mathlib.Text.{◌==◌ as str_eq}
use text.Mathlib.TextEquality.{eq_iff}
use text.Mathlib.TextPositions.{eq_refl}
use manufacturing_uns.Oee.Classifier.{ManualReason, ClassifiedStop}
use manufacturing_uns.Oee.Calc.{ShiftMetrics, ShiftInputs, compute}
use manufacturing_uns.Oee.Tables.{ShiftWindow, StoredResult, Database}
use manufacturing_uns.Oee.Inputs.{UnitMasterData}
use manufacturing_uns.Oee.Store.{existing, manual_reasons, save, mark_published}
use manufacturing_uns.Oee.Store.Unique.{EventsUnique}
use manufacturing_uns.Oee.Store.Rows.{save-existing, mark_published-existing}
use manufacturing_uns.Oee.Store.Manual.{save-manual_reasons}
use manufacturing_uns.Oee.Pipeline.{
  ShiftRows, ShiftOutcome, fetch, current, record_result, publish, recompute, finish, inputs_of,
  Action,
}
use manufacturing_uns.Oee.Fingerprint.{is_empty}
use manufacturing_uns.Oee.Pipeline.Keep.{Sourced, shift_inputs-Sourced, event_values-Harmless}

pub current-some :
    (o : Option StoredResult) (fingerprint : String) (s : StoredResult)
    → current o fingerprint ≡ some s
    → (o ≡ some s) × (s.input_fingerprint ≡ fingerprint)
unfolding current
current-some none fingerprint s h = absurd (ground arith)
current-some (some r) fingerprint s h = elim (Bool-cases (str_eq r.input_fingerprint fingerprint)) [
  | inl q ↦
      let same : r ≡ s = ground arith in
      (
        ap some same,
        subst (λ z. z.input_fingerprint ≡ fingerprint) same
            ((eq_iff r.input_fingerprint fingerprint).0 q),
      )
  | inr q ↦ absurd (ground arith)
]

pub current-same :
    (s : StoredResult) (fingerprint : String)
    → s.input_fingerprint ≡ fingerprint
    → current (some s) fingerprint ≡ some s
unfolding current
current-same s fingerprint h = rw (h, eq_refl fingerprint) refl

-- The result that is to be published stands on record, under this fingerprint and unpublished, and
-- the operator's reasons are those of before.
pub record ToPublish (before : Database) (unit_id : ℕ) (window : ShiftWindow) (fingerprint : String)
    (after : Database) (s : StoredResult) : Type 0 where
  pub found : existing after unit_id window.start ≡ some s
  pub same_inputs : s.input_fingerprint ≡ fingerprint
  pub unpublished : s.published_at ≡ none
  pub reasons : manual_reasons after unit_id window ≡ manual_reasons before unit_id window

kept_stops :
    (assigned : List (ℕ × ManualReason)) (inputs : ShiftInputs)
    → All (Sourced assigned) inputs.classified_stops
    → All (Sourced assigned) (if inputs.has_input_data then inputs.classified_stops else [])
kept_stops assigned inputs h = elim (Bool-cases inputs.has_input_data) [
  | inl q ↦ rw q h
  | inr q ↦ rw q tt
]

save-returns :
    (db : Database) (unit_id : ℕ) (window : ShiftWindow) (metrics : ShiftMetrics)
    (stops : List ClassifiedStop) (fingerprint : String) (at : ℕ)
    → ((save db unit_id window metrics stops fingerprint at).1.input_fingerprint ≡ fingerprint)
      × ((save db unit_id window metrics stops fingerprint at).1.published_at ≡ none)
unfolding save
save-returns db unit_id window metrics stops fingerprint at = (refl, refl)

pub record_result-new :
    (db : Database) (unit : UnitMasterData) (window : ShiftWindow) (inputs : ShiftInputs)
    (fingerprint : String) (at : ℕ)
    → EventsUnique db.events
    → All (Sourced (manual_reasons db unit.unit_id window)) inputs.classified_stops
    → ToPublish db unit.unit_id window fingerprint
        (record_result db unit window (compute inputs) inputs fingerprint at none).0.0
        (record_result db unit window (compute inputs) inputs fingerprint at none).0.1
unfolding record_result manual_reasons
record_result-new db unit window inputs fingerprint at u h =
    let stops = if inputs.has_input_data then inputs.classified_stops else [] in
    record {
      found = save-existing db unit.unit_id window (compute inputs) stops fingerprint at;
      same_inputs = (save-returns db unit.unit_id window (compute inputs) stops fingerprint at).0;
      unpublished = (save-returns db unit.unit_id window (compute inputs) stops fingerprint at).1;
      reasons =
          save-manual_reasons db unit.unit_id window (compute inputs) stops fingerprint at
            unit.unit_id window
            (event_values-Harmless unit.unit_id window.start window db.events stops u
              (kept_stops (manual_reasons db unit.unit_id window) inputs h));
    }

pub record_result-stored :
    (db : Database) (unit : UnitMasterData) (window : ShiftWindow) (inputs : ShiftInputs)
    (fingerprint : String) (at : ℕ) (s : StoredResult)
    → existing db unit.unit_id window.start ≡ some s
    → s.input_fingerprint ≡ fingerprint
    → s.published_at ≡ none
    → ToPublish db unit.unit_id window fingerprint
        (record_result db unit window (compute inputs) inputs fingerprint at (some s)).0.0
        (record_result db unit window (compute inputs) inputs fingerprint at (some s)).0.1
unfolding record_result
record_result-stored db unit window inputs fingerprint at s e f p = record {
  found = e;
  same_inputs = f;
  unpublished = p;
  reasons = refl;
}

-- What a run leaves for the next one.
pub record After (before : Database) (unit_id : ℕ) (window : ShiftWindow) (fingerprint : String)
    (after : Database) (revision : ℕ) (delivered : Bool) : Type 0 where
  pub stored : StoredResult
  pub found : existing after unit_id window.start ≡ some stored
  pub same_inputs : stored.input_fingerprint ≡ fingerprint
  pub same_revision : stored.revision ≡ revision
  pub sent :
      (delivered ≡ true → (at : ℕ) × (stored.published_at ≡ some at))
      × (delivered ≡ false → stored.published_at ≡ none)
  pub reasons : manual_reasons after unit_id window ≡ manual_reasons before unit_id window

publish-After :
    (before db : Database) (unit_id : ℕ) (window : ShiftWindow) (fingerprint : String)
    (s : StoredResult) (at : ℕ) (delivered : Bool)
    → ToPublish before unit_id window fingerprint db s
    → After before unit_id window fingerprint (publish db s at delivered) s.revision delivered
unfolding publish manual_reasons mark_published
publish-After before db unit_id window fingerprint s at true t = record {
  stored = record s { published_at = some at };
  found = mark_published-existing db unit_id window.start at s t.found;
  same_inputs = t.same_inputs;
  same_revision = refl;
  sent = (λ h. (at, refl), λ h. absurd (ground arith));
  reasons = t.reasons;
}
publish-After before db unit_id window fingerprint s at false t = record {
  stored = s;
  found = t.found;
  same_inputs = t.same_inputs;
  same_revision = refl;
  sent = (λ h. absurd (ground arith), λ h. t.unpublished);
  reasons = t.reasons;
}

-- A run that writes leaves its result on record.
abbrev pub Left : Database → ℕ → ShiftWindow → String → Database × ShiftOutcome → Type 0
Left before unit_id window fingerprint (after, out) =
    After before unit_id window fingerprint after out.revision out.published

finish-Left :
    (before : Database) (unit : UnitMasterData) (window : ShiftWindow) (rows : ShiftRows)
    (fingerprint : String) (at : ℕ) (delivered : Bool) (stored : Option StoredResult)
    (inputs : ShiftInputs) (r : (Database × StoredResult) × Action)
    → ToPublish before unit.unit_id window fingerprint r.0.0 r.0.1
    → Left before unit.unit_id window fingerprint
        (finish unit window rows fingerprint at delivered stored inputs r)
unfolding finish
finish-Left before unit window rows fingerprint at delivered stored inputs
      ((written, result), action) t =
    publish-After before written unit.unit_id window fingerprint result at delivered t

pub recompute-Left :
    (db : Database) (unit : UnitMasterData) (window : ShiftWindow) (rows : ShiftRows)
    (fingerprint : String) (at : ℕ) (delivered : Bool) (stored same : Option StoredResult)
    (out : Database × ShiftOutcome)
    → ((inputs : ShiftInputs)
        → inputs_of unit window rows (manual_reasons db unit.unit_id window) ≡ ok inputs
        → let r = record_result db unit window (compute inputs) inputs fingerprint at same in
          ToPublish db unit.unit_id window fingerprint r.0.0 r.0.1)
    → recompute db unit window rows
        (manual_reasons db unit.unit_id window)
        fingerprint
        at
        delivered
        stored
        same
      ≡ ok out
    → Left db unit.unit_id window fingerprint out
unfolding recompute
recompute-Left db unit window rows fingerprint at delivered stored same out t h =
    elim (Result-cases (inputs_of unit window rows (manual_reasons db unit.unit_id window))) [
      | inr (e, q) ↦ absurd (ground arith)
      | inl (inputs, q) ↦
          let r = record_result db unit window (compute inputs) inputs fingerprint at same in
          let eq : finish unit window rows fingerprint at delivered stored inputs r ≡ out =
            ground arith in
          subst (Left db unit.unit_id window fingerprint) eq
            (finish-Left db unit window rows fingerprint at delivered stored inputs r (t inputs q))
    ]

pub inputs_of-Sourced :
    (unit : UnitMasterData) (window : ShiftWindow) (rows : ShiftRows)
    (assigned : List (ℕ × ManualReason)) (inputs : ShiftInputs)
    → inputs_of unit window rows assigned ≡ ok inputs
    → All (Sourced assigned) inputs.classified_stops
unfolding inputs_of
inputs_of-Sourced unit window rows assigned inputs h =
    shift_inputs-Sourced unit window (fetch unit rows.samples) rows.exceptions assigned
      (not (is_empty rows.counted)) inputs h
