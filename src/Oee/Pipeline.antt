-- ===== src/Oee/Pipeline.antt =====
-- One shift for one unit: ShiftPipeline of 12_uns_oee/src/uns_oee/pipeline.py. What the reads return is
-- the record ShiftRows, and whether the broker takes the message is the argument `delivered`.
pub mod Keep
pub mod Rerun
pub mod Settle
pub mod Retry
use manufacturing_uns.Prelude.{
  [], ◌∷◌, none, some, true, false, String, ℕ, Bool, List, Option, if◌then◌else◌, ◌==◌, not, leb,
}
use Prim.Native.Char.{Char, code}
use manufacturing_uns.Prelude.Result.{Result, ok, err, ◌>>=◌}
use manufacturing_uns.Prelude.Sort.{sorted}
use text.Mathlib.Text.{◌==◌ as str_eq}
use manufacturing_uns.Oee.Classifier.{ManualReason, ClassifiedStop, ReasonError}
use manufacturing_uns.Oee.Calc.{ShiftMetrics, ShiftInputs, compute}
use manufacturing_uns.Oee.Tables.{ShiftWindow, StoredResult, Database}
use manufacturing_uns.Oee.Store.{existing, manual_reasons, save, mark_published}
use manufacturing_uns.Oee.Fingerprint.{
  Fingerprint, with_manual, is_empty, source_part, as_text, manual_digest,
}
use manufacturing_uns.Oee.Inputs.{
  UnitMasterData, ExceptionWindow, ShiftSamples, shift_inputs, counter_resets, unclassified_seconds,
}

-- What one shift reads: the fingerprint of the historian, the four series and the exceptions.
pub record ShiftRows : Type 0 where
  pub counted : Fingerprint
  pub samples : ShiftSamples
  pub exceptions : List ExceptionWindow

pub data Action : Type 0 where
  action_computed : Action
  action_revised : Action
  action_republished : Action
  action_unchanged : Action

pub record ShiftOutcome : Type 0 where
  pub unit_id : ℕ
  pub asset_path : String
  pub window : ShiftWindow
  pub action : Action
  pub metrics : Option ShiftMetrics
  pub revision : ℕ
  pub published : Bool
  pub input_rows : ℕ
  pub counter_resets : ℕ
  pub unclassified_seconds : ℕ
  pub late_data : Bool

-- `_fetch`: a series that the unit does not bind is empty.
unfoldable pub fetch : UnitMasterData → ShiftSamples → ShiftSamples
fetch unit rows = record {
  state = rows.state;
  good = rows.good;
  reject = if unit.has_reject_ref then rows.reject else [];
  product = if unit.has_product_ref then rows.product else [];
}

-- The result on record, where its fingerprint is this one.
unfoldable pub current : Option StoredResult → String → Option StoredResult
current none fingerprint = none
current (some stored) fingerprint =
    if str_eq stored.input_fingerprint fingerprint then some stored else none

-- `late_data`.
unfoldable pub is_late : Option StoredResult → String → Bool
unfolding source_part
is_late none fingerprint = false
is_late (some stored) fingerprint =
    not (str_eq (source_part stored.input_fingerprint) (source_part fingerprint))

-- The result to publish, with what the run has done: the one on record, or a new revision.
unfoldable pub record_result :
    Database
    → UnitMasterData
    → ShiftWindow
    → ShiftMetrics
    → ShiftInputs
    → String
    → ℕ
    → Option StoredResult
    → (Database × StoredResult) × Action
unfolding save
record_result db unit window metrics inputs fingerprint computed_at (some stored) =
    ((db, stored), action_republished)
record_result db unit window metrics inputs fingerprint computed_at none =
    let saved =
      save db unit.unit_id window metrics
        (if inputs.has_input_data then inputs.classified_stops else []) fingerprint computed_at in
    (saved, if saved.1.revision == 1 then action_computed else action_revised)

unfoldable pub publish : Database → StoredResult → ℕ → Bool → Database
unfolding mark_published
publish db stored computed_at delivered =
    if delivered then mark_published db stored.result_id computed_at else db

-- The outcome of a shift of which nothing was read past the fingerprint.
unfoldable pub unchanged_outcome : UnitMasterData → ShiftWindow → ℕ → ℕ → ShiftOutcome
unchanged_outcome unit window revision row_count = record {
  unit_id = unit.unit_id;
  asset_path = unit.asset_path;
  window = window;
  action = action_unchanged;
  metrics = none;
  revision = revision;
  published = true;
  input_rows = row_count;
  counter_resets = 0;
  unclassified_seconds = 0;
  late_data = false;
}

-- The end of `run_shift`: publication, its mark and the outcome.
unfoldable pub finish :
    UnitMasterData
    → ShiftWindow
    → ShiftRows
    → String
    → ℕ
    → Bool
    → Option StoredResult
    → ShiftInputs
    → (Database × StoredResult) × Action
    → Database × ShiftOutcome
unfolding compute publish is_late fetch counter_resets unclassified_seconds
finish unit window rows fingerprint computed_at delivered stored inputs
      ((written, result), action) =
    (
      publish written result computed_at delivered,
      record {
        unit_id = unit.unit_id;
        asset_path = unit.asset_path;
        window = window;
        action = action;
        metrics = some (compute inputs);
        revision = result.revision;
        published = delivered;
        input_rows = rows.counted.row_count;
        counter_resets = counter_resets (fetch unit rows.samples);
        unclassified_seconds = unclassified_seconds inputs.classified_stops;
        late_data = is_late stored fingerprint;
      },
    )

-- `shift_inputs` as `run_shift` calls it.
unfoldable pub inputs_of :
    UnitMasterData
    → ShiftWindow
    → ShiftRows
    → List (ℕ × ManualReason)
    → Result ReasonError ShiftInputs
unfolding shift_inputs fetch is_empty
inputs_of unit window rows assigned =
    shift_inputs unit window (fetch unit rows.samples) rows.exceptions assigned
      (not (is_empty rows.counted))

-- `run_shift` from the point where it does not stop at the fingerprint.
unfoldable pub recompute :
    Database
    → UnitMasterData
    → ShiftWindow
    → ShiftRows
    → List (ℕ × ManualReason)
    → String
    → ℕ
    → Bool
    → Option StoredResult
    → Option StoredResult
    → Result ReasonError (Database × ShiftOutcome)
unfolding inputs_of compute record_result finish
recompute db unit window rows assigned fingerprint computed_at delivered stored same = do
  inputs ← inputs_of unit window rows assigned
  ok (
      finish unit window rows fingerprint computed_at delivered stored inputs
        (record_result db unit window (compute inputs) inputs fingerprint computed_at same))

module _ (str isoformat : ℕ → String) (sha256_16 : String → String) where
  -- The fingerprint that a run stores or finds.
  unfoldable pub fingerprint_of : ShiftRows → List (ℕ × ManualReason) → String
  unfolding as_text with_manual manual_digest
  fingerprint_of rows assigned =
      as_text str isoformat sha256_16
        (with_manual rows.counted (manual_digest str isoformat sha256_16 assigned))

  unfoldable pub run_shift :
      Database
      → UnitMasterData
      → ShiftWindow
      → ShiftRows
      → ℕ
      → Bool
      → Result ReasonError (Database × ShiftOutcome)
  unfolding fingerprint_of existing manual_reasons current recompute unchanged_outcome
  run_shift db unit window rows computed_at delivered =
      let assigned = manual_reasons db unit.unit_id window in
      let fingerprint = fingerprint_of rows assigned in
      let stored = existing db unit.unit_id window.start in
      elim (current stored fingerprint) [
        | none ↦
            recompute db unit window rows assigned fingerprint computed_at delivered stored none
        | some same ↦ elim same.published_at [
          | none ↦
              recompute db unit window rows assigned fingerprint computed_at delivered stored
                (some same)
          | some _ ↦ ok (db, unchanged_outcome unit window same.revision rows.counted.row_count)
        ]
      ]
