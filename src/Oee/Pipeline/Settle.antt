-- ===== src/Oee/Pipeline/Settle.antt =====
-- ShiftPipeline.run_shift (12_uns_oee/src/uns_oee/pipeline.py) run again after a publication.
use manufacturing_uns.Prelude.{
  none, some, true, refl, inl, inr, ℕ, Bool, ◌≡◌, arith, String, Option-cases, subst,
}
use manufacturing_uns.Prelude.Result.{ok}
use manufacturing_uns.Oee.Tables.{ShiftWindow, StoredResult, Database}
use manufacturing_uns.Oee.Inputs.{UnitMasterData}
use manufacturing_uns.Oee.Store.{existing, manual_reasons}
use manufacturing_uns.Oee.Pipeline.{
  ShiftRows, ShiftOutcome, current, run_shift, fingerprint_of, unchanged_outcome,
}
use manufacturing_uns.Oee.Store.Unique.{EventsUnique}
use manufacturing_uns.Oee.Pipeline.Rerun.{
  Left, recompute-Left, inputs_of-Sourced, record_result-new, record_result-stored, current-some,
  current-same,
}

module _ (str isoformat : ℕ → String) (sha256_16 : String → String) where
  unchanged-Left :
      (db : Database) (unit : UnitMasterData) (window : ShiftWindow) (rows : ShiftRows)
      (fingerprint : String) (s : StoredResult) (at : ℕ)
      → existing db unit.unit_id window.start ≡ some s
      → s.input_fingerprint ≡ fingerprint
      → s.published_at ≡ some at
      → Left db unit.unit_id window fingerprint
          (db, unchanged_outcome unit window s.revision rows.counted.row_count)
  unfolding unchanged_outcome
  unchanged-Left db unit window rows fingerprint s at e f p = record {
    stored = s;
    found = e;
    same_inputs = f;
    same_revision = refl;
    sent = (λ h. (at, p), λ h. absurd (ground arith));
    reasons = refl;
  }

  -- Whatever a run does, what it returns is on record.
  pub run_shift-Left :
      (db : Database) (unit : UnitMasterData) (window : ShiftWindow) (rows : ShiftRows) (at : ℕ)
      (delivered : Bool) (out : Database × ShiftOutcome)
      → EventsUnique db.events
      → run_shift str isoformat sha256_16 db unit window rows at delivered ≡ ok out
      → Left db unit.unit_id window
          (fingerprint_of str isoformat sha256_16 rows (manual_reasons db unit.unit_id window))
          out
  unfolding run_shift
  run_shift-Left db unit window rows at delivered out u h =
      let assigned = manual_reasons db unit.unit_id window in
      let fingerprint = fingerprint_of str isoformat sha256_16 rows assigned in
      let stored = existing db unit.unit_id window.start in
      elim (Option-cases (current stored fingerprint)) [
        | inl c ↦
            recompute-Left db unit window rows fingerprint at delivered stored none out
              (λ inputs q.
                record_result-new db unit window inputs fingerprint at u
                  (inputs_of-Sourced unit window rows assigned inputs q))
              (ground arith)
        | inr (s, c) ↦
            let (e, f) = current-some stored fingerprint s c in
            elim (Option-cases s.published_at) [
              | inl p ↦
                  recompute-Left db unit window rows fingerprint at delivered stored (some s) out
                    (λ inputs q. record_result-stored db unit window inputs fingerprint at s e f p)
                    (ground arith)
              | inr (t, p) ↦
                  let same : (db, unchanged_outcome unit window s.revision rows.counted.row_count)
                      ≡ out =
                    ground arith in
                  subst (Left db unit.unit_id window fingerprint) same
                    (unchanged-Left db unit window rows fingerprint s t e f p)
            ]
      ]

  -- A run whose result reached the broker leaves nothing to do: run again on the same rows, whenever
  -- and whatever the broker does, the shift is unchanged, under the same revision, and no row of any
  -- table is written.
  pub run_shift-settles :
      (db after : Database) (unit : UnitMasterData) (window : ShiftWindow) (rows : ShiftRows)
      (at again : ℕ) (delivered later : Bool) (out : ShiftOutcome)
      → EventsUnique db.events
      → run_shift str isoformat sha256_16 db unit window rows at delivered ≡ ok (after, out)
      → out.published ≡ true
      → run_shift str isoformat sha256_16 after unit window rows again later
        ≡ ok (after, unchanged_outcome unit window out.revision rows.counted.row_count)
  unfolding run_shift
  run_shift-settles db after unit window rows at again delivered later out u h p =
      let left = run_shift-Left db unit window rows at delivered (after, out) u h in
      let (t, sent) = left.sent.0 p in
      rw
        (
          run_shift,
          left.reasons,
          left.found,
          current-same left.stored
              (fingerprint_of str isoformat sha256_16 rows (manual_reasons db unit.unit_id window))
              left.same_inputs,
          sent,
          left.same_revision,
        )
        refl
