-- ===== src/Oee/Pipeline/Retry.antt =====
-- ShiftPipeline.run_shift (12_uns_oee/src/uns_oee/pipeline.py) run again after a failed publication.
use manufacturing_uns.Prelude.{
  none, some, true, false, refl, inl, inr, ℕ, Bool, Option, ◌≡◌, arith, String, Option-cases, ap,
  ◌∙◌, sym,
}
use manufacturing_uns.Prelude.Result.{ok, Result-cases}
use manufacturing_uns.Oee.Calc.{ShiftMetrics, ShiftInputs, compute}
use manufacturing_uns.Oee.Tables.{ShiftWindow, StoredResult, Database}
use manufacturing_uns.Oee.Inputs.{UnitMasterData}
use manufacturing_uns.Oee.Store.{existing, manual_reasons}
use manufacturing_uns.Oee.Pipeline.{
  ShiftRows, ShiftOutcome, Action, current, record_result, recompute, inputs_of, finish, run_shift,
  fingerprint_of, unchanged_outcome, action_republished,
}
use manufacturing_uns.Oee.Store.Unique.{EventsUnique}
use manufacturing_uns.Oee.Pipeline.Rerun.{Left, current-same}
use manufacturing_uns.Oee.Pipeline.Settle.{run_shift-Left}

module _ (str isoformat : ℕ → String) (sha256_16 : String → String) where
  -- The inputs of a run that was not published.
  abbrev WithInputs :
      UnitMasterData → ShiftWindow → ShiftRows → Database → Option ShiftMetrics → Type 0
  WithInputs unit window rows db metrics =
      (inputs : ShiftInputs) × (inputs_of unit window rows (manual_reasons db unit.unit_id window)
        ≡ ok inputs)
      × (metrics ≡ some (compute inputs))

  finish-metrics :
      (unit : UnitMasterData) (window : ShiftWindow) (rows : ShiftRows) (fingerprint : String)
      (at : ℕ) (delivered : Bool) (stored : Option StoredResult) (inputs : ShiftInputs)
      (r : (Database × StoredResult) × Action)
      → (finish unit window rows fingerprint at delivered stored inputs r).1.metrics
        ≡ some (compute inputs)
  unfolding finish
  finish-metrics unit window rows fingerprint at delivered stored inputs r = refl

  recompute-WithInputs :
      (db : Database) (unit : UnitMasterData) (window : ShiftWindow) (rows : ShiftRows)
      (fingerprint : String) (at : ℕ) (delivered : Bool) (stored same : Option StoredResult)
      (out : Database × ShiftOutcome)
      → recompute db unit window rows
          (manual_reasons db unit.unit_id window)
          fingerprint
          at
          delivered
          stored
          same
        ≡ ok out
      → WithInputs unit window rows db out.1.metrics
  unfolding recompute
  recompute-WithInputs db unit window rows fingerprint at delivered stored same out h =
      elim (Result-cases (inputs_of unit window rows (manual_reasons db unit.unit_id window))) [
        | inr (e, q) ↦ absurd (ground arith)
        | inl (inputs, q) ↦
            let r = record_result db unit window (compute inputs) inputs fingerprint at same in
            let eq : finish unit window rows fingerprint at delivered stored inputs r ≡ out =
              ground arith in
            (
              inputs,
              q,
              ap (λ z. z.1.metrics) (sym eq)
                  ∙ finish-metrics unit window rows fingerprint at delivered stored inputs r,
            )
      ]

  unchanged-published :
      (unit : UnitMasterData) (window : ShiftWindow) (revision count : ℕ)
      → (unchanged_outcome unit window revision count).published ≡ true
  unfolding unchanged_outcome
  unchanged-published unit window revision count = refl

  run_shift-WithInputs :
      (db : Database) (unit : UnitMasterData) (window : ShiftWindow) (rows : ShiftRows) (at : ℕ)
      (delivered : Bool) (out : Database × ShiftOutcome)
      → run_shift str isoformat sha256_16 db unit window rows at delivered ≡ ok out
      → out.1.published ≡ false
      → WithInputs unit window rows db out.1.metrics
  unfolding run_shift
  run_shift-WithInputs db unit window rows at delivered out h p =
      let assigned = manual_reasons db unit.unit_id window in
      let fingerprint = fingerprint_of str isoformat sha256_16 rows assigned in
      let stored = existing db unit.unit_id window.start in
      elim (Option-cases (current stored fingerprint)) [
        | inl c ↦
            recompute-WithInputs db unit window rows fingerprint at delivered stored none out
              (ground arith)
        | inr (s, c) ↦ elim (Option-cases s.published_at) [
          | inl q ↦
              recompute-WithInputs db unit window rows fingerprint at delivered stored (some s) out
                (ground arith)
          | inr (t, q) ↦
              let same : (db, unchanged_outcome unit window s.revision rows.counted.row_count)
                  ≡ out =
                ground arith in
              absurd (clash (ap (λ z. z.1.published) same) p)
        ]
      ]
    where
      clash : {b : Bool} → true ≡ b → b ≡ false → ⊥
      clash h k = ground arith

  finish-republished :
      (unit : UnitMasterData) (window : ShiftWindow) (rows : ShiftRows) (fingerprint : String)
      (at : ℕ) (stored : Option StoredResult) (inputs : ShiftInputs) (metrics : ShiftMetrics)
      (db : Database) (s : StoredResult)
      → let out =
          (finish unit window rows fingerprint at true stored inputs
            (record_result db unit window metrics inputs fingerprint at (some s))).1 in
        (out.action ≡ action_republished) × (out.revision ≡ s.revision) × (out.published ≡ true)
  unfolding finish record_result
  finish-republished unit window rows fingerprint at stored inputs metrics db s = (refl, refl, refl)

  run_shift-again :
      (db : Database) (unit : UnitMasterData) (window : ShiftWindow) (rows : ShiftRows) (at : ℕ)
      (s : StoredResult) (inputs : ShiftInputs)
      → let fingerprint =
          fingerprint_of str isoformat sha256_16 rows (manual_reasons db unit.unit_id window) in
        current (existing db unit.unit_id window.start) fingerprint ≡ some s
        → s.published_at ≡ none
        → inputs_of unit window rows (manual_reasons db unit.unit_id window) ≡ ok inputs
        → run_shift str isoformat sha256_16 db unit window rows at true
          ≡ ok (
              finish unit window rows fingerprint at true
                (existing db unit.unit_id window.start)
                inputs
                (record_result db unit window (compute inputs) inputs fingerprint at (some s)))
  unfolding run_shift recompute
  run_shift-again db unit window rows at s inputs c p q = rw (run_shift, c, p, recompute, q) refl

  -- A run whose result did not reach the broker is made good by the next one on the same rows that
  -- reaches it: it returns without an error and publishes the same numbers under the same revision,
  -- and no new revision is made.
  pub run_shift-retries :
      (db after : Database) (unit : UnitMasterData) (window : ShiftWindow) (rows : ShiftRows)
      (at again : ℕ) (delivered : Bool) (out : ShiftOutcome)
      → EventsUnique db.events
      → run_shift str isoformat sha256_16 db unit window rows at delivered ≡ ok (after, out)
      → out.published ≡ false
      → (next : Database × ShiftOutcome) × (run_shift str isoformat sha256_16 after unit window rows
            again true
          ≡ ok next)
        × (next.1.action ≡ action_republished)
        × (next.1.revision ≡ out.revision)
        × (next.1.metrics ≡ out.metrics)
        × (next.1.published ≡ true)
  run_shift-retries db after unit window rows at again delivered out u h p =
      let left =
        run_shift-Left str isoformat sha256_16 db unit window rows at delivered (after, out) u h in
      let (inputs, q, m) = run_shift-WithInputs db unit window rows at delivered (after, out) h p in
      let fingerprint =
        fingerprint_of str isoformat sha256_16 rows (manual_reasons after unit.unit_id window) in
      let stored = existing after unit.unit_id window.start in
      let result =
        record_result after unit window (compute inputs) inputs fingerprint again
          (some left.stored) in
      let (a, r, d) =
        finish-republished unit window rows fingerprint again stored inputs (compute inputs) after
          left.stored in
      (
        finish unit window rows fingerprint again true stored inputs result,
        run_shift-again after unit window rows again left.stored inputs (found left) (left.sent.1 p)
            (rw left.reasons q),
        a,
        r ∙ left.same_revision,
        finish-metrics unit window rows fingerprint again true stored inputs result ∙ sym m,
        d,
      )
    where
      found :
          (left : Left db unit.unit_id window
            (fingerprint_of str isoformat sha256_16 rows (manual_reasons db unit.unit_id window))
            (after, out))
          → current (existing after unit.unit_id window.start) (
              fingerprint_of str isoformat sha256_16 rows
                (manual_reasons after unit.unit_id window))
            ≡ some left.stored
      found left =
          rw (left.reasons, left.found)
            (current-same left.stored
              (fingerprint_of str isoformat sha256_16 rows (manual_reasons db unit.unit_id window))
              left.same_inputs)
