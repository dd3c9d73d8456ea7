-- ===== src/Oee/ShiftExamples.antt =====
-- Tests of the store and the shift pipeline by evaluation, and their theorems at concrete inputs.
use manufacturing_uns.Prelude.{inl, [], ◌∷◌, none, some, true, false, refl, String, ℕ, ◌≡◌}
use manufacturing_uns.Prelude.Result.{Result, ok, err}
use manufacturing_uns.Prelude.Int.{pos}
use manufacturing_uns.Oee.Classifier.{ClassifiedStop, auto, manual, ReasonSpec, ReasonError}
use manufacturing_uns.Oee.Tables.{ShiftWindow, Database, DowntimeEvent, event_values}
use manufacturing_uns.Oee.Store.Writes.{empty_database, Writes-Complete, also, nothing, saving}
use manufacturing_uns.Oee.Store.Revisions.{Complete, archived}
use manufacturing_uns.Oee.Store.Manual.{save-manual_reasons}
use manufacturing_uns.Oee.Store.{save, manual_reasons, find_result, is_manual}
use manufacturing_uns.Oee.Calc.{no_metrics}
use manufacturing_uns.Oee.Inputs.{UnitMasterData}
use manufacturing_uns.Oee.Pipeline.{
  ShiftRows, ShiftOutcome, run_shift, unchanged_outcome, action_republished,
}
use manufacturing_uns.Oee.Pipeline.Settle.{run_shift-settles}
use manufacturing_uns.Oee.Pipeline.Retry.{run_shift-retries}

abbrev reason : String → ReasonSpec
reason code = record {
  code = code;
  display_name = code;
  category = "technical";
  is_planned = false;
}

abbrev unit : UnitMasterData
unit = record {
  unit_id = 3;
  asset_path = "Plant/Line1";
  producing_states = "Execute" ∷ [];
  has_reject_ref = false;
  has_product_ref = false;
  ideal_cycle_times = [];
  default_cycle_time = some 10;
  resolver = record {
    reasons = ("UNCLASSIFIED", reason "UNCLASSIFIED") ∷ [];
    unit_rules = [];
    default_rules = [];
  };
}

abbrev window : ShiftWindow
window = record { start = 100; end = 200; label = "Early" }

abbrev rows : ShiftRows
rows = record {
  counted = record { row_count = 5; max_time = some 160; manual_digest = "-" };
  samples = record {
    state =
        record { at = 90; state = "Execute" }
        ∷ record { at = 150; state = "Held" }
        ∷ record { at = 160; state = "Execute" }
        ∷ [];
    good = record { at = 100; value = pos 10 } ∷ record { at = 140; value = pos 14 } ∷ [];
    reject = [];
    product = [];
  };
  exceptions = [];
}

-- Stand-ins for Python's texts and the digest.
abbrev str : ℕ → String
str n = "5"

abbrev isoformat : ℕ → String
isoformat at = "1970-01-01T00:00:00"

abbrev sha256_16 : String → String
sha256_16 text = "e3b0c44298fc1c14"

abbrev value : Result ReasonError (Database × ShiftOutcome) → Database × ShiftOutcome
value (ok out) = out
value (err e) = (empty_database, unchanged_outcome unit window 0 0)

abbrev sent : Database × ShiftOutcome
sent = value (run_shift str isoformat sha256_16 empty_database unit window rows 300 true)

run_shift-sent :
    run_shift str isoformat sha256_16 empty_database unit window rows 300 true ≡ ok (sent.0, sent.1)
unfolding run_shift
run_shift-sent = refl

run_shift-settles_example :
    run_shift str isoformat sha256_16 sent.0 unit window rows 400 false
    ≡ ok (sent.0, unchanged_outcome unit window sent.1.revision 5)
run_shift-settles_example =
    run_shift-settles str isoformat sha256_16 empty_database sent.0 unit window rows 300 400 true
      false sent.1 tt run_shift-sent (unfold run_shift in refl)

abbrev unsent : Database × ShiftOutcome
unsent = value (run_shift str isoformat sha256_16 empty_database unit window rows 300 false)

run_shift-unsent :
    run_shift str isoformat sha256_16 empty_database unit window rows 300 false
    ≡ ok (unsent.0, unsent.1)
unfolding run_shift
run_shift-unsent = refl

run_shift-retries_example :
    (next : Database × ShiftOutcome) × (run_shift str isoformat sha256_16 unsent.0 unit window rows
        400 true
      ≡ ok next)
    × (next.1.action ≡ action_republished)
    × (next.1.revision ≡ unsent.1.revision)
    × (next.1.metrics ≡ unsent.1.metrics)
    × (next.1.published ≡ true)
run_shift-retries_example =
    run_shift-retries str isoformat sha256_16 empty_database unsent.0 unit window rows 300 400 false
      unsent.1 tt run_shift-unsent (unfold run_shift in refl)

-- One stop on record with an operator's reason, which the run classifies anew.
abbrev assigned_event : DowntimeEvent
assigned_event = record {
  oee_unit_id = 3;
  shift_start = 100;
  started_at = 150;
  ended_at = 155;
  duration = 5;
  state_value = "Held";
  reason_code = "JAM";
  reason_source = manual;
  assigned_by = some "operator";
  assigned_at = some 250;
  note = "belt";
}

abbrev with_reason : Database
with_reason = record empty_database { events = assigned_event ∷ [] }

abbrev held : ClassifiedStop
held = record {
  interval = record { start = 150; end = 160 };
  state_value = "Held";
  reason_code = "UNCLASSIFIED";
  is_planned = false;
  source = auto;
  note = none;
  assigned_by = none;
}

save-manual_reasons_example :
    manual_reasons (save with_reason 3 window no_metrics (held ∷ []) "5:x:-" 300).0 3 window
    ≡ manual_reasons with_reason 3 window
save-manual_reasons_example =
    save-manual_reasons with_reason 3 window no_metrics (held ∷ []) "5:x:-" 300 3 window
      (unfold event_values is_manual in (inl refl, tt))

abbrev first_save : Database
first_save = (save empty_database 3 window no_metrics (held ∷ []) "5:x:-" 300).0

abbrev second_save : Database
second_save = (save first_save 3 window no_metrics [] "6:x:-" 500).0

second_save-revision : archived 3 100 second_save.revisions ≡ 1 ∷ []
unfolding archived save
second_save-revision = refl

Writes-Complete_example :
    Complete (find_result 3 100 second_save.results) (archived 3 100 second_save.revisions)
Writes-Complete_example = Writes-Complete second_save 3 100 (
    also (also nothing (saving empty_database 3 window no_metrics (held ∷ []) "5:x:-" 300))
      (saving first_save 3 window no_metrics [] "6:x:-" 500))
