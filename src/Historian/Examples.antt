-- ===== src/Historian/Examples.antt =====
-- Tests of the historian's batches by evaluation, and its theorems at concrete inputs.
use manufacturing_uns.Prelude.{[], ◌∷◌, none, refl, ℕ, List, ◌≡◌, ◌≤◌, ◌<◌, true, false, arith}
use manufacturing_uns.Historian.Batch.{Envelope, BatchCollector, ConsumedEvent, compute_next_offset}
use manufacturing_uns.Historian.Batch.Offset.{handled, compute_next_offset-first}
use manufacturing_uns.Historian.Batch.Collect.{CollectorIsValid}

abbrev offsets : List ℕ
offsets = 6 ∷ 4 ∷ 5 ∷ 5 ∷ 2 ∷ 9 ∷ []

compute_next_offset-4 : compute_next_offset 4 offsets ≡ 7
unfolding compute_next_offset
compute_next_offset-4 = refl

compute_next_offset-first_example :
    (4 ≤ compute_next_offset 4 offsets)
    × (handled (compute_next_offset 4 offsets) offsets ≡ false)
    × ((o : ℕ) → 4 ≤ o → o < compute_next_offset 4 offsets → handled o offsets ≡ true)
compute_next_offset-first_example = compute_next_offset-first 4 offsets

abbrev empty_collector : BatchCollector
empty_collector = record {
  limits = record { max_events = 2; max_bytes = 10; max_age = 3; max_metric_rows = 20 };
  events = [];
  byte_total = 0;
  started_at = none;
}

abbrev envelope : Envelope
envelope = record {
  time = 7;
  event_id = 4 ∷ [];
  content_hash = [];
  is_telemetry = true;
  is_historical = false;
  payload_metrics = [];
}

abbrev event : ConsumedEvent
event = record {
  kafka_topic = "uns.historic-events";
  partition = 0;
  offset = 4;
  envelope = envelope;
  envelope_bytes = 1 ∷ 2 ∷ 3 ∷ [];
}

empty_collector-CollectorIsValid : CollectorIsValid empty_collector
empty_collector-CollectorIsValid = record {
  bytes = refl;
  few = omega arith;
  fits = omega arith;
  timed = λ h. refl;
}
