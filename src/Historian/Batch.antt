-- ===== src/Historian/Batch.antt =====
-- Batch assembly for the historian: BatchLimits, BatchCollector and compute_next_offset of
-- 04_uns_historian/src/uns_historian/batch.py. The clock is the argument `now`; times are ticks of it.
-- Of the envelope of an event what is written or compared later is modelled, with the metrics that
-- iter_payload_metrics yields of its payload.
pub mod Offset
pub mod Collect
use manufacturing_uns.Prelude.{
  [], ◌∷◌, none, some, true, false, String, ℕ, Bool, List, Option, ltb, leb, ◌==◌, ◌+◌, ◌-◌, ◌++◌,
  ◌||◌, ◌&&◌, not, any, length, if◌then◌else◌,
}
use manufacturing_uns.Prelude.Sort.{sorted}
use text.Mathlib.Text.{◌==◌ as str_eq}

pub record BatchLimits : Type 0 where
  pub max_events : ℕ
  pub max_bytes : ℕ
  pub max_age : ℕ
  pub max_metric_rows : ℕ

-- The name and the value, as a text, of one metric.
pub record MetricValue : Type 0 where
  pub metric_name : List ℕ
  pub value : List ℕ

pub record Envelope : Type 0 where
  pub time : ℕ
  pub event_id : List ℕ
  pub content_hash : List ℕ
  pub is_telemetry : Bool
  pub is_historical : Bool
  pub payload_metrics : List MetricValue

pub record ConsumedEvent : Type 0 where
  pub kafka_topic : String
  pub partition : ℕ
  pub offset : ℕ
  pub envelope : Envelope
  pub envelope_bytes : List ℕ

pub record BatchCollector : Type 0 where
  pub limits : BatchLimits
  pub events : List ConsumedEvent
  pub byte_total : ℕ
  pub started_at : Option ℕ

unfoldable pub new_collector : BatchLimits → BatchCollector
new_collector limits = record { limits = limits; events = []; byte_total = 0; started_at = none }

-- The assertion that a collector with events has a start is the first branch of the age.
unfoldable pub is_full : BatchCollector → ℕ → Bool
is_full c now =
    ltb 0 (length c.events)
    && (leb c.limits.max_events (length c.events)
        || leb c.limits.max_bytes c.byte_total
        || (elim c.started_at [ none ↦ false | some start ↦ leb c.limits.max_age (now - start) ]))

-- The start is set before any test, so a refused event sets it too.
unfoldable pub started : BatchCollector → ℕ → BatchCollector
started c now = elim c.started_at [ none ↦ record c { started_at = some now } | some start ↦ c ]

unfoldable pub try_add : BatchCollector → ConsumedEvent → ℕ → BatchCollector × Bool
unfolding is_full started
try_add c event now =
    let begun = started c now in
    if is_full begun now
    then (begun, false)
    else if ltb begun.limits.max_events (length begun.events + 1)
        || ltb begun.limits.max_bytes (begun.byte_total + length event.envelope_bytes)
    then (begun, false)
    else (
      record begun {
        events = begun.events ++ event ∷ [];
        byte_total = begun.byte_total + length event.envelope_bytes;
      },
      true,
    )

unfoldable pub same_partition : ConsumedEvent → ConsumedEvent → Bool
same_partition a b = str_eq a.kafka_topic b.kafka_topic && a.partition == b.partition

unfoldable pub spans_partitions : BatchCollector → Bool
unfolding same_partition
spans_partitions c = elim c.events [
  | [] ↦ false
  | first ∷ rest ↦ any (λ event. not (same_partition event first)) rest
]

-- The loop of `compute_next_offset`.
unfoldable pub advance : ℕ → List ℕ → ℕ
advance next [] = next
advance next (offset ∷ rest) =
    let skipped = advance next rest in
    let taken = advance (offset + 1) rest in
    if ltb offset next then skipped else if offset == next then taken else next

unfoldable pub compute_next_offset : ℕ → List ℕ → ℕ
unfolding advance sorted
compute_next_offset checkpoint_next handled_offsets =
    advance checkpoint_next (sorted leb handled_offsets)
