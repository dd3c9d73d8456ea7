-- ===== src/Oee/Classifier.antt =====
-- From a machine state to a downtime reason: 12_uns_oee/src/uns_oee/classifier.py. A mapping is an
-- association list; `ValueError` is a value of `ReasonError`.
pub mod Total
use manufacturing_uns.Prelude.{
  [], ◌∷◌, none, some, String, Bool, Option, List, if◌then◌else◌, ℕ, ◌==◌,
}
use manufacturing_uns.Prelude.Result.{Result, ok, err, ◌>>=◌, traverse}
use manufacturing_uns.Prelude.Dict.{get}
use text.Mathlib.Text.{◌==◌ as str_eq}
use manufacturing_uns.Oee.Interval.{Interval}
use manufacturing_uns.Oee.States.{StopInterval}

pub record ReasonSpec : Type 0 where
  pub code : String
  pub display_name : String
  pub category : String
  pub is_planned : Bool

pub record ManualReason : Type 0 where
  pub reason_code : String
  pub note : Option String
  pub assigned_by : Option String

-- AUTO and MANUAL.
pub data Source : Type 0 where
  auto : Source
  manual : Source

pub record ClassifiedStop : Type 0 where
  pub interval : Interval
  pub state_value : String
  pub reason_code : String
  pub is_planned : Bool
  pub source : Source
  pub note : Option String
  pub assigned_by : Option String

pub record ReasonResolver : Type 0 where
  pub reasons : List (String × ReasonSpec)
  pub unit_rules : List (String × String)
  pub default_rules : List (String × String)

pub data ReasonError : Type 0 where
  missing_unclassified : ReasonError
  unknown_code : String → ReasonError

-- UNCLASSIFIED_REASON_CODE of 09_uns_model/src/uns_model/oee_tables.py.
abbrev pub unclassified_code : String
unclassified_code = "UNCLASSIFIED"

-- `ReasonResolver.__init__`.
unfoldable pub new_resolver :
    List (String × ReasonSpec)
    → List (String × String)
    → List (String × String)
    → Result ReasonError ReasonResolver
new_resolver reasons unit_rules default_rules = elim (get str_eq unclassified_code reasons) [
  | none ↦ err missing_unclassified
  | some _ ↦
      ok (record { reasons = reasons; unit_rules = unit_rules; default_rules = default_rules })
]

unfoldable pub spec : ReasonResolver → String → Result ReasonError ReasonSpec
spec r code = elim (get str_eq code r.reasons) [
  | none ↦ err (unknown_code code)
  | some found ↦ ok found
]

-- Python's `or` on texts that may be missing: the empty text counts as missing on the left.
unfoldable pub or_code : Option String → Option String → Option String
or_code none other = other
or_code (some code) other = if str_eq code "" then other else some code

unfoldable pub resolve : ReasonResolver → String → Result ReasonError ReasonSpec
unfolding spec or_code
resolve r state_value =
    elim (or_code (get str_eq state_value r.unit_rules) (get str_eq state_value r.default_rules)) [
      | none ↦ spec r unclassified_code
      | some code ↦ spec r code
    ]

-- The reason of one stop and the record made of it: the loop body of `classify`.
unfoldable pub classify_auto : ReasonResolver → StopInterval → Result ReasonError ClassifiedStop
unfolding resolve
classify_auto r stop = do
  found ← resolve r stop.state
  ok (record {
    interval = stop.interval;
    state_value = stop.state;
    reason_code = found.code;
    is_planned = found.is_planned;
    source = auto;
    note = none;
    assigned_by = none;
  })

unfoldable pub classify_manual :
    ReasonResolver → ManualReason → StopInterval → Result ReasonError ClassifiedStop
unfolding spec
classify_manual r override stop = do
  found ← spec r override.reason_code
  ok (record {
    interval = stop.interval;
    state_value = stop.state;
    reason_code = found.code;
    is_planned = found.is_planned;
    source = manual;
    note = override.note;
    assigned_by = override.assigned_by;
  })

unfoldable pub classify_one :
    ReasonResolver → List (ℕ × ManualReason) → StopInterval → Result ReasonError ClassifiedStop
unfolding classify_auto classify_manual
classify_one r assigned stop = elim (get ◌==◌ stop.interval.start assigned) [
  | none ↦ classify_auto r stop
  | some override ↦ classify_manual r override stop
]

unfoldable pub classify :
    List StopInterval
    → ReasonResolver
    → List (ℕ × ManualReason)
    → Result ReasonError (List ClassifiedStop)
unfolding classify_one
classify stops r assigned = traverse (classify_one r assigned) stops

unfoldable pub planned_intervals : List ClassifiedStop → List Interval
planned_intervals [] = []
planned_intervals (item ∷ rest) =
    if item.is_planned then item.interval ∷ planned_intervals rest else planned_intervals rest

unfoldable pub unplanned_intervals : List ClassifiedStop → List Interval
unplanned_intervals [] = []
unplanned_intervals (item ∷ rest) =
    if item.is_planned then unplanned_intervals rest else item.interval ∷ unplanned_intervals rest
