-- ===== src/Oee/Classifier/Total.antt =====
-- `classify` of 12_uns_oee/src/uns_oee/classifier.py on a complete vocabulary: errors, order and the
-- precedence of reasons.
use manufacturing_uns.Prelude.{
  [], ◌∷◌, none, some, String, refl, List, ◌≡◌, Option, ℕ, arith, ◌⊎◌, Option-cases, Bool-cases,
  inr, inl, subst,
}
use manufacturing_uns.Prelude.Result.{ok}
use manufacturing_uns.Prelude.Dict.{get}
use text.Mathlib.Text.{◌==◌ as str_eq}
use manufacturing_uns.Oee.States.{StopInterval}
use manufacturing_uns.Oee.Classifier.{
  ReasonSpec, ManualReason, Source, ClassifiedStop, ReasonResolver, spec, or_code, resolve,
  classify_auto, classify_manual, classify_one, classify, unclassified_code, manual, auto, ◌==◌,
}

-- Every value of the rules is in the vocabulary.
abbrev pub Known : List (String × ReasonSpec) → List (String × String) → Type 0
Known reasons [] = Unit
Known reasons ((state, code) ∷ rest) =
    ((found : ReasonSpec) × (get str_eq code reasons ≡ some found)) × Known reasons rest

abbrev pub KnownManual : List (String × ReasonSpec) → List (ℕ × ManualReason) → Type 0
KnownManual reasons [] = Unit
KnownManual reasons ((at, m) ∷ rest) =
    ((found : ReasonSpec) × (get str_eq m.reason_code reasons ≡ some found))
    × KnownManual reasons rest

-- A resolver as `__init__` leaves it, all of whose rules name reasons of the vocabulary.
pub record IsComplete (r : ReasonResolver) : Type 0 where
  pub floor : (found : ReasonSpec) × (get str_eq unclassified_code r.reasons ≡ some found)
  pub unit : Known r.reasons r.unit_rules
  pub default : Known r.reasons r.default_rules

-- What the precedence chain says: the unit's rule, then the plant's, then the floor.
unfoldable pub rule_of : ReasonResolver → String → String
rule_of r state =
    elim (or_code (get str_eq state r.unit_rules) (get str_eq state r.default_rules)) [
      | none ↦ unclassified_code
      | some code ↦ code
    ]

Known-get :
    (reasons : List (String × ReasonSpec)) (rules : List (String × String)) (state code : String)
    → Known reasons rules
    → get str_eq state rules ≡ some code
    → (found : ReasonSpec) × (get str_eq code reasons ≡ some found)
Known-get reasons [] state code h e = absurd (ground arith)
Known-get reasons ((s, c) ∷ rest) state code h e = elim (Bool-cases (str_eq s state)) [
  | inl q ↦ let p : c ≡ code = ground arith in rw p at h.0
  | inr q ↦ Known-get reasons rest state code h.1 (ground arith)
]

KnownManual-get :
    (reasons : List (String × ReasonSpec)) (rules : List (ℕ × ManualReason)) (at : ℕ)
    (m : ManualReason)
    → KnownManual reasons rules
    → get ◌==◌ at rules ≡ some m
    → (found : ReasonSpec) × (get str_eq m.reason_code reasons ≡ some found)
KnownManual-get reasons [] at m h e = absurd (ground arith)
KnownManual-get reasons ((s, c) ∷ rest) at m h e = elim (Bool-cases (s == at)) [
  | inl q ↦
      let p : c ≡ m = ground arith in
      subst
        (λ (x : ManualReason).
          (found : ReasonSpec) × (get str_eq x.reason_code reasons ≡ some found))
        p h.0
  | inr q ↦ KnownManual-get reasons rest at m h.1 (ground arith)
]

or_code-cases :
    (a b : Option String) (code : String)
    → or_code a b ≡ some code
    → (a ≡ some code) ⊎ (b ≡ some code)
unfolding or_code
or_code-cases none b code h = inr h
or_code-cases (some c) b code h = ground arith

resolve-rule_of : (r : ReasonResolver) (state : String) → resolve r state ≡ spec r (rule_of r state)
unfolding resolve rule_of
resolve-rule_of r state =
    elim (Option-cases
      (or_code (get str_eq state r.unit_rules) (get str_eq state r.default_rules))) [
        | inl e ↦ rw (e, resolve, rule_of)
        | inr (c, e) ↦ rw (e, resolve, rule_of)
      ]

rule_of-known :
    (r : ReasonResolver) (state : String)
    → IsComplete r
    → (found : ReasonSpec) × (get str_eq (rule_of r state) r.reasons ≡ some found)
unfolding rule_of
rule_of-known r state h =
    elim (Option-cases
      (or_code (get str_eq state r.unit_rules) (get str_eq state r.default_rules))) [
        | inl e ↦ rw (e, rule_of) h.floor
        | inr (c, e) ↦
            elim (or_code-cases (get str_eq state r.unit_rules) (get str_eq state r.default_rules) c
              e) [
                | inl u ↦ rw (e, rule_of) (Known-get r.reasons r.unit_rules state c h.unit u)
                | inr d ↦ rw (e, rule_of) (Known-get r.reasons r.default_rules state c h.default d)
              ]
      ]

-- The reason code that a stop must get: the operator's where there is one, else that of the rules.
unfoldable pub expected_code : ReasonResolver → List (ℕ × ManualReason) → StopInterval → String
unfolding rule_of
expected_code r assigned stop = elim (get ◌==◌ stop.interval.start assigned) [
  | none ↦ rule_of r stop.state
  | some m ↦ m.reason_code
]

unfoldable pub expected_source : List (ℕ × ManualReason) → StopInterval → Source
expected_source assigned stop = elim (get ◌==◌ stop.interval.start assigned) [
  | none ↦ auto
  | some m ↦ manual
]

-- The record made of a stop: its own interval and state, and the reason that the vocabulary has
-- under the expected code.
pub record Agrees (r : ReasonResolver) (assigned : List (ℕ × ManualReason)) (stop : StopInterval)
    (c : ClassifiedStop) : Type 0 where
  pub same_interval : c.interval ≡ stop.interval
  pub same_state : c.state_value ≡ stop.state
  pub reason : ReasonSpec
  pub in_vocabulary : get str_eq (expected_code r assigned stop) r.reasons ≡ some reason
  pub same_code : c.reason_code ≡ reason.code
  pub same_planned : c.is_planned ≡ reason.is_planned
  pub same_source : c.source ≡ expected_source assigned stop

abbrev pub AgreeAll :
    ReasonResolver → List (ℕ × ManualReason) → List StopInterval → List ClassifiedStop → Type 0
AgreeAll r assigned [] [] = Unit
AgreeAll r assigned [] (c ∷ cs) = ⊥
AgreeAll r assigned (stop ∷ stops) [] = ⊥
AgreeAll r assigned (stop ∷ stops) (c ∷ cs) =
    Agrees r assigned stop c × AgreeAll r assigned stops cs

classify_one_total :
    (r : ReasonResolver) (assigned : List (ℕ × ManualReason)) (stop : StopInterval)
    → IsComplete r
    → KnownManual r.reasons assigned
    → (c : ClassifiedStop) × (classify_one r assigned stop ≡ ok c) × Agrees r assigned stop c
classify_one_total r assigned stop h k =
    elim (Option-cases (get ◌==◌ stop.interval.start assigned)) [
      | inl e ↦
          let found = rule_of-known r stop.state h in
          (
            record {
              interval = stop.interval;
              state_value = stop.state;
              reason_code = found.0.code;
              is_planned = found.0.is_planned;
              source = auto;
              note = none;
              assigned_by = none;
            },
            unfold classify_one classify_auto in
                rw (e, classify_one, resolve-rule_of r stop.state)
                  (unfold spec in rw (found.1, spec)),
            record {
              same_interval = refl;
              same_state = refl;
              reason = found.0;
              in_vocabulary = unfold expected_code in rw (e, expected_code) found.1;
              same_code = refl;
              same_planned = refl;
              same_source = unfold expected_source in rw (e, expected_source);
            },
          )
      | inr (m, e) ↦
          let found = KnownManual-get r.reasons assigned stop.interval.start m k e in
          (
            record {
              interval = stop.interval;
              state_value = stop.state;
              reason_code = found.0.code;
              is_planned = found.0.is_planned;
              source = manual;
              note = m.note;
              assigned_by = m.assigned_by;
            },
            unfold classify_one classify_manual spec in
                rw (e, classify_one, classify_manual, found.1, spec),
            record {
              same_interval = refl;
              same_state = refl;
              reason = found.0;
              in_vocabulary = unfold expected_code in rw (e, expected_code) found.1;
              same_code = refl;
              same_planned = refl;
              same_source = unfold expected_source in rw (e, expected_source);
            },
          )
    ]

-- With a vocabulary that has the floor, every reason that a rule names and every reason that an
-- operator gave, `classify` never raises. It returns one record for each stop, in order and with the
-- stop's interval and state; the reason is the operator's where one stands at the stop's start, and
-- the record then says so; else it is that of the unit's rule, of the plant's rule, or the floor.
pub classify_total :
    (stops : List StopInterval) (r : ReasonResolver) (assigned : List (ℕ × ManualReason))
    → IsComplete r
    → KnownManual r.reasons assigned
    → (cs : List ClassifiedStop) × (classify stops r assigned ≡ ok cs)
      × AgreeAll r assigned stops cs
unfolding classify
classify_total [] r assigned h k = ([], refl, tt)
classify_total (stop ∷ stops) r assigned h k =
    let (c, e, a) = classify_one_total r assigned stop h k in
    let (cs, es, as') = classify_total stops r assigned h k in (c ∷ cs, rw (e, es), (a, as'))
