-- ===== src/Oee/Pipeline/Keep.antt =====
-- Where the manual stops of shift_inputs (12_uns_oee/src/uns_oee/pipeline.py) come from.
use manufacturing_uns.Prelude.{
  [], ◌∷◌, some, true, false, refl, inl, inr, ℕ, Bool, List, ◌≡◌, ◌⊎◌, arith, any, All, ◌==◌,
  Bool-cases, subst, Option-cases, if◌then◌else◌, ◌++◌, All-append, All-map,
}
use manufacturing_uns.Prelude.Result.{ok, Result-cases}
use manufacturing_uns.Prelude.Dict.{get}
use manufacturing_uns.Oee.Classifier.{
  ManualReason, ClassifiedStop, ReasonResolver, classify, classify_one, classify_auto,
  classify_manual, resolve, spec, auto,
}
use manufacturing_uns.Oee.States.{StopInterval, StateSegment, stop_intervals, state_segments}
use manufacturing_uns.Oee.Interval.{Interval}
use manufacturing_uns.Oee.Calc.{ShiftInputs}
use manufacturing_uns.Oee.Tables.{ShiftWindow, DowntimeEvent, event_of, event_values}
use manufacturing_uns.Oee.Store.{is_manual, same_event, assigned_in, reason_of, manual_in}
use manufacturing_uns.Oee.Store.Unique.{EventsUnique}
use manufacturing_uns.Oee.Store.Manual.{is_assigned, Harmless}
use manufacturing_uns.Oee.Inputs.{
  UnitMasterData, ExceptionWindow, ShiftSamples, shift_inputs, classified_stops_of, as_interval,
  unobserved,
}

is_assigned-any :
    (e x : DowntimeEvent) (rest : List DowntimeEvent)
    → same_event e x ≡ true
    → is_assigned x rest ≡ true
    → any (λ y. same_event y e) rest ≡ true
unfolding is_assigned same_event
is_assigned-any e x [] s h = absurd (ground arith)
is_assigned-any e x (y ∷ rest) s h = ground (arith, is_assigned-any e x rest)

assigned_in-manual :
    (unit_id : ℕ) (window : ShiftWindow) (x : DowntimeEvent)
    → assigned_in unit_id window x ≡ true
    → (x.oee_unit_id ≡ unit_id) × (is_manual x.reason_source ≡ true)
unfolding assigned_in
assigned_in-manual unit_id window x h = (ground arith, ground arith)

-- A reason that `manual_reasons` reads stands on record under its instant.
manual_in-is_assigned :
    (window : ShiftWindow) (events : List DowntimeEvent) (e : DowntimeEvent) (m : ManualReason)
    → EventsUnique events
    → get ◌==◌ e.started_at (manual_in e.oee_unit_id window events) ≡ some m
    → is_assigned e events ≡ true
unfolding manual_in is_assigned reason_of
manual_in-is_assigned window [] e m u h = absurd (ground arith)
manual_in-is_assigned window (x ∷ rest) e m u h =
    elim (Bool-cases (assigned_in e.oee_unit_id window x)) [
      | inl a ↦ elim (Bool-cases (same_event x e)) [
        | inl s ↦ rw s (assigned_in-manual e.oee_unit_id window x a).1
        | inr s ↦ rw s (
            manual_in-is_assigned window rest e m u.1
              (skip (other_time (assigned_in-manual e.oee_unit_id window x a).0 s) (front a h)))
      ]
      | inr a ↦
          let more =
            manual_in-is_assigned window rest e m u.1
              (subst (λ l. get ◌==◌ e.started_at l ≡ some m) (passed a) h) in
          elim (Bool-cases (same_event x e)) [
            | inl s ↦ absurd (clash (is_assigned-any x e rest s more) u.0)
            | inr s ↦ rw s more
          ]
    ]
  where
    clash : {b : Bool} → b ≡ true → b ≡ false → ⊥
    clash h k = ground arith

    other_time :
        x.oee_unit_id ≡ e.oee_unit_id
        → same_event x e ≡ false
        → (x.started_at == e.started_at) ≡ false
    other_time p s = unfold same_event in ground arith

    front :
        assigned_in e.oee_unit_id window x ≡ true
        → get ◌==◌ e.started_at (manual_in e.oee_unit_id window (x ∷ rest)) ≡ some m
        → get ◌==◌ e.started_at (reason_of x ∷ manual_in e.oee_unit_id window rest) ≡ some m
    front a h = ground arith

    skip :
        (x.started_at == e.started_at) ≡ false
        → get ◌==◌ e.started_at (reason_of x ∷ manual_in e.oee_unit_id window rest) ≡ some m
        → get ◌==◌ e.started_at (manual_in e.oee_unit_id window rest) ≡ some m
    skip n h = ground arith

    passed :
        assigned_in e.oee_unit_id window x ≡ false
        → manual_in e.oee_unit_id window (x ∷ rest) ≡ manual_in e.oee_unit_id window rest
    passed a = rw a refl

classify_auto-source :
    (r : ReasonResolver) (stop : StopInterval) (c : ClassifiedStop)
    → classify_auto r stop ≡ ok c
    → is_manual c.source ≡ false
unfolding classify_auto is_manual
classify_auto-source r stop c h = elim (Result-cases (resolve r stop.state)) [
  | inr (e, q) ↦ absurd (ground arith)
  | inl (found, q) ↦
      let same : auto ≡ c.source = ground arith in subst (λ z. is_manual z ≡ false) same refl
]

classify_manual-interval :
    (r : ReasonResolver) (m : ManualReason) (stop : StopInterval) (c : ClassifiedStop)
    → classify_manual r m stop ≡ ok c
    → stop.interval ≡ c.interval
unfolding classify_manual
classify_manual-interval r m stop c h = elim (Result-cases (spec r m.reason_code)) [
  | inr (e, q) ↦ absurd (ground arith)
  | inl (found, q) ↦ ground arith
]

-- A stop that is classified by rule, or that opens where a reason is assigned.
abbrev pub Sourced : List (ℕ × ManualReason) → ClassifiedStop → Type 0
Sourced assigned c =
    (is_manual c.source ≡ false)
    ⊎ ((m : ManualReason) × (get ◌==◌ c.interval.start assigned ≡ some m))

classify_one-Sourced :
    (r : ReasonResolver) (assigned : List (ℕ × ManualReason)) (stop : StopInterval)
    (c : ClassifiedStop)
    → classify_one r assigned stop ≡ ok c
    → Sourced assigned c
unfolding classify_one
classify_one-Sourced r assigned stop c h =
    elim (Option-cases (get ◌==◌ stop.interval.start assigned)) [
      | inl g ↦ inl (classify_auto-source r stop c (ground arith))
      | inr (m, g) ↦
          let same : stop.interval ≡ c.interval =
            classify_manual-interval r m stop c (ground arith) in
          inr (m, subst (λ i. get ◌==◌ i.start assigned ≡ some m) same g)
    ]

classify-Sourced :
    (r : ReasonResolver) (assigned : List (ℕ × ManualReason)) (stops : List StopInterval)
    (cs : List ClassifiedStop)
    → classify stops r assigned ≡ ok cs
    → All (Sourced assigned) cs
unfolding classify
classify-Sourced r assigned [] cs h =
    let same : [] ≡ cs = ground arith in subst (All (Sourced assigned)) same tt
classify-Sourced r assigned (stop ∷ rest) cs h =
    elim (Result-cases (classify_one r assigned stop)) [
      | inr (e, q) ↦ absurd (ground arith)
      | inl (c, q) ↦ elim (Result-cases (classify rest r assigned)) [
        | inr (e, k) ↦ absurd (ground arith)
        | inl (more, k) ↦
            let same : (c ∷ more) ≡ cs = ground arith in
            subst (All (Sourced assigned)) same
              (classify_one-Sourced r assigned stop c q, classify-Sourced r assigned rest more k)
      ]
    ]

Sourced-none :
    (assigned : List (ℕ × ManualReason)) (c : ClassifiedStop) → Sourced [] c → Sourced assigned c
Sourced-none assigned c (inl h) = inl h
Sourced-none assigned c (inr (m, h)) = absurd (ground arith)

classified_stops_of-Sourced :
    (unit : UnitMasterData) (whole : Interval) (segments : List StateSegment)
    (assigned : List (ℕ × ManualReason)) (has_input_data : Bool) (cs : List ClassifiedStop)
    → classified_stops_of unit whole segments assigned has_input_data ≡ ok cs
    → All (Sourced assigned) cs
unfolding classified_stops_of
classified_stops_of-Sourced unit whole segments assigned has_input_data cs h =
    elim (Result-cases
      (classify (stop_intervals segments unit.producing_states) unit.resolver assigned)) [
        | inr (e, q) ↦ absurd (ground arith)
        | inl (a, q) ↦
            elim (Result-cases (
              classify (if has_input_data then unobserved whole segments assigned else [])
                unit.resolver [])) [
                  | inr (e, k) ↦ absurd (ground arith)
                  | inl (b, k) ↦
                      let same : (a ++ b) ≡ cs = ground arith in
                      subst (All (Sourced assigned)) same (
                        All-append (Sourced assigned) a b
                          (classify-Sourced unit.resolver assigned
                            (stop_intervals segments unit.producing_states) a q)
                          (All-map (Sourced []) (Sourced assigned) b (λ c. Sourced-none assigned c)
                            (classify-Sourced unit.resolver []
                              (if has_input_data then unobserved whole segments assigned else []) b
                              k)))
                ]
      ]

pub shift_inputs-Sourced :
    (unit : UnitMasterData) (window : ShiftWindow) (samples : ShiftSamples)
    (exceptions : List ExceptionWindow) (assigned : List (ℕ × ManualReason)) (has_input_data : Bool)
    (inputs : ShiftInputs)
    → shift_inputs unit window samples exceptions assigned has_input_data ≡ ok inputs
    → All (Sourced assigned) inputs.classified_stops
unfolding shift_inputs
shift_inputs-Sourced unit window samples exceptions assigned has_input_data inputs h =
    elim (Result-cases (
      classified_stops_of unit (as_interval window)
        (state_segments samples.state (as_interval window)) assigned has_input_data)) [
          | inr (e, q) ↦ absurd (ground arith)
          | inl (cs, q) ↦
              let same : cs ≡ inputs.classified_stops = ground arith in
              subst (All (Sourced assigned)) same (
                classified_stops_of-Sourced unit (as_interval window)
                  (state_segments samples.state (as_interval window)) assigned has_input_data cs q)
        ]

Sourced-Harmless :
    (unit_id start : ℕ) (window : ShiftWindow) (events : List DowntimeEvent) (c : ClassifiedStop)
    → EventsUnique events
    → Sourced (manual_in unit_id window events) c
    → Harmless events (event_of unit_id start c)
unfolding event_of
Sourced-Harmless unit_id start window events c u (inl h) = inl h
Sourced-Harmless unit_id start window events c u (inr (m, h)) =
    inr (manual_in-is_assigned window events (event_of unit_id start c) m u h)

-- Every stop that a run writes is harmless to the reasons on record.
pub event_values-Harmless :
    (unit_id start : ℕ) (window : ShiftWindow) (events : List DowntimeEvent)
    (cs : List ClassifiedStop)
    → EventsUnique events
    → All (Sourced (manual_in unit_id window events)) cs
    → All (Harmless events) (event_values unit_id start cs)
unfolding event_values
event_values-Harmless unit_id start window events [] u h = tt
event_values-Harmless unit_id start window events (c ∷ cs) u h = (
  Sourced-Harmless unit_id start window events c u h.0,
  event_values-Harmless unit_id start window events cs u h.1,
)
