-- ===== src/Oee/Store/Manual.antt =====
-- The operator's reasons in the downtime events, for the writes of 12_uns_oee/src/uns_oee/store.py.
use manufacturing_uns.Prelude.{
  [], ◌∷◌, true, false, refl, inl, inr, ℕ, Bool, List, ◌≡◌, ◌⊎◌, arith, if◌then◌else◌, Bool-cases,
  All, ◌∙◌, All-map, Option-cases, String, map,
}
use manufacturing_uns.Oee.Calc.{ShiftMetrics}
use manufacturing_uns.Oee.Classifier.{ClassifiedStop}
use manufacturing_uns.Oee.Tables.{
  event_values, result_values, DowntimeEvent, ShiftWindow, Database, ResultValues,
}
use manufacturing_uns.Oee.Store.{
  is_manual, same_event, refreshed, upsert_event, downtime_upsert, is_stale, downtime_auto_delete,
  assigned_in, reason_of, manual_in, write_result, save, manual_reasons, find_result,
}

-- Whether the row on record under the key of this one is manual.
unfoldable pub is_assigned : DowntimeEvent → List DowntimeEvent → Bool
unfolding same_event is_manual
is_assigned e [] = false
is_assigned e (stored ∷ rest) =
    if same_event stored e then is_manual stored.reason_source else is_assigned e rest

-- A row that takes no reason from a person, or one whose place is taken by a person's already.
abbrev pub Harmless : List DowntimeEvent → DowntimeEvent → Type 0
Harmless events e = (is_manual e.reason_source ≡ false) ⊎ (is_assigned e events ≡ true)

auto-not_assigned :
    (unit_id : ℕ) (window : ShiftWindow) (e : DowntimeEvent)
    → is_manual e.reason_source ≡ false
    → assigned_in unit_id window e ≡ false
unfolding assigned_in
auto-not_assigned unit_id window e h = ground (arith, h)

refreshed-manual :
    (stored e : DowntimeEvent)
    → is_manual stored.reason_source ≡ true
    → (reason_of (refreshed stored e) ≡ reason_of stored)
      × (is_manual (refreshed stored e).reason_source ≡ true)
unfolding reason_of refreshed
refreshed-manual stored e h = rw h (refl, h)

refreshed-auto :
    (stored e : DowntimeEvent)
    → is_manual stored.reason_source ≡ false
    → is_manual (refreshed stored e).reason_source ≡ is_manual e.reason_source
unfolding refreshed
refreshed-auto stored e h = rw h refl

refreshed-assigned :
    (unit_id : ℕ) (window : ShiftWindow) (stored e : DowntimeEvent)
    → is_manual stored.reason_source ≡ true
    → assigned_in unit_id window (refreshed stored e) ≡ assigned_in unit_id window stored
unfolding assigned_in refreshed
refreshed-assigned unit_id window stored e h = rw h (rw h refl)

-- One upsert leaves the operator's reasons as they are, and every place that a person has taken.
upsert_event-manual_in :
    (unit_id : ℕ) (window : ShiftWindow) (events : List DowntimeEvent) (e : DowntimeEvent)
    → Harmless events e
    → manual_in unit_id window (upsert_event events e) ≡ manual_in unit_id window events
unfolding manual_in upsert_event is_assigned
upsert_event-manual_in unit_id window [] e (inl h) = rw (auto-not_assigned unit_id window e h) refl
upsert_event-manual_in unit_id window [] e (inr h) = absurd (ground arith)
upsert_event-manual_in unit_id window (stored ∷ rest) e h =
    elim (Bool-cases (same_event stored e)) [
      | inl s ↦ elim (Bool-cases (is_manual stored.reason_source)) [
        | inl m ↦
            rw (s, refreshed-assigned unit_id window stored e m)
              (elim (Bool-cases (assigned_in unit_id window stored)) [
                | inl a ↦ rw (a, (refreshed-manual stored e m).0) refl
                | inr a ↦ rw a refl
              ])
        | inr m ↦
            rw
              (
                s,
                auto-not_assigned unit_id window stored m,
                auto-not_assigned unit_id window (refreshed stored e)
                    (refreshed-auto stored e m ∙ auto_here s m h),
              )
              refl
      ]
      | inr s ↦
          let more = upsert_event-manual_in unit_id window rest e (elsewhere s h) in
          rw s (elim (Bool-cases (assigned_in unit_id window stored)) [
            | inl a ↦ rw (a, more) refl
            | inr a ↦ rw (a, more) refl
          ])
    ]
  where
    auto_here :
        same_event stored e ≡ true
        → is_manual stored.reason_source ≡ false
        → Harmless (stored ∷ rest) e
        → is_manual e.reason_source ≡ false
    auto_here s m (inl h) = h
    auto_here s m (inr h) = absurd (ground arith)

    elsewhere : same_event stored e ≡ false → Harmless (stored ∷ rest) e → Harmless rest e
    elsewhere s (inl h) = inl h
    elsewhere s (inr h) = inr (ground arith)

-- A row that has the key of the row on record keeps it.
refreshed-same :
    (stored e x : DowntimeEvent) → same_event (refreshed stored e) x ≡ same_event stored x
unfolding refreshed same_event
refreshed-same stored e x = refl

upsert_event-is_assigned :
    (events : List DowntimeEvent) (e x : DowntimeEvent)
    → is_assigned x events ≡ true
    → is_assigned x (upsert_event events e) ≡ true
unfolding is_assigned upsert_event
upsert_event-is_assigned [] e x h = absurd (ground arith)
upsert_event-is_assigned (stored ∷ rest) e x h = elim (Bool-cases (same_event stored e)) [
  | inl s ↦ rw s (elim (Bool-cases (same_event stored x)) [
    | inl t ↦ rw (refreshed-same stored e x, t) (refreshed-manual stored e (ground arith)).1
    | inr t ↦ rw (refreshed-same stored e x, t) (ground arith)
  ])
  | inr s ↦ rw s (elim (Bool-cases (same_event stored x)) [
    | inl t ↦ rw t (ground arith)
    | inr t ↦ rw t (upsert_event-is_assigned rest e x (ground arith))
  ])
]

Harmless-upsert :
    (events : List DowntimeEvent) (e x : DowntimeEvent)
    → Harmless events x
    → Harmless (upsert_event events e) x
Harmless-upsert events e x (inl h) = inl h
Harmless-upsert events e x (inr h) = inr (upsert_event-is_assigned events e x h)

downtime_upsert-manual_in :
    (unit_id : ℕ) (window : ShiftWindow) (events rows : List DowntimeEvent)
    → All (Harmless events) rows
    → manual_in unit_id window (downtime_upsert events rows) ≡ manual_in unit_id window events
unfolding downtime_upsert
downtime_upsert-manual_in unit_id window events [] h = refl
downtime_upsert-manual_in unit_id window events (e ∷ rest) h =
    downtime_upsert-manual_in unit_id window (upsert_event events e) rest (
      All-map (Harmless events) (Harmless (upsert_event events e)) rest
        (λ x. Harmless-upsert events e x) h.1)
    ∙ upsert_event-manual_in unit_id window events e h.0

stale-not_manual :
    (unit_id start : ℕ) (keep : List ℕ) (e : DowntimeEvent)
    → is_stale unit_id start keep e ≡ true
    → is_manual e.reason_source ≡ false
unfolding is_stale
stale-not_manual unit_id start keep e h = ground arith

downtime_auto_delete-manual_in :
    (unit_id start : ℕ) (keep : List ℕ) (unit : ℕ) (window : ShiftWindow)
    (events : List DowntimeEvent)
    → manual_in unit window (downtime_auto_delete unit_id start keep events)
      ≡ manual_in unit window events
unfolding manual_in downtime_auto_delete
downtime_auto_delete-manual_in unit_id start keep unit window [] = refl
downtime_auto_delete-manual_in unit_id start keep unit window (e ∷ rest) =
    let more = downtime_auto_delete-manual_in unit_id start keep unit window rest in
    elim (Bool-cases (is_stale unit_id start keep e)) [
      | inl s ↦
          rw (s, auto-not_assigned unit window e (stale-not_manual unit_id start keep e s)) more
      | inr s ↦ rw s (elim (Bool-cases (assigned_in unit window e)) [
        | inl a ↦ rw (a, more) refl
        | inr a ↦ rw (a, more) refl
      ])
    ]

pub write_result-events :
    (db : Database) (values : ResultValues) → (write_result db values).0.events ≡ db.events
unfolding write_result
write_result-events db values =
    elim (Option-cases (find_result values.oee_unit_id values.shift_start db.results)) [
      | inl e ↦ rw (e, write_result) refl
      | inr (r, e) ↦ rw (e, write_result) refl
    ]

-- A recomputation never overwrites a person: where each of its stops is classified by rule or stands
-- where a person's reason is on record, the reasons that `manual_reasons` reads, of every unit and in
-- every window, are the same after `save` as before it, and in the same order.
pub save-manual_reasons :
    (db : Database) (unit_id : ℕ) (window : ShiftWindow) (metrics : ShiftMetrics)
    (stops : List ClassifiedStop) (fingerprint : String) (computed_at unit : ℕ)
    (other : ShiftWindow)
    → All (Harmless db.events) (event_values unit_id window.start stops)
    → manual_reasons (save db unit_id window metrics stops fingerprint computed_at).0 unit other
      ≡ manual_reasons db unit other
unfolding save manual_reasons
save-manual_reasons db unit_id window metrics stops fingerprint computed_at unit other h =
    downtime_auto_delete-manual_in unit_id window.start (map (λ stop. stop.interval.start) stops)
      unit other
      (downtime_upsert
        (write_result db (result_values unit_id window metrics fingerprint computed_at)).0.events
        (event_values unit_id window.start stops))
    ∙ rw (write_result-events db (result_values unit_id window metrics fingerprint computed_at))
        (downtime_upsert-manual_in unit other db.events (event_values unit_id window.start stops) h)
