-- ===== src/Oee/Store/Unique.antt =====
-- The unique constraint of the downtime events, for the writes of 12_uns_oee/src/uns_oee/store.py.
use manufacturing_uns.Prelude.{
  [], ◌∷◌, true, false, refl, inl, inr, ℕ, Bool, List, ◌≡◌, arith, any, String, filter, ◌||◌,
  Bool-cases,
}
use manufacturing_uns.Oee.Calc.{ShiftMetrics}
use manufacturing_uns.Oee.Classifier.{ClassifiedStop}
use manufacturing_uns.Oee.Tables.{DowntimeEvent, ShiftWindow, Database, event_values, result_values}
use manufacturing_uns.Oee.Store.{
  same_event, refreshed, upsert_event, downtime_upsert, downtime_auto_delete, save,
}
use manufacturing_uns.Oee.Store.Manual.{write_result-events}

-- The unique constraint of the table.
abbrev pub EventsUnique : List DowntimeEvent → Type 0
EventsUnique [] = Unit
EventsUnique (e ∷ rest) = (any (λ x. same_event x e) rest ≡ false) × EventsUnique rest

same_event_sym : (a b : DowntimeEvent) → same_event a b ≡ false → same_event b a ≡ false
unfolding same_event
same_event_sym a b h = ground arith

any-upsert :
    (events : List DowntimeEvent) (e x : DowntimeEvent)
    → any (λ y. same_event y x) events ≡ false
    → same_event e x ≡ false
    → any (λ y. same_event y x) (upsert_event events e) ≡ false
unfolding upsert_event same_event refreshed
any-upsert [] e x h k = ground arith
any-upsert (stored ∷ rest) e x h k = elim (Bool-cases (same_event stored e)) [
  | inl s ↦ rw s h
  | inr s ↦ rw s (
      both (same_event stored x) (any (λ y. same_event y x) rest) _ h
        (λ z. any-upsert rest e x z k))
]
  where
    both : (a b c : Bool) → (a || b) ≡ false → (b ≡ false → c ≡ false) → (a || c) ≡ false
    both false b c h f = f h
    both true b c h f = h

upsert_event-EventsUnique :
    (events : List DowntimeEvent) (e : DowntimeEvent)
    → EventsUnique events
    → EventsUnique (upsert_event events e)
unfolding upsert_event
upsert_event-EventsUnique [] e u = (refl, tt)
upsert_event-EventsUnique (stored ∷ rest) e u = elim (Bool-cases (same_event stored e)) [
  | inl s ↦ rw s (unfold refreshed same_event in u)
  | inr s ↦ rw s (
    any-upsert rest e stored u.0 (same_event_sym stored e s),
    upsert_event-EventsUnique rest e u.1,
  )
]

downtime_upsert-EventsUnique :
    (events rows : List DowntimeEvent)
    → EventsUnique events
    → EventsUnique (downtime_upsert events rows)
unfolding downtime_upsert
downtime_upsert-EventsUnique events [] u = u
downtime_upsert-EventsUnique events (e ∷ rest) u =
    downtime_upsert-EventsUnique (upsert_event events e) rest (upsert_event-EventsUnique events e u)

any-filter :
    (p q : DowntimeEvent → Bool) (events : List DowntimeEvent)
    → any p events ≡ false
    → any p (filter q events) ≡ false
any-filter p q [] h = refl
any-filter p q (e ∷ rest) h = ground (arith, any-filter p q rest)

filter-EventsUnique :
    (q : DowntimeEvent → Bool) (events : List DowntimeEvent)
    → EventsUnique events
    → EventsUnique (filter q events)
filter-EventsUnique q [] u = tt
filter-EventsUnique q (e ∷ rest) u = elim (Bool-cases (q e)) [
  | inl k ↦ rw k (any-filter (λ x. same_event x e) q rest u.0, filter-EventsUnique q rest u.1)
  | inr k ↦ rw k (filter-EventsUnique q rest u.1)
]

-- `save` keeps the downtime events unique: no two rows of one unit start at one instant.
pub save-EventsUnique :
    (db : Database) (unit_id : ℕ) (window : ShiftWindow) (metrics : ShiftMetrics)
    (stops : List ClassifiedStop) (fingerprint : String) (computed_at : ℕ)
    → EventsUnique db.events
    → EventsUnique (save db unit_id window metrics stops fingerprint computed_at).0.events
unfolding save downtime_auto_delete
save-EventsUnique db unit_id window metrics stops fingerprint computed_at u =
    filter-EventsUnique _ _ (
      downtime_upsert-EventsUnique _ (event_values unit_id window.start stops) (
        rw (write_result-events db (result_values unit_id window metrics fingerprint computed_at))
          u))
