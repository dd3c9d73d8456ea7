-- ===== src/Historian/Batch/Collect.antt =====
-- BatchCollector.try_add of 04_uns_historian/src/uns_historian/batch.py.
use manufacturing_uns.Prelude.{
  [], ◌∷◌, none, false, refl, inl, inr, ℕ, List, ◌≡◌, ◌≤◌, ◌+◌, ◌++◌, ◌≢◌, arith, length,
  length-append, Option-cases, ltb, ◌||◌, Bool-cases,
}
use manufacturing_uns.Historian.Batch.{BatchCollector, ConsumedEvent, is_full, started, try_add}

abbrev pub bytes_of : List ConsumedEvent → ℕ
bytes_of [] = 0
bytes_of (event ∷ rest) = length event.envelope_bytes + bytes_of rest

pub record CollectorIsValid (c : BatchCollector) : Type 0 where
  pub bytes : c.byte_total ≡ bytes_of c.events
  pub few : length c.events ≤ c.limits.max_events
  pub fits : c.byte_total ≤ c.limits.max_bytes
  pub timed : c.started_at ≡ none → c.events ≡ []

bytes_of-append :
    (l : List ConsumedEvent) (event : ConsumedEvent)
    → bytes_of (l ++ event ∷ []) ≡ bytes_of l + length event.envelope_bytes
bytes_of-append [] event = omega arith
bytes_of-append (x ∷ l) event = omega (arith, bytes_of-append l event)

-- Starting the clock changes nothing else.
record Begun (c b : BatchCollector) : Type 0 where
  pub same_events : b.events ≡ c.events
  pub same_bytes : b.byte_total ≡ c.byte_total
  pub same_limits : b.limits ≡ c.limits
  pub running : b.started_at ≢ none

started-Begun : (c : BatchCollector) (now : ℕ) → Begun c (started c now)
unfolding started
started-Begun c now = elim (Option-cases c.started_at) [
  | inl e ↦
      rw (started, e)
        (record {
          same_events = refl;
          same_bytes = refl;
          same_limits = refl;
          running = λ h. absurd (ground arith);
        })
  | inr (s, e) ↦
      rw (started, e)
        (record {
          same_events = refl;
          same_bytes = refl;
          same_limits = refl;
          running = λ h. absurd (ground arith);
        })
]

Begun-IsValid : (c b : BatchCollector) → Begun c b → CollectorIsValid c → CollectorIsValid b
Begun-IsValid c b h v = record {
  bytes = ground (arith, h.same_bytes, h.same_events, v.bytes);
  few = ground (arith, h.same_events, h.same_limits, v.few);
  fits = ground (arith, h.same_bytes, h.same_limits, v.fits);
  timed = λ e. absurd (h.running e);
}

-- `try_add` keeps the invariant: the byte total is that of the events, neither it nor the number of
-- events passes its limit, and a collector that holds an event has a start.
pub try_add-CollectorIsValid :
    (c : BatchCollector) (event : ConsumedEvent) (now : ℕ)
    → CollectorIsValid c
    → CollectorIsValid (try_add c event now).0
unfolding try_add
try_add-CollectorIsValid c event now v =
    let b = started c now in
    let begun = Begun-IsValid c b (started-Begun c now) v in
    elim (Bool-cases (is_full b now)) [
      | inl q ↦ rw q begun
      | inr q ↦
          elim (Bool-cases (
            ltb b.limits.max_events (length b.events + 1)
            || ltb b.limits.max_bytes (b.byte_total + length event.envelope_bytes))) [
              | inl k ↦ rw (q, k) begun
              | inr k ↦
                  let within =
                    room b.limits.max_events b.limits.max_bytes (length b.events + 1)
                      (b.byte_total + length event.envelope_bytes) k in
                  rw (q, k)
                    (record {
                      bytes = omega (arith, begun.bytes, bytes_of-append b.events event);
                      few = omega (arith, length-append b.events (event ∷ []), within.0);
                      fits = within.1;
                      timed = λ h. absurd ((started-Begun c now).running h);
                    })
            ]
    ]
  where
    room : (a b n m : ℕ) → (ltb a n || ltb b m) ≡ false → (n ≤ a) × (m ≤ b)
    room a b n m h = (ground arith, ground arith)
