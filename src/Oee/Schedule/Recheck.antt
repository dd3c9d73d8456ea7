-- ===== src/Oee/Schedule/Recheck.antt =====
-- No settled shift of the late window is missed: recheck_windows of scheduler.py.
use manufacturing_uns.Prelude.{
  [], ◌∷◌, ℕ, List, ◌≡◌, ◌≤◌, ◌<◌, true, arith, Contains, inl, inr, subst, ◌+◌, ◌-◌, ◌*◌, ◌&&◌, leb,
  le→leb, filter-Contains,
}
use manufacturing_uns.Oee.Shifts.{ShiftSlot, shift_window, is_closed_at, minute, whole_day, weekday}
use manufacturing_uns.Oee.Shifts.Complete.{shift_windows-Contains}
use manufacturing_uns.Oee.Schedule.{longest_slot, lookback, recheck_windows}

longest_slot-le :
    (slots : List ShiftSlot) (slot : ShiftSlot)
    → Contains slots slot
    → slot.duration_minutes * minute ≤ longest_slot slots
unfolding longest_slot
longest_slot-le [] slot c = elim c [ ]
longest_slot-le (s ∷ slots) slot (inl e) =
    subst (λ z. z.duration_minutes * minute ≤ longest_slot (s ∷ slots)) e
      (unfold longest_slot in omega arith)
longest_slot-le (s ∷ slots) slot (inr c) = omega (arith, longest_slot-le slots slot c)

-- Where the wall clock and the instants are never more than a day out of step around the range, every
-- shift that has settled, ended inside the late window and took no longer than its nominal duration is
-- computed again.
pub recheck_windows-Contains :
    (local utc : ℕ → ℕ) (slots : List ShiftSlot) (now settle_minutes late_window_hours : ℕ)
    (slot : ShiftSlot) (day : ℕ)
    → ((wall : ℕ)
        → now - lookback slots late_window_hours ≤ utc wall
        → local (now - lookback slots late_window_hours) ≤ wall + whole_day)
    → ((wall : ℕ) → utc wall < now → wall ≤ local now + whole_day)
    → Contains slots slot
    → slot.start_time < whole_day
    → weekday day ≡ slot.day_of_week
    → is_closed_at (shift_window utc day slot) now settle_minutes ≡ true
    → now ≤ (shift_window utc day slot).end + late_window_hours * 60 * minute
    → (shift_window utc day slot).end
      ≤ (shift_window utc day slot).start + slot.duration_minutes * minute
    → (shift_window utc day slot).start < now
    → Contains
        (recheck_windows local utc slots now settle_minutes late_window_hours)
        (shift_window utc day slot)
unfolding recheck_windows lookback
recheck_windows-Contains local utc slots now settle_minutes late_window_hours slot day early late c
      small w closed within short started =
    let limit = late_window_hours * 60 * minute in
    let window = shift_window utc day slot in
    let longest = longest_slot-le slots slot c in
    let opened : now - (limit + longest_slot slots) ≤ window.start = omega arith in
    filter-Contains (λ v. is_closed_at v now settle_minutes && leb (now - v.end) limit) _ window
      (shift_windows-Contains local utc slots (now - lookback slots late_window_hours) now slot day
        early late c small w opened started)
      (ground (arith, closed, le→leb (now - window.end) limit (omega arith)))
