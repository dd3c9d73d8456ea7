-- ===== src/Oee/Shifts/Complete.antt =====
-- The days that shift_windows of shift_calendar.py walks are enough.
use manufacturing_uns.Prelude.{
  [], ◌∷◌, ℕ, List, ◌≡◌, ◌≤◌, ◌<◌, true, arith, Contains, Bool-cases, Contains-append_left,
  Contains-append_right, inl, inr, refl, subst, ◌+◌, sym, ◌==◌, ◌*◌, if-elim, leb, ◌&&◌, zero, ltb,
  leb→le, filter-Contains, ◌-◌, le→leb, lt→ltb,
}
use manufacturing_uns.Prelude.Sort.{sorted-Contains}
use manufacturing_uns.Oee.Shifts.{
  ShiftSlot, shift_window, slot_windows, all_windows, window_leb, first_day, last_day,
  shift_windows, weekday, whole_day, suc, ◌/◌,
}

slot_windows-Contains :
    (utc : ℕ → ℕ) (slot : ShiftSlot) (day : ℕ)
    → weekday day ≡ slot.day_of_week
    → (count from : ℕ) → from ≤ day
    → day < from + count
    → Contains (slot_windows utc slot count from) (shift_window utc day slot)
unfolding slot_windows
slot_windows-Contains utc slot day w zero from h k = absurd (omega arith)
slot_windows-Contains utc slot day w (suc count) from h k = elim (Bool-cases (from == day)) [
  | inl q ↦
      let same : from ≡ day = ground (arith, q) in
      subst (λ d. Contains (slot_windows utc slot (suc count) d) (shift_window utc day slot))
        (sym same) (rw (weekday_same) (inl refl))
  | inr q ↦
      let later : suc from ≤ day = ground (arith, q) in
      let rest =
        slot_windows-Contains utc slot day w count (from + 1) (omega arith) (omega arith) in
      if-elim (λ l. Contains l (shift_window utc day slot)) (weekday from == slot.day_of_week) _ _
        (λ x. inr rest) (λ x. rest)
]
  where
    weekday_same : (weekday day == slot.day_of_week) ≡ true
    weekday_same = ground (arith, w)

all_windows-Contains :
    (utc : ℕ → ℕ) (slots : List ShiftSlot) (slot : ShiftSlot) (day count from : ℕ)
    → Contains slots slot
    → weekday day ≡ slot.day_of_week
    → from ≤ day
    → day < from + count
    → Contains (all_windows utc slots count from) (shift_window utc day slot)
unfolding all_windows
all_windows-Contains utc [] slot day count from c w h k = elim c [ ]
all_windows-Contains utc (s ∷ slots) slot day count from (inl e) w h k =
    Contains-append_left (slot_windows utc s count from) (all_windows utc slots count from)
      (shift_window utc day slot)
      (subst (λ z. Contains (slot_windows utc z count from) (shift_window utc day slot)) (sym e)
        (slot_windows-Contains utc slot day w count from h k))
all_windows-Contains utc (s ∷ slots) slot day count from (inr c) w h k =
    Contains-append_right (slot_windows utc s count from) (all_windows utc slots count from)
      (shift_window utc day slot) (all_windows-Contains utc slots slot day count from c w h k)

from_first_day :
    (a day at : ℕ)
    → at < whole_day
    → a ≤ day * whole_day + at + whole_day
    → (a - whole_day) / whole_day ≤ day
from_first_day a day at h k = omega arith

to_last_day :
    (b day at : ℕ) → day * whole_day + at ≤ b + whole_day → day ≤ (b + whole_day) / whole_day
to_last_day b day at h = omega arith

-- Where the wall clock and the instants are never more than a day out of step around the range, every
-- shift that starts in the range is among the windows.
pub shift_windows-Contains :
    (local utc : ℕ → ℕ) (slots : List ShiftSlot) (from_utc to_utc : ℕ) (slot : ShiftSlot) (day : ℕ)
    → ((wall : ℕ) → from_utc ≤ utc wall → local from_utc ≤ wall + whole_day)
    → ((wall : ℕ) → utc wall < to_utc → wall ≤ local to_utc + whole_day)
    → Contains slots slot
    → slot.start_time < whole_day
    → weekday day ≡ slot.day_of_week
    → from_utc ≤ (shift_window utc day slot).start
    → (shift_window utc day slot).start < to_utc
    → Contains (shift_windows local utc slots from_utc to_utc) (shift_window utc day slot)
unfolding shift_windows first_day last_day shift_window
shift_windows-Contains local utc slots from_utc to_utc slot day early late c small w h k =
    let wall = day * whole_day + slot.start_time in
    let first = first_day local from_utc in
    let window = shift_window utc day slot in
    let starts : (leb from_utc window.start && ltb window.start to_utc) ≡ true =
      ground (arith, le→leb from_utc window.start h, lt→ltb window.start to_utc k) in
    let from_first : first ≤ day =
      from_first_day (local from_utc) day slot.start_time small (early wall h) in
    let to_last : day ≤ last_day local to_utc =
      to_last_day (local to_utc) day slot.start_time (late wall k) in
    if-elim (λ l. Contains l window) (leb to_utc from_utc) _ _
      (λ q. absurd (omega (arith, h, k, leb→le to_utc from_utc q)))
      (λ q. sorted-Contains window_leb _ window (
        filter-Contains (λ v. leb from_utc v.start && ltb v.start to_utc) _ window
          (all_windows-Contains utc slots slot day (last_day local to_utc + 1 - first) first c w
            from_first (omega (arith, from_first, to_last)))
          starts))
