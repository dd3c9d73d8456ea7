-- ===== src/Oee/Schedule.antt =====
-- Which shift windows a pass computes: the pure functions of 12_uns_oee/src/uns_oee/scheduler.py. A
-- subtraction stops at 0 where Python would leave the range of its dates.
pub mod Recheck
pub mod Unique
use manufacturing_uns.Prelude.{
  [], ◌∷◌, none, some, ℕ, List, Option, Bool, ◌+◌, ◌-◌, ◌*◌, ◌==◌, ◌++◌, ◌||◌, min, max, ltb, leb,
  any, length, map, ◌&&◌, if◌then◌else◌, filter, true,
}
use manufacturing_uns.Prelude.Sort.{sorted}
use manufacturing_uns.Oee.Tables.{ShiftWindow}
use manufacturing_uns.Oee.Shifts.{ShiftSlot, shift_windows, is_closed_at, minute, whole_day}

-- One recompute request; `unit_id` none means every unit.
pub record ClaimedRange : Type 0 where
  pub unit_id : Option ℕ
  pub start : ℕ
  pub end : ℕ

pub record BackfillPlan : Type 0 where
  pub windows : List ShiftWindow
  pub skipped_no_history : ℕ
  pub skipped_predates_data : ℕ

-- The retention comes as the whole days that `int` makes of it.
unfoldable pub clamp_backfill_days : ℕ → Option ℕ → ℕ
clamp_backfill_days configured none = configured
clamp_backfill_days configured (some retention) = min configured retention

-- The `max` of `_lookback`.
unfoldable pub longest_slot : List ShiftSlot → ℕ
longest_slot [] = 0
longest_slot (slot ∷ slots) = max (slot.duration_minutes * minute) (longest_slot slots)

unfoldable pub lookback : List ShiftSlot → ℕ → ℕ
unfolding longest_slot
lookback slots late_window_hours = late_window_hours * 60 * minute + longest_slot slots

unfoldable pub recheck_windows : (ℕ → ℕ) → (ℕ → ℕ) → List ShiftSlot → ℕ → ℕ → ℕ → List ShiftWindow
unfolding is_closed_at shift_windows lookback
recheck_windows local utc slots now settle_minutes late_window_hours =
    let limit = late_window_hours * 60 * minute in
    filter (λ w. is_closed_at w now settle_minutes && leb (now - w.end) limit)
      (shift_windows local utc slots (now - lookback slots late_window_hours) now)

unfoldable pub backfill_windows :
    (ℕ → ℕ) → (ℕ → ℕ) → List ShiftSlot → ℕ → ℕ → ℕ → Option ℕ → BackfillPlan
unfolding is_closed_at shift_windows
backfill_windows local utc slots now settle_minutes backfill_days earliest_input_at =
    let settled =
      filter (λ w. is_closed_at w now settle_minutes)
        (shift_windows local utc slots (now - backfill_days * whole_day) now) in
    elim earliest_input_at [
      | none ↦ record {
        windows = [];
        skipped_no_history = length settled;
        skipped_predates_data = 0;
      }
      | some earliest ↦
          let kept = filter (λ w. ltb earliest w.end) settled in
          record {
            windows = kept;
            skipped_no_history = 0;
            skipped_predates_data = length settled - length kept;
          }
    ]

unfoldable pub request_windows :
    (ℕ → ℕ) → (ℕ → ℕ) → List ShiftSlot → List (ℕ × ℕ) → ℕ → ℕ → List ShiftWindow
unfolding is_closed_at shift_windows
request_windows local utc slots [] now settle_minutes = []
request_windows local utc slots ((start, end) ∷ ranges) now settle_minutes =
    filter (λ w. is_closed_at w now settle_minutes) (shift_windows local utc slots start end)
    ++ request_windows local utc slots ranges now settle_minutes

unfoldable pub applies_to : ℕ → ClaimedRange → Bool
applies_to unit_id item = elim item.unit_id [ none ↦ true | some u ↦ u == unit_id ]

unfoldable pub ranges_for : ℕ → List ClaimedRange → List (ℕ × ℕ)
unfolding applies_to
ranges_for unit_id claimed =
    map (λ item. (item.start, item.end)) (filter (applies_to unit_id) claimed)

-- The loop of `ordered_unique`.
unfoldable pub keep_unseen : List ℕ → List ShiftWindow → List ShiftWindow
keep_unseen seen [] = []
keep_unseen seen (window ∷ windows) =
    let skipped = keep_unseen seen windows in
    let kept = keep_unseen (window.start ∷ seen) windows in
    if any (λ s. s == window.start) seen then skipped else window ∷ kept

unfoldable pub ordered_unique : List ShiftWindow → List ShiftWindow
unfolding sorted keep_unseen
ordered_unique windows = keep_unseen [] (sorted (λ a b. leb a.start b.start) windows)
