-- ===== src/Oee/Shifts.antt =====
-- Shift windows: 12_uns_oee/src/uns_oee/shift_calendar.py. A local wall-clock time is its number of
-- microseconds, a date its number of days, and day 0 is a Monday. The zone is two arguments: `local`, the
-- wall-clock time of an instant, and `utc`, the instant of a wall-clock time (resolve_local).
pub mod Complete
use manufacturing_uns.Prelude.{
  [], ◌∷◌, ℕ, List, Bool, String, ◌+◌, ◌-◌, ◌*◌, ◌==◌, ◌++◌, ltb, leb, not, ◌&&◌, if◌then◌else◌,
  filter, suc, zero,
}
use Prim.Native.Nat.{◌/◌, ◌%◌}
use manufacturing_uns.Oee.Tables.{ShiftWindow}
use manufacturing_uns.Prelude.Sort.{sorted}
use manufacturing_uns.Prelude.Text.{str_leb}

pub record ShiftSlot : Type 0 where
  pub day_of_week : ℕ
  pub start_time : ℕ
  pub duration_minutes : ℕ
  pub label : String

abbrev pub minute : ℕ
minute = 60000000

abbrev pub whole_day : ℕ
whole_day = 86400000000

abbrev pub edge_days : ℕ
edge_days = 1

unfoldable pub is_closed_at : ShiftWindow → ℕ → ℕ → Bool
is_closed_at w at settle_minutes = leb (w.end + settle_minutes * minute) at

unfoldable pub weekday : ℕ → ℕ
weekday day = day % 7

-- `_window`.
unfoldable pub shift_window : (ℕ → ℕ) → ℕ → ShiftSlot → ShiftWindow
shift_window utc day slot =
    let naive_start = day * whole_day + slot.start_time in
    record {
      start = utc naive_start;
      end = utc (naive_start + slot.duration_minutes * minute);
      label = slot.label;
    }

-- The loop over the days, `count` of them from `day` on.
unfoldable pub slot_windows : (ℕ → ℕ) → ShiftSlot → ℕ → ℕ → List ShiftWindow
unfolding weekday shift_window
slot_windows utc slot zero day = []
slot_windows utc slot (suc count) day =
    let rest = slot_windows utc slot count (day + 1) in
    if weekday day == slot.day_of_week then shift_window utc day slot ∷ rest else rest

unfoldable pub all_windows : (ℕ → ℕ) → List ShiftSlot → ℕ → ℕ → List ShiftWindow
unfolding slot_windows
all_windows utc [] count day = []
all_windows utc (slot ∷ slots) count day =
    slot_windows utc slot count day ++ all_windows utc slots count day

-- The order of the fields of the dataclass.
unfoldable pub window_leb : ShiftWindow → ShiftWindow → Bool
window_leb a b =
    if not (a.start == b.start)
    then leb a.start b.start
    else if not (a.end == b.end)
    then leb a.end b.end
    else str_leb a.label b.label

unfoldable pub first_day : (ℕ → ℕ) → ℕ → ℕ
first_day local from_utc = (local from_utc - edge_days * whole_day) / whole_day

unfoldable pub last_day : (ℕ → ℕ) → ℕ → ℕ
last_day local to_utc = (local to_utc + edge_days * whole_day) / whole_day

unfoldable pub shift_windows : (ℕ → ℕ) → (ℕ → ℕ) → List ShiftSlot → ℕ → ℕ → List ShiftWindow
unfolding first_day last_day all_windows window_leb sorted
shift_windows local utc slots from_utc to_utc =
    let first = first_day local from_utc in
    let windows = all_windows utc slots (last_day local to_utc + 1 - first) first in
    if leb to_utc from_utc
    then []
    else sorted window_leb (filter (λ w. leb from_utc w.start && ltb w.start to_utc) windows)
