-- ===== src/Oee/CalendarExamples.antt =====
-- Tests of the shift windows and of their choice by evaluation, and their theorems at a concrete zone.
use manufacturing_uns.Oee.Tables.{ShiftWindow}
use manufacturing_uns.Prelude.{
  [], ◌∷◌, refl, ℕ, ◌≡◌, true, arith, Contains, inl, ◌+◌, ◌-◌, ◌*◌, inr, if◌then◌else◌, ltb, List,
}
use manufacturing_uns.Oee.Shifts.{
  ShiftSlot, shift_window, shift_windows, is_closed_at, weekday, whole_day, minute,
}
use manufacturing_uns.Oee.Schedule.{recheck_windows, ordered_unique}
use manufacturing_uns.Oee.Schedule.Recheck.{recheck_windows-Contains}
use manufacturing_uns.Oee.Schedule.Unique.{starts_at, StartsDistinct, ordered_unique-StartsDistinct}
use manufacturing_uns.Oee.Shifts.Complete.{shift_windows-Contains}

-- A zone two hours ahead of UTC.
abbrev local : ℕ → ℕ
local instant = instant + 120 * minute

abbrev utc : ℕ → ℕ
utc wall = wall - 120 * minute

abbrev early : ShiftSlot
early = record {
  day_of_week = 0;
  start_time = 360 * minute;
  duration_minutes = 480;
  label = "early";
}

abbrev night : ShiftSlot
night = record {
  day_of_week = 0;
  start_time = 1320 * minute;
  duration_minutes = 480;
  label = "night";
}

-- One Monday: both shifts, the earlier one first.
monday :
    shift_windows local utc (night ∷ early ∷ []) 0 whole_day
    ≡ record { start = 240 * minute; end = 720 * minute; label = "early" }
      ∷ record { start = 1200 * minute; end = 1680 * minute; label = "night" }
      ∷ []
unfolding shift_windows
monday = refl

settled :
    is_closed_at (record { start = 0; end = 720 * minute; label = "early" }) (730 * minute) 10
    ≡ true
unfolding is_closed_at
settled = refl

shift_windows-Contains_example :
    Contains (shift_windows local utc (night ∷ early ∷ []) 0 whole_day) (shift_window utc 0 night)
unfolding weekday shift_window
shift_windows-Contains_example =
    shift_windows-Contains local utc (night ∷ early ∷ []) 0 whole_day night 0
      (λ wall h. omega arith) (λ wall h. omega arith) (inl refl) (omega arith) refl (omega arith)
      (omega arith)

recheck_windows-Contains_example :
    Contains
      (recheck_windows local utc (night ∷ early ∷ []) (900 * minute) 10 4)
      (shift_window utc 0 early)
unfolding weekday shift_window is_closed_at
recheck_windows-Contains_example =
    recheck_windows-Contains local utc (night ∷ early ∷ []) (900 * minute) 10 4 early 0
      (λ wall h. omega arith) (λ wall h. omega arith) (inr (inl refl)) (omega arith) refl refl
      (omega arith) (omega arith) (omega arith)

-- The zone when summer time ends in the night that follows: it is one hour ahead from then on.
abbrev local_autumn : ℕ → ℕ
local_autumn instant =
    if ltb instant (1500 * minute) then instant + 120 * minute else instant + 60 * minute

abbrev utc_autumn : ℕ → ℕ
utc_autumn wall = if ltb wall (1620 * minute) then wall - 120 * minute else wall - 60 * minute

-- The night shift takes nine hours then.
nine_hours :
    shift_window utc_autumn 0 night
    ≡ record { start = 1200 * minute; end = 1740 * minute; label = "night" }
unfolding shift_window
nine_hours = refl

-- 210 minutes after its end it is not computed again, although the late window is four hours.
missed_in_autumn : recheck_windows local_autumn utc_autumn (night ∷ []) (1950 * minute) 10 4 ≡ []
unfolding recheck_windows
missed_in_autumn = refl

once_per_start :
    ordered_unique
      (shift_window utc 0 night ∷ shift_window utc 0 early ∷ shift_window utc 0 night ∷ [])
    ≡ shift_window utc 0 early ∷ shift_window utc 0 night ∷ []
unfolding ordered_unique
once_per_start = unfold shift_window in refl

abbrev offered : List ShiftWindow
offered = shift_window utc 0 night ∷ shift_window utc 0 early ∷ shift_window utc 0 night ∷ []

ordered_unique-StartsDistinct_example :
    StartsDistinct (ordered_unique offered)
    × ((t : ℕ) → starts_at t (ordered_unique offered) ≡ starts_at t offered)
ordered_unique-StartsDistinct_example = ordered_unique-StartsDistinct offered
