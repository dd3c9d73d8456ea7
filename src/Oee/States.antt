-- ===== src/Oee/States.antt =====
-- Machine-state segments: `state_segments` and `stop_intervals` of
-- 12_uns_oee/src/uns_oee/states.py.
pub mod Level
pub mod Segments
use manufacturing_uns.Prelude.{
  [], ◌∷◌, none, some, String, true, false, ℕ, Bool, List, Option, ltb, last?, if◌then◌else◌, ◌++◌,
  any, ◌||◌, filter, leb, ◌&&◌, ◌==◌,
}
use manufacturing_uns.Prelude.Sort.{sorted}
use manufacturing_uns.Prelude.Text.{str_leb}
use text.Mathlib.Text.{◌==◌ as str_eq}
use manufacturing_uns.Oee.Interval.{Interval}

pub record StateSample : Type 0 where
  pub at : ℕ
  pub state : String

pub record StateSegment : Type 0 where
  pub state : String
  pub interval : Interval

pub record StopInterval : Type 0 where
  pub state : String
  pub interval : Interval

-- `order=True`: by time, then by state.
unfoldable pub state_leb : StateSample → StateSample → Bool
state_leb a b = ltb a.at b.at || a.at == b.at && str_leb a.state b.state

-- The point that opens the window, with the state of `prior[-1]`.
unfoldable pub opening : ℕ → Option StateSample → List StateSample
opening start none = []
opening start (some sample) = record { at = start; state = sample.state } ∷ []

-- The points at which a segment can begin.
unfoldable pub points : List StateSample → Interval → List StateSample
unfolding opening
points ordered window =
    opening window.start (last? (filter (λ s. leb s.at window.start) ordered))
    ++ filter (λ s. ltb window.start s.at && ltb s.at window.end) ordered

-- Where the segment of a point ends: at the next point, or with the window.
unfoldable pub end_of : ℕ → List StateSample → ℕ
end_of stop [] = stop
end_of stop (next ∷ rest) = next.at

-- One round of the loop over the points. The second argument is `segments[-1]`; what is returned
-- first is the segment that no later round can change.
unfoldable pub segment_step :
    ℕ → Option StateSegment → StateSample → List StateSegment × Option StateSegment
segment_step end none point = if leb end point.at then ([], none) else (
  [],
  some (record { state = point.state; interval = record { start = point.at; end = end } }),
)
segment_step end (some last) point =
    if leb end point.at
    then ([], some last)
    else if str_eq last.state point.state
    then (
      [],
      some (record {
        state = point.state;
        interval = record { start = last.interval.start; end = end };
      }),
    )
    else (
      last ∷ [],
      some (record { state = point.state; interval = record { start = point.at; end = end } }),
    )

unfoldable pub close : Option StateSegment → List StateSegment
close none = []
close (some last) = last ∷ []

unfoldable pub segments_from : ℕ → Option StateSegment → List StateSample → List StateSegment
unfolding segment_step end_of close
segments_from stop last [] = close last
segments_from stop last (point ∷ rest) =
    let (done, last') = segment_step (end_of stop rest) last point in
    done ++ segments_from stop last' rest

unfoldable pub state_segments : List StateSample → Interval → List StateSegment
unfolding points segments_from sorted state_leb str_leb
state_segments samples window =
    segments_from window.end none (points (sorted state_leb samples) window)

-- `state in set(producing_states)`.
unfoldable pub producing : List String → String → Bool
producing states state = any (λ p. str_eq p state) states

unfoldable pub stop_intervals : List StateSegment → List String → List StopInterval
unfolding producing
stop_intervals [] states = []
stop_intervals (segment ∷ rest) states =
    if producing states segment.state
    then stop_intervals rest states
    else record { state = segment.state; interval = segment.interval } ∷ stop_intervals rest states
