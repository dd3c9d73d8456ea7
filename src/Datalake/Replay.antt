-- ===== src/Datalake/Replay.antt =====
-- Where consumption of a partition starts: 14_uns_datalake/src/uns_datalake/replay.py. The positions
-- that `choose_start` does not know cannot be written.
use manufacturing_uns.Prelude.{none, some, Option, ℕ, if◌then◌else◌, ◌≤◌, ltb, ◌≡◌, arith}
use manufacturing_uns.Prelude.Result.{Result, ok, err}

pub data InitialPosition : Type 0 where
  require_committed : InitialPosition
  earliest : InitialPosition
  latest : InitialPosition

pub data ReplayError : Type 0 where
  data_gap : ReplayError
  invalid_position : ReplayError
  initial_position_required : ReplayError

unfoldable pub choose_start : Option ℕ → ℕ → ℕ → InitialPosition → Result ReplayError ℕ
choose_start (some committed) low high position =
    if ltb committed low
    then err data_gap
    else if ltb high committed
    then err invalid_position
    else ok committed
choose_start none low high require_committed = err initial_position_required
choose_start none low high earliest = ok low
choose_start none low high latest = ok high

-- A start is the committed offset, where there is one, and lies between the watermarks.
pub choose_start_bounds :
    (committed : Option ℕ) (low high start : ℕ) (position : InitialPosition)
    → low ≤ high
    → choose_start committed low high position ≡ ok start
    → (low ≤ start) × (start ≤ high) × ((c : ℕ) → committed ≡ some c → start ≡ c)
unfolding choose_start
choose_start_bounds (some c) low high start position h e =
    (ground arith, ground arith, λ d q. ground arith)
choose_start_bounds none low high start require_committed h e = absurd (ground arith)
choose_start_bounds none low high start earliest h e =
    (ground arith, ground arith, λ d q. absurd (ground arith))
choose_start_bounds none low high start latest h e =
    (ground arith, ground arith, λ d q. absurd (ground arith))
