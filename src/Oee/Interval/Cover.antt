-- ===== src/Oee/Interval/Cover.antt =====
-- The instants that a list of intervals covers, and lists in canonical form: the two views by
-- which the operations of states.py are specified.
use manufacturing_uns.Prelude.{ℕ, suc, ◌<◌, ◌≤◌, Bool, ◌&&◌, List, [], ◌∷◌, ltb, leb, any}
use manufacturing_uns.Oee.Interval.{Interval}

-- The interval contains the instant.
unfoldable pub contains : Interval → ℕ → Bool
contains i t = leb i.start t && ltb t i.end

-- Some interval of the list contains the instant.
unfoldable pub covers : List Interval → ℕ → Bool
unfolding contains
covers is t = any (λ i. contains i t) is

-- Each interval is non-empty and begins at the instant `b` or later, and with a gap after the end
-- of the one before it.
abbrev pub Follows : ℕ → List Interval → Type 0
Follows b [] = Unit
Follows b (i ∷ is) = (b ≤ i.start) × (i.start < i.end) × Follows (suc i.end) is

-- Non-empty intervals in order of time, no two of which touch.
abbrev pub IsCanonical : List Interval → Type 0
IsCanonical is = Follows 0 is

-- Starts in order, from `s` on.
abbrev pub StartsFrom : ℕ → List Interval → Type 0
StartsFrom s [] = Unit
StartsFrom s (i ∷ is) = (s ≤ i.start) × StartsFrom i.start is
