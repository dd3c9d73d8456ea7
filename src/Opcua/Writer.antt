-- ===== src/Opcua/Writer.antt =====
-- SpoolWriter of 10_uns_opcua/src/uns_opcua/forwarder.py, and the queue before it (enqueue_drop_oldest of
-- collector.py). Whether the spool can write is the argument
-- `writable`; the gauges are left out.
pub mod Drain
pub mod Moves
pub mod Stream
use manufacturing_uns.Prelude.{
  [], ◌∷◌, none, some, true, false, ℕ, Bool, List, Option, take, drop, length, leb, ◌-◌,
  if◌then◌else◌, ◌==◌, ◌||◌, ltb, ◌++◌,
}
use manufacturing_uns.Opcua.Spool.{Spool, SpoolRow, StoredRow, SpoolConfig, enqueue, trim}

pub record SpoolWriter : Type 0 where
  pub spool : Spool
  pub queue : List SpoolRow
  pub batch_size : ℕ
  pub trim_interval : ℕ
  pub last_trim_at : Option ℕ

-- A queue of size 0 has no bound. Whether the row went in without a loss is returned.
unfoldable pub enqueue_drop_oldest : ℕ → List SpoolRow → SpoolRow → List SpoolRow × Bool
enqueue_drop_oldest maxsize queue row =
    if maxsize == 0 || ltb (length queue) maxsize
    then (queue ++ row ∷ [], true)
    else (drop 1 queue ++ row ∷ [], false)

unfoldable pub trim_due : SpoolWriter → ℕ → Bool
trim_due w now = elim w.last_trim_at [ none ↦ true | some at ↦ leb w.trim_interval (now - at) ]

module _ (byte_size : List StoredRow → ℕ) where
  -- The end of `drain_once`, after a write.
  unfoldable pub enforce : SpoolConfig → SpoolWriter → ℕ → SpoolWriter
  unfolding trim trim_due
  enforce c w now =
      if trim_due w now
      then record w { spool = (trim byte_size c w.spool now).0; last_trim_at = some now }
      else w

  -- Rows that cannot be written have left the queue all the same.
  unfoldable pub drain_once : SpoolConfig → SpoolWriter → ℕ → Bool → SpoolWriter × ℕ
  unfolding enqueue enforce
  drain_once c w now writable =
      let rows = take w.batch_size w.queue in
      let taken = record w { queue = drop w.batch_size w.queue } in
      if leb (length rows) 0
      then (w, 0)
      else if writable
      then (enforce c (record taken { spool = (enqueue w.spool rows now).0 }) now, length rows)
      else (taken, 0)
