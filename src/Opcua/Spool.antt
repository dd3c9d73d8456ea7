-- ===== src/Opcua/Spool.antt =====
-- The disk-backed spool and its forwarder: 10_uns_opcua/src/uns_opcua/spool.py and forwarder.py.
-- The table is the list of its rows in the order of their ids, and the statements of the source are
-- functions on it. Times are microseconds. What SQLite reports as pages times page size is the
-- parameter `byte_size`, and what the broker does with each message is the parameter `accepts`.
pub mod Fifo
pub mod Bounds
pub mod Deliver
use Prim.Native.Nat.{◌/◌, suc}
use manufacturing_uns.Prelude.{
  [], ◌∷◌, none, some, true, false, String, List, ℕ, Bool, ◌++◌, length, take, filter, drop,
  if◌then◌else◌, Option, last?, ◌-◌, ◌+◌, ltb, leb, max, ◌==◌, ◌*◌, ◌&&◌, zero,
}
use manufacturing_uns.Prelude.Result.{Result, ok, err}

pub record SpoolRow : Type 0 where
  pub topic : String
  pub payload : List ℕ
  pub qos : ℕ

pub record StoredRow : Type 0 where
  pub id : ℕ
  pub row : SpoolRow
  pub spooled_at : ℕ

pub record SpoolConfig : Type 0 where
  pub max_rows : ℕ
  pub max_bytes : ℕ
  pub max_age_hours : ℕ

-- `last_id` is what AUTOINCREMENT remembers.
pub record Spool : Type 0 where
  pub rows : List StoredRow
  pub last_id : ℕ

unfoldable pub opened : Spool
opened = record { rows = []; last_id = 0 }

-- One INSERT.
unfoldable pub insert_row : ℕ → Spool → SpoolRow → Spool
insert_row now s row = record {
  rows = s.rows ++ record { id = s.last_id + 1; row = row; spooled_at = now } ∷ [];
  last_id = s.last_id + 1;
}

unfoldable pub insert_rows : ℕ → Spool → List SpoolRow → Spool
unfolding insert_row
insert_rows now s [] = s
insert_rows now s (row ∷ rest) = insert_rows now (insert_row now s row) rest

unfoldable pub enqueue : Spool → List SpoolRow → ℕ → Spool × ℕ
unfolding insert_rows
enqueue s rows now = (insert_rows now s rows, length rows)

unfoldable pub peek : Spool → ℕ → List StoredRow
peek s limit = take limit s.rows

unfoldable pub delete_through : Spool → ℕ → Spool × ℕ
delete_through s max_id =
    let kept = filter (λ r. ltb max_id r.id) s.rows in
    (record s { rows = kept }, length s.rows - length kept)

-- DELETE of the lowest `n` ids.
unfoldable pub delete_lowest : Spool → ℕ → Spool × ℕ
delete_lowest s n =
    let kept = drop n s.rows in (record s { rows = kept }, length s.rows - length kept)

unfoldable pub trim_by_age : SpoolConfig → Spool → ℕ → Spool × ℕ
trim_by_age c s now =
    let cutoff = now - c.max_age_hours * 3_600_000_000 in
    let kept = filter (λ r. leb cutoff r.spooled_at) s.rows in
    (record s { rows = kept }, length s.rows - length kept)

unfoldable pub trim_by_rows : SpoolConfig → Spool → Spool × ℕ
unfolding delete_lowest
trim_by_rows c s =
    if leb (length s.rows) c.max_rows then (s, 0) else delete_lowest s (length s.rows - c.max_rows)

module _ (byte_size : List StoredRow → ℕ) where
  -- The `while` of `_trim_by_bytes`, on fuel; the break on an empty deletion is taken too.
  unfoldable pub trim_loop : SpoolConfig → ℕ → Spool → ℕ → Spool × ℕ
  unfolding delete_lowest
  trim_loop c zero s dropped = (s, dropped)
  trim_loop c (suc fuel) s dropped =
      let (s', count) = delete_lowest s (max 1 (length s.rows / 10)) in
      let more = trim_loop c fuel s' (dropped + count) in
      if ltb c.max_bytes (byte_size s.rows) && ltb 0 (length s.rows)
      then (if count == 0 then (s', dropped) else more)
      else (s, dropped)

  -- Each round deletes a row, so as many rounds as there are rows are enough.
  unfoldable pub trim_by_bytes : SpoolConfig → Spool → Spool × ℕ
  unfolding trim_loop
  trim_by_bytes c s = trim_loop c (length s.rows) s 0

  unfoldable pub trim : SpoolConfig → Spool → ℕ → Spool × ℕ
  unfolding trim_by_age trim_by_rows trim_by_bytes
  trim c s now =
      let (by_age, aged) = trim_by_age c s now in
      let (by_rows, extra) = trim_by_rows c by_age in
      let (by_bytes, large) = trim_by_bytes c by_rows in (by_bytes, aged + extra + large)

-- What one pass of the forwarder leaves: the spool, the rows that the broker took, and whether the
-- loop ran to its end or raised.
pub record Forwarded : Type 0 where
  pub spool : Spool
  pub published : List StoredRow
  pub finished : Bool

-- `finally`: delete through the last acknowledged id, if there is one.
unfoldable pub acknowledge : Spool → Option StoredRow → Spool
unfolding delete_through
acknowledge s none = s
acknowledge s (some r) = (delete_through s r.id).0

module _ (accepts : StoredRow → Bool) where
  -- The rows that are published before the first that raises.
  unfoldable pub publish_rows : List StoredRow → List StoredRow
  publish_rows [] = []
  publish_rows (r ∷ rest) = if accepts r then r ∷ publish_rows rest else []

  unfoldable pub forward_batch : ℕ → Spool → Forwarded
  unfolding peek publish_rows acknowledge
  forward_batch batch_size s =
      let batch = peek s batch_size in
      let published = publish_rows batch in
      record {
        spool = acknowledge s (last? published);
        published = published;
        finished = length published == length batch;
      }
