-- ===== src/Opcua/Examples.antt =====
-- Tests of the spool by evaluation, and its theorems at concrete inputs.
use manufacturing_uns.Opcua.Writer.Moves.{overflow, drained_away}
use manufacturing_uns.Opcua.Writer.Stream.{Stream, fresh}
use text.Mathlib.Text.{◌==◌}
use manufacturing_uns.Opcua.Writer.{enqueue_drop_oldest, SpoolWriter, drain_once, trim_due}
use manufacturing_uns.Opcua.Writer.Drain.{drain_once-conserves}
use manufacturing_uns.Opcua.Spool.Fifo.{IsOrdered, messages}
use manufacturing_uns.Opcua.Spool.Bounds.{Fresh, Fits, trim_bounds}
use manufacturing_uns.Prelude.{
  [], ◌∷◌, refl, String, ℕ, List, ◌≡◌, Bool, ◌++◌, ◌*◌, length, arith, ltb, ◌≤◌, drop, ◌+◌, some,
  true,
}
use manufacturing_uns.Opcua.Spool.{
  Spool, SpoolRow, StoredRow, SpoolConfig, opened, enqueue, trim, trim_by_age, forward_batch,
}

abbrev message : String → SpoolRow
message topic = record { topic = topic; payload = 1 ∷ 2 ∷ []; qos = 1 }

abbrev stored : ℕ → String → ℕ → StoredRow
stored id topic at = record { id = id; row = message topic; spooled_at = at }

abbrev backlog : Spool
backlog = record {
  rows =
      stored 4 "a" 100
      ∷ stored 5 "b" 100
      ∷ stored 8 "c" 7_200_000_000
      ∷ stored 9 "a" 7_200_000_000
      ∷ [];
  last_id = 9;
}

abbrev config : SpoolConfig
config = record { max_rows = 3; max_bytes = 10; max_age_hours = 1 }

-- Eight units for each row.
abbrev bytes : List StoredRow → ℕ
bytes rows = 8 * length rows

trim-backlog :
    trim bytes config backlog 7_200_000_000
    ≡ (record { rows = stored 9 "a" 7_200_000_000 ∷ []; last_id = 9 }, 3)
unfolding trim
trim-backlog = refl

trim_bounds_example :
    Fresh config 7_200_000_000 (trim bytes config backlog 7_200_000_000).0.rows
    × (length (trim bytes config backlog 7_200_000_000).0.rows ≤ config.max_rows)
    × Fits bytes config (trim bytes config backlog 7_200_000_000).0.rows
    × ((k : ℕ) × ((trim bytes config backlog 7_200_000_000).0.rows
          ≡ drop k (trim_by_age config backlog 7_200_000_000).0.rows))
    × ((trim bytes config backlog 7_200_000_000).1
          + length (trim bytes config backlog 7_200_000_000).0.rows
        ≡ length backlog.rows)
trim_bounds_example = trim_bounds bytes config backlog 7_200_000_000

backlog-IsOrdered : IsOrdered backlog
backlog-IsOrdered = record { between = omega arith }

-- A broker that fails at the third row.
abbrev until_eight : StoredRow → Bool
until_eight r = ltb r.id 8

forward-backlog :
    (forward_batch until_eight 3 backlog).spool.rows
    ≡ stored 8 "c" 7_200_000_000 ∷ stored 9 "a" 7_200_000_000 ∷ []
unfolding forward_batch
forward-backlog = refl

abbrev start : Stream
start = fresh 2 5_000_000

-- Two messages are handed over to a queue of one, the first pass of the writer fails and a second one
-- writes, and what the forwarder sends is not deleted at first.
abbrev overflowed : Stream
overflowed =
    let one : Stream = record start {
      writer = record start.writer {
        queue = (enqueue_drop_oldest 1 start.writer.queue (message "x")).0;
      };
      given = start.given ++ message "x" ∷ [];
      dropped = start.dropped ++ overflow 1 start.writer.queue;
    } in
    record one {
      writer = record one.writer {
        queue = (enqueue_drop_oldest 1 one.writer.queue (message "y")).0;
      };
      given = one.given ++ message "y" ∷ [];
      dropped = one.dropped ++ overflow 1 one.writer.queue;
    }

abbrev spooled : Stream
spooled = record overflowed {
  writer = (drain_once bytes config overflowed.writer 5 true).0;
  dropped = overflowed.dropped ++ drained_away bytes config overflowed.writer 5 true;
}

abbrev sent_once : Stream
sent_once = record spooled {
  sent = spooled.sent ++ messages (forward_batch until_eight 3 spooled.writer.spool).published;
  again = spooled.again ++ messages (forward_batch until_eight 3 spooled.writer.spool).published;
}

again-y : sent_once.again ≡ message "y" ∷ []
unfolding drain_once forward_batch enqueue_drop_oldest opened trim_due
again-y = refl

sent-y : sent_once.sent ≡ message "y" ∷ []
unfolding drain_once forward_batch enqueue_drop_oldest opened trim_due
sent-y = refl

dropped-x : sent_once.dropped ≡ message "x" ∷ []
unfolding drain_once forward_batch enqueue_drop_oldest opened trim_due trim trim_by_age enqueue
dropped-x = refl

abbrev is_x : SpoolRow → Bool
is_x row = row.topic == "x"

abbrev writer : SpoolWriter
writer = record {
  spool = backlog;
  queue = message "p" ∷ message "q" ∷ message "r" ∷ [];
  batch_size = 2;
  trim_interval = 5_000_000;
  last_trim_at = some 7_200_000_000;
}

drain_once-writer : (drain_once bytes config writer 7_200_000_100 true).1 ≡ 2
unfolding drain_once
drain_once-writer = refl

drain_once-conserves_example :
    messages (drain_once bytes config writer 7_200_000_100 true).0.spool.rows
      ++ (drain_once bytes config writer 7_200_000_100 true).0.queue
    ≡ messages backlog.rows ++ message "p" ∷ message "q" ∷ message "r" ∷ []
drain_once-conserves_example =
    drain_once-conserves bytes config writer 7_200_000_100 (unfold trim_due in refl)
