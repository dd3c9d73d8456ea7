-- ===== src/Opcua/Writer/Stream.antt =====
-- The queue, the spool, its writer and its forwarder (collector.py, forwarder.py and spool.py of
-- 10_uns_opcua/src/uns_opcua) in any interleaving of their passes.
use manufacturing_uns.Prelude.{[], ◌∷◌, none, Bool, ◌++◌, ℕ, ◌≡◌, ◌∙◌, List, sym, ◌+◌}
use manufacturing_uns.Opcua.Spool.{SpoolRow, StoredRow, SpoolConfig, opened, forward_batch}
use manufacturing_uns.Opcua.Spool.Fifo.{IsOrdered, messages}
use manufacturing_uns.Opcua.Writer.{SpoolWriter, enqueue_drop_oldest, drain_once}
use manufacturing_uns.Opcua.Writer.Moves.{count, overflow, drained_away, count_of_four, count}

-- The writer with its queue and its spool, what was handed over, what the broker took, what was
-- dropped, and what the broker took in passes that failed to delete it, so far.
pub record Stream : Type 0 where
  pub writer : SpoolWriter
  pub given : List SpoolRow
  pub sent : List SpoolRow
  pub dropped : List SpoolRow
  pub again : List SpoolRow

abbrev pub everything : Stream → List SpoolRow
everything l = l.sent ++ messages l.writer.spool.rows ++ l.writer.queue ++ l.dropped

abbrev pub fresh : ℕ → ℕ → Stream
fresh batch_size trim_interval = record {
  writer = record {
    spool = opened;
    queue = [];
    batch_size = batch_size;
    trim_interval = trim_interval;
    last_trim_at = none;
  };
  given = [];
  sent = [];
  dropped = [];
  again = [];
}

module _ (byte_size : List StoredRow → ℕ) (c : SpoolConfig) where
  -- A message for the queue; a pass of the writer, whether it can write or not, with the trim that may be
  -- due; a pass of the forwarder with a broker that takes what it will; and one whose deletion fails.
  pub data Step : Stream → Stream → Type 0 where
    hands_over :
        (l : Stream) (maxsize : ℕ) (row : SpoolRow)
        → Step l (record l {
          writer = record l.writer { queue = (enqueue_drop_oldest maxsize l.writer.queue row).0 };
          given = l.given ++ row ∷ [];
          dropped = l.dropped ++ overflow maxsize l.writer.queue;
        })
    drains :
        (l : Stream) (now : ℕ) (writable : Bool)
        → Step l (record l {
          writer = (drain_once byte_size c l.writer now writable).0;
          dropped = l.dropped ++ drained_away byte_size c l.writer now writable;
        })
    forwards :
        (l : Stream) (accepts : StoredRow → Bool) (batch_size : ℕ)
        → Step l (record l {
          writer = record l.writer {
            spool = (forward_batch accepts batch_size l.writer.spool).spool;
          };
          sent = l.sent ++ messages (forward_batch accepts batch_size l.writer.spool).published;
        })
    keeps_sent :
        (l : Stream) (accepts : StoredRow → Bool) (batch_size : ℕ)
        → Step l (record l {
          sent = l.sent ++ messages (forward_batch accepts batch_size l.writer.spool).published;
          again = l.again ++ messages (forward_batch accepts batch_size l.writer.spool).published;
        })

  pub data Run (l : Stream) : Stream → Type 0 where
    idle : Run l l
    pass : {m n : Stream} → Run l m → Step m n → Run l n

  record InTransit (l : Stream) : Type 0 where
    ordered : IsOrdered l.writer.spool
    accounted : (p : SpoolRow → Bool) → count p (everything l) ≡ count p l.given + count p l.again

  given :
      (l : Stream)
      → InTransit l
      → (p : SpoolRow → Bool)
      → (count p l.sent
          + (count p (messages l.writer.spool.rows) + (count p l.writer.queue + count p l.dropped)))
        ≡ count p l.given + count p l.again
  given l v p =
      sym (count_of_four p l.sent (messages l.writer.spool.rows) l.writer.queue l.dropped)
      ∙ v.accounted p
