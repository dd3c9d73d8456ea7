-- ===== src/Opcua/Writer/Drain.antt =====
-- SpoolWriter.drain_once of 10_uns_opcua/src/uns_opcua/forwarder.py: what becomes of the queue.
use manufacturing_uns.Prelude.{
  [], ◌∷◌, true, false, refl, inl, inr, ℕ, List, ◌≡◌, ◌++◌, take, drop, length, take-append-drop,
  ap, ◌∙◌, Bool-cases, leb,
}
use manufacturing_uns.Opcua.Spool.{Spool, SpoolRow, StoredRow, SpoolConfig, enqueue}
use manufacturing_uns.Opcua.Spool.Fifo.{messages, enqueue-messages}
use manufacturing_uns.Opcua.Writer.{SpoolWriter, trim_due, enforce, drain_once}

append_assoc : (xs ys zs : List SpoolRow) → (xs ++ ys) ++ zs ≡ xs ++ (ys ++ zs)
append_assoc [] ys zs = refl
append_assoc (x ∷ xs) ys zs = ap (λ l. x ∷ l) (append_assoc xs ys zs)

moved :
    (spool : Spool) (queue : List SpoolRow) (n now : ℕ)
    → messages (enqueue spool (take n queue) now).0.rows ++ drop n queue
      ≡ messages spool.rows ++ queue
moved spool queue n now = rw (enqueue-messages spool (take n queue) now) (
    append_assoc (messages spool.rows) (take n queue) (drop n queue)
    ∙ ap (λ l. messages spool.rows ++ l) (take-append-drop n queue))

-- While the spool can be written and no trim is due, `drain_once` loses, repeats and reorders nothing:
-- the messages in the spool and then those in the queue are the same before and after.
pub drain_once-conserves :
    (byte_size : List StoredRow → ℕ) (c : SpoolConfig) (w : SpoolWriter) (now : ℕ)
    → trim_due w now ≡ false
    → messages (drain_once byte_size c w now true).0.spool.rows
        ++ (drain_once byte_size c w now true).0.queue
      ≡ messages w.spool.rows ++ w.queue
unfolding drain_once enforce
drain_once-conserves byte_size c w now h =
    elim (Bool-cases (leb (length (take w.batch_size w.queue)) 0)) [
      | inl q ↦ rw q refl
      | inr q ↦ rw (q, not_due) (moved w.spool w.queue w.batch_size now)
    ]
  where
    not_due :
        trim_due
          (record w {
            queue = drop w.batch_size w.queue;
            spool = (enqueue w.spool (take w.batch_size w.queue) now).0;
          })
          now
        ≡ false
    not_due = unfold trim_due in h
