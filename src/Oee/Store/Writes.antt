-- ===== src/Oee/Store/Writes.antt =====
-- Sequences of the writes of 12_uns_oee/src/uns_oee/store.py.
use manufacturing_uns.Prelude.{[], refl, ℕ, List, arith, String}
use manufacturing_uns.Oee.Calc.{ShiftMetrics}
use manufacturing_uns.Oee.Classifier.{ClassifiedStop}
use manufacturing_uns.Oee.Tables.{Database, ShiftWindow}
use manufacturing_uns.Oee.Store.{find_result, mark_published, save}
use manufacturing_uns.Oee.Store.Revisions.{archived, Complete, History}
use manufacturing_uns.Oee.Store.History.{save-History, mark_published-History}

-- The writes of the engine.
pub data Write : Database → Database → Type 0 where
  saving :
      (db : Database) (unit_id : ℕ) (window : ShiftWindow) (metrics : ShiftMetrics)
      (stops : List ClassifiedStop) (fingerprint : String) (computed_at : ℕ)
      → Write db (save db unit_id window metrics stops fingerprint computed_at).0
  publishing : (db : Database) (id at : ℕ) → Write db (mark_published db id at)

pub data Writes (db : Database) : Database → Type 0 where
  nothing : Writes db db
  also : {a b : Database} → Writes db a → Write a b → Writes db b

Write-History : (a b : Database) → Write a b → History a → History b
Write-History a _ (saving _ unit_id window metrics stops fingerprint computed_at) h =
    save-History a unit_id window metrics stops fingerprint computed_at h
Write-History a _ (publishing _ id at) h = mark_published-History a id at h

abbrev pub empty_database : Database
empty_database = record { results = []; last_id = 0; revisions = []; products = []; events = [] }

empty_database-History : History empty_database
unfolding find_result archived
empty_database-History = record { rise = omega arith; complete = λ unit_id start. refl }

Writes-History_lem : (a b : Database) → Writes a b → History a → History b
Writes-History_lem d _ nothing h = h
Writes-History_lem d _ (also {a} {b} before one) h =
    Write-History a b one (Writes-History_lem d a before h)

-- After any sequence of saves and publications on an empty database, for every unit and shift: where
-- a result stands on record with revision n, the archive holds the revisions 1, ..., n - 1 of the
-- shift, each once and in this order; where none stands, the archive holds none of it.
pub Writes-Complete :
    (db : Database) (unit_id start : ℕ)
    → Writes empty_database db
    → Complete (find_result unit_id start db.results) (archived unit_id start db.revisions)
Writes-Complete db unit_id start w =
    (Writes-History_lem empty_database db w empty_database-History).complete unit_id start
