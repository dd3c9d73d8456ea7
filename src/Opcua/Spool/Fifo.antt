-- ===== src/Opcua/Spool/Fifo.antt =====
-- The order of the rows of the spool, for the operations of 10_uns_opcua/src/uns_opcua/spool.py.
use manufacturing_uns.Prelude.{
  [], ◌∷◌, refl, inl, inr, ℕ, Bool, arith, List, ◌≤◌, ◌≡◌, filter, ltb, ◌++◌, ◌<◌, Bool-cases, ◌+◌,
}
use mathlib.Core.List.{append-nil, append_assoc}
use manufacturing_uns.Opcua.Spool.{
  Spool, StoredRow, SpoolRow, opened, insert_row, insert_rows, enqueue, delete_through,
}

-- Ids rise from above `m` on and end by `n`.
abbrev pub IdsBetween : ℕ → ℕ → List StoredRow → Type 0
IdsBetween m n [] = m ≤ n
IdsBetween m n (r ∷ rest) = (m < r.id) × IdsBetween r.id n rest

-- Every row has an id of its own, in the order of the table, and none above the last one given out.
pub record IsOrdered (s : Spool) : Type 0 where
  pub between : IdsBetween 0 s.last_id s.rows

pub IdsBetween-le :
    (m m' n : ℕ) (rows : List StoredRow) → m' ≤ m → IdsBetween m n rows → IdsBetween m' n rows
IdsBetween-le m m' n [] h k = omega arith
IdsBetween-le m m' n (r ∷ rest) h k = (omega arith, k.1)

IdsBetween-append :
    (m n : ℕ) (rows : List StoredRow) (r : StoredRow)
    → IdsBetween m n rows
    → r.id ≡ n + 1
    → IdsBetween m (n + 1) (rows ++ r ∷ [])
IdsBetween-append m n [] r h e = (omega arith, omega arith)
IdsBetween-append m n (x ∷ rest) r h e = (h.0, IdsBetween-append x.id n rest r h.1 e)

pub IdsBetween-filter :
    (p : StoredRow → Bool) (m n : ℕ) (rows : List StoredRow)
    → IdsBetween m n rows
    → IdsBetween m n (filter p rows)
IdsBetween-filter p m n [] h = h
IdsBetween-filter p m n (r ∷ rest) h = elim (Bool-cases (p r)) [
  | inl q ↦ rw q (h.0, IdsBetween-filter p r.id n rest h.1)
  | inr q ↦
      rw q
        (IdsBetween-le r.id m n (filter p rest) (omega arith) (IdsBetween-filter p r.id n rest h.1))
]

pub opened-IsOrdered : IsOrdered opened
unfolding opened
opened-IsOrdered = record { between = omega arith }

insert_row-IsOrdered :
    (now : ℕ) (s : Spool) (row : SpoolRow) → IsOrdered s → IsOrdered (insert_row now s row)
unfolding insert_row
insert_row-IsOrdered now s row h = record {
  between = IdsBetween-append 0 s.last_id s.rows _ h.between refl;
}

insert_rows-IsOrdered :
    (now : ℕ) (s : Spool) (rows : List SpoolRow) → IsOrdered s → IsOrdered (insert_rows now s rows)
unfolding insert_rows
insert_rows-IsOrdered now s [] h = h
insert_rows-IsOrdered now s (row ∷ rest) h =
    insert_rows-IsOrdered now (insert_row now s row) rest (insert_row-IsOrdered now s row h)

pub enqueue-IsOrdered :
    (s : Spool) (rows : List SpoolRow) (now : ℕ) → IsOrdered s → IsOrdered (enqueue s rows now).0
unfolding enqueue
enqueue-IsOrdered s rows now h = insert_rows-IsOrdered now s rows h

pub delete_through-IsOrdered :
    (s : Spool) (max_id : ℕ) → IsOrdered s → IsOrdered (delete_through s max_id).0
unfolding delete_through
delete_through-IsOrdered s max_id h = record {
  between = IdsBetween-filter (λ r. ltb max_id r.id) 0 s.last_id s.rows h.between;
}

-- The messages of the spool, oldest first.
abbrev pub messages : List StoredRow → List SpoolRow
messages [] = []
messages (r ∷ rest) = r.row ∷ messages rest

pub messages-append : (xs ys : List StoredRow) → messages (xs ++ ys) ≡ messages xs ++ messages ys
messages-append [] ys = refl
messages-append (x ∷ xs) ys = rw (messages-append xs ys)

insert_rows-messages :
    (now : ℕ) (s : Spool) (rows : List SpoolRow)
    → messages (insert_rows now s rows).rows ≡ messages s.rows ++ rows
unfolding insert_rows
insert_rows-messages now s [] = simp append-nil
insert_rows-messages now s (row ∷ rest) =
    simp (insert_rows-messages now (insert_row now s row) rest, messages-append, append_assoc)

-- `enqueue` puts its messages behind those of the spool, in their order, and changes none of those.
pub enqueue-messages :
    (s : Spool) (rows : List SpoolRow) (now : ℕ)
    → messages (enqueue s rows now).0.rows ≡ messages s.rows ++ rows
unfolding enqueue
enqueue-messages s rows now = insert_rows-messages now s rows
