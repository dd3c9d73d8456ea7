-- ===== src/Opcua/Spool/Deliver.antt =====
-- Order and loss in one pass of the forwarder: Forwarder.forward_batch of
-- 10_uns_opcua/src/uns_opcua/forwarder.py.
use manufacturing_uns.Prelude.{
  [], ◌∷◌, none, some, true, false, refl, inl, inr, ℕ, Bool, List, ◌≤◌, take, last?, filter, ◌≡◌,
  ltb, arith, drop, Bool-cases, subst, ◌<◌, ◌≢◌, zero, Option-cases, All, ◌++◌, take-append-drop,
}
use manufacturing_uns.Opcua.Spool.{
  Spool, StoredRow, peek, delete_through, publish_rows, acknowledge, forward_batch, suc,
}
use manufacturing_uns.Opcua.Spool.Fifo.{IsOrdered, IdsBetween}

filter_above :
    (k m n : ℕ) (rows : List StoredRow)
    → k ≤ m
    → IdsBetween m n rows
    → filter (λ r. ltb k r.id) rows ≡ rows
filter_above k m n [] h b = refl
filter_above k m n (r ∷ rest) h b = ground (arith, filter_above k r.id n rest, b.1)

module _ (accepts : StoredRow → Bool) where
  publish_rows-take :
      (l : ℕ) (rows : List StoredRow)
      → (k : ℕ) × (publish_rows accepts (take l rows) ≡ take k rows) × (k ≤ l)
  unfolding publish_rows
  publish_rows-take zero rows = (0, refl, omega arith)
  publish_rows-take (suc l) [] = (0, refl, omega arith)
  publish_rows-take (suc l) (r ∷ rest) = elim (Bool-cases (accepts r)) [
    | inl q ↦ let (k, e, h) = publish_rows-take l rest in (suc k, rw (q, e), omega arith)
    | inr q ↦ (0, rw q, omega arith)
  ]

last-above :
    (k m n : ℕ) (rows : List StoredRow) (r : StoredRow)
    → IdsBetween m n rows
    → last? (take k rows) ≡ some r
    → m < r.id
last-above zero m n rows r b e = absurd (ground arith)
last-above (suc k) m n [] r b e = absurd (ground arith)
last-above (suc zero) m n (x ∷ rest) r b e =
    let same : x ≡ r = ground arith in subst (λ z. m < z.id) same b.0
last-above (suc (suc k)) m n (x ∷ []) r b e =
    let same : x ≡ r = ground arith in subst (λ z. m < z.id) same b.0
last-above (suc (suc k)) m n (x ∷ y ∷ rest) r b e =
    omega (arith, b.0, last-above (suc k) x.id n (y ∷ rest) r b.1 e)

ltb_irrefl : (n : ℕ) → ltb n n ≡ false
ltb_irrefl n = ground arith

filter_first :
    (m n : ℕ) (x : StoredRow) (rest : List StoredRow)
    → IdsBetween m n (x ∷ rest)
    → filter (λ y. ltb x.id y.id) (x ∷ rest) ≡ rest
filter_first m n x rest b = rw (ltb_irrefl x.id) (filter_above x.id x.id n rest (omega arith) b.1)

-- Deleting through the last of the first rows leaves the others.
delete_prefix :
    (k m n : ℕ) (rows : List StoredRow) (r : StoredRow)
    → IdsBetween m n rows
    → last? (take k rows) ≡ some r
    → filter (λ x. ltb r.id x.id) rows ≡ drop k rows
delete_prefix zero m n rows r b e = absurd (ground arith)
delete_prefix (suc k) m n [] r b e = absurd (ground arith)
delete_prefix (suc zero) m n (x ∷ rest) r b e =
    let same : x ≡ r = ground arith in
    subst (λ z. filter (λ y. ltb z.id y.id) (x ∷ rest) ≡ rest) same (filter_first m n x rest b)
delete_prefix (suc (suc k)) m n (x ∷ []) r b e =
    let same : x ≡ r = ground arith in
    subst (λ z. filter (λ y. ltb z.id y.id) (x ∷ []) ≡ []) same (filter_first m n x [] b)
delete_prefix (suc (suc k)) m n (x ∷ y ∷ rest) r b e =
    rw (lt→ltb_not r.id x.id (last-above (suc k) x.id n (y ∷ rest) r b.1 e))
      (delete_prefix (suc k) x.id n (y ∷ rest) r b.1 e)
  where
    lt→ltb_not : (a b : ℕ) → b < a → ltb a b ≡ false
    lt→ltb_not a b h = ground arith

last-cons : (x : StoredRow) (rows : List StoredRow) → last? (x ∷ rows) ≢ none
last-cons x [] e = absurd (ground arith)
last-cons x (y ∷ rows) e = last-cons y rows e

take-none : (k : ℕ) (rows : List StoredRow) → last? (take k rows) ≡ none → rows ≡ drop k rows
take-none zero rows e = refl
take-none (suc k) [] e = refl
take-none (suc k) (x ∷ rest) e = absurd (last-cons x (take k rest) e)

acknowledge-drop :
    (s : Spool) (k : ℕ) → IsOrdered s → (acknowledge s (last? (take k s.rows))).rows ≡ drop k s.rows
acknowledge-drop s k h = elim (Option-cases (last? (take k s.rows))) [
  | inl e ↦ rw e (unfold acknowledge in take-none k s.rows e)
  | inr (r, e) ↦
      rw e (unfold acknowledge delete_through in delete_prefix k 0 s.last_id s.rows r h.between e)
]

-- For an ordered spool, whatever the broker takes and wherever it fails: what was published and what
-- is left make up the spool as it was, in its order. No row is lost, none is published out of turn,
-- and a row leaves the spool exactly if the broker took it.
pub forward_batch-conserves :
    (accepts : StoredRow → Bool) (batch_size : ℕ) (s : Spool)
    → IsOrdered s
    → (forward_batch accepts batch_size s).published
        ++ (forward_batch accepts batch_size s).spool.rows
      ≡ s.rows
unfolding forward_batch peek
forward_batch-conserves accepts batch_size s h =
    let (k, e, le) = publish_rows-take accepts batch_size s.rows in
    rw (e, acknowledge-drop s k h) (take-append-drop k s.rows)

publish_rows-All :
    (accepts : StoredRow → Bool) (rows : List StoredRow)
    → All (λ r. accepts r ≡ true) rows
    → publish_rows accepts rows ≡ rows
unfolding publish_rows
publish_rows-All accepts [] h = refl
publish_rows-All accepts (r ∷ rest) h = rw (h.0, publish_rows-All accepts rest h.1)

-- While the broker takes every row, each pass publishes a whole batch and finishes.
pub forward_batch_all :
    (accepts : StoredRow → Bool) (batch_size : ℕ) (s : Spool)
    → ((r : StoredRow) → accepts r ≡ true)
    → ((forward_batch accepts batch_size s).published ≡ take batch_size s.rows)
      × ((forward_batch accepts batch_size s).finished ≡ true)
unfolding forward_batch peek
forward_batch_all accepts batch_size s h =
    let e = publish_rows-All accepts (take batch_size s.rows) (all_rows (take batch_size s.rows)) in
    (e, rw e (ground arith))
  where
    all_rows : (rows : List StoredRow) → All (λ r. accepts r ≡ true) rows
    all_rows [] = tt
    all_rows (r ∷ rest) = (h r, all_rows rest)
