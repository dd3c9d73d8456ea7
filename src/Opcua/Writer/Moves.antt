-- ===== src/Opcua/Writer/Moves.antt =====
-- Where each pass over the queue and the spool puts the messages (collector.py, forwarder.py and spool.py
-- of 10_uns_opcua/src/uns_opcua), by a test of them.
use manufacturing_uns.Prelude.{
  [], ◌∷◌, none, some, refl, Option, Bool, ◌++◌, ℕ, ◌≡◌, ◌∙◌, arith, List, filter, take, ◌+◌,
  if◌then◌else◌, not, suc, ◌==◌, ◌+◌, ltb, leb, zero, length, ◌-◌, ◌*◌, ◌&&◌, ap, drop, Bool-cases,
  if-elim, subst, ◌≤◌, inl, max, sym, length-drop, inr, take-append-drop, true, false, ◌||◌,
}
use manufacturing_uns.Opcua.Spool.{
  Spool, SpoolRow, StoredRow, SpoolConfig, enqueue, trim, trim_loop, trim_by_age, forward_batch,
  delete_lowest, trim_by_bytes, trim_by_rows, acknowledge,
}
use Prim.Native.Nat.{◌/◌, suc, zero}
use manufacturing_uns.Opcua.Spool.Fifo.{
  IdsBetween-le, IdsBetween-filter, IsOrdered, IdsBetween, messages, messages-append,
  enqueue-IsOrdered, enqueue-messages, delete_through-IsOrdered,
}
use manufacturing_uns.Opcua.Spool.Bounds.{trim_bounds}
use manufacturing_uns.Opcua.Spool.Deliver.{forward_batch-conserves}
use manufacturing_uns.Opcua.Writer.{SpoolWriter, enqueue_drop_oldest, trim_due, drain_once, enforce}

-- How many pass a test.
abbrev pub count : (SpoolRow → Bool) → List SpoolRow → ℕ
count p [] = 0
count p (x ∷ xs) = (if p x then 1 else 0) + count p xs

pub count-append :
    (p : SpoolRow → Bool) (xs ys : List SpoolRow) → count p (xs ++ ys) ≡ count p xs + count p ys
count-append p [] ys = omega arith
count-append p (x ∷ xs) ys = omega (arith, count-append p xs ys)

-- The oldest message of a queue that is full.
abbrev pub overflow : ℕ → List SpoolRow → List SpoolRow
overflow maxsize queue = if maxsize == 0 || ltb (length queue) maxsize then [] else take 1 queue

-- What a trim deletes: the rows that are too old, and the oldest of the others down to those it keeps.
abbrev pub trimmed : (List StoredRow → ℕ) → SpoolConfig → Spool → ℕ → List StoredRow
trimmed byte_size c s now =
    let young = (trim_by_age c s now).0.rows in
    filter (λ r. not (leb (now - c.max_age_hours * 3_600_000_000) r.spooled_at)) s.rows
    ++ take (length young - length (trim byte_size c s now).0.rows) young

-- The batch of a pass that cannot write it, or what the trim deletes that is due after one that can.
abbrev pub drained_away :
    (List StoredRow → ℕ) → SpoolConfig → SpoolWriter → ℕ → Bool → List SpoolRow
drained_away byte_size c w now writable =
    let rows = take w.batch_size w.queue in
    if not writable
    then rows
    else if ltb 0 (length rows) && trim_due w now
    then messages (trimmed byte_size c (enqueue w.spool rows now).0 now)
    else []

count-messages :
    (p : SpoolRow → Bool) (xs ys : List StoredRow)
    → count p (messages (xs ++ ys)) ≡ (count p (messages xs) + count p (messages ys))
count-messages p xs ys =
    ap (count p) (messages-append xs ys) ∙ count-append p (messages xs) (messages ys)

take-drop :
    (k : ℕ) (xs : List StoredRow) → take (length xs - length (drop k xs)) xs ++ drop k xs ≡ xs
take-drop zero xs = rw (self_minus (length xs)) refl
  where
    self_minus : (n : ℕ) → n - n ≡ 0
    self_minus n = omega arith
take-drop (suc k) [] = refl
take-drop (suc k) (x ∷ xs) =
    rw (more (length xs) (length (drop k xs)) (omega (arith, length-drop k xs)))
      (ap (λ l. x ∷ l) (take-drop k xs))
  where
    more : (m n : ℕ) → n ≤ m → suc m - n ≡ suc (m - n)
    more m n h = omega arith

count-split :
    (p : SpoolRow → Bool) (n : ℕ) (queue : List SpoolRow)
    → (count p (take n queue) + count p (drop n queue)) ≡ count p queue
count-split p n queue =
    sym (count-append p (take n queue) (drop n queue)) ∙ ap (count p) (take-append-drop n queue)

split-count :
    (q : StoredRow → Bool) (p : SpoolRow → Bool) (rows : List StoredRow)
    → (count p (messages (filter q rows)) + count p (messages (filter (λ r. not (q r)) rows)))
      ≡ count p (messages rows)
split-count q p [] = refl
split-count q p (r ∷ rows) = elim (Bool-cases (q r)) [
  | inl e ↦ rw e (ground (arith, split-count q p rows))
  | inr e ↦ rw e (ground (arith, split-count q p rows))
]

sum_parts :
    (kept taken stale young all gone : ℕ)
    → (taken + kept) ≡ young
    → (young + stale) ≡ all
    → gone ≡ (stale + taken)
    → (kept + gone) ≡ all
sum_parts kept taken stale young all gone h k l = omega (arith, h, k, l)

count_of_empty :
    (p : SpoolRow → Bool) (rows : List SpoolRow) → leb (length rows) 0 ≡ true → count p rows ≡ 0
count_of_empty p [] h = refl
count_of_empty p (r ∷ rows) h = absurd (ground arith)

none_away :
    (rows : List SpoolRow) (due : Bool)
    → leb (length rows) 0 ≡ true
    → (ltb 0 (length rows) && due) ≡ false
none_away rows due h = ground arith

some_away :
    (rows : List SpoolRow) (due : Bool)
    → leb (length rows) 0 ≡ false
    → (ltb 0 (length rows) && due) ≡ due
some_away rows due h = ground arith

sum_moves :
    (kept queue away stored taken left due : ℕ) {filled : ℕ} {queue' : ℕ}
    → queue' ≡ left
    → away ≡ due
    → (kept + due) ≡ filled
    → filled ≡ (stored + taken)
    → (taken + left) ≡ queue
    → (kept + (queue' + away)) ≡ (stored + queue)
sum_moves kept queue away stored taken left due h k l m n = omega (arith, h, k, l, m, n)

pub sum_drains :
    (sent spool queue dropped away total spool' queue' : ℕ) {dropped' : ℕ}
    → dropped' ≡ (dropped + away)
    → (spool' + (queue' + away)) ≡ (spool + queue)
    → (sent + (spool + (queue + dropped))) ≡ total
    → (sent + (spool' + (queue' + dropped'))) ≡ total
sum_drains sent spool queue dropped away total spool' queue' h k l = omega (arith, h, k, l)

IdsBetween-drop :
    (k m n : ℕ) (rows : List StoredRow) → IdsBetween m n rows → IdsBetween m n (drop k rows)
IdsBetween-drop zero m n rows h = h
IdsBetween-drop (suc k) m n [] h = h
IdsBetween-drop (suc k) m n (r ∷ rows) h =
    IdsBetween-drop k m n rows (IdsBetween-le r.id m n rows (omega (arith, h.0)) h.1)

acknowledge-IsOrdered :
    (s : Spool) (last : Option StoredRow) → IsOrdered s → IsOrdered (acknowledge s last)
unfolding acknowledge
acknowledge-IsOrdered s none h = h
acknowledge-IsOrdered s (some r) h = delete_through-IsOrdered s r.id h

pub forward_batch-IsOrdered :
    (accepts : StoredRow → Bool) (batch_size : ℕ) (s : Spool)
    → IsOrdered s
    → IsOrdered (forward_batch accepts batch_size s).spool
unfolding forward_batch
forward_batch-IsOrdered accepts batch_size s h = acknowledge-IsOrdered s _ h

-- A pass of the forwarder, by a test of the messages.
pub forward-count :
    (accepts : StoredRow → Bool) (batch_size : ℕ) (s : Spool) (p : SpoolRow → Bool)
    → IsOrdered s
    → (count p (messages (forward_batch accepts batch_size s).published)
        + count p (messages (forward_batch accepts batch_size s).spool.rows))
      ≡ count p (messages s.rows)
forward-count accepts batch_size s p h =
    sym (
      count-messages p (forward_batch accepts batch_size s).published
        (forward_batch accepts batch_size s).spool.rows)
    ∙ ap (λ l. count p (messages l)) (forward_batch-conserves accepts batch_size s h)

pub count_of_four :
    (p : SpoolRow → Bool) (a b c d : List SpoolRow)
    → count p (a ++ b ++ c ++ d) ≡ (count p a + (count p b + (count p c + count p d)))
count_of_four p a b c d =
    ground (arith, count-append p (a ++ b ++ c) d, count-append p (a ++ b) c, count-append p a b)

pub queued-count :
    (maxsize : ℕ) (queue : List SpoolRow) (row : SpoolRow) (p : SpoolRow → Bool)
    → (count p (enqueue_drop_oldest maxsize queue row).0 + count p (overflow maxsize queue))
      ≡ (count p queue + count p (row ∷ []))
unfolding enqueue_drop_oldest
queued-count maxsize queue row p = elim (Bool-cases (maxsize == 0 || ltb (length queue) maxsize)) [
  | inl q ↦ rw q (ground (arith, count-append p queue (row ∷ [])))
  | inr q ↦ rw q (ground (arith, count-append p (drop 1 queue) (row ∷ []), count-split p 1 queue))
]

module _ (byte_size : List StoredRow → ℕ) (c : SpoolConfig) where
  trim_loop-last_id :
      (fuel : ℕ) (s : Spool) (dropped : ℕ)
      → (trim_loop byte_size c fuel s dropped).0.last_id ≡ s.last_id
  unfolding trim_loop delete_lowest
  trim_loop-last_id zero s dropped = refl
  trim_loop-last_id (suc fuel) s dropped =
      if-elim (λ (r : Spool × ℕ). r.0.last_id ≡ s.last_id)
        (ltb c.max_bytes (byte_size s.rows) && ltb 0 (length s.rows)) _ _
        (λ q.
          if-elim (λ (r : Spool × ℕ). r.0.last_id ≡ s.last_id)
            ((delete_lowest s (max 1 (length s.rows / 10))).1 == 0) _ _ (λ e. refl)
            (λ e. trim_loop-last_id fuel (delete_lowest s (max 1 (length s.rows / 10))).0 _))
        (λ q. refl)

  -- What a trim keeps and deletes is what there was.
  trim-count :
      (s : Spool) (now : ℕ) (p : SpoolRow → Bool)
      → (count p (messages (trim byte_size c s now).0.rows)
          + count p (messages (trimmed byte_size c s now)))
        ≡ count p (messages s.rows)
  trim-count s now p =
      let young = (trim_by_age c s now).0.rows in
      let kept = (trim byte_size c s now).0.rows in
      let stale =
        filter (λ r. not (leb (now - c.max_age_hours * 3_600_000_000) r.spooled_at)) s.rows in
      let (k, e) = (trim_bounds byte_size c s now).3 in
      let parts : take (length young - length kept) young ++ kept ≡ young =
        subst (λ l. take (length young - length l) young ++ l ≡ young) (sym e)
          (take-drop k young) in
      let ages : (count p (messages young) + count p (messages stale)) ≡ count p (messages s.rows) =
        unfold trim_by_age in
        split-count (λ r. leb (now - c.max_age_hours * 3_600_000_000) r.spooled_at) p s.rows in
      sum_parts _ _ _ _ _ _
        (sym (count-messages p (take (length young - length kept) young) kept)
          ∙ ap (λ l. count p (messages l)) parts)
        ages (count-messages p stale (take (length young - length kept) young))

  trim-last_id : (s : Spool) (now : ℕ) → (trim byte_size c s now).0.last_id ≡ s.last_id
  unfolding trim trim_by_bytes trim_by_rows trim_by_age delete_lowest
  trim-last_id s now =
      let young = (trim_by_age c s now).0 in
      trim_loop-last_id _ _ 0
      ∙ if-elim (λ (r : Spool × ℕ). r.0.last_id ≡ s.last_id) (leb (length young.rows) c.max_rows) _
          _ (λ q. refl) (λ q. refl)

  trim-IsOrdered : (s : Spool) (now : ℕ) → IsOrdered s → IsOrdered (trim byte_size c s now).0
  trim-IsOrdered s now h =
      let (k, e) = (trim_bounds byte_size c s now).3 in
      let kept : IdsBetween 0 s.last_id (drop k (trim_by_age c s now).0.rows) =
        IdsBetween-drop k 0 s.last_id (trim_by_age c s now).0.rows
          (unfold trim_by_age in IdsBetween-filter _ 0 s.last_id s.rows h.between) in
      record {
        between =
            subst (λ n. IdsBetween 0 n (trim byte_size c s now).0.rows) (sym (trim-last_id s now))
              (subst (IdsBetween 0 s.last_id) (sym e) kept);
      }

  enforce-count :
      (w : SpoolWriter) (now : ℕ) (p : SpoolRow → Bool)
      → (count p (messages (enforce byte_size c w now).spool.rows)
          + count p (if trim_due w now then messages (trimmed byte_size c w.spool now) else []))
        ≡ count p (messages w.spool.rows)
  unfolding enforce
  enforce-count w now p = elim (Bool-cases (trim_due w now)) [
    | inl q ↦ rw q (trim-count w.spool now p)
    | inr q ↦ rw q (ground arith)
  ]

  enforce-queue : (w : SpoolWriter) (now : ℕ) → (enforce byte_size c w now).queue ≡ w.queue
  unfolding enforce
  enforce-queue w now =
      if-elim (λ (v : SpoolWriter). v.queue ≡ w.queue) (trim_due w now) _ _ (λ q. refl) (λ q. refl)

  enforce-IsOrdered :
      (w : SpoolWriter) (now : ℕ) → IsOrdered w.spool → IsOrdered (enforce byte_size c w now).spool
  unfolding enforce
  enforce-IsOrdered w now h =
      if-elim (λ (v : SpoolWriter). IsOrdered v.spool) (trim_due w now) _ _
        (λ q. trim-IsOrdered w.spool now h) (λ q. h)

  pub drain-IsOrdered :
      (w : SpoolWriter) (now : ℕ) (writable : Bool)
      → IsOrdered w.spool
      → IsOrdered (drain_once byte_size c w now writable).0.spool
  unfolding drain_once
  drain-IsOrdered w now writable h =
      if-elim (λ (r : SpoolWriter × ℕ). IsOrdered r.0.spool)
        (leb (length (take w.batch_size w.queue)) 0) _ _ (λ q. h)
        λ q.
          if-elim (λ (r : SpoolWriter × ℕ). IsOrdered r.0.spool) writable _ _
            (λ e.
              enforce-IsOrdered _ now (enqueue-IsOrdered w.spool (take w.batch_size w.queue) now h))
            (λ e. h)

  -- What a pass of the writer leaves in the queue and in the spool, with what it drops.
  pub drain-count :
      (w : SpoolWriter) (now : ℕ) (writable : Bool) (p : SpoolRow → Bool)
      → (count p (messages (drain_once byte_size c w now writable).0.spool.rows)
          + (count p (drain_once byte_size c w now writable).0.queue
              + count p (drained_away byte_size c w now writable)))
        ≡ (count p (messages w.spool.rows) + count p w.queue)
  unfolding drain_once
  drain-count w now false p =
      let rows = take w.batch_size w.queue in
      if-elim
        (λ (r : SpoolWriter × ℕ).
          (count p (messages r.0.spool.rows) + (count p r.0.queue + count p rows))
          ≡ (count p (messages w.spool.rows) + count p w.queue))
        (leb (length rows) 0) _ _ (λ q. ground (arith, count_of_empty p rows q))
        (λ q. ground (arith, count-split p w.batch_size w.queue))
  drain-count w now true p =
      let rows = take w.batch_size w.queue in
      let filled : SpoolWriter = record w {
        queue = drop w.batch_size w.queue;
        spool = (enqueue w.spool rows now).0;
      } in
      let away =
        if ltb 0 (length rows) && trim_due w now
        then messages (trimmed byte_size c filled.spool now)
        else [] in
      if-elim
        (λ (r : SpoolWriter × ℕ).
          (count p (messages r.0.spool.rows) + (count p r.0.queue + count p away))
          ≡ (count p (messages w.spool.rows) + count p w.queue))
        (leb (length rows) 0) _ _ (λ q. rw (none_away rows (trim_due w now) q) (ground arith))
        (λ q.
          let due : count p away
              ≡ count p (
                  if trim_due filled now
                  then messages (trimmed byte_size c filled.spool now)
                  else []) =
            unfold trim_due in
            ap (λ b. count p (if b then messages (trimmed byte_size c filled.spool now) else []))
              (some_away rows _ q) in
          let wrote : count p (messages filled.spool.rows)
              ≡ (count p (messages w.spool.rows) + count p rows) =
            ap (count p) (enqueue-messages w.spool rows now)
            ∙ count-append p (messages w.spool.rows) rows in
          sum_moves _ _ _ _ _ _ _ (ap (count p) (enforce-queue filled now)) due
            (enforce-count filled now p) wrote (count-split p w.batch_size w.queue))
