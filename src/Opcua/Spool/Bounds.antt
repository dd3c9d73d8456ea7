-- ===== src/Opcua/Spool/Bounds.antt =====
-- The three bounds of Spool.trim of 10_uns_opcua/src/uns_opcua/spool.py: age, rows and bytes.
use manufacturing_uns.Prelude.{
  [], true, false, refl, inl, inr, ℕ, ◌≡◌, List, ◌+◌, All, All-map, length, drop, ◌≤◌, leb, arith,
  Bool-cases, ◌⊎◌, ◌*◌, ◌-◌, filter-All, length-filter, leb→le, length-drop, zero, length-zero,
  All-drop, ◌∙◌, ltb, ap, drop-drop, ◌&&◌, ◌<◌, subst, sym, ◌==◌, max,
}
use manufacturing_uns.Opcua.Spool.{
  Spool, StoredRow, SpoolConfig, delete_lowest, trim_by_age, trim_by_rows, trim_by_bytes, trim_loop,
  trim, suc, ◌/◌,
}

-- No row is older than the limit.
abbrev pub Fresh : SpoolConfig → ℕ → List StoredRow → Type 0
Fresh c now rows = All (λ r. now ≤ r.spooled_at + c.max_age_hours * 3_600_000_000) rows

trim_by_age-Fresh :
    (c : SpoolConfig) (s : Spool) (now : ℕ) → Fresh c now (trim_by_age c s now).0.rows
unfolding trim_by_age
trim_by_age-Fresh c s now =
    All-map (λ r. leb (now - c.max_age_hours * 3_600_000_000) r.spooled_at ≡ true) _ _
      (λ r h. ground arith)
      (filter-All (λ r. leb (now - c.max_age_hours * 3_600_000_000) r.spooled_at) s.rows)

trim_by_age-count :
    (c : SpoolConfig) (s : Spool) (now : ℕ)
    → (trim_by_age c s now).1 + length (trim_by_age c s now).0.rows ≡ length s.rows
unfolding trim_by_age
trim_by_age-count c s now =
    omega
      (arith, length-filter (λ r. leb (now - c.max_age_hours * 3_600_000_000) r.spooled_at) s.rows)

delete_lowest-drop : (s : Spool) (n : ℕ) → (delete_lowest s n).0.rows ≡ drop n s.rows
unfolding delete_lowest
delete_lowest-drop s n = refl

trim_by_rows-drop :
    (c : SpoolConfig) (s : Spool)
    → (trim_by_rows c s).0.rows ≡ drop (length s.rows - c.max_rows) s.rows
unfolding trim_by_rows
trim_by_rows-drop c s = elim (Bool-cases (leb (length s.rows) c.max_rows)) [
  | inl q ↦ rw (q, none_over (leb→le _ _ q))
  | inr q ↦ rw q
]
  where
    none_over : length s.rows ≤ c.max_rows → length s.rows - c.max_rows ≡ 0
    none_over h = omega arith

trim_by_rows-count :
    (c : SpoolConfig) (s : Spool)
    → (trim_by_rows c s).1 + length (trim_by_rows c s).0.rows ≡ length s.rows
unfolding trim_by_rows
trim_by_rows-count c s = elim (Bool-cases (leb (length s.rows) c.max_rows)) [
  | inl q ↦ rw q (omega arith)
  | inr q ↦ rw q (omega (arith, length-drop (length s.rows - c.max_rows) s.rows))
]

module _ (byte_size : List StoredRow → ℕ) (c : SpoolConfig) where
  -- The size is within its bound, or nothing is left.
  abbrev pub Fits : List StoredRow → Type 0
  Fits rows = (byte_size rows ≤ c.max_bytes) ⊎ (rows ≡ [])

  -- With as much fuel as rows the loop ends by its test; it leaves the newest rows and counts those
  -- that it deletes.
  trim_loop_lem :
      (fuel : ℕ) (s : Spool) (dropped : ℕ)
      → length s.rows ≤ fuel
      → Fits (trim_loop byte_size c fuel s dropped).0.rows
        × ((k : ℕ) × ((trim_loop byte_size c fuel s dropped).0.rows ≡ drop k s.rows))
        × ((trim_loop byte_size c fuel s dropped).1
              + length (trim_loop byte_size c fuel s dropped).0.rows
            ≡ dropped + length s.rows)
  unfolding trim_loop
  trim_loop_lem zero s dropped h = (inr (length-zero s.rows (omega arith)), (0, refl), refl)
  trim_loop_lem (suc fuel) s dropped h =
      elim (Bool-cases (ltb c.max_bytes (byte_size s.rows) && ltb 0 (length s.rows))) [
        | inr q ↦ rw q (stays s q, (0, refl), refl)
        | inl q ↦
            let n = max 1 (length s.rows / 10) in
            let shorter : length (drop n s.rows) < length s.rows =
              omega (arith, length-drop n s.rows, nonempty s q) in
            let (fits, (k, e), count) =
              trim_loop_lem fuel (record s { rows = drop n s.rows })
                (dropped + (length s.rows - length (drop n s.rows))) (omega arith) in
            rw (q, positive (length s.rows) (length (drop n s.rows)) shorter)
              (fits, (n + k, e ∙ drop-drop n k s.rows), omega arith)
      ]
    where
      stays :
          (s : Spool)
          → (ltb c.max_bytes (byte_size s.rows) && ltb 0 (length s.rows)) ≡ false
          → Fits s.rows
      stays s q = elim (Bool-cases (ltb 0 (length s.rows))) [
        | inl some_left ↦ inl (ground arith)
        | inr none_left ↦ inr (length-zero s.rows (ground arith))
      ]

      nonempty :
          (s : Spool)
          → (ltb c.max_bytes (byte_size s.rows) && ltb 0 (length s.rows)) ≡ true
          → 0 < length s.rows
      nonempty s q = ground arith

      positive : (a b : ℕ) → b < a → ((a - b) == 0) ≡ false
      positive a b h = ground arith

Fresh-drop :
    (c : SpoolConfig) (now k : ℕ) (rows : List StoredRow)
    → Fresh c now rows
    → Fresh c now (drop k rows)
Fresh-drop c now k rows h =
    All-drop (λ r. now ≤ r.spooled_at + c.max_age_hours * 3_600_000_000) k rows h

-- For every measure of the size of the table: after `trim` no row is older than the limit, there are
-- no more rows than the limit, and the size is within its bound or no row is left. What is left are
-- the newest of the rows that are young enough, in their order, and the number that is returned is
-- the number of rows deleted.
pub trim_bounds :
    (byte_size : List StoredRow → ℕ) (c : SpoolConfig) (s : Spool) (now : ℕ)
    → Fresh c now (trim byte_size c s now).0.rows
      × (length (trim byte_size c s now).0.rows ≤ c.max_rows)
      × Fits byte_size c (trim byte_size c s now).0.rows
      × ((k : ℕ) × ((trim byte_size c s now).0.rows ≡ drop k (trim_by_age c s now).0.rows))
      × ((trim byte_size c s now).1 + length (trim byte_size c s now).0.rows ≡ length s.rows)
unfolding trim trim_by_bytes
trim_bounds byte_size c s now =
    let a = (trim_by_age c s now).0 in
    let b = (trim_by_rows c a).0 in
    let (fits, (k, e), count) = trim_loop_lem byte_size c (length b.rows) b 0 (omega arith) in
    let m = length a.rows - c.max_rows in
    let all : (trim_loop byte_size c (length b.rows) b 0).0.rows ≡ drop (m + k) a.rows =
      e ∙ ap (drop k) (trim_by_rows-drop c a) ∙ drop-drop m k a.rows in
    (
      subst (Fresh c now) (sym all) (Fresh-drop c now (m + k) a.rows (trim_by_age-Fresh c s now)),
      omega (arith, ap length all, length-drop (m + k) a.rows),
      fits,
      (m + k, all),
      omega (arith, count, trim_by_age-count c s now, trim_by_rows-count c a),
    )
